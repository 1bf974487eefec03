-- ===== src/Cluster.antt =====
-- The three programs together: the world that a mount calls into is one metadata server and the
-- storage nodes by their addresses, whose handlers are those of crates/dtmpfs-meta/src/service.rs
-- and crates/dtmpfs-store/src/service.rs. The caches of moka are a parameter.
pub mod Holding
pub mod Routes
pub mod Writing
pub mod Publishing
pub mod Committing
pub mod Reading
pub mod Serving
pub mod Fetching
pub mod Opening
pub mod CloseToOpen
pub mod Reopening
pub mod ReadBack
pub mod Creating
pub mod Replies
pub mod Heartbeats
mod Examples
mod ReadBackExamples
mod ReplyExamples
use dtmpfs.Prelude.{ℕ, ◌≡◌, String, Bool, Option, none, some, List, ◌++◌, Dict, is_some, string_eq}
use dtmpfs.Prelude.HashMap
use dtmpfs.Common.Id.{InodeId, Generation, BlockIdx}
use dtmpfs.Common.Error.{Status, Result, done, fail, unavailable}
use dtmpfs.Store.{Bytes, StoreState, ReadBlockReq, ReadBlockResp, WriteBlockReq, status}
use dtmpfs.Store
use dtmpfs.Meta.State.{SystemTime, Instant, MetaState}
use dtmpfs.Meta.Messages.{DeleteCall}
use dtmpfs.Meta.Namespace
use dtmpfs.Meta.Rename.{rename}
use dtmpfs.Meta.Attributes.{get_attr, set_attr}
use dtmpfs.Meta.Listing.{read_dir}
use dtmpfs.Meta.Handles
use dtmpfs.Meta.Blocks.{allocate}
use dtmpfs.Meta.Nodes.{list_nodes}
use dtmpfs.Client.{Env}
use dtmpfs.Client.Attrs.{CachedAttr}

-- The two caches of a mount, with a state of their own.
pub record Caches (C : Type 0) : Type 0 where
  pub block_get : InodeId → Generation → BlockIdx → C → Option Bytes × C
  pub block_insert : InodeId → Generation → BlockIdx → Bytes → C → C
  pub block_prune : InodeId → Generation → C → C
  pub attr_get : InodeId → C → Option CachedAttr × C
  pub attr_insert : InodeId → CachedAttr → C → C

-- The cluster as one mount meets it: the caches are its own. The storage nodes stand under the URLs that clients connect to. `sent` holds the `DeleteBlock`
-- calls on their way, and `clock` is the time at which the handlers run.
pub record Cluster (C : Type 0) : Type 0 where
  pub meta : MetaState
  pub stores : Dict String StoreState
  pub sent : List DeleteCall
  pub clock : SystemTime
  pub caches : C

abbrev pub unreachable : Status
unreachable = status unavailable "transport error"

-- The servers are in the same states; each mount has caches of its own.
abbrev pub SameServers : {C : Type 0} → Cluster C → Cluster C → Type 0
SameServers c d = (c.meta ≡ d.meta) × (c.stores ≡ d.stores)

module _ {C : Type 0} where
  abbrev pub with_meta : {A : Type 0} → Cluster C → A × MetaState → A × Cluster C
  with_meta c (a, m) = (a, record c { meta = m })

  abbrev pub with_calls : {A : Type 0} → Cluster C → A × MetaState × List DeleteCall → A × Cluster C
  with_calls c (a, m, calls) = (a, record c { meta = m; sent = calls ++ c.sent })

  abbrev pub with_caches : {A : Type 0} → Cluster C → A × C → A × Cluster C
  with_caches c (a, x) = (a, record c { caches = x })

  unfoldable pub store_read : String → ReadBlockReq → Cluster C → Result ReadBlockResp × Cluster C
  store_read url r c = elim (HashMap.get url c.stores) [
    | none ↦ (fail unreachable, c)
    | some st ↦
        let (answer, st') = Store.read_block st r in
        (answer, record c { stores = HashMap.insert url st' c.stores })
  ]

  unfoldable pub store_write : String → WriteBlockReq → Cluster C → Result ℕ × Cluster C
  store_write url r c = elim (HashMap.get url c.stores) [
    | none ↦ (fail unreachable, c)
    | some st ↦
        let (answer, st') = Store.write_block st r in
        (answer, record c { stores = HashMap.insert url st' c.stores })
  ]

module _ {C : Type 0} (caches : Caches C) (xxh3 : String → ℕ → ℕ) (token : String) where
  abbrev pub cluster_env : Env (Cluster C)
  cluster_env = record {
    cache_get = λ ino g idx c. with_caches c (caches.block_get ino g idx c.caches);
    cache_insert = λ ino g idx b c. record c { caches = caches.block_insert ino g idx b c.caches };
    cache_prune = λ ino g c. record c { caches = caches.block_prune ino g c.caches };
    connect = λ url c. (is_some (HashMap.get url c.stores), c);
    read_block = store_read;
    write_block = store_write;
    read_dir = λ r c. (read_dir c.meta r, c);
    list_nodes = λ c. (done (list_nodes c.meta), c);
    allocate_blocks = λ ino idxs c. with_meta c (allocate xxh3 c.meta ino idxs);
    close = λ r c. with_meta c (Handles.close c.clock c.meta r);
    now = λ c. c.clock;
    lookup = λ p n c. (Namespace.lookup c.meta p n, c);
    get_attr = λ ino c. (get_attr c.meta ino, c);
    set_attr = λ r c. with_calls c (set_attr token c.clock c.meta r);
    create = λ r c. with_meta c (Namespace.create c.clock c.meta r);
    open_inode = λ r c. with_meta c (Handles.open_file c.meta r);
    mkdir = λ r c. with_meta c (Namespace.mkdir c.clock c.meta r);
    unlink = λ p n c. with_calls c (Namespace.unlink token c.meta p n);
    rmdir = λ p n c. with_meta c (Namespace.rmdir c.meta p n);
    rename = λ r c. with_calls c (rename token c.meta r);
    attr_get = λ ino c. with_caches c (caches.attr_get ino c.caches);
    attr_insert = λ ino a c. record c { caches = caches.attr_insert ino a c.caches };
    instant = λ c. c.clock;
  }
