-- ===== src/Cluster/ReadBackExamples.antt =====
-- A cluster of one storage node and two mounts, with blocks of four bytes and caches that keep
-- everything: six bytes written by one mount over the bounds of a block, and read by the other.
use dtmpfs.Prelude.{
  Tree, Dict, pair_eq, Bool-cases, inr, ◌==◌, ◌&&◌, Bool, true, ℕ, ◌≡◌, refl, sym, ap, subst,
  Option, none, some, [], ◌∷◌, String, arith, nat_eq, string_eq, list_eq, inl,
}
use dtmpfs.Prelude.Ord.{nat_ord, list_ord}
use dtmpfs.Prelude.HashMap
use dtmpfs.Prelude.BtreeMap
use dtmpfs.Common.Id.{file, NodeId, BlockIdx, BlockPlacement}
use dtmpfs.Store.{Bytes}
use dtmpfs.Store
use dtmpfs.Meta.State.{new}
use dtmpfs.Meta.Messages.{url_of}
use dtmpfs.Meta.Namespace
use dtmpfs.Meta.Nodes.{heartbeat_node, list_nodes}
use dtmpfs.Client.{OpenFile, Env, Fs, returned}
use dtmpfs.Client.Publish
use dtmpfs.Client.Publish.{fsync_path}
use dtmpfs.Meta.Blocks
use dtmpfs.Meta.Handles
use dtmpfs.Client.{refresh_addrs, addr_map, connect_to, insert_locs, pool_get, install}
use dtmpfs.Meta.Messages.{placement_to_block_loc, node_info_to_proto}
use dtmpfs.Meta.State.{place, Inode, placement_of, live_nodes, alloc_fh, alloc_ino, build_attr}
use dtmpfs.Cluster.{store_write}
use dtmpfs.Common.Error.{from_code, from_status}
use dtmpfs.Common.Hash.Sorting.{insert_desc, sort_desc}
use dtmpfs.Common.Hash.{pick_nodes, score, scored}
use dtmpfs.Common.Id.{bump, placement_key}
use dtmpfs.Client.Kernel.{answered}
use dtmpfs.Client.Kernel.Opening.{open_file}
use dtmpfs.Cluster.{Caches, Cluster, cluster_env}
use dtmpfs.Client.Read.{read}
use dtmpfs.Client.Fetch.{ensure_addrs}
use dtmpfs.Client.Write.{write, apply_write, write_loop, ensure_dirty, copy_chunk}
use dtmpfs.Client.Dirty.{IsFull}
use dtmpfs.Cluster.CloseToOpen.{IsWriting}
use dtmpfs.Cluster.ReadBack.{write-fsync-open-read}
use dtmpfs.Cluster.Holding.{key_of}
use dtmpfs.Cluster.Reopening.{IsReading}
use dtmpfs.Cluster.Serving.{IsCache, reaches}
use dtmpfs.Cluster.Examples.{hash, meta}

-- A cache of blocks that drops nothing.
abbrev Kept : Type 0
Kept = Dict ((ℕ × ℕ) × ℕ) Bytes

abbrev keeping : Caches Kept
keeping = record {
  block_get = λ ino g idx c. (HashMap.get ((ino, g), idx) c, c);
  block_insert = λ ino g idx b c. HashMap.insert ((ino, g), idx) b c;
  block_prune = λ ino g c. c;
  attr_get = λ ino c. (none, c);
  attr_insert = λ ino a c. c;
}

abbrev same_key : ℕ → ℕ → ℕ → ℕ → ℕ → ℕ → Bool
same_key jno k jdx ino g idx = ((jno == ino) && (k == g)) && (jdx == idx)

keeping-IsCache : IsCache keeping
keeping-IsCache = record {
  got = λ ino jno g k idx jdx b c h. h;
  inserted = λ ino jno g k idx jdx a b c h.
      let put = HashMap.get-insert ((jno, k), jdx) ((ino, g), idx) a c in
      elim (Bool-cases (same_key jno k jdx ino g idx)) [
        | inl e ↦ inl (ground (arith, put, e), ground (arith, put, e))
        | inr e ↦ inr (ground (arith, put, e))
      ];
}

abbrev env : Env (Cluster Kept)
env = cluster_env keeping hash "token"

abbrev addr_of : NodeId → String
addr_of n = url_of n

abbrev cluster : Cluster Kept
cluster = record {
  meta = meta;
  stores = (url_of "a", Store.new "a" "m" 100) ∷ [];
  sent = [];
  clock = 5;
  caches = [];
}

abbrev six : Bytes
six = 1 ∷ 2 ∷ 3 ∷ 4 ∷ 5 ∷ 6 ∷ []

abbrev clean : OpenFile
clean = record { ino = 2; generation = 0; block_map = []; dirty = []; size_hint = 0; flags = 2 }

abbrev written : OpenFile
written = record {
  ino = 2;
  generation = 0;
  block_map = [];
  dirty = (0, 0 ∷ 0 ∷ 0 ∷ 1 ∷ []) ∷ (1, 2 ∷ 3 ∷ 4 ∷ 5 ∷ []) ∷ (2, 6 ∷ 0 ∷ 0 ∷ 0 ∷ []) ∷ [];
  size_hint = 9;
  flags = 2;
}

abbrev writer : Fs (Cluster Kept)
writer = record {
  clients = [];
  addrs = [];
  open_files = (1, clean) ∷ [];
  tasks = [];
  world = cluster;
}

abbrev wrote : Fs (Cluster Kept)
wrote = (write env 4 1 3 six writer).1

abbrev placed : Tree BlockIdx BlockPlacement
placed =
    (0, record { primary = "a"; replicas = [] })
    ∷ (1, record { primary = "a"; replicas = [] })
    ∷ (2, record { primary = "a"; replicas = [] })
    ∷ []

-- What the fsync leaves.
abbrev synced_file : Inode
synced_file = record {
  ino = 2;
  kind = file;
  mode = 33188;
  uid = 0;
  gid = 0;
  size = 9;
  nlink = 1;
  atime = 5;
  mtime = 5;
  ctime = 5;
  generation = 1;
  blocks = placed;
  symlink_target = none;
}

abbrev after : Cluster Kept
after = record {
  meta = record meta { inodes = HashMap.insert 2 synced_file meta.inodes; open_handles = [] };
  stores =
      (
        url_of "a",
        record {
          blocks =
              (key_of 2 2, 6 ∷ 0 ∷ 0 ∷ 0 ∷ [])
              ∷ (key_of 2 1, 2 ∷ 3 ∷ 4 ∷ 5 ∷ [])
              ∷ (key_of 2 0, 0 ∷ 0 ∷ 0 ∷ 1 ∷ [])
              ∷ [];
          high_water = ((2, 2), 0) ∷ ((2, 1), 0) ∷ ((2, 0), 0) ∷ [];
          node_id = "a";
          meta_addr = "m";
          ram_budget = 100;
          ram_used = 12;
        },
      )
      ∷ [];
  sent = [];
  clock = 5;
  caches = [];
}

-- The other mount has a block of the generation before in its cache.
abbrev stale : Kept
stale = (((2, 0), 0), 9 ∷ 9 ∷ 9 ∷ 9 ∷ []) ∷ []

abbrev reader : Fs (Cluster Kept)
reader = record {
  clients = [];
  addrs = [];
  open_files = [];
  tasks = [];
  world = record after { caches = stale };
}

writes : (write env 4 1 3 six writer).0 ≡ returned 6
unfolding fsync_path HashMap.get BtreeMap.get Blocks.allocate refresh_addrs Namespace.create
    heartbeat_node new HashMap.insert BtreeMap.insert placement_to_block_loc list_nodes place
    store_write Store.write_block Store.new Handles.close HashMap.update Publish.allocate
    Publish.finish Publish.new_idxs Publish.publish Publish.publish_file Publish.send
    Publish.write_all Publish.write_blocks Publish.write_one Publish.write_placed
    Publish.write_replicas addr_map connect_to insert_locs pool_get from_code from_status
    insert_desc sort_desc pick_nodes score scored bump placement_key Blocks.allocate_all
    Blocks.allocate_one Blocks.placement_at Handles.close_inode Handles.published node_info_to_proto
    Namespace.make_file alloc_fh alloc_ino build_attr live_nodes placement_of HashMap.remove
    Store.is_stale Store.over_budget Store.proto_key_to_block_key Store.store_block Store.write_key
    write apply_write write_loop ensure_dirty copy_chunk
writes = refl

synced : ((fsync_path env 1 wrote).0 ≡ returned tt) × ((fsync_path env 1 wrote).1.world ≡ after)
unfolding fsync_path HashMap.get BtreeMap.get Blocks.allocate refresh_addrs Namespace.create
    heartbeat_node new HashMap.insert BtreeMap.insert placement_to_block_loc list_nodes place
    store_write Store.write_block Store.new Handles.close HashMap.update Publish.allocate
    Publish.finish Publish.new_idxs Publish.publish Publish.publish_file Publish.send
    Publish.write_all Publish.write_blocks Publish.write_one Publish.write_placed
    Publish.write_replicas addr_map connect_to insert_locs pool_get from_code from_status
    insert_desc sort_desc pick_nodes score scored bump placement_key Blocks.allocate_all
    Blocks.allocate_one Blocks.placement_at Handles.close_inode Handles.published node_info_to_proto
    Namespace.make_file alloc_fh alloc_ino build_attr live_nodes placement_of HashMap.remove
    Store.is_stale Store.over_budget Store.proto_key_to_block_key Store.store_block Store.write_key
    write apply_write write_loop ensure_dirty copy_chunk
synced = (refl, refl)

opened : (open_file env 2 0 reader).0 ≡ answered (record { fh = 2; flags = 0 })
unfolding open_file Handles.open_file install build_attr alloc_fh HashMap.get HashMap.insert
    HashMap.remove Namespace.create Namespace.make_file heartbeat_node new alloc_ino BtreeMap.insert
    BtreeMap.get insert_locs placement_to_block_loc
opened = refl

writing : IsWriting addr_of 1 written wrote
unfolding HashMap.get BtreeMap.get HashMap.insert HashMap.update HashMap.remove list_nodes
    heartbeat_node node_info_to_proto Namespace.create Namespace.make_file BtreeMap.insert alloc_ino
    alloc_fh new write apply_write write_loop ensure_dirty copy_chunk
writing = record {
  opened = refl;
  written = refl;
  sorted = ((refl, (refl, tt)), ((refl, tt), (tt, tt)));
  routes = record { channels = λ n c e. ground arith; addresses = λ n a e. ground arith };
  listed = (refl, tt);
  agrees = λ idx p e. ground arith;
  owner = λ h e. ground arith;
}

full : IsFull 4 clean
unfolding BtreeMap.get
full = λ idx b e. ground arith

abbrev SortedIn : Option Inode → Type 0
SortedIn none = Unit {0}
SortedIn (some i) = BtreeMap.IsSorted i.blocks

on_a : (idx : BlockIdx) (p : BlockPlacement) → BtreeMap.get idx placed ≡ some p → "a" ≡ p.primary
unfolding BtreeMap.get
on_a idx p e = ground arith

reached_a : (n : NodeId) → "a" ≡ n → reaches addr_of keeping hash "token" 4 reader n ≡ true
unfolding ensure_addrs refresh_addrs addr_map list_nodes node_info_to_proto HashMap.get
    HashMap.insert HashMap.remove BtreeMap.get BtreeMap.insert Namespace.create Namespace.make_file
    heartbeat_node new alloc_ino alloc_fh Blocks.placement_at
reached_a n e = subst (λ m. reaches addr_of keeping hash "token" 4 reader m ≡ true) e refl

reading : IsReading addr_of keeping hash "token" 4 written reader
unfolding bump ensure_addrs refresh_addrs addr_map list_nodes node_info_to_proto HashMap.get
    HashMap.insert HashMap.remove BtreeMap.get BtreeMap.insert Namespace.create Namespace.make_file
    heartbeat_node new alloc_ino alloc_fh Blocks.placement_at
reading = record {
  routes = record { channels = λ n c e. ground arith; addresses = λ n a e. ground arith };
  listed = (refl, tt);
  sorted = λ i e. subst SortedIn e ((refl, (refl, tt)), ((refl, tt), (tt, tt)));
  reached = λ idx b p e f. reached_a p.primary (on_a idx p f);
  fresh = λ idx a b e f. absurd (ground (arith, f));
}

same_meta : after.meta ≡ (fsync_path env 1 wrote).1.world.meta
same_meta = ap (λ (c : Cluster Kept). c.meta) (sym synced.1)

same_stores : after.stores ≡ (fsync_path env 1 wrote).1.world.stores
same_stores = ap (λ (c : Cluster Kept). c.stores) (sym synced.1)

write-fsync-open-read_example : (read env 4 2 3 6 (open_file env 2 0 reader).1).0 ≡ returned six
unfolding HashMap.get
write-fsync-open-read_example =
    write-fsync-open-read addr_of keeping hash "token" 4 1 0 3 6 clean written six writer reader
      (record { fh = 2; flags = 0 }) keeping-IsCache (omega arith) full (omega arith) (omega arith)
      refl writes writing synced.0 (same_meta, same_stores) reading opened
