-- ===== src/Cluster/Serving.antt =====
-- The state of a mount in which every block of a file can be fetched, for crates/dtmpfs-client:
-- the addresses, the blocks at the nodes, and the caches, of which only this is asked that they
-- answer what was put in.
use dtmpfs.Prelude.{◌≡◌, ℕ, String, Bool, true, some, nat_eq, string_eq, ◌⊎◌, ◌∷◌}
use dtmpfs.Prelude.Ord.{nat_ord}
use dtmpfs.Prelude.BtreeMap
use dtmpfs.Common.Id.{InodeId, Generation, BlockIdx, BlockPlacement, NodeId}
use dtmpfs.Store.{Bytes}
use dtmpfs.Meta.Nodes.{list_nodes}
use dtmpfs.Client.{OpenFile, Fs}
use dtmpfs.Client.Fetch.{ensure_addrs}
use dtmpfs.Client.{Env}
use dtmpfs.Cluster.{Caches, Cluster, cluster_env}
use dtmpfs.Cluster.Routes.{Routes, Listed}
use dtmpfs.Cluster.Reading.{knows, AllHold}

-- What the caches of moka promise: an entry that is found was put in under its key and not since
-- replaced, and looking for one entry brings no other. They may drop any entry.
pub record IsCache {C : Type 0} (caches : Caches C) : Type 0 where
  pub got :
      (ino jno : InodeId) (g k : Generation) (idx jdx : BlockIdx) (b : Bytes) (c : C)
      → (caches.block_get ino g idx (caches.block_get jno k jdx c).1).0 ≡ some b
      → (caches.block_get ino g idx c).0 ≡ some b
  pub inserted :
      (ino jno : InodeId) (g k : Generation) (idx jdx : BlockIdx) (a b : Bytes) (c : C)
      → (caches.block_get ino g idx (caches.block_insert jno k jdx a c)).0 ≡ some b
      → ((idx ≡ jdx) × (b ≡ a)) ⊎ ((caches.block_get ino g idx c).0 ≡ some b)

module _ {C : Type 0} (addr_of : NodeId → String) (caches : Caches C) (xxh3 : String → ℕ → ℕ)
    (token : String) (block_size : ℕ) where
  abbrev env : Env (Cluster C)
  env = cluster_env caches xxh3 token

  -- The mount has the primary node of a block, or gets it with its first list of nodes.
  abbrev pub reaches : Fs (Cluster C) → NodeId → Bool
  reaches s n = knows (ensure_addrs env block_size s) n

  -- The blocks that the handle `o` has written are those that the cluster and the cache have for
  -- the handle `h`.
  pub record IsServing (o h : OpenFile) (s : Fs (Cluster C)) : Type 0 where
    pub routes : Routes addr_of s
    pub listed : Listed addr_of (list_nodes s.world.meta)
    pub holds :
        (idx : BlockIdx) (b : Bytes) (p : BlockPlacement)
        → BtreeMap.get idx o.dirty ≡ some b
        → BtreeMap.get idx h.block_map ≡ some p
        → AllHold addr_of caches xxh3 token block_size h idx b s.world (p.primary ∷ p.replicas)
    pub reached :
        (idx : BlockIdx) (b : Bytes) (p : BlockPlacement)
        → BtreeMap.get idx o.dirty ≡ some b
        → BtreeMap.get idx h.block_map ≡ some p
        → reaches s p.primary ≡ true
    pub fresh :
        (idx : BlockIdx) (a b : Bytes)
        → BtreeMap.get idx o.dirty ≡ some b
        → (caches.block_get h.ino h.generation idx s.world.caches).0 ≡ some a
        → a ≡ b
