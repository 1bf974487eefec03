-- ===== src/Cluster/Reopening.antt =====
-- `open` of crates/dtmpfs-client/src/fs.rs by a mount that is to read a file which another has written.
use dtmpfs.Prelude.{
  ◌≡◌, sym, ◌∙◌, ℕ, String, true, some, arith, nat_eq, inl, inr, string_eq, Bool-cases, is_empty,
}
use dtmpfs.Prelude.Ord.{nat_ord}
use dtmpfs.Prelude.BtreeMap
use dtmpfs.Common.Id.{BlockIdx, BlockPlacement, NodeId, bump}
use dtmpfs.Store.{Bytes}
use dtmpfs.Meta.State.{Inode}
use dtmpfs.Meta.Blocks.{placement_at}
use dtmpfs.Meta.Nodes.{list_nodes}
use dtmpfs.Meta.Handles.Closing.{inode_at}
use dtmpfs.Client.{OpenFile, Fs}
use dtmpfs.Client.Read.Served.{Serves}
use dtmpfs.Client.{Env}
use dtmpfs.Cluster.{Caches, Cluster, cluster_env}
use dtmpfs.Cluster.Holding.{held}
use dtmpfs.Cluster.Routes.{Routes, Listed}
use dtmpfs.Cluster.Committing.{IsStored}
use dtmpfs.Cluster.Opening.{OpensAt}
use dtmpfs.Client.Fetch.{ensure_addrs}
use dtmpfs.Client.{refresh_addrs}
use dtmpfs.Cluster.Serving.{IsCache, IsServing, reaches}
use dtmpfs.Cluster.Fetching.{IsServing-Serves}

module _ {C : Type 0} (addr_of : NodeId → String) (caches : Caches C) (xxh3 : String → ℕ → ℕ)
    (token : String) (block_size : ℕ) where
  abbrev env : Env (Cluster C)
  env = cluster_env caches xxh3 token

  -- A mount that is about to open the file of the handle `o`, whose blocks are in the cluster.
  pub record IsReading (o : OpenFile) (t : Fs (Cluster C)) : Type 0 where
    pub routes : Routes addr_of t
    pub listed : Listed addr_of (list_nodes t.world.meta)
    pub sorted : (i : Inode) → inode_at t.world.meta o.ino ≡ some i → BtreeMap.IsSorted i.blocks
    pub reached :
        (idx : BlockIdx) (b : Bytes) (p : BlockPlacement)
        → BtreeMap.get idx o.dirty ≡ some b
        → placement_at t.world.meta o.ino idx ≡ some p
        → reaches addr_of caches xxh3 token block_size t p.primary ≡ true
    pub fresh :
        (idx : BlockIdx) (a b : Bytes)
        → BtreeMap.get idx o.dirty ≡ some b
        → (caches.block_get o.ino (bump o.generation) idx t.world.caches).0 ≡ some a
        → a ≡ b

  reaches-same :
      (t t1 : Fs (Cluster C)) (n : NodeId)
      → t1.clients ≡ t.clients
      → t1.addrs ≡ t.addrs
      → t1.world.meta.nodes ≡ t.world.meta.nodes
      → reaches addr_of caches xxh3 token block_size t1 n
        ≡ reaches addr_of caches xxh3 token block_size t n
  unfolding ensure_addrs refresh_addrs list_nodes
  reaches-same t t1 n e f g = elim (Bool-cases (is_empty t.addrs)) [
    | inl k ↦ ground (arith, e, f, g, k)
    | inr k ↦ ground (arith, e, f, g, k)
  ]

  -- The handle that the open gives has the blocks of `o` to serve.
  module _ (o : OpenFile) (t t1 : Fs (Cluster C)) (fh : ℕ) (i : Inode)
      (op : OpensAt o.ino t t1 fh i) (there : inode_at t.world.meta o.ino ≡ some i)
      (gen : i.generation ≡ bump o.generation)
      (st : (idx : BlockIdx) (b : Bytes)
        → BtreeMap.get idx o.dirty ≡ some b
        → IsStored addr_of t.world o.ino idx b) where
    placed_in :
        (idx : BlockIdx) (p : BlockPlacement)
        → placement_at t.world.meta o.ino idx ≡ some p
        → BtreeMap.get idx op.handle.block_map ≡ some p
    unfolding placement_at
    placed_in idx p e = ground (arith, op.block_map idx, there, e)

    placed_at :
        (idx : BlockIdx) (p : BlockPlacement)
        → BtreeMap.get idx op.handle.block_map ≡ some p
        → placement_at t.world.meta o.ino idx ≡ some p
    unfolding placement_at
    placed_at idx p e = ground (arith, op.block_map idx, there, e)

    pub opened-IsServing :
        IsReading o t → IsServing addr_of caches xxh3 token block_size o op.handle t1
    unfolding list_nodes held
    opened-IsServing r = record {
      routes = record {
        channels = λ n c e. ground (arith, op.clients, r.routes.channels n c);
        addresses = λ n a e. ground (arith, op.addrs, r.routes.addresses n a);
      };
      listed = rw (sym op.nodes) at (r.listed);
      holds = λ idx b p e f url on.
          let s = st idx b e in
          let same : s.placement ≡ p = ground (arith, s.placed, placed_at idx p f) in
          ground (arith, op.ino_same, op.stores, same, s.everywhere url, on);
      reached = λ idx b p e f.
          reaches-same t t1 p.primary op.clients op.addrs op.nodes
          ∙ r.reached idx b p e (placed_at idx p f);
      fresh = λ idx a b e f.
          r.fresh idx a b e (ground (arith, op.ino_same, op.generation, gen, op.caches, f));
    }

    pub opened-Serves :
        IsCache caches
        → Serves env block_size o op.handle
            (IsServing addr_of caches xxh3 token block_size o op.handle)
    opened-Serves laws =
        IsServing-Serves addr_of caches xxh3 token block_size o op.handle laws op.clean
          (λ idx b e. ((st idx b e).placement, placed_in idx _ (st idx b e).placed))
