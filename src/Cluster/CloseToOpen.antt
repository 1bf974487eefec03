-- ===== src/Cluster/CloseToOpen.antt =====
-- Close to open: what one mount has written and synced is what another mount reads after its next
-- open, over the models of all three programs.
use dtmpfs.Prelude.{
  ◌≡◌, ap, sym, ◌∙◌, subst, ℕ, String, true, false, none, some, arith, nat_eq, inl, inr, ◌⊎◌,
  is_empty,
}
use dtmpfs.Prelude.Ord.{nat_ord}
use dtmpfs.Prelude.BtreeMap
use dtmpfs.Common.Id.{BlockIdx, BlockPlacement, NodeId, bump}
use dtmpfs.Store.{Bytes}
use dtmpfs.Meta.State.{Inode, OpenHandleSt}
use dtmpfs.Meta.Blocks.{placement_at}
use dtmpfs.Meta.Nodes.{list_nodes}
use dtmpfs.Meta.Handles.Closing.{inode_at, handle_at}
use dtmpfs.Client.{OpenFile, Fs, returned, refresh_addrs, with_world}
use dtmpfs.Client.Fetch.{fetch_block}
use dtmpfs.Client.Publish.{all_replicas, allocate, publish_file, publish, fsync_path}
use dtmpfs.Client.Publish.Outcomes.{file_at}
use dtmpfs.Client.Kernel.{answered}
use dtmpfs.Client.Kernel.Opening.{OpenReply, open_file}
use dtmpfs.Client.{Env}
use dtmpfs.Cluster.{Caches, Cluster, SameServers, cluster_env}
use dtmpfs.Cluster.Holding.{held}
use dtmpfs.Cluster.Routes.{Routes, Listed, refresh_addrs-Routes}
use dtmpfs.Cluster.Publishing.{Agrees, allocate-Placed}
use dtmpfs.Cluster.Committing.{
  IsStored, IsStored-servers, Committed, refreshed, publish_done, send-Committed, Placed-Committed,
}
use dtmpfs.Cluster.Reading.{Gets, knows, fetch_block-Gets}
use dtmpfs.Cluster.Opening.{open_file-OpensAt}

-- A handle of a mount that has written blocks, in a cluster whose nodes have one address each: the
-- handle is that of its file at the server, and the placements that it knows are the server's.
pub record IsWriting {C : Type 0} (addr_of : NodeId → String) (fh : ℕ) (o : OpenFile)
    (s : Fs (Cluster C)) : Type 0 where
  pub opened : file_at s fh ≡ some o
  pub written : is_empty o.dirty ≡ false
  pub sorted : BtreeMap.IsSorted o.dirty
  pub routes : Routes addr_of s
  pub listed : Listed addr_of (list_nodes s.world.meta)
  pub agrees : Agrees s.world.meta o.ino o.block_map
  pub owner : (h : OpenHandleSt) → handle_at s.world.meta fh ≡ some h → h.ino ≡ o.ino

module _ {C : Type 0} (addr_of : NodeId → String) (caches : Caches C) (xxh3 : String → ℕ → ℕ)
    (token : String) where
  abbrev env : Env (Cluster C)
  env = cluster_env caches xxh3 token

  pub publish_file-Committed :
      (fh : ℕ) (o : OpenFile) (s : Fs (Cluster C))
      → IsWriting addr_of fh o s
      → (publish_file env all_replicas fh o s).0 ≡ returned tt
      → Committed addr_of o s (publish_file env all_replicas fh o s).2
  unfolding refresh_addrs
  publish_file-Committed fh o s w h =
      let (allocated, sent, e) = publish_done addr_of caches xxh3 token fh o s h in
      let s0 = refreshed addr_of caches xxh3 token s in
      let o1 = (allocate env o s0).1 in
      let s1 = (allocate env o s0).2 in
      let r0 =
        refresh_addrs-Routes addr_of (list_nodes s.world.meta) (with_world s s.world) w.listed
          (record { channels = w.routes.channels; addresses = w.routes.addresses }) in
      let p = allocate-Placed addr_of caches xxh3 token o s0 r0 w.agrees allocated in
      let c =
        send-Committed addr_of caches xxh3 token fh o1 s1 p.routes (rw p.dirty w.sorted)
          (rw p.dirty w.written) (rw p.ino p.agrees)
          (λ k m. w.owner k (ground (arith, p.handles)) ∙ sym p.ino) sent in
      subst (Committed addr_of o s) (sym e)
        (Placed-Committed addr_of caches xxh3 token o o1 s s1 _ p c)

  -- The world after an fsync is the one that the steps of its publish leave.
  pub fsync_done :
      (fh : ℕ) (o : OpenFile) (s : Fs (Cluster C))
      → file_at s fh ≡ some o
      → is_empty o.dirty ≡ false
      → (fsync_path env fh s).0 ≡ returned tt
      → ((publish_file env all_replicas fh o s).0 ≡ returned tt)
        × ((fsync_path env fh s).1.world ≡ (publish_file env all_replicas fh o s).2.world)
  unfolding fsync_path publish
  fsync_done fh o s e w h = (ground arith, ground arith)

  -- What the mount `t` has of a block after it has opened the file as `fh`: the size and the
  -- generation of the handle, and the bytes, at once if it knows the primary node.
  pub record Sees (block_size : ℕ) (o : OpenFile) (idx : BlockIdx) (b : Bytes) (t : Fs (Cluster C))
      (fh : ℕ) : Type 0 where
    pub handle : OpenFile
    pub found : file_at t fh ≡ some handle
    pub generation : handle.generation ≡ bump o.generation
    pub size : handle.size_hint ≡ o.size_hint
    pub placement : BlockPlacement
    pub placed : placement_at t.world.meta o.ino idx ≡ some placement
    pub gets : Gets b (fetch_block env block_size handle idx t)
    pub at_once :
        knows t placement.primary ≡ true → (fetch_block env block_size handle idx t).0 ≡ returned b

  -- A stored block, read through a handle that was just opened.
  stored-Sees :
      (block_size flags : ℕ) (o : OpenFile) (idx : BlockIdx) (b : Bytes) (t : Fs (Cluster C))
      (i : Inode) (r : OpenReply)
      → Routes addr_of t
      → Listed addr_of (list_nodes t.world.meta)
      → inode_at t.world.meta o.ino ≡ some i
      → i.generation ≡ bump o.generation
      → i.size ≡ o.size_hint
      → BtreeMap.IsSorted i.blocks
      → IsStored addr_of t.world o.ino idx b
      → ((c : Bytes)
          → (caches.block_get o.ino (bump o.generation) idx t.world.caches).0 ≡ some c
          → c ≡ b)
      → (open_file env o.ino flags t).0 ≡ answered r
      → Sees block_size o idx b (open_file env o.ino flags t).1 r.fh
  unfolding held list_nodes placement_at BtreeMap.get
  stored-Sees block_size flags o idx b t i r routes listed there gen size sorted st fresh h =
      let op = open_file-OpensAt caches xxh3 token o.ino flags t i r there sorted h in
      let t1 = (open_file env o.ino flags t).1 in
      let no_dirty : BtreeMap.get idx op.handle.dirty ≡ none = ap (BtreeMap.get idx) op.clean in
      let (gets, at_once) =
        fetch_block-Gets addr_of caches xxh3 token block_size op.handle idx b st.placement t1
          (record {
            channels = λ n c e. ground (arith, op.clients, routes.channels n c);
            addresses = λ n a e. ground (arith, op.addrs, routes.addresses n a);
          })
          (rw (sym op.nodes) at listed) no_dirty (ground (arith, op.block_map idx, st.placed))
          (λ c e. fresh c (ground (arith, op.ino_same, op.generation, op.caches)))
          (λ url on. ground (arith, op.ino_same, op.stores, st.everywhere url on)) in
      record {
        handle = op.handle;
        found = op.found;
        generation = op.generation ∙ gen;
        size = op.size ∙ size;
        placement = st.placement;
        placed = ground (arith, op.inodes, st.placed);
        gets = gets;
        at_once = at_once;
      }

  -- A block that the handle has written, or that was stored and that it has not written.
  abbrev pub HasBlock : OpenFile → Cluster C → BlockIdx → Bytes → Type 0
  HasBlock o c idx b =
      (BtreeMap.get idx o.dirty ≡ some b)
      ⊎ ((BtreeMap.get idx o.dirty ≡ none) × IsStored addr_of c o.ino idx b)

  pub fsync-IsStored :
      (fh : ℕ) (o : OpenFile) (s : Fs (Cluster C)) (idx : BlockIdx) (b : Bytes)
      → Committed addr_of o s (publish_file env all_replicas fh o s).2
      → HasBlock o s.world idx b
      → IsStored addr_of (publish_file env all_replicas fh o s).2.world o.ino idx b
  fsync-IsStored fh o s idx b c (inl e) = c.stored idx b e
  fsync-IsStored fh o s idx b c (inr (e, k)) = c.kept idx b e k

  -- A mount has a handle with written blocks, and its fsync succeeds. Another mount, with caches
  -- of its own and the servers as the fsync left them, then opens the file. Its handle has the
  -- size of the first handle and the next generation, and fetch_block of a block that the first
  -- mount wrote, or that was stored before and not written, answers exactly these bytes or fails;
  -- it answers them if the second mount knows the primary node of the block. Conditions: each node
  -- has one address, to which channels and tables of both mounts lead; the first handle is that of
  -- its file at the server and knows only placements that the server has; the maps of blocks are
  -- sorted; and a block that the cache of the second mount has under the new generation is the
  -- right one.
  pub fsync-Sees :
      (block_size flags fh : ℕ) (o : OpenFile) (s t : Fs (Cluster C)) (r : OpenReply)
      (idx : BlockIdx) (b : Bytes)
      → IsWriting addr_of fh o s
      → (fsync_path env fh s).0 ≡ returned tt
      → HasBlock o s.world idx b
      → SameServers t.world (fsync_path env fh s).1.world
      → Routes addr_of t
      → Listed addr_of (list_nodes t.world.meta)
      → ((i : Inode) → inode_at t.world.meta o.ino ≡ some i → BtreeMap.IsSorted i.blocks)
      → ((c : Bytes)
          → (caches.block_get o.ino (bump o.generation) idx t.world.caches).0 ≡ some c
          → c ≡ b)
      → (open_file env o.ino flags t).0 ≡ answered r
      → Sees block_size o idx b (open_file env o.ino flags t).1 r.fh
  fsync-Sees block_size flags fh o s t r idx b w synced has same routes listed sorted fresh answer =
      let (done, world) = fsync_done fh o s w.opened w.written synced in
      let c = publish_file-Committed fh o s w done in
      let there : inode_at t.world.meta o.ino ≡ some c.inode =
        ground (arith, c.there, world, same.0) in
      stored-Sees block_size flags o idx b t c.inode r routes listed there c.generation c.size
        (sorted c.inode there)
        (IsStored-servers addr_of _ t.world o.ino idx b (subst (SameServers t.world) world same)
          (fsync-IsStored fh o s idx b c has))
        fresh answer
