-- ===== src/Cluster/Committing.antt =====
-- A `publish` of crates/dtmpfs-client/src/flush.rs that waits for all replicas and succeeds: what
-- the three programs then have of the file.
use dtmpfs.Prelude.{
  ◌≡◌, refl, ap, sym, ◌∙◌, subst, ℕ, String, true, false, Option, none, some, arith, nat_eq,
  string_eq, inl, inr, List, [], ◌∷◌, map, Tree, is_empty,
}
use dtmpfs.Prelude.Ord.{nat_ord}
use dtmpfs.Prelude.BtreeMap
use dtmpfs.Common.Id.{InodeId, BlockIdx, BlockPlacement, NodeId, bump}
use dtmpfs.Common.Error.{Result, Result-cases}
use dtmpfs.Store.{Bytes}
use dtmpfs.Meta.State.{MetaState, Inode, OpenHandleSt, Attr}
use dtmpfs.Meta.Blocks.{placement_at}
use dtmpfs.Meta.Nodes.{list_nodes}
use dtmpfs.Meta.Handles
use dtmpfs.Meta.Handles.{published}
use dtmpfs.Meta.Handles.Closing.{inode_at, handle_at}
use dtmpfs.Meta.Handles.Succeeding.{close-Published}
use dtmpfs.Client.{OpenFile, Fs, returned, refresh_addrs, with_world}
use dtmpfs.Client.Publish.{
  all_replicas, allocate, finish, send, close_request, write_blocks, publish_file,
}
use dtmpfs.Client.{Env}
use dtmpfs.Cluster.{Caches, Cluster, SameServers, cluster_env}
use dtmpfs.Cluster.Holding.{held}
use dtmpfs.Cluster.Routes.{Routes}
use dtmpfs.Cluster.Writing.{on_any, write_blocks-Stores}
use dtmpfs.Cluster.Publishing.{Agrees, Placed}

abbrev pub nodes_of : BlockPlacement → List NodeId
nodes_of p = p.primary ∷ p.replicas

module _ {C : Type 0} (addr_of : NodeId → String) where
  -- The server places the block on nodes that all hold the bytes.
  pub record IsStored (c : Cluster C) (ino : InodeId) (idx : BlockIdx) (b : Bytes) : Type 0 where
    pub placement : BlockPlacement
    pub placed : placement_at c.meta ino idx ≡ some placement
    pub everywhere :
        (url : String)
        → on_any addr_of (nodes_of placement) url ≡ true
        → held c url ino idx ≡ some b

  pub IsStored-servers :
      (c d : Cluster C) (ino : InodeId) (idx : BlockIdx) (b : Bytes)
      → SameServers d c
      → IsStored c ino idx b
      → IsStored d ino idx b
  unfolding held
  IsStored-servers c d ino idx b (meta, stores) k = record {
    placement = k.placement;
    placed = ground (arith, meta, k.placed);
    everywhere = λ url on. ground (arith, stores, k.everywhere url on);
  }

  -- What a successful publish leaves: the file has a new generation and the size of the handle, the
  -- written blocks are stored, and so are the blocks that were stored and not written.
  pub record Committed (o : OpenFile) (s s' : Fs (Cluster C)) : Type 0 where
    pub inode : Inode
    pub there : inode_at s'.world.meta o.ino ≡ some inode
    pub generation : inode.generation ≡ bump o.generation
    pub size : inode.size ≡ o.size_hint
    pub routes : Routes addr_of s'
    pub stored :
        (idx : BlockIdx) (b : Bytes)
        → BtreeMap.get idx o.dirty ≡ some b
        → IsStored s'.world o.ino idx b
    pub kept :
        (idx : BlockIdx) (b : Bytes)
        → BtreeMap.get idx o.dirty ≡ none
        → IsStored s.world o.ino idx b
        → IsStored s'.world o.ino idx b

  module _ (caches : Caches C) (xxh3 : String → ℕ → ℕ) (token : String) where
    abbrev env : Env (Cluster C)
    env = cluster_env caches xxh3 token

    -- The close and what it changes.
    record Finishes (o : OpenFile) (s s' : Fs (Cluster C)) : Type 0 where
      inode : Inode
      there : inode_at s'.world.meta o.ino ≡ some inode
      generation : inode.generation ≡ bump o.generation
      size : inode.size ≡ o.size_hint
      routes : Routes addr_of s'
      stores : s'.world.stores ≡ s.world.stores
      placements :
          (idx : BlockIdx)
          → placement_at s'.world.meta o.ino idx ≡ placement_at s.world.meta o.ino idx

    abbrev closing :
        ℕ → OpenFile → List BlockIdx → Fs (Cluster C) → Result (Option Attr) × MetaState
    closing fh o written s =
        Handles.close s.world.clock s.world.meta (close_request env fh o written s.world)

    finish-Finishes :
        (fh : ℕ) (o : OpenFile) (written : List BlockIdx) (s : Fs (Cluster C))
        → Routes addr_of s
        → is_empty written ≡ false
        → ((h : OpenHandleSt) → handle_at s.world.meta fh ≡ some h → h.ino ≡ o.ino)
        → (finish env fh o written s).0 ≡ returned tt
        → Finishes o s (finish env fh o written s).2
    unfolding finish published placement_at bump
    finish-Finishes fh o written s r w owner h = elim (Result-cases (closing fh o written s).0) [
      | inr (x, e) ↦ absurd (ground arith)
      | inl (a, e) ↦
          let p = close-Published s.world.clock s.world.meta _ a w e in
          let same = owner p.handle p.opened in
          rw (e, finish)
            (record {
              inode = published s.world.clock (close_request env fh o written s.world) p.inode;
              there = ground (arith, p.closes.inodes o.ino);
              generation = ground (arith, p.current);
              size = ground arith;
              routes = record { channels = r.channels; addresses = r.addresses };
              stores = refl;
              placements = λ idx. ground (arith, p.closes.inodes o.ino, p.there);
            })
    ]

    -- The steps of a publish that succeeds.
    send_done :
        (fh : ℕ) (o : OpenFile) (s : Fs (Cluster C))
        → (send env all_replicas fh o s).0 ≡ returned tt
        → let o1 : OpenFile = record o { dirty = [] } in
          let (answer, s1) = write_blocks env all_replicas o.ino o.block_map o.dirty s in
          (answer ≡ returned tt)
          × ((finish env fh o1 (map (λ e. e.0) o.dirty) s1).0 ≡ returned tt)
          × ((send env all_replicas fh o s).2 ≡ (finish env fh o1 (map (λ e. e.0) o.dirty) s1).2)
    unfolding send
    send_done fh o s h = ground arith

    pub publish_done :
        (fh : ℕ) (o : OpenFile) (s : Fs (Cluster C))
        → (publish_file env all_replicas fh o s).0 ≡ returned tt
        → let (answer, o1, s1) =
            allocate env o (refresh_addrs (list_nodes s.world.meta) (with_world s s.world)) in
          (answer ≡ returned tt)
          × ((send env all_replicas fh o1 s1).0 ≡ returned tt)
          × ((publish_file env all_replicas fh o s).2 ≡ (send env all_replicas fh o1 s1).2)
    unfolding publish_file
    publish_done fh o s h = ground arith

    keys_of_some :
        (t : Tree BlockIdx Bytes) → is_empty t ≡ false → is_empty (map (λ e. e.0) t) ≡ false
    keys_of_some [] h = cc
    keys_of_some (x ∷ t) h = refl

    -- Once the placements are there: the sending and the close.
    pub send-Committed :
        (fh : ℕ) (o : OpenFile) (s : Fs (Cluster C))
        → Routes addr_of s
        → BtreeMap.IsSorted o.dirty
        → is_empty o.dirty ≡ false
        → Agrees s.world.meta o.ino o.block_map
        → ((h : OpenHandleSt) → handle_at s.world.meta fh ≡ some h → h.ino ≡ o.ino)
        → (send env all_replicas fh o s).0 ≡ returned tt
        → Committed o s (send env all_replicas fh o s).2
    unfolding held
    send-Committed fh o s r sorted some_dirty agrees owner h =
        let (wrote, closed, e) = send_done fh o s h in
        let s1 = (write_blocks env all_replicas o.ino o.block_map o.dirty s).1 in
        let st =
          write_blocks-Stores addr_of o.ino caches xxh3 token o.block_map o.dirty s sorted r
            wrote in
        let o1 : OpenFile = record o { dirty = [] } in
        let f =
          finish-Finishes fh o1 (map (λ e. e.0) o.dirty) s1 st.routes
            (keys_of_some o.dirty some_dirty) (λ k m. owner k (ground (arith, st.meta))) closed in
        subst (Committed o s) (sym e) (record {
          inode = f.inode;
          there = f.there;
          generation = f.generation;
          size = f.size;
          routes = f.routes;
          stored = λ idx b g.
              let (p, placed, everywhere) = st.blocks idx b g in
              record {
                placement = p;
                placed =
                    f.placements idx
                    ∙ (ap (λ m. placement_at m o.ino idx) st.meta ∙ agrees idx p placed);
                everywhere = λ url on. ground (arith, everywhere url on, f.stores);
              };
          kept = λ idx b g k. record {
            placement = k.placement;
            placed = f.placements idx ∙ (ap (λ m. placement_at m o.ino idx) st.meta ∙ k.placed);
            everywhere = λ url on.
                ground (arith, k.everywhere url on, f.stores, st.others url o.ino idx (λ same. g));
          };
        })

    abbrev pub refreshed : Fs (Cluster C) → Fs (Cluster C)
    refreshed s = refresh_addrs (list_nodes s.world.meta) (with_world s s.world)

    pub Placed-Committed :
        (o o1 : OpenFile) (s s1 s2 : Fs (Cluster C))
        → Placed addr_of caches xxh3 token o (refreshed s) o1 s1
        → Committed o1 s1 s2
        → Committed o s s2
    unfolding held refresh_addrs
    Placed-Committed o o1 s s1 s2 p c = record {
      inode = c.inode;
      there = ground (arith, c.there, p.ino);
      generation = ground (arith, c.generation, p.generation);
      size = ground (arith, c.size, p.size_hint);
      routes = c.routes;
      stored = λ idx b g. rw (← p.ino) (c.stored idx b (ground (arith, p.dirty)));
      kept = λ idx b g k. rw (← p.ino) (
          c.kept idx b (ground (arith, p.dirty)) (record {
            placement = k.placement;
            placed = ground (arith, p.ino, p.keeps idx k.placement k.placed);
            everywhere = λ url on. ground (arith, p.ino, p.stores, k.everywhere url on);
          }));
    }
