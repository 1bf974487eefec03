-- ===== src/Cluster/Publishing.antt =====
-- What `publish` of crates/dtmpfs-client/src/flush.rs, waiting for all replicas, leaves of the
-- metadata and on the storage nodes, where it succeeds.
use dtmpfs.Prelude.{
  ◌≡◌, ◌≢◌, refl, subst, ℕ, String, true, false, some, arith, nat_eq, string_eq, Bool-cases, inl,
  inr, List, [], ◌∷◌, Tree, is_empty,
}
use dtmpfs.Prelude.Ord.{nat_ord}
use dtmpfs.Prelude.BtreeMap
use dtmpfs.Common.Id.{InodeId, BlockIdx, BlockPlacement, NodeId}
use dtmpfs.Common.Error.{Result, Status, done, fail, Result-cases}
use dtmpfs.Meta.State.{MetaState}
use dtmpfs.Meta.Messages.{BlockLoc, placement_to_block_loc}
use dtmpfs.Meta.Blocks.{placement_at}
use dtmpfs.Meta.Blocks.Allocating.{ArePlaced, has_inode, allocate-Allocates}
use dtmpfs.Meta.Blocks
use dtmpfs.Meta.Handles.Succeeding.{allocate-handles}
use dtmpfs.Client.{OpenFile, Fs, returned, insert_locs, with_world}
use dtmpfs.Client.Publish.{new_idxs, allocate}
use dtmpfs.Client.{Env}
use dtmpfs.Cluster.{Caches, Cluster, cluster_env}
use dtmpfs.Cluster.Routes.{Routes}

-- Every placement that a map of blocks has is the server's.
abbrev pub Agrees : MetaState → InodeId → Tree BlockIdx BlockPlacement → Type 0
Agrees m ino t =
    (idx : BlockIdx) (p : BlockPlacement)
    → BtreeMap.get idx t ≡ some p
    → placement_at m ino idx ≡ some p

insert-Agrees :
    (m : MetaState) (ino : InodeId) (t : Tree BlockIdx BlockPlacement) (idx : BlockIdx)
    (p : BlockPlacement)
    → placement_at m ino idx ≡ some p
    → Agrees m ino t
    → Agrees m ino (BtreeMap.insert idx p t)
insert-Agrees m ino t idx p e a jdx q f = ground (arith, BtreeMap.get-insert idx jdx p t, a jdx q)

insert_locs-Agrees :
    (m : MetaState) (ino : InodeId) (idxs : List BlockIdx) (ls : List BlockLoc)
    (t : Tree BlockIdx BlockPlacement)
    → ArePlaced ino m idxs ls
    → Agrees m ino t
    → Agrees m ino (insert_locs ls t)
unfolding insert_locs placement_to_block_loc
insert_locs-Agrees m ino [] [] t placed a = a
insert_locs-Agrees m ino (idx ∷ idxs) (l ∷ ls) t ((p, e, f), placed) a =
    insert_locs-Agrees m ino idxs ls _ placed (rw e (insert-Agrees m ino t idx p f a))
insert_locs-Agrees m ino [] (l ∷ ls) t placed a = elim placed [ ]
insert_locs-Agrees m ino (idx ∷ idxs) [] t placed a = elim placed [ ]

module _ {C : Type 0} (addr_of : NodeId → String) (caches : Caches C) (xxh3 : String → ℕ → ℕ)
    (token : String) where
  abbrev env : Env (Cluster C)
  env = cluster_env caches xxh3 token

  -- What the placing of new blocks leaves.
  pub record Placed (o : OpenFile) (s : Fs (Cluster C)) (o1 : OpenFile) (s1 : Fs (Cluster C))
      : Type 0 where
    pub ino : o1.ino ≡ o.ino
    pub dirty : o1.dirty ≡ o.dirty
    pub generation : o1.generation ≡ o.generation
    pub size_hint : o1.size_hint ≡ o.size_hint
    pub routes : Routes addr_of s1
    pub stores : s1.world.stores ≡ s.world.stores
    pub clock : s1.world.clock ≡ s.world.clock
    pub handles : s1.world.meta.open_handles ≡ s.world.meta.open_handles
    pub agrees : Agrees s1.world.meta o.ino o1.block_map
    pub keeps :
        (idx : BlockIdx) (p : BlockPlacement)
        → placement_at s.world.meta o.ino idx ≡ some p
        → placement_at s1.world.meta o.ino idx ≡ some p

  module _ (o : OpenFile) (s : Fs (Cluster C)) where
    abbrev asked : Result (List BlockLoc) × MetaState
    asked = Blocks.allocate xxh3 s.world.meta o.ino (new_idxs o)

    allocate_none : is_empty (new_idxs o) ≡ true → allocate env o s ≡ (returned tt, o, s)
    unfolding allocate
    allocate_none e = ground arith

    abbrev with_locs : List BlockLoc → OpenFile
    with_locs locs = record o { block_map = insert_locs locs o.block_map }

    abbrev with_placements : Fs (Cluster C)
    with_placements = with_world s (record (s.world) { meta = asked.1 })

    allocate_some :
        (locs : List BlockLoc)
        → is_empty (new_idxs o) ≡ false
        → asked.0 ≡ done locs
        → allocate env o s ≡ (returned tt, with_locs locs, with_placements)
    unfolding allocate
    allocate_some locs e f = ground arith

    allocate_fails :
        (x : Status)
        → is_empty (new_idxs o) ≡ false
        → asked.0 ≡ fail x
        → (allocate env o s).0 ≢ returned tt
    unfolding allocate
    allocate_fails x e f h = ground arith

    asked-has_inode :
        (locs : List BlockLoc) → asked.0 ≡ done locs → has_inode o.ino s.world.meta ≡ true
    unfolding Blocks.allocate
    asked-has_inode locs f = ground arith

    pub allocate-Placed :
        Routes addr_of s
        → Agrees s.world.meta o.ino o.block_map
        → (allocate env o s).0 ≡ returned tt
        → let (_, o1, s1) = allocate env o s in Placed o s o1 s1
    allocate-Placed r a h = elim (Bool-cases (is_empty (new_idxs o))) [
      | inl e ↦ rw (allocate_none e) (record {
        ino = refl;
        dirty = refl;
        generation = refl;
        size_hint = refl;
        routes = r;
        stores = refl;
        clock = refl;
        handles = refl;
        agrees = a;
        keeps = λ idx p k. k;
      })
      | inr e ↦ elim (Result-cases asked.0) [
        | inr (x, f) ↦ absurd (allocate_fails x e f h)
        | inl (locs, f) ↦
            let al =
              allocate-Allocates xxh3 o.ino s.world.meta (new_idxs o) (asked-has_inode locs f) in
            rw (allocate_some locs e f) (record {
              ino = refl;
              dirty = refl;
              generation = refl;
              size_hint = refl;
              routes = record { channels = r.channels; addresses = r.addresses };
              stores = refl;
              clock = refl;
              handles = allocate-handles xxh3 o.ino s.world.meta (new_idxs o);
              agrees =
                  insert_locs-Agrees asked.1 o.ino (new_idxs o) locs o.block_map
                    (subst (ArePlaced o.ino asked.1 (new_idxs o)) (cc (al.answered)) al.placed)
                    (λ idx p k. al.grows.keeps idx p (a idx p k));
              keeps = al.grows.keeps;
            })
      ]
    ]
