-- ===== src/Meta/Steps/Typed.antt =====
-- The type bits of the modes through whole runs of the metadata server.
use dtmpfs.Prelude.{ℕ, ◌≡◌, String, List, [], ◌∷◌, arith, nat_eq, list_eq, Option-cases, inl, inr}
use dtmpfs.Prelude.Ord.{nat_ord, list_ord}
use dtmpfs.Prelude.HashMap
use dtmpfs.Common.Id.{InodeId, BlockIdx}
use dtmpfs.Common.Error.{done, Result-cases}
use dtmpfs.Meta.State.{Name, Inode, MetaState, watcher_tick, place, alloc_fh}
use dtmpfs.Meta.Messages.{RenameReq}
use dtmpfs.Meta.Namespace.{find_in, link_up, link_down}
use dtmpfs.Meta.Rename.{Cleared, clear_kind, clear_dst, move_entry, adjust_links, rename}
use dtmpfs.Meta.Handles.{open_handle}
use dtmpfs.Meta.Blocks.{allocate_one, allocate_all, allocate, put_block}
use dtmpfs.Meta.Nodes.{heartbeat_node}
use dtmpfs.Meta.Steps.{
  Request, sets_attr, creates, mkdirs, unlinks, rmdirs, renames, opens, closes, allocates,
  heartbeats, ticks, step, run,
}
use dtmpfs.Meta.Steps.Kinds.{
  AreTyped, KeepsType, remove-AreTyped, update-AreTyped, create-AreTyped, mkdir-AreTyped,
  unlink-AreTyped, rmdir-AreTyped, close-AreTyped, set_attr-AreTyped,
}

clear_kind-AreTyped :
    (s : MetaState) (q : InodeId) (m : Name) (old : InodeId) (v : Inode) (c : Cleared)
    → clear_kind s q m old v ≡ done c
    → AreTyped s.inodes
    → AreTyped c.state.inodes
unfolding clear_kind
clear_kind-AreTyped s q m old v c h a n i e =
    let d = HashMap.update q link_down s.inodes in
    let lowered = update-AreTyped q link_down s.inodes (λ j g t. t) a in
    ground (arith, a n i, remove-AreTyped old s.inodes a n i, remove-AreTyped old d lowered n i)

clear_dst-AreTyped :
    (s : MetaState) (q : InodeId) (m : Name) (c : Cleared)
    → clear_dst s q m ≡ done c
    → AreTyped s.inodes
    → AreTyped c.state.inodes
unfolding clear_dst
clear_dst-AreTyped s q m c h a = elim (Option-cases (find_in s.dirs q m)) [
  | inl e ↦ λ n i f. ground (arith, a n i)
  | inr (old, e) ↦ elim (Option-cases (HashMap.get old s.inodes)) [
    | inl g ↦ absurd (ground arith)
    | inr (v, g) ↦ clear_kind-AreTyped s q m old v c (ground arith) a
  ]
]

move_entry-AreTyped :
    (token : String) (src : InodeId) (r : RenameReq) (c : Cleared)
    → AreTyped c.state.inodes
    → AreTyped (move_entry token src r c).1.inodes
unfolding move_entry adjust_links
move_entry-AreTyped token src r c a n i e =
    let lowered = update-AreTyped r.src_parent_ino link_down c.state.inodes (λ j g t. t) a in
    ground (
      arith,
      a n i,
      update-AreTyped r.dst_parent_ino link_up
          (HashMap.update r.src_parent_ino link_down c.state.inodes) (λ j g t. t) lowered n i,
    )

rename-AreTyped :
    (token : String) (s : MetaState) (r : RenameReq)
    → AreTyped s.inodes
    → AreTyped (rename token s r).1.inodes
unfolding rename
rename-AreTyped token s r a = elim (Option-cases (find_in s.dirs r.src_parent_ino r.src_name)) [
  | inl e ↦ rw (e, rename) a
  | inr (src, e) ↦ elim (Result-cases (clear_dst s r.dst_parent_ino r.dst_name)) [
    | inr (x, f) ↦ rw (e, rename, f) a
    | inl (c, f) ↦
        rw (e, rename, f)
          (move_entry-AreTyped token src r c
            (clear_dst-AreTyped s r.dst_parent_ino r.dst_name c f a))
  ]
]

module _ (xxh3 : String → ℕ → ℕ) where
  allocate_one-AreTyped :
      (s : MetaState) (k : InodeId) (idx : BlockIdx)
      → AreTyped s.inodes
      → AreTyped (allocate_one xxh3 s k idx).1.inodes
  unfolding allocate_one
  allocate_one-AreTyped s k idx a n i e = ground (
    arith,
    a n i,
    update-AreTyped k (put_block idx (place xxh3 s k idx)) s.inodes (λ j g t. t) a n i,
  )

  allocate_all-AreTyped :
      (s : MetaState) (k : InodeId) (idxs : List BlockIdx)
      → AreTyped s.inodes
      → AreTyped (allocate_all xxh3 s k idxs).1.inodes
  unfolding allocate_all
  allocate_all-AreTyped s k [] a = a
  allocate_all-AreTyped s k (idx ∷ idxs) a =
      allocate_all-AreTyped (allocate_one xxh3 s k idx).1 k idxs (allocate_one-AreTyped s k idx a)

  allocate-AreTyped :
      (s : MetaState) (k : InodeId) (idxs : List BlockIdx)
      → AreTyped s.inodes
      → AreTyped (allocate xxh3 s k idxs).1.inodes
  unfolding allocate
  allocate-AreTyped s k idxs a n i e = ground (arith, a n i, allocate_all-AreTyped s k idxs a n i)

  module _ (token : String) where
    -- What a request must be for its step to keep the type bits.
    abbrev pub Keeps : MetaState → Request → Type 0
    Keeps s (sets_attr now r) = KeepsType s r
    Keeps s _ = Unit {0}

    step-AreTyped :
        (s : MetaState) (r : Request)
        → Keeps s r
        → AreTyped s.inodes
        → AreTyped (step xxh3 token s r).inodes
    unfolding step open_handle alloc_fh heartbeat_node watcher_tick
    step-AreTyped s (sets_attr now r) k a = set_attr-AreTyped token now s r k a
    step-AreTyped s (creates now r) k a = create-AreTyped now s r a
    step-AreTyped s (mkdirs now r) k a = mkdir-AreTyped now s r a
    step-AreTyped s (unlinks p m) k a = unlink-AreTyped token s p m a
    step-AreTyped s (rmdirs p m) k a = rmdir-AreTyped s p m a
    step-AreTyped s (renames r) k a = rename-AreTyped token s r a
    step-AreTyped s (opens r o) k a = a
    step-AreTyped s (closes now r) k a = close-AreTyped now s r a
    step-AreTyped s (allocates n idxs) k a = allocate-AreTyped s n idxs a
    step-AreTyped s (heartbeats now r) k a = a
    step-AreTyped s (ticks now dead_after) k a = a

    -- Each request keeps the type bits where its turn comes.
    abbrev pub AllKeep : MetaState → List Request → Type 0
    AllKeep s [] = Unit {0}
    AllKeep s (r ∷ rs) = Keeps s r × AllKeep (step xxh3 token s r) rs

    pub run-AreTyped :
        (s : MetaState) (rs : List Request)
        → AllKeep s rs
        → AreTyped s.inodes
        → AreTyped (run xxh3 token s rs).inodes
    unfolding run
    run-AreTyped s [] k a = a
    run-AreTyped s (r ∷ rs) (k, ks) a =
        run-AreTyped (step xxh3 token s r) rs ks (step-AreTyped s r k a)
