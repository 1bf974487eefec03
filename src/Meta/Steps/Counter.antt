-- ===== src/Meta/Steps/Counter.antt =====
-- Each request takes at most one number of an inode.
use dtmpfs.Prelude.{
  ℕ, ◌+◌, ◌≤◌, ◌<◌, ◌≡◌, refl, ◌∙◌, String, some, arith, nat_eq, list_eq, Option-cases, inl, inr,
}
use dtmpfs.Prelude.Ord.{nat_ord, list_ord}
use dtmpfs.Prelude.HashMap
use dtmpfs.Common.Id.{InodeId, u64_mod}
use dtmpfs.Common.Error.{Result, done, fail}
use dtmpfs.Meta.State.{Name, Inode, MetaState, watcher_tick}
use dtmpfs.Meta.Messages.{RenameReq}
use dtmpfs.Meta.Namespace.{
  find_in, create, mkdir, unlink, rmdir, make_file, make_dir, unlink_inode, remove_dir,
}
use dtmpfs.Meta.Rename.{Cleared, clear_kind, clear_dst, move_entry, adjust_links, rename}
use dtmpfs.Meta.Handles.{open_handle}
use dtmpfs.Meta.Nodes.{heartbeat_node}
use dtmpfs.Meta.Steps.{
  Request, sets_attr, creates, mkdirs, unlinks, rmdirs, renames, opens, closes, allocates,
  heartbeats, ticks, step,
}
use dtmpfs.Meta.Steps.SameTree.{set_attr-SameTree, close-SameTree, allocate-SameTree}

clear_kind-counter :
    (s : MetaState) (q : InodeId) (m : Name) (old : InodeId) (i : Inode) (c : Cleared)
    → clear_kind s q m old i ≡ done c
    → c.state.next_ino ≡ s.next_ino
unfolding clear_kind
clear_kind-counter s q m old i c h = ground arith

clear_dst-counter :
    (s : MetaState) (q : InodeId) (m : Name) (c : Cleared)
    → clear_dst s q m ≡ done c
    → c.state.next_ino ≡ s.next_ino
unfolding clear_dst
clear_dst-counter s q m c h = elim (Option-cases (find_in s.dirs q m)) [
  | inl e ↦ ground arith
  | inr (old, e) ↦ elim (Option-cases (HashMap.get old s.inodes)) [
    | inl g ↦ ground arith
    | inr (i, g) ↦ clear_kind-counter s q m old i c (ground arith)
  ]
]

move_entry-counter :
    (token : String) (src : InodeId) (r : RenameReq) (c : Cleared)
    → (move_entry token src r c).1.next_ino ≡ c.state.next_ino
unfolding move_entry adjust_links
move_entry-counter token src r c = ground arith

rename-counter :
    (token : String) (s : MetaState) (r : RenameReq) → (rename token s r).1.next_ino ≡ s.next_ino
unfolding rename
rename-counter token s r = elim (Option-cases (find_in s.dirs r.src_parent_ino r.src_name)) [
  | inl e ↦ rw (e, rename)
  | inr (src, e) ↦ after src e (clear_dst s r.dst_parent_ino r.dst_name) refl
]
  where
    after :
        (src : InodeId)
        → find_in s.dirs r.src_parent_ino r.src_name ≡ some src
        → (c : Result Cleared) → clear_dst s r.dst_parent_ino r.dst_name ≡ c
        → (rename token s r).1.next_ino ≡ s.next_ino
    after src e (fail x) h = rw (e, rename, h)
    after src e (done c) h =
        rw (e, rename, h)
          (move_entry-counter token src r c ∙ clear_dst-counter s r.dst_parent_ino r.dst_name c h)

module _ (xxh3 : String → ℕ → ℕ) (token : String) where
  -- A step takes at most one number.
  pub step-counter :
      (s : MetaState) (r : Request)
      → s.next_ino + 1 < u64_mod
      → (step xxh3 token s r).next_ino ≤ s.next_ino + 1
  unfolding step create make_file mkdir make_dir unlink unlink_inode rmdir remove_dir open_handle
      heartbeat_node watcher_tick
  step-counter s (sets_attr now r) small = omega (arith, (set_attr-SameTree token now s r).counter)
  step-counter s (creates now r) small = ground arith
  step-counter s (mkdirs now r) small = ground arith
  step-counter s (unlinks parent name) small = ground arith
  step-counter s (rmdirs parent name) small = ground arith
  step-counter s (renames r) small = omega (arith, rename-counter token s r)
  step-counter s (opens r o) small = ground arith
  step-counter s (closes now r) small = omega (arith, (close-SameTree now s r).counter)
  step-counter s (allocates ino idxs) small =
      omega (arith, (allocate-SameTree xxh3 s ino idxs).counter)
  step-counter s (heartbeats now r) small = ground arith
  step-counter s (ticks now dead_after) small = ground arith
