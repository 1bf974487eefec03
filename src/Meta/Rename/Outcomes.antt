-- ===== src/Meta/Rename/Outcomes.antt =====
-- What `rename` does to the tree of names, on every branch.
use dtmpfs.Prelude.{
  ◌≡◌, ap, String, true, false, none, some, arith, nat_eq, list_eq, Option-cases, Bool-cases, inl,
  inr, if◌then◌else◌,
}
use dtmpfs.Prelude.Ord.{list_ord, nat_ord}
use dtmpfs.Common.Id.{InodeId}
use dtmpfs.Common.Error.{Result, done, fail, not_found}
use dtmpfs.Store.{status}
use dtmpfs.Meta.State.{Name, MetaState}
use dtmpfs.Meta.Messages.{RenameReq, inode_not_found}
use dtmpfs.Meta.Namespace.{find_in, entry, drop_entry}
use dtmpfs.Meta.Rename.{Cleared, move_entry, rename}
use dtmpfs.Meta.View.{has_dir, same_place, find_in-has_dir}
use dtmpfs.Meta.Tree.{IsTree, Moves, Moves-IsTree}
use dtmpfs.Meta.Rename.Clearing.{
  Clears, nothing, removed, IsReplaceable, clear_dst-cases, dir_not_empty,
}
use dtmpfs.Meta.Rename.Moving.{
  onto_itself, Clears-IsTree, Clears-src, Clears-dst, move_entry_done, move_entry_lost, after_drop,
  adjusted-Moves,
}

-- The entries of the second state are those of the first, but for the move of one inode.
abbrev pub EntriesMoved : MetaState → MetaState → RenameReq → InodeId → Type 0
EntriesMoved s s' r src =
    (p : InodeId) (n : Name)
    → entry s' p n ≡ (
        if same_place r.dst_parent_ino r.dst_name p n
        then some src
        else if same_place r.src_parent_ino r.src_name p n
        then none
        else entry s p n)

-- What a rename can come to.
pub data Outcome (s : MetaState) (r : RenameReq) (answer : Result (Unit {0})) (s' : MetaState)
    : Type 0 where
  moved :
      (src : InodeId)
      → entry s r.src_parent_ino r.src_name ≡ some src
      → has_dir s.dirs r.dst_parent_ino ≡ true
      → IsReplaceable s (entry s r.dst_parent_ino r.dst_name)
      → answer ≡ done tt
      → EntriesMoved s s' r src
      → IsTree s'
      → Outcome s r answer s'
  no_source :
      entry s r.src_parent_ino r.src_name ≡ none
      → answer ≡ fail inode_not_found
      → s' ≡ s
      → Outcome s r answer s'
  full :
      ¬ IsReplaceable s (entry s r.dst_parent_ino r.dst_name)
      → answer ≡ fail dir_not_empty
      → s' ≡ s
      → Outcome s r answer s'
  lost :
      has_dir s.dirs r.dst_parent_ino ≡ false
      → answer ≡ fail (status not_found "dst parent not found")
      → s' ≡ drop_entry r.src_parent_ino r.src_name s
      → Outcome s r answer s'

module _ (s : MetaState) (r : RenameReq) (src : InodeId) (token : String) where
  moved-entries :
      {mid s' : MetaState}
      → Clears s mid r.dst_parent_ino r.dst_name
      → Moves mid s' r.src_parent_ino r.src_name r.dst_parent_ino r.dst_name src
      → EntriesMoved s s' r src
  moved-entries (nothing e same) m p n = ground (arith, m.entries p n)
  moved-entries (removed old e rm) m p n = ground (arith, m.entries p n, rm.entries p n)

  -- Where there is no directory there is nothing to clear.
  Clears-lost :
      {mid : MetaState}
      → Clears s mid r.dst_parent_ino r.dst_name
      → has_dir s.dirs r.dst_parent_ino ≡ false
      → mid ≡ s
  Clears-lost (nothing e same) no_dir = same
  Clears-lost (removed old e rm) no_dir =
      absurd (ground (arith, find_in-has_dir s.dirs r.dst_parent_ino r.dst_name old e))

  after_clear :
      (c : Cleared)
      → IsTree s
      → onto_itself r ≡ false
      → entry s r.src_parent_ino r.src_name ≡ some src
      → Clears s c.state r.dst_parent_ino r.dst_name
      → IsReplaceable s (entry s r.dst_parent_ino r.dst_name)
      → Outcome s r (move_entry token src r c).0 (move_entry token src r c).1
  unfolding after_drop
  after_clear c t other held cl ok = elim (Bool-cases (has_dir s.dirs r.dst_parent_ino)) [
    | inl there ↦
        let at_mid = Clears-dst s r src t cl ok there in
        let ended = move_entry_done s r src token c at_mid in
        let move = adjusted-Moves s r src c.state at_mid in
        moved src held there ok ended.0 (rw ended.1 (moved-entries cl move)) (
          rw ended.1 (
            Moves-IsTree c.state _ _ _ _ _ src (Clears-IsTree s r src t cl) move
              (Clears-src s r src cl other held)))
    | inr gone ↦
        let same = Clears-lost cl gone in
        let ended = move_entry_lost s r src token c (rw same gone) in
        lost gone (rw ended) (rw ended (ap (drop_entry r.src_parent_ino r.src_name) same))
  ]

module _ (token : String) (s : MetaState) (r : RenameReq) where
  -- In a tree, a rename that does not name its own source succeeds, moves the entry and changes no
  -- other entry; or fails without a source or before a full directory and changes nothing; or,
  -- where the destination has no directory, fails and takes the source entry out. The kinds of the
  -- source and of what it replaces are not compared.
  pub rename-Outcome :
      IsTree s → onto_itself r ≡ false → Outcome s r (rename token s r).0 (rename token s r).1
  unfolding rename
  rename-Outcome t other = elim (Option-cases (find_in s.dirs r.src_parent_ino r.src_name)) [
    | inl e ↦ no_source e (rw (e, rename)) (rw (e, rename))
    | inr (src, e) ↦ elim (clear_dst-cases s r.dst_parent_ino r.dst_name t) [
      | inl (c, h, cl, ok) ↦ rw (e, rename, h) (after_clear s r src token c t other e cl ok)
      | inr (not_free, h) ↦ full not_free (rw (e, rename, h)) (rw (e, rename, h))
    ]
  ]
