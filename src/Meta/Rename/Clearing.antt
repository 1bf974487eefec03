-- ===== src/Meta/Rename/Clearing.antt =====
-- `rename` as abstract changes: the destination is cleared, and then the entry moves.
use dtmpfs.Prelude.{
  ◌≡◌, ◌≢◌, refl, true, false, Option, none, some, [], arith, nat_eq, list_eq, Option-cases,
  Bool-cases, inl, inr, ◌⊎◌,
}
use dtmpfs.Prelude.HashMap
use dtmpfs.Prelude.BtreeMap
use dtmpfs.Prelude.Ord.{list_ord, nat_ord}
use dtmpfs.Common.Id.{InodeId, InodeKind, file, dir, symlink}
use dtmpfs.Common.Error.{Status, done, fail, failed_precondition}
use dtmpfs.Store.{status}
use dtmpfs.Meta.State.{Name, MetaState, Inode}
use dtmpfs.Meta.Namespace.{find_in, entry, link_down}
use dtmpfs.Meta.Rename.{Cleared, has_no_entries, clear_entry, clear_kind, clear_dst}
use dtmpfs.Meta.View.{
  kind_in, kind_at, find_in-remove, find_in-drop, has_dir-update, has_dir-remove, kind_in-remove,
  kind_in-link_down, empty_tree, full_tree,
}
use dtmpfs.Meta.Tree.{IsTree, Removes}

abbrev pub dir_not_empty : Status
dir_not_empty = status failed_precondition "destination directory not empty"

-- How the destination is cleared: there is nothing, or what is there goes with its inode.
pub data Clears (s mid : MetaState) (q : InodeId) (m : Name) : Type 0 where
  nothing : entry s q m ≡ none → mid ≡ s → Clears s mid q m
  removed : (old : InodeId) → entry s q m ≡ some old → Removes s mid q m old → Clears s mid q m

-- What may stand at the destination: nothing, an inode that is no directory, or an empty directory.
abbrev pub IsReplaceable : MetaState → Option InodeId → Type 0
IsReplaceable s none = Unit {0}
IsReplaceable s (some old) = kind_at s old ≡ some dir → (n : Name) → entry s old n ≡ none

module _ (s : MetaState) (q : InodeId) (m : Name) where
  clear_entry-Removes :
      (old : InodeId)
      → IsTree s
      → kind_at s old ≢ some dir
      → Removes s (clear_entry q m old s) q m old
  clear_entry-Removes old t other = record {
    kinds = λ n. kind_in-remove s.inodes n old;
    dirs = λ n. ground (arith, has_dir-update q n (BtreeMap.remove m) s.dirs, t.dir_kind n);
    entries = λ p n. find_in-drop q m s.dirs p n;
    counter = refl;
  }

  clear_dir-Removes :
      (old : InodeId)
      → ((n : Name) → entry s old n ≡ none)
      → Removes s
          (clear_entry q m old (record s {
            dirs = HashMap.remove old s.dirs;
            inodes = HashMap.update q link_down s.inodes;
          }))
          q
          m
          old
  clear_dir-Removes old empty = record {
    kinds = λ n. ground (
      arith,
      kind_in-remove (HashMap.update q link_down s.inodes) n old,
      kind_in-link_down s.inodes n q,
    );
    dirs = λ n. ground (
      arith,
      has_dir-update q n (BtreeMap.remove m) (HashMap.remove old s.dirs),
      has_dir-remove old n s.dirs,
    );
    entries = λ p n. ground (
      arith,
      find_in-drop q m (HashMap.remove old s.dirs) p n,
      find_in-remove old s.dirs p n,
      empty n,
    );
    counter = refl;
  }

  no_entries_sound :
      (old : InodeId) → has_no_entries s old ≡ true → (n : Name) → entry s old n ≡ none
  unfolding has_no_entries find_in
  no_entries_sound old h n = elim (Option-cases (HashMap.get old s.dirs)) [
    | inl e ↦ ground arith
    | inr (d, e) ↦ ground (arith, empty_tree d n)
  ]

  no_entries_complete :
      (old : InodeId) → has_no_entries s old ≡ false → ¬ ((n : Name) → entry s old n ≡ none)
  unfolding has_no_entries find_in
  no_entries_complete old h empty = elim (Option-cases (HashMap.get old s.dirs)) [
    | inl e ↦ ground arith
    | inr (d, e) ↦ let (n, c, held) = full_tree d (ground arith) in ground (arith, empty n, held)
  ]

  dir_cleared : InodeId → Cleared
  dir_cleared old = record {
    state = clear_entry q m old (record s {
      dirs = HashMap.remove old s.dirs;
      inodes = HashMap.update q link_down s.inodes;
    });
    blocks = [];
    ino = none;
  }

  file_cleared : InodeId → Inode → Cleared
  file_cleared old i = record { state = clear_entry q m old s; blocks = i.blocks; ino = some old }

  symlink_cleared : InodeId → Cleared
  symlink_cleared old = record { state = clear_entry q m old s; blocks = []; ino = none }

  -- The destination is cleared, or is no empty directory and the handler fails.
  Cleared-or_fails : InodeId → Inode → Type 0
  Cleared-or_fails old i =
      ((c : Cleared) × (clear_kind s q m old i ≡ done c)
        × Removes s c.state q m old
        × IsReplaceable s (some old))
      ⊎ ((¬ IsReplaceable s (some old)) × (clear_kind s q m old i ≡ fail dir_not_empty))

  module _ (old : InodeId) (i : Inode) (t : IsTree s)
      (found : HashMap.get old s.inodes ≡ some i) where
    kind_found : kind_at s old ≡ some i.kind
    unfolding kind_in
    kind_found = ground arith

    clear_kind_as : (k : InodeKind) → i.kind ≡ k → Cleared-or_fails old i
    unfolding clear_kind Cleared-or_fails dir_cleared file_cleared symlink_cleared
    clear_kind_as dir e = elim (Bool-cases (has_no_entries s old)) [
      | inl z ↦ inl (
        dir_cleared old,
        ground arith,
        clear_dir-Removes old (no_entries_sound old z),
        λ _. no_entries_sound old z,
      )
      | inr z ↦
          inr ((λ f. no_entries_complete old z (f (ground (arith, kind_found)))), ground arith)
    ]
    clear_kind_as file e = inl (
      file_cleared old i,
      ground arith,
      clear_entry-Removes old t (λ h. ground (arith, kind_found)),
      λ h. absurd (ground (arith, kind_found)),
    )
    clear_kind_as symlink e = inl (
      symlink_cleared old,
      ground arith,
      clear_entry-Removes old t (λ h. ground (arith, kind_found)),
      λ h. absurd (ground (arith, kind_found)),
    )

  pub clear_dst-cases :
      IsTree s
      → ((c : Cleared) × (clear_dst s q m ≡ done c)
          × Clears s c.state q m
          × IsReplaceable s (entry s q m))
        ⊎ ((¬ IsReplaceable s (entry s q m)) × (clear_dst s q m ≡ fail dir_not_empty))
  unfolding clear_dst Cleared-or_fails kind_in
  clear_dst-cases t = elim (Option-cases (find_in s.dirs q m)) [
    | inl e ↦
        inl (record { state = s; blocks = []; ino = none }, ground arith, nothing e refl, rw e tt)
    | inr (old, e) ↦ elim (Option-cases (HashMap.get old s.inodes)) [
      | inl g ↦ absurd (no_inode old e g)
      | inr (i, g) ↦ elim (clear_kind_as old i t g i.kind refl) [
        | inl (c, h, r, ok) ↦ inl (c, ground arith, removed old e r, rw e ok)
        | inr (full, h) ↦ inr (rw e full, ground arith)
      ]
    ]
  ]
    where
      no_inode : (old : InodeId) → entry s q m ≡ some old → HashMap.get old s.inodes ≡ none → ⊥
      no_inode old e g = ground (arith, t.child q m old e, kind_in_none old g)
        where
          kind_in_none : (o : InodeId) → HashMap.get o s.inodes ≡ none → kind_at s o ≡ none
          kind_in_none o h = rw (h, kind_in)
