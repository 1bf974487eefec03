-- ===== src/Meta/Namespace/Removing.antt =====
-- `unlink` and `rmdir` as changes of the tree of names.
use dtmpfs.Prelude.{
  ◌≡◌, ◌≢◌, String, true, false, none, some, List, [], arith, nat_eq, list_eq, is_empty,
  Option-cases, Bool-cases, inl, inr, ◌⊎◌,
}
use dtmpfs.Prelude.HashMap
use dtmpfs.Prelude.BtreeMap
use dtmpfs.Prelude.Ord.{list_ord, nat_ord}
use dtmpfs.Common.Id.{InodeId, dir, InodeKind-discrete}
use dtmpfs.Common.Error.{done}
use dtmpfs.Meta.State.{Name, MetaState, Inode}
use dtmpfs.Meta.Namespace.{find_in, entry, unlink, rmdir, remove_dir, unlink_inode}
use dtmpfs.Meta.View.{
  kind_in, kind_at, has_dir, find_in-remove, find_in-drop, has_dir-update, has_dir-remove,
  kind_in-remove, kind_in-link_down, empty_tree, full_tree,
}
use dtmpfs.Meta.Tree.{IsTree, Removes}

module _ (s : MetaState) (parent : InodeId) (name : Name) where
  pub unlink_inode-Removes :
      (token : String) (child : InodeId) (i : Inode)
      → IsTree s
      → HashMap.get child s.inodes ≡ some i
      → i.kind ≢ dir
      → Removes s (unlink_inode token s parent name child i).1 parent name child
  unfolding unlink_inode kind_in
  unlink_inode-Removes token child i t found other = record {
    kinds = λ n. ground (arith, kind_in-remove s.inodes n child);
    dirs = λ n. ground (arith, has_dir-update parent n (BtreeMap.remove name) s.dirs, t.dir_kind n);
    entries = λ p n. ground (arith, find_in-drop parent name s.dirs p n);
    counter = ground arith;
  }

  -- A directory with no entry.
  abbrev pub IsEmptyDir : InodeId → Type 0
  IsEmptyDir child = (has_dir s.dirs child ≡ true) × ((n : Name) → entry s child n ≡ none)

  pub remove_dir-Removes :
      (child : InodeId)
      → IsTree s
      → IsEmptyDir child
      → Removes s (remove_dir s parent name child) parent name child
  unfolding remove_dir
  remove_dir-Removes child t empty = record {
    kinds = λ n. ground (
      arith,
      kind_in-link_down (HashMap.remove child s.inodes) n parent,
      kind_in-remove s.inodes n child,
    );
    dirs = λ n. ground (
      arith,
      has_dir-update parent n (BtreeMap.remove name) (HashMap.remove child s.dirs),
      has_dir-remove child n s.dirs,
    );
    entries = λ p n. ground (
      arith,
      find_in-drop parent name (HashMap.remove child s.dirs) p n,
      find_in-remove child s.dirs p n,
      empty.1 n,
    );
    counter = ground arith;
  }

  rmdir_empty :
      (child : InodeId) (d : List (Name × InodeId))
      → HashMap.get child s.dirs ≡ some d
      → is_empty d ≡ true
      → IsEmptyDir child
  unfolding find_in
  rmdir_empty child d e h = (ground arith, λ n. ground (arith, empty_tree d n))

  rmdir_full :
      (child : InodeId) (d : List (Name × InodeId))
      → HashMap.get child s.dirs ≡ some d
      → is_empty d ≡ false
      → ¬ IsEmptyDir child
  unfolding find_in
  rmdir_full child d e h empty = let (n, c, held) = full_tree d h in ground (arith, empty.1 n, held)

  -- `rmdir` succeeds exactly when the entry leads to an empty directory, and otherwise changes
  -- nothing.
  pub rmdir-cases :
      ((child : InodeId) × (entry s parent name ≡ some child)
        × IsEmptyDir child
        × (rmdir s parent name ≡ (done tt, remove_dir s parent name child)))
      ⊎ (((child : InodeId) → entry s parent name ≡ some child → ¬ IsEmptyDir child)
          × ((rmdir s parent name).1 ≡ s)
          × ((rmdir s parent name).0 ≢ done tt))
  unfolding rmdir
  rmdir-cases = elim (Option-cases (find_in s.dirs parent name)) [
    | inl e ↦ inr ((λ c h. ground arith), ground arith, λ x. ground arith)
    | inr (child, e) ↦ elim (Option-cases (HashMap.get child s.dirs)) [
      | inl g ↦ inr ((λ c h f. ground arith), ground arith, λ x. ground arith)
      | inr (d, g) ↦ elim (Bool-cases (is_empty d)) [
        | inl z ↦ inl (child, e, rmdir_empty child d g z, ground arith)
        | inr z ↦
            inr ((λ c h f. rmdir_full c d (ground arith) z f), ground arith, λ x. ground arith)
      ]
    ]
  ]

  -- `unlink` succeeds exactly when the entry leads to an inode that is no directory, and otherwise
  -- changes nothing and deletes no block.
  pub unlink-cases :
      (token : String)
      → ((child : InodeId) × (i : Inode) × (entry s parent name ≡ some child)
          × (HashMap.get child s.inodes ≡ some i)
          × (i.kind ≢ dir)
          × (unlink token s parent name ≡ unlink_inode token s parent name child i)
          × ((unlink token s parent name).0 ≡ done tt))
        ⊎ (((child : InodeId)
              → entry s parent name ≡ some child
              → (kind_at s child ≡ none) ⊎ (kind_at s child ≡ some dir))
            × ((unlink token s parent name).1 ≡ s)
            × ((unlink token s parent name).2 ≡ [])
            × ((unlink token s parent name).0 ≢ done tt))
  unfolding unlink kind_in
  unlink-cases token = elim (Option-cases (find_in s.dirs parent name)) [
    | inl e ↦ inr ((λ c h. ground arith), ground arith, ground arith, λ x. ground arith)
    | inr (child, e) ↦ elim (Option-cases (HashMap.get child s.inodes)) [
      | inl g ↦ inr ((λ c h. ground arith), ground arith, ground arith, λ x. ground arith)
      | inr (i, g) ↦ elim (InodeKind-discrete i.kind dir) [
        | yes d ↦ inr ((λ c h. ground arith), ground arith, ground arith, λ x. ground arith)
        | no f ↦ inl (child, i, e, g, f, ground arith, ground arith)
      ]
    ]
  ]
