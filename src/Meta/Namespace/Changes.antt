-- ===== src/Meta/Namespace/Changes.antt =====
-- `create` and `mkdir` as changes of the tree of names: each makes one, or none.
use dtmpfs.Prelude.{
  ◌+◌, ◌<◌, ◌≡◌, ◌≢◌, true, none, [], arith, nat_eq, list_eq, Option-cases, inl, inr, ◌⊎◌,
}
use dtmpfs.Prelude.HashMap
use dtmpfs.Prelude.BtreeMap
use dtmpfs.Prelude.Ord.{list_ord, nat_ord}
use dtmpfs.Common.Id.{file, dir, u64_mod}
use dtmpfs.Common.Error.{done}
use dtmpfs.Meta.State.{SystemTime, Name, MetaState, Attr}
use dtmpfs.Meta.Messages.{CreateReq, CreateResp}
use dtmpfs.Meta.Namespace.{find_in, entry, create, mkdir, make_file, make_dir, new_file, new_dir}
use dtmpfs.Meta.View.{
  kind_at, has_dir, find_in-put, find_in-new_dir, find_in-has_dir, has_dir-update, has_dir-insert,
  kind_in-insert, kind_in-link_up,
}
use dtmpfs.Meta.Tree.{IsTree, Adds}

module _ (now : SystemTime) (s : MetaState) (r : CreateReq) where
  pub make_file-Adds :
      s.next_ino + 1 < u64_mod
      → has_dir s.dirs r.parent_ino ≡ true
      → IsTree s
      → Adds s (make_file now s r).1 r.parent_ino r.name s.next_ino file
  unfolding make_file
  make_file-Adds small held t = record {
    kinds = λ n. ground (arith, kind_in-insert s.inodes n s.next_ino (new_file now s.next_ino r));
    dirs = λ n. ground (
      arith,
      has_dir-update r.parent_ino n (BtreeMap.insert r.name s.next_ino) s.dirs,
      t.below n,
      t.dir_kind n,
    );
    entries = λ p n. ground (arith, find_in-put r.parent_ino r.name s.next_ino s.dirs p n);
    counter = ground arith;
    counted = ground arith;
  }

  -- The next number is not that of a directory, so nothing stands in it.
  new_empty : (n : Name) → IsTree s → find_in s.dirs s.next_ino n ≡ none
  new_empty n t = elim (Option-cases (find_in s.dirs s.next_ino n)) [
    | inl e ↦ e
    | inr (c, e) ↦
        ground (
          arith,
          find_in-has_dir s.dirs s.next_ino n c e,
          t.dir_kind s.next_ino,
          t.below s.next_ino,
        )
  ]

  pub new_kind : IsTree s → kind_at s s.next_ino ≡ none
  new_kind t = ground (arith, t.below s.next_ino)

  pub make_dir-Adds :
      s.next_ino + 1 < u64_mod
      → has_dir s.dirs r.parent_ino ≡ true
      → IsTree s
      → Adds s (make_dir now s r).1 r.parent_ino r.name s.next_ino dir
  unfolding make_dir
  make_dir-Adds small held t = record {
    kinds = λ n.
        rw
          (kind_in-link_up (HashMap.insert s.next_ino (new_dir now s.next_ino r) s.inodes) n
            r.parent_ino)
          (kind_in-insert s.inodes n s.next_ino (new_dir now s.next_ino r));
    dirs = λ n. ground (
      arith,
      has_dir-update r.parent_ino n (BtreeMap.insert r.name s.next_ino)
          (HashMap.insert s.next_ino [] s.dirs),
      has_dir-insert s.next_ino n [] s.dirs,
    );
    entries = λ p n. ground (
      arith,
      find_in-put r.parent_ino r.name s.next_ino (HashMap.insert s.next_ino [] s.dirs) p n,
      has_dir-insert s.next_ino r.parent_ino [] s.dirs,
      find_in-new_dir s.next_ino s.dirs p n,
      new_empty n t,
    );
    counter = ground arith;
    counted = ground arith;
  }

  -- A name is free in a directory that is there.
  abbrev pub IsFree : Type 0
  IsFree = (has_dir s.dirs r.parent_ino ≡ true) × (entry s r.parent_ino r.name ≡ none)

  -- `create` and `mkdir` succeed exactly when the name is free in a directory that is there, and
  -- otherwise change nothing.
  pub create-cases :
      (IsFree × (create now s r ≡ make_file now s r))
      ⊎ ((¬ IsFree) × ((create now s r).1 ≡ s) × ((a : CreateResp) → (create now s r).0 ≢ done a))
  unfolding create find_in
  create-cases = elim (Option-cases (HashMap.get r.parent_ino s.dirs)) [
    | inl e ↦ inr ((λ f. ground arith), ground arith, λ a x. ground arith)
    | inr (d, e) ↦ elim (Option-cases (BtreeMap.get r.name d)) [
      | inl free ↦ inl ((ground arith, ground arith), ground arith)
      | inr (c, taken) ↦ inr ((λ f. ground arith), ground arith, λ a x. ground arith)
    ]
  ]

  pub mkdir-cases :
      (IsFree × (mkdir now s r ≡ make_dir now s r))
      ⊎ ((¬ IsFree) × ((mkdir now s r).1 ≡ s) × ((a : Attr) → (mkdir now s r).0 ≢ done a))
  unfolding mkdir find_in
  mkdir-cases = elim (Option-cases (HashMap.get r.parent_ino s.dirs)) [
    | inl e ↦ inr ((λ f. ground arith), ground arith, λ a x. ground arith)
    | inr (d, e) ↦ elim (Option-cases (BtreeMap.get r.name d)) [
      | inl free ↦ inl ((ground arith, ground arith), ground arith)
      | inr (c, taken) ↦ inr ((λ f. ground arith), ground arith, λ a x. ground arith)
    ]
  ]
