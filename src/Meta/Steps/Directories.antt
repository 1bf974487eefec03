-- ===== src/Meta/Steps/Directories.antt =====
-- What holds of every directory through a run, if an empty one has it, and taking an entry out and
-- putting one in under a good name keep it.
use dtmpfs.Prelude.{
  ◌≡◌, sym, subst, String, some, [], Tree, arith, nat_eq, list_eq, ◌==◌, Option-cases, Bool-cases,
  inl, inr, ◌⊎◌,
}
use dtmpfs.Prelude.Ord.{nat_ord, list_ord}
use dtmpfs.Prelude.HashMap
use dtmpfs.Prelude.BtreeMap
use dtmpfs.Common.Id.{InodeId, dir, InodeKind-discrete}
use dtmpfs.Common.Error.{done}
use dtmpfs.Common.Error.{Result-cases}
use dtmpfs.Meta.State.{SystemTime, Name, Inode, MetaState}
use dtmpfs.Meta.Messages.{CreateReq, RenameReq}
use dtmpfs.Meta.Namespace.{
  find_in, create, mkdir, unlink, rmdir, make_file, make_dir, unlink_inode, remove_dir,
}
use dtmpfs.Meta.Namespace.Changes.{create-cases, mkdir-cases}
use dtmpfs.Meta.Namespace.Removing.{unlink-cases, rmdir-cases}
use dtmpfs.Meta.Rename.{Cleared, clear_kind, clear_dst, move_entry, adjust_links, rename}
use dtmpfs.Meta.View.{Dirs}

abbrev pub Property : Type 1
Property = Tree Name InodeId → Type 0

pub record IsKept (P : Property) (Good : Name → Type 0) : Type 0 where
  pub empty : P []
  pub remove : (n : Name) (d : Tree Name InodeId) → P d → P (BtreeMap.remove n d)
  pub insert :
      (n : Name) (c : InodeId) (d : Tree Name InodeId) → Good n → P d → P (BtreeMap.insert n c d)

module _ (P : Property) where
  abbrev pub EachDir : Dirs → Type 0
  EachDir dirs = (p : InodeId) (d : Tree Name InodeId) → HashMap.get p dirs ≡ some d → P d

  EachDir-update :
      (k : InodeId) (f : Tree Name InodeId → Tree Name InodeId) (dirs : Dirs)
      → ((d : Tree Name InodeId) → P d → P (f d))
      → EachDir dirs
      → EachDir (HashMap.update k f dirs)
  EachDir-update k f dirs keep each p d h = elim (Option-cases (HashMap.get p dirs)) [
    | inl e ↦ absurd (ground (arith, HashMap.get-update k p f dirs))
    | inr (old, e) ↦ elim (Bool-cases (k == p)) [
      | inl g ↦
          let same : f old ≡ d = ground (arith, HashMap.get-update k p f dirs) in
          subst P same (keep old (each p old e))
      | inr g ↦ each p d (ground (arith, HashMap.get-update k p f dirs))
    ]
  ]

  EachDir-new :
      (k : InodeId) (dirs : Dirs) → P [] → EachDir dirs → EachDir (HashMap.insert k [] dirs)
  EachDir-new k dirs empty each p d h = elim (Bool-cases (k == p)) [
    | inl g ↦
        let same : ◌≡◌ {A = Tree Name InodeId} [] d =
          ground (arith, HashMap.get-insert k p [] dirs) in
        subst P same empty
    | inr g ↦ each p d (ground (arith, HashMap.get-insert k p [] dirs))
  ]

  EachDir-remove : (k : InodeId) (dirs : Dirs) → EachDir dirs → EachDir (HashMap.remove k dirs)
  EachDir-remove k dirs each p d h = each p d (ground (arith, HashMap.get-remove k p dirs))

  module _ (Good : Name → Type 0) (kept : IsKept P Good) (s : MetaState)
      (each : EachDir s.dirs) where
    EachDir-drop :
        (k : InodeId) (n : Name) (dirs : Dirs)
        → EachDir dirs
        → EachDir (HashMap.update k (BtreeMap.remove n) dirs)
    EachDir-drop k n dirs e = EachDir-update k (BtreeMap.remove n) dirs (kept.remove n) e

    EachDir-put :
        (k : InodeId) (n : Name) (c : InodeId) (dirs : Dirs)
        → Good n
        → EachDir dirs
        → EachDir (HashMap.update k (BtreeMap.insert n c) dirs)
    EachDir-put k n c dirs good e =
        EachDir-update k (BtreeMap.insert n c) dirs (λ d h. kept.insert n c d good h) e

    pub create-EachDir :
        (now : SystemTime) (r : CreateReq) → Good r.name → EachDir (create now s r).1.dirs
    unfolding make_file
    create-EachDir now r good = elim (create-cases now s r) [
      | inr (_, same, _) ↦ subst (λ x. EachDir x.dirs) (sym same) each
      | inl (free, same) ↦
          subst (λ x. EachDir x.1.dirs) (sym same)
            (EachDir-put r.parent_ino r.name s.next_ino s.dirs good each)
    ]

    pub mkdir-EachDir :
        (now : SystemTime) (r : CreateReq) → Good r.name → EachDir (mkdir now s r).1.dirs
    unfolding make_dir
    mkdir-EachDir now r good = elim (mkdir-cases now s r) [
      | inr (_, same, _) ↦ subst (λ x. EachDir x.dirs) (sym same) each
      | inl (free, same) ↦
          subst (λ x. EachDir x.1.dirs) (sym same)
            (EachDir-put r.parent_ino r.name s.next_ino (HashMap.insert s.next_ino [] s.dirs) good
              (EachDir-new s.next_ino s.dirs kept.empty each))
    ]

    pub unlink-EachDir :
        (token : String) (p : InodeId) (n : Name) → EachDir (unlink token s p n).1.dirs
    unfolding unlink_inode
    unlink-EachDir token p n = elim (unlink-cases s p n token) [
      | inr (_, same, _, _) ↦ subst (λ x. EachDir x.dirs) (sym same) each
      | inl (child, i, held, found, other, same, _) ↦
          let dirs : (unlink_inode token s p n child i).1.dirs
              ≡ HashMap.update p (BtreeMap.remove n) s.dirs =
            ground arith in
          subst (λ x. EachDir x.1.dirs) (sym same)
            (subst EachDir (sym dirs) (EachDir-drop p n s.dirs each))
    ]

    pub rmdir-EachDir : (p : InodeId) (n : Name) → EachDir (rmdir s p n).1.dirs
    unfolding remove_dir
    rmdir-EachDir p n = elim (rmdir-cases s p n) [
      | inr (_, same, _) ↦ subst (λ x. EachDir x.dirs) (sym same) each
      | inl (child, held, empty, same) ↦
          subst (λ x. EachDir x.1.dirs) (sym same)
            (EachDir-drop p n (HashMap.remove child s.dirs) (EachDir-remove child s.dirs each))
    ]

    clear_kind-dirs :
        (q : InodeId) (m : Name) (old : InodeId) (i : Inode) (c : Cleared)
        → clear_kind s q m old i ≡ done c
        → (c.state.dirs ≡ HashMap.update q (BtreeMap.remove m) s.dirs)
          ⊎ (c.state.dirs ≡ HashMap.update q (BtreeMap.remove m) (HashMap.remove old s.dirs))
    unfolding clear_kind
    clear_kind-dirs q m old i c h = elim (InodeKind-discrete i.kind dir) [
      | yes e ↦ inr (ground arith)
      | no e ↦ inl (ground arith)
    ]

    clear_dst-EachDir :
        (q : InodeId) (m : Name) (c : Cleared) → clear_dst s q m ≡ done c → EachDir c.state.dirs
    unfolding clear_dst
    clear_dst-EachDir q m c h = elim (Option-cases (find_in s.dirs q m)) [
      | inl e ↦ let same : c.state ≡ s = ground arith in subst (λ x. EachDir x.dirs) (sym same) each
      | inr (old, e) ↦ elim (Option-cases (HashMap.get old s.inodes)) [
        | inl g ↦ absurd (ground arith)
        | inr (i, g) ↦ elim (clear_kind-dirs q m old i c (ground arith)) [
          | inl same ↦ subst EachDir (sym same) (EachDir-drop q m s.dirs each)
          | inr same ↦
              subst EachDir (sym same)
                (EachDir-drop q m (HashMap.remove old s.dirs) (EachDir-remove old s.dirs each))
        ]
      ]
    ]

    move_entry-dirs :
        (token : String) (src : InodeId) (r : RenameReq) (c : Cleared)
        → let dropped = HashMap.update r.src_parent_ino (BtreeMap.remove r.src_name) c.state.dirs in
          ((move_entry token src r c).1.dirs ≡ dropped)
          ⊎ ((move_entry token src r c).1.dirs
              ≡ HashMap.update r.dst_parent_ino (BtreeMap.insert r.dst_name src) dropped)
    unfolding move_entry adjust_links
    move_entry-dirs token src r c =
        elim (Option-cases (
          HashMap.get r.dst_parent_ino
            (HashMap.update r.src_parent_ino (BtreeMap.remove r.src_name) c.state.dirs))) [
              | inl e ↦ inl (ground arith)
              | inr (d, e) ↦ inr (ground arith)
            ]

    rename-moved :
        (token : String) (r : RenameReq) (src : InodeId) (c : Cleared)
        → Good r.dst_name
        → EachDir c.state.dirs
        → EachDir (move_entry token src r c).1.dirs
    rename-moved token r src c good e =
        let dropped = EachDir-drop r.src_parent_ino r.src_name c.state.dirs e in
        elim (move_entry-dirs token src r c) [
          | inl same ↦ subst EachDir (sym same) dropped
          | inr same ↦
              subst EachDir (sym same) (EachDir-put r.dst_parent_ino r.dst_name src _ good dropped)
        ]

    pub rename-EachDir :
        (token : String) (r : RenameReq) → Good r.dst_name → EachDir (rename token s r).1.dirs
    unfolding rename
    rename-EachDir token r good = elim (Option-cases (find_in s.dirs r.src_parent_ino r.src_name)) [
      | inl e ↦ rw (e, rename) each
      | inr (src, e) ↦ elim (Result-cases (clear_dst s r.dst_parent_ino r.dst_name)) [
        | inr (x, h) ↦ rw (e, rename, h) each
        | inl (c, h) ↦
            rw (e, rename, h)
              (rename-moved token r src c good (clear_dst-EachDir r.dst_parent_ino r.dst_name c h))
      ]
    ]
