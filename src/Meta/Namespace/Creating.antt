-- ===== src/Meta/Namespace/Creating.antt =====
-- `create` and the `lookup`s after it.
use dtmpfs.Prelude.{
  ◌+◌, ◌<◌, ◌≡◌, ◌≢◌, sym, subst, false, some, [], arith, nat_eq, list_eq, Option-cases, inl, inr,
  ◌⊎◌,
}
use dtmpfs.Prelude.HashMap
use dtmpfs.Prelude.Ord.{list_ord, nat_ord}
use dtmpfs.Common.Id.{InodeId, file, u64_mod}
use dtmpfs.Common.Error.{done}
use dtmpfs.Meta.State.{SystemTime, Name, MetaState, Inode, build_attr}
use dtmpfs.Meta.Messages.{CreateReq, CreateResp, Reply}
use dtmpfs.Meta.Namespace.{entry, lookup, create, make_file, new_file}
use dtmpfs.Meta.View.{same_place, same_place_iff}
use dtmpfs.Meta.Tree.{IsTree, Adds}
use dtmpfs.Meta.Namespace.Changes.{make_file-Adds, create-cases, IsFree}

module _ (now : SystemTime) (s : MetaState) (r : CreateReq) where
  abbrev created : Inode
  created = new_file now s.next_ino r

  abbrev after : MetaState
  after = (make_file now s r).1

  make_file-inodes :
      (n : InodeId)
      → HashMap.get n after.inodes ≡ HashMap.get n (HashMap.insert s.next_ino created s.inodes)
  unfolding make_file
  make_file-inodes n = ground arith

  make_file-answer :
      (make_file now s r).0
      ≡ done (record { attr = some (build_attr created); fh = s.next_fh; block_map = [] })
  unfolding make_file
  make_file-answer = ground arith

  module _ (t : IsTree s) (a : Adds s after r.parent_ino r.name s.next_ino file) where
    lookup_new : lookup after r.parent_ino r.name ≡ done (some (build_attr created))
    unfolding lookup
    lookup_new = ground (
      arith,
      a.entries r.parent_ino r.name,
      same_place_iff r.parent_ino r.parent_ino r.name r.name,
      make_file-inodes s.next_ino,
      HashMap.get-insert s.next_ino s.next_ino created s.inodes,
    )

    -- An entry never leads to the number that is handed out next.
    not_new : (p : InodeId) (n : Name) (c : InodeId) → entry s p n ≡ some c → c ≢ s.next_ino
    not_new p n c h e = ground (arith, t.child p n c h, t.below c)

    lookup_old :
        (p : InodeId) (n : Name)
        → same_place r.parent_ino r.name p n ≡ false
        → lookup after p n ≡ lookup s p n
    unfolding lookup
    lookup_old p n other = elim (Option-cases (entry s p n)) [
      | inl e ↦ ground (arith, a.entries p n)
      | inr (c, e) ↦ ground (
        arith,
        a.entries p n,
        make_file-inodes c,
        HashMap.get-insert s.next_ino c created s.inodes,
        not_new p n c e,
      )
    ]

-- What an answer of `create` and the state that it leaves amount to.
abbrev pub Creates : SystemTime → MetaState → CreateReq → Reply CreateResp → Type 0
Creates now s r (answer, s') =
    (IsFree now s r
      × (answer
          ≡ done (record {
            attr = some (build_attr (new_file now s.next_ino r));
            fh = s.next_fh;
            block_map = [];
          }))
      × (lookup s' r.parent_ino r.name ≡ done (some (build_attr (new_file now s.next_ino r))))
      × ((p : InodeId) (n : Name)
          → same_place r.parent_ino r.name p n ≡ false
          → lookup s' p n ≡ lookup s p n))
    ⊎ ((¬ IsFree now s r) × (s' ≡ s) × ((a : CreateResp) → answer ≢ done a))

-- In a tree of names whose counter has not reached its end: where the name is free in a directory
-- that is there, create answers a new file and a handle, a lookup of the name finds the file, and
-- a lookup of any other place answers what it did before. Otherwise create fails and changes
-- nothing.
pub create-Creates :
    (now : SystemTime) (s : MetaState) (r : CreateReq)
    → IsTree s
    → s.next_ino + 1 < u64_mod
    → Creates now s r (create now s r)
create-Creates now s r t small = elim (create-cases now s r) [
  | inr c ↦ inr c
  | inl (free, same) ↦
      let a = make_file-Adds now s r small free.0 t in
      subst (Creates now s r) (sym same)
        (inl (free, make_file-answer now s r, lookup_new now s r t a, lookup_old now s r t a))
]
