-- ===== src/Meta/View.antt =====
-- The tree of names as clients see it: the entries, the kinds of the inodes, and which numbers are
-- directories; and what the updates of the handlers do to each.
use dtmpfs.Prelude.{
  ◌≡◌, ◌↔◌, refl, Bool, true, false, ◌&&◌, Option, none, some, [], ◌∷◌, Dict, Tree, arith,
  if◌then◌else◌, nat_eq, list_eq, ◌==◌, list_beq_iff, is_empty, Option-cases, inl, inr,
}
use dtmpfs.Prelude.Ord.{nat_ord, list_ord}
use dtmpfs.Prelude.HashMap
use dtmpfs.Prelude.HashMap.{map_option}
use dtmpfs.Prelude.BtreeMap
use dtmpfs.Prelude.BtreeMap.{is_eq}
use dtmpfs.Common.Id.{InodeId, InodeKind}
use dtmpfs.Meta.State.{Name, Inode, MetaState}
use dtmpfs.Meta.Namespace.{find_in, link_up, link_down}

abbrev pub Dirs : Type 0
Dirs = Dict InodeId (Tree Name InodeId)

unfoldable pub kind_in : Dict InodeId Inode → InodeId → Option InodeKind
kind_in inodes n = elim (HashMap.get n inodes) [ none ↦ none | some i ↦ some i.kind ]

abbrev pub kind_at : MetaState → InodeId → Option InodeKind
kind_at s = kind_in s.inodes

abbrev pub has_dir : Dirs → InodeId → Bool
has_dir dirs n = HashMap.contains_key n dirs

-- Whether two places in the tree are one.
abbrev pub same_place : InodeId → Name → InodeId → Name → Bool
same_place p n q m = p == q && n == m

pub same_place_iff :
    (p q : InodeId) (n m : Name) → (same_place p n q m ≡ true) ↔ ((p ≡ q) × (n ≡ m))
same_place_iff p q n m = ground (arith, list_beq_iff n m)

pub find_in-put :
    (parent : InodeId) (name : Name) (child : InodeId) (dirs : Dirs) (p : InodeId) (n : Name)
    → find_in (HashMap.update parent (BtreeMap.insert name child) dirs) p n
      ≡ (if same_place parent name p n && has_dir dirs parent then some child else find_in dirs p n)
unfolding find_in
find_in-put parent name child dirs p n = elim (Option-cases (HashMap.get p dirs)) [
  | inl e ↦
      ground
        (arith, HashMap.get-update parent p (BtreeMap.insert name child) dirs, list_beq_iff name n)
  | inr (d, e) ↦ ground (
    arith,
    HashMap.get-update parent p (BtreeMap.insert name child) dirs,
    list_beq_iff name n,
    BtreeMap.get-insert name n child d,
    BtreeMap.is_eq_iff n name,
  )
]

pub find_in-drop :
    (parent : InodeId) (name : Name) (dirs : Dirs) (p : InodeId) (n : Name)
    → find_in (HashMap.update parent (BtreeMap.remove name) dirs) p n
      ≡ (if same_place parent name p n then none else find_in dirs p n)
unfolding find_in
find_in-drop parent name dirs p n = elim (Option-cases (HashMap.get p dirs)) [
  | inl e ↦
      ground (arith, HashMap.get-update parent p (BtreeMap.remove name) dirs, list_beq_iff name n)
  | inr (d, e) ↦ ground (
    arith,
    HashMap.get-update parent p (BtreeMap.remove name) dirs,
    list_beq_iff name n,
    BtreeMap.get-remove name n d,
    BtreeMap.is_eq_iff n name,
  )
]

pub find_in-new_dir :
    (ino : InodeId) (dirs : Dirs) (p : InodeId) (n : Name)
    → find_in (HashMap.insert ino [] dirs) p n ≡ (if ino == p then none else find_in dirs p n)
unfolding find_in BtreeMap.get
find_in-new_dir ino dirs p n = ground (arith, HashMap.get-insert ino p [] dirs)

pub find_in-remove :
    (ino : InodeId) (dirs : Dirs) (p : InodeId) (n : Name)
    → find_in (HashMap.remove ino dirs) p n ≡ (if ino == p then none else find_in dirs p n)
unfolding find_in
find_in-remove ino dirs p n = ground (arith, HashMap.get-remove ino p dirs)

-- An entry stands in a directory.
pub find_in-has_dir :
    (dirs : Dirs) (p : InodeId) (n : Name) (c : InodeId)
    → find_in dirs p n ≡ some c
    → has_dir dirs p ≡ true
unfolding find_in
find_in-has_dir dirs p n c h = ground arith

pub empty_tree : (d : Tree Name InodeId) (n : Name) → is_empty d ≡ true → BtreeMap.get n d ≡ none
unfolding BtreeMap.get
empty_tree [] n h = refl
empty_tree (x ∷ d) n h = ground arith

pub full_tree :
    (d : Tree Name InodeId)
    → is_empty d ≡ false
    → (n : Name) × (c : InodeId) × (BtreeMap.get n d ≡ some c)
unfolding BtreeMap.get
full_tree [] h = ground arith
full_tree ((n, c) ∷ d) h = (n, c, ground (arith, BtreeMap.is_eq_iff n n))

pub has_dir-update :
    (parent p : InodeId) (f : Tree Name InodeId → Tree Name InodeId) (dirs : Dirs)
    → has_dir (HashMap.update parent f dirs) p ≡ has_dir dirs p
has_dir-update parent p f dirs = ground (arith, HashMap.get-update parent p f dirs)

pub has_dir-insert :
    (ino p : InodeId) (d : Tree Name InodeId) (dirs : Dirs)
    → has_dir (HashMap.insert ino d dirs) p ≡ (if ino == p then true else has_dir dirs p)
has_dir-insert ino p d dirs = ground (arith, HashMap.get-insert ino p d dirs)

pub has_dir-remove :
    (ino p : InodeId) (dirs : Dirs)
    → has_dir (HashMap.remove ino dirs) p ≡ (if ino == p then false else has_dir dirs p)
has_dir-remove ino p dirs = ground (arith, HashMap.get-remove ino p dirs)

module _ (inodes : Dict InodeId Inode) (n : InodeId) where
  pub kind_in-insert :
      (ino : InodeId) (i : Inode)
      → kind_in (HashMap.insert ino i inodes) n
        ≡ (if ino == n then some i.kind else kind_in inodes n)
  unfolding kind_in
  kind_in-insert ino i = ground (arith, HashMap.get-insert ino n i inodes)

  pub kind_in-remove :
      (ino : InodeId)
      → kind_in (HashMap.remove ino inodes) n ≡ (if ino == n then none else kind_in inodes n)
  unfolding kind_in
  kind_in-remove ino = ground (arith, HashMap.get-remove ino n inodes)

  pub kind_in-link_up :
      (ino : InodeId) → kind_in (HashMap.update ino link_up inodes) n ≡ kind_in inodes n
  unfolding kind_in
  kind_in-link_up ino = ground (arith, HashMap.get-update ino n link_up inodes)

  pub kind_in-link_down :
      (ino : InodeId) → kind_in (HashMap.update ino link_down inodes) n ≡ kind_in inodes n
  unfolding kind_in
  kind_in-link_down ino = ground (arith, HashMap.get-update ino n link_down inodes)

pub ruleset view_laws = (
  find_in-put, find_in-drop, find_in-new_dir, find_in-remove, has_dir-update, has_dir-insert,
  has_dir-remove, kind_in-insert, kind_in-remove, kind_in-link_up, kind_in-link_down,
)
