-- ===== src/Meta/Steps/SameTree.antt =====
-- Handlers that leave the tree of names as it is: `set_attr`, `close` and `allocate_blocks`.
use dtmpfs.Prelude.{
  ℕ, ◌≡◌, refl, String, List, [], ◌∷◌, arith, nat_eq, list_eq, Option-cases, inl, inr,
}
use dtmpfs.Prelude.Ord.{nat_ord, list_ord}
use dtmpfs.Prelude.HashMap
use dtmpfs.Common.Id.{InodeId, BlockIdx}
use dtmpfs.Meta.State.{SystemTime, Inode, MetaState, place}
use dtmpfs.Meta.Messages.{SetAttrReq, CloseReq}
use dtmpfs.Meta.Attributes.{changed, set_attr}
use dtmpfs.Meta.Handles.{published, close}
use dtmpfs.Meta.Blocks.{allocate_one, allocate_all, allocate, put_block}
use dtmpfs.Meta.View.{kind_in, kind_at}
use dtmpfs.Meta.Tree.{IsTree}

-- The names, the kinds and the counter are as they were.
pub record SameTree (s s' : MetaState) : Type 0 where
  pub kinds : (n : InodeId) → kind_at s' n ≡ kind_at s n
  pub dirs : s'.dirs ≡ s.dirs
  pub counter : s'.next_ino ≡ s.next_ino

pub SameTree-IsTree : (s s' : MetaState) → IsTree s → SameTree s s' → IsTree s'
SameTree-IsTree s s' t same = record {
  below = λ n h. ground (arith, t.below n, same.kinds n, same.counter);
  dir_kind = λ n h. ground (arith, t.dir_kind n, same.kinds n, same.dirs);
  kind_dir = λ n h. ground (arith, t.kind_dir n, same.kinds n, same.dirs);
  child = λ p n c h. ground (arith, t.child p n c, same.kinds c, same.dirs);
  one_parent = λ p q n m c h h'. ground (arith, t.one_parent p q n m c, same.dirs);
  root_dir = ground (arith, t.root_dir, same.dirs);
  root_free = λ p n h. ground (arith, t.root_free p n, same.dirs);
}

pub kind_in-update :
    (ino n : InodeId) (f : Inode → Inode) (s : MetaState)
    → ((i : Inode) → (f i).kind ≡ i.kind)
    → kind_in (HashMap.update ino f s.inodes) n ≡ kind_in s.inodes n
unfolding kind_in
kind_in-update ino n f s keeps = elim (Option-cases (HashMap.get n s.inodes)) [
  | inl e ↦ ground (arith, HashMap.get-update ino n f s.inodes)
  | inr (i, e) ↦ ground (arith, HashMap.get-update ino n f s.inodes, keeps i)
]

pub SameTree-refl : (s : MetaState) → SameTree s s
SameTree-refl s = record { kinds = λ n. refl; dirs = refl; counter = refl }

changed-kind : (now : SystemTime) (r : SetAttrReq) (i : Inode) → (changed now r i).0.kind ≡ i.kind
unfolding changed
changed-kind now r i = ground arith

pub set_attr-SameTree :
    (token : String) (now : SystemTime) (s : MetaState) (r : SetAttrReq)
    → SameTree s (set_attr token now s r).1
unfolding set_attr
set_attr-SameTree token now s r = elim (Option-cases (HashMap.get r.ino s.inodes)) [
  | inl e ↦ rw (e, set_attr) (SameTree-refl s)
  | inr (i, e) ↦
      rw (e, set_attr)
        (record {
          kinds =
              λ n. kind_in-update r.ino n (λ k. (changed now r k).0) s (λ k. changed-kind now r k);
          dirs = refl;
          counter = refl;
        })
]

pub close-SameTree :
    (now : SystemTime) (s : MetaState) (r : CloseReq) → SameTree s (close now s r).1
unfolding close
close-SameTree now s r = record {
  kinds = λ n. elim (Option-cases (HashMap.get r.fh s.open_handles)) [
    | inl e ↦ ground arith
    | inr (h, e) ↦
        ground (arith, kind_in-update h.ino n (published now r) s (λ i. published-kind now r i))
  ];
  dirs = ground arith;
  counter = ground arith;
}
  where
    published-kind :
        (now : SystemTime) (r : CloseReq) (i : Inode) → (published now r i).kind ≡ i.kind
    published-kind now r i = refl

SameTree-trans : (a b c : MetaState) → SameTree a b → SameTree b c → SameTree a c
SameTree-trans a b c p q = record {
  kinds = λ n. ground (arith, p.kinds n, q.kinds n);
  dirs = ground (arith, p.dirs, q.dirs);
  counter = ground (arith, p.counter, q.counter);
}

module _ (xxh3 : String → ℕ → ℕ) where
  allocate_one-SameTree :
      (s : MetaState) (ino : InodeId) (idx : BlockIdx) → SameTree s (allocate_one xxh3 s ino idx).1
  unfolding allocate_one
  allocate_one-SameTree s ino idx = record {
    kinds = λ n.
        ground (arith, kind_in-update ino n (put_block idx (place xxh3 s ino idx)) s (λ i. refl));
    dirs = ground arith;
    counter = ground arith;
  }

  allocate_all-SameTree :
      (s : MetaState) (ino : InodeId) (idxs : List BlockIdx)
      → SameTree s (allocate_all xxh3 s ino idxs).1
  unfolding allocate_all
  allocate_all-SameTree s ino [] = SameTree-refl s
  allocate_all-SameTree s ino (idx ∷ idxs) =
      SameTree-trans s (allocate_one xxh3 s ino idx).1 _ (allocate_one-SameTree s ino idx)
        (allocate_all-SameTree (allocate_one xxh3 s ino idx).1 ino idxs)

  pub allocate-SameTree :
      (s : MetaState) (ino : InodeId) (idxs : List BlockIdx)
      → SameTree s (allocate xxh3 s ino idxs).1
  unfolding allocate
  allocate-SameTree s ino idxs = elim (Option-cases (HashMap.get ino s.inodes)) [
    | inl e ↦ rw (e, allocate) (SameTree-refl s)
    | inr (i, e) ↦ rw (e, allocate) (allocate_all-SameTree s ino idxs)
  ]
