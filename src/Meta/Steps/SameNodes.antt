-- ===== src/Meta/Steps/SameNodes.antt =====
-- Every request but a heartbeat and a turn of the watcher leaves the tables of storage nodes alone.
use dtmpfs.Prelude.{
  ℕ, ◌≡◌, refl, ◌∙◌, String, some, List, [], ◌∷◌, arith, nat_eq, list_eq, string_eq, Option-cases,
  inl, inr,
}
use dtmpfs.Prelude.Ord.{nat_ord, list_ord}
use dtmpfs.Prelude.HashMap
use dtmpfs.Prelude.HashMap.{IsMap, insert-IsMap, update-IsMap}
use dtmpfs.Common.Id.{InodeId, BlockIdx}
use dtmpfs.Common.Error.{Result, done, fail}
use dtmpfs.Meta.State.{SystemTime, Name, Inode, MetaState}
use dtmpfs.Meta.Messages.{SetAttrReq, RenameReq, CloseReq}
use dtmpfs.Meta.Namespace.{find_in}
use dtmpfs.Meta.Rename.{Cleared, clear_kind, clear_dst, move_entry, adjust_links, rename}
use dtmpfs.Meta.Attributes.{set_attr}
use dtmpfs.Meta.Handles.{close}
use dtmpfs.Meta.Blocks.{allocate_one, allocate_all, allocate}

-- The tables of one state are those of another.
pub record SameNodes (s s' : MetaState) : Type 0 where
  pub nodes : s'.nodes ≡ s.nodes
  pub beats : s'.last_heartbeat ≡ s.last_heartbeat

SameNodes-refl : (s : MetaState) → SameNodes s s
SameNodes-refl s = record { nodes = refl; beats = refl }

SameNodes-trans : (a b c : MetaState) → SameNodes a b → SameNodes b c → SameNodes a c
SameNodes-trans a b c p q = record { nodes = q.nodes ∙ p.nodes; beats = q.beats ∙ p.beats }

clear_kind-SameNodes :
    (s : MetaState) (q : InodeId) (m : Name) (old : InodeId) (i : Inode) (c : Cleared)
    → clear_kind s q m old i ≡ done c
    → SameNodes s c.state
unfolding clear_kind
clear_kind-SameNodes s q m old i c h = record { nodes = ground arith; beats = ground arith }

clear_dst-SameNodes :
    (s : MetaState) (q : InodeId) (m : Name) (c : Cleared)
    → clear_dst s q m ≡ done c
    → SameNodes s c.state
unfolding clear_dst
clear_dst-SameNodes s q m c h = elim (Option-cases (find_in s.dirs q m)) [
  | inl e ↦ record { nodes = ground arith; beats = ground arith }
  | inr (old, e) ↦ elim (Option-cases (HashMap.get old s.inodes)) [
    | inl g ↦ absurd (ground arith)
    | inr (i, g) ↦ clear_kind-SameNodes s q m old i c (ground arith)
  ]
]

move_entry-SameNodes :
    (token : String) (src : InodeId) (r : RenameReq) (c : Cleared)
    → SameNodes c.state (move_entry token src r c).1
unfolding move_entry adjust_links
move_entry-SameNodes token src r c = record { nodes = ground arith; beats = ground arith }

pub rename-SameNodes :
    (token : String) (s : MetaState) (r : RenameReq) → SameNodes s (rename token s r).1
unfolding rename
rename-SameNodes token s r = elim (Option-cases (find_in s.dirs r.src_parent_ino r.src_name)) [
  | inl e ↦ rw (e, rename) (SameNodes-refl s)
  | inr (src, e) ↦ after src e (clear_dst s r.dst_parent_ino r.dst_name) refl
]
  where
    after :
        (src : InodeId)
        → find_in s.dirs r.src_parent_ino r.src_name ≡ some src
        → (c : Result Cleared) → clear_dst s r.dst_parent_ino r.dst_name ≡ c
        → SameNodes s (rename token s r).1
    after src e (fail x) h = rw (e, rename, h) (SameNodes-refl s)
    after src e (done c) h =
        rw (e, rename, h)
          (SameNodes-trans s c.state _ (clear_dst-SameNodes s r.dst_parent_ino r.dst_name c h)
            (move_entry-SameNodes token src r c))

pub set_attr-SameNodes :
    (token : String) (now : SystemTime) (s : MetaState) (r : SetAttrReq)
    → SameNodes s (set_attr token now s r).1
unfolding set_attr
set_attr-SameNodes token now s r = record { nodes = ground arith; beats = ground arith }

pub close-SameNodes :
    (now : SystemTime) (s : MetaState) (r : CloseReq) → SameNodes s (close now s r).1
unfolding close
close-SameNodes now s r = record { nodes = ground arith; beats = ground arith }

module _ (xxh3 : String → ℕ → ℕ) where
  allocate_one-SameNodes :
      (s : MetaState) (ino : InodeId) (idx : BlockIdx) → SameNodes s (allocate_one xxh3 s ino idx).1
  unfolding allocate_one
  allocate_one-SameNodes s ino idx = record { nodes = ground arith; beats = ground arith }

  allocate_all-SameNodes :
      (s : MetaState) (ino : InodeId) (idxs : List BlockIdx)
      → SameNodes s (allocate_all xxh3 s ino idxs).1
  unfolding allocate_all
  allocate_all-SameNodes s ino [] = SameNodes-refl s
  allocate_all-SameNodes s ino (idx ∷ idxs) =
      SameNodes-trans s (allocate_one xxh3 s ino idx).1 _ (allocate_one-SameNodes s ino idx)
        (allocate_all-SameNodes (allocate_one xxh3 s ino idx).1 ino idxs)

  pub allocate-SameNodes :
      (s : MetaState) (ino : InodeId) (idxs : List BlockIdx)
      → SameNodes s (allocate xxh3 s ino idxs).1
  unfolding allocate
  allocate-SameNodes s ino idxs = elim (Option-cases (HashMap.get ino s.inodes)) [
    | inl e ↦ rw (e, allocate) (SameNodes-refl s)
    | inr (i, e) ↦ rw (e, allocate) (allocate_all-SameNodes s ino idxs)
  ]
