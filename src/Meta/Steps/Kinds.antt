-- ===== src/Meta/Steps/Kinds.antt =====
-- The type bits in the mode of every inode are those of its kind, as long as a `set_attr` that sets
-- the mode carries them, which the kernel's does.
use dtmpfs.Prelude.{
  ℕ, ◌≡◌, String, some, Dict, arith, nat_eq, list_eq, bit_and, Option-cases, inl, inr,
}
use dtmpfs.Prelude.Bits.{type_of-typed}
use dtmpfs.Prelude.Ord.{nat_ord, list_ord}
use dtmpfs.Prelude.HashMap
use dtmpfs.Common.Id.{InodeId, InodeKind, file, dir, symlink}
use dtmpfs.Meta.State.{SystemTime, Name, Inode, MetaState, alloc_ino, alloc_fh}
use dtmpfs.Meta.Messages.{SetAttrReq, CreateReq, CloseReq}
use dtmpfs.Meta.Namespace.{
  find_in, create, mkdir, unlink, rmdir, make_file, make_dir, unlink_inode, remove_dir, new_file,
  new_dir, link_up, link_down,
}
use dtmpfs.Meta.Attributes.{changed, set_attr, set_fields, set_size}
use dtmpfs.Meta.Handles.{published, close, close_inode}

abbrev pub type_bits : InodeKind → ℕ
type_bits file = 0o100000
type_bits dir = 0o040000
type_bits symlink = 0o120000

abbrev pub IsTyped : Inode → Type 0
IsTyped i = bit_and i.mode 0o170000 ≡ type_bits i.kind

abbrev pub AreTyped : Dict InodeId Inode → Type 0
AreTyped d = (n : InodeId) (i : Inode) → HashMap.get n d ≡ some i → IsTyped i

pub insert-AreTyped :
    (k : InodeId) (v : Inode) (d : Dict InodeId Inode)
    → IsTyped v
    → AreTyped d
    → AreTyped (HashMap.insert k v d)
insert-AreTyped k v d t a n i e = ground (arith, HashMap.get-insert k n v d, a n i)

pub remove-AreTyped :
    (k : InodeId) (d : Dict InodeId Inode) → AreTyped d → AreTyped (HashMap.remove k d)
remove-AreTyped k d a n i e = ground (arith, HashMap.get-remove k n d, a n i)

-- A change of one inode that keeps it typed.
pub update-AreTyped :
    (k : InodeId) (f : Inode → Inode) (d : Dict InodeId Inode)
    → ((i : Inode) → HashMap.get k d ≡ some i → IsTyped i → IsTyped (f i))
    → AreTyped d
    → AreTyped (HashMap.update k f d)
update-AreTyped k f d keeps a n i e = elim (Option-cases (HashMap.get n d)) [
  | inl g ↦ absurd (ground (arith, HashMap.get-update k n f d))
  | inr (j, g) ↦ ground (arith, HashMap.get-update k n f d, keeps j, a n j)
]

pub new_file-IsTyped : (now : SystemTime) (n : InodeId) (r : CreateReq) → IsTyped (new_file now n r)
new_file-IsTyped now n r = type_of-typed 12 8 r.mode 15

pub new_dir-IsTyped : (now : SystemTime) (n : InodeId) (r : CreateReq) → IsTyped (new_dir now n r)
new_dir-IsTyped now n r = type_of-typed 12 4 r.mode 15

pub create-AreTyped :
    (now : SystemTime) (s : MetaState) (r : CreateReq)
    → AreTyped s.inodes
    → AreTyped (create now s r).1.inodes
unfolding create make_file alloc_ino alloc_fh
create-AreTyped now s r a n i e = ground (
  arith,
  insert-AreTyped s.next_ino (new_file now s.next_ino r) s.inodes
      (new_file-IsTyped now s.next_ino r) a n i,
  a n i,
)

pub mkdir-AreTyped :
    (now : SystemTime) (s : MetaState) (r : CreateReq)
    → AreTyped s.inodes
    → AreTyped (mkdir now s r).1.inodes
unfolding mkdir make_dir alloc_ino
mkdir-AreTyped now s r a n i e =
    let d = HashMap.insert s.next_ino (new_dir now s.next_ino r) s.inodes in
    ground (
      arith,
      a n i,
      update-AreTyped r.parent_ino link_up d (λ j f t. t)
          (insert-AreTyped s.next_ino (new_dir now s.next_ino r) s.inodes
            (new_dir-IsTyped now s.next_ino r) a)
          n i,
    )

pub unlink-AreTyped :
    (token : String) (s : MetaState) (p : InodeId) (m : Name)
    → AreTyped s.inodes
    → AreTyped (unlink token s p m).1.inodes
unfolding unlink unlink_inode
unlink-AreTyped token s p m a n i e = elim (Option-cases (find_in s.dirs p m)) [
  | inl f ↦ ground (arith, a n i)
  | inr (c, f) ↦ ground (arith, a n i, remove-AreTyped c s.inodes a n i)
]

pub rmdir-AreTyped :
    (s : MetaState) (p : InodeId) (m : Name) → AreTyped s.inodes → AreTyped (rmdir s p m).1.inodes
unfolding rmdir remove_dir
rmdir-AreTyped s p m a n i e = elim (Option-cases (find_in s.dirs p m)) [
  | inl f ↦ ground (arith, a n i)
  | inr (c, f) ↦ ground (
    arith,
    a n i,
    update-AreTyped p link_down (HashMap.remove c s.inodes) (λ j g t. t)
        (remove-AreTyped c s.inodes a) n i,
  )
]

pub close-AreTyped :
    (now : SystemTime) (s : MetaState) (r : CloseReq)
    → AreTyped s.inodes
    → AreTyped (close now s r).1.inodes
unfolding close close_inode published
close-AreTyped now s r a n i e = elim (Option-cases (HashMap.get r.fh s.open_handles)) [
  | inl f ↦ ground (arith, a n i)
  | inr (h, f) ↦
      ground (arith, a n i, update-AreTyped h.ino (published now r) s.inodes (λ j g t. t) a n i)
]

-- A mode that a request sets has the type bits of the inode that it is set for.
abbrev pub KeepsType : MetaState → SetAttrReq → Type 0
KeepsType s r =
    (m : ℕ) (i : Inode)
    → r.mode ≡ some m
    → HashMap.get r.ino s.inodes ≡ some i
    → bit_and m 0o170000 ≡ type_bits i.kind

pub changed-IsTyped :
    (now : SystemTime) (r : SetAttrReq) (i : Inode)
    → ((m : ℕ) → r.mode ≡ some m → bit_and m 0o170000 ≡ type_bits i.kind)
    → IsTyped i
    → IsTyped (changed now r i).0
unfolding changed set_fields set_size
changed-IsTyped now r i keeps t = elim (Option-cases r.mode) [
  | inl e ↦ ground arith
  | inr (m, e) ↦ ground (arith, keeps m e)
]

pub set_attr-AreTyped :
    (token : String) (now : SystemTime) (s : MetaState) (r : SetAttrReq)
    → KeepsType s r
    → AreTyped s.inodes
    → AreTyped (set_attr token now s r).1.inodes
unfolding set_attr
set_attr-AreTyped token now s r k a n i e = ground (
  arith,
  a n i,
  update-AreTyped r.ino (λ j. (changed now r j).0) s.inodes
      (λ j g t. changed-IsTyped now r j (λ m f. k m j f g) t) a n i,
)
