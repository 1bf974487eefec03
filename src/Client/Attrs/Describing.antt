-- ===== src/Client/Attrs/Describing.antt =====
-- What the kernel is told of an inode: `proto_attr_to_fuse` of crates/dtmpfs-client/src/fs.rs behind
-- `build_attr` of crates/dtmpfs-meta/src/state.rs, field by field.
use dtmpfs.Prelude.{
  ℕ, ◌^◌, ◌≡◌, ◌≢◌, refl, length, bit_and, arith, nat_eq, ◌==◌, Bool-cases, inl, inr,
}
use dtmpfs.Meta.State.{Inode, build_attr}
use dtmpfs.Client.Attrs.{
  FileAttr, FileType, directory, symbolic_link, regular_file, mode_kind, proto_attr_to_fuse,
}

-- The type of file that the type bits of a mode name.
abbrev pub IsKindOf : ℕ → FileType → Type 0
IsKindOf mode directory = bit_and mode 0o170000 ≡ 0o040000
IsKindOf mode symbolic_link = bit_and mode 0o170000 ≡ 0o120000
IsKindOf mode regular_file = (bit_and mode 0o170000 ≢ 0o040000) × (bit_and mode 0o170000 ≢ 0o120000)

pub record Describes (i : Inode) (a : FileAttr) : Type 0 where
  pub ino : a.ino ≡ i.ino
  pub size : a.size ≡ i.size
  pub blocks : a.blocks ≡ length i.blocks
  pub atime : a.atime ≡ i.atime
  pub mtime : a.mtime ≡ i.mtime
  pub ctime : a.ctime ≡ i.ctime
  pub crtime : a.crtime ≡ 0
  pub kind : IsKindOf i.mode a.kind
  pub perm : a.perm ≡ bit_and i.mode 0o7777
  pub nlink : a.nlink ≡ i.nlink
  pub uid : a.uid ≡ i.uid
  pub gid : a.gid ≡ i.gid
  pub rdev : a.rdev ≡ 0
  pub blksize : a.blksize ≡ 2 ^ 20
  pub flags : a.flags ≡ 0

mode_kind-IsKindOf : (mode : ℕ) → IsKindOf mode (mode_kind mode)
unfolding mode_kind
mode_kind-IsKindOf mode = elim (Bool-cases (bit_and mode 0o170000 == 0o040000)) [
  | inl e ↦ rw e (ground (arith, e))
  | inr e ↦ elim (Bool-cases (bit_and mode 0o170000 == 0o120000)) [
    | inl f ↦ rw (e, f) (ground (arith, f))
    | inr f ↦ rw (e, f) (λ h. ground (arith, e), λ h. ground (arith, f))
  ]
]

pub attr_of-Describes : (i : Inode) → Describes i (proto_attr_to_fuse (build_attr i))
unfolding proto_attr_to_fuse build_attr
attr_of-Describes i = record {
  ino = refl;
  size = refl;
  blocks = refl;
  atime = omega arith;
  mtime = omega arith;
  ctime = omega arith;
  crtime = refl;
  kind = mode_kind-IsKindOf i.mode;
  perm = refl;
  nlink = refl;
  uid = refl;
  gid = refl;
  rdev = refl;
  blksize = refl;
  flags = refl;
}
