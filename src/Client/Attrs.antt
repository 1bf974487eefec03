-- ===== src/Client/Attrs.antt =====
-- `proto_attr_to_fuse` and `proto_kind_to_fuse` of crates/dtmpfs-client/src/fs.rs, with the types of
-- fuser that they answer, and `CachedAttr` of crates/dtmpfs-client/src/cache.rs.
pub mod Kinds
pub mod Describing
use dtmpfs.Prelude.{ℕ, ◌+◌, ◌-◌, ◌*◌, ◌^◌, ℤ, pos, negsuc, bit_and, ◌==◌, if◌then◌else◌, nat_eq}
use dtmpfs.Common.Id.{u64_mod}
use dtmpfs.Meta.State.{Attr, SystemTime, Instant}

-- The types of file that the client tells apart.
pub data FileType : Type 0 where
  directory symbolic_link regular_file : FileType

pub record FileAttr : Type 0 where
  pub ino : ℕ
  pub size : ℕ
  pub blocks : ℕ
  pub atime : SystemTime
  pub mtime : SystemTime
  pub ctime : SystemTime
  pub crtime : SystemTime
  pub kind : FileType
  pub perm : ℕ
  pub nlink : ℕ
  pub uid : ℕ
  pub gid : ℕ
  pub rdev : ℕ
  pub blksize : ℕ
  pub flags : ℕ

pub record CachedAttr : Type 0 where
  pub attr : FileAttr
  pub fetched : Instant

-- `as u64` of an i64
abbrev pub as_u64 : ℤ → ℕ
as_u64 (pos n) = n
as_u64 (negsuc n) = u64_mod - (n + 1)

-- `SystemTime::UNIX_EPOCH + Duration::new(..)`; a time past the range of a `SystemTime`, where the
-- addition panics, is a number here.
abbrev pub fuse_time : ℤ → ℕ → SystemTime
fuse_time secs ns = as_u64 secs * 10 ^ 9 + ns

unfoldable pub mode_kind : ℕ → FileType
mode_kind mode =
    if bit_and mode 0o170000 == 0o040000
    then directory
    else if bit_and mode 0o170000 == 0o120000
    then symbolic_link
    else regular_file

-- A mode is a u32, so the bits of `perm` fit into its u16.
unfoldable pub proto_attr_to_fuse : Attr → FileAttr
unfolding mode_kind
proto_attr_to_fuse a = record {
  ino = a.ino;
  size = a.size;
  blocks = a.blocks;
  atime = fuse_time a.atime_s a.atime_ns;
  mtime = fuse_time a.mtime_s a.mtime_ns;
  ctime = fuse_time a.ctime_s a.ctime_ns;
  crtime = 0;
  kind = mode_kind a.mode;
  perm = bit_and a.mode 0o7777;
  nlink = a.nlink;
  uid = a.uid;
  gid = a.gid;
  rdev = 0;
  blksize = 2 ^ 20;
  flags = 0;
}

unfoldable pub proto_kind_to_fuse : ℕ → FileType
proto_kind_to_fuse kind =
    if kind == 2 then directory else if kind == 3 then symbolic_link else regular_file
