-- ===== src/Client/Names.antt =====
-- `unlink`, `rmdir` and `rename` of crates/dtmpfs-client/src/fs.rs: what the kernel is answered, as
-- the answer of the metadata server has it.
use dtmpfs.Prelude.{
  ◌≢◌, ◌≡◌, String, true, false, none, some, arith, nat_eq, list_eq, is_empty, Option-cases,
  Bool-cases, inl, inr,
}
use dtmpfs.Prelude.Ord.{nat_ord, list_ord}
use dtmpfs.Prelude.HashMap
use dtmpfs.Common.Id.{InodeId, dir, InodeKind-discrete}
use dtmpfs.Common.Error.{done, enoent, einval, eio, errno, from_status, from_code}
use dtmpfs.Meta.State.{Name, Inode, MetaState}
use dtmpfs.Meta.Namespace.{find_in, entry, unlink, unlink_inode, rmdir}
use dtmpfs.Client.Kernel.{Answer, answered, refused, status_errno, reply_empty}
use dtmpfs.Meta.View.{kind_at, kind_in, has_dir, empty_tree, full_tree}

-- The answers of `rmdir` by what the entry leads to.
pub data RmdirReply (s : MetaState) (p : InodeId) (n : Name) : Answer (Unit {0}) → Type 0 where
  missing_entry : entry s p n ≡ none → RmdirReply s p n (refused enoent)
  no_directory :
      (c : InodeId)
      → entry s p n ≡ some c
      → has_dir s.dirs c ≡ false
      → RmdirReply s p n (refused einval)
  full_directory :
      (c : InodeId) (m : Name) (e : InodeId)
      → entry s p n ≡ some c
      → entry s c m ≡ some e
      → RmdirReply s p n (refused eio)
  removed_directory :
      (c : InodeId)
      → entry s p n ≡ some c
      → has_dir s.dirs c ≡ true
      → ((m : Name) → entry s c m ≡ none)
      → RmdirReply s p n (answered tt)

-- rmdir answers ENOENT where there is no entry, EINVAL where the entry leads to no directory, EIO
-- where the directory has an entry, and success where it has none.
pub rmdir-RmdirReply :
    (s : MetaState) (p : InodeId) (n : Name) → RmdirReply s p n (reply_empty (rmdir s p n).0)
unfolding rmdir find_in reply_empty status_errno from_status from_code errno
rmdir-RmdirReply s p n = elim (Option-cases (find_in s.dirs p n)) [
  | inl e ↦ rw (e, rmdir) (missing_entry e)
  | inr (c, e) ↦ elim (Option-cases (HashMap.get c s.dirs)) [
    | inl g ↦ rw (e, g, rmdir) (no_directory c e (ground arith))
    | inr (d, g) ↦ elim (Bool-cases (is_empty d)) [
      | inl z ↦
          rw (e, g, z, rmdir)
            (removed_directory c e (ground arith) (λ m. ground (arith, empty_tree d m z)))
      | inr z ↦
          let (m, x, held) = full_tree d z in
          rw (e, g, z, rmdir) (full_directory c m x e (ground (arith, held)))
    ]
  ]
]

-- The answers of `unlink` by what the entry leads to.
pub data UnlinkReply (s : MetaState) (p : InodeId) (n : Name) : Answer (Unit {0}) → Type 0 where
  missing_name : entry s p n ≡ none → UnlinkReply s p n (refused enoent)
  missing_inode :
      (c : InodeId) → entry s p n ≡ some c → kind_at s c ≡ none → UnlinkReply s p n (refused enoent)
  a_directory :
      (c : InodeId)
      → entry s p n ≡ some c
      → kind_at s c ≡ some dir
      → UnlinkReply s p n (refused einval)
  removed_file :
      (c : InodeId) (i : Inode)
      → entry s p n ≡ some c
      → HashMap.get c s.inodes ≡ some i
      → i.kind ≢ dir
      → UnlinkReply s p n (answered tt)

unlink_inode-reply :
    (token : String) (s : MetaState) (p : InodeId) (n : Name) (c : InodeId) (i : Inode)
    → entry s p n ≡ some c
    → HashMap.get c s.inodes ≡ some i
    → UnlinkReply s p n (reply_empty (unlink_inode token s p n c i).0)
unfolding unlink_inode kind_in reply_empty status_errno from_status from_code errno
unlink_inode-reply token s p n c i e g = elim (InodeKind-discrete i.kind dir) [
  | yes d ↦ rw (d, unlink_inode) (a_directory c e (ground arith))
  | no f ↦
      let answer : (unlink_inode token s p n c i).0 ≡ done tt = ground arith in
      rw answer (removed_file c i e g f)
]

-- unlink answers ENOENT where the entry or its inode is missing, EINVAL where it leads to a
-- directory, and success otherwise.
pub unlink-UnlinkReply :
    (token : String) (s : MetaState) (p : InodeId) (n : Name)
    → UnlinkReply s p n (reply_empty (unlink token s p n).0)
unfolding unlink find_in kind_in reply_empty status_errno from_status from_code errno
unlink-UnlinkReply token s p n = elim (Option-cases (find_in s.dirs p n)) [
  | inl e ↦ rw (e, unlink) (missing_name e)
  | inr (c, e) ↦ elim (Option-cases (HashMap.get c s.inodes)) [
    | inl g ↦ rw (e, g, unlink) (missing_inode c e (ground arith))
    | inr (i, g) ↦ rw (e, g, unlink) (unlink_inode-reply token s p n c i e g)
  ]
]
