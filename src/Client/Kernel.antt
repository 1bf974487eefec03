-- ===== src/Client/Kernel.antt =====
-- The handlers of crates/dtmpfs-client/src/fs.rs that answer the kernel about names and attributes.
-- A name is the text that `to_string_lossy` makes of the kernel's.
pub mod Opening
pub mod Filling
pub mod Space
pub mod Changing
pub mod Syncing
use dtmpfs.Prelude.{ℕ, Option, none, some, nat_eq}
use dtmpfs.Common.Id.{InodeId}
use dtmpfs.Common.Error.{
  Status, Result, done, fail, Errno, enoent, eperm, enosys, errno, from_status,
}
use dtmpfs.Meta.State.{Attr, Name}
use dtmpfs.Meta.Messages.{CreateReq, RenameReq}
use dtmpfs.Client.{Env, Fs, with_world}
use dtmpfs.Client.Attrs.{FileAttr, CachedAttr, proto_attr_to_fuse}

-- What a reply object of fuser is given.
pub data Answer (A : Type 0) : Type 0 where
  answered : A → Answer A
  refused : Errno → Answer A

-- `libc::c_int::from(DtmpfsError::from_status(s, None))`
unfoldable pub status_errno : Status → Errno
unfolding errno from_status
status_errno s = errno (from_status s none)

-- What `reply.entry` is given: how long the kernel may keep it, the attributes, and a generation.
pub record Entry : Type 0 where
  pub ttl : ℕ
  pub attr : FileAttr
  pub generation : ℕ

abbrev pub entry_of : FileAttr → Entry
entry_of fa = record { ttl = 0; attr = fa; generation = 0 }

-- What `reply.attr` is given.
pub record AttrReply : Type 0 where
  pub ttl : ℕ
  pub attr : FileAttr

abbrev pub attr_reply : FileAttr → AttrReply
attr_reply fa = record { ttl = 0; attr = fa }

-- Linking and the extended attributes are refused.
unfoldable pub link : InodeId → InodeId → Name → Answer Entry
link ino newparent newname = refused eperm

unfoldable pub xattr : Answer (Unit {0})
xattr = refused enosys

-- `reply.ok()`, or the errno of the status
unfoldable pub reply_empty : Result (Unit {0}) → Answer (Unit {0})
unfolding status_errno
reply_empty (done _) = answered tt
reply_empty (fail e) = refused (status_errno e)

module _ {W : Type 0} (env : Env W) where
  unfoldable pub remember : InodeId → FileAttr → Fs W → Fs W
  remember ino fa s =
      let cached : CachedAttr = record { attr = fa; fetched = env.instant s.world } in
      with_world s (env.attr_insert ino cached s.world)

  unfoldable pub lookup : InodeId → Name → Fs W → Answer Entry × Fs W
  unfolding status_errno remember proto_attr_to_fuse
  lookup parent name s =
      let (answer, w) = env.lookup parent name s.world in
      elim answer [
        | fail e ↦ (refused (status_errno e), with_world s w)
        | done attr ↦ elim attr [
          | none ↦ (refused enoent, with_world s w)
          | some a ↦
              let fa = proto_attr_to_fuse a in
              (answered (entry_of fa), remember fa.ino fa (with_world s w))
        ]
      ]

  unfoldable pub getattr_fresh : InodeId → Fs W → Answer AttrReply × Fs W
  unfolding status_errno remember proto_attr_to_fuse
  getattr_fresh ino s =
      let (answer, w) = env.get_attr ino s.world in
      elim answer [
        | fail e ↦ (refused (status_errno e), with_world s w)
        | done a ↦
            let fa = proto_attr_to_fuse a in
            (answered (attr_reply fa), remember ino fa (with_world s w))
      ]

  -- The cache answers where it can.
  unfoldable pub getattr : InodeId → Fs W → Answer AttrReply × Fs W
  unfolding getattr_fresh
  getattr ino s =
      let (hit, w) = env.attr_get ino s.world in
      elim hit [
        | some cached ↦ (answered (attr_reply cached.attr), with_world s w)
        | none ↦ getattr_fresh ino (with_world s w)
      ]

  unfoldable pub mkdir : InodeId → Name → ℕ → ℕ → ℕ → Fs W → Answer Entry × Fs W
  unfolding status_errno remember proto_attr_to_fuse
  mkdir parent name mode uid gid s =
      let r : CreateReq = record {
        parent_ino = parent;
        name = name;
        mode = mode;
        uid = uid;
        gid = gid;
      } in
      let (answer, w) = env.mkdir r s.world in
      elim answer [
        | fail e ↦ (refused (status_errno e), with_world s w)
        | done a ↦
            let fa = proto_attr_to_fuse a in
            (answered (entry_of fa), remember fa.ino fa (with_world s w))
      ]

  unfoldable pub unlink : InodeId → Name → Fs W → Answer (Unit {0}) × Fs W
  unfolding reply_empty
  unlink parent name s =
      let (answer, w) = env.unlink parent name s.world in (reply_empty answer, with_world s w)

  unfoldable pub rmdir : InodeId → Name → Fs W → Answer (Unit {0}) × Fs W
  unfolding reply_empty
  rmdir parent name s =
      let (answer, w) = env.rmdir parent name s.world in (reply_empty answer, with_world s w)

  unfoldable pub rename : InodeId → Name → InodeId → Name → Fs W → Answer (Unit {0}) × Fs W
  unfolding reply_empty
  rename parent name newparent newname s =
      let r : RenameReq = record {
        src_parent_ino = parent;
        src_name = name;
        dst_parent_ino = newparent;
        dst_name = newname;
      } in
      let (answer, w) = env.rename r s.world in (reply_empty answer, with_world s w)
