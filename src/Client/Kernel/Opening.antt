-- ===== src/Client/Kernel/Opening.antt =====
-- `create` and `open` of crates/dtmpfs-client/src/fs.rs.
use dtmpfs.Prelude.{ℕ, none, some}
use dtmpfs.Common.Id.{InodeId}
use dtmpfs.Common.Error.{done, fail, eio}
use dtmpfs.Meta.State.{Name}
use dtmpfs.Meta.Messages.{CreateReq}
use dtmpfs.Client.{Env, Fs, with_world, install}
use dtmpfs.Client.Attrs.{FileAttr, proto_attr_to_fuse}
use dtmpfs.Client.Kernel.{Answer, answered, refused, status_errno, remember}

-- What `reply.created` is given.
pub record Created : Type 0 where
  pub ttl : ℕ
  pub attr : FileAttr
  pub generation : ℕ
  pub fh : ℕ
  pub flags : ℕ

abbrev pub created : FileAttr → ℕ → Created
created fa fh = record { ttl = 0; attr = fa; generation = 0; fh = fh; flags = 0 }

-- What `reply.opened` is given.
pub record OpenReply : Type 0 where
  pub fh : ℕ
  pub flags : ℕ

module _ {W : Type 0} (env : Env W) where
  unfoldable pub create : InodeId → Name → ℕ → ℕ → ℕ → ℕ → Fs W → Answer Created × Fs W
  unfolding status_errno remember proto_attr_to_fuse install
  create parent name mode uid gid flags s =
      let r : CreateReq = record {
        parent_ino = parent;
        name = name;
        mode = mode;
        uid = uid;
        gid = gid;
      } in
      let (answer, w) = env.create r s.world in
      elim answer [
        | fail e ↦ (refused (status_errno e), with_world s w)
        | done resp ↦ elim resp.attr [
          | none ↦ (refused eio, with_world s w)
          | some a ↦
              let fa = proto_attr_to_fuse a in
              let s1 = install env a.ino resp.fh flags a resp.block_map (with_world s w) in
              (answered (created fa resp.fh), remember env fa.ino fa s1)
        ]
      ]

  -- `flags` is the bit pattern of an i32, which `as u32` keeps.
  unfoldable pub open_file : InodeId → ℕ → Fs W → Answer OpenReply × Fs W
  unfolding status_errno install
  open_file ino flags s =
      let (answer, w) = env.open_inode (record { ino = ino; flags = flags }) s.world in
      elim answer [
        | fail e ↦ (refused (status_errno e), with_world s w)
        | done resp ↦ elim resp.attr [
          | none ↦ (refused eio, with_world s w)
          | some a ↦ (
            answered (record { fh = resp.fh; flags = 0 }),
            install env ino resp.fh flags a resp.block_map (with_world s w),
          )
        ]
      ]
