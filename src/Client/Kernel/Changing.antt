-- ===== src/Client/Kernel/Changing.antt =====
-- `setattr` of crates/dtmpfs-client/src/fs.rs.
pub mod Setting
use dtmpfs.Prelude.{ℕ, ◌/◌, ◌%◌, ◌^◌, ℤ, pos, pos_part, Option, none, some}
use dtmpfs.Common.Id.{InodeId}
use dtmpfs.Common.Error.{done, fail, eio}
use dtmpfs.Meta.Messages.{SetAttrReq}
use dtmpfs.Client.{Env, Fs, with_world}
use dtmpfs.Client.Attrs.{proto_attr_to_fuse}
use dtmpfs.Client.Kernel.{Answer, answered, refused, status_errno, remember, AttrReply, attr_reply}

-- `fuser::TimeOrNow`; a time is a number of nanoseconds since the epoch, and negative before it.
pub data TimeOrNow : Type 0 where
  specific_time : ℤ → TimeOrNow
  now : TimeOrNow

-- `t.duration_since(UNIX_EPOCH).unwrap_or_default()`, whose seconds an i64 holds
unfoldable pub time_parts : Option TimeOrNow → Option ℤ × Option ℕ
time_parts none = (none, none)
time_parts (some now) = (none, none)
time_parts (some (specific_time t)) = (some (pos (pos_part t / 10 ^ 9)), some (pos_part t % 10 ^ 9))

-- What the kernel asks for.
pub record Changes : Type 0 where
  pub mode : Option ℕ
  pub uid : Option ℕ
  pub gid : Option ℕ
  pub size : Option ℕ
  pub atime : Option TimeOrNow
  pub mtime : Option TimeOrNow

unfoldable pub set_attr_req : InodeId → Changes → SetAttrReq
unfolding time_parts
set_attr_req ino c =
    let (atime_s, atime_ns) = time_parts c.atime in
    let (mtime_s, mtime_ns) = time_parts c.mtime in
    record {
      ino = ino;
      size = c.size;
      mode = c.mode;
      uid = c.uid;
      gid = c.gid;
      atime_s = atime_s;
      atime_ns = atime_ns;
      mtime_s = mtime_s;
      mtime_ns = mtime_ns;
    }

module _ {W : Type 0} (env : Env W) where
  unfoldable pub setattr : InodeId → Changes → Fs W → Answer AttrReply × Fs W
  unfolding status_errno remember proto_attr_to_fuse set_attr_req
  setattr ino c s =
      let (answer, w) = env.set_attr (set_attr_req ino c) s.world in
      elim answer [
        | fail e ↦ (refused (status_errno e), with_world s w)
        | done attr ↦ elim attr [
          | none ↦ (refused eio, with_world s w)
          | some a ↦
              let fa = proto_attr_to_fuse a in
              (answered (attr_reply fa), remember env ino fa (with_world s w))
        ]
      ]
