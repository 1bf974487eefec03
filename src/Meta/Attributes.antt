-- ===== src/Meta/Attributes.antt =====
-- `get_attr` and `set_attr` of crates/dtmpfs-meta/src/service.rs.
pub mod Truncating
use dtmpfs.Prelude.{
  ℕ, ◌+◌, ◌-◌, ◌*◌, ◌/◌, ◌^◌, String, pos_part, ℤ, Option, none, some, List, [], Tree, keep_if, ltb,
  leb, unwrap_or, if◌then◌else◌, nat_eq, ◌==◌,
}
use dtmpfs.Prelude.HashMap
use dtmpfs.Common.Id.{InodeId, BlockIdx, BlockPlacement}
use dtmpfs.Common.Error.{Result, done, fail}
use dtmpfs.Meta.State.{SystemTime, Inode, MetaState, Attr, build_attr}
use dtmpfs.Meta.Messages.{SetAttrReq, DeleteCall, inode_not_found, node_addrs, fire_delete_blocks}

unfoldable pub get_attr : MetaState → InodeId → Result Attr
get_attr s ino = elim (HashMap.get ino s.inodes) [
  | none ↦ fail inode_not_found
  | some i ↦ done (build_attr i)
]

-- `UNIX_EPOCH + Duration::new(secs.max(0) as u64, ns)`
abbrev pub time_of : ℤ → ℕ → SystemTime
time_of secs ns = pos_part secs * 10 ^ 9 + ns

abbrev pub set_time : Option ℤ → Option ℕ → SystemTime → SystemTime
set_time none ns old = old
set_time (some secs) ns old = time_of secs (unwrap_or ns 0)

unfoldable pub set_fields : SetAttrReq → Inode → Inode
set_fields r i = record i {
  mode = unwrap_or r.mode i.mode;
  uid = unwrap_or r.uid i.uid;
  gid = unwrap_or r.gid i.gid;
  atime = set_time r.atime_s r.atime_ns i.atime;
  mtime = set_time r.mtime_s r.mtime_ns i.mtime;
}

abbrev pub block_size : ℕ
block_size = 2 ^ 20

-- The last block that a size keeps: block 0 also for the size 0.
abbrev pub last_idx : ℕ → BlockIdx
last_idx new_size = if new_size == 0 then 0 else (new_size - 1) / block_size

unfoldable pub kept_blocks : ℕ → Tree BlockIdx BlockPlacement → Tree BlockIdx BlockPlacement
kept_blocks new_size blocks = keep_if (λ e. leb e.0 (last_idx new_size)) blocks

unfoldable pub dropped_blocks : ℕ → Tree BlockIdx BlockPlacement → List (BlockIdx × BlockPlacement)
dropped_blocks new_size blocks = keep_if (λ e. ltb (last_idx new_size) e.0) blocks

unfoldable pub set_size : Option ℕ → Inode → Inode × List (BlockIdx × BlockPlacement)
unfolding kept_blocks dropped_blocks
set_size none i = (i, [])
set_size (some new_size) i =
    if ltb new_size i.size
    then (
      record i { blocks = kept_blocks new_size i.blocks; size = new_size },
      dropped_blocks new_size i.blocks,
    )
    else (record i { size = new_size }, [])

-- The inode that `set_attr` leaves, and the blocks that it drops.
unfoldable pub changed : SystemTime → SetAttrReq → Inode → Inode × List (BlockIdx × BlockPlacement)
unfolding set_fields set_size
changed now r i =
    let (j, dropped) = set_size r.size (set_fields r i) in (record j { ctime = now }, dropped)

unfoldable pub set_attr :
    String
    → SystemTime
    → MetaState
    → SetAttrReq
    → Result (Option Attr) × MetaState × List DeleteCall
unfolding changed
set_attr token now s r = elim (HashMap.get r.ino s.inodes) [
  | none ↦ (fail inode_not_found, s, [])
  | some i ↦
      let (j, dropped) = changed now r i in
      (
        done (some (build_attr j)),
        record s { inodes = HashMap.update r.ino (λ k. (changed now r k).0) s.inodes },
        fire_delete_blocks dropped (node_addrs s) r.ino token,
      )
]
