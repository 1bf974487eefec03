-- ===== src/Client/Kernel/Changing/Setting.antt =====
-- `setattr` against the metadata server: the inode that it leaves, by what was asked for.
use dtmpfs.Prelude.{
  ℕ, ◌≡◌, refl, pos_part, Option, none, some, arith, nat_eq, unwrap_or, ltb, if◌then◌else◌, Tree,
}
use dtmpfs.Common.Id.{InodeId, BlockIdx, BlockPlacement}
use dtmpfs.Meta.State.{SystemTime, Inode}
use dtmpfs.Meta.Attributes.{changed, set_fields, set_size, set_time, kept_blocks}
use dtmpfs.Client.Kernel.Changing.{TimeOrNow, specific_time, now, Changes, time_parts, set_attr_req}

-- The time that a file has after a change: one that is given is taken, `now` changes nothing.
abbrev pub time_after : Option TimeOrNow → SystemTime → SystemTime
time_after none old = old
time_after (some now) old = old
time_after (some (specific_time t)) old = pos_part t

set_time-parts :
    (t : Option TimeOrNow) (old : SystemTime)
    → set_time (time_parts t).0 (time_parts t).1 old ≡ time_after t old
unfolding time_parts
set_time-parts none old = refl
set_time-parts (some now) old = refl
set_time-parts (some (specific_time t)) old = omega arith

-- A smaller size keeps the blocks that it covers, and any other change keeps them all.
abbrev pub blocks_after : Option ℕ → Inode → Tree BlockIdx BlockPlacement
blocks_after none i = i.blocks
blocks_after (some n) i = if ltb n i.size then kept_blocks n i.blocks else i.blocks

-- The inode after a change: what is not named here is as it was.
abbrev pub inode_after : SystemTime → Changes → Inode → Inode
inode_after clock c i = record i {
  mode = unwrap_or c.mode i.mode;
  uid = unwrap_or c.uid i.uid;
  gid = unwrap_or c.gid i.gid;
  size = unwrap_or c.size i.size;
  blocks = blocks_after c.size i;
  atime = time_after c.atime i.atime;
  mtime = time_after c.mtime i.mtime;
  ctime = clock;
}

pub changed-inode_after :
    (clock : SystemTime) (ino : InodeId) (c : Changes) (i : Inode)
    → (changed clock (set_attr_req ino c) i).0 ≡ inode_after clock c i
unfolding changed set_fields set_size set_attr_req
changed-inode_after clock ino c i =
    ground (arith, set_time-parts c.atime i.atime, set_time-parts c.mtime i.mtime)
