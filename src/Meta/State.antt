-- ===== src/Meta/State.antt =====
-- crates/dtmpfs-meta/src/state.rs: the state of the metadata server, the placement of new blocks,
-- and the watcher that marks silent nodes down. A time is a number of nanoseconds since the epoch,
-- and a file name is the list of its UTF-8 bytes, in whose order a `BTreeMap` keeps it.
use dtmpfs.Prelude.{
  ℕ, ◌+◌, ◌-◌, ◌/◌, ◌%◌, ◌^◌, String, ℤ, pos, Bool, true, false, Option, none, List, [], ◌∷◌, map,
  Dict, Tree, length, keep_if, drop, first, unwrap_or, ltb, if◌then◌else◌, string_eq,
}
use dtmpfs.Prelude.HashMap
use dtmpfs.Prelude.HashMap.{values}
use dtmpfs.Common.Id.{
  InodeId, BlockIdx, Generation, NodeId, BlockPlacement, InodeKind, dir, root, u64_mod,
}
use dtmpfs.Common.Hash.{pick_nodes}

abbrev pub SystemTime : Type 0
SystemTime = ℕ

abbrev pub Instant : Type 0
Instant = ℕ

abbrev pub Name : Type 0
Name = List ℕ

pub record Inode : Type 0 where
  pub ino : InodeId
  pub kind : InodeKind
  pub mode : ℕ
  pub uid : ℕ
  pub gid : ℕ
  pub size : ℕ
  pub nlink : ℕ
  pub atime : SystemTime
  pub mtime : SystemTime
  pub ctime : SystemTime
  pub generation : Generation
  pub blocks : Tree BlockIdx BlockPlacement
  pub symlink_target : Option String

-- `flags` is the bit pattern of an i32.
pub record OpenHandleSt : Type 0 where
  pub fh : ℕ
  pub ino : InodeId
  pub flags : ℕ
  pub generation_at_open : Generation

pub data NodeStatus : Type 0 where
  up down : NodeStatus

pub record NodeInfo : Type 0 where
  pub node_id : NodeId
  pub addr : String
  pub ram_used : ℕ
  pub ram_total : ℕ
  pub status : NodeStatus

pub record MetaState : Type 0 where
  pub inodes : Dict InodeId Inode
  pub dirs : Dict InodeId (Tree Name InodeId)
  pub next_ino : ℕ
  pub open_handles : Dict ℕ OpenHandleSt
  pub next_fh : ℕ
  pub nodes : Dict NodeId NodeInfo
  pub last_heartbeat : Dict NodeId Instant
  pub replication_factor : ℕ

abbrev pub root_inode : SystemTime → Inode
root_inode now = record {
  ino = root;
  kind = dir;
  mode = 0o40755;
  uid = 0;
  gid = 0;
  size = 4096;
  nlink = 2;
  atime = now;
  mtime = now;
  ctime = now;
  generation = 0;
  blocks = [];
  symlink_target = none;
}

unfoldable pub new : ℕ → SystemTime → MetaState
new replication_factor now = record {
  inodes = (root, root_inode now) ∷ [];
  dirs = (root, []) ∷ [];
  next_ino = 2;
  open_handles = [];
  next_fh = 1;
  nodes = [];
  last_heartbeat = [];
  replication_factor = replication_factor;
}

-- `fetch_add` on the counters: the number handed out is the old value, and the counter wraps.
unfoldable pub alloc_ino : MetaState → InodeId × MetaState
alloc_ino s = (s.next_ino, record s { next_ino = (s.next_ino + 1) % u64_mod })

unfoldable pub alloc_fh : MetaState → ℕ × MetaState
alloc_fh s = (s.next_fh, record s { next_fh = (s.next_fh + 1) % u64_mod })

abbrev pub is_up : NodeInfo → Bool
is_up n = elim n.status [ up ↦ true | down ↦ false ]

unfoldable pub live_nodes : MetaState → List NodeId
live_nodes s = map (λ n. n.node_id) (keep_if is_up (values s.nodes))

-- The placement on the chosen nodes; `?` where no node is live.
unfoldable pub placement_of : List NodeId → BlockPlacement
placement_of chosen = record { primary = unwrap_or (first chosen) "?"; replicas = drop 1 chosen }

module _ (xxh3 : String → ℕ → ℕ) where
  unfoldable pub place : MetaState → InodeId → BlockIdx → BlockPlacement
  unfolding live_nodes placement_of pick_nodes
  place s ino idx = placement_of (
      pick_nodes xxh3 (record { ino = ino; block_idx = idx; generation = 0 }) (live_nodes s)
        s.replication_factor)

  unfoldable pub allocate_blocks :
      MetaState → InodeId → List BlockIdx → List (BlockIdx × BlockPlacement)
  unfolding place
  allocate_blocks s ino idxs = map (λ idx. (idx, place s ino idx)) idxs

pub record Attr : Type 0 where
  pub ino : ℕ
  pub size : ℕ
  pub blocks : ℕ
  pub generation : ℕ
  pub mode : ℕ
  pub nlink : ℕ
  pub uid : ℕ
  pub gid : ℕ
  pub atime_s : ℤ
  pub atime_ns : ℕ
  pub mtime_s : ℤ
  pub mtime_ns : ℕ
  pub ctime_s : ℤ
  pub ctime_ns : ℕ

abbrev pub seconds : SystemTime → ℤ
seconds t = pos (t / 10 ^ 9)

abbrev pub nanos : SystemTime → ℕ
nanos t = t % 10 ^ 9

unfoldable pub build_attr : Inode → Attr
build_attr i = record {
  ino = i.ino;
  size = i.size;
  blocks = length i.blocks;
  generation = i.generation;
  mode = i.mode;
  nlink = i.nlink;
  uid = i.uid;
  gid = i.gid;
  atime_s = seconds i.atime;
  atime_ns = nanos i.atime;
  mtime_s = seconds i.mtime;
  mtime_ns = nanos i.mtime;
  ctime_s = seconds i.ctime;
  ctime_ns = nanos i.ctime;
}

abbrev pub mark_down : NodeInfo → NodeInfo
mark_down n = record n { status = down }

-- One node that may have been silent for too long.
unfoldable pub watch_one :
    Instant → ℕ → NodeId × Instant → Dict NodeId NodeInfo → Dict NodeId NodeInfo
watch_one now dead_after (id, last) nodes =
    if ltb dead_after (now - last) then HashMap.update id mark_down nodes else nodes

unfoldable pub watch :
    Instant → ℕ → Dict NodeId Instant → Dict NodeId NodeInfo → Dict NodeId NodeInfo
unfolding watch_one
watch now dead_after [] nodes = nodes
watch now dead_after (beat ∷ beats) nodes =
    watch now dead_after beats (watch_one now dead_after beat nodes)

-- One turn of the loop of `spawn_heartbeat_watcher`.
unfoldable pub watcher_tick : Instant → ℕ → MetaState → MetaState
unfolding watch
watcher_tick now dead_after s = record s { nodes = watch now dead_after s.last_heartbeat s.nodes }
