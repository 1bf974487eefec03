-- ===== src/Meta/Attributes/Truncating.antt =====
-- `set_attr` with a smaller size: which blocks stay, and which are deleted on the storage nodes.
use dtmpfs.Prelude.{
  ℕ, ◌*◌, ◌<◌, ◌≡◌, ◌≢◌, String, Bool, ◌||◌, Option, none, some, List, ltb, if◌then◌else◌, nat_eq,
  ◌==◌,
}
use dtmpfs.Prelude.Ord.{nat_ord}
use dtmpfs.Prelude.HashMap
use dtmpfs.Prelude.BtreeMap
use dtmpfs.Common.Id.{InodeId, BlockIdx, BlockPlacement}
use dtmpfs.Common.Error.{Result, done}
use dtmpfs.Meta.State.{SystemTime, Inode, MetaState, Attr, build_attr}
use dtmpfs.Meta.Messages.{SetAttrReq, DeleteCall, node_addrs, fire_delete_blocks}
use dtmpfs.Meta.Attributes.{block_size, kept_blocks, set_fields}

-- Whether a block lies in a file of the size; block 0 lies in every file.
abbrev pub covers : ℕ → BlockIdx → Bool
covers size idx = idx == 0 || ltb (idx * block_size) size

-- What `set_attr` leaves of an inode `i` that it makes shorter.
pub record Truncates (token : String) (s : MetaState) (ino : InodeId) (size : ℕ) (i : Inode)
    (answer : Result (Option Attr) × MetaState × List DeleteCall) : Type 0 where
  pub inode : Inode
  pub answered : answer.0 ≡ done (some (build_attr inode))
  pub found : HashMap.get ino answer.1.inodes ≡ some inode
  pub others : (n : InodeId) → n ≢ ino → HashMap.get n answer.1.inodes ≡ HashMap.get n s.inodes
  pub sized : inode.size ≡ size
  pub generation : inode.generation ≡ i.generation
  pub kept :
      (idx : BlockIdx)
      → BtreeMap.get idx inode.blocks
        ≡ (if covers size idx then BtreeMap.get idx i.blocks else none)
  pub dropped : List (BlockIdx × BlockPlacement)
  pub calls : answer.2 ≡ fire_delete_blocks dropped (node_addrs s) ino token
  pub lost :
      (idx : BlockIdx)
      → BtreeMap.get idx dropped ≡ (if covers size idx then none else BtreeMap.get idx i.blocks)

module _ (token : String) (now : SystemTime) (s : MetaState) (r : SetAttrReq) (i : Inode) (size : ℕ)
    (there : HashMap.get r.ino s.inodes ≡ some i) (asked : r.size ≡ some size)
    (shorter : size < i.size) where
  shortened : Inode
  shortened = record (set_fields r i) {
    blocks = kept_blocks size i.blocks;
    size = size;
    ctime = now;
  }
