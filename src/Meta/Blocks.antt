-- ===== src/Meta/Blocks.antt =====
-- `allocate_blocks` of crates/dtmpfs-meta/src/service.rs: a block that has a placement keeps it, and
-- any other is placed on the nodes that are live now.
pub mod Allocating
use dtmpfs.Prelude.{ℕ, String, Option, none, some, List, [], ◌∷◌, nat_eq, string_eq}
use dtmpfs.Prelude.Ord.{nat_ord}
use dtmpfs.Prelude.HashMap
use dtmpfs.Prelude.BtreeMap
use dtmpfs.Common.Id.{InodeId, BlockIdx, BlockPlacement}
use dtmpfs.Common.Error.{done, fail}
use dtmpfs.Meta.State.{Inode, MetaState, place}
use dtmpfs.Meta.Messages.{BlockLoc, Reply, inode_not_found, placement_to_block_loc}

-- `s.inodes.get(&ino).and_then(|i| i.blocks.get(idx))`
unfoldable pub placement_at : MetaState → InodeId → BlockIdx → Option BlockPlacement
placement_at s ino idx = elim (HashMap.get ino s.inodes) [
  | none ↦ none
  | some i ↦ BtreeMap.get idx i.blocks
]

abbrev pub put_block : BlockIdx → BlockPlacement → Inode → Inode
put_block idx p i = record i { blocks = BtreeMap.insert idx p i.blocks }

module _ (xxh3 : String → ℕ → ℕ) where
  -- One round of the loop: the location that is pushed, and the state.
  unfoldable pub allocate_one : MetaState → InodeId → BlockIdx → BlockLoc × MetaState
  unfolding placement_at
  allocate_one s ino idx = elim (placement_at s ino idx) [
    | some p ↦ (placement_to_block_loc idx p, s)
    | none ↦
        let p = place xxh3 s ino idx in
        (
          placement_to_block_loc idx p,
          record s { inodes = HashMap.update ino (put_block idx p) s.inodes },
        )
  ]

  unfoldable pub allocate_all : MetaState → InodeId → List BlockIdx → List BlockLoc × MetaState
  unfolding allocate_one
  allocate_all s ino [] = ([], s)
  allocate_all s ino (idx ∷ idxs) =
      let (loc, s1) = allocate_one s ino idx in
      let (locs, s2) = allocate_all s1 ino idxs in (loc ∷ locs, s2)

  unfoldable pub allocate : MetaState → InodeId → List BlockIdx → Reply (List BlockLoc)
  unfolding allocate_all
  allocate s ino idxs = elim (HashMap.get ino s.inodes) [
    | none ↦ (fail inode_not_found, s)
    | some i ↦ let (locs, s1) = allocate_all s ino idxs in (done locs, s1)
  ]
