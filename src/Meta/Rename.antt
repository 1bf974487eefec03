-- ===== src/Meta/Rename.antt =====
-- `rename` of crates/dtmpfs-meta/src/service.rs: what stands at the destination is removed, then
-- the entry is moved.
pub mod Clearing
pub mod Moving
pub mod Outcomes
pub mod Itself
use dtmpfs.Prelude.{
  String, Bool, true, false, not, ◌&&◌, Option, none, some, List, [], is_empty, if◌then◌else◌,
  nat_eq, ◌==◌,
}
use dtmpfs.Prelude.Ord.{nat_ord, list_ord}
use dtmpfs.Prelude.HashMap
use dtmpfs.Common.Id.{InodeId, BlockIdx, BlockPlacement, file, dir, symlink}
use dtmpfs.Common.Error.{Result, done, fail, not_found, failed_precondition}
use dtmpfs.Store.{status}
use dtmpfs.Meta.State.{Name, Inode, MetaState}
use dtmpfs.Meta.Messages.{RenameReq, DeleteCall, inode_not_found, node_addrs, fire_delete_blocks}
use dtmpfs.Meta.Namespace.{find_in, entry, put_entry, drop_entry, link_up, link_down}

-- What the removal of the destination leaves: the state, and the blocks of a removed file with its
-- number.
pub record Cleared : Type 0 where
  pub state : MetaState
  pub blocks : List (BlockIdx × BlockPlacement)
  pub ino : Option InodeId

-- `s.dirs.get(&ino).map_or(true, |d| d.is_empty())`
unfoldable pub has_no_entries : MetaState → InodeId → Bool
has_no_entries s ino = elim (HashMap.get ino s.dirs) [ none ↦ true | some d ↦ is_empty d ]

abbrev pub clear_entry : InodeId → Name → InodeId → MetaState → MetaState
clear_entry parent name ino s =
    drop_entry parent name (record s { inodes = HashMap.remove ino s.inodes })

unfoldable pub clear_kind : MetaState → InodeId → Name → InodeId → Inode → Result Cleared
unfolding has_no_entries
clear_kind s parent name ino i = elim i.kind [
  | dir ↦
      if has_no_entries s ino
      then done (record {
        state = clear_entry parent name ino (record s {
          dirs = HashMap.remove ino s.dirs;
          inodes = HashMap.update parent link_down s.inodes;
        });
        blocks = [];
        ino = none;
      })
      else fail (status failed_precondition "destination directory not empty")
  | file ↦
      done (record { state = clear_entry parent name ino s; blocks = i.blocks; ino = some ino })
  | symlink ↦ done (record { state = clear_entry parent name ino s; blocks = []; ino = none })
]

unfoldable pub clear_dst : MetaState → InodeId → Name → Result Cleared
unfolding clear_kind find_in
clear_dst s parent name = elim (entry s parent name) [
  | none ↦ done (record { state = s; blocks = []; ino = none })
  | some ino ↦ elim (HashMap.get ino s.inodes) [
    | none ↦ fail inode_not_found
    | some i ↦ clear_kind s parent name ino i
  ]
]

abbrev pub is_dir : Option Inode → Bool
is_dir none = false
is_dir (some i) = elim i.kind [ dir ↦ true | _ ↦ false ]

-- `nlink` of the parents where a directory changes its parent.
unfoldable pub adjust_links : InodeId → RenameReq → MetaState → MetaState
adjust_links src_ino r s =
    if is_dir (HashMap.get src_ino s.inodes) && not (r.src_parent_ino == r.dst_parent_ino)
    then record s {
      inodes =
          HashMap.update r.dst_parent_ino link_up
            (HashMap.update r.src_parent_ino link_down s.inodes);
    }
    else s

-- The calls for the blocks of a removed file.
unfoldable pub rename_calls : String → Cleared → MetaState → List DeleteCall
rename_calls token c s = elim c.ino [
  | none ↦ []
  | some ino ↦ fire_delete_blocks c.blocks (node_addrs s) ino token
]

-- The source entry is taken out before the destination is looked for: where there is none, the
-- error leaves it out.
unfoldable pub move_entry :
    String → InodeId → RenameReq → Cleared → Result (Unit {0}) × MetaState × List DeleteCall
unfolding adjust_links rename_calls
move_entry token src_ino r c =
    let s1 = drop_entry r.src_parent_ino r.src_name c.state in
    elim (HashMap.get r.dst_parent_ino s1.dirs) [
      | none ↦ (fail (status not_found "dst parent not found"), s1, [])
      | some d ↦
          let s2 = adjust_links src_ino r (put_entry r.dst_parent_ino r.dst_name src_ino s1) in
          (done tt, s2, rename_calls token c s2)
    ]

unfoldable pub rename :
    String → MetaState → RenameReq → Result (Unit {0}) × MetaState × List DeleteCall
unfolding clear_dst move_entry find_in
rename token s r = elim (entry s r.src_parent_ino r.src_name) [
  | none ↦ (fail inode_not_found, s, [])
  | some src_ino ↦ elim (clear_dst s r.dst_parent_ino r.dst_name) [
    | fail e ↦ (fail e, s, [])
    | done c ↦ move_entry token src_ino r c
  ]
]
