-- ===== src/Meta/Namespace.antt =====
-- The handlers of crates/dtmpfs-meta/src/service.rs that read and change the tree of names:
-- `lookup`, `create`, `mkdir`, `unlink`, `rmdir` and `rename`.
pub mod Changes
pub mod Removing
pub mod Creating
use dtmpfs.Prelude.{
  ◌+◌, ◌-◌, ◌%◌, bit_and, bit_or, String, Option, none, some, List, [], Dict, Tree, is_empty,
  if◌then◌else◌, nat_eq,
}
use dtmpfs.Prelude.Ord.{nat_ord, list_ord}
use dtmpfs.Prelude.HashMap
use dtmpfs.Prelude.BtreeMap
use dtmpfs.Common.Id.{InodeId, file, dir, u32_mod}
use dtmpfs.Common.Error.{
  Result, done, fail, not_found, already_exists, invalid_argument, failed_precondition,
}
use dtmpfs.Store.{status}
use dtmpfs.Meta.State.{
  SystemTime, Name, Inode, OpenHandleSt, MetaState, Attr, build_attr, alloc_ino, alloc_fh,
}
use dtmpfs.Meta.Messages.{
  CreateReq, CreateResp, Reply, DeleteCall, inode_not_found, node_addrs, fire_delete_blocks,
}

-- `s.dirs.get(&parent).and_then(|d| d.get(&name))`
unfoldable pub find_in : Dict InodeId (Tree Name InodeId) → InodeId → Name → Option InodeId
find_in dirs parent name = elim (HashMap.get parent dirs) [
  | none ↦ none
  | some d ↦ BtreeMap.get name d
]

abbrev pub entry : MetaState → InodeId → Name → Option InodeId
entry s = find_in s.dirs

attr_of : Option Inode → Result (Option Attr)
attr_of none = fail inode_not_found
attr_of (some i) = done (some (build_attr i))

-- The answer of `lookup` is the attributes of the child.
unfoldable pub lookup : MetaState → InodeId → Name → Result (Option Attr)
unfolding attr_of find_in
lookup s parent name = elim (entry s parent name) [
  | none ↦ fail inode_not_found
  | some child ↦ attr_of (HashMap.get child s.inodes)
]

abbrev pub new_file : SystemTime → InodeId → CreateReq → Inode
new_file now ino r = record {
  ino = ino;
  kind = file;
  mode = bit_or 0o100000 (bit_and r.mode 0o7777);
  uid = r.uid;
  gid = r.gid;
  size = 0;
  nlink = 1;
  atime = now;
  mtime = now;
  ctime = now;
  generation = 0;
  blocks = [];
  symlink_target = none;
}

abbrev pub new_dir : SystemTime → InodeId → CreateReq → Inode
new_dir now ino r = record {
  ino = ino;
  kind = dir;
  mode = bit_or 0o040000 (bit_and r.mode 0o7777);
  uid = r.uid;
  gid = r.gid;
  size = 4096;
  nlink = 2;
  atime = now;
  mtime = now;
  ctime = now;
  generation = 0;
  blocks = [];
  symlink_target = none;
}

-- Writes into the directory `parent`, and into the inode of `ino`, through `get_mut`.
abbrev pub put_entry : InodeId → Name → InodeId → MetaState → MetaState
put_entry parent name child s = record s {
  dirs = HashMap.update parent (BtreeMap.insert name child) s.dirs;
}

abbrev pub drop_entry : InodeId → Name → MetaState → MetaState
drop_entry parent name s = record s { dirs = HashMap.update parent (BtreeMap.remove name) s.dirs }

abbrev pub link_up : Inode → Inode
link_up i = record i { nlink = (i.nlink + 1) % u32_mod }

-- `saturating_sub(1)`
abbrev pub link_down : Inode → Inode
link_down i = record i { nlink = i.nlink - 1 }

-- `create` once the parent is there and the name is free.
unfoldable pub make_file : SystemTime → MetaState → CreateReq → Reply CreateResp
unfolding alloc_ino alloc_fh
make_file now s r =
    let (ino, s1) = alloc_ino s in
    let inode = new_file now ino r in
    let s2 =
      put_entry r.parent_ino r.name ino
        (record s1 { inodes = HashMap.insert ino inode s1.inodes }) in
    let (fh, s3) = alloc_fh s2 in
    let handle : OpenHandleSt = record { fh = fh; ino = ino; flags = 0; generation_at_open = 0 } in
    (
      done (record { attr = some (build_attr inode); fh = fh; block_map = [] }),
      record s3 { open_handles = HashMap.insert fh handle s3.open_handles },
    )

unfoldable pub create : SystemTime → MetaState → CreateReq → Reply CreateResp
unfolding make_file
create now s r = elim (HashMap.get r.parent_ino s.dirs) [
  | none ↦ (fail (status not_found "parent not found"), s)
  | some d ↦
      if BtreeMap.contains_key r.name d
      then (fail (status already_exists "entry already exists"), s)
      else make_file now s r
]

unfoldable pub make_dir : SystemTime → MetaState → CreateReq → Reply Attr
unfolding alloc_ino
make_dir now s r =
    let (ino, s1) = alloc_ino s in
    let inode = new_dir now ino r in
    let s2 = put_entry r.parent_ino r.name ino (record s1 {
      inodes = HashMap.insert ino inode s1.inodes;
      dirs = HashMap.insert ino [] s1.dirs;
    }) in
    (done (build_attr inode), record s2 { inodes = HashMap.update r.parent_ino link_up s2.inodes })

unfoldable pub mkdir : SystemTime → MetaState → CreateReq → Reply Attr
unfolding make_dir
mkdir now s r = elim (HashMap.get r.parent_ino s.dirs) [
  | none ↦ (fail (status not_found "parent not found"), s)
  | some d ↦
      if BtreeMap.contains_key r.name d
      then (fail (status already_exists "entry already exists"), s)
      else make_dir now s r
]

-- `unlink` of an entry whose inode is found.
unfoldable pub unlink_inode :
    String
    → MetaState
    → InodeId
    → Name
    → InodeId
    → Inode
    → Result (Unit {0}) × MetaState × List DeleteCall
unlink_inode token s parent name child i = elim i.kind [
  | dir ↦ (fail (status invalid_argument "is a directory"), s, [])
  | _ ↦ (
    done tt,
    record (drop_entry parent name s) { inodes = HashMap.remove child s.inodes },
    fire_delete_blocks i.blocks (node_addrs s) child token,
  )
]

-- The last part is the `DeleteBlock` calls that the server sends.
unfoldable pub unlink :
    String → MetaState → InodeId → Name → Result (Unit {0}) × MetaState × List DeleteCall
unfolding unlink_inode find_in
unlink token s parent name = elim (entry s parent name) [
  | none ↦ (fail inode_not_found, s, [])
  | some child ↦ elim (HashMap.get child s.inodes) [
    | none ↦ (fail inode_not_found, s, [])
    | some i ↦ unlink_inode token s parent name child i
  ]
]

-- `rmdir` of an empty directory: by then `child` cannot be `parent`, which holds an entry, so the
-- `unwrap` of the parent does not panic.
unfoldable pub remove_dir : MetaState → InodeId → Name → InodeId → MetaState
remove_dir s parent name child =
    let s1 = record s {
      dirs = HashMap.remove child s.dirs;
      inodes = HashMap.remove child s.inodes;
    } in
    let s2 = drop_entry parent name s1 in
    record s2 { inodes = HashMap.update parent link_down s2.inodes }

unfoldable pub rmdir : MetaState → InodeId → Name → Reply (Unit {0})
unfolding find_in remove_dir
rmdir s parent name = elim (entry s parent name) [
  | none ↦ (fail inode_not_found, s)
  | some child ↦ elim (HashMap.get child s.dirs) [
    | none ↦ (fail (status invalid_argument "not a directory"), s)
    | some d ↦
        if is_empty d
        then (done tt, remove_dir s parent name child)
        else (fail (status failed_precondition "directory not empty"), s)
  ]
]
