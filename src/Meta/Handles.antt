-- ===== src/Meta/Handles.antt =====
-- `open` and `close` of crates/dtmpfs-meta/src/service.rs. `open` reads under one lock and hands
-- out the handle under another, so other handlers may run between its two halves.
pub mod Closing
pub mod Succeeding
use dtmpfs.Prelude.{
  ℕ, ◌-◌, ◌*◌, ◌^◌, max, Option, none, some, List, map, is_empty, if◌then◌else◌, nat_eq, ◌==◌,
}
use dtmpfs.Prelude.HashMap
use dtmpfs.Common.Id.{InodeId, Generation, file, bump}
use dtmpfs.Common.Error.{Result, done, fail, not_found, invalid_argument, failed_precondition}
use dtmpfs.Store.{status}
use dtmpfs.Meta.State.{SystemTime, Inode, OpenHandleSt, MetaState, Attr, build_attr, alloc_fh}
use dtmpfs.Meta.Messages.{
  BlockLoc, CreateResp, CloseReq, Reply, inode_not_found, placement_to_block_loc,
}
use dtmpfs.Meta.Attributes.{time_of}

pub record OpenReq : Type 0 where
  pub ino : ℕ
  pub flags : ℕ

-- What the first half of `open` reads.
pub record Opened : Type 0 where
  pub attr : Attr
  pub generation : Generation
  pub block_map : List BlockLoc

opened_inode : Inode → Result Opened
opened_inode i = elim i.kind [
  | file ↦ done (record {
    attr = build_attr i;
    generation = i.generation;
    block_map = map (λ e. placement_to_block_loc e.0 e.1) i.blocks;
  })
  | _ ↦ fail (status invalid_argument "not a file")
]

unfoldable pub open_read : MetaState → InodeId → Result Opened
unfolding opened_inode
open_read s ino = elim (HashMap.get ino s.inodes) [
  | none ↦ fail inode_not_found
  | some i ↦ opened_inode i
]

unfoldable pub open_handle : MetaState → OpenReq → Opened → Reply CreateResp
unfolding alloc_fh
open_handle s r o =
    let (fh, s1) = alloc_fh s in
    let handle : OpenHandleSt = record {
      fh = fh;
      ino = r.ino;
      flags = r.flags;
      generation_at_open = o.generation;
    } in
    (
      done (record { attr = some o.attr; fh = fh; block_map = o.block_map }),
      record s1 { open_handles = HashMap.insert fh handle s1.open_handles },
    )

-- `open` when nothing comes between its halves.
unfoldable pub open_file : MetaState → OpenReq → Reply CreateResp
unfolding open_read open_handle
open_file s r = elim (open_read s r.ino) [ fail e ↦ (fail e, s) | done o ↦ open_handle s r o ]

-- The inode after a close with written blocks. The time of the request counts, but not if it is
-- more than a minute back; `now` less a minute stops at the epoch, which no request time is below.
unfoldable pub published : SystemTime → CloseReq → Inode → Inode
unfolding bump
published now r i = record i {
  generation = bump i.generation;
  size = r.new_size;
  mtime = max (time_of r.mtime_s r.mtime_ns) (now - 60 * 10 ^ 9);
  ctime = now;
}

close_attr : MetaState → InodeId → Reply (Option Attr)
close_attr s ino = elim (HashMap.get ino s.inodes) [
  | none ↦ (fail inode_not_found, s)
  | some i ↦ (done (some (build_attr i)), s)
]

-- `close` of a handle that was found, in the state that has it removed.
unfoldable pub close_inode : SystemTime → MetaState → InodeId → CloseReq → Reply (Option Attr)
unfolding close_attr published
close_inode now s ino r =
    if is_empty r.written_block_idxs then close_attr s ino else elim (HashMap.get ino s.inodes) [
      | none ↦ (fail inode_not_found, s)
      | some i ↦
          if i.generation == r.expected_generation
          then close_attr (record s { inodes = HashMap.update ino (published now r) s.inodes }) ino
          else (fail (status failed_precondition "generation mismatch"), s)
    ]

unfoldable pub close : SystemTime → MetaState → CloseReq → Reply (Option Attr)
unfolding close_inode
close now s r = elim (HashMap.get r.fh s.open_handles) [
  | none ↦ (fail (status not_found "file handle not found"), s)
  | some h ↦
      close_inode now (record s { open_handles = HashMap.remove r.fh s.open_handles }) h.ino r
]
