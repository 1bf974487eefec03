-- ===== src/Meta/Steps.antt =====
-- The requests that change the state of the metadata server, in the order in which it takes its
-- lock for them.
pub mod SameTree
pub mod Counter
pub mod Trees
pub mod SameNodes
pub mod Placements
pub mod Directories
pub mod Listings
pub mod Kinds
pub mod Typed
use dtmpfs.Prelude.{
  ℕ, ◌+◌, ◌≤◌, ◌<◌, ◌≡◌, refl, sym, ◌∙◌, subst, String, Bool, true, false, Option, none, some, List,
  [], ◌∷◌, length, arith, nat_eq, list_eq, Option-cases, Bool-cases, inl, inr,
}
use dtmpfs.Prelude.Ord.{nat_ord, list_ord}
use dtmpfs.Prelude.HashMap
use dtmpfs.Prelude.BtreeMap
use dtmpfs.Common.Id.{InodeId, BlockIdx, dir, file, root, u64_mod}
use dtmpfs.Common.Error.{Result, done, fail}
use dtmpfs.Meta.State.{SystemTime, Instant, Name, Inode, MetaState, Attr, watcher_tick, place, new}
use dtmpfs.Meta.Messages.{SetAttrReq, CreateReq, RenameReq, CloseReq, HeartbeatReq}
use dtmpfs.Meta.Namespace.{
  find_in, entry, create, mkdir, unlink, rmdir, make_file, make_dir, unlink_inode, remove_dir,
}
use dtmpfs.Meta.Rename.{Cleared, clear_kind, clear_dst, move_entry, adjust_links, rename}
use dtmpfs.Meta.Attributes.{changed, set_attr}
use dtmpfs.Meta.Handles.{OpenReq, Opened, open_handle, published, close, close_inode}
use dtmpfs.Meta.Blocks.{allocate_one, allocate_all, allocate, put_block}
use dtmpfs.Meta.Nodes.{heartbeat_node}
use dtmpfs.Meta.View.{kind_in, kind_at, has_dir, find_in-drop, has_dir-update, find_in-has_dir}
use dtmpfs.Meta.Tree.{IsTree, Adds-IsTree, Removes-IsTree}
use dtmpfs.Meta.Namespace.Changes.{
  make_file-Adds, make_dir-Adds, new_kind, create-cases, mkdir-cases,
}
use dtmpfs.Meta.Namespace.Removing.{
  unlink_inode-Removes, remove_dir-Removes, rmdir-cases, unlink-cases,
}
use dtmpfs.Meta.Rename.Moving.{onto_itself}
use dtmpfs.Meta.Rename.Outcomes.{Outcome, moved, no_source, full, lost, rename-Outcome}

-- The second half of an `open` comes with what its first half read, at any earlier time.
pub data Request : Type 0 where
  sets_attr : SystemTime → SetAttrReq → Request
  creates mkdirs : SystemTime → CreateReq → Request
  unlinks rmdirs : InodeId → Name → Request
  renames : RenameReq → Request
  opens : OpenReq → Opened → Request
  closes : SystemTime → CloseReq → Request
  allocates : InodeId → List BlockIdx → Request
  heartbeats : Instant → HeartbeatReq → Request
  ticks : Instant → ℕ → Request

module _ (xxh3 : String → ℕ → ℕ) (token : String) where
  unfoldable pub step : MetaState → Request → MetaState
  step s (sets_attr now r) = (set_attr token now s r).1
  step s (creates now r) = (create now s r).1
  step s (mkdirs now r) = (mkdir now s r).1
  step s (unlinks parent name) = (unlink token s parent name).1
  step s (rmdirs parent name) = (rmdir s parent name).1
  step s (renames r) = (rename token s r).1
  step s (opens r o) = (open_handle s r o).1
  step s (closes now r) = (close now s r).1
  step s (allocates ino idxs) = (allocate xxh3 s ino idxs).1
  step s (heartbeats now r) = (heartbeat_node now s r).1
  step s (ticks now dead_after) = watcher_tick now dead_after s

  unfoldable pub run : MetaState → List Request → MetaState
  unfolding step
  run s [] = s
  run s (r ∷ rs) = run (step s r) rs
