-- ===== src/Client/Examples.antt =====
-- A mount with blocks of four bytes, and its theorems at concrete inputs.
use dtmpfs.Prelude.{
  ℕ, ◌≡◌, refl, true, none, some, [], ◌∷◌, ltb, leb, ◌||◌, length, arith, nat_eq, string_eq,
}
use dtmpfs.Prelude.Ord.{nat_ord}
use dtmpfs.Prelude.HashMap
use dtmpfs.Prelude.BtreeMap
use dtmpfs.Common.Error.{
  Status, done, fail, not_found, unavailable, store_unavailable, from_status, from_code,
}
use dtmpfs.Store.{Bytes, status}
use dtmpfs.Meta.Messages.{ProtoNodeInfo}
use dtmpfs.Client.{
  OpenFile, returned, failed, Env, Fs, pool_get, connect_to, refresh_addrs, addr_map,
}
use dtmpfs.Client.Fetch.{fetch_block, fetch_placed, ensure_addrs, try_nodes}
use dtmpfs.Client.Write.{apply_write, write_loop, ensure_dirty, init_from, copy_chunk}
use dtmpfs.Client.Write.RoundTrip.{write-read}
use dtmpfs.Client.Dirty.{byte_at, IsFull}
use dtmpfs.Client.Read.{read_file, read_loop, read_piece}
use dtmpfs.Client.Read.Length.{length-read_file}
use dtmpfs.Prelude.{map, Tree}
use dtmpfs.Common.Id.{InodeId}
use dtmpfs.Meta.State.{MetaState, Name, new}
use dtmpfs.Meta.Listing.{dir_entry, read_dir}
use dtmpfs.Meta.Utf8.{is_utf8}
use dtmpfs.Client.Readdir.{list_dir}
use dtmpfs.Client.Readdir.Runs.{list_dir-run}
use dtmpfs.Meta.Steps.{Request, creates, mkdirs, step, run}
use dtmpfs.Meta.State.{alloc_ino, alloc_fh}
use dtmpfs.Meta.Messages.{CreateReq}
use dtmpfs.Client.Kernel.{reply_empty}
use dtmpfs.Client.Names.{RmdirReply, UnlinkReply, rmdir-RmdirReply, unlink-UnlinkReply}
use dtmpfs.Meta.Namespace.{rmdir, unlink, create, make_file, mkdir, make_dir}
use dtmpfs.Prelude.{String, List, list_eq}
use dtmpfs.Prelude.Ord.{list_ord}
use dtmpfs.Client.Publish.{
  primaries_only, all_replicas, new_idxs, publish, write_blocks, write_placed, write_one,
}
use dtmpfs.Client.Publish.Outcomes.{Leaves, publish-Leaves, publish_lost}

abbrev pub node : ProtoNodeInfo
node = record {
  node_id = "store-0";
  addr = "store-0:1";
  status = 1;
  used_bytes = 0;
  capacity_bytes = 100;
  last_heartbeat_s = 0;
}

abbrev gone : Status
gone = status unavailable "gone"

-- One node, which has no block and takes none.
abbrev pub outside : Env (Unit {0})
outside = record {
  cache_get = λ ino g idx w. (none, w);
  cache_insert = λ ino g idx b w. w;
  cache_prune = λ ino g w. w;
  connect = λ addr w. (true, w);
  read_block = λ c r w. (fail (status not_found "block not found"), w);
  write_block = λ c r w. (fail (status unavailable "gone"), w);
  read_dir = λ r w. (fail (status not_found "directory not found"), w);
  list_nodes = λ w. (done (node ∷ []), w);
  allocate_blocks = λ ino idxs w. (done [], w);
  close = λ r w. (done none, w);
  now = λ w. 0;
  lookup = λ p n w. (fail gone, w);
  get_attr = λ i w. (fail gone, w);
  set_attr = λ r w. (fail gone, w);
  create = λ r w. (fail gone, w);
  open_inode = λ r w. (fail gone, w);
  mkdir = λ r w. (fail gone, w);
  unlink = λ p n w. (fail gone, w);
  rmdir = λ p n w. (fail gone, w);
  rename = λ r w. (fail gone, w);
  attr_get = λ i w. (none, w);
  attr_insert = λ i a w. w;
  instant = λ w. 0;
}

abbrev pub opened : OpenFile
opened = record {
  ino = 2;
  generation = 0;
  block_map = (0, record { primary = "store-0"; replicas = [] }) ∷ [];
  dirty = [];
  size_hint = 0;
  flags = 2;
}

abbrev pub mount : Fs (Unit {0})
mount = record { clients = []; addrs = []; open_files = []; tasks = []; world = tt }

abbrev pub three : Bytes
three = 7 ∷ 8 ∷ 9 ∷ []

abbrev five_zeros : Bytes
five_zeros = 0 ∷ 0 ∷ 0 ∷ 0 ∷ 0 ∷ []

opened-IsFull : IsFull 4 opened
unfolding BtreeMap.get
opened-IsFull idx b h = ground arith

-- The range lies in two blocks, of which the first is fetched.
wrote_three : (apply_write outside 4 opened 3 three mount).0 ≡ returned 3
unfolding apply_write write_loop ensure_dirty init_from copy_chunk fetch_block fetch_placed
    ensure_addrs try_nodes pool_get connect_to refresh_addrs addr_map BtreeMap.get BtreeMap.insert
    HashMap.get HashMap.insert HashMap.remove
wrote_three = refl

abbrev after_write : OpenFile
after_write = (apply_write outside 4 opened 3 three mount).1

write-read_example :
    (◌≡◌ {A = ℕ} 3 (length three))
    × IsFull 4 after_write
    × (read_file outside 4 after_write 3 3 mount ≡ (returned three, mount))
    × ((p v : ℕ)
        → (ltb p 3 || leb 6 p) ≡ true
        → byte_at 4 opened p ≡ some v
        → byte_at 4 after_write p ≡ some v)
write-read_example =
    write-read outside 4 (omega arith) opened 3 three mount mount 3 opened-IsFull (omega arith)
      (omega arith) wrote_three

read_hole : (read_file outside 4 opened 2 5 mount).0 ≡ returned five_zeros
unfolding read_file read_loop read_piece fetch_block fetch_placed ensure_addrs try_nodes pool_get
    connect_to refresh_addrs addr_map BtreeMap.get HashMap.get HashMap.insert HashMap.remove
read_hole = refl

length-read_file_example : length five_zeros ≡ 5
length-read_file_example =
    length-read_file outside 4 opened 2 5 mount five_zeros (omega arith) (omega arith) read_hole

abbrev written : OpenFile
written = record opened { dirty = (0, 1 ∷ 2 ∷ 3 ∷ 4 ∷ []) ∷ [] }

abbrev mount_1 : Fs (Unit {0})
mount_1 = record mount { open_files = (1, written) ∷ [] }

publish-Leaves_example :
    Leaves outside all_replicas 1 written (publish outside primaries_only 1 mount_1)
unfolding HashMap.get
publish-Leaves_example = publish-Leaves outside primaries_only all_replicas 1 written mount_1 refl

publish_lost_example :
    ((publish outside all_replicas 1 mount_1).0 ≡ failed (store_unavailable "store-0"))
    × (publish outside all_replicas 1 (publish outside all_replicas 1 mount_1).1
        ≡ (returned tt, (publish outside all_replicas 1 mount_1).1))
unfolding HashMap.get HashMap.insert HashMap.remove new_idxs write_blocks write_placed write_one
    refresh_addrs addr_map pool_get connect_to BtreeMap.get from_status from_code
publish_lost_example =
    publish_lost outside all_replicas all_replicas 1 written mount_1 (node ∷ [])
      (store_unavailable "store-0") refl refl refl refl refl

abbrev create_in_root : Name → CreateReq
create_in_root n = record { parent_ino = 1; name = n; mode = 0o644; uid = 0; gid = 0 }

abbrev pub history : List Request
history = creates 5 (create_in_root (b'b' ∷ [])) ∷ mkdirs 6 (create_in_root (b'a' ∷ [])) ∷ []

abbrev pub hash : String → ℕ → ℕ
hash n seed = seed

abbrev pub served : MetaState
served = run hash "token" (new 1 0) history

abbrev pub two_entries : Tree Name InodeId
two_entries = (b'a' ∷ [], 3) ∷ (b'b' ∷ [], 2) ∷ []

pub root_entries : HashMap.get 1 served.dirs ≡ some two_entries
unfolding run step new create make_file mkdir make_dir alloc_ino alloc_fh HashMap.get HashMap.insert
    HashMap.update HashMap.remove BtreeMap.get BtreeMap.insert
root_entries = refl

abbrev pub with_listing : Env (Unit {0})
with_listing = record outside { read_dir = λ r w. (read_dir served r, w) }

list_dir-run_example :
    list_dir with_listing 3 1 mount ≡ (returned (map (dir_entry served) two_entries), mount)
unfolding is_utf8
list_dir-run_example =
    list_dir-run with_listing hash "token" 1 0 history 1 two_entries 3 mount
      ((refl, refl), ((refl, refl), tt)) (λ r w. refl) root_entries (omega arith)

rmdir-RmdirReply_example :
    RmdirReply served 1 (b'a' ∷ []) (reply_empty (rmdir served 1 (b'a' ∷ [])).0)
rmdir-RmdirReply_example = rmdir-RmdirReply served 1 (b'a' ∷ [])

unlink-UnlinkReply_example :
    UnlinkReply served 1 (b'b' ∷ []) (reply_empty (unlink "token" served 1 (b'b' ∷ [])).0)
unlink-UnlinkReply_example = unlink-UnlinkReply "token" served 1 (b'b' ∷ [])
