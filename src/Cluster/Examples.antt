-- ===== src/Cluster/Examples.antt =====
-- A cluster of one storage node and two mounts with blocks of four bytes, and the theorems about
-- it at concrete inputs.
use dtmpfs.Prelude.{
  ℕ, ◌≡◌, refl, subst, Option, none, some, [], ◌∷◌, String, arith, nat_eq, string_eq, list_eq, inl,
}
use dtmpfs.Prelude.Ord.{nat_ord, list_ord}
use dtmpfs.Prelude.HashMap
use dtmpfs.Prelude.BtreeMap
use dtmpfs.Common.Id.{NodeId}
use dtmpfs.Store.{Bytes}
use dtmpfs.Store
use dtmpfs.Meta.State.{MetaState, new}
use dtmpfs.Meta.Messages.{CreateReq, HeartbeatReq, url_of}
use dtmpfs.Meta.Namespace
use dtmpfs.Meta.Nodes.{heartbeat_node, list_nodes}
use dtmpfs.Client.{OpenFile, Env, Fs, returned}
use dtmpfs.Client.Publish
use dtmpfs.Client.Publish.{fsync_path}
use dtmpfs.Meta.Blocks
use dtmpfs.Meta.Handles
use dtmpfs.Client.{refresh_addrs, addr_map, connect_to, insert_locs, pool_get, install}
use dtmpfs.Meta.Messages.{placement_to_block_loc, node_info_to_proto}
use dtmpfs.Meta.State.{place, Inode, placement_of, live_nodes, alloc_fh, alloc_ino, build_attr}
use dtmpfs.Cluster.{store_write}
use dtmpfs.Common.Error.{from_code, from_status}
use dtmpfs.Common.Hash.Sorting.{insert_desc, sort_desc}
use dtmpfs.Common.Hash.{pick_nodes, score, scored}
use dtmpfs.Common.Id.{bump, placement_key}
use dtmpfs.Client.Kernel.{answered}
use dtmpfs.Client.Kernel.Opening.{open_file}
use dtmpfs.Cluster.{Caches, Cluster, cluster_env}
use dtmpfs.Cluster.CloseToOpen.{IsWriting, Sees, fsync-Sees}

abbrev pub no_caches : Caches (Unit {0})
no_caches = record {
  block_get = λ ino g idx c. (none, c);
  block_insert = λ ino g idx b c. c;
  block_prune = λ ino g c. c;
  attr_get = λ ino c. (none, c);
  attr_insert = λ ino a c. c;
}

abbrev pub hash : String → ℕ → ℕ
hash n seed = seed

abbrev pub env : Env (Cluster (Unit {0}))
env = cluster_env no_caches hash "token"

-- Every node is reached under its own name.
abbrev addr_of : NodeId → String
addr_of n = url_of n

abbrev pub beat : HeartbeatReq
beat = record { node_id = "a"; addr = "a"; used_bytes = 0; capacity_bytes = 100; epoch_s = 0 }

abbrev pub request : CreateReq
request = record { parent_ino = 1; name = b'f' ∷ []; mode = 0o644; uid = 0; gid = 0 }

abbrev pub meta : MetaState
meta = (Namespace.create 5 (heartbeat_node 0 (new 1 0) beat).1 request).1

abbrev pub cluster : Cluster (Unit {0})
cluster = record {
  meta = meta;
  stores = (url_of "a", Store.new "a" "m" 100) ∷ [];
  sent = [];
  clock = 5;
  caches = tt;
}

abbrev four : Bytes
four = 1 ∷ 2 ∷ 3 ∷ 4 ∷ []

abbrev written : OpenFile
written = record {
  ino = 2;
  generation = 0;
  block_map = [];
  dirty = (0, four) ∷ [];
  size_hint = 4;
  flags = 2;
}

abbrev pub writer : Fs (Cluster (Unit {0}))
writer = record {
  clients = [];
  addrs = [];
  open_files = (1, written) ∷ [];
  tasks = [];
  world = cluster;
}

abbrev reader : Fs (Cluster (Unit {0}))
reader = record {
  clients = [];
  addrs = [];
  open_files = [];
  tasks = [];
  world = (fsync_path env 1 writer).1.world;
}

synced : (fsync_path env 1 writer).0 ≡ returned tt
unfolding fsync_path HashMap.get BtreeMap.get Blocks.allocate refresh_addrs Namespace.create
    heartbeat_node new HashMap.insert BtreeMap.insert placement_to_block_loc list_nodes place
    store_write Store.write_block Store.new Handles.close HashMap.update Publish.allocate
    Publish.finish Publish.new_idxs Publish.publish Publish.publish_file Publish.send
    Publish.write_all Publish.write_blocks Publish.write_one Publish.write_placed
    Publish.write_replicas addr_map connect_to insert_locs pool_get from_code from_status
    insert_desc sort_desc pick_nodes score scored bump placement_key Blocks.allocate_all
    Blocks.allocate_one Blocks.placement_at Handles.close_inode Handles.published node_info_to_proto
    Namespace.make_file alloc_fh alloc_ino build_attr live_nodes placement_of HashMap.remove
    Store.is_stale Store.over_budget Store.proto_key_to_block_key Store.store_block Store.write_key
synced = refl

opened : (open_file env 2 0 reader).0 ≡ answered (record { fh = 2; flags = 0 })
unfolding fsync_path HashMap.get BtreeMap.get Blocks.allocate refresh_addrs Namespace.create
    heartbeat_node new HashMap.insert BtreeMap.insert placement_to_block_loc list_nodes place
    store_write Store.write_block Store.new Handles.close HashMap.update Publish.allocate
    Publish.finish Publish.new_idxs Publish.publish Publish.publish_file Publish.send
    Publish.write_all Publish.write_blocks Publish.write_one Publish.write_placed
    Publish.write_replicas addr_map connect_to insert_locs pool_get from_code from_status
    insert_desc sort_desc pick_nodes score scored bump placement_key Blocks.allocate_all
    Blocks.allocate_one Blocks.placement_at Handles.close_inode Handles.published node_info_to_proto
    Namespace.make_file alloc_fh alloc_ino build_attr live_nodes placement_of HashMap.remove
    Store.is_stale Store.over_budget Store.proto_key_to_block_key Store.store_block Store.write_key
    open_file Handles.open_file install
opened = refl

writing : IsWriting addr_of 1 written writer
unfolding HashMap.get BtreeMap.get HashMap.insert HashMap.update HashMap.remove list_nodes
    heartbeat_node node_info_to_proto Namespace.create Namespace.make_file BtreeMap.insert alloc_ino
    alloc_fh new
writing = record {
  opened = refl;
  written = refl;
  sorted = (tt, tt);
  routes = record { channels = λ n c e. ground arith; addresses = λ n a e. ground arith };
  listed = (refl, tt);
  agrees = λ idx p e. ground arith;
  owner = λ h e. ground arith;
}

abbrev SortedIn : Option Inode → Type 0
SortedIn none = Unit {0}
SortedIn (some i) = BtreeMap.IsSorted i.blocks

fsync-Sees_example :
    Sees addr_of no_caches hash "token" 4 written 0 four (open_file env 2 0 reader).1 2
unfolding fsync_path HashMap.get BtreeMap.get Blocks.allocate refresh_addrs Namespace.create
    heartbeat_node new HashMap.insert BtreeMap.insert placement_to_block_loc list_nodes place
    store_write Store.write_block Store.new Handles.close HashMap.update Publish.allocate
    Publish.finish Publish.new_idxs Publish.publish Publish.publish_file Publish.send
    Publish.write_all Publish.write_blocks Publish.write_one Publish.write_placed
    Publish.write_replicas addr_map connect_to insert_locs pool_get from_code from_status
    insert_desc sort_desc pick_nodes score scored bump placement_key Blocks.allocate_all
    Blocks.allocate_one Blocks.placement_at Handles.close_inode Handles.published node_info_to_proto
    Namespace.make_file alloc_fh alloc_ino build_attr live_nodes placement_of HashMap.remove
    Store.is_stale Store.over_budget Store.proto_key_to_block_key Store.store_block Store.write_key
fsync-Sees_example =
    fsync-Sees addr_of no_caches hash "token" 4 0 1 written writer reader
      (record { fh = 2; flags = 0 }) 0 four writing synced (inl refl) (refl, refl)
      (record { channels = λ n c e. ground arith; addresses = λ n a e. ground arith }) (refl, tt)
      (λ i e. subst SortedIn e (tt, tt)) (λ c e. ground arith) opened
