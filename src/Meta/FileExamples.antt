-- ===== src/Meta/FileExamples.antt =====
-- The theorems on creating, shortening and placing files, and on the storage nodes, at concrete inputs.
use dtmpfs.Prelude.{
  List, ℕ, ◌≡◌, ◌+◌, ◌*◌, ◌^◌, refl, String, none, some, [], ◌∷◌, arith, nat_eq, string_eq,
  if◌then◌else◌,
}
use dtmpfs.Prelude.HashMap
use dtmpfs.Common.Id.{BlockPlacement, placement_key}
use dtmpfs.Common.Hash.{pick_nodes, scored, score}
use dtmpfs.Common.Hash.Sorting.{sort_desc, insert_desc}
use dtmpfs.Prelude.HashMap.{map_option}
use dtmpfs.Meta.State.{
  MetaState, Inode, new, place, live_nodes, placement_of, watcher_tick, watch, watch_one, mark_down,
}
use dtmpfs.Meta.Messages.{CreateReq, SetAttrReq, HeartbeatReq}
use dtmpfs.Meta.Namespace.{create, new_file}
use dtmpfs.Meta.Namespace.Creating.{Creates, create-Creates}
use dtmpfs.Meta.Blocks.{allocate}
use dtmpfs.Meta.Blocks.Allocating.{Allocates, allocate-Allocates}
use dtmpfs.Meta.Steps.Trees.{new-IsTree}
use dtmpfs.Meta.Steps.{Request, heartbeats, ticks, step, run}
use dtmpfs.Meta.Steps.Placements.{run-place}
use dtmpfs.Meta.Nodes.Placing.{IsUp, PlacedOn, replica_count}
use dtmpfs.Meta.Nodes.Watching.{silent, watcher_tick-get}
use dtmpfs.Meta.Nodes.{heartbeat_node}

abbrev hash : String → ℕ → ℕ
hash n seed = seed

abbrev create_a : CreateReq
create_a = record { parent_ino = 1; name = b'a' ∷ []; mode = 0o644; uid = 0; gid = 0 }

start-counter : (new 1 0).next_ino ≡ 2
unfolding new
start-counter = refl

create-Creates_example : Creates 5 (new 1 0) create_a (create 5 (new 1 0) create_a)
create-Creates_example =
    create-Creates 5 (new 1 0) create_a (new-IsTree 1 0) (omega (arith, start-counter))

abbrev on_0 : BlockPlacement
on_0 = record { primary = "store-0"; replicas = [] }

abbrev large : Inode
large = record (new_file 5 2 create_a) {
  size = 3 * 2 ^ 20;
  blocks = (0, on_0) ∷ (1, on_0) ∷ (2, on_0) ∷ [];
}

abbrev one_large : MetaState
one_large = record (new 1 0) { inodes = (2, large) ∷ [] }

abbrev shorten : SetAttrReq
shorten = record {
  ino = 2;
  size = some (2 ^ 20 + 1);
  mode = none;
  uid = none;
  gid = none;
  atime_s = none;
  atime_ns = none;
  mtime_s = none;
  mtime_ns = none;
}

allocate-Allocates_example :
    Allocates hash 2 one_large (1 ∷ 5 ∷ []) (allocate hash one_large 2 (1 ∷ 5 ∷ []))
unfolding HashMap.get
allocate-Allocates_example = allocate-Allocates hash 2 one_large (1 ∷ 5 ∷ []) refl

abbrev beat : String → HeartbeatReq
beat n = record { node_id = n; addr = n; used_bytes = 0; capacity_bytes = 10; epoch_s = 0 }

abbrev two_beats : List Request
two_beats = heartbeats 10 (beat "store-0") ∷ heartbeats 90 (beat "store-1") ∷ ticks 100 50 ∷ []

placed_on_store_1 :
    place hash (run hash "token" (new 2 0) two_beats) 2 0
    ≡ record { primary = "store-1"; replicas = [] }
unfolding place run step new heartbeat_node watcher_tick watch watch_one live_nodes placement_of
    pick_nodes sort_desc insert_desc scored score placement_key HashMap.get HashMap.insert
    HashMap.remove HashMap.update
placed_on_store_1 = refl

run-place_example :
    PlacedOn
      (IsUp (run hash "token" (new 2 0) two_beats).nodes)
      (replica_count (run hash "token" (new 2 0) two_beats))
      (place hash (run hash "token" (new 2 0) two_beats) 2 0)
run-place_example = run-place hash "token" 2 0 two_beats 2 0

abbrev one_beat : MetaState
one_beat = (heartbeat_node 10 (new 2 0) (beat "store-0")).1

watcher_tick-get_example : HashMap.get "store-0" (watcher_tick 100 50 one_beat).nodes ≡ (
    if silent 100 50 (HashMap.get "store-0" one_beat.last_heartbeat)
    then map_option mark_down (HashMap.get "store-0" one_beat.nodes)
    else HashMap.get "store-0" one_beat.nodes)
unfolding heartbeat_node new HashMap.insert HashMap.remove HashMap.get
watcher_tick-get_example = watcher_tick-get 100 50 one_beat "store-0" (refl, tt)
