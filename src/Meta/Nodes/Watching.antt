-- ===== src/Meta/Nodes/Watching.antt =====
-- The watcher's loop, node by node.
use dtmpfs.Prelude.{
  ℕ, ◌-◌, ◌≡◌, refl, Bool, false, Option, none, some, [], ◌∷◌, Dict, ltb, if◌then◌else◌, ◌==◌, ◌&&◌,
  string_eq, arith,
}
use dtmpfs.Prelude.HashMap
use dtmpfs.Prelude.HashMap.{map_option, IsMap}
use dtmpfs.Common.Id.{NodeId}
use dtmpfs.Meta.State.{Instant, NodeInfo, MetaState, mark_down, watch_one, watch, watcher_tick}

-- Whether the last heartbeat is more than the limit ago. A node without one is left alone.
abbrev pub silent : Instant → ℕ → Option Instant → Bool
silent now dead_after none = false
silent now dead_after (some last) = ltb dead_after (now - last)

module _ (now : Instant) (dead_after : ℕ) where
  watch_one-get :
      (id k : NodeId) (last : Instant) (nodes : Dict NodeId NodeInfo)
      → HashMap.get id (watch_one now dead_after (k, last) nodes) ≡ (
          if ltb dead_after (now - last) && k == id
          then map_option mark_down (HashMap.get id nodes)
          else HashMap.get id nodes)
  unfolding watch_one
  watch_one-get id k last nodes = ground (arith, HashMap.get-update k id mark_down nodes)

  watch-get :
      (id : NodeId) (beats : Dict NodeId Instant) (nodes : Dict NodeId NodeInfo)
      → IsMap beats
      → HashMap.get id (watch now dead_after beats nodes) ≡ (
          if silent now dead_after (HashMap.get id beats)
          then map_option mark_down (HashMap.get id nodes)
          else HashMap.get id nodes)
  unfolding watch HashMap.get
  watch-get id [] nodes m = refl
  watch-get id ((k, last) ∷ beats) nodes m = ground (
    arith,
    watch-get id beats (watch_one now dead_after (k, last) nodes) m.1,
    watch_one-get id k last nodes,
    string_eq.beq_iff k id,
  )

-- Where each node has one last heartbeat: one turn of the watcher marks exactly those nodes down
-- whose last heartbeat is more than the limit ago, in whatever order it visits them, and leaves
-- every other node as it was.
pub watcher_tick-get :
    (now : Instant) (dead_after : ℕ) (s : MetaState) (id : NodeId)
    → IsMap s.last_heartbeat
    → HashMap.get id (watcher_tick now dead_after s).nodes ≡ (
        if silent now dead_after (HashMap.get id s.last_heartbeat)
        then map_option mark_down (HashMap.get id s.nodes)
        else HashMap.get id s.nodes)
unfolding watcher_tick
watcher_tick-get now dead_after s id m = watch-get now dead_after id s.last_heartbeat s.nodes m
