-- ===== src/Meta/Steps/Placements.antt =====
-- The tables of storage nodes through any run: each node is filed once, under its name, and a block
-- that is placed then goes to nodes that are up.
use dtmpfs.Prelude.{
  ℕ, ◌-◌, refl, sym, subst, String, List, [], ◌∷◌, Dict, arith, nat_eq, list_eq, string_eq,
  Bool-cases, inl, inr, ltb,
}
use dtmpfs.Prelude.Ord.{nat_ord, list_ord}
use dtmpfs.Prelude.HashMap
use dtmpfs.Prelude.HashMap.{IsMap, insert-IsMap, update-IsMap}
use dtmpfs.Common.Id.{InodeId, BlockIdx, NodeId}
use dtmpfs.Meta.State.{
  Instant, NodeInfo, MetaState, mark_down, watch_one, watch, watcher_tick, place, new,
}
use dtmpfs.Meta.Namespace.{
  create, mkdir, unlink, rmdir, make_file, make_dir, unlink_inode, remove_dir,
}
use dtmpfs.Meta.Handles.{open_handle}
use dtmpfs.Meta.Messages.{HeartbeatReq}
use dtmpfs.Meta.Nodes.{heartbeat_node, reported}
use dtmpfs.Meta.Nodes.Placing.{AreKeyed, IsUp, PlacedOn, place-PlacedOn, replica_count}
use dtmpfs.Meta.Steps.{
  Request, sets_attr, creates, mkdirs, unlinks, rmdirs, renames, opens, closes, allocates,
  heartbeats, ticks, step, run,
}
use dtmpfs.Meta.Steps.SameNodes.{
  SameNodes, rename-SameNodes, set_attr-SameNodes, close-SameNodes, allocate-SameNodes,
}

pub record AreFiled (s : MetaState) : Type 0 where
  pub one_entry : IsMap s.nodes
  pub keyed : AreKeyed s.nodes
  pub one_beat : IsMap s.last_heartbeat

SameNodes-AreFiled : (s s' : MetaState) → SameNodes s s' → AreFiled s → AreFiled s'
SameNodes-AreFiled s s' p f = record {
  one_entry = subst IsMap (sym p.nodes) f.one_entry;
  keyed = subst AreKeyed (sym p.nodes) f.keyed;
  one_beat = subst IsMap (sym p.beats) f.one_beat;
}

remove-AreKeyed :
    (k : NodeId) (d : Dict NodeId NodeInfo) → AreKeyed d → AreKeyed (HashMap.remove k d)
unfolding HashMap.remove
remove-AreKeyed k [] m = tt
remove-AreKeyed k ((j, i) ∷ d) m = ground (arith, remove-AreKeyed k d m.1)

insert-AreKeyed :
    (i : NodeInfo) (d : Dict NodeId NodeInfo) → AreKeyed d → AreKeyed (HashMap.insert i.node_id i d)
unfolding HashMap.insert
insert-AreKeyed i d m = (refl, remove-AreKeyed i.node_id d m)

down-AreKeyed :
    (k : NodeId) (d : Dict NodeId NodeInfo) → AreKeyed d → AreKeyed (HashMap.update k mark_down d)
unfolding HashMap.update
down-AreKeyed k [] m = tt
down-AreKeyed k ((j, i) ∷ d) m = ground (arith, down-AreKeyed k d m.1)

watch-AreFiled :
    (now : Instant) (dead_after : ℕ) (beats : Dict NodeId Instant) (nodes : Dict NodeId NodeInfo)
    → IsMap nodes
    → AreKeyed nodes
    → IsMap (watch now dead_after beats nodes) × AreKeyed (watch now dead_after beats nodes)
unfolding watch watch_one
watch-AreFiled now dead_after [] nodes m k = (m, k)
watch-AreFiled now dead_after ((id, last) ∷ beats) nodes m k =
    elim (Bool-cases (ltb dead_after (now - last))) [
      | inl e ↦ rw e (
          watch-AreFiled now dead_after beats (HashMap.update id mark_down nodes)
            (update-IsMap id mark_down nodes m) (down-AreKeyed id nodes k))
      | inr e ↦ rw e (watch-AreFiled now dead_after beats nodes m k)
    ]

watcher_tick-AreFiled :
    (now : Instant) (dead_after : ℕ) (s : MetaState)
    → AreFiled s
    → AreFiled (watcher_tick now dead_after s)
unfolding watcher_tick
watcher_tick-AreFiled now dead_after s f =
    let (m, k) = watch-AreFiled now dead_after s.last_heartbeat s.nodes f.one_entry f.keyed in
    record { one_entry = m; keyed = k; one_beat = f.one_beat }

pub heartbeat_node-AreFiled :
    (now : Instant) (s : MetaState) (r : HeartbeatReq)
    → AreFiled s
    → AreFiled (heartbeat_node now s r).1
unfolding heartbeat_node
heartbeat_node-AreFiled now s r f = record {
  one_entry = insert-IsMap r.node_id (reported r) s.nodes f.one_entry;
  keyed = insert-AreKeyed (reported r) s.nodes f.keyed;
  one_beat = insert-IsMap r.node_id now s.last_heartbeat f.one_beat;
}

module _ (xxh3 : String → ℕ → ℕ) (token : String) where
  -- The requests that leave the tables alone in one step.
  step-AreFiled : (s : MetaState) (r : Request) → AreFiled s → AreFiled (step xxh3 token s r)
  unfolding step create make_file mkdir make_dir unlink unlink_inode rmdir remove_dir open_handle
  step-AreFiled s (sets_attr now r) f = SameNodes-AreFiled s _ (set_attr-SameNodes token now s r) f
  step-AreFiled s (creates now r) f =
      SameNodes-AreFiled s _ (record { nodes = ground arith; beats = ground arith }) f
  step-AreFiled s (mkdirs now r) f =
      SameNodes-AreFiled s _ (record { nodes = ground arith; beats = ground arith }) f
  step-AreFiled s (unlinks parent name) f =
      SameNodes-AreFiled s _ (record { nodes = ground arith; beats = ground arith }) f
  step-AreFiled s (rmdirs parent name) f =
      SameNodes-AreFiled s _ (record { nodes = ground arith; beats = ground arith }) f
  step-AreFiled s (renames r) f = SameNodes-AreFiled s _ (rename-SameNodes token s r) f
  step-AreFiled s (opens r o) f =
      SameNodes-AreFiled s _ (record { nodes = ground arith; beats = ground arith }) f
  step-AreFiled s (closes now r) f = SameNodes-AreFiled s _ (close-SameNodes now s r) f
  step-AreFiled s (allocates ino idxs) f =
      SameNodes-AreFiled s _ (allocate-SameNodes xxh3 s ino idxs) f
  step-AreFiled s (heartbeats now r) f = heartbeat_node-AreFiled now s r f
  step-AreFiled s (ticks now dead_after) f = watcher_tick-AreFiled now dead_after s f

  pub run-AreFiled :
      (s : MetaState) (rs : List Request) → AreFiled s → AreFiled (run xxh3 token s rs)
  unfolding run
  run-AreFiled s [] f = f
  run-AreFiled s (r ∷ rs) f = run-AreFiled (step xxh3 token s r) rs (step-AreFiled s r f)

pub new-AreFiled : (replication_factor : ℕ) (now : Instant) → AreFiled (new replication_factor now)
unfolding new
new-AreFiled replication_factor now = record { one_entry = tt; keyed = tt; one_beat = tt }

-- Whatever requests a server has served since its start, a block that it places now goes to nodes
-- that it holds for up, as many as its replication factor says or all of them; where that number
-- is 0, the placement names the node "?" and no other.
pub run-place :
    (xxh3 : String → ℕ → ℕ) (token : String) (replication_factor : ℕ) (start : Instant)
    (rs : List Request) (ino : InodeId) (idx : BlockIdx)
    → let s = run xxh3 token (new replication_factor start) rs in
      PlacedOn (IsUp s.nodes) (replica_count s) (place xxh3 s ino idx)
run-place xxh3 token replication_factor start rs ino idx =
    let f = run-AreFiled xxh3 token (new replication_factor start) rs (new-AreFiled _ start) in
    place-PlacedOn xxh3 _ ino idx f.one_entry f.keyed
