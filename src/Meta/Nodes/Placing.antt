-- ===== src/Meta/Nodes/Placing.antt =====
-- New blocks are placed on nodes that are up.
use dtmpfs.Prelude.{
  ℕ, ◌≡◌, refl, subst, String, true, none, some, List, [], ◌∷◌, Dict, map, length, min, keep_if,
  string_eq, arith, Bool-cases, inl, inr, ◌⊎◌,
}
use dtmpfs.Prelude.HashMap
use dtmpfs.Prelude.HashMap.{values, IsMap}
use dtmpfs.Common.Hash.Ranking.{length-pick_nodes}
use dtmpfs.Common.Id.{BlockKey, NodeId, InodeId, BlockIdx, BlockPlacement}
use dtmpfs.Common.Hash.{pick_nodes}
use dtmpfs.Common.Hash.Choosing.{Every, Every-pick_nodes}
use dtmpfs.Meta.State.{NodeInfo, MetaState, up, is_up, live_nodes, place, placement_of}

-- Each node is filed under its own name.
abbrev pub AreKeyed : Dict NodeId NodeInfo → Type 0
AreKeyed [] = Unit {0}
AreKeyed ((k, i) ∷ d) = (i.node_id ≡ k) × AreKeyed d

abbrev pub IsUp : Dict NodeId NodeInfo → NodeId → Type 0
IsUp nodes n = (i : NodeInfo) × (HashMap.get n nodes ≡ some i) × (i.status ≡ up)

IsUp-behind :
    (k : NodeId) (i : NodeInfo) (d : Dict NodeId NodeInfo) (n : NodeId)
    → HashMap.get k d ≡ none
    → IsUp d n
    → IsUp ((k, i) ∷ d) n
unfolding HashMap.get
IsUp-behind k i d n new (j, e, u) = (j, ground (arith, string_eq.beq_iff k n), u)

Every-behind :
    (k : NodeId) (i : NodeInfo) (d : Dict NodeId NodeInfo) (ns : List NodeId)
    → HashMap.get k d ≡ none
    → Every (IsUp d) ns
    → Every (IsUp ((k, i) ∷ d)) ns
Every-behind k i d [] new e = tt
Every-behind k i d (n ∷ ns) new e = (IsUp-behind k i d n new e.0, Every-behind k i d ns new e.1)

abbrev live_in : Dict NodeId NodeInfo → List NodeId
live_in d = map (λ n. n.node_id) (keep_if is_up (values d))

IsUp-front :
    (k : NodeId) (i : NodeInfo) (d : Dict NodeId NodeInfo)
    → i.node_id ≡ k
    → is_up i ≡ true
    → IsUp ((k, i) ∷ d) i.node_id
unfolding HashMap.get
IsUp-front k i d same h = (i, ground (arith, string_eq.beq_iff k i.node_id), ground arith)

live_in-Every : (d : Dict NodeId NodeInfo) → IsMap d → AreKeyed d → Every (IsUp d) (live_in d)
live_in-Every [] m k = tt
live_in-Every ((k, i) ∷ d) m keyed =
    let rest = Every-behind k i d (live_in d) m.0 (live_in-Every d m.1 keyed.1) in
    elim (Bool-cases (is_up i)) [
      | inl h ↦ rw h (IsUp-front k i d keyed.0 h, rest)
      | inr h ↦ rw h rest
    ]

-- A placement on `count` nodes, of which `P` holds.
abbrev pub PlacedOn : (NodeId → Type 0) → ℕ → BlockPlacement → Type 0
PlacedOn P count p =
    ((count ≡ 0) × (p.primary ≡ "?") × (p.replicas ≡ []))
    ⊎ (Every P (p.primary ∷ p.replicas) × (length (p.primary ∷ p.replicas) ≡ count))

placement_of-PlacedOn :
    (P : NodeId → Type 0) (ns : List NodeId) → Every P ns → PlacedOn P (length ns) (placement_of ns)
unfolding placement_of
placement_of-PlacedOn P [] e = inl (refl, refl, refl)
placement_of-PlacedOn P (n ∷ ns) e = inr (e, refl)

-- As many nodes as the replication factor says, or all that are up.
abbrev pub replica_count : MetaState → ℕ
replica_count s = min s.replication_factor (length (live_nodes s))

pub place-PlacedOn :
    (xxh3 : String → ℕ → ℕ) (s : MetaState) (ino : InodeId) (idx : BlockIdx)
    → IsMap s.nodes
    → AreKeyed s.nodes
    → PlacedOn (IsUp s.nodes) (replica_count s) (place xxh3 s ino idx)
unfolding place live_nodes
place-PlacedOn xxh3 s ino idx m keyed =
    let key : BlockKey = record { ino = ino; block_idx = idx; generation = 0 } in
    let live = live_in s.nodes in
    let r = s.replication_factor in
    subst (λ n. PlacedOn (IsUp s.nodes) n (placement_of (pick_nodes xxh3 key live r)))
      (length-pick_nodes xxh3 key live r)
      (placement_of-PlacedOn (IsUp s.nodes) (pick_nodes xxh3 key live r)
        (Every-pick_nodes (IsUp s.nodes) xxh3 key live r (live_in-Every s.nodes m keyed)))
