-- ===== src/Meta/OrderExamples.antt =====
-- Placement by tables of nodes that are listed in two orders, at a concrete input.
use Prim.Native.String.{len}
use mathlib.Core.List.Perm
use dtmpfs.Prelude.{ℕ, zero, suc, String, ◌≡◌, [], ◌∷◌, Dict, arith}
use dtmpfs.Common.Id.{NodeId, placement_key}
use dtmpfs.Common.Hash.{score}
use dtmpfs.Common.Hash.Ordering.{Distinct, Distinct-pair}
use dtmpfs.Meta.State.{MetaState, NodeInfo, new, up, live_nodes, place}
use dtmpfs.Meta.Nodes.Ordering.{placed_key, place-perm}

-- A hash that looks at the length of the name only.
abbrev by_length : String → ℕ → ℕ
by_length n seed = elim seed [ zero ↦ len n | suc k ↦ 0 ]

abbrev node : NodeId → NodeInfo
node n = record { node_id = n; addr = n; ram_used = 0; ram_total = 9; status = up }

abbrev listed : Dict NodeId NodeInfo
listed = ("a", node "a") ∷ ("bbb", node "bbb") ∷ []

abbrev turned : Dict NodeId NodeInfo
turned = ("bbb", node "bbb") ∷ ("a", node "a") ∷ []

abbrev server : MetaState
server = record (new 2 0) { nodes = listed }

abbrev rank : NodeId → ℕ
rank = score by_length (placement_key (placed_key 42 0))

distinct : Distinct rank (live_nodes server)
unfolding live_nodes score placement_key
distinct = Distinct-pair rank "a" "bbb" (λ e. ground (arith, e))

place-perm_example :
    place by_length server 42 0 ≡ place by_length (record server { nodes = turned }) 42 0
place-perm_example = place-perm by_length server turned 42 0 (Perm.swap _ _ _) distinct
