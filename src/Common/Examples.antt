-- ===== src/Common/Examples.antt =====
-- The placement theorems at concrete inputs.
use dtmpfs.Prelude.{
  if◌then◌else◌, ◌==◌, string_eq, some, ℕ, zero, suc, String, ◌≡◌, refl, List, [], ◌∷◌, arith,
}
use Prim.Native.String.{len}
use text.Mathlib.TextEquality.{eq_iff}
use dtmpfs.Prelude.{◌+◌, none}
use dtmpfs.Common.Error.{Result, done}
use dtmpfs.Common.Auth.{Metadata}
use dtmpfs.Common.Id.{NodeId, BlockKey, placement_key}
use dtmpfs.Common.Hash.{pick_nodes, score, scored}
use dtmpfs.Common.Hash.Ranking.{IsBest, pick_nodes-IsBest}
use mathlib.Core.List.Perm
use dtmpfs.Common.Hash.Disruption.{pick_nodes-without}
use dtmpfs.Common.Hash.Ordering.{Distinct, Distinct-pair, IsChoice, pick_nodes-IsChoice}

-- A hash that looks at the length of the name only.
abbrev by_length : String → ℕ → ℕ
by_length n seed = elim seed [ zero ↦ len n | suc k ↦ 0 ]

abbrev key : BlockKey
key = record { ino = 42; block_idx = 0; generation = 0 }

abbrev nodes : List NodeId
nodes = "a" ∷ "bbb" ∷ "cc" ∷ []

two_best : pick_nodes by_length key nodes 2 ≡ "bbb" ∷ "cc" ∷ []
unfolding pick_nodes
two_best = refl

pick_nodes-IsBest_example : IsBest by_length key nodes (pick_nodes by_length key nodes 2)
pick_nodes-IsBest_example = pick_nodes-IsBest by_length key nodes 2

abbrev rank : NodeId → ℕ
rank = score by_length (placement_key key)

distinct : Distinct rank ("a" ∷ "bbb" ∷ [])
unfolding score placement_key
distinct = Distinct-pair rank "a" "bbb" (λ e. ground (arith, e))

two-IsChoice : IsChoice by_length key ("a" ∷ "bbb" ∷ []) 1 ("bbb" ∷ [])
unfolding scored score placement_key
two-IsChoice = record {
  sorted = (rank "bbb", "bbb") ∷ (rank "a", "a") ∷ [];
  perm = Perm.swap _ _ _;
  falls = ((omega arith, tt), (tt, tt));
  chosen_eq = refl;
}

one-IsChoice : IsChoice by_length key ("bbb" ∷ []) 1 ("bbb" ∷ [])
unfolding scored
one-IsChoice = record {
  sorted = (rank "bbb", "bbb") ∷ [];
  perm = Perm.refl _;
  falls = (tt, tt);
  chosen_eq = refl;
}

pick_nodes-IsChoice_example :
    ◌≡◌ {A = List NodeId} ("bbb" ∷ []) (pick_nodes by_length key ("a" ∷ "bbb" ∷ []) 1)
pick_nodes-IsChoice_example =
    pick_nodes-IsChoice by_length key ("a" ∷ "bbb" ∷ []) 1 ("bbb" ∷ []) distinct two-IsChoice

pick_nodes-without_example :
    ((◌≡◌ {A = List NodeId} ("bbb" ∷ []) (pick_nodes by_length key ("a" ∷ "bbb" ∷ []) 1)))
    × (◌≡◌ {A = List NodeId} ("bbb" ∷ []) ("bbb" ∷ []))
pick_nodes-without_example =
    pick_nodes-without by_length key "a" [] ("bbb" ∷ []) 1 ("bbb" ∷ []) ("bbb" ∷ []) distinct
      two-IsChoice one-IsChoice (λ e. ground (arith, eq_iff "a" "bbb"), tt)

abbrev count_up : ℕ → Result ℕ × ℕ
count_up n = (done n, n + 1)

-- Header values where one text cannot be parsed and one cannot be read.
abbrev plain : Metadata
plain = record {
  Value = String;
  parse = λ t. if t == "\n" then none else some t;
  to_str = λ v. if v == "ä" then none else some v;
}
