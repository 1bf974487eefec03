-- ===== src/Common/Hash/Choosing.antt =====
-- `pick_nodes` chooses among the nodes it is given.
use dtmpfs.Prelude.{
  ℕ, zero, suc, List, [], ◌∷◌, map, take, min, length, leb, String, Bool-cases, inl, inr,
}
use dtmpfs.Common.Id.{NodeId, BlockKey, placement_key}
use dtmpfs.Common.Hash.Sorting.{Scored, insert_desc, sort_desc}
use dtmpfs.Common.Hash.{scored, pick_nodes}

-- What holds of each node of a list, and of each node of a list with scores.
abbrev pub Every : (NodeId → Type 0) → List NodeId → Type 0
Every P [] = Unit {0}
Every P (n ∷ ns) = P n × Every P ns

module _ (P : NodeId → Type 0) where
  abbrev Scores : List Scored → Type 0
  Scores [] = Unit {0}
  Scores (x ∷ xs) = P x.1 × Scores xs

  Scores-insert_desc :
      (x : Scored) (xs : List Scored) → P x.1 → Scores xs → Scores (insert_desc x xs)
  unfolding insert_desc
  Scores-insert_desc x [] p e = (p, tt)
  Scores-insert_desc x (y ∷ ys) p e = elim (Bool-cases (leb y.0 x.0)) [
    | inl h ↦ rw h (p, e)
    | inr h ↦ rw h (e.0, Scores-insert_desc x ys p e.1)
  ]

  Scores-sort_desc : (xs : List Scored) → Scores xs → Scores (sort_desc xs)
  unfolding sort_desc
  Scores-sort_desc [] e = tt
  Scores-sort_desc (x ∷ xs) e = Scores-insert_desc x (sort_desc xs) e.0 (Scores-sort_desc xs e.1)

  Scores-take : (n : ℕ) (xs : List Scored) → Scores xs → Scores (take n xs)
  Scores-take zero xs e = tt
  Scores-take (suc n) [] e = tt
  Scores-take (suc n) (x ∷ xs) e = (e.0, Scores-take n xs e.1)

  Scores-map : (xs : List Scored) → Scores xs → Every P (map (λ s. s.1) xs)
  Scores-map [] e = tt
  Scores-map (x ∷ xs) e = (e.0, Scores-map xs e.1)

  Scores-scored :
      (xxh3 : String → ℕ → ℕ) (pk : ℕ) (ns : List NodeId) → Every P ns → Scores (scored xxh3 pk ns)
  unfolding scored
  Scores-scored xxh3 pk [] e = tt
  Scores-scored xxh3 pk (n ∷ ns) e = (e.0, Scores-scored xxh3 pk ns e.1)

  pub Every-pick_nodes :
      (xxh3 : String → ℕ → ℕ) (key : BlockKey) (ns : List NodeId) (r : ℕ)
      → Every P ns
      → Every P (pick_nodes xxh3 key ns r)
  unfolding pick_nodes
  Every-pick_nodes xxh3 key [] r e = tt
  Every-pick_nodes xxh3 key (n ∷ ns) r e =
      let xs = scored xxh3 (placement_key key) (n ∷ ns) in
      let sorted = Scores-sort_desc xs (Scores-scored xxh3 (placement_key key) (n ∷ ns) e) in
      Scores-map _ (Scores-take (min r (length (n ∷ ns))) (sort_desc xs) sorted)
