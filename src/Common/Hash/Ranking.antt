-- ===== src/Common/Hash/Ranking.antt =====
-- What `pick_nodes` chooses: the best scores, each node as often as it is listed.
use mathlib.Core.List.{Perm, map-append}
use mathlib.Core.List.Perm
use dtmpfs.Prelude.{
  ℕ, zero, suc, String, ◌≡◌, refl, sym, ap, subst, List, [], ◌∷◌, ◌++◌, map, arith, length, take,
  drop, min, length-take, length-map, take-append-drop,
}
use dtmpfs.Common.Id.{NodeId, BlockKey, placement_key}
use dtmpfs.Common.Hash.Sorting.{
  Scored, sort_desc, IsDesc, Above, sort_desc-IsDesc, sort_desc-perm, length-sort_desc,
  IsDesc-append,
}
use dtmpfs.Common.Hash.{scored, pick_nodes}

module _ (xxh3 : String → ℕ → ℕ) where
  -- The chosen nodes and the others, with their scores, in the order of the scores.
  abbrev pub ranked : BlockKey → List NodeId → List Scored
  ranked key nodes = sort_desc (scored xxh3 (placement_key key) nodes)

  pub pick_nodes-ranked :
      (key : BlockKey) (nodes : List NodeId) (r : ℕ)
      → pick_nodes xxh3 key nodes r
        ≡ map (λ s. s.1) (take (min r (length nodes)) (ranked key nodes))
  unfolding pick_nodes sort_desc
  pick_nodes-ranked key [] r = rw (take_nil (min r 0))
    where
      take_nil : (n : ℕ) → ◌≡◌ {A = List Scored} (take n []) []
      take_nil zero = refl
      take_nil (suc n) = refl
  pick_nodes-ranked key (n ∷ nodes) r = refl

  pub length-ranked :
      (key : BlockKey) (nodes : List NodeId) → length (ranked key nodes) ≡ length nodes
  unfolding scored
  length-ranked key nodes = rw (length-sort_desc, length-map)

  -- As many nodes are chosen as asked for, or all of them where there are fewer.
  pub length-pick_nodes :
      (key : BlockKey) (nodes : List NodeId) (r : ℕ)
      → length (pick_nodes xxh3 key nodes r) ≡ min r (length nodes)
  length-pick_nodes key nodes r =
      rw (pick_nodes-ranked key nodes r, length-map, length-take, length-ranked) (omega arith)

  nodes_of_scored : (pk : ℕ) (nodes : List NodeId) → map (λ s. s.1) (scored xxh3 pk nodes) ≡ nodes
  unfolding scored
  nodes_of_scored pk [] = refl
  nodes_of_scored pk (n ∷ nodes) = ap (◌∷◌ n) (nodes_of_scored pk nodes)

  -- A choice of the best: with the nodes left out it makes up all the nodes, and its scores fall
  -- and are at least those of the nodes left out.
  pub record IsBest (key : BlockKey) (nodes chosen : List NodeId) : Type 0 where
    pub front : List Scored
    pub back : List Scored
    pub chosen_eq : chosen ≡ map (λ s. s.1) front
    pub scores : Perm (scored xxh3 (placement_key key) nodes) (front ++ back)
    pub partition : Perm nodes (chosen ++ map (λ s. s.1) back)
    pub falling : IsDesc front
    pub best : Above front back

  part :
      (key : BlockKey) (nodes : List NodeId) (front back : List Scored)
      → Perm (scored xxh3 (placement_key key) nodes) (front ++ back)
      → Perm nodes (map (λ s. s.1) front ++ map (λ s. s.1) back)
  part key nodes front back p =
      subst (λ l. Perm l (map (λ s. s.1) front ++ map (λ s. s.1) back))
        (nodes_of_scored (placement_key key) nodes)
        (subst (Perm (map (λ s. s.1) (scored xxh3 (placement_key key) nodes)))
          (map-append (λ (s : Scored). s.1) front back) (Perm.map (λ (s : Scored). s.1) p))

  -- For every hash, key, list of nodes and count: the chosen nodes and those left out make up all
  -- the nodes, the scores of the chosen fall along the list, and no node left out has a higher
  -- score than a chosen one.
  pub pick_nodes-IsBest :
      (key : BlockKey) (nodes : List NodeId) (r : ℕ)
      → IsBest key nodes (pick_nodes xxh3 key nodes r)
  pick_nodes-IsBest key nodes r =
      let k = min r (length nodes) in
      let s = ranked key nodes in
      let cut = take-append-drop k s in
      let halves =
        IsDesc-append (take k s) (drop k s) (subst IsDesc (sym cut) (sort_desc-IsDesc _)) in
      let perm =
        subst (Perm (scored xxh3 (placement_key key) nodes)) (sym cut) (sort_desc-perm _) in
      record {
        front = take k s;
        back = drop k s;
        chosen_eq = pick_nodes-ranked key nodes r;
        scores = perm;
        partition = rw (pick_nodes-ranked key nodes r) (part key nodes (take k s) (drop k s) perm);
        falling = halves.0;
        best = halves.1;
      }
