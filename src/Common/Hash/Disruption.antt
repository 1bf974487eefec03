-- ===== src/Common/Hash/Disruption.antt =====
-- A node that a block is not placed on can leave, and the block stays where it is.
use mathlib.Core.List.{map-append, Mem, Memᴰ}
use mathlib.Core.Logic.{∥∥₁_map}
use dtmpfs.Prelude.{
  ℕ, zero, suc, ◌≤◌, ◌<◌, String, ◌≡◌, ◌≢◌, refl, ap, sym, ◌∙◌, subst, List, [], ◌∷◌, ◌++◌, map,
  arith, length, take, min, leb, false, Bool-cases, inl, inr, length-append,
}
use dtmpfs.Common.Id.{NodeId, BlockKey, placement_key}
use dtmpfs.Common.Hash.Sorting.{
  Scored, insert_desc, insert_desc-front, sort_desc, IsDesc, AtMost-mono, sort_desc-IsDesc,
}
use dtmpfs.Common.Hash.{score, scored, pick_nodes}
use dtmpfs.Common.Hash.Ordering.{Distinct, IsChoice, pick_nodes-IsChoice}
use dtmpfs.Common.Hash.Ranking.{ranked, pick_nodes-ranked, length-ranked}

-- The second list is the first with `x` put in somewhere.
data Inserted (x : Scored) : List Scored → List Scored → Type 0 where
  here : {l : List Scored} → Inserted x l (x ∷ l)
  there : {y : Scored} {l m : List Scored} → Inserted x l m → Inserted x (y ∷ l) (y ∷ m)

insert_desc-here :
    (x y : Scored) (l : List Scored)
    → IsDesc (x ∷ l)
    → Inserted x (insert_desc y l) (insert_desc y (x ∷ l))
unfolding insert_desc
insert_desc-here x y l d = elim (Bool-cases (leb x.0 y.0)) [
  | inl e ↦ rw (e, insert_desc-front y l (AtMost-mono x.0 y.0 l (ground arith) d.0)) (there here)
  | inr e ↦ rw e here
]

insert_desc-Inserted :
    {x : Scored} {l m : List Scored} (y : Scored)
    → Inserted x l m
    → IsDesc m
    → Inserted x (insert_desc y l) (insert_desc y m)
unfolding insert_desc
insert_desc-Inserted {x} y (here {l = l}) d = insert_desc-here x y l d
insert_desc-Inserted y (there {y = z} i) d = elim (Bool-cases (leb z.0 y.0)) [
  | inl e ↦ rw e (there (there i))
  | inr e ↦ rw e (there (insert_desc-Inserted y i d.1))
]

sort_desc-Inserted :
    (x : Scored) (before after : List Scored)
    → Inserted x (sort_desc (before ++ after)) (sort_desc (before ++ x ∷ after))
unfolding sort_desc
sort_desc-Inserted x [] after = insert_here x (sort_desc after) (sort_desc-IsDesc after)
  where
    insert_here : (x : Scored) (l : List Scored) → IsDesc l → Inserted x l (insert_desc x l)
    insert_here x [] d = here
    insert_here x (z ∷ l) d = elim (Bool-cases (leb z.0 x.0)) [
      | inl e ↦ rw (e, insert_desc) here
      | inr e ↦ rw (e, insert_desc) (there (insert_here x l d.1))
    ]
sort_desc-Inserted x (y ∷ before) after =
    insert_desc-Inserted y (sort_desc-Inserted x before after)
      (sort_desc-IsDesc (before ++ x ∷ after))

-- No entry of the list is for this node.
abbrev pub Avoids : NodeId → List NodeId → Type 0
Avoids n [] = Unit {0}
Avoids n (m ∷ ms) = (n ≢ m) × Avoids n ms

take-Inserted :
    {x : Scored} {l m : List Scored} (k : ℕ)
    → Inserted x l m
    → Avoids x.1 (map (λ (s : Scored). s.1) (take k m))
    → take k l ≡ take k m
take-Inserted zero i a = refl
take-Inserted (suc k) here a = absurd (a.0 refl)
take-Inserted (suc k) (there {y = y} i) a = ap (◌∷◌ y) (take-Inserted k i a.1)

take-Inserted_all :
    {x : Scored} {l m : List Scored} (k : ℕ)
    → Inserted x l m
    → length l < k
    → ¬ Avoids x.1 (map (λ (s : Scored). s.1) (take k m))
take-Inserted_all zero i h a = absurd (omega arith)
take-Inserted_all (suc k) here h a = a.0 refl
take-Inserted_all (suc k) (there i) h a = take-Inserted_all k i (omega arith) a.1

Memᴰ-insert :
    (a n : NodeId) (before after : List NodeId)
    → Memᴰ a (before ++ after)
    → Memᴰ a (before ++ n ∷ after)
Memᴰ-insert a n [] after m = Memᴰ.tail m
Memᴰ-insert a n (x ∷ before) after (Memᴰ.head e) = Memᴰ.head e
Memᴰ-insert a n (x ∷ before) after (Memᴰ.tail m) = Memᴰ.tail (Memᴰ-insert a n before after m)

module _ (xxh3 : String → ℕ → ℕ) where
  ranked-Inserted :
      (key : BlockKey) (n : NodeId) (before after : List NodeId)
      → Inserted
          (score xxh3 (placement_key key) n, n)
          (ranked xxh3 key (before ++ after))
          (ranked xxh3 key (before ++ n ∷ after))
  unfolding scored
  ranked-Inserted key n before after =
      let f = λ (m : NodeId). let p : Scored = (score xxh3 (placement_key key) m, m) in p in
      rw (map-append f before after, map-append f before (n ∷ after))
        (sort_desc-Inserted (f n) (map f before) (map f after))

  picks_within :
      (key : BlockKey) (n : NodeId) (before after : List NodeId) (r : ℕ)
      → Avoids n (pick_nodes xxh3 key (before ++ n ∷ after) r)
      → r ≤ length (before ++ after)
  picks_within key n before after r a = elim (Bool-cases (leb r (length (before ++ after)))) [
    | inl e ↦ ground arith
    | inr e ↦ absurd (
        take-Inserted_all (min r (length (before ++ n ∷ after)))
          (ranked-Inserted key n before after)
          (omega (
            arith,
            length-ranked xxh3 key (before ++ after),
            above _ _ e,
            length-append before after,
            length-append before (n ∷ after),
          ))
          (rw (pick_nodes-ranked xxh3 key (before ++ n ∷ after) r) at a))
  ]
    where
      above : (x y : ℕ) → leb x y ≡ false → y < x
      above x y e = ground arith

  picks_same :
      (key : BlockKey) (n : NodeId) (before after : List NodeId) (r : ℕ)
      → Avoids n (pick_nodes xxh3 key (before ++ n ∷ after) r)
      → pick_nodes xxh3 key (before ++ after) r ≡ pick_nodes xxh3 key (before ++ n ∷ after) r
  picks_same key n before after r a =
      let within = picks_within key n before after r a in
      let small : min r (length (before ++ after)) ≡ r = omega arith in
      let large : min r (length (before ++ n ∷ after)) ≡ r =
        omega (arith, length-append before after, length-append before (n ∷ after)) in
      let a' = rw (pick_nodes-ranked xxh3 key (before ++ n ∷ after) r, large) at a in
      rw
        (
          pick_nodes-ranked xxh3 key (before ++ after) r,
          pick_nodes-ranked xxh3 key (before ++ n ∷ after) r,
          small,
          large,
        )
        (ap (map (λ (s : Scored). s.1)) (take-Inserted r (ranked-Inserted key n before after) a'))

  without_node :
      (f : NodeId → ℕ) (n : NodeId) (before after : List NodeId)
      → Distinct f (before ++ n ∷ after)
      → Distinct f (before ++ after)
  without_node f n before after d a b k j = d a b (kept a k) (kept b j)
    where
      kept : (a : NodeId) → Mem a (before ++ after) → Mem a (before ++ n ∷ after)
      kept a k = ∥∥₁_map {B = Memᴰ a (before ++ n ∷ after)} k (Memᴰ-insert a n before after)

  -- Where different nodes of a list have different scores for a block, let the block be placed by
  -- any sort of the scores. If it is placed on none of the copies of a node, then without one of
  -- them any sort places it on the same nodes in the same order; and they are those of pick_nodes.
  pub pick_nodes-without :
      (key : BlockKey) (n : NodeId) (before after : List NodeId) (r : ℕ)
      (chosen chosen' : List NodeId)
      → Distinct (score xxh3 (placement_key key)) (before ++ n ∷ after)
      → IsChoice xxh3 key (before ++ n ∷ after) r chosen
      → IsChoice xxh3 key (before ++ after) r chosen'
      → Avoids n chosen
      → (chosen ≡ pick_nodes xxh3 key (before ++ n ∷ after) r) × (chosen' ≡ chosen)
  pick_nodes-without key n before after r chosen chosen' d c c' a =
      let whole = pick_nodes-IsChoice xxh3 key (before ++ n ∷ after) r chosen d c in
      let less =
        pick_nodes-IsChoice xxh3 key (before ++ after) r chosen' (without_node _ n before after d)
          c' in
      (whole, less ∙ picks_same key n before after r (subst (Avoids n) whole a) ∙ sym whole)
