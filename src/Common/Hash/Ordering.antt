-- ===== src/Common/Hash/Ordering.antt =====
-- The order in which the nodes are listed: `pick_nodes` of crates/dtmpfs-common/src/hash.rs is given
-- the values of a hash map, in whatever order they come.
use mathlib.Core.List.{Perm, Permᴰ, Mem, Memᴰ, mem-cons_self, mem-cons_of_mem, exists_of_mem-map}
use mathlib.Core.List.Perm
use mathlib.Core.List.Permᴰ
use mathlib.Core.Logic.{∥∥₁_elim}
use text.Mathlib.TextEquality.{IsScalar-prop}
use dtmpfs.Prelude.{
  ℕ, String, ◌≡◌, ◌≢◌, refl, ap, ◌∙◌, sym, List, [], ◌∷◌, map, arith, length, leb, take, min,
  Bool-cases, inl, inr,
}
use dtmpfs.Common.Id.{NodeId, BlockKey, placement_key}
use dtmpfs.Common.Hash.Sorting.{Scored, insert_desc, sort_desc, IsDesc, insert_desc-front}
use dtmpfs.Common.Hash.{score, scored, pick_nodes}
use dtmpfs.Common.Hash.Ranking.{ranked, pick_nodes-ranked, length-ranked}

insert_same :
    (x y : Scored) (l : List Scored)
    → x ≡ y
    → insert_desc x (insert_desc y l) ≡ insert_desc y (insert_desc x l)
insert_same x y l e =
    ap (λ q. insert_desc x (insert_desc q l)) (sym e) ∙ ap (λ q. insert_desc q (insert_desc x l)) e

-- Two entries go in in either order, if they are one where their scores are.
insert_desc_comm :
    (x y : Scored) (l : List Scored)
    → (x.0 ≡ y.0 → x ≡ y)
    → insert_desc x (insert_desc y l) ≡ insert_desc y (insert_desc x l)
unfolding insert_desc
insert_desc_comm x y [] h = elim (Bool-cases (leb y.0 x.0)) [
  | inl e ↦ elim (Bool-cases (leb x.0 y.0)) [
    | inl f ↦ insert_same x y [] (h (ground arith))
    | inr f ↦ rw (e, f) refl
  ]
  | inr e ↦ ground (arith, e)
]
insert_desc_comm x y (z ∷ l) h = elim (Bool-cases (leb y.0 x.0)) [
  | inl e ↦ elim (Bool-cases (leb x.0 y.0)) [
    | inl f ↦ insert_same x y (z ∷ l) (h (ground arith))
    | inr f ↦ ground (arith, e, f, insert_desc_comm x y l h)
  ]
  | inr e ↦ ground (arith, e, insert_desc_comm x y l h)
]

-- Entries of the list with one score are one entry.
abbrev Apart : List Scored → Type 0
Apart l = (x y : Scored) → Mem x l → Mem y l → x.0 ≡ y.0 → x ≡ y

sort_desc-Permᴰ : {l m : List Scored} → Permᴰ l m → Apart l → sort_desc l ≡ sort_desc m
unfolding sort_desc
sort_desc-Permᴰ Permᴰ.nil d = refl
sort_desc-Permᴰ (Permᴰ.cons {a = a} {b = b} {l₁ = l} e p) d =
    ap (λ n. insert_desc n (sort_desc l)) e
    ∙ ap (insert_desc b)
        (sort_desc-Permᴰ p (λ n m k j. d n m (mem-cons_of_mem a k) (mem-cons_of_mem a j)))
sort_desc-Permᴰ (Permᴰ.swap {a = a} {b = b} {l = l} e g) d =
    insert_desc_comm a b (sort_desc l) (d a b mem-cons_self (mem-cons_of_mem a mem-cons_self))
    ∙ rw (e, g) refl
sort_desc-Permᴰ (Permᴰ.trans p q) d =
    sort_desc-Permᴰ p d
    ∙ sort_desc-Permᴰ q (λ n m k j. d n m (Permᴰ.mem (Permᴰ.symm p) k) (Permᴰ.mem (Permᴰ.symm p) j))

sort_desc_unique : (l m : List Scored) → Apart l → Perm l m → sort_desc l ≡ sort_desc m
sort_desc_unique l m d p =
    ∥∥₁_elim p (entries-IsSet (sort_desc l) (sort_desc m)) (λ q. sort_desc-Permᴰ q d)
  where
    entries-IsSet : IsSet (List Scored)
    entries-IsSet = hlevel IsScalar-prop

-- A list that falls is sorted.
sort_desc_fixed : (l : List Scored) → IsDesc l → sort_desc l ≡ l
unfolding sort_desc
sort_desc_fixed [] d = refl
sort_desc_fixed (x ∷ l) d = ap (insert_desc x) (sort_desc_fixed l d.1) ∙ insert_desc-front x l d.0

module _ (f : NodeId → ℕ) where
  abbrev with_score : NodeId → Scored
  with_score n = (f n, n)

  -- Different nodes of the list have different scores.
  abbrev pub Distinct : List NodeId → Type 0
  Distinct l = (n m : NodeId) → Mem n l → Mem m l → f n ≡ f m → n ≡ m

  Distinct-Apart : (l : List NodeId) → Distinct l → Apart (map with_score l)
  Distinct-Apart l d x y k j h = ∥∥₁_elim (exists_of_mem-map k) one_entry (λ a.
      ∥∥₁_elim (exists_of_mem-map j) one_entry (λ b.
        sym a.2 ∙ ap with_score (d a.0 b.0 a.1 b.1 (ap fst a.2 ∙ h ∙ sym (ap fst b.2))) ∙ b.2))
    where
      fst : Scored → ℕ
      fst e = e.0

      one_entry : IsProp (x ≡ y)
      one_entry = hlevel IsScalar-prop

  two_apart :
      (a b n m : NodeId) → f a ≢ f b → Memᴰ n (a ∷ b ∷ []) → Memᴰ m (a ∷ b ∷ []) → f n ≡ f m → n ≡ m
  two_apart a b n m apart (Memᴰ.head e) (Memᴰ.head g) h = e ∙ sym g
  two_apart a b n m apart (Memᴰ.head e) (Memᴰ.tail (Memᴰ.head g)) h =
      absurd (apart (sym (ap f e) ∙ h ∙ ap f g))
  two_apart a b n m apart (Memᴰ.tail (Memᴰ.head e)) (Memᴰ.head g) h =
      absurd (apart (sym (ap f g) ∙ sym h ∙ ap f e))
  two_apart a b n m apart (Memᴰ.tail (Memᴰ.head e)) (Memᴰ.tail (Memᴰ.head g)) h = e ∙ sym g
  two_apart a b n m apart (Memᴰ.head e) (Memᴰ.tail (Memᴰ.tail k)) h = elim k [ ]
  two_apart a b n m apart (Memᴰ.tail (Memᴰ.tail k)) _ h = elim k [ ]
  two_apart a b n m apart (Memᴰ.tail (Memᴰ.head e)) (Memᴰ.tail (Memᴰ.tail k)) h = elim k [ ]

  pub Distinct-pair : (a b : NodeId) → f a ≢ f b → Distinct (a ∷ b ∷ [])
  Distinct-pair a b apart n m k j h =
      ∥∥₁_elim k one_node (λ d. ∥∥₁_elim j one_node (λ g. two_apart a b n m apart d g h))
    where
      one_node : IsProp (n ≡ m)
      one_node = hlevel IsScalar-prop

module _ (xxh3 : String → ℕ → ℕ) where
  -- Whichever way the scored nodes are sorted.
  ranked_unique :
      (key : BlockKey) (l : List NodeId) (m : List Scored)
      → Distinct (score xxh3 (placement_key key)) l
      → Perm (scored xxh3 (placement_key key) l) m
      → ranked xxh3 key l ≡ sort_desc m
  unfolding scored
  ranked_unique key l m d p = sort_desc_unique _ m (Distinct-Apart _ l d) p

  -- Where different nodes of a list have different scores, the choice does not depend on the order
  -- in which they are listed.
  pub pick_nodes-perm :
      (key : BlockKey) (l m : List NodeId) (r : ℕ)
      → Distinct (score xxh3 (placement_key key)) l
      → Perm l m
      → pick_nodes xxh3 key l r ≡ pick_nodes xxh3 key m r
  unfolding scored
  pick_nodes-perm key l m r d p =
      let same : ranked xxh3 key l ≡ ranked xxh3 key m = ranked_unique key l _ d (Perm.map _ p) in
      let long : length l ≡ length m =
        sym (length-ranked xxh3 key l) ∙ ap length same ∙ length-ranked xxh3 key m in
      rw (pick_nodes-ranked xxh3 key l r, pick_nodes-ranked xxh3 key m r, same, long) refl

  -- What `pick_nodes` may choose: its sort is not stable, so where scores are equal the source
  -- fixes no order.
  pub record IsChoice (key : BlockKey) (nodes : List NodeId) (r : ℕ) (chosen : List NodeId)
      : Type 0 where
    pub sorted : List Scored
    pub perm : Perm (scored xxh3 (placement_key key) nodes) sorted
    pub falls : IsDesc sorted
    pub chosen_eq : chosen ≡ map (λ s. s.1) (take (min r (length nodes)) sorted)

  -- Where different nodes of a list have different scores, any sort of the scored nodes from the
  -- highest score down, stable or not, makes the choice of pick_nodes, as many of its first nodes
  -- as were asked for or all of them.
  pub pick_nodes-IsChoice :
      (key : BlockKey) (nodes : List NodeId) (r : ℕ) (chosen : List NodeId)
      → Distinct (score xxh3 (placement_key key)) nodes
      → IsChoice key nodes r chosen
      → chosen ≡ pick_nodes xxh3 key nodes r
  pick_nodes-IsChoice key nodes r chosen d c =
      rw
        (
          pick_nodes-ranked xxh3 key nodes r,
          ranked_unique key nodes c.sorted d c.perm,
          sort_desc_fixed c.sorted c.falls,
        )
        c.chosen_eq
