-- ===== src/Prelude/BtreeMap.antt =====
-- Maps kept in the order of their keys: Rust's `BTreeMap`, as the list of its entries.
use Prim.Native.Nat.Ordering.{lt, eq, gt}
use Prim.Native.Nat.{Ordering}
use mathlib.Core.Path.{◌≡◌, refl}
use mathlib.Core.Logic.{◌↔◌}
use mathlib.Core.Bool.{Bool, true, false}
use mathlib.Core.List.{List, [], ◌∷◌, ◌++◌}
use mathlib.Core.Option.{Option, none, some}
use native.Mathlib.Omega.{arith}
use dtmpfs.Prelude.Tests.{if◌then◌else◌, is_some}
use dtmpfs.Prelude.Ord.{Ord}

abbrev pub Tree {ℓ κ} : Type ℓ → Type κ → Type (ℓ ⊔ κ)
Tree K V = List (K × V)

abbrev pub is_eq : Ordering → Bool
is_eq eq = true
is_eq lt = false
is_eq gt = false

abbrev pub is_lt : Ordering → Bool
is_lt lt = true
is_lt eq = false
is_lt gt = false

module _ {ℓ κ} {K : Type ℓ} {V : Type κ} ⦃o : Ord K⦄ where
  unfoldable pub get : K → Tree K V → Option V
  get k [] = none
  get k ((j, v) ∷ t) = if is_eq (o.cmp k j) then some v else get k t

  unfoldable pub remove : K → Tree K V → Tree K V
  remove k [] = []
  remove k ((j, v) ∷ t) = let rest = remove k t in if is_eq (o.cmp k j) then rest else (j, v) ∷ rest

  unfoldable pub insert : K → V → Tree K V → Tree K V
  insert k v [] = (k, v) ∷ []
  insert k v ((j, w) ∷ t) = elim (o.cmp k j) [
    | lt ↦ (k, v) ∷ (j, w) ∷ t
    | eq ↦ (k, v) ∷ t
    | gt ↦ (j, w) ∷ insert k v t
  ]

  -- `range((Excluded(k), Unbounded))`
  unfoldable pub range_after : K → Tree K V → Tree K V
  range_after k [] = []
  range_after k ((j, v) ∷ t) =
      let rest = range_after k t in if is_lt (o.cmp k j) then (j, v) ∷ rest else rest

  abbrev pub contains_key : K → Tree K V → Bool
  contains_key k t = is_some (get k t)

  pub get-remove :
      (k j : K) (t : Tree K V) → get j (remove k t) ≡ (if is_eq (o.cmp j k) then none else get j t)
  unfolding get remove
  get-remove k j [] = ground arith
  get-remove k j ((i, v) ∷ t) =
      ground (arith, get-remove k j t, o.cmp_iff k i, o.cmp_iff j i, o.cmp_iff j k)

  pub get-insert :
      (k j : K) (v : V) (t : Tree K V)
      → get j (insert k v t) ≡ (if is_eq (o.cmp j k) then some v else get j t)
  unfolding get insert
  get-insert k j v [] = refl
  get-insert k j v ((i, w) ∷ t) =
      ground (arith, get-insert k j v t, o.cmp_iff k i, o.cmp_iff j i, o.cmp_iff j k)

-- The keys rise along the list, which every `BTreeMap` keeps to.
module _ {ℓ κ} {K : Type ℓ} {V : Type κ} ⦃o : Ord K⦄ where
  abbrev pub Before : K → Tree K V → Type 0
  Before k [] = Unit {0}
  Before k ((j, v) ∷ t) = (o.cmp k j ≡ lt) × Before k t

  abbrev pub IsSorted : Tree K V → Type 0
  IsSorted [] = Unit {0}
  IsSorted ((j, v) ∷ t) = Before j t × IsSorted t

  pub Before-missing : (k : K) (t : Tree K V) → Before k t → get k t ≡ none
  unfolding get
  Before-missing k [] b = refl
  Before-missing k ((j, v) ∷ t) b = ground (arith, b, Before-missing k t b.1)

  range_after-all : (k : K) (t : Tree K V) → Before k t → range_after k t ≡ t
  unfolding range_after
  range_after-all k [] b = refl
  range_after-all k ((j, v) ∷ t) b = ground (arith, range_after-all k t b.1)

  Before-middle :
      (j k : K) (v : V) (front back : Tree K V) → Before j (front ++ (k, v) ∷ back) → o.cmp j k ≡ lt
  Before-middle j k v [] back b = b.0
  Before-middle j k v (x ∷ front) back b = Before-middle j k v front back b.1

  -- Behind a key lie the entries that follow it.
  pub range_after-behind :
      (k : K) (v : V) (front back : Tree K V)
      → IsSorted (front ++ (k, v) ∷ back)
      → range_after k (front ++ (k, v) ∷ back) ≡ back
  unfolding range_after
  range_after-behind k v [] back s = ground (arith, range_after-all k back s.0, o.cmp_iff k k)
  range_after-behind k v ((j, w) ∷ front) back s = ground (
    arith,
    range_after-behind k v front back s.1,
    Before-middle j k v front back s.0,
    o.reverse-cmp j k,
  )

  Before-remove : (j k : K) (t : Tree K V) → Before j t → Before j (remove k t)
  unfolding remove
  Before-remove j k [] b = tt
  Before-remove j k ((i, v) ∷ t) b = ground (arith, Before-remove j k t b.1)

  pub remove-IsSorted : (k : K) (t : Tree K V) → IsSorted t → IsSorted (remove k t)
  unfolding remove
  remove-IsSorted k [] s = tt
  remove-IsSorted k ((j, v) ∷ t) s =
      ground (arith, remove-IsSorted k t s.1, Before-remove j k t s.0)

  Before-trans : (i j : K) (t : Tree K V) → o.cmp i j ≡ lt → Before j t → Before i t
  Before-trans i j [] h b = tt
  Before-trans i j ((k, v) ∷ t) h b = (o.between i j k h b.0, Before-trans i j t h b.1)

  Before-insert :
      (j k : K) (v : V) (t : Tree K V) → o.cmp j k ≡ lt → Before j t → Before j (insert k v t)
  unfolding insert
  Before-insert j k v [] h b = (h, tt)
  Before-insert j k v ((i, w) ∷ t) h b = ground (arith, Before-insert j k v t h b.1)

  pub insert-IsSorted : (k : K) (v : V) (t : Tree K V) → IsSorted t → IsSorted (insert k v t)
  unfolding insert
  insert-IsSorted k v [] s = (tt, tt)
  insert-IsSorted k v ((j, w) ∷ t) s = ground (
    arith,
    insert-IsSorted k v t s.1,
    Before-insert j k v t,
    Before-trans k j t,
    o.cmp_iff k j,
    o.reverse-cmp k j,
    s.0,
  )

module _ {ℓ} {K : Type ℓ} ⦃o : Ord K⦄ where
  pub is_eq_iff : (a b : K) → (is_eq (o.cmp a b) ≡ true) ↔ (a ≡ b)
  is_eq_iff a b = ground (arith, o.cmp_iff a b)

pub ruleset tree_laws = (get-remove, get-insert)
