-- ===== src/Prelude/HashMap.antt =====
-- Maps keyed by an `Eq` type: Rust's `HashMap` and `DashMap`. The order in which `values` runs
-- through the entries stands for the unspecified order of the hash table.
use Prim.Native.Nat.{ℕ, ◌+◌}
use mathlib.Core.Path.{◌≡◌, refl}
use mathlib.Core.Bool.{Bool}
use mathlib.Core.List.{List, [], ◌∷◌, map}
use mathlib.Core.Option.{Option, none, some}
use native.Mathlib.Omega.{arith}
use dtmpfs.Prelude.Tests.{if◌then◌else◌, is_some}
use dtmpfs.Prelude.Keys.{Eq}

abbrev pub Dict {ℓ κ} : Type ℓ → Type κ → Type (ℓ ⊔ κ)
Dict K V = List (K × V)

module _ {ℓ κ} {K : Type ℓ} {V : Type κ} where
  abbrev pub values : Dict K V → List V
  values d = map (λ e. e.1) d

  abbrev pub keys : Dict K V → List K
  keys d = map (λ e. e.0) d

abbrev pub measure_at {ℓ} : {V : Type ℓ} → (V → ℕ) → Option V → ℕ
measure_at f none = 0
measure_at f (some v) = f v

abbrev pub map_option {ℓ} : {V : Type ℓ} → (V → V) → Option V → Option V
map_option f none = none
map_option f (some v) = some (f v)

module _ {ℓ κ} {K : Type ℓ} {V : Type κ} ⦃e : Eq K⦄ where
  unfoldable pub get : K → Dict K V → Option V
  get k [] = none
  get k ((j, v) ∷ d) = if e.beq j k then some v else get k d

  unfoldable pub remove : K → Dict K V → Dict K V
  remove k [] = []
  remove k ((j, v) ∷ d) = let rest = remove k d in if e.beq j k then rest else (j, v) ∷ rest

  unfoldable pub insert : K → V → Dict K V → Dict K V
  unfolding remove
  insert k v d = (k, v) ∷ remove k d

  abbrev pub contains_key : K → Dict K V → Bool
  contains_key k d = is_some (get k d)

  -- `get_mut` followed by a write through the reference.
  unfoldable pub update : K → (V → V) → Dict K V → Dict K V
  update k f [] = []
  update k f ((j, v) ∷ d) = if e.beq j k then (j, f v) ∷ d else (j, v) ∷ update k f d

  pub get-remove :
      (k j : K) (d : Dict K V) → get j (remove k d) ≡ (if e.beq k j then none else get j d)
  unfolding get remove
  get-remove k j [] = ground arith
  get-remove k j ((i, v) ∷ d) =
      ground (arith, get-remove k j d, e.beq_iff i k, e.beq_iff i j, e.beq_iff k j)

  pub get-insert :
      (k j : K) (v : V) (d : Dict K V)
      → get j (insert k v d) ≡ (if e.beq k j then some v else get j d)
  unfolding get insert
  get-insert k j v d = ground (arith, get-remove k j d)

  pub get-update :
      (k j : K) (f : V → V) (d : Dict K V)
      → get j (update k f d) ≡ (if e.beq k j then map_option f (get j d) else get j d)
  unfolding get update
  get-update k j f [] = ground arith
  get-update k j f ((i, v) ∷ d) =
      ground (arith, get-update k j f d, e.beq_iff i k, e.beq_iff i j, e.beq_iff k j)

  -- Each key stands for one entry.
  abbrev pub IsMap : Dict K V → Type κ
  IsMap [] = Unit
  IsMap ((k, v) ∷ d) = (get k d ≡ none) × IsMap d

  pub remove-IsMap : (k : K) (d : Dict K V) → IsMap d → IsMap (remove k d)
  unfolding remove
  remove-IsMap k [] m = tt
  remove-IsMap k ((j, v) ∷ d) m = ground (arith, remove-IsMap k d m.1, get-remove k j d)

  pub insert-IsMap : (k : K) (v : V) (d : Dict K V) → IsMap d → IsMap (insert k v d)
  unfolding insert
  insert-IsMap k v d m = (ground (arith, get-remove k k d, e.beq_iff k k), remove-IsMap k d m)

  pub update-IsMap : (k : K) (f : V → V) (d : Dict K V) → IsMap d → IsMap (update k f d)
  unfolding update
  update-IsMap k f [] m = tt
  update-IsMap k f ((j, v) ∷ d) m =
      ground (arith, update-IsMap k f d m.1, get-update k j f d, e.beq_iff j k, e.beq_iff k j)

  -- The sum of a measure over the values.
  abbrev pub total : (V → ℕ) → Dict K V → ℕ
  total f [] = 0
  total f ((k, v) ∷ d) = f v + total f d

  pub remove_missing : (k : K) (d : Dict K V) → get k d ≡ none → remove k d ≡ d
  unfolding get remove
  remove_missing k [] h = refl
  remove_missing k ((j, v) ∷ d) h = ground (arith, remove_missing k d)

  pub total-remove :
      (f : V → ℕ) (k : K) (d : Dict K V)
      → IsMap d
      → total f (remove k d) + measure_at f (get k d) ≡ total f d
  unfolding get remove
  total-remove f k [] m = omega arith
  total-remove f k ((j, v) ∷ d) m =
      ground (arith, total-remove f k d m.1, e.beq_iff j k, remove_missing k d)

  pub total-insert :
      (f : V → ℕ) (k : K) (v : V) (d : Dict K V)
      → IsMap d
      → total f (insert k v d) + measure_at f (get k d) ≡ total f d + f v
  unfolding insert
  total-insert f k v d m = omega (arith, total-remove f k d m)

pub ruleset dict_laws = (get-remove, get-insert, get-update)
