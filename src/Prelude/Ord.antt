-- ===== src/Prelude/Ord.antt =====
-- Total orders as an interface, with numbers and byte strings as instances.
use Prim.Native.Nat.{ℕ, compare, Ordering}
use Prim.Native.Nat.Ordering.{lt, eq, gt}
use mathlib.Core.List.{List, [], ◌∷◌}
use mathlib.Core.Logic.{◌↔◌}
use mathlib.Core.Path.{◌≡◌, refl}
use native.Mathlib.Omega.{arith}

-- `Ordering::reverse` and `Ordering::then`
abbrev pub reverse : Ordering → Ordering
reverse lt = gt
reverse gt = lt
reverse eq = eq

abbrev pub then_with : Ordering → Ordering → Ordering
then_with lt o = lt
then_with gt o = gt
then_with eq o = o

pub record Ord {ℓ} (K : Type ℓ) : Type ℓ where
  pub cmp : K → K → Ordering
  pub cmp_iff : (k j : K) → (cmp k j ≡ eq) ↔ (k ≡ j)
  pub reverse-cmp : (k j : K) → cmp j k ≡ reverse (cmp k j)
  pub between : (k i j : K) → cmp k i ≡ lt → cmp i j ≡ lt → cmp k j ≡ lt

pub compare_iff : (k j : ℕ) → (compare k j ≡ eq) ↔ (k ≡ j)
compare_iff k j = ground arith

pub reverse-compare : (k j : ℕ) → compare j k ≡ reverse (compare k j)
reverse-compare k j = ground arith

pub compare_between : (k i j : ℕ) → compare k i ≡ lt → compare i j ≡ lt → compare k j ≡ lt
compare_between k i j h g = ground arith

instance abbrev pub nat_ord : Ord ℕ
nat_ord = record {
  cmp = compare;
  cmp_iff = compare_iff;
  reverse-cmp = reverse-compare;
  between = compare_between;
}

module _ {ℓ} {A : Type ℓ} ⦃a : Ord A⦄ where
  -- `Ord` of a slice: the first difference decides, and a prefix comes first.
  abbrev pub list_cmp : List A → List A → Ordering
  list_cmp [] [] = eq
  list_cmp [] (y ∷ ys) = lt
  list_cmp (x ∷ xs) [] = gt
  list_cmp (x ∷ xs) (y ∷ ys) = then_with (a.cmp x y) (list_cmp xs ys)

  pub list_cmp_iff : (k j : List A) → (list_cmp k j ≡ eq) ↔ (k ≡ j)
  list_cmp_iff [] [] = ground arith
  list_cmp_iff [] (y ∷ ys) = ground arith
  list_cmp_iff (x ∷ xs) [] = ground arith
  list_cmp_iff (x ∷ xs) (y ∷ ys) = ground (arith, a.cmp_iff x y, list_cmp_iff xs ys)

  pub reverse-list_cmp : (k j : List A) → list_cmp j k ≡ reverse (list_cmp k j)
  reverse-list_cmp [] [] = refl
  reverse-list_cmp [] (y ∷ ys) = refl
  reverse-list_cmp (x ∷ xs) [] = refl
  reverse-list_cmp (x ∷ xs) (y ∷ ys) = ground (arith, a.reverse-cmp x y, reverse-list_cmp xs ys)

  pub list_between : (k i j : List A) → list_cmp k i ≡ lt → list_cmp i j ≡ lt → list_cmp k j ≡ lt
  list_between (x ∷ xs) (y ∷ ys) (z ∷ zs) h g =
      grind
        (arith, a.cmp_iff x y, a.cmp_iff y z, a.cmp_iff x z, a.between x y z, list_between xs ys zs)
  list_between [] i [] h g = ground (arith, reverse-list_cmp [] i)
  list_between [] i (z ∷ zs) h g = refl
  list_between (x ∷ xs) [] j h g = ground arith
  list_between (x ∷ xs) (y ∷ ys) [] h g = ground arith

  instance abbrev pub list_ord : Ord (List A)
  list_ord = record {
    cmp = list_cmp;
    cmp_iff = list_cmp_iff;
    reverse-cmp = reverse-list_cmp;
    between = list_between;
  }
