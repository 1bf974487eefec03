-- ===== src/Prelude/Bits.antt =====
-- The binary digits of a number: a mode is its type bits above twelve bits of permissions.
use Prim.Native.Nat.{
  ℕ, zero, suc, ◌+◌, ◌*◌, ◌/◌, ◌%◌, ◌^◌, ◌≤◌, ◌<◌, ◌-◌, min, max, bit_and, bit_or, digits,
  bit_and-bitwise, bit_or-bitwise,
}
use mathlib.Core.Path.{◌≡◌, refl, ◌∙◌, ap}
use native.Mathlib.Omega.{arith}

-- The count of digits to go does not matter where it is enough.
digits_fuel :
    (z : ℕ → ℕ) (f : ℕ → ℕ → ℕ) (n m a b : ℕ) → a ≤ n → a ≤ m → digits z f n a b ≡ digits z f m a b
digits_fuel z f zero zero a b h k = refl
digits_fuel z f zero (suc m) zero b h k = refl
digits_fuel z f zero (suc m) (suc a) b h k = absurd (omega arith)
digits_fuel z f (suc n) zero zero b h k = refl
digits_fuel z f (suc n) zero (suc a) b h k = absurd (omega arith)
digits_fuel z f (suc n) (suc m) zero b h k = refl
digits_fuel z f (suc n) (suc m) (suc a) b h k =
    ap (λ d. d * 2 + f (suc a % 2) (b % 2))
      (digits_fuel z f n m (suc a / 2) (b / 2) (omega arith) (omega arith))

bit_and-digits : (a b : ℕ) → bit_and a b ≡ digits (λ c. zero) min a a b
bit_and-digits a b = λ i. bit_and-bitwise a b i

bit_or-digits : (a b : ℕ) → bit_or a b ≡ digits (λ c. c) max a a b
bit_or-digits a b = λ i. bit_or-bitwise a b i

digits-halves :
    (z : ℕ → ℕ) (f : ℕ → ℕ → ℕ) (a b : ℕ)
    → digits z f (suc a) (suc a) b
      ≡ digits z f (suc a / 2) (suc a / 2) (b / 2) * 2 + f (suc a % 2) (b % 2)
digits-halves z f a b =
    ap (λ d. d * 2 + f (suc a % 2) (b % 2))
      (digits_fuel z f a (suc a / 2) (suc a / 2) (b / 2) (omega arith) (omega arith))

bit_and-halves : (a b : ℕ) → bit_and a b ≡ bit_and (a / 2) (b / 2) * 2 + min (a % 2) (b % 2)
bit_and-halves zero b = rw (bit_and-digits 0 b, bit_and-digits (0 / 2) (b / 2)) (omega arith)
bit_and-halves (suc a) b =
    rw (bit_and-digits (suc a) b, bit_and-digits (suc a / 2) (b / 2)) (digits-halves _ min a b)

bit_or-halves : (a b : ℕ) → bit_or a b ≡ bit_or (a / 2) (b / 2) * 2 + max (a % 2) (b % 2)
bit_or-halves zero b = rw (bit_or-digits 0 b, bit_or-digits (0 / 2) (b / 2)) (omega arith)
bit_or-halves (suc a) b =
    rw (bit_or-digits (suc a) b, bit_or-digits (suc a / 2) (b / 2)) (digits-halves _ max a b)

digits-or_zero : (n a : ℕ) → a ≤ n → digits (λ c. c) max n a 0 ≡ a
digits-or_zero zero zero h = refl
digits-or_zero zero (suc a) h = absurd (omega arith)
digits-or_zero (suc n) zero h = refl
digits-or_zero (suc n) (suc a) h = omega (arith, digits-or_zero n (suc a / 2) (omega arith))

bit_or_zero : (a : ℕ) → bit_or a 0 ≡ a
bit_or_zero a = bit_or-digits a 0 ∙ digits-or_zero a a (omega arith)

two_pow_suc : (k : ℕ) → 2 ^ suc k ≡ 2 ^ k * 2
two_pow_suc k = omega arith

two_pow_pos : (k : ℕ) → 0 < 2 ^ k
two_pow_pos zero = omega arith
two_pow_pos (suc k) = omega (arith, two_pow_suc k, two_pow_pos k)

shifted : (k c : ℕ) → c * 2 ^ suc k ≡ c * 2 ^ k * 2
shifted k c = rw (two_pow_suc k) (omega arith)

digits-and_zero : (n a : ℕ) → digits (λ c. zero) min n a 0 ≡ 0
digits-and_zero zero a = refl
digits-and_zero (suc n) zero = refl
digits-and_zero (suc n) (suc a) = omega (arith, digits-and_zero n (suc a / 2))

-- High bits and low bits, put together and told apart again.
pub bit_or-add : (k c x : ℕ) → x < 2 ^ k → bit_or (c * 2 ^ k) x ≡ c * 2 ^ k + x
bit_or-add zero c x h = let e : x ≡ 0 = omega arith in rw e (bit_or_zero (c * 2 ^ 0) ∙ omega arith)
bit_or-add (suc k) c x h =
    let v = c * 2 ^ k in
    let ih : bit_or v (x / 2) ≡ v + x / 2 = bit_or-add k c (x / 2) (omega (arith, two_pow_suc k)) in
    let half : v * 2 / 2 ≡ v = omega arith in
    rw (shifted k c) (bit_or-halves (v * 2) x ∙ rw (half, ih) (omega arith))

pub bit_and-high :
    (k c d x : ℕ) → x < 2 ^ k → bit_and (c * 2 ^ k + x) (d * 2 ^ k) ≡ bit_and c d * 2 ^ k
bit_and-high zero c d x h =
    let e : x ≡ 0 = omega arith in
    let e1 : c * 2 ^ 0 + x ≡ c = omega (arith, e) in
    let e2 : d * 2 ^ 0 ≡ d = omega arith in rw (e1, e2) (omega arith)
bit_and-high (suc k) c d x h =
    let v = c * 2 ^ k in
    let w = d * 2 ^ k in
    let ih : bit_and (v + x / 2) w ≡ bit_and c d * 2 ^ k =
      bit_and-high k c d (x / 2) (omega (arith, two_pow_suc k)) in
    let half : (v * 2 + x) / 2 ≡ v + x / 2 = omega arith in
    let half' : w * 2 / 2 ≡ w = omega arith in
    rw (shifted k c, shifted k d, shifted k (bit_and c d))
      (bit_and-halves (v * 2 + x) (w * 2) ∙ rw (half, half', ih) (omega arith))

pub bit_and-low : (k c x : ℕ) → x < 2 ^ k → bit_and (c * 2 ^ k + x) (2 ^ k - 1) ≡ x
bit_and-low zero c x h =
    let e : x ≡ 0 = omega arith in
    let e1 : c * 2 ^ 0 + x ≡ c = omega (arith, e) in
    rw (e1, e) (bit_and-digits c 0 ∙ digits-and_zero c c)
bit_and-low (suc k) c x h =
    let v = c * 2 ^ k in
    let ih : bit_and (v + x / 2) (2 ^ k - 1) ≡ x / 2 =
      bit_and-low k c (x / 2) (omega (arith, two_pow_suc k)) in
    let half : (v * 2 + x) / 2 ≡ v + x / 2 = omega arith in
    let half' : (2 ^ suc k - 1) / 2 ≡ 2 ^ k - 1 = omega (arith, two_pow_suc k, two_pow_pos k) in
    let odd : (2 ^ suc k - 1) % 2 ≡ 1 = omega (arith, two_pow_suc k, two_pow_pos k) in
    rw (shifted k c)
      (bit_and-halves (v * 2 + x) (2 ^ suc k - 1) ∙ rw (half, half', odd, ih) (omega arith))

-- A mask of low bits is a remainder.
pub bit_and-mod : (k m : ℕ) → bit_and m (2 ^ k - 1) ≡ m % 2 ^ k
bit_and-mod k m =
    let e : m ≡ m / 2 ^ k * 2 ^ k + m % 2 ^ k = grind arith in
    ap (λ n. bit_and n (2 ^ k - 1)) e
    ∙ bit_and-low k (m / 2 ^ k) (m % 2 ^ k) (grind (arith, two_pow_pos k))

-- Type bits above the low bits of a mode: both are found again.
module _ (k c m : ℕ) where
  abbrev pub typed : ℕ
  typed = bit_or (c * 2 ^ k) (bit_and m (2 ^ k - 1))

  low_lt : m % 2 ^ k < 2 ^ k
  low_lt = grind (arith, two_pow_pos k)

  typed-add : typed ≡ c * 2 ^ k + m % 2 ^ k
  typed-add = rw (bit_and-mod k m) (bit_or-add k c (m % 2 ^ k) low_lt)

  pub type_of-typed : (d : ℕ) → bit_and typed (d * 2 ^ k) ≡ bit_and c d * 2 ^ k
  type_of-typed d = rw typed-add (bit_and-high k c d (m % 2 ^ k) low_lt)

  pub low_of-typed : bit_and typed (2 ^ k - 1) ≡ bit_and m (2 ^ k - 1)
  low_of-typed = rw (typed-add, bit_and-mod k m) (bit_and-low k c (m % 2 ^ k) low_lt)
