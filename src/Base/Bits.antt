-- ===== src/Base/Bits.antt =====
-- `&` and `|` of C as arithmetic: low masks at every width, and masks on one byte by a table.
use Prim.Native.Nat.{
  ℕ, zero, suc, ◌+◌, ◌-◌, ◌*◌, ◌/◌, ◌%◌, ◌^◌, ◌≤◌, ◌<◌, min, max, bit_and, bit_or, digits, bitwise,
  bit_and-bitwise, bit_or-bitwise,
}
use mathlib.Core.Path.{◌≡◌, refl, ap, sym, ◌∙◌}
use mathlib.Core.Logic.{inl, inr}
use mathlib.Core.Bool.{Bool, true, ◌&&◌}
use native.Mathlib.Omega.{arith}
use native.Mathlib.Nat.{pow-suc, one-le-pow, div-div-eq-div-mul, mul-one, add-zero, mul_assoc}
use libusual_archive.Base.Tests.{◌==◌, ==_iff, Bool-cases}

-- Two functions that agree on every argument below a bound.
agree_below : (ℕ → ℕ) → (ℕ → ℕ) → ℕ → Bool
agree_below f g zero = true
agree_below f g (suc bound) = agree_below f g bound && (f bound == g bound)

agree_below_sound :
    (f g : ℕ → ℕ) (bound : ℕ)
    → agree_below f g bound ≡ true
    → (arg : ℕ) → arg < bound
    → f arg ≡ g arg
unfolding agree_below
agree_below_sound f g zero same arg small = absurd (ground arith)
agree_below_sound f g (suc bound) same arg small = elim (Bool-cases (arg == bound)) [
  | inl last ↦
      let e = (==_iff arg bound).0 last in rw e ((==_iff (f bound) (g bound)).0 (ground arith))
  | inr earlier ↦ agree_below_sound f g bound (ground arith) arg (ground arith)
]

unfoldable pub agree_on_bytes : (ℕ → ℕ) → (ℕ → ℕ) → Bool
unfolding agree_below
agree_on_bytes f g = agree_below f g 256

pub agree_on_bytes_sound : (f g : ℕ → ℕ) → agree_on_bytes f g ≡ true → (x : ℕ) → x < 256 → f x ≡ g x
unfolding agree_on_bytes
agree_on_bytes_sound f g = agree_below_sound f g 256

-- The recursion on digits stops at its first number: more fuel than that changes nothing.
module _ (alone : ℕ → ℕ) (join : ℕ → ℕ → ℕ) where
  no_digits : (fuel other : ℕ) → digits alone join fuel 0 other ≡ alone other
  no_digits zero other = refl
  no_digits (suc fuel) other = refl

  any_fuel :
      (number long short other : ℕ)
      → number ≤ min long short
      → digits alone join long number other ≡ digits alone join short number other
  any_fuel zero long short other enough = no_digits long other ∙ sym (no_digits short other)
  any_fuel (suc number) (suc long) (suc short) other enough =
      rw (any_fuel (suc number / 2) long short (other / 2) (omega arith))
  any_fuel (suc number) zero short other enough = absurd (omega arith)
  any_fuel (suc number) (suc long) zero other enough = absurd (omega arith)

  pub lowest_digit :
      (number other : ℕ)
      → bitwise alone join (suc number) other
        ≡ bitwise alone join (suc number / 2) (other / 2) * 2 + join (suc number % 2) (other % 2)
  lowest_digit number other =
      rw (any_fuel (suc number / 2) number (suc number / 2) (other / 2) (omega arith))

-- The lowest binary digit of `|` and of `&`, and the digits above it.
pub bit_or_step : (x y : ℕ) → bit_or x y ≡ bit_or (x / 2) (y / 2) * 2 + max (x % 2) (y % 2)
bit_or_step zero y = rw (bit_or-bitwise 0 y, bit_or-bitwise 0 (y / 2)) (omega arith)
bit_or_step (suc x) y =
    rw (bit_or-bitwise (suc x) y, bit_or-bitwise (suc x / 2) (y / 2))
      (lowest_digit (λ rest. rest) max x y)

pub bit_and_step : (x y : ℕ) → bit_and x y ≡ bit_and (x / 2) (y / 2) * 2 + min (x % 2) (y % 2)
bit_and_step zero y = rw (bit_and-bitwise 0 y, bit_and-bitwise 0 (y / 2)) (omega arith)
bit_and_step (suc x) y =
    rw (bit_and-bitwise (suc x) y, bit_and-bitwise (suc x / 2) (y / 2))
      (lowest_digit (λ rest. 0) min x y)

pub zero-bit_or : (b : ℕ) → bit_or 0 b ≡ b
zero-bit_or b = simp bit_or-bitwise

bit_or-zero_below : (n a : ℕ) → a < n → bit_or a 0 ≡ a
bit_or-zero_below zero a h = absurd (ground arith)
bit_or-zero_below (suc n) zero h = zero-bit_or 0
bit_or-zero_below (suc n) (suc a) h =
    omega (arith, bit_or_step (suc a) 0, bit_or-zero_below n (suc a / 2) (omega arith))

pub bit_or-zero : (a : ℕ) → bit_or a 0 ≡ a
bit_or-zero a = bit_or-zero_below (suc a) a (omega arith)

bit_and-zero_below : (n a : ℕ) → a < n → bit_and a 0 ≡ 0
bit_and-zero_below zero a h = absurd (ground arith)
bit_and-zero_below (suc n) zero h = simp bit_and-bitwise
bit_and-zero_below (suc n) (suc a) h =
    omega (arith, bit_and_step (suc a) 0, bit_and-zero_below n (suc a / 2) (omega arith))

pub bit_and-zero : (a : ℕ) → bit_and a 0 ≡ 0
bit_and-zero a = bit_and-zero_below (suc a) a (omega arith)

pub double-mul-pow : (q k : ℕ) → q * 2 ^ suc k ≡ 2 * (q * 2 ^ k)
double-mul-pow q k = omega (arith, ap (λ (p : ℕ). q * p) (pow-suc 2 k))

pub pow_sum : (k j : ℕ) → 2 ^ (k + j) ≡ 2 ^ k * 2 ^ j
pow_sum k zero = let e : k + 0 ≡ k = omega arith in rw e (omega arith)
pow_sum k (suc j) =
    let e : k + suc j ≡ suc (k + j) = omega arith in
    rw (e, pow-suc 2 (k + j), pow-suc 2 j, pow_sum k j) (mul_assoc (2 ^ k) (2 ^ j) 2)

-- `(hi << k) | lo` where `lo` has at most `k` bits.
pub bit_or-fields : (k hi lo : ℕ) → lo < 2 ^ k → bit_or (hi * 2 ^ k) lo ≡ hi * 2 ^ k + lo
bit_or-fields zero hi lo h = ground (arith, bit_or-zero hi)
bit_or-fields (suc k) hi lo h = ground (
  arith,
  double-mul-pow hi k,
  pow-suc 2 k,
  bit_or_step (hi * 2 ^ suc k) lo,
  bit_or-fields k hi (lo / 2),
)

low_of_fields : (k hi lo : ℕ) → lo < 2 ^ k → bit_and (hi * 2 ^ k + lo) (2 ^ k - 1) ≡ lo
low_of_fields zero hi lo h = ground (arith, bit_and-zero (hi * 2 ^ 0 + lo))
low_of_fields (suc k) hi lo h = ground (
  arith,
  double-mul-pow hi k,
  pow-suc 2 k,
  bit_and_step (hi * 2 ^ suc k + lo) (2 ^ suc k - 1),
  low_of_fields k hi (lo / 2),
)

-- `x & (2^k - 1)`.
pub bit_and-low : (k x : ℕ) → bit_and x (2 ^ k - 1) ≡ x % 2 ^ k
bit_and-low k x = ground (arith, one-le-pow k 2, low_of_fields k (x / 2 ^ k) (x % 2 ^ k))

-- `x & (m << k)`.
pub bit_and-shifted : (k x m : ℕ) → bit_and x (m * 2 ^ k) ≡ bit_and (x / 2 ^ k) m * 2 ^ k
bit_and-shifted zero x m = ground arith
bit_and-shifted (suc k) x m = ground (
  arith,
  double-mul-pow m k,
  double-mul-pow (bit_and (x / 2 ^ suc k) m) k,
  bit_and_step x (m * 2 ^ suc k),
  bit_and-shifted k (x / 2) m,
  div-div-eq-div-mul x 2 (2 ^ k),
  pow-suc 2 k,
)

-- A mask of two fields on a value of two fields.
pub bit_and-fields :
    (k hi lo mask_hi mask_lo : ℕ)
    → lo < 2 ^ k
    → mask_lo < 2 ^ k
    → bit_and (hi * 2 ^ k + lo) (mask_hi * 2 ^ k + mask_lo)
      ≡ bit_and hi mask_hi * 2 ^ k + bit_and lo mask_lo
bit_and-fields zero hi lo mask_hi mask_lo h m =
    let e : lo ≡ 0 = ground arith in
    let f : mask_lo ≡ 0 = ground arith in
    rw
      (
        e,
        f,
        mul-one hi,
        mul-one mask_hi,
        mul-one (bit_and hi mask_hi),
        add-zero hi,
        add-zero mask_hi,
      )
      (omega arith)
bit_and-fields (suc k) hi lo mask_hi mask_lo h m = ground (
  arith,
  double-mul-pow hi k,
  double-mul-pow mask_hi k,
  double-mul-pow (bit_and hi mask_hi) k,
  pow-suc 2 k,
  bit_and_step (hi * 2 ^ suc k + lo) (mask_hi * 2 ^ suc k + mask_lo),
  bit_and_step lo mask_lo,
  bit_and-fields k hi (lo / 2) mask_hi (mask_lo / 2),
)

pub bit_or-pairs :
    (k hi lo hi' lo' : ℕ)
    → lo < 2 ^ k
    → lo' < 2 ^ k
    → bit_or (hi * 2 ^ k + lo) (hi' * 2 ^ k + lo') ≡ bit_or hi hi' * 2 ^ k + bit_or lo lo'
bit_or-pairs zero hi lo hi' lo' h m =
    let e : lo ≡ 0 = ground arith in
    let f : lo' ≡ 0 = ground arith in
    rw (e, f, mul-one hi, mul-one hi', mul-one (bit_or hi hi'), add-zero hi, add-zero hi')
      (omega arith)
bit_or-pairs (suc k) hi lo hi' lo' h m = ground (
  arith,
  double-mul-pow hi k,
  double-mul-pow hi' k,
  double-mul-pow (bit_or hi hi') k,
  pow-suc 2 k,
  bit_or_step (hi * 2 ^ suc k + lo) (hi' * 2 ^ suc k + lo'),
  bit_or_step lo lo',
  bit_or-pairs k hi (lo / 2) hi' (lo' / 2),
)
