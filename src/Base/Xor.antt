-- ===== src/Base/Xor.antt =====
-- `^` of C: the digits of its result, and its laws.
use Prim.Native.Nat.{ℕ, zero, suc, ◌+◌, ◌*◌, ◌/◌, ◌%◌, ◌^◌, ◌<◌, bit_xor, bit_xor-bitwise, differ}
use mathlib.Core.Path.{◌≡◌, refl, ap, sym, ◌∙◌}
use native.Mathlib.Omega.{arith}
use native.Mathlib.Nat.{pow-suc, mul_comm, div-div-eq-div-mul}
use libusual_archive.Base.Bits.{lowest_digit, double-mul-pow}

differ_digits : (x y : ℕ) → x < 2 → y < 2 → differ x y ≡ (x + y) % 2
differ_digits zero y h k = omega arith
differ_digits (suc zero) zero h k = refl
differ_digits (suc zero) (suc zero) h k = refl
differ_digits (suc zero) (suc (suc y)) h k = absurd (omega arith)
differ_digits (suc (suc x)) y h k = absurd (omega arith)

-- The lowest digit, and the digits above it.
pub bit_xor_step : (x y : ℕ) → bit_xor x y ≡ bit_xor (x / 2) (y / 2) * 2 + (x + y) % 2
bit_xor_step zero y = rw (bit_xor-bitwise 0 y, bit_xor-bitwise 0 (y / 2)) (omega arith)
bit_xor_step (suc x) y =
    let d = differ_digits (suc x % 2) (y % 2) (omega arith) (omega arith) in
    rw (bit_xor-bitwise (suc x) y, bit_xor-bitwise (suc x / 2) (y / 2))
      (lowest_digit (λ rest. rest) differ x y ∙ omega (arith, d))

pub zero-bit_xor : (b : ℕ) → bit_xor 0 b ≡ b
zero-bit_xor b = simp bit_xor-bitwise

comm_below : (n a b : ℕ) → a < n → b < n → bit_xor a b ≡ bit_xor b a
comm_below zero a b h k = absurd (omega arith)
comm_below (suc zero) a b h k =
    let e : a ≡ 0 = omega arith in let f : b ≡ 0 = omega arith in rw (e, f) refl
comm_below (suc (suc n)) a b h k = omega (
  arith,
  bit_xor_step a b,
  bit_xor_step b a,
  comm_below (suc n) (a / 2) (b / 2) (omega arith) (omega arith),
)

pub bit_xor_comm : (a b : ℕ) → bit_xor a b ≡ bit_xor b a
bit_xor_comm a b = comm_below (suc (a + b)) a b (omega arith) (omega arith)

pub bit_xor-zero : (a : ℕ) → bit_xor a 0 ≡ a
bit_xor-zero a = bit_xor_comm a 0 ∙ zero-bit_xor a

-- The digits above the lowest.
pub bit_xor-half : (a b : ℕ) → bit_xor a b / 2 ≡ bit_xor (a / 2) (b / 2)
bit_xor-half a b = omega (arith, bit_xor_step a b)

pub bit_xor-odd : (a b : ℕ) → bit_xor a b % 2 ≡ (a + b) % 2
bit_xor-odd a b = omega (arith, bit_xor_step a b)

assoc_below :
    (n a b c : ℕ) → a < n → b < n → c < n → bit_xor (bit_xor a b) c ≡ bit_xor a (bit_xor b c)
assoc_below zero a b c h k l = absurd (omega arith)
assoc_below (suc zero) a b c h k l =
    let e : a ≡ 0 = omega arith in rw (e, zero-bit_xor b, zero-bit_xor (bit_xor b c)) refl
assoc_below (suc (suc n)) a b c h k l =
    let ih =
      assoc_below (suc n) (a / 2) (b / 2) (c / 2) (omega arith) (omega arith) (omega arith) in
    let left =
      bit_xor_step (bit_xor a b) c
      ∙ ap (λ t. bit_xor t (c / 2) * 2 + (bit_xor a b + c) % 2) (bit_xor-half a b) in
    let right =
      bit_xor_step a (bit_xor b c)
      ∙ ap (λ t. bit_xor (a / 2) t * 2 + (a + bit_xor b c) % 2) (bit_xor-half b c) in
    omega (arith, left, right, ih, bit_xor-odd a b, bit_xor-odd b c)

pub bit_xor_assoc : (a b c : ℕ) → bit_xor (bit_xor a b) c ≡ bit_xor a (bit_xor b c)
bit_xor_assoc a b c = assoc_below (suc (a + b + c)) a b c (omega arith) (omega arith) (omega arith)

self_below : (n a : ℕ) → a < n → bit_xor a a ≡ 0
self_below zero a h = absurd (omega arith)
self_below (suc zero) a h = let e : a ≡ 0 = omega arith in rw e (zero-bit_xor 0)
self_below (suc (suc n)) a h =
    omega (arith, bit_xor_step a a, self_below (suc n) (a / 2) (omega arith))

pub bit_xor_self : (a : ℕ) → bit_xor a a ≡ 0
bit_xor_self a = self_below (suc a) a (omega arith)

-- Twice the same number.
pub bit_xor-twice : (a b : ℕ) → bit_xor (bit_xor a b) b ≡ a
bit_xor-twice a b = bit_xor_assoc a b b ∙ ap (bit_xor a) (bit_xor_self b) ∙ bit_xor-zero a

-- `(hi << k) ^ lo` where `lo` has at most `k` bits.
pub bit_xor-fields : (k hi lo : ℕ) → lo < 2 ^ k → bit_xor (hi * 2 ^ k) lo ≡ hi * 2 ^ k + lo
bit_xor-fields zero hi lo h = ground (arith, bit_xor-zero hi)
bit_xor-fields (suc k) hi lo h = ground (
  arith,
  double-mul-pow hi k,
  pow-suc 2 k,
  bit_xor_step (hi * 2 ^ suc k) lo,
  bit_xor-fields k hi (lo / 2),
)

div_one : (a : ℕ) → a / 1 ≡ a
div_one a = omega arith

halves : (k a : ℕ) → a / 2 ^ suc k ≡ a / 2 / 2 ^ k
halves k a =
    ap (λ t. a / t) (pow-suc 2 k ∙ mul_comm (2 ^ k) 2) ∙ sym (div-div-eq-div-mul a 2 (2 ^ k))

-- `(a ^ b) >> k`.
pub bit_xor-shift : (k a b : ℕ) → bit_xor a b / 2 ^ k ≡ bit_xor (a / 2 ^ k) (b / 2 ^ k)
bit_xor-shift zero a b = rw (div_one a, div_one b, div_one (bit_xor a b)) refl
bit_xor-shift (suc k) a b =
    rw (halves k a, halves k b, halves k (bit_xor a b), bit_xor-half a b)
      (bit_xor-shift k (a / 2) (b / 2))
