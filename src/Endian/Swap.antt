-- ===== src/Endian/Swap.antt =====
-- usual/endian.h: the byte swaps on the bytes of a number.
use libusual_archive.Base.{ℕ, ◌+◌, ◌*◌, ◌/◌, ◌%◌, ◌^◌, ◌<◌, ◌≡◌, sym, ap, ◌∙◌, arith}
use libusual_archive.Base.Bits.{
  bit_or-fields, bit_and-fields, bit_or-pairs, bit_and-low, bit_and-zero,
}
use libusual_archive.Endian.{bswap16, bswap32, bswap64}
use Prim.Native.Nat.{bit_and, bit_or}

-- bswap16 exchanges the two bytes.
pub bswap16_lem : (a b : ℕ) → a < 2 ^ 8 → b < 2 ^ 8 → bswap16 (a * 2 ^ 8 + b) ≡ b * 2 ^ 8 + a
unfolding bswap16
bswap16_lem a b p q =
    let e : (a * 2 ^ 8 + b) / 2 ^ 8 ≡ a = omega arith in
    rw (e, bit_or-fields 8 (a * 2 ^ 8 + b) a p) (omega arith)

alternate :
    (a b c : ℕ)
    → a < 2 ^ 8
    → b < 2 ^ 8
    → c < 2 ^ 8
    → bit_and ((a * 2 ^ 8 + b) * 2 ^ 8 + c) 0x00ff00ff ≡ a * 2 ^ 16 + c
alternate a b c p q r =
    let top : bit_and (a * 2 ^ 8 + b) 0xff00 ≡ bit_and a 0xff * 2 ^ 8 + bit_and b 0 =
      bit_and-fields 8 a b 0xff 0 q (omega arith) in
    let all : bit_and ((a * 2 ^ 8 + b) * 2 ^ 8 + c) 0x00ff00ff
        ≡ bit_and (a * 2 ^ 8 + b) 0xff00 * 2 ^ 8 + bit_and c 0xff =
      bit_and-fields 8 (a * 2 ^ 8 + b) c 0xff00 0xff r (omega arith) in
    let low_a : bit_and a 0xff ≡ a % 2 ^ 8 = bit_and-low 8 a in
    let low_c : bit_and c 0xff ≡ c % 2 ^ 8 = bit_and-low 8 c in
    omega (arith, top, all, low_a, low_c, bit_and-zero b)

abbrev pub four_bytes : ℕ → ℕ → ℕ → ℕ → ℕ
four_bytes a b c d = (a * 2 ^ 8 + b) * 2 ^ 16 + (c * 2 ^ 8 + d)

-- bswap32 reverses the four bytes.
pub bswap32_lem :
    (a b c d : ℕ)
    → a < 2 ^ 8
    → b < 2 ^ 8
    → c < 2 ^ 8
    → d < 2 ^ 8
    → bswap32 (four_bytes a b c d) ≡ four_bytes d c b a
unfolding bswap32
bswap32_lem a b c d p q r s =
    let up : four_bytes a b c d * 2 ^ 8 % 2 ^ 32 ≡ ((b * 2 ^ 8 + c) * 2 ^ 8 + d) * 2 ^ 8 + 0 =
      omega arith in
    let down : four_bytes a b c d / 2 ^ 8 ≡ (a * 2 ^ 8 + b) * 2 ^ 8 + c = omega arith in
    let left : bit_and (((b * 2 ^ 8 + c) * 2 ^ 8 + d) * 2 ^ 8 + 0) 0xff00ff00
        ≡ (b * 2 ^ 8) * 2 ^ 16 + d * 2 ^ 8 =
      bit_and-fields 8 ((b * 2 ^ 8 + c) * 2 ^ 8 + d) 0 0xff00ff 0 (omega arith) (omega arith)
      ∙ ap (λ n. n * 2 ^ 8 + 0) (alternate b c d q r s)
      ∙ (omega arith) in
    let joined : bit_or ((b * 2 ^ 8) * 2 ^ 16 + d * 2 ^ 8) (a * 2 ^ 16 + c) ≡ four_bytes b a d c =
      bit_or-pairs 16 (b * 2 ^ 8) (d * 2 ^ 8) a c (omega arith) (omega arith)
      ∙ omega (arith, bit_or-fields 8 b a p, bit_or-fields 8 d c r) in
    let up2 : four_bytes b a d c * 2 ^ 16 % 2 ^ 32 ≡ (d * 2 ^ 8 + c) * 2 ^ 16 = omega arith in
    let down2 : four_bytes b a d c / 2 ^ 16 ≡ b * 2 ^ 8 + a = omega arith in
    rw (up, down, left, alternate a b c p q r, joined, up2, down2)
      (bit_or-fields 16 (d * 2 ^ 8 + c) (b * 2 ^ 8 + a) (omega arith))

bytes_of :
    (x : ℕ)
    → x < 2 ^ 32
    → x ≡ four_bytes (x / 2 ^ 24) (x / 2 ^ 16 % 2 ^ 8) (x / 2 ^ 8 % 2 ^ 8) (x % 2 ^ 8)
bytes_of x lt = omega arith

abbrev reversed : ℕ → ℕ
reversed x = four_bytes (x % 2 ^ 8) (x / 2 ^ 8 % 2 ^ 8) (x / 2 ^ 16 % 2 ^ 8) (x / 2 ^ 24)

bswap32-reversed : (x : ℕ) → x < 2 ^ 32 → bswap32 x ≡ reversed x
bswap32-reversed x lt =
    ap bswap32 (bytes_of x lt)
    ∙ bswap32_lem (x / 2 ^ 24) (x / 2 ^ 16 % 2 ^ 8) (x / 2 ^ 8 % 2 ^ 8) (x % 2 ^ 8) (omega arith)
        (omega arith) (omega arith) (omega arith)

pub bswap32-below : (x : ℕ) → x < 2 ^ 32 → bswap32 x < 2 ^ 32
bswap32-below x lt = rw (bswap32-reversed x lt) (omega arith)

-- bswap32 undoes itself on 32-bit values.
pub bswap32-bswap32 : (x : ℕ) → x < 2 ^ 32 → bswap32 (bswap32 x) ≡ x
bswap32-bswap32 x lt =
    ap bswap32 (bswap32-reversed x lt)
    ∙ bswap32_lem (x % 2 ^ 8) (x / 2 ^ 8 % 2 ^ 8) (x / 2 ^ 16 % 2 ^ 8) (x / 2 ^ 24) (omega arith)
        (omega arith) (omega arith) (omega arith)
    ∙ sym (bytes_of x lt)

pub bswap16-bswap16 : (x : ℕ) → x < 2 ^ 16 → bswap16 (bswap16 x) ≡ x
bswap16-bswap16 x lt =
    let e : x ≡ x / 2 ^ 8 * 2 ^ 8 + x % 2 ^ 8 = omega arith in
    ap (λ n. bswap16 (bswap16 n)) e
    ∙ ap bswap16 (bswap16_lem (x / 2 ^ 8) (x % 2 ^ 8) (omega arith) (omega arith))
    ∙ bswap16_lem (x % 2 ^ 8) (x / 2 ^ 8) (omega arith) (omega arith)
    ∙ sym e

-- bswap64 exchanges the halves and swaps each of them.
pub bswap64_lem :
    (hi lo : ℕ)
    → hi < 2 ^ 32
    → lo < 2 ^ 32
    → bswap64 (hi * 2 ^ 32 + lo) ≡ bswap32 lo * 2 ^ 32 + bswap32 hi
unfolding bswap64
bswap64_lem hi lo p q =
    let low : (hi * 2 ^ 32 + lo) % 2 ^ 32 ≡ lo = omega arith in
    let high : (hi * 2 ^ 32 + lo) / 2 ^ 32 ≡ hi = omega arith in
    let fits : bswap32 lo * 2 ^ 32 % 2 ^ 64 ≡ bswap32 lo * 2 ^ 32 =
      omega (arith, bswap32-below lo q) in
    rw (low, high, fits) (bit_or-fields 32 (bswap32 lo) (bswap32 hi) (bswap32-below hi p))

pub bswap64-bswap64 : (x : ℕ) → x < 2 ^ 64 → bswap64 (bswap64 x) ≡ x
bswap64-bswap64 x lt =
    let hi : x / 2 ^ 32 < 2 ^ 32 = omega arith in
    let lo : x % 2 ^ 32 < 2 ^ 32 = omega arith in
    let e : x ≡ x / 2 ^ 32 * 2 ^ 32 + x % 2 ^ 32 = omega arith in
    ap (λ n. bswap64 (bswap64 n)) e
    ∙ ap bswap64 (bswap64_lem (x / 2 ^ 32) (x % 2 ^ 32) hi lo)
    ∙ bswap64_lem (bswap32 (x % 2 ^ 32)) (bswap32 (x / 2 ^ 32)) (bswap32-below (x % 2 ^ 32) lo)
        (bswap32-below (x / 2 ^ 32) hi)
    ∙ omega (arith, bswap32-bswap32 (x / 2 ^ 32) hi, bswap32-bswap32 (x % 2 ^ 32) lo)
