-- ===== src/Utf8/Masks.antt =====
-- usual/utf8.c: its masks and shifts as arithmetic, on bytes.
use Prim.Native.Nat.{bit_and, bit_or}
use libusual_archive.Base.{ℕ, ◌+◌, ◌*◌, ◌/◌, ◌%◌, ◌^◌, ◌<◌, ◌≡◌, refl, arith, ltb, ◌==◌}
use libusual_archive.Base.Bits.{
  agree_on_bytes, agree_on_bytes_sound, bit_or-fields, bit_and-low, bit_and-shifted,
}
use libusual_archive.Utf8.{u8head, u8tail, to_char}

pub head_two : (b : ℕ) → b < 256 → u8head b 0xc0 ≡ (b / 32 == 6)
unfolding u8head agree_on_bytes
head_two b h = ground (arith, agree_on_bytes_sound (λ x. bit_and x 0xe0) (λ x. x / 32 * 32) refl b)

pub head_three : (b : ℕ) → b < 256 → u8head b 0xe0 ≡ (b / 16 == 14)
unfolding u8head agree_on_bytes
head_three b h =
    ground (arith, agree_on_bytes_sound (λ x. bit_and x 0xf0) (λ x. x / 16 * 16) refl b)

pub head_four : (b : ℕ) → b < 256 → u8head b 0xf0 ≡ (b / 8 == 30)
unfolding u8head agree_on_bytes
head_four b h = ground (arith, agree_on_bytes_sound (λ x. bit_and x 0xf8) (λ x. x / 8 * 8) refl b)

pub tail_lem : (b : ℕ) → b < 256 → u8tail b ≡ (b / 64 == 2)
unfolding u8tail agree_on_bytes
tail_lem b h = ground (arith, agree_on_bytes_sound (λ x. bit_and x 0xc0) (λ x. x / 64 * 64) refl b)

pub tail_test : (b : ℕ) → b < 256 → (bit_and b 0xc0 == 0x80) ≡ (b / 64 == 2)
unfolding agree_on_bytes
tail_test b h = ground (arith, agree_on_bytes_sound (λ x. bit_and x 0xc0) (λ x. x / 64 * 64) refl b)

pub top_bit : (b : ℕ) → b < 256 → (bit_and b 0x80 == 0) ≡ ltb b 128
unfolding agree_on_bytes
top_bit b h = ground (arith, agree_on_bytes_sound (λ x. bit_and x 0x80) (λ x. x / 128 * 128) refl b)

-- The payload of a head and its tails.
pub fields_two :
    (p0 p1 : ℕ) → bit_or (bit_and p0 0x1f * 2 ^ 6) (bit_and p1 0x3f) ≡ p0 % 32 * 64 + p1 % 64
fields_two p0 p1 =
    rw (bit_and-low 5 p0, bit_and-low 6 p1) (bit_or-fields 6 (p0 % 32) (p1 % 64) (omega arith))

pub fields_three :
    (p0 p1 p2 : ℕ)
    → bit_or (bit_or (bit_and p0 0x0f * 2 ^ 12) (bit_and p1 0x3f * 2 ^ 6)) (bit_and p2 0x3f)
      ≡ p0 % 16 * 4096 + p1 % 64 * 64 + p2 % 64
fields_three p0 p1 p2 =
    rw
      (
        bit_and-low 4 p0,
        bit_and-low 6 p1,
        bit_and-low 6 p2,
        bit_or-fields 12 (p0 % 16) (p1 % 64 * 64) (omega arith),
      )
      (let e : p0 % 16 * 4096 + p1 % 64 * 64 ≡ (p0 % 16 * 64 + p1 % 64) * 64 = omega arith in
        rw e (bit_or-fields 6 (p0 % 16 * 64 + p1 % 64) (p2 % 64) (omega arith)))

pub fields_four :
    (p0 p1 p2 p3 : ℕ)
    → bit_or
        (bit_or
          (bit_or (bit_and p0 0x07 * 2 ^ 18) (bit_and p1 0x3f * 2 ^ 12))
          (bit_and p2 0x3f * 2 ^ 6))
        (bit_and p3 0x3f)
      ≡ p0 % 8 * 262144 + p1 % 64 * 4096 + p2 % 64 * 64 + p3 % 64
fields_four p0 p1 p2 p3 =
    let e1 : p0 % 8 * 262144 + p1 % 64 * 4096 ≡ (p0 % 8 * 64 + p1 % 64) * 4096 = omega arith in
    let e2 : (p0 % 8 * 64 + p1 % 64) * 4096 + p2 % 64 * 64
        ≡ (p0 % 8 * 4096 + p1 % 64 * 64 + p2 % 64) * 64 =
      omega arith in
    rw
      (
        bit_and-low 3 p0,
        bit_and-low 6 p1,
        bit_and-low 6 p2,
        bit_and-low 6 p3,
        bit_or-fields 18 (p0 % 8) (p1 % 64 * 4096) (omega arith),
        e1,
        bit_or-fields 12 (p0 % 8 * 64 + p1 % 64) (p2 % 64 * 64) (omega arith),
        e2,
        bit_or-fields 6 (p0 % 8 * 4096 + p1 % 64 * 64 + p2 % 64) (p3 % 64) (omega arith),
      )
      (omega arith)

-- The test for a surrogate, on 16 bits.
pub surrogate_lem : (c : ℕ) → c < 2 ^ 16 → (bit_and c 0xf800 == 0xd800) ≡ (c / 2048 == 27)
surrogate_lem c h = ground (arith, bit_and-shifted 11 c 31, bit_and-low 5 (c / 2 ^ 11))

-- What utf8_put_char stores.
pub put_tail : (x : ℕ) → to_char (bit_or 0x80 (bit_and x 0x3f)) ≡ 128 + x % 64
put_tail x = ground (arith, bit_and-low 6 x, bit_or-fields 6 2 (x % 64))

pub put_two : (x : ℕ) → x < 32 → to_char (bit_or 0xc0 x) ≡ 192 + x
put_two x h = ground (arith, bit_or-fields 5 6 x)

pub put_three : (x : ℕ) → x < 16 → to_char (bit_or 0xe0 x) ≡ 224 + x
put_three x h = ground (arith, bit_or-fields 4 14 x)

pub put_four : (x : ℕ) → x < 8 → to_char (bit_or 0xf0 x) ≡ 240 + x
put_four x h = ground (arith, bit_or-fields 3 30 x)
