-- ===== src/Bits/Rotate.antt =====
-- usual/bits.h: rotations move the high bits below the low ones, and undo each other.
use libusual_archive.Base.{
  ℕ, suc, ◌+◌, ◌-◌, ◌*◌, ◌/◌, ◌%◌, ◌^◌, ◌<◌, ◌≤◌, ◌≡◌, sym, ap, ◌∙◌, subst, arith,
}
use libusual_archive.Base.Bits.{bit_or-fields, pow_sum}
use libusual_archive.Bits.{rol16, rol32, rol64, ror16, ror32, ror64}
use Prim.Native.Nat.{bit_or}
use native.Mathlib.Nat.{
  mul-add-mod_self_right, mod-eq_of_lt, div-add-mod', mul-lt-mul_of_pos_right, add-mul, mul_assoc,
  mul_comm, mod-lt, one-le-pow, add-mul-div_right, div-eq_of_lt, div-lt_iff_lt-mul, suc-mul,
  mul-le-mul_right, add_comm, zero-add,
}

-- The low `w - s` bits of a value, shifted by `s`, with its high `s` bits below them.
unfoldable pub rotated : (w s v : ℕ) → ℕ
rotated w s v = v % 2 ^ (w - s) * 2 ^ s + v / 2 ^ (w - s)

widths : (w s : ℕ) → s ≤ w → 2 ^ w ≡ 2 ^ s * 2 ^ (w - s)
widths w s le =
    let e : w ≡ s + (w - s) = omega arith in
    subst (λ n. 2 ^ n ≡ 2 ^ s * 2 ^ (w - s)) (sym e) (pow_sum s (w - s))

split_shift : (v p q : ℕ) → v * p ≡ v / q * (p * q) + v % q * p
split_shift v p q =
    let e : v / q * q * p ≡ v / q * (p * q) =
      mul_assoc (v / q) q p ∙ ap (λ n. v / q * n) (mul_comm q p) in
    ap (λ n. n * p) (sym (div-add-mod' v q))
    ∙ add-mul (v / q * q) (v % q) p
    ∙ ap (λ n. n + v % q * p) e

shift_out : (v p q : ℕ) → 0 < p → 0 < q → v * p % (p * q) ≡ v % q * p
shift_out v p q pp qq =
    let lt : v % q * p < p * q = omega (
      arith,
      mul-lt-mul_of_pos_right {m = v % q} {n = q} {k = p} (mod-lt v {m = q} qq) pp,
      mul_comm q p,
    ) in
    ap (λ n. n % (p * q)) (split_shift v p q)
    ∙ mul-add-mod_self_right (v / q) (p * q) (v % q * p)
    ∙ mod-eq_of_lt lt

high_bits : (w s v : ℕ) → s ≤ w → v < 2 ^ w → v / 2 ^ (w - s) < 2 ^ s
high_bits w s v le lt =
    (div-lt_iff_lt-mul {k = 2 ^ (w - s)} {x = v} {y = 2 ^ s} (one-le-pow (w - s) 2 (omega arith))).1
      (omega (arith, widths w s le))

joined :
    (w s v : ℕ) → s ≤ w → v < 2 ^ w → bit_or (v * 2 ^ s % 2 ^ w) (v / 2 ^ (w - s)) ≡ rotated w s v
unfolding rotated
joined w s v le lt =
    rw
      (
        widths w s le,
        shift_out v (2 ^ s) (2 ^ (w - s)) (one-le-pow s 2 (omega arith))
            (one-le-pow (w - s) 2 (omega arith)),
      )
      (bit_or-fields s (v % 2 ^ (w - s)) (v / 2 ^ (w - s)) (high_bits w s v le lt))

rotated_below : (w s v : ℕ) → s ≤ w → v < 2 ^ w → rotated w s v < 2 ^ w
unfolding rotated
rotated_below w s v le lt = omega (
  arith,
  widths w s le,
  high_bits w s v le lt,
  mul_comm (2 ^ s) (2 ^ (w - s)),
  suc-mul (v % 2 ^ (w - s)) (2 ^ s),
  mul-le-mul_right {m = suc (v % 2 ^ (w - s))} {n = 2 ^ (w - s)} (2 ^ s)
      (mod-lt v {m = 2 ^ (w - s)} (one-le-pow (w - s) 2 (omega arith))),
)

regroup :
    (w s v : ℕ) → s ≤ w → v * 2 ^ s + v / 2 ^ (w - s) ≡ v / 2 ^ (w - s) * 2 ^ w + rotated w s v
unfolding rotated
regroup w s v le = rw (widths w s le) (omega (arith, split_shift v (2 ^ s) (2 ^ (w - s))))

truncated : (w s v : ℕ) → s ≤ w → v < 2 ^ w → (v * 2 ^ s + v / 2 ^ (w - s)) % 2 ^ w ≡ rotated w s v
truncated w s v le lt =
    let e : v * 2 ^ s + v / 2 ^ (w - s) ≡ v / 2 ^ (w - s) * 2 ^ w + rotated w s v =
      regroup w s v le in
    ap (λ n. n % 2 ^ w) e
    ∙ mul-add-mod_self_right (v / 2 ^ (w - s)) (2 ^ w) (rotated w s v)
    ∙ mod-eq_of_lt (rotated_below w s v le lt)

rotated_back : (w s v : ℕ) → s ≤ w → v < 2 ^ w → rotated w (w - s) (rotated w s v) ≡ v
unfolding rotated
rotated_back w s v le lt =
    let e : w - (w - s) ≡ s = omega arith in
    let hi = high_bits w s v le lt in
    let low : (v % 2 ^ (w - s) * 2 ^ s + v / 2 ^ (w - s)) % 2 ^ s ≡ v / 2 ^ (w - s) =
      mul-add-mod_self_right (v % 2 ^ (w - s)) (2 ^ s) (v / 2 ^ (w - s)) ∙ mod-eq_of_lt hi in
    let high : (v % 2 ^ (w - s) * 2 ^ s + v / 2 ^ (w - s)) / 2 ^ s ≡ v % 2 ^ (w - s) =
      ap (λ n. n / 2 ^ s) (add_comm (v % 2 ^ (w - s) * 2 ^ s) (v / 2 ^ (w - s)))
      ∙ add-mul-div_right (v / 2 ^ (w - s)) (v % 2 ^ (w - s)) (one-le-pow s 2 (omega arith))
      ∙ ap (λ n. n + v % 2 ^ (w - s)) (div-eq_of_lt hi)
      ∙ zero-add (v % 2 ^ (w - s)) in
    rw (e, low, high) (div-add-mod' v (2 ^ (w - s)))

-- For values of 32 bits and shifts between 0 and 32, rol32 moves the high bits below the low ones.
pub rol32-rotated : (v s : ℕ) → 0 < s → s < 32 → v < 2 ^ 32 → rol32 v s ≡ rotated 32 s v
unfolding rol32
rol32-rotated v s pos le lt = joined 32 s v (omega arith) lt

-- For values of 16 bits and shifts between 0 and 16, rol16 moves the high bits below the low ones.
pub rol16-rotated : (v s : ℕ) → 0 < s → s < 16 → v < 2 ^ 16 → rol16 v s ≡ rotated 16 s v
unfolding rol16
rol16-rotated v s pos le lt =
    let le' : s ≤ 16 = omega arith in
    rw (bit_or-fields s v (v / 2 ^ (16 - s)) (high_bits 16 s v le' lt)) (truncated 16 s v le' lt)

-- For values of 64 bits and shifts between 0 and 64, rol64 moves the high bits below the low ones.
pub rol64-rotated : (v s : ℕ) → 0 < s → s < 64 → v < 2 ^ 64 → rol64 v s ≡ rotated 64 s v
unfolding rol64
rol64-rotated v s pos le lt = joined 64 s v (omega arith) lt

-- For values of 32 bits and shifts between 0 and 32, ror32 undoes rol32.
pub ror32-rol32 : (v s : ℕ) → 0 < s → s < 32 → v < 2 ^ 32 → ror32 (rol32 v s) s ≡ v
unfolding ror32
ror32-rol32 v s pos le lt =
    let le' : s ≤ 32 = omega arith in
    rw
      (
        rol32-rotated v s pos le lt,
        rol32-rotated (rotated 32 s v) (32 - s) (omega arith) (omega arith)
            (rotated_below 32 s v le' lt),
      )
      (rotated_back 32 s v le' lt)

-- For values of 64 bits and shifts between 0 and 64, ror64 undoes rol64.
pub ror64-rol64 : (v s : ℕ) → 0 < s → s < 64 → v < 2 ^ 64 → ror64 (rol64 v s) s ≡ v
unfolding ror64
ror64-rol64 v s pos le lt =
    let le' : s ≤ 64 = omega arith in
    rw
      (
        rol64-rotated v s pos le lt,
        rol64-rotated (rotated 64 s v) (64 - s) (omega arith) (omega arith)
            (rotated_below 64 s v le' lt),
      )
      (rotated_back 64 s v le' lt)

-- For values of 16 bits and shifts between 0 and 16, ror16 undoes rol16.
pub ror16-rol16 : (v s : ℕ) → 0 < s → s < 16 → v < 2 ^ 16 → ror16 (rol16 v s) s ≡ v
unfolding ror16
ror16-rol16 v s pos le lt =
    let le' : s ≤ 16 = omega arith in
    rw
      (
        rol16-rotated v s pos le lt,
        rol16-rotated (rotated 16 s v) (16 - s) (omega arith) (omega arith)
            (rotated_below 16 s v le' lt),
      )
      (rotated_back 16 s v le' lt)
