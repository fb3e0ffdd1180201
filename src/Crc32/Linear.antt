-- ===== src/Crc32/Linear.antt =====
-- The division by the polynomial of CRC-32, one bit at a time, which usual/hashing/crc32.c does by a table.
use Prim.Native.Nat.{bit_xor}
use native.Mathlib.Nat.{pow-suc, mul_assoc}
use libusual_archive.Base.{
  ℕ, zero, suc, ◌*◌, ◌/◌, ◌%◌, ◌^◌, ◌≡◌, ◌==◌, if◌then◌else◌, refl, sym, ap, ◌∙◌, arith, Bool-cases,
  inl, inr, ◌⊎◌,
}
use libusual_archive.Base.Xor.{
  bit_xor_comm, bit_xor_assoc, bit_xor-twice, bit_xor-half, bit_xor-odd,
}

-- 0x04c11db7 with its bits in reverse.
abbrev pub polynomial : ℕ
polynomial = 0xedb88320

-- The lowest bit goes out, and the polynomial is subtracted if it was set.
abbrev pub shift_out : ℕ → ℕ
shift_out x = if x % 2 == 1 then bit_xor (x / 2) polynomial else x / 2

abbrev pub shift_many : ℕ → ℕ → ℕ
shift_many zero x = x
shift_many (suc n) x = shift_many n (shift_out x)

both_sides : {a b c d : ℕ} → a ≡ b → c ≡ d → bit_xor a c ≡ bit_xor b d
both_sides {a} {b} {c} {d} e f = rw (e, f) refl

swap_last : (a b p : ℕ) → bit_xor (bit_xor a p) b ≡ bit_xor (bit_xor a b) p
swap_last a b p =
    bit_xor_assoc a p b ∙ ap (bit_xor a) (bit_xor_comm p b) ∙ sym (bit_xor_assoc a b p)

shift_odd : (x : ℕ) → x % 2 ≡ 1 → shift_out x ≡ bit_xor (x / 2) polynomial
shift_odd x e = rw e refl

shift_even : (x : ℕ) → x % 2 ≡ 0 → shift_out x ≡ x / 2
shift_even x e = rw e refl

parity : (x : ℕ) → (x % 2 ≡ 1) ⊎ (x % 2 ≡ 0)
parity x = elim (Bool-cases (x % 2 == 1)) [
  | inl e ↦ inl (ground arith)
  | inr e ↦ inr (ground arith)
]

shift_out-bit_xor : (x y : ℕ) → shift_out (bit_xor x y) ≡ bit_xor (shift_out x) (shift_out y)
shift_out-bit_xor x y =
    let half = bit_xor-half x y in
    let odd = bit_xor-odd x y in
    let flipped : bit_xor x y % 2 ≡ 1
        → shift_out (bit_xor x y) ≡ bit_xor (bit_xor (x / 2) (y / 2)) polynomial =
      λ e. shift_odd (bit_xor x y) e ∙ ap (λ h. bit_xor h polynomial) half in
    let plain : bit_xor x y % 2 ≡ 0 → shift_out (bit_xor x y) ≡ bit_xor (x / 2) (y / 2) =
      λ e. shift_even (bit_xor x y) e ∙ half in
    elim (parity x) [
      | inl e ↦ elim (parity y) [
        | inl f ↦
            plain (omega arith)
            ∙ sym (bit_xor-twice (bit_xor (x / 2) (y / 2)) polynomial)
            ∙ ap (λ h. bit_xor h polynomial) (sym (swap_last (x / 2) (y / 2) polynomial))
            ∙ bit_xor_assoc (bit_xor (x / 2) polynomial) (y / 2) polynomial
            ∙ sym (both_sides (shift_odd x e) (shift_odd y f))
        | inr f ↦
            flipped (omega arith)
            ∙ sym (swap_last (x / 2) (y / 2) polynomial)
            ∙ sym (both_sides (shift_odd x e) (shift_even y f))
      ]
      | inr e ↦ elim (parity y) [
        | inl f ↦
            flipped (omega arith)
            ∙ bit_xor_assoc (x / 2) (y / 2) polynomial
            ∙ sym (both_sides (shift_even x e) (shift_odd y f))
        | inr f ↦ plain (omega arith) ∙ sym (both_sides (shift_even x e) (shift_even y f))
      ]
    ]

-- The division is linear.
pub shift_many-bit_xor :
    (n x y : ℕ) → shift_many n (bit_xor x y) ≡ bit_xor (shift_many n x) (shift_many n y)
shift_many-bit_xor zero x y = refl
shift_many-bit_xor (suc n) x y =
    ap (shift_many n) (shift_out-bit_xor x y) ∙ shift_many-bit_xor n (shift_out x) (shift_out y)

-- Bits above the first n only move.
pub shift_many-high : (n x : ℕ) → shift_many n (x * 2 ^ n) ≡ x
shift_many-high zero x = omega arith
shift_many-high (suc n) x =
    let twice : x * 2 ^ suc n ≡ x * 2 ^ n * 2 =
      ap (λ p. x * p) (pow-suc 2 n) ∙ sym (mul_assoc x (2 ^ n) 2) in
    ap (shift_many n) (shift_even (x * 2 ^ suc n) (omega (arith, twice)) ∙ omega (arith, twice))
    ∙ shift_many-high n x
