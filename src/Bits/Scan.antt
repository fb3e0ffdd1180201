-- ===== src/Bits/Scan.antt =====
-- usual/bits.h: what fls and ffs find, and that their loops end.
use libusual_archive.Base.{
  ℕ, zero, suc, ◌+◌, ◌*◌, ◌/◌, ◌%◌, ◌^◌, ◌<◌, ◌≤◌, ◌≡◌, refl, ltb, ◌==◌, arith, Bool-cases, inl,
  inr, ◌⊎◌, Returns, Returns-map,
}
use libusual_archive.Base.Bits.{bit_and-low}
use Prim.Native.Nat.{bit_and}
use native.Mathlib.Nat.{pow-suc, mul_assoc}
use libusual_archive.Bits.{fls, ffs, fls_loop, ffs_loop}

fls_loop_lem :
    (fuel bit u : ℕ)
    → 0 < u
    → u < 2 ^ fuel
    → Returns (λ r. (k : ℕ) × (r ≡ bit + k) × (2 ^ k ≤ u) × (u < 2 ^ suc k)) (fls_loop fuel bit u)
unfolding fls_loop
fls_loop_lem zero bit u p lt = absurd (omega arith)
fls_loop_lem (suc fuel) bit u p lt = elim (Bool-cases (ltb 1 u)) [
  | inl e ↦ rw e (
      Returns-map
        (fls_loop_lem fuel (bit + 1) (u / 2) (ground arith) (omega (arith, pow-suc 2 fuel)))
        (λ r (k, s, lo, hi).
          (suc k, omega arith, omega (arith, pow-suc 2 k), omega (arith, pow-suc 2 (suc k)))))
  | inr e ↦ rw e (bit, refl, (0, omega arith, p, ground arith))
]

-- The loop of fls ends on a value of w bits: it returns 0 for 0, and else the one-based position of the highest bit.
pub fls_lem :
    (w x : ℕ)
    → x < 2 ^ w
    → Returns
        (λ r. (x ≡ 0) × (r ≡ 0) ⊎ ((k : ℕ) × (r ≡ suc k) × (2 ^ k ≤ x) × (x < 2 ^ suc k)))
        (fls w x)
unfolding fls
fls_lem w x lt = elim (Bool-cases (x == 0)) [
  | inl e ↦ rw e (0, refl, inl (ground arith, refl))
  | inr e ↦ rw e (
      Returns-map (fls_loop_lem w 1 x (ground arith) lt)
        (λ r (k, s, lo, hi). inr (k, omega arith, lo, hi)))
]

lowest : (u : ℕ) → bit_and u 1 ≡ u % 2
lowest u = bit_and-low 1 u

doubled : (m k u : ℕ) → u % 2 ≡ 0 → u / 2 ≡ (2 * m + 1) * 2 ^ k → u ≡ (2 * m + 1) * 2 ^ suc k
doubled m k u even odd = rw (pow-suc 2 k) (omega (arith, mul_assoc (2 * m + 1) (2 ^ k) 2))

ffs_loop_lem :
    (fuel bit u : ℕ)
    → 0 < u
    → u < 2 ^ fuel
    → Returns
        (λ r. (k : ℕ) × (r ≡ bit + k) × ((m : ℕ) × (u ≡ (2 * m + 1) * 2 ^ k)))
        (ffs_loop fuel bit u)
unfolding ffs_loop
ffs_loop_lem zero bit u p lt = absurd (omega arith)
ffs_loop_lem (suc fuel) bit u p lt = elim (Bool-cases (bit_and u 1 == 0)) [
  | inl e ↦
      let even : u % 2 ≡ 0 = ground (arith, lowest u) in
      rw e (
        Returns-map
          (ffs_loop_lem fuel (bit + 1) (u / 2) (omega arith) (omega (arith, pow-suc 2 fuel)))
          (λ r (k, s, (m, odd)). (suc k, omega arith, (m, doubled m k u even odd))))
  | inr e ↦
      let odd : u % 2 ≡ 1 = ground (arith, lowest u) in
      rw e (bit, refl, (0, omega arith, (u / 2, omega arith)))
]

-- The loop of ffs ends on a value of w bits: it returns 0 for 0, and else the one-based position of the lowest bit, so that the value is
-- an odd number shifted to it.
pub ffs_lem :
    (w x : ℕ)
    → x < 2 ^ w
    → Returns
        (λ r. (x ≡ 0) × (r ≡ 0) ⊎ ((k : ℕ) × (r ≡ suc k) × ((m : ℕ) × (x ≡ (2 * m + 1) * 2 ^ k))))
        (ffs w x)
unfolding ffs
ffs_lem w x lt = elim (Bool-cases (x == 0)) [
  | inl e ↦ rw e (0, refl, inl (ground arith, refl))
  | inr e ↦ rw e (
      Returns-map (ffs_loop_lem w 1 x (ground arith) lt)
        (λ r (k, s, odd). inr (k, omega arith, odd)))
]
