-- ===== src/Bits/Power.antt =====
-- usual/bits.h: is_power_of_2 against powers of two.
use libusual_archive.Base.{
  ℕ, zero, suc, ◌-◌, ◌/◌, ◌%◌, ◌^◌, ◌<◌, ◌≤◌, ◌≡◌, ◌↔◌, refl, true, ◌==◌, arith, Bool-cases, inl,
  inr,
}
use libusual_archive.Base.Bits.{bit_and_step, bit_and-zero}
use Prim.Native.Nat.{bit_and}
use native.Mathlib.Nat.{pow-suc, one-le-pow}
use libusual_archive.Bits.{is_power_of_2}

power_accepted : (k : ℕ) → bit_and (2 ^ k) (2 ^ k - 1) ≡ 0
power_accepted zero = refl
power_accepted (suc k) =
    ground (
      arith,
      pow-suc 2 k,
      one-le-pow k 2,
      bit_and_step (2 ^ suc k) (2 ^ suc k - 1),
      power_accepted k,
    )

same_operands : (fuel n : ℕ) → n ≤ fuel → bit_and n n ≡ n
same_operands fuel zero le = bit_and-zero 0
same_operands zero (suc n) le = absurd (omega arith)
same_operands (suc fuel) (suc n) le =
    omega (arith, bit_and_step (suc n) (suc n), same_operands fuel (suc n / 2) (omega arith))

accepted_power : (fuel n : ℕ) → n ≤ fuel → 0 < n → bit_and n (n - 1) ≡ 0 → (k : ℕ) × (n ≡ 2 ^ k)
accepted_power zero n le p h = absurd (omega arith)
accepted_power (suc fuel) n le p h = elim (Bool-cases (n % 2 == 0)) [
  | inl e ↦
      let (k, q) =
        accepted_power fuel (n / 2) (ground arith) (ground arith)
          (ground (arith, bit_and_step n (n - 1))) in
      (suc k, ground (arith, pow-suc 2 k))
  | inr e ↦
      let half : (n - 1) / 2 ≡ n / 2 = ground arith in
      let both : bit_and (n / 2) ((n - 1) / 2) ≡ n / 2 =
        rw half (same_operands (n / 2) (n / 2) (omega arith)) in
      (0, ground (arith, bit_and_step n (n - 1), both))
]

-- is_power_of_2 is true exactly of the powers of two.
pub is_power_of_2_lem : (n : ℕ) → (is_power_of_2 n ≡ true) ↔ ((k : ℕ) × (n ≡ 2 ^ k))
unfolding is_power_of_2
is_power_of_2_lem n = (
  (λ h. accepted_power n n (omega arith) (ground arith) (ground arith)),
  (λ (k, e). rw e (ground (arith, one-le-pow k 2, power_accepted k))),
)
