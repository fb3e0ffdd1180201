-- ===== src/Bits/Multiply.antt =====
-- usual/bits.h: the overflow check of the multiplications is exact.
use libusual_archive.Base.{
  ℕ, suc, ◌+◌, ◌-◌, ◌*◌, ◌/◌, ◌%◌, ◌^◌, ◌<◌, ◌≤◌, ◌≡◌, refl, true, none, some, ltb, leb, ◌==◌,
  if◌then◌else◌, arith, Bool-cases, ==_iff, inl, inr, ◌&&◌, ◌||◌,
}
use libusual_archive.Base.Bits.{pow_sum}
use libusual_archive.Bits.{safe_mul}
use native.Mathlib.Nat.{
  mul-le-mul, mul-lt-mul_of_pos_left, mul-le-mul_right, mul-le-mul_left, div-add-mod, mul-suc,
  mod-lt, mod-eq_of_lt, one-le-pow, mul-zero, zero-mul,
}

small_product : (a b h : ℕ) → a < h → b < h → a * b < h * h
small_product a b h p q = omega (
  arith,
  mul-le-mul {n₁ = a} {m₁ = b} {n₂ = h - 1} {m₂ = h - 1} (omega arith) (omega arith),
  mul-lt-mul_of_pos_left {m = h - 1} {n = h} {k = h} (omega arith) (omega arith),
  mul-le-mul_right {m = h - 1} {n = h} (h - 1) (omega arith),
)

fits : (a b m : ℕ) → 0 < a → b ≤ (m - 1) / a → 0 < m → a * b < m
fits a b m p q r =
    omega (arith, mul-le-mul_left {m = b} {n = (m - 1) / a} a q, div-add-mod (m - 1) a)

overflows : (a b m : ℕ) → 0 < a → (m - 1) / a < b → m ≤ a * b
overflows a b m p q = omega (
  arith,
  mul-le-mul_left {m = suc ((m - 1) / a)} {n = b} a q,
  mul-suc a ((m - 1) / a),
  div-add-mod (m - 1) a,
  mod-lt (m - 1) {m = a} p,
)

zero_product : (a b m : ℕ) → (a == 0 || b == 0) ≡ true → 1 ≤ m → a * b < m
zero_product a b m h p = elim (Bool-cases (a == 0)) [
  | inl e ↦ rw ((==_iff a 0).0 e, zero-mul b) p
  | inr e ↦ rw ((==_iff b 0).0 (ground arith), mul-zero a) p
]

accepted : (n m : ℕ) → n < m → some (n % m) ≡ (if ltb n m then some n else none)
accepted n m lt = elim (Bool-cases (ltb n m)) [
  | inl e ↦ rw (e, mod-eq_of_lt lt) refl
  | inr e ↦ absurd (ground arith)
]

refused : (n m : ℕ) → m ≤ n → none ≡ (if ltb n m then some n else none)
refused n m le = elim (Bool-cases (ltb n m)) [ inl e ↦ absurd (ground arith) | inr e ↦ rw e refl ]

-- At an even width, safe_mul returns the product of two numbers if it is below 2 ^ w, and false otherwise.
pub safe_mul_lem :
    (k a b : ℕ) → safe_mul (k + k) a b ≡ (if ltb (a * b) (2 ^ (k + k)) then some (a * b) else none)
unfolding safe_mul
safe_mul_lem k a b =
    let half : (k + k) / 2 ≡ k = omega arith in
    let square : 2 ^ (k + k) ≡ 2 ^ k * 2 ^ k = pow_sum k k in
    let positive : 1 ≤ 2 ^ (k + k) = one-le-pow (k + k) 2 (omega arith) in
    rw half (elim (Bool-cases (ltb a (2 ^ k) && ltb b (2 ^ k))) [
      | inl p ↦
          let lt = small_product a b (2 ^ k) (ground arith) (ground arith) in
          rw p (accepted (a * b) (2 ^ (k + k)) (omega arith))
      | inr p ↦ elim (Bool-cases (a == 0 || b == 0)) [
        | inl q ↦
            rw (p, q) (accepted (a * b) (2 ^ (k + k)) (zero_product a b (2 ^ (k + k)) q positive))
        | inr q ↦
            let a_pos : 0 < a = ground arith in
            elim (Bool-cases (leb b ((2 ^ (k + k) - 1) / a))) [
              | inl r ↦
                  rw (p, q, r)
                    (accepted (a * b) (2 ^ (k + k))
                      (fits a b (2 ^ (k + k)) a_pos (ground arith) positive))
              | inr r ↦
                  rw (p, q, r)
                    (refused (a * b) (2 ^ (k + k))
                      (overflows a b (2 ^ (k + k)) a_pos (ground arith)))
            ]
      ]
    ])
