-- ===== src/CbTree/Byte.antt =====
-- usual/cbtree.c: keys as rows of bits, filled up with zeros.
use Prim.Native.Nat.{bit_and}
use libusual_archive.Base.{
  ℕ, zero, suc, ◌+◌, ◌-◌, ◌*◌, ◌/◌, ◌%◌, ◌^◌, ◌<◌, ◌≡◌, ◌≢◌, refl, sym, ap, subst, ◌∙◌, Bool, true,
  false, not, ◌&&◌, Option, none, some, List, [], ◌∷◌, arith, ◌==◌, get_elem?, length, inl, inr,
  ◌⊎◌, Bool-cases, ==_iff, ==_false, ◌↔◌,
}
use libusual_archive.Base.Bits.{bit_and-low, bit_and-shifted}
use native.Mathlib.Nat.{one-le-pow, zero-div}
use libusual_archive.CbTree.{get_bit, find_diff, same_key_bytes}

-- The byte at an index, 0 behind the end.
abbrev pub byte_at : List ℕ → ℕ → ℕ
byte_at [] i = 0
byte_at (x ∷ xs) zero = x
byte_at (x ∷ xs) (suc i) = byte_at xs i

-- The bit of a byte that the mask 1 << k leaves.
abbrev pub has_bit : ℕ → ℕ → Bool
has_bit byte k = byte / 2 ^ k % 2 == 1

masked : (p r : ℕ) → 0 < p → (r ≡ 0) ⊎ (r ≡ 1) → not (r * p == 0) ≡ (r == 1)
masked p r h (inl e) = rw e (ground arith)
masked p r h (inr e) = rw e (ground arith)

one_times : (n : ℕ) → n ≡ 1 * n
one_times n = omega arith

two_values : (n : ℕ) → (n % 2 ≡ 0) ⊎ (n % 2 ≡ 1)
two_values n = elim (Bool-cases (n % 2 == 0)) [
  | inl e ↦ inl (ground arith)
  | inr e ↦ inr (ground arith)
]

bit_of_mask : (byte k : ℕ) → not (bit_and byte (2 ^ k) == 0) ≡ has_bit byte k
bit_of_mask byte k =
    let half = byte / 2 ^ k in
    let bit : bit_and byte (2 ^ k) ≡ half % 2 * 2 ^ k =
      ap (bit_and byte) (one_times (2 ^ k))
      ∙ bit_and-shifted k byte 1
      ∙ ap (λ t. t * 2 ^ k) (bit_and-low 1 half) in
    ap (λ t. not (t == 0)) bit
    ∙ masked (2 ^ k) (half % 2) (one-le-pow k 2 (omega arith)) (two_values half)

no_bits : (k : ℕ) → has_bit 0 k ≡ false
no_bits k = let e : 0 / 2 ^ k ≡ 0 = zero-div (2 ^ k) in rw e refl

bit_at :
    (i k : ℕ) (key : List ℕ)
    → elim (get_elem? key i) as (λ _. Bool) [
      | none ↦ false
      | some byte ↦ not (bit_and byte (2 ^ k) == 0)
    ]
      ≡ has_bit (byte_at key i) k
bit_at i k [] = sym (no_bits k)
bit_at zero k (x ∷ xs) = bit_of_mask x k
bit_at (suc i) k (x ∷ xs) = bit_at i k xs

pub get_bit_lem :
    (bitpos : ℕ) (key : List ℕ)
    → get_bit bitpos key ≡ has_bit (byte_at key (bitpos / 8)) (7 - bitpos % 8)
unfolding get_bit
get_bit_lem bitpos key = bit_at (bitpos / 8) (7 - bitpos % 8) key

-- Where two keys differ first.
abbrev pub DiffersAt : ℕ → List ℕ → List ℕ → Option (ℕ × ℕ × ℕ) → Type 0
DiffersAt start a b none = (i : ℕ) → byte_at a i ≡ byte_at b i
DiffersAt start a b (some (i, av, bv)) =
    (n : ℕ) × (i ≡ start + n)
    × (byte_at a n ≡ av)
    × (byte_at b n ≡ bv)
    × (av ≢ bv)
    × ((m : ℕ) → m < n → byte_at a m ≡ byte_at b m)
    × ((n < length a) ⊎ (n < length b))

extend : (P : ℕ → Type 0) → P zero → ((i : ℕ) → P (suc i)) → (i : ℕ) → P i
extend P first next zero = first
extend P first next (suc i) = next i

later :
    (start : ℕ) (a b a' b' : List ℕ) (r : Option (ℕ × ℕ × ℕ))
    → byte_at a' 0 ≡ byte_at b' 0
    → ((i : ℕ) → (byte_at a' (suc i) ≡ byte_at a i) × (byte_at b' (suc i) ≡ byte_at b i))
    → ((i : ℕ) → (i < length a) ⊎ (i < length b) → (suc i < length a') ⊎ (suc i < length b'))
    → DiffersAt (start + 1) a b r
    → DiffersAt start a' b' r
later start a b a' b' none first rest longer same =
    extend (λ i. byte_at a' i ≡ byte_at b' i) first λ i. (rest i).0 ∙ same i ∙ sym ((rest i).1)
later start a b a' b' (some (i, av, bv)) first rest longer (n, e, p, q, ne, before, inside) =
    (suc n, omega arith, (rest n).0 ∙ p, (rest n).1 ∙ q, ne, before', longer n inside)
  where
    before' : (m : ℕ) → m < suc n → byte_at a' m ≡ byte_at b' m
    before' zero lt = first
    before' (suc m) lt = (rest m).0 ∙ before m (omega arith) ∙ sym ((rest m).1)

pub find_diff_lem : (start : ℕ) (a b : List ℕ) → DiffersAt start a b (find_diff start a b)
unfolding find_diff
find_diff_lem start [] [] = λ i. refl
find_diff_lem start (x ∷ a) (y ∷ b) = elim (Bool-cases (x == y)) [
  | inl e ↦ rw e (
      later start a b (x ∷ a) (y ∷ b) (find_diff (start + 1) a b) ((==_iff x y).0 e)
        (λ i. (refl, refl))
        (λ i h. elim h [ inl k ↦ inl (omega arith) | inr k ↦ inr (omega arith) ])
        (find_diff_lem (start + 1) a b))
  | inr e ↦ rw e (
    0,
    omega arith,
    refl,
    refl,
    ==_false x y e,
    (λ m lt. absurd (omega arith)),
    inl (omega arith),
  )
]
find_diff_lem start (x ∷ a) [] = elim (Bool-cases (x == 0)) [
  | inl e ↦ rw e (
      later start a [] (x ∷ a) [] (find_diff (start + 1) a []) ((==_iff x 0).0 e)
        (λ i. (refl, refl))
        (λ i h. elim h [ inl k ↦ inl (omega arith) | inr k ↦ absurd (omega arith) ])
        (find_diff_lem (start + 1) a []))
  | inr e ↦ rw e (
    0,
    omega arith,
    refl,
    refl,
    ==_false x 0 e,
    (λ m lt. absurd (omega arith)),
    inl (omega arith),
  )
]
find_diff_lem start [] (y ∷ b) = elim (Bool-cases (0 == y)) [
  | inl e ↦ rw e (
      later start [] b [] (y ∷ b) (find_diff (start + 1) [] b) ((==_iff 0 y).0 e)
        (λ i. (refl, refl))
        (λ i h. elim h [ inl k ↦ absurd (omega arith) | inr k ↦ inr (omega arith) ])
        (find_diff_lem (start + 1) [] b))
  | inr e ↦ rw e (
    0,
    omega arith,
    refl,
    refl,
    ==_false 0 y e,
    (λ m lt. absurd (omega arith)),
    inr (omega arith),
  )
]

pub false_not_true : false ≡ true → ⊥
false_not_true e = ground arith

same_key_bytes_sound : (a b : List ℕ) → same_key_bytes a b ≡ true → a ≡ b
unfolding same_key_bytes
same_key_bytes_sound [] [] h = refl
same_key_bytes_sound [] (y ∷ b) h = absurd (ground arith)
same_key_bytes_sound (x ∷ a) [] h = absurd (ground arith)
same_key_bytes_sound (x ∷ a) (y ∷ b) h = elim (Bool-cases (x == y)) [
  | inl e ↦
      rw
        (
          (==_iff x y).0 e,
          same_key_bytes_sound a b (subst (λ t. (t && same_key_bytes a b) ≡ true) e h),
        )
        refl
  | inr e ↦ absurd (false_not_true (subst (λ t. (t && same_key_bytes a b) ≡ true) e h))
]

same_key_bytes_refl : (a : List ℕ) → same_key_bytes a a ≡ true
unfolding same_key_bytes
same_key_bytes_refl [] = refl
same_key_bytes_refl (x ∷ a) = rw ((==_iff x x).1 refl, same_key_bytes_refl a) refl

-- The lengths and memcmp together decide whether the keys are equal.
pub same_key_bytes_lem : (a b : List ℕ) → (same_key_bytes a b ≡ true) ↔ (a ≡ b)
same_key_bytes_lem a b = (
  same_key_bytes_sound a b,
  λ e. subst (λ k. same_key_bytes a k ≡ true) e (same_key_bytes_refl a),
)
