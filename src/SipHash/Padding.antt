-- ===== src/SipHash/Padding.antt =====
-- usual/hashing/siphash.c: the last word, which the switch makes, against the padding of the message.
use Prim.Native.Nat.{bit_or}
use libusual_archive.Base.{
  ℕ, zero, suc, ◌+◌, ◌-◌, ◌*◌, ◌%◌, ◌^◌, ◌<◌, ◌≤◌, ◌≡◌, refl, sym, ap, ◌∙◌, arith, List, [], ◌∷◌,
  ◌++◌, length, length-replicate, replicate,
}
use libusual_archive.Base.Bits.{bit_or-fields, pow_sum}
use native.Mathlib.Nat.{
  pow-le-pow_right, mul_assoc, mul_comm, add-mul, mul-lt-mul_of_pos_right, one-le-pow,
}
use libusual_archive.Endian.Little.{bytes_at, le_value}
use libusual_archive.SipHash.{sip_tail}

plus_zero : (n : ℕ) → n + 0 ≡ n
plus_zero n = omega arith

eight_more : (k : ℕ) → 8 * suc k ≡ 8 * k + 8
eight_more k = omega arith

scaled : (a p q : ℕ) → q ≡ p * 256 → a * q ≡ a * p * 256
scaled a p q e = ap (λ t. a * t) e ∙ sym (mul_assoc a p 256)

spread : (a b p : ℕ) → (a * 256 + b) * p ≡ a * p * 256 + b * p
spread a b p =
    add-mul (a * 256) b p
    ∙ ap (λ t. t + b * p)
        (mul_assoc a 256 p ∙ ap (λ t. a * t) (mul_comm 256 p) ∙ sym (mul_assoc a p 256))

-- One more byte below the bits that are there.
or_byte :
    (k hi b : ℕ)
    → b < 256
    → k ≤ 56
    → bit_or (hi * 2 ^ (k + 8)) (b * 2 ^ k % 2 ^ 64) ≡ (hi * 256 + b) * 2 ^ k
or_byte k hi b small fits =
    let power : 2 ^ (k + 8) ≡ 2 ^ k * 256 = pow_sum k 8 in
    let most : 2 ^ (k + 8) ≤ 2 ^ 64 =
      pow-le-pow_right (omega arith) {i = k + 8} {j = 64} (omega arith) in
    let below : b * 2 ^ k < 2 ^ (k + 8) = omega (
      arith,
      mul-lt-mul_of_pos_right {m = b} {n = 256} {k = 2 ^ k} small (one-le-pow k 2 (omega arith)),
      power,
    ) in
    let whole : b * 2 ^ k % 2 ^ 64 ≡ b * 2 ^ k = omega (arith, below, most) in
    rw whole (
      bit_or-fields (k + 8) hi (b * 2 ^ k) below
      ∙ omega (arith, scaled hi (2 ^ k) (2 ^ (k + 8)) power, spread hi b (2 ^ k)))

-- The last byte of some.
le_value-snoc :
    (mem : ℕ → ℕ) (s k : ℕ)
    → le_value (bytes_at mem s (suc k)) ≡ le_value (bytes_at mem s k) + mem (s + k) * 2 ^ (8 * k)
le_value-snoc mem s zero = omega (arith, ap mem (plus_zero s))
le_value-snoc mem s (suc k) =
    let ih = le_value-snoc mem (s + 1) k in
    let e : mem (s + 1 + k) ≡ mem (s + suc k) = ap mem (omega arith) in
    let power : 2 ^ (8 * suc k) ≡ 2 ^ (8 * k) * 256 =
      ap (λ n. 2 ^ n) (eight_more k) ∙ pow_sum (8 * k) 8 in
    omega (
      arith,
      ih,
      scaled (mem (s + suc k)) (2 ^ (8 * k)) (2 ^ (8 * suc k)) power,
      ap (λ t. t * 2 ^ (8 * k)) e,
    )

sip_tail_lem :
    (k hi : ℕ) (mem : ℕ → ℕ) (s : ℕ)
    → k ≤ 7
    → ((i : ℕ) → mem i < 2 ^ 8)
    → sip_tail k (hi * 2 ^ (8 * k)) mem s ≡ hi * 2 ^ (8 * k) + le_value (bytes_at mem s k)
unfolding sip_tail
sip_tail_lem zero hi mem s h bytes = omega arith
sip_tail_lem (suc k) hi mem s h bytes =
    let b = mem (s + k) in
    let step : bit_or (hi * 2 ^ (8 * suc k)) (b * 2 ^ (8 * k) % 2 ^ 64)
        ≡ (hi * 256 + b) * 2 ^ (8 * k) =
      ap (λ n. bit_or (hi * 2 ^ n) (b * 2 ^ (8 * k) % 2 ^ 64)) (eight_more k)
      ∙ or_byte (8 * k) hi b (bytes (s + k)) (omega arith) in
    let power : 2 ^ (8 * suc k) ≡ 2 ^ (8 * k) * 256 =
      ap (λ n. 2 ^ n) (eight_more k) ∙ pow_sum (8 * k) 8 in
    ap (λ m. sip_tail k m mem s) step
    ∙ sip_tail_lem k (hi * 256 + b) mem s (omega arith) bytes
    ∙ omega (
      arith,
      scaled hi (2 ^ (8 * k)) (2 ^ (8 * suc k)) power,
      spread hi b (2 ^ (8 * k)),
      le_value-snoc mem s k,
    )

le_value-append :
    (xs ys : List ℕ) → le_value (xs ++ ys) ≡ le_value xs + le_value ys * 2 ^ (8 * length xs)
le_value-append [] ys = omega arith
le_value-append (x ∷ xs) ys =
    let power : 2 ^ (8 * suc (length xs)) ≡ 2 ^ (8 * length xs) * 256 =
      ap (λ n. 2 ^ n) (eight_more (length xs)) ∙ pow_sum (8 * length xs) 8 in
    omega (
      arith,
      le_value-append xs ys,
      scaled (le_value ys) (2 ^ (8 * length xs)) (2 ^ (8 * suc (length xs))) power,
    )

le_value-replicate : (n : ℕ) → le_value (replicate n 0) ≡ 0
le_value-replicate zero = refl
le_value-replicate (suc n) = omega (arith, le_value-replicate n)

pub length-bytes_at : (mem : ℕ → ℕ) (s n : ℕ) → length (bytes_at mem s n) ≡ n
length-bytes_at mem s zero = refl
length-bytes_at mem s (suc n) = ap suc (length-bytes_at mem (s + 1) n)

-- The padding: zeros up to the last byte of the block, which is the length.
abbrev pub padding : ℕ → ℕ → List ℕ
padding r len = replicate (7 - r) 0 ++ len ∷ []

padding-value : (r len : ℕ) → r ≤ 7 → le_value (padding r len) * 2 ^ (8 * r) ≡ len * 2 ^ 56
padding-value r len h =
    let bits : 8 * (7 - r) + 8 * r ≡ 56 = omega arith in
    let zeros = replicate (7 - r) 0 in
    let value : le_value (padding r len) ≡ len * 2 ^ (8 * (7 - r)) =
      le_value-append zeros (len ∷ [])
      ∙ omega (
        arith,
        le_value-replicate (7 - r),
        ap (λ n. len * 2 ^ (8 * n)) (length-replicate {A = ℕ} (7 - r) 0),
      ) in
    let power : 2 ^ (8 * (7 - r)) * 2 ^ (8 * r) ≡ 2 ^ 56 =
      sym (pow_sum (8 * (7 - r)) (8 * r)) ∙ ap (λ n. 2 ^ n) bits in
    ap (λ t. t * 2 ^ (8 * r)) value
    ∙ mul_assoc len (2 ^ (8 * (7 - r))) (2 ^ (8 * r))
    ∙ ap (λ t. len * t) power

-- For fewer than eight bytes: the word of the switch is that of the padded block.
pub last_word :
    (r len : ℕ) (mem : ℕ → ℕ) (s : ℕ)
    → r ≤ 7
    → ((i : ℕ) → mem i < 2 ^ 8)
    → sip_tail r (len * 2 ^ 56) mem s ≡ le_value (bytes_at mem s r ++ padding r len)
last_word r len mem s h bytes =
    let top = padding-value r len h in
    ap (λ m. sip_tail r m mem s) (sym top)
    ∙ sip_tail_lem r (le_value (padding r len)) mem s h bytes
    ∙ omega (
      arith,
      le_value-append (bytes_at mem s r) (padding r len),
      ap (λ n. le_value (padding r len) * 2 ^ (8 * n)) (length-bytes_at mem s r),
    )
