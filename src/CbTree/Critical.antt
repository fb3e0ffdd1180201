-- ===== src/CbTree/Critical.antt =====
-- usual/cbtree.c: find_crit_bit finds the first bit in which two keys differ.
use Prim.Native.Nat.{bit_xor}
use libusual_archive.Base.{
  ℕ, zero, suc, ◌+◌, ◌-◌, ◌*◌, ◌/◌, ◌%◌, ◌^◌, ◌<◌, ◌≤◌, ◌≡◌, ◌≢◌, refl, sym, ap, subst, ◌∙◌, false,
  Option, none, some, List, [], ◌∷◌, arith, ◌==◌, length, inl, inr, ◌⊎◌, Bool-cases, leb, ltb,
  Returns, Returns-bind, Returns-map,
}
use libusual_archive.Base.Xor.{zero-bit_xor, bit_xor-shift, bit_xor-odd, bit_xor-twice}
use libusual_archive.Base.Word.{AreBytes}
use libusual_archive.Bits.{fls}
use libusual_archive.Bits.Scan.{fls_lem}
use native.Mathlib.Nat.{pow-le-pow_right, pow-suc, div-eq_of_lt, div-eq-sub-div}
use libusual_archive.CbTree.{get_bit, find_diff, crit_bit, find_crit_bit, same_key, max_key}
use libusual_archive.CbTree.Byte.{byte_at, has_bit, get_bit_lem, DiffersAt, find_diff_lem}

bit_xor-zero_eq : (x y : ℕ) → bit_xor x y ≡ 0 → x ≡ y
bit_xor-zero_eq x y e = sym (bit_xor-twice x y) ∙ ap (λ t. bit_xor t y) e ∙ zero-bit_xor y

small_div : (x p : ℕ) → x < p → x / p ≡ 0
small_div x p h = div-eq_of_lt h

one_div : (x p : ℕ) → p ≤ x → x < p + p → x / p ≡ 1
one_div x p h k =
    div-eq-sub-div (omega arith) h ∙ ap (λ t. t + 1) (small_div (x - p) p (omega arith))

odd_differs : (x y : ℕ) → (x + y) % 2 ≡ 1 → (x % 2 == 1) ≢ (y % 2 == 1)
odd_differs x y h e = ground arith

-- The highest bit in which two bytes differ.
crit_byte :
    (x y : ℕ)
    → x < 256
    → y < 256
    → x ≢ y
    → Returns
        (λ r.
          (k : ℕ) × (r ≡ suc k)
          × (k < 8)
          × ((s : ℕ) → k < s → has_bit x s ≡ has_bit y s)
          × (has_bit x k ≢ has_bit y k))
        (fls 32 (bit_xor x y))
crit_byte x y lx ly ne =
    let c = bit_xor x y in
    let high : c / 2 ^ 8 ≡ 0 =
      bit_xor-shift 8 x y
      ∙ ap (λ t. bit_xor t (y / 2 ^ 8)) (small_div x 256 lx)
      ∙ zero-bit_xor (y / 2 ^ 8)
      ∙ small_div y 256 ly in
    let below : c < 256 = omega arith in
    Returns-map (fls_lem 32 c (omega arith)) λ r found. elim found [
      | inl (e, f) ↦ absurd (ne (bit_xor-zero_eq x y e))
      | inr (k, e, lo, hi) ↦
          let k8 : k < 8 = elim (Bool-cases (leb 8 k)) [
            | inl f ↦ absurd (
                omega
                  (arith, pow-le-pow_right {n = 2} (omega arith) {i = 8} {j = k} (ground arith)))
            | inr f ↦ ground arith
          ] in
          let above : (s : ℕ) → k < s → has_bit x s ≡ has_bit y s = λ s more.
            let big : c < 2 ^ s =
              omega (arith, hi, pow-le-pow_right {n = 2} (omega arith) {i = suc k} {j = s} more) in
            let same : x / 2 ^ s ≡ y / 2 ^ s =
              bit_xor-zero_eq (x / 2 ^ s) (y / 2 ^ s)
                (sym (bit_xor-shift s x y) ∙ small_div c (2 ^ s) big) in
            ap (λ t. t % 2 == 1) same in
          let one_left : bit_xor (x / 2 ^ k) (y / 2 ^ k) ≡ 1 =
            sym (bit_xor-shift k x y) ∙ one_div c (2 ^ k) lo (omega (arith, pow-suc 2 k)) in
          let odd : (x / 2 ^ k + y / 2 ^ k) % 2 ≡ 1 =
            sym (bit_xor-odd (x / 2 ^ k) (y / 2 ^ k)) ∙ ap (λ t. t % 2) one_left in
          (k, e, k8, above, odd_differs (x / 2 ^ k) (y / 2 ^ k) odd)
    ]

-- The same bits before a position.
abbrev pub Agree : List ℕ → List ℕ → ℕ → Type 0
Agree a b n = (i : ℕ) → i < n → get_bit i a ≡ get_bit i b

abbrev pub SameBits : List ℕ → List ℕ → Type 0
SameBits a b = (i : ℕ) → get_bit i a ≡ get_bit i b

-- The keys that the tree is made for: bytes, and no more than MAX_KEY.
abbrev pub IsKey : List ℕ → Type 0
IsKey a = AreBytes a × (length a ≤ max_key)

byte_at-AreBytes : (a : List ℕ) (i : ℕ) → AreBytes a → byte_at a i < 256
byte_at-AreBytes [] i h = omega arith
byte_at-AreBytes (x ∷ a) zero (h, hs) = h
byte_at-AreBytes (x ∷ a) (suc i) (h, hs) = byte_at-AreBytes a i hs

same_byte :
    (a b : List ℕ) (i : ℕ) → byte_at a (i / 8) ≡ byte_at b (i / 8) → get_bit i a ≡ get_bit i b
same_byte a b i e = get_bit_lem i a ∙ ap (λ t. has_bit t (7 - i % 8)) e ∙ sym (get_bit_lem i b)

abbrev pub IsCritical : List ℕ → List ℕ → ℕ → Type 0
IsCritical a b c =
    ((c ≡ same_key) × SameBits a b) ⊎ ((c < same_key) × Agree a b c × (get_bit c a ≢ get_bit c b))

ltb-false : (a b : ℕ) → ltb a b ≡ false → b ≤ a
ltb-false a b h = ground arith

byte_of : (n k c : ℕ) → k < 8 → c ≡ n * 8 + (7 - k) → (c / 8 ≡ n) × (7 - c % 8 ≡ k)
byte_of n k c lt e = (omega arith, omega arith)

bits_in_byte :
    (a : List ℕ) (i n av : ℕ) → i / 8 ≡ n → byte_at a n ≡ av → get_bit i a ≡ has_bit av (7 - i % 8)
bits_in_byte a i n av e f = get_bit_lem i a ∙ ap (λ t. has_bit t (7 - i % 8)) (ap (byte_at a) e ∙ f)

crit_bit_lem :
    (a b : List ℕ) (r : Option (ℕ × ℕ × ℕ))
    → IsKey a
    → IsKey b
    → DiffersAt 0 a b r
    → Returns (IsCritical a b) (crit_bit r)
unfolding crit_bit
crit_bit_lem a b none ka kb same = (same_key, refl, inl (refl, λ i. same_byte a b i (same (i / 8))))
crit_bit_lem a b (some (i, av, bv)) (bytes_a, la) (bytes_b, lb) (n, e, p, q, ne, before, inside) =
    let small_a : av < 256 = subst (λ t. t < 256) p (byte_at-AreBytes a n bytes_a) in
    let small_b : bv < 256 = subst (λ t. t < 256) q (byte_at-AreBytes b n bytes_b) in
    let room : n < max_key = elim inside [ inl h ↦ omega arith | inr h ↦ omega arith ] in
    Returns-bind (crit_byte av bv small_a small_b ne) λ r (k, f, k8, above, differ).
      let c = (i * 8 + (8 - r)) % 2 ^ 64 in
      let place : c ≡ n * 8 + (7 - k) = omega arith in
      let (at_byte, at_bit) = byte_of n k c k8 place in
      let here_a : get_bit c a ≡ has_bit av k =
        bits_in_byte a c n av at_byte p ∙ ap (has_bit av) at_bit in
      let here_b : get_bit c b ≡ has_bit bv k =
        bits_in_byte b c n bv at_byte q ∙ ap (has_bit bv) at_bit in
      let agree : Agree a b c = λ j lt. elim (Bool-cases (ltb (j / 8) n)) [
        | inl g ↦ same_byte a b j (before (j / 8) (ground arith))
        | inr g ↦
            let same_place : j / 8 ≡ n = omega (arith, ltb-false (j / 8) n g) in
            bits_in_byte a j n av same_place p
            ∙ above (7 - j % 8) (omega arith)
            ∙ sym (bits_in_byte b j n bv same_place q)
      ] in
      (c, refl, inr (omega arith, agree, λ same. differ (sym here_a ∙ same ∙ here_b)))

-- For keys: find_crit_bit gives SAME_KEY if all their bits are the same, and otherwise the first bit that is not.
pub find_crit_bit_lem :
    (a b : List ℕ) → IsKey a → IsKey b → Returns (IsCritical a b) (find_crit_bit a b)
unfolding find_crit_bit
find_crit_bit_lem a b ka kb = crit_bit_lem a b (find_diff 0 a b) ka kb (find_diff_lem 0 a b)
