-- ===== src/MDict/Text.antt =====
-- usual/mdict.c: urldec_str stays inside its allocation and reads bytes up to `&` or `=`.
use libusual_archive.Base.{
  ℕ, ◌+◌, ◌-◌, ◌*◌, ◌<◌, ◌≤◌, ◌≡◌, refl, sym, subst, Bool, true, false, Option, none, some, List,
  [], ◌∷◌, arith, inl, inr, Option-cases, ltb, length, Returns, Returns-bind, ◌>>=◌,
}
use mathlib.Core.Option.{some-injective}
use libusual_archive.Base.Word.{AreBytes}
use libusual_archive.MDict.{
  gethex, percent, stop, kind, estimate, prepend, emit, finish, hex_pair, decode, urldec_str,
}
use libusual_archive.MDict.Loops.{
  Kind-cases, estimate-percent, estimate-plus, estimate-plain, decode-nil, decode-plus,
  decode-plain, decode-stop, decode-percent, decode-not_hex, decode-cut,
}

-- The end of a text, or `&` or `=`.
abbrev pub IsStop : List ℕ → Type 0
IsStop [] = Unit
IsStop (c ∷ s) = kind c ≡ stop

-- What is read of a text, unless an escape is cut off or has no two digits: no more bytes than were estimated, up to the end or `&` or
-- `=`, each from at least one byte of the text.
abbrev pub IsDecoded : List ℕ → Option (List ℕ × List ℕ) → Type 0
IsDecoded src none = Unit
IsDecoded src (some (text, rest)) =
    (length text ≤ estimate 0 src)
    × (length text + length rest ≤ length src)
    × IsStop rest
    × (AreBytes src → AreBytes text × AreBytes rest)

abbrev IsSafe : ℕ → List ℕ → Type 0
IsSafe room s = estimate 0 s < room → Returns (IsDecoded s) (decode room s)

finish_lem : (room : ℕ) (s : List ℕ) → IsStop s → 0 < room → Returns (IsDecoded s) (finish room s)
unfolding finish
finish_lem room s h pos =
    let ok : ltb 0 room ≡ true = ground arith in
    rw ok (some ([], s), refl, (omega arith, omega arith, h, λ b. (tt, b)))

-- One step that stores a byte: what it reads of the text, and the byte.
abbrev IsStep : List ℕ → ℕ → List ℕ → Type 0
IsStep s c s' =
    (estimate 0 s ≡ 1 + estimate 0 s')
    × (length s' < length s)
    × (AreBytes s → (c < 256) × AreBytes s')

prepend_lem :
    (c : ℕ) (s s' : List ℕ) (r : Option (List ℕ × List ℕ))
    → IsStep s c s'
    → IsDecoded s' r
    → IsDecoded s (prepend c r)
unfolding prepend
prepend_lem c s s' none h d = tt
prepend_lem c s s' (some (text, rest)) (e, less, bytes) (size, sum, at_stop, all) = (
  omega arith,
  omega arith,
  at_stop,
  λ b. let (byte, b') = bytes b in let (t, r) = all b' in ((byte, t), r),
)

stored_lem :
    (room c : ℕ) (s s' : List ℕ)
    → IsStep s c s'
    → decode room s ≡ emit room c (decode (room - 1) s')
    → IsSafe (room - 1) s'
    → IsSafe room s
unfolding emit
stored_lem room c s s' (e, less, bytes) f next h =
    let ok : ltb 0 room ≡ true = ground arith in
    rw (f, ok)
      (Returns-bind (next (omega arith))
        λ d p. (prepend c d, refl, prepend_lem c s s' d (e, less, bytes) p))

cut_lem : (room : ℕ) (s : List ℕ) → decode room s ≡ some none → IsSafe room s
cut_lem room s e h = rw e (none, refl, tt)

-- All steps but that of an escape.
plain_step :
    (room c : ℕ) (s : List ℕ)
    → (kind c ≡ percent → IsSafe room (c ∷ s))
    → IsSafe (room - 1) s
    → IsSafe room (c ∷ s)
plain_step room c s escape_step next = elim (Kind-cases (kind c)) [
  | inl e ↦ escape_step e
  | inr (inl e) ↦
      stored_lem room 32 (c ∷ s) s (estimate-plus c s e, omega arith, λ b. (omega arith, b.1))
        (decode-plus room c s e) next
  | inr (inr (inl e)) ↦ λ h. rw (decode-stop room c s e) (finish_lem room (c ∷ s) e (omega arith))
  | inr (inr (inr e)) ↦
      stored_lem room c (c ∷ s) s (estimate-plain c s e, omega arith, λ b. b)
        (decode-plain room c s e) next
]

pub estimate_skip :
    (c x y : ℕ) (s : List ℕ) → kind c ≡ percent → estimate 0 (c ∷ x ∷ y ∷ s) ≡ 1 + estimate 0 s
unfolding estimate
estimate_skip c x y s e = estimate-percent c (x ∷ y ∷ s) e

gethex-small : (c d : ℕ) → gethex c ≡ some d → d < 16
unfolding gethex
gethex-small c d e = ground arith

hex_pair-small : (x y byte : ℕ) → hex_pair x y ≡ some byte → byte < 256
unfolding hex_pair
hex_pair-small x y byte e = elim (Option-cases (gethex x)) [
  | inl f ↦ absurd (
      none_some (subst (λ o. (o >>= λ h1. gethex y >>= λ h2. some (h1 * 16 + h2)) ≡ some byte) f e))
  | inr (h, f) ↦ elim (Option-cases (gethex y)) [
    | inl g ↦ absurd (
        none_some (
          subst (λ o. (o >>= λ h2. some (h * 16 + h2)) ≡ some byte) g
            (subst (λ o. (o >>= λ h1. gethex y >>= λ h2. some (h1 * 16 + h2)) ≡ some byte) f e)))
    | inr (l, g) ↦
        let sum : h * 16 + l ≡ byte = some-injective (h * 16 + l) byte (
          subst (λ o. (o >>= λ h2. some (h * 16 + h2)) ≡ some byte) g
            (subst (λ o. (o >>= λ h1. gethex y >>= λ h2. some (h1 * 16 + h2)) ≡ some byte) f e)) in
        omega (arith, sum, gethex-small x h f, gethex-small y l g)
  ]
]
  where
    none_some : {A : Type 0} {a : A} → none ≡ some a → ⊥
    none_some f = ground arith

decode_lem : (room : ℕ) (s : List ℕ) → IsSafe room s
decode_lem room [] = λ h.
    subst (Returns (IsDecoded [])) (sym (decode-nil room)) (finish_lem room [] tt (omega arith))
decode_lem room (c ∷ []) =
    plain_step room c [] (λ e. cut_lem room (c ∷ []) (decode-cut room c [] e (omega arith)))
      (decode_lem (room - 1) [])
decode_lem room (c ∷ x ∷ []) =
    plain_step room c (x ∷ [])
      (λ e. cut_lem room (c ∷ x ∷ []) (decode-cut room c (x ∷ []) e (omega arith)))
      (decode_lem (room - 1) (x ∷ []))
decode_lem room (c ∷ x ∷ y ∷ s) =
    let rest = decode_lem (room - 1) s in
    let escape_step : kind c ≡ percent → IsSafe room (c ∷ x ∷ y ∷ s) = λ e.
      elim (Option-cases (hex_pair x y)) [
        | inl f ↦ cut_lem room (c ∷ x ∷ y ∷ s) (decode-not_hex room c x y s e f)
        | inr (byte, f) ↦
            stored_lem room byte (c ∷ x ∷ y ∷ s) s
              (estimate_skip c x y s e, omega arith, λ b. (hex_pair-small x y byte f, b.1.1.1))
              (decode-percent room c x y byte s e f) rest
      ] in
    plain_step room c (x ∷ y ∷ s) escape_step (decode_lem (room - 1) (x ∷ y ∷ s))

-- For every text: urldec_str stores only inside the memory that its first loop has measured. It gives NULL, or bytes, at most as many
-- as estimated, and stops at the end or at `&` or `=`.
pub urldec_str_lem :
    (granted : Bool) (src : List ℕ) → Returns (IsDecoded src) (urldec_str granted src)
unfolding urldec_str
urldec_str_lem false src = (none, refl, tt)
urldec_str_lem true src = decode_lem (estimate 0 src + 1) src (omega arith)

-- What isalnum of the C library must not do: take the signs with a meaning for letters or digits.
abbrev pub IsAlnum : (ℕ → Bool) → Type 0
IsAlnum isalnum =
    (isalnum 37 ≡ false) × (isalnum 43 ≡ false) × (isalnum 38 ≡ false) × (isalnum 61 ≡ false)
