-- ===== src/MDict/RoundTrip.antt =====
-- usual/mdict.c: urldec_str reads back what urlenc_str writes.
use libusual_archive.Base.{
  ℕ, ◌+◌, ◌-◌, ◌/◌, ◌%◌, ◌<◌, ◌≡◌, ◌≢◌, refl, sym, ap, ◌∙◌, subst, Bool, true, false, ◌&&◌, ◌||◌,
  some, List, [], ◌∷◌, ◌++◌, arith, inl, inr, Bool-cases, ltb, ◌==◌, length, ==_iff,
}
use libusual_archive.Base.Word.{AreBytes}
use mathlib.Core.List.{append_assoc}
use libusual_archive.MDict.{
  percent, plus, plain, kind, gethex, estimate, prepend, emit, finish, hex_pair, decode, urldec_str,
}
use libusual_archive.MDict.Escape.{hex, escape, escaped}
use libusual_archive.MDict.Text.{IsAlnum, IsStop, estimate_skip}
use libusual_archive.MDict.Loops.{
  estimate-plus, estimate-plain, estimate-stop, decode-nil, decode-plus, decode-plain, decode-stop,
  decode-percent,
}

gethex-hex : (d : ℕ) → d < 16 → gethex (hex d) ≡ some d
unfolding gethex
gethex-hex d h = elim (Bool-cases (ltb d 10)) [
  | inl e ↦ let low : hex d ≡ 48 + d = rw e refl in rw low (ground arith)
  | inr e ↦ let high : hex d ≡ 87 + d = rw e refl in rw high (ground arith)
]

hex_pair-hex : (c : ℕ) → c < 256 → hex_pair (hex (c / 16)) (hex (c % 16)) ≡ some c
unfolding hex_pair
hex_pair-hex c h =
    rw (gethex-hex (c / 16) (omega arith), gethex-hex (c % 16) (omega arith))
      (ap some (omega arith))

not_a_sign :
    (isalnum : ℕ → Bool) (c d : ℕ)
    → isalnum d ≡ false
    → d ≢ 46
    → d ≢ 95
    → ((ltb c 128 && isalnum c) || (c == 46 || c == 95)) ≡ true
    → (c == d) ≡ false
not_a_sign isalnum c d no_letter n m h = elim (Bool-cases (c == d)) [
  | inr e ↦ e
  | inl e ↦ absurd (
      contradiction isalnum d no_letter n m (
        subst (λ t. ((ltb t 128 && isalnum t) || (t == 46 || t == 95)) ≡ true) ((==_iff c d).0 e)
          h))
]
  where
    contradiction :
        (isalnum : ℕ → Bool) (d : ℕ)
        → isalnum d ≡ false
        → d ≢ 46
        → d ≢ 95
        → ((ltb d 128 && isalnum d) || (d == 46 || d == 95)) ≡ true
        → ⊥
    contradiction isalnum d no_letter n m h = ground (arith, no_letter, n, m, h)

kind_plain :
    (isalnum : ℕ → Bool) (c : ℕ)
    → IsAlnum isalnum
    → ((ltb c 128 && isalnum c) || (c == 46 || c == 95)) ≡ true
    → kind c ≡ plain
unfolding kind
kind_plain isalnum c (p, q, r, s) h =
    rw
      (
        not_a_sign isalnum c 37 p (omega arith) (omega arith) h,
        not_a_sign isalnum c 43 q (omega arith) (omega arith) h,
        not_a_sign isalnum c 38 r (omega arith) (omega arith) h,
        not_a_sign isalnum c 61 s (omega arith) (omega arith) h,
      )
      refl

kind_percent : kind 37 ≡ percent
unfolding kind
kind_percent = refl

kind_plus : kind 43 ≡ plus
unfolding kind
kind_plus = refl

-- What stands for a byte counts for one, and is read as that byte.
escape-decode :
    (isalnum : ℕ → Bool) (room c : ℕ) (s : List ℕ)
    → IsAlnum isalnum
    → c < 256
    → (estimate 0 (escape isalnum c ++ s) ≡ 1 + estimate 0 s)
      × (decode room (escape isalnum c ++ s) ≡ emit room c (decode (room - 1) s))
escape-decode isalnum room c s signs small = elim (Bool-cases (c == 32)) [
  | inl e ↦
      let space : c ≡ 32 = (==_iff c 32).0 e in
      rw e (
        estimate-plus 43 s kind_plus,
        decode-plus room 43 s kind_plus ∙ ap (λ t. emit room t (decode (room - 1) s)) (sym space),
      )
  | inr e ↦ elim (Bool-cases ((ltb c 128 && isalnum c) || (c == 46 || c == 95))) [
    | inl f ↦
        let k = kind_plain isalnum c signs f in
        rw (e, f) (estimate-plain c s k, decode-plain room c s k)
    | inr f ↦
        rw (e, f)
          (
            estimate_skip 37 (hex (c / 16)) (hex (c % 16)) s kind_percent,
            decode-percent room 37 (hex (c / 16)) (hex (c % 16)) c s kind_percent
                (hex_pair-hex c small),
          )
  ]
]

stop-estimate : (s : List ℕ) → IsStop s → estimate 0 s ≡ 0
unfolding estimate
stop-estimate [] h = refl
stop-estimate (c ∷ s) h = estimate-stop c s h

stop-decode : (room : ℕ) (s : List ℕ) → IsStop s → 0 < room → decode room s ≡ some (some ([], s))
unfolding finish
stop-decode room [] h pos =
    let ok : ltb 0 room ≡ true = ground arith in decode-nil room ∙ rw ok refl
stop-decode room (c ∷ s) h pos =
    let ok : ltb 0 room ≡ true = ground arith in decode-stop room c s h ∙ rw ok refl

escaped-estimate :
    (isalnum : ℕ → Bool) (str s : List ℕ)
    → IsAlnum isalnum
    → AreBytes str
    → IsStop s
    → estimate 0 (escaped isalnum str ++ s) ≡ length str
escaped-estimate isalnum [] s signs small h = stop-estimate s h
escaped-estimate isalnum (c ∷ str) s signs (byte, small) h =
    ap (estimate 0) (append_assoc (escape isalnum c) (escaped isalnum str) s)
    ∙ (escape-decode isalnum 0 c (escaped isalnum str ++ s) signs byte).0
    ∙ omega (arith, escaped-estimate isalnum str s signs small h)

escaped-decode :
    (isalnum : ℕ → Bool) (room : ℕ) (str s : List ℕ)
    → IsAlnum isalnum
    → AreBytes str
    → IsStop s
    → length str < room
    → decode room (escaped isalnum str ++ s) ≡ some (some (str, s))
unfolding emit prepend
escaped-decode isalnum room [] s signs small h more = stop-decode room s h (omega arith)
escaped-decode isalnum room (c ∷ str) s signs (byte, small) h more =
    let ok : ltb 0 room ≡ true = ground arith in
    let rest : decode (room - 1) (escaped isalnum str ++ s) ≡ some (some (str, s)) =
      escaped-decode isalnum (room - 1) str s signs small h (omega arith) in
    ap (decode room) (append_assoc (escape isalnum c) (escaped isalnum str) s)
    ∙ (escape-decode isalnum room c (escaped isalnum str ++ s) signs byte).1
    ∙ rw (ok, rest) refl

-- A text that is written with its escapes is read as the same text, up to the end or `&` or `=`.
pub escaped-urldec_str :
    (isalnum : ℕ → Bool) (str s : List ℕ)
    → IsAlnum isalnum
    → AreBytes str
    → IsStop s
    → urldec_str true (escaped isalnum str ++ s) ≡ some (some (str, s))
unfolding urldec_str
escaped-urldec_str isalnum str s signs small h =
    escaped-decode isalnum (estimate 0 (escaped isalnum str ++ s) + 1) str s signs small h
      (omega (arith, escaped-estimate isalnum str s signs small h))
