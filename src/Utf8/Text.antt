-- ===== src/Utf8/Text.antt =====
-- usual/utf8.c: utf8_validate_string accepts exactly encoded text.
use libusual_archive.Base.{
  ℕ, zero, suc, ◌≤◌, ◌<◌, ◌≡◌, ◌≢◌, refl, Bool, true, false, List, [], ◌∷◌, ◌++◌, arith, ltb, ◌==◌,
  if◌then◌else◌, length, drop, Bool-cases, inl, inr, Option, some, ◌⊎◌, sym, ap, ◌∙◌, length-append,
  subst, drop-append,
}
use mathlib.Core.Option
use libusual_archive.Utf8.{
  value, minus, utf8_get_char, validate_loop, utf8_validate_string, utf8_char_size,
}
use libusual_archive.Utf8.Encoding.{is_scalar, encode, utf8_char_size-encode}
use libusual_archive.Utf8.Masks.{top_bit}
use libusual_archive.Utf8.Decode.{Bytes, utf8_get_char-encode, utf8_get_char_exact, Skips}
use libusual_archive.Utf8.Validate.{sequence_size, utf8_validate_seq-get_char}

get_char_ascii : (b : ℕ) (s : List ℕ) → b < 128 → utf8_get_char (b ∷ s) ≡ some (value b, s)
unfolding utf8_get_char
get_char_ascii b s h = ground arith

drop-encode : (c : ℕ) (rest : List ℕ) → drop (utf8_char_size c) (encode c ++ rest) ≡ rest
drop-encode c rest = rw (utf8_char_size-encode c) (drop-append (encode c) rest)

encode_head : (b c : ℕ) (s rest : List ℕ) → b ∷ s ≡ encode c ++ rest → 128 ≤ b → 128 ≤ c
unfolding encode
encode_head b c s rest same h = ground arith

size_pos : (c : ℕ) → 0 < utf8_char_size c
unfolding utf8_char_size
size_pos c = ground arith

-- One round of the loop at a character passes it, unless it is NUL.
validate_char :
    (fuel b : ℕ) (s : List ℕ)
    → Bytes (b ∷ s)
    → (c : ℕ) (rest : List ℕ) → utf8_get_char (b ∷ s) ≡ some (value c, rest)
    → b ∷ s ≡ encode c ++ rest
    → validate_loop (suc fuel) (b ∷ s) ≡ (if c == 0 then some false else validate_loop fuel rest)
unfolding validate_loop
validate_char fuel b s bytes c rest got same = elim (Bool-cases (ltb b 128)) [
  | inl one ↦
      let ascii = get_char_ascii b s (ground arith) in
      let ec : c ≡ b = cc (got, ascii) in
      let er : rest ≡ s = cc (got, ascii) in rw (ec, er, top_bit b bytes.0, one)
  | inr many ↦
      let size = utf8_validate_seq-get_char (b ∷ s) bytes ∙ ap (Option.map sequence_size) got in
      let c0 = encode_head b c s rest same (ground arith) in
      rw (top_bit b bytes.0, many, size, same)
        (unfold sequence_size in ground (arith, drop-encode c rest, size_pos c))
]

-- One round of the loop at a bad byte ends it.
validate_bad :
    (fuel b : ℕ) (s : List ℕ)
    → Bytes (b ∷ s)
    → utf8_get_char (b ∷ s) ≡ some (minus b, s)
    → validate_loop (suc fuel) (b ∷ s) ≡ some false
unfolding validate_loop
validate_bad fuel b s bytes got = elim (Bool-cases (ltb b 128)) [
  | inl one ↦ ground (arith, get_char_ascii b s)
  | inr many ↦
      let size = utf8_validate_seq-get_char (b ∷ s) bytes ∙ ap (Option.map sequence_size) got in
      rw (top_bit b bytes.0, many, size) (unfold sequence_size in refl)
]

-- A sequence of encoded scalar values other than NUL.
pub data IsText : List ℕ → Type 0 where
  done : IsText []
  more :
      (c : ℕ) {rest t : List ℕ}
      → is_scalar c ≡ true
      → c ≢ 0
      → t ≡ encode c ++ rest
      → IsText rest
      → IsText t

abbrev Judged : List ℕ → Option Bool → Type 0
Judged s r = (r ≡ some true) × IsText s ⊎ (r ≡ some false) × ¬ IsText s

IsText-rest :
    (c : ℕ) (rest s : List ℕ)
    → is_scalar c ≡ true
    → s ≡ encode c ++ rest
    → IsText s
    → (c ≢ 0) × IsText rest
unfolding utf8_get_char
IsText-rest c rest s scalar same done =
    absurd (cc (ap utf8_get_char same, utf8_get_char-encode c rest scalar))
IsText-rest c rest s scalar same (more d {rest = r} sc ne e t) =
    let read =
      sym (utf8_get_char-encode c rest scalar)
      ∙ ap utf8_get_char (sym same ∙ e)
      ∙ utf8_get_char-encode d r sc in
    let ec : c ≡ d = cc read in let er : rest ≡ r = cc read in rw (ec, er) (ne, t)

IsText-head : (b : ℕ) (s : List ℕ) → Skips b s → ¬ IsText (b ∷ s)
IsText-head b s (skips, never) (more c sc ne e t) = never c _ sc e

Bytes-rest : (xs ys : List ℕ) → Bytes (xs ++ ys) → Bytes ys
Bytes-rest [] ys b = b
Bytes-rest (x ∷ xs) ys b = Bytes-rest xs ys b.1

rest_shorter : (c : ℕ) (rest t : List ℕ) → t ≡ encode c ++ rest → length rest < length t
rest_shorter c rest t same =
    omega
      (arith, ap length same, length-append (encode c) rest, utf8_char_size-encode c, size_pos c)

-- One round, when the later ones judge right.
judge_round :
    (fuel b : ℕ) (s : List ℕ)
    → Bytes (b ∷ s)
    → length (b ∷ s) ≤ suc fuel
    → ((t : List ℕ) → length t ≤ fuel → Bytes t → Judged t (validate_loop fuel t))
    → Judged (b ∷ s) (validate_loop (suc fuel) (b ∷ s))
judge_round fuel b s bytes h later = elim (utf8_get_char_exact b s bytes) [
  | inl (c, rest, got, scalar, same) ↦
      rw (validate_char fuel b s bytes c rest got same) (elim (Bool-cases (c == 0)) [
        | inl nul ↦
            rw nul (inr (refl, λ t. (IsText-rest c rest (b ∷ s) scalar same t).0 (ground arith)))
        | inr char ↦
            rw char
              (elim (later rest (omega (arith, rest_shorter c rest (b ∷ s) same))
                (Bytes-rest (encode c) rest (subst Bytes same bytes))) [
                  | inl (e, t) ↦ inl (e, more c scalar (ground arith) same t)
                  | inr (e, n) ↦ inr (e, λ t. n (IsText-rest c rest (b ∷ s) scalar same t).1)
                ])
      ])
  | inr bad ↦ rw (validate_bad fuel b s bytes bad.0) (inr (refl, IsText-head b s bad))
]

-- As many rounds as there are bytes are enough.
validate_loop-Judged :
    (fuel : ℕ) (s : List ℕ) → length s ≤ fuel → Bytes s → Judged s (validate_loop fuel s)
unfolding validate_loop
validate_loop-Judged zero [] h b = inl (refl, done)
validate_loop-Judged (suc fuel) [] h b = inl (refl, done)
validate_loop-Judged zero (p0 ∷ s) h b = absurd (omega arith)
validate_loop-Judged (suc fuel) (p0 ∷ s) h b = judge_round fuel p0 s b h (validate_loop-Judged fuel)

-- utf8_validate_string ends on every sequence of bytes, and returns true exactly if they are the encodings of
-- scalar values other than NUL, one after the other.
pub utf8_validate_string-IsText :
    (s : List ℕ)
    → Bytes s
    → (utf8_validate_string s ≡ some true) × IsText s
      ⊎ (utf8_validate_string s ≡ some false) × ¬ IsText s
unfolding utf8_validate_string
utf8_validate_string-IsText s b = validate_loop-Judged (length s) s (omega arith) b
