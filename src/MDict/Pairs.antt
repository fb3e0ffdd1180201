-- ===== src/MDict/Pairs.antt =====
-- usual/mdict.c: mdict_urldecode reads a pair as urlenc_elem has written it.
use libusual_archive.Base.{
  ℕ, ◌+◌, ◌*◌, ◌^◌, ◌≤◌, ◌≡◌, refl, sym, ap, ◌∙◌, subst, arith, Bool, true, false, Option, none,
  some, List, [], ◌∷◌, ◌++◌, inl, if◌then◌else◌, length, length-append, Returns, ◌==◌,
}
use mathlib.Core.List.{append_assoc}
use libusual_archive.Base.Word.{AreBytes}
use libusual_archive.Mbuf.State.{MBuf}
use libusual_archive.Mbuf.View.{IsValid}
use libusual_archive.MDict.{kind, stop, urldec_str, urlenc_str, write_byte}
use libusual_archive.MDict.Escape.{
  escape, escaped, WroteText, urlenc_str_lem, write_byte_lem, then_lem, Appended-nil,
  Appended-place, length-escape,
}
use libusual_archive.MDict.Text.{IsAlnum, IsStop}
use libusual_archive.MDict.RoundTrip.{escaped-urldec_str}
use libusual_archive.MDict.Dict.{
  enc_separator, enc_value, enc_pair, write_elem, read_value, skip_and, read_pair,
}

-- The text of a value and of a pair.
abbrev pub value_text : (ℕ → Bool) → Option (List ℕ) → List ℕ
value_text isalnum none = []
value_text isalnum (some val) = 61 ∷ escaped isalnum val

abbrev pub pair_text : (ℕ → Bool) → List ℕ → Option (List ℕ) → List ℕ
pair_text isalnum key val = escaped isalnum key ++ value_text isalnum val

abbrev pub separator : Bool → List ℕ
separator true = []
separator false = 38 ∷ []

-- The end of the text, or the next pair behind its `&`.
abbrev pub IsAnd : List ℕ → Type 0
IsAnd [] = Unit
IsAnd (c ∷ s) = c ≡ 38

abbrev pub IsValue : Option (List ℕ) → Type 0
IsValue none = Unit
IsValue (some val) = AreBytes val

abbrev pub size : Option (List ℕ) → ℕ
size none = 0
size (some val) = length val

kind_and : kind 38 ≡ stop
unfolding kind
kind_and = refl

kind_equals : kind 61 ≡ stop
unfolding kind
kind_equals = refl

and-IsStop : (s : List ℕ) → IsAnd s → IsStop s
and-IsStop [] h = tt
and-IsStop (c ∷ s) e = subst (λ t. kind t ≡ stop) (sym e) kind_and

value-IsStop :
    (isalnum : ℕ → Bool) (val : Option (List ℕ)) (s : List ℕ)
    → IsAnd s
    → IsStop (value_text isalnum val ++ s)
value-IsStop isalnum none s h = and-IsStop s h
value-IsStop isalnum (some val) s h = kind_equals

read_no_value : (s : List ℕ) → IsAnd s → read_value (λ t. true) s ≡ some (some (none, s))
unfolding read_value
read_no_value [] h = refl
read_no_value (c ∷ s) e = let other : (c == 61) ≡ false = ground arith in rw other refl

read_some_value :
    (text val s : List ℕ)
    → urldec_str true text ≡ some (some (val, s))
    → read_value (λ t. true) (61 ∷ text) ≡ some (some (some val, s))
unfolding read_value
read_some_value text val s e = rw e refl

value-read :
    (isalnum : ℕ → Bool) (val : Option (List ℕ)) (s : List ℕ)
    → IsAlnum isalnum
    → IsValue val
    → IsAnd s
    → read_value (λ t. true) (value_text isalnum val ++ s) ≡ some (some (val, s))
value-read isalnum none s signs b h = read_no_value s h
value-read isalnum (some val) s signs b h =
    read_some_value (escaped isalnum val ++ s) val s
      (escaped-urldec_str isalnum val s signs b (and-IsStop s h))

-- The text of a pair is read as the same pair, up to the end or behind the `&`.
pub pair_text-read_pair :
    (isalnum : ℕ → Bool) (key : List ℕ) (val : Option (List ℕ)) (s : List ℕ)
    → IsAlnum isalnum
    → AreBytes key
    → IsValue val
    → IsAnd s
    → read_pair (λ t. true) (pair_text isalnum key val ++ s) ≡ some (some (key, val, skip_and s))
unfolding read_pair
pair_text-read_pair isalnum key val s signs bk bv h =
    let key_read : urldec_str true (pair_text isalnum key val ++ s)
        ≡ some (some (key, value_text isalnum val ++ s)) =
      ap (urldec_str true) (append_assoc (escaped isalnum key) (value_text isalnum val) s)
      ∙ escaped-urldec_str isalnum key (value_text isalnum val ++ s) signs bk
          (value-IsStop isalnum val s h) in
    rw (key_read, value-read isalnum val s signs bv h) refl

module _ (granted : MBuf → Bool) (isalnum : ℕ → Bool) where
  enc_value_lem :
      (dst : MBuf) (val : Option (List ℕ))
      → IsValid dst
      → IsValue val
      → dst.write_pos + 1 + size val * 3 ≤ 2 ^ 30
      → Returns (WroteText granted dst (value_text isalnum val)) (enc_value granted isalnum val dst)
  unfolding enc_value
  enc_value_lem dst none v b room = ((true, dst), refl, inl (refl, Appended-nil dst v))
  enc_value_lem dst (some val) v b room =
      then_lem granted dst (61 ∷ []) (escaped isalnum val) (write_byte granted dst 61)
        (λ (ok, dst'). if ok then urlenc_str granted isalnum dst' val else some (false, dst'))
        (write_byte_lem granted dst 61 v (omega arith) (omega arith))
        (λ d a.
          urlenc_str_lem granted isalnum d val a.valid b
            (omega (arith, Appended-place dst d (61 ∷ []) a)))
        λ d. refl

  pub length-escaped : (str : List ℕ) → length (escaped isalnum str) ≤ length str * 3
  length-escaped [] = omega arith
  length-escaped (c ∷ str) = omega (
    arith,
    length-append (escape isalnum c) (escaped isalnum str),
    length-escape granted isalnum c,
    length-escaped str,
  )

  enc_pair_lem :
      (dst : MBuf) (key : List ℕ) (val : Option (List ℕ))
      → IsValid dst
      → AreBytes key
      → IsValue val
      → dst.write_pos + length key * 3 + 1 + size val * 3 ≤ 2 ^ 30
      → Returns
          (WroteText granted dst (pair_text isalnum key val))
          (enc_pair granted isalnum key val dst)
  unfolding enc_pair
  enc_pair_lem dst key val v bk bv room =
      then_lem granted dst (escaped isalnum key) (value_text isalnum val)
        (urlenc_str granted isalnum dst key)
        (λ (ok, dst'). if ok then enc_value granted isalnum val dst' else some (false, dst'))
        (urlenc_str_lem granted isalnum dst key v bk (omega arith))
        (λ d a.
          enc_value_lem d val a.valid bv
            (omega (arith, Appended-place dst d (escaped isalnum key) a, length-escaped key)))
        λ d. refl

  separator_lem :
      (dst : MBuf) (first : Bool)
      → IsValid dst
      → dst.write_pos + 1 ≤ 2 ^ 30
      → Returns
          (WroteText granted dst (separator first))
          (enc_separator granted isalnum (record { dst = dst; is_first = first }))
  unfolding enc_separator
  separator_lem dst true v room = ((true, dst), refl, inl (refl, Appended-nil dst v))
  separator_lem dst false v room = write_byte_lem granted dst 38 v (omega arith) room

  pub length-separator : (first : Bool) → length (separator first) ≤ 1
  length-separator true = omega arith
  length-separator false = omega arith

  pub write_elem_lem :
      (dst : MBuf) (first : Bool) (key : List ℕ) (val : Option (List ℕ))
      → IsValid dst
      → AreBytes key
      → IsValue val
      → dst.write_pos + 2 + length key * 3 + size val * 3 ≤ 2 ^ 30
      → Returns
          (WroteText granted dst (separator first ++ pair_text isalnum key val))
          (write_elem granted isalnum (record { dst = dst; is_first = first }) key val)
  unfolding write_elem
  write_elem_lem dst first key val v bk bv room =
      then_lem granted dst (separator first) (pair_text isalnum key val)
        (enc_separator granted isalnum (record { dst = dst; is_first = first }))
        (λ (ok, d). if ok then enc_pair granted isalnum key val d else some (false, d))
        (separator_lem dst first v (omega arith))
        (λ d a.
          enc_pair_lem d key val a.valid bk bv
            (omega (arith, Appended-place dst d (separator first) a, length-separator first)))
        λ d. refl
