-- ===== src/Utf8/Decode.antt =====
-- usual/utf8.c: utf8_get_char accepts exactly the encodings of scalar values.
use libusual_archive.Base.{
  Returns, ap, ℕ, ◌+◌, ◌*◌, ◌/◌, ◌%◌, ◌<◌, ◌≡◌, ◌≢◌, refl, true, List, [], ◌∷◌, ◌++◌, arith, ltb,
  leb, ◌==◌, if◌then◌else◌, Bool-cases, inl, inr, not, ◌&&◌, some, ◌⊎◌,
}
use libusual_archive.Utf8.{Decoded, value, minus, get_two, get_three, get_four, utf8_get_char}
use libusual_archive.Utf8.Encoding.{is_scalar, encode}
use libusual_archive.Utf8.Masks.{
  head_two, head_three, head_four, tail_lem, fields_two, fields_three, fields_four, surrogate_lem,
}

-- Every number in the list is a byte.
abbrev pub Bytes : List ℕ → Type 0
Bytes [] = Unit {0}
Bytes (b ∷ s) = (b < 256) × Bytes s

-- A decoded value stands for the bytes it was read from; a bad byte is skipped alone.
abbrev pub Sound : ℕ → List ℕ → Decoded × List ℕ → Type 0
Sound p0 s (value c, rest) = (is_scalar c ≡ true) × (p0 ∷ s ≡ encode c ++ rest)
Sound p0 s (minus b, rest) = (b ≡ p0) × (rest ≡ s)

-- The branches as arithmetic on bytes.
pub get_two_lem :
    (p0 p1 : ℕ) (s : List ℕ)
    → p1 < 256
    → get_two p0 (p1 ∷ s) ≡ (
        if p1 / 64 == 2 && leb 128 (p0 % 32 * 64 + p1 % 64)
        then (value (p0 % 32 * 64 + p1 % 64), s)
        else (minus p0, p1 ∷ s))
unfolding get_two
get_two_lem p0 p1 s h = ground (arith, tail_lem p1 h, fields_two p0 p1)

abbrev pub three : ℕ → ℕ → ℕ → ℕ
three p0 p1 p2 = p0 % 16 * 4096 + p1 % 64 * 64 + p2 % 64

pub get_three_lem :
    (p0 p1 p2 : ℕ) (s : List ℕ)
    → p1 < 256
    → p2 < 256
    → get_three p0 (p1 ∷ p2 ∷ s) ≡ (
        if p1 / 64 == 2
          && p2 / 64 == 2
          && leb 2048 (three p0 p1 p2)
          && not (three p0 p1 p2 / 2048 == 27)
        then (value (three p0 p1 p2), s)
        else (minus p0, p1 ∷ p2 ∷ s))
unfolding get_three
get_three_lem p0 p1 p2 s h k =
    ground
      (arith, tail_lem p1 h, tail_lem p2 k, fields_three p0 p1 p2, surrogate_lem (three p0 p1 p2))

abbrev pub four : ℕ → ℕ → ℕ → ℕ → ℕ
four p0 p1 p2 p3 = p0 % 8 * 262144 + p1 % 64 * 4096 + p2 % 64 * 64 + p3 % 64

pub get_four_lem :
    (p0 p1 p2 p3 : ℕ) (s : List ℕ)
    → p1 < 256
    → p2 < 256
    → p3 < 256
    → get_four p0 (p1 ∷ p2 ∷ p3 ∷ s) ≡ (
        if p1 / 64 == 2
          && p2 / 64 == 2
          && p3 / 64 == 2
          && leb 65536 (four p0 p1 p2 p3)
          && ltb (four p0 p1 p2 p3) 0x110000
        then (value (four p0 p1 p2 p3), s)
        else (minus p0, p1 ∷ p2 ∷ p3 ∷ s))
unfolding get_four
get_four_lem p0 p1 p2 p3 s h k l =
    ground (arith, tail_lem p1 h, tail_lem p2 k, tail_lem p3 l, fields_four p0 p1 p2 p3)

get_two-Sound : (p0 : ℕ) (s : List ℕ) → Bytes s → p0 / 32 ≡ 6 → Sound p0 s (get_two p0 s)
get_two-Sound p0 [] b h = unfold get_two in (refl, refl)
get_two-Sound p0 (p1 ∷ s) b h =
    rw (get_two_lem p0 p1 s b.0)
      (elim (Bool-cases (p1 / 64 == 2 && leb 128 (p0 % 32 * 64 + p1 % 64))) [
        | inl ok ↦ rw ok (unfold encode is_scalar in (ground arith, ground arith))
        | inr bad ↦ rw bad (refl, refl)
      ])

get_three-Sound : (p0 : ℕ) (s : List ℕ) → Bytes s → p0 / 16 ≡ 14 → Sound p0 s (get_three p0 s)
get_three-Sound p0 [] b h = unfold get_three in (refl, refl)
get_three-Sound p0 (p1 ∷ []) b h = unfold get_three in (refl, refl)
get_three-Sound p0 (p1 ∷ p2 ∷ s) b h =
    rw (get_three_lem p0 p1 p2 s b.0 b.1.0)
      (elim (Bool-cases (
        p1 / 64 == 2
        && p2 / 64 == 2
        && leb 2048 (three p0 p1 p2)
        && not (three p0 p1 p2 / 2048 == 27))) [
          | inl ok ↦ rw ok (unfold encode is_scalar in (ground arith, ground arith))
          | inr bad ↦ rw bad (refl, refl)
        ])

get_four-Sound : (p0 : ℕ) (s : List ℕ) → Bytes s → p0 / 8 ≡ 30 → Sound p0 s (get_four p0 s)
get_four-Sound p0 [] b h = unfold get_four in (refl, refl)
get_four-Sound p0 (p1 ∷ []) b h = unfold get_four in (refl, refl)
get_four-Sound p0 (p1 ∷ p2 ∷ []) b h = unfold get_four in (refl, refl)
get_four-Sound p0 (p1 ∷ p2 ∷ p3 ∷ s) b h =
    rw (get_four_lem p0 p1 p2 p3 s b.0 b.1.0 b.1.1.0)
      (elim (Bool-cases (
        p1 / 64 == 2
        && p2 / 64 == 2
        && p3 / 64 == 2
        && leb 65536 (four p0 p1 p2 p3)
        && ltb (four p0 p1 p2 p3) 0x110000)) [
          | inl ok ↦ rw ok (unfold encode is_scalar in (ground arith, ground arith))
          | inr bad ↦ rw bad (refl, refl)
        ])

-- Decoding the encoding of a scalar value gives the value back, and leaves what follows.
pub utf8_get_char-encode :
    (c : ℕ) (s : List ℕ) → is_scalar c ≡ true → utf8_get_char (encode c ++ s) ≡ some (value c, s)
unfolding utf8_get_char encode is_scalar
utf8_get_char-encode c s h = elim (Bool-cases (ltb c 128)) [
  | inl one ↦ rw (one, one)
  | inr big1 ↦ elim (Bool-cases (ltb c 2048)) [
    | inl two ↦
        rw (big1, two)
          (ground (arith, head_two (192 + c / 64), get_two_lem (192 + c / 64) (128 + c % 64) s))
    | inr big2 ↦ elim (Bool-cases (ltb c 65536)) [
      | inl yes3 ↦
          rw (big1, big2, yes3)
            (ground (
              arith,
              head_two (224 + c / 4096),
              head_three (224 + c / 4096),
              get_three_lem (224 + c / 4096) (128 + c / 64 % 64) (128 + c % 64) s,
            ))
      | inr big3 ↦
          rw (big1, big2, big3)
            (ground (
              arith,
              head_two (240 + c / 262144),
              head_three (240 + c / 262144),
              head_four (240 + c / 262144),
              get_four_lem (240 + c / 262144) (128 + c / 4096 % 64) (128 + c / 64 % 64)
                  (128 + c % 64) s,
            ))
    ]
  ]
]

utf8_get_char-Sound :
    (p0 : ℕ) (s : List ℕ) → Bytes (p0 ∷ s) → Returns (Sound p0 s) (utf8_get_char (p0 ∷ s))
unfolding utf8_get_char
utf8_get_char-Sound p0 s b = elim (Bool-cases (ltb p0 0x80)) [
  | inl one ↦ rw one ((value p0, s), refl, unfold encode is_scalar in (ground arith, ground arith))
  | inr big1 ↦ elim (Bool-cases (p0 / 32 == 6)) [
    | inl two ↦
        rw (big1, head_two p0 b.0, two) (get_two p0 s, refl, get_two-Sound p0 s b.1 (ground arith))
    | inr big2 ↦ elim (Bool-cases (p0 / 16 == 14)) [
      | inl three ↦
          rw (big1, head_two p0 b.0, big2, head_three p0 b.0, three)
            (get_three p0 s, refl, get_three-Sound p0 s b.1 (ground arith))
      | inr big3 ↦ elim (Bool-cases (p0 / 8 == 30)) [
        | inl four ↦
            rw (big1, head_two p0 b.0, big2, head_three p0 b.0, big3, head_four p0 b.0, four)
              (get_four p0 s, refl, get_four-Sound p0 s b.1 (ground arith))
        | inr bad ↦
            rw (big1, head_two p0 b.0, big2, head_three p0 b.0, big3, head_four p0 b.0, bad)
              ((minus p0, s), refl, (refl, refl))
      ]
    ]
  ]
]

-- The outcome of a call on a non-empty input.
abbrev pub Decodes : ℕ → List ℕ → Type 0
Decodes p0 s =
    (c : ℕ) × (rest : List ℕ) × (utf8_get_char (p0 ∷ s) ≡ some (value c, rest))
    × (is_scalar c ≡ true)
    × (p0 ∷ s ≡ encode c ++ rest)

abbrev pub Skips : ℕ → List ℕ → Type 0
Skips p0 s =
    (utf8_get_char (p0 ∷ s) ≡ some (minus p0, s))
    × ((c : ℕ) (rest : List ℕ) → is_scalar c ≡ true → p0 ∷ s ≢ encode c ++ rest)

-- On bytes that are not empty utf8_get_char either returns a scalar value whose encoding the input
-- begins with, and moves past it, or the input begins with no encoding of a scalar value, and it
-- returns the negated first byte and moves on by one.
pub utf8_get_char_exact : (p0 : ℕ) (s : List ℕ) → Bytes (p0 ∷ s) → Decodes p0 s ⊎ Skips p0 s
utf8_get_char_exact p0 s b = outcome (utf8_get_char-Sound p0 s b)
  where
    outcome : Returns (Sound p0 s) (utf8_get_char (p0 ∷ s)) → Decodes p0 s ⊎ Skips p0 s
    outcome ((value c, rest), e, sound) = inl (c, rest, e, sound.0, sound.1)
    outcome ((minus b, rest), e, sound) = inr (
      rw (e, sound.0, sound.1),
      λ c rest scalar same. cc (e, ap utf8_get_char same, utf8_get_char-encode c rest scalar),
    )
