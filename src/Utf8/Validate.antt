-- ===== src/Utf8/Validate.antt =====
-- usual/utf8.c: utf8_validate_seq and utf8_seq_size against the decoder.
use libusual_archive.Base.{
  ℕ, ◌/◌, ◌≤◌, ◌<◌, ◌≡◌, ◌≢◌, refl, List, [], ◌∷◌, arith, ltb, ◌==◌, if◌then◌else◌, Bool-cases, inl,
  inr, some,
}
use mathlib.Core.Option
use libusual_archive.Utf8.{
  Decoded, value, minus, get_two, get_three, get_four, utf8_get_char, utf8_validate_seq, valid_two,
  valid_three, valid_four, utf8_char_size, utf8_seq_size,
}
use libusual_archive.Utf8.Masks.{head_two, head_three, head_four, tail_test}
use libusual_archive.Utf8.Decode.{Bytes, get_two_lem, get_three_lem, get_four_lem}

-- The size of the character that was decoded; 0 for NUL and for bad bytes.
unfoldable pub sequence_size : Decoded × List ℕ → ℕ
sequence_size (value c, rest) = if c == 0 then 0 else utf8_char_size c
sequence_size (minus b, rest) = 0

valid_two_lem :
    (p0 : ℕ) (s : List ℕ)
    → Bytes s
    → p0 / 32 ≡ 6
    → 194 ≤ p0
    → valid_two s ≡ sequence_size (get_two p0 s)
unfolding valid_two sequence_size
valid_two_lem p0 [] b h k = unfold get_two in refl
valid_two_lem p0 (p1 ∷ s) b h k =
    rw (get_two_lem p0 p1 s b.0, tail_test p1 b.0) (unfold utf8_char_size in ground arith)

bad_two :
    (p0 : ℕ) (s : List ℕ) → Bytes s → p0 / 32 ≡ 6 → p0 < 194 → sequence_size (get_two p0 s) ≡ 0
unfolding sequence_size
bad_two p0 [] b h k = unfold get_two in refl
bad_two p0 (p1 ∷ s) b h k = rw (get_two_lem p0 p1 s b.0) (ground arith)

valid_three_lem :
    (p0 : ℕ) (s : List ℕ)
    → Bytes s
    → p0 / 16 ≡ 14
    → valid_three p0 s ≡ sequence_size (get_three p0 s)
unfolding valid_three sequence_size
valid_three_lem p0 [] b h = unfold get_three in refl
valid_three_lem p0 (p1 ∷ []) b h = unfold get_three in refl
valid_three_lem p0 (p1 ∷ p2 ∷ s) b h =
    rw (get_three_lem p0 p1 p2 s b.0 b.1.0, tail_test p1 b.0, tail_test p2 b.1.0)
      (unfold utf8_char_size in ground arith)

valid_four_lem :
    (p0 : ℕ) (s : List ℕ)
    → Bytes s
    → p0 / 8 ≡ 30
    → p0 < 245
    → valid_four p0 s ≡ sequence_size (get_four p0 s)
unfolding valid_four sequence_size
valid_four_lem p0 [] b h k = unfold get_four in refl
valid_four_lem p0 (p1 ∷ []) b h k = unfold get_four in refl
valid_four_lem p0 (p1 ∷ p2 ∷ []) b h k = unfold get_four in refl
valid_four_lem p0 (p1 ∷ p2 ∷ p3 ∷ s) b h k =
    rw
      (
        get_four_lem p0 p1 p2 p3 s b.0 b.1.0 b.1.1.0,
        tail_test p1 b.0,
        tail_test p2 b.1.0,
        tail_test p3 b.1.1.0,
      )
      (unfold utf8_char_size in ground arith)

bad_four :
    (p0 : ℕ) (s : List ℕ) → Bytes s → p0 / 8 ≡ 30 → 245 ≤ p0 → sequence_size (get_four p0 s) ≡ 0
unfolding sequence_size
bad_four p0 [] b h k = unfold get_four in refl
bad_four p0 (p1 ∷ []) b h k = unfold get_four in refl
bad_four p0 (p1 ∷ p2 ∷ []) b h k = unfold get_four in refl
bad_four p0 (p1 ∷ p2 ∷ p3 ∷ s) b h k =
    rw (get_four_lem p0 p1 p2 p3 s b.0 b.1.0 b.1.1.0) (ground arith)

-- On any bytes utf8_validate_seq returns the size of the character that utf8_get_char decodes
-- there, and 0 if that is NUL or if the bytes are bad: its byte ranges are the decoder's checks.
pub utf8_validate_seq-get_char :
    (s : List ℕ) → Bytes s → utf8_validate_seq s ≡ Option.map sequence_size (utf8_get_char s)
unfolding utf8_validate_seq utf8_get_char sequence_size utf8_char_size
utf8_validate_seq-get_char [] b = refl
utf8_validate_seq-get_char (p0 ∷ s) b =
    rw (head_two p0 b.0, head_three p0 b.0, head_four p0 b.0)
      (elim (Bool-cases (ltb p0 0x80)) [
        | inl one ↦ rw (one, one) (ground arith)
        | inr big1 ↦ elim (Bool-cases (p0 / 32 == 6)) [
          | inl two ↦ rw (big1, two) (ground (arith, valid_two_lem p0 s b.1, bad_two p0 s b.1))
          | inr big2 ↦ elim (Bool-cases (p0 / 16 == 14)) [
            | inl yes3 ↦ rw (big1, big2, yes3) (ground (arith, valid_three_lem p0 s b.1))
            | inr big3 ↦ elim (Bool-cases (p0 / 8 == 30)) [
              | inl yes4 ↦
                  rw (big1, big2, big3, yes4)
                    (ground (arith, valid_four_lem p0 s b.1, bad_four p0 s b.1))
              | inr bad ↦ rw (big1, big2, big3, bad) (ground arith)
            ]
          ]
        ]
      ])

-- If utf8_validate_seq accepts a character, utf8_seq_size of its first byte is the size.
pub utf8_seq_size-validate_seq :
    (b : ℕ) (s : List ℕ) (n : ℕ) → utf8_validate_seq (b ∷ s) ≡ some n → n ≢ 0 → utf8_seq_size b ≡ n
unfolding utf8_validate_seq utf8_seq_size valid_two valid_three valid_four
utf8_seq_size-validate_seq b [] n e h = ground arith
utf8_seq_size-validate_seq b (u1 ∷ []) n e h = ground arith
utf8_seq_size-validate_seq b (u1 ∷ u2 ∷ []) n e h = ground arith
utf8_seq_size-validate_seq b (u1 ∷ u2 ∷ u3 ∷ s) n e h = ground arith
