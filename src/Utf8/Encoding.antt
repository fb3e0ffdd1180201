-- ===== src/Utf8/Encoding.antt =====
-- The encoding of the Unicode standard, as arithmetic, and what usual/utf8.c writes against it.
use libusual_archive.Base.{
  ℕ, ◌+◌, ◌/◌, ◌%◌, ◌≡◌, Bool, List, [], ◌∷◌, arith, ltb, leb, ◌||◌, if◌then◌else◌, length, not,
  ◌&&◌,
}
use libusual_archive.Utf8.{utf8_put_char, utf8_char_size}
use libusual_archive.Utf8.Masks.{put_tail, put_two, put_three, put_four}

-- A Unicode scalar value: a code point that is no surrogate.
unfoldable pub is_scalar : ℕ → Bool
is_scalar c = ltb c 0xd800 || ltb 0xdfff c && ltb c 0x110000

-- The shortest sequence that carries the bits of `c`.
unfoldable pub encode : ℕ → List ℕ
encode c =
    if ltb c 128
    then c ∷ []
    else if ltb c 2048
    then (192 + c / 64) ∷ (128 + c % 64) ∷ []
    else if ltb c 65536
    then (224 + c / 4096) ∷ (128 + c / 64 % 64) ∷ (128 + c % 64) ∷ []
    else (240 + c / 262144) ∷ (128 + c / 4096 % 64) ∷ (128 + c / 64 % 64) ∷ (128 + c % 64) ∷ []

-- Room for the encoding of a code point; anything above the last one needs none.
unfoldable pub needs : ℕ → ℕ
needs c = if leb c 0x10ffff then utf8_char_size c else 0

-- utf8_char_size is the number of bytes of the encoding.
pub utf8_char_size-encode : (c : ℕ) → utf8_char_size c ≡ length (encode c)
unfolding utf8_char_size encode
utf8_char_size-encode c = ground arith

-- utf8_put_char returns false, storing nothing, exactly if the code point's size exceeds the room up to the end; else it
-- returns true and stores the encoding of a scalar value, and nothing for a surrogate or a number above the last code point.
pub utf8_put_char-encode :
    (c room : ℕ)
    → utf8_put_char c room
      ≡ (not (ltb room (needs c)), if not (ltb room (needs c)) && is_scalar c then encode c else [])
unfolding utf8_put_char encode needs utf8_char_size is_scalar
utf8_put_char-encode c room = ground (
  arith,
  put_tail c,
  put_tail (c / 64),
  put_tail (c / 4096),
  put_two (c / 64),
  put_three (c / 4096),
  put_four (c / 262144),
)
