-- ===== src/Utf8.antt =====
-- usual/utf8.c: decoding, encoding and validating UTF-8. A pair of pointers `src`, `srcend` is the
-- list of the bytes between them, and a pointer that a function advances is the list that is left.
pub mod Masks
pub mod Encoding
pub mod Decode
pub mod Validate
pub mod Text
mod Tests
use Prim.Native.Nat.{bit_and, bit_or}
use libusual_archive.Base.{
  ℕ, zero, suc, ◌+◌, ◌*◌, ◌/◌, ◌%◌, ◌^◌, ◌≤◌, ◌<◌, Bool, true, false, not, ◌&&◌, ◌||◌, Option, none,
  some, List, [], ◌∷◌, ltb, leb, ◌==◌, if◌then◌else◌, length, drop,
}

-- What utf8_get_char returns: a code point, or `minus b` for the negated value of a bad byte.
pub data Decoded : Type 0 where
  value : ℕ → Decoded
  minus : ℕ → Decoded

-- The macros u8head and u8tail.
pub u8head : ℕ → ℕ → Bool
u8head c mask = bit_and c (bit_or mask (mask / 2)) == mask

pub u8tail : ℕ → Bool
unfolding u8head
u8tail c = u8head c 0x80

-- The branches of utf8_get_char for two, three and four bytes. The first list holds what follows
-- the head; a sequence that the input cuts off, or a wrong byte, skips the head alone.
pub get_two : ℕ → List ℕ → Decoded × List ℕ
get_two p0 (p1 ∷ s) =
    let c = bit_or (bit_and p0 0x1f * 2 ^ 6) (bit_and p1 0x3f) in
    if not (u8tail p1)
    then (minus p0, p1 ∷ s)
    else if ltb c 0x80
    then (minus p0, p1 ∷ s)
    else (value c, s)
get_two p0 [] = (minus p0, [])

pub get_three : ℕ → List ℕ → Decoded × List ℕ
get_three p0 (p1 ∷ p2 ∷ s) =
    let c =
      bit_or (bit_or (bit_and p0 0x0f * 2 ^ 12) (bit_and p1 0x3f * 2 ^ 6)) (bit_and p2 0x3f) in
    if not (u8tail p1) || not (u8tail p2)
    then (minus p0, p1 ∷ p2 ∷ s)
    else if ltb c 0x800 || bit_and c 0xf800 == 0xd800
    then (minus p0, p1 ∷ p2 ∷ s)
    else (value c, s)
get_three p0 s = (minus p0, s)

pub get_four : ℕ → List ℕ → Decoded × List ℕ
get_four p0 (p1 ∷ p2 ∷ p3 ∷ s) =
    let c =
      bit_or
        (bit_or (bit_or (bit_and p0 0x07 * 2 ^ 18) (bit_and p1 0x3f * 2 ^ 12))
          (bit_and p2 0x3f * 2 ^ 6))
        (bit_and p3 0x3f) in
    if not (u8tail p1) || not (u8tail p2) || not (u8tail p3)
    then (minus p0, p1 ∷ p2 ∷ p3 ∷ s)
    else if ltb c 0x10000 || ltb 0x10ffff c
    then (minus p0, p1 ∷ p2 ∷ p3 ∷ s)
    else (value c, s)
get_four p0 s = (minus p0, s)

-- `none` is a read of p[0] past the end.
pub utf8_get_char : List ℕ → Option (Decoded × List ℕ)
utf8_get_char [] = none
utf8_get_char (p0 ∷ s) =
    if ltb p0 0x80
    then some (value p0, s)
    else if u8head p0 0xc0
    then some (get_two p0 s)
    else if u8head p0 0xe0
    then some (get_three p0 s)
    else if u8head p0 0xf0
    then some (get_four p0 s)
    else some (minus p0, s)

-- The store of an `unsigned` into a `char`.
abbrev pub to_char : ℕ → ℕ
to_char x = x % 256

-- The bytes that utf8_put_char stores, with `room` bytes up to `dstend`; false if there is no room.
pub utf8_put_char : (c room : ℕ) → Bool × List ℕ
utf8_put_char c room =
    if ltb c 0x80
    then (if ltb room 1 then (false, []) else (true, to_char c ∷ []))
    else if ltb c 0x800
    then (if ltb room 2 then (false, []) else (
      true,
      to_char (bit_or 0xc0 (c / 2 ^ 6)) ∷ to_char (bit_or 0x80 (bit_and c 0x3f)) ∷ [],
    ))
    else if ltb c 0x10000
    then (if ltb room 3
        then (false, [])
        else if ltb c 0xd800 || ltb 0xdfff c
        then (
          true,
          to_char (bit_or 0xe0 (c / 2 ^ 12))
              ∷ to_char (bit_or 0x80 (bit_and (c / 2 ^ 6) 0x3f))
              ∷ to_char (bit_or 0x80 (bit_and c 0x3f))
              ∷ [],
        )
        else (true, []))
    else if leb c 0x10ffff
    then (if ltb room 4 then (false, []) else (
      true,
      to_char (bit_or 0xf0 (c / 2 ^ 18))
          ∷ to_char (bit_or 0x80 (bit_and (c / 2 ^ 12) 0x3f))
          ∷ to_char (bit_or 0x80 (bit_and (c / 2 ^ 6) 0x3f))
          ∷ to_char (bit_or 0x80 (bit_and c 0x3f))
          ∷ [],
    ))
    else (true, [])

pub utf8_char_size : ℕ → ℕ
utf8_char_size c =
    if ltb c 0x80 then 1 else if ltb c 0x800 then 2 else if ltb c 0x10000 then 3 else 4

pub utf8_seq_size : ℕ → ℕ
utf8_seq_size b =
    if ltb b 0x80
    then 1
    else if ltb b 0xc2
    then 0
    else if ltb b 0xe0
    then 2
    else if ltb b 0xf0
    then 3
    else if ltb b 0xf5
    then 4
    else 0

-- The branches of utf8_validate_seq for one, two and three tail bytes.
pub valid_two : List ℕ → ℕ
valid_two (u1 ∷ s) = if not (bit_and u1 0xc0 == 0x80) then 0 else 2
valid_two [] = 0

pub valid_three : ℕ → List ℕ → ℕ
valid_three u0 (u1 ∷ u2 ∷ s) =
    if u0 == 0xe0 && ltb u1 0xa0
    then 0
    else if u0 == 0xed && leb 0xa0 u1
    then 0
    else if not (bit_and u1 0xc0 == 0x80)
    then 0
    else if not (bit_and u2 0xc0 == 0x80)
    then 0
    else 3
valid_three u0 s = 0

pub valid_four : ℕ → List ℕ → ℕ
valid_four u0 (u1 ∷ u2 ∷ u3 ∷ s) =
    if u0 == 0xf0 && ltb u1 0x90
    then 0
    else if u0 == 0xf4 && ltb 0x8f u1
    then 0
    else if not (bit_and u1 0xc0 == 0x80)
    then 0
    else if not (bit_and u2 0xc0 == 0x80)
    then 0
    else if not (bit_and u3 0xc0 == 0x80)
    then 0
    else 4
valid_four u0 s = 0

pub utf8_validate_seq : List ℕ → Option ℕ
utf8_validate_seq [] = none
utf8_validate_seq (u0 ∷ s) =
    if ltb u0 0x80
    then (if u0 == 0 then some 0 else some 1)
    else if ltb u0 0xc2
    then some 0
    else if ltb u0 0xe0
    then some (valid_two s)
    else if ltb u0 0xf0
    then some (valid_three u0 s)
    else if ltb u0 0xf5
    then some (valid_four u0 s)
    else some 0

-- The loop of utf8_validate_string, on as many rounds as there are bytes.
pub validate_loop : ℕ → List ℕ → Option Bool
validate_loop fuel [] = some true
validate_loop zero (b ∷ s) = none
validate_loop (suc fuel) (b ∷ s) =
    let many : Option Bool = elim (utf8_validate_seq (b ∷ s)) [
      | none ↦ none
      | some n ↦
          let rest = validate_loop fuel (drop n (b ∷ s)) in if n == 0 then some false else rest
    ] in
    let next = validate_loop fuel s in
    if not (bit_and b 0x80 == 0) then many else if b == 0 then some false else next

pub utf8_validate_string : List ℕ → Option Bool
utf8_validate_string s = validate_loop (length s) s
