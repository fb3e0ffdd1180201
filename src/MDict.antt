-- ===== src/MDict.antt =====
-- usual/mdict.c: the texts of URLs. The dictionary itself is in MDict/Dict.antt.
pub mod Dict
pub mod Escape
pub mod Loops
pub mod Text
pub mod RoundTrip
pub mod Lookup
pub mod Map
pub mod Put
pub mod Removal
pub mod Decoding
pub mod Pairs
pub mod WriteAll
pub mod Puts
pub mod ReadAll
pub mod Whole
mod Tests
mod DictTests
use Prim.Native.Nat.{bit_and}
use libusual_archive.Base.{
  ℕ, zero, suc, ◌+◌, ◌-◌, ◌*◌, ◌/◌, ◌%◌, Bool, true, false, not, ◌&&◌, ◌||◌, Option, none, some,
  List, [], ◌∷◌, ltb, leb, ◌==◌, if◌then◌else◌, ◌>>=◌, get_elem?, length,
}
use libusual_archive.Mbuf.State.{MBuf}
use libusual_archive.Mbuf.Write.{mbuf_write_byte}

-- A result below 0 is `none`.
unfoldable pub gethex : ℕ → Option ℕ
gethex c =
    if leb 48 c && leb c 57
    then some (c - 48)
    else if leb 97 c && leb c 102
    then some (c - 97 + 10)
    else if leb 65 c && leb c 70
    then some (c - 65 + 10)
    else none

-- What the loops of urldec_str tell apart.
pub data Kind : Type 0 where
  percent : Kind
  plus : Kind
  stop : Kind
  plain : Kind

unfoldable pub kind : ℕ → Kind
kind c =
    if c == 37
    then percent
    else if c == 43
    then plus
    else if c == 38 || c == 61
    then stop
    else plain

-- The first loop; `skip` are the steps that `s += 2` still has to make.
unfoldable pub estimate : ℕ → List ℕ → ℕ
estimate skip [] = 0
estimate (suc skip) (c ∷ s) = estimate skip s
estimate zero (c ∷ s) = elim (kind c) [
  | percent ↦ 1 + estimate 2 s
  | plus ↦ 1 + estimate 0 s
  | stop ↦ 0
  | plain ↦ 1 + estimate 0 s
]

-- What the second loop gives: the bytes that it stores and where it stops, or `none` for the label err. The outer `none` is a
-- store behind the `room` bytes of the allocation or a read behind the text.
abbrev pub UrlText : Type 0
UrlText = Option (Option (List ℕ × List ℕ))

unfoldable pub prepend : ℕ → Option (List ℕ × List ℕ) → Option (List ℕ × List ℕ)
prepend c none = none
prepend c (some (bytes, s)) = some (c ∷ bytes, s)

unfoldable pub emit : ℕ → ℕ → UrlText → UrlText
emit room c rest = if ltb 0 room then (rest >>= λ r. some (prepend c r)) else none

-- The NUL behind the bytes.
unfoldable pub finish : ℕ → List ℕ → UrlText
finish room s = if ltb 0 room then some (some ([], s)) else none

unfoldable pub hex_pair : ℕ → ℕ → Option ℕ
hex_pair x y = gethex x >>= λ h1. gethex y >>= λ h2. some (h1 * 16 + h2)

-- The byte of the escape before `s`, if it is one. The outer `none` is a read behind the end of the text.
unfoldable pub escape_at : List ℕ → Option (Option ℕ)
escape_at s =
    if ltb (length s) 2
    then some none
    else (get_elem? s 0 >>= λ x. get_elem? s 1 >>= λ y. some (hex_pair x y))

unfoldable pub decode : ℕ → List ℕ → UrlText
decode room [] = finish room []
decode room (c ∷ []) = elim (kind c) [
  | percent ↦ escape_at [] >>= λ r. elim r [
    | none ↦ some none
    | some byte ↦ emit room byte (finish (room - 1) [])
  ]
  | plus ↦ emit room 32 (finish (room - 1) [])
  | stop ↦ finish room (c ∷ [])
  | plain ↦ emit room c (finish (room - 1) [])
]
decode room (c ∷ x ∷ []) = elim (kind c) [
  | percent ↦ escape_at (x ∷ []) >>= λ r. elim r [
    | none ↦ some none
    | some byte ↦ emit room byte (finish (room - 1) [])
  ]
  | plus ↦ emit room 32 (decode (room - 1) (x ∷ []))
  | stop ↦ finish room (c ∷ x ∷ [])
  | plain ↦ emit room c (decode (room - 1) (x ∷ []))
]
decode room (c ∷ x ∷ y ∷ s) = elim (kind c) [
  | percent ↦ escape_at (x ∷ y ∷ s) >>= λ r. elim r [
    | none ↦ some none
    | some byte ↦ emit room byte (decode (room - 1) s)
  ]
  | plus ↦ emit room 32 (decode (room - 1) (x ∷ y ∷ s))
  | stop ↦ finish room (c ∷ x ∷ y ∷ s)
  | plain ↦ emit room c (decode (room - 1) (x ∷ y ∷ s))
]

-- `granted` is the outcome of the allocation; without it the result is NULL, as behind the label err.
unfoldable pub urldec_str : Bool → List ℕ → UrlText
urldec_str granted src = if granted then decode (estimate 0 src + 1) src else some none

abbrev pub hextbl : List ℕ
hextbl = 48 ∷ 49 ∷ 50 ∷ 51 ∷ 52 ∷ 53 ∷ 54 ∷ 55 ∷ 56 ∷ 57 ∷ 97 ∷ 98 ∷ 99 ∷ 100 ∷ 101 ∷ 102 ∷ []

-- `granted` tells for each state of the buffer whether it can grow.
module _ (granted : MBuf → Bool) where
  unfoldable pub write_byte : MBuf → ℕ → Option (Bool × MBuf)
  write_byte dst c = mbuf_write_byte (granted dst) dst c

  unfoldable pub write_hex : Bool × MBuf → ℕ → Option (Bool × MBuf)
  write_hex (ok, dst) digit =
      if ok then (get_elem? hextbl digit >>= λ c. write_byte dst c) else some (false, dst)

  -- `isalnum` is that of the C library.
  unfoldable pub urlenc_byte : (ℕ → Bool) → MBuf → ℕ → Option (Bool × MBuf)
  urlenc_byte isalnum dst c =
      if c == 32
      then write_byte dst 43
      else if (ltb c 128 && isalnum c) || (c == 46 || c == 95)
      then write_byte dst c
      else (write_byte dst 37 >>= λ r. write_hex r (c / 16) >>= λ r'. write_hex r' (bit_and c 15))

  unfoldable pub urlenc_str : (ℕ → Bool) → MBuf → List ℕ → Option (Bool × MBuf)
  urlenc_str isalnum dst [] = some (true, dst)
  urlenc_str isalnum dst (c ∷ str) = urlenc_byte isalnum dst c >>= λ (ok, dst').
      if ok then urlenc_str isalnum dst' str else some (false, dst')
