-- ===== src/MDict/Tests.antt =====
-- usual/mdict.c on concrete texts.
use libusual_archive.Base.{
  ℕ, ◌≡◌, refl, Bool, true, ◌&&◌, ◌||◌, none, some, List, [], ◌∷◌, arith, leb, Returns,
}
use libusual_archive.Mbuf.State.{MBuf, mbuf_init_dynamic}
use libusual_archive.Mbuf.View.{IsValid}
use libusual_archive.MDict.{
  kind, estimate, gethex, hex_pair, prepend, emit, finish, escape_at, decode, urldec_str,
}
use libusual_archive.MDict.Escape.{escaped}
use libusual_archive.MDict.Text.{IsDecoded, urldec_str_lem}

-- isalnum in the C locale.
abbrev is_alnum : ℕ → Bool
is_alnum c = (leb 48 c && leb c 57) || ((leb 65 c && leb c 90) || (leb 97 c && leb c 122))

abbrev can_grow : MBuf → Bool
can_grow b = true

-- `a b%2f&c`, which is read up to the `&` in six bytes with its NUL.
abbrev part : List ℕ
part = 97 ∷ 32 ∷ 98 ∷ 37 ∷ 50 ∷ 102 ∷ 38 ∷ 99 ∷ []

read_part : urldec_str true part ≡ some (some (97 ∷ 32 ∷ 98 ∷ 47 ∷ [], 38 ∷ 99 ∷ []))
unfolding urldec_str decode escape_at estimate kind emit prepend finish hex_pair gethex
read_part = refl

-- An escape that is cut off.
cut_off : urldec_str true (97 ∷ 37 ∷ 50 ∷ []) ≡ some none
unfolding urldec_str decode escape_at estimate kind emit prepend finish hex_pair gethex
cut_off = refl

-- `a b/` as it is written.
escapes : escaped is_alnum (97 ∷ 32 ∷ 98 ∷ 47 ∷ []) ≡ 97 ∷ 43 ∷ 98 ∷ 37 ∷ 50 ∷ 102 ∷ []
escapes = refl

abbrev buffer : MBuf
buffer = mbuf_init_dynamic (λ i. 0)

buffer-IsValid : IsValid buffer
unfolding mbuf_init_dynamic
buffer-IsValid = record {
  cursors = omega arith;
  inside = omega arith;
  small = omega arith;
  byte = λ i. omega arith;
}

urldec_str_lem_example : Returns (IsDecoded part) (urldec_str true part)
urldec_str_lem_example = urldec_str_lem true part
