-- ===== src/Crc32/Bitwise.antt =====
-- usual/hashing/crc32.c: the table against the division one bit at a time.
use Prim.Native.Nat.{bit_and, bit_xor}
use libusual_archive.Base.{
  ℕ, ◌*◌, ◌/◌, ◌%◌, ◌<◌, ◌≡◌, refl, sym, ap, ◌∙◌, arith, true, List, [], ◌∷◌, ◌++◌,
}
use libusual_archive.Base.Word.{AreBytes}
use libusual_archive.Base.Bits.{agree_on_bytes, agree_on_bytes_sound, bit_and-low}
use libusual_archive.Base.Xor.{
  bit_xor_comm, bit_xor-zero, bit_xor-twice, bit_xor-fields, bit_xor-shift,
}
use libusual_archive.Crc32.{crc_words, crc_tab, crc32, crc_loop, calc_crc32, all_ones}
use libusual_archive.Crc32.Linear.{shift_many, shift_many-bit_xor, shift_many-high}

table_computes : agree_on_bytes crc_tab (shift_many 8) ≡ true
unfolding agree_on_bytes crc_tab crc_words
table_computes = refl

-- The entry of a byte is what eight steps of the division make of it.
pub crc_tab_lem : (i : ℕ) → i < 256 → crc_tab i ≡ shift_many 8 i
crc_tab_lem = agree_on_bytes_sound crc_tab (shift_many 8) table_computes

parts_of : (x : ℕ) → bit_xor (x / 256 * 256) (x % 256) ≡ x
parts_of x = bit_xor-fields 8 (x / 256) (x % 256) (omega arith) ∙ omega arith

-- For a byte: one step of the table does eight steps of the division.
pub crc32_lem : (prev c : ℕ) → c < 256 → crc32 prev c ≡ shift_many 8 (bit_xor prev c)
unfolding crc32
crc32_lem prev c h =
    let x = bit_xor prev c in
    let low : crc_tab (bit_and x 0xff) ≡ shift_many 8 (x % 256) =
      ap crc_tab (bit_and-low 8 x) ∙ crc_tab_lem (x % 256) (omega arith) in
    let no_high : c / 256 ≡ 0 = omega arith in
    let high : x / 256 ≡ prev / 256 =
      bit_xor-shift 8 prev c ∙ ap (bit_xor (prev / 256)) no_high ∙ bit_xor-zero (prev / 256) in
    ap (λ t. bit_xor t (prev / 256)) low
    ∙ ap (bit_xor (shift_many 8 (x % 256))) (sym high ∙ sym (shift_many-high 8 (x / 256)))
    ∙ sym (shift_many-bit_xor 8 (x % 256) (x / 256 * 256))
    ∙ ap (shift_many 8) (bit_xor_comm (x % 256) (x / 256 * 256) ∙ parts_of x)

-- The remainder after the bytes, each added to the low bits before its eight steps.
unfoldable pub remainder : ℕ → List ℕ → ℕ
remainder crc [] = crc
remainder crc (c ∷ bytes) = remainder (shift_many 8 (bit_xor crc c)) bytes

crc_loop-remainder :
    (crc : ℕ) (bytes : List ℕ) → AreBytes bytes → crc_loop crc bytes ≡ remainder crc bytes
unfolding crc_loop remainder
crc_loop-remainder crc [] h = refl
crc_loop-remainder crc (c ∷ bytes) (h, hs) =
    crc_loop-remainder (crc32 crc c) bytes hs ∙ ap (λ t. remainder t bytes) (crc32_lem crc c h)

-- For bytes: calc_crc32 is the CRC-32 of the bytes by the division one bit at a time, from the complement of the initial value and
-- with the result complemented.
pub calc_crc32_lem :
    (bytes : List ℕ) (init : ℕ)
    → AreBytes bytes
    → calc_crc32 bytes init ≡ bit_xor (remainder (bit_xor init all_ones) bytes) all_ones
unfolding calc_crc32
calc_crc32_lem bytes init h =
    ap (λ t. bit_xor t all_ones) (crc_loop-remainder (bit_xor init all_ones) bytes h)

crc_loop-append :
    (crc : ℕ) (xs ys : List ℕ) → crc_loop crc (xs ++ ys) ≡ crc_loop (crc_loop crc xs) ys
unfolding crc_loop
crc_loop-append crc [] ys = refl
crc_loop-append crc (x ∷ xs) ys = crc_loop-append (crc32 crc x) xs ys

-- The checksum of two pieces, one after the other, is the checksum of the second from that of the first.
pub calc_crc32-append :
    (xs ys : List ℕ) (init : ℕ) → calc_crc32 (xs ++ ys) init ≡ calc_crc32 ys (calc_crc32 xs init)
unfolding calc_crc32
calc_crc32-append xs ys init =
    let start = bit_xor init all_ones in
    ap (λ t. bit_xor t all_ones)
      (crc_loop-append start xs ys
        ∙ ap (λ t. crc_loop t ys) (sym (bit_xor-twice (crc_loop start xs) all_ones)))
