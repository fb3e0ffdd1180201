-- ===== src/Crc32/Tests.antt =====
-- usual/hashing/crc32.c on concrete bytes.
use Prim.Native.Nat.{bit_xor}
use libusual_archive.Base.{◌≡◌, refl, arith, [], ◌∷◌}
use libusual_archive.Crc32.{crc_words, crc_tab, crc32, crc_loop, calc_crc32, all_ones}
use libusual_archive.Crc32.Bitwise.{remainder, calc_crc32_lem}

-- `123456789` has the checksum that the standard lists.
nine_digits : calc_crc32 (49 ∷ 50 ∷ 51 ∷ 52 ∷ 53 ∷ 54 ∷ 55 ∷ 56 ∷ 57 ∷ []) 0 ≡ 0xcbf43926
unfolding calc_crc32 crc_loop crc32 crc_tab crc_words
nine_digits = refl

calc_crc32_lem_example :
    calc_crc32 (49 ∷ 50 ∷ []) 0 ≡ bit_xor (remainder (bit_xor 0 all_ones) (49 ∷ 50 ∷ [])) all_ones
calc_crc32_lem_example = calc_crc32_lem (49 ∷ 50 ∷ []) 0 ((omega arith), ((omega arith), tt))
