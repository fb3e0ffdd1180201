-- ===== src/Utf8/Tests.antt =====
-- Runs of usual/utf8.c, and its theorems at concrete bytes.
use libusual_archive.Base.{ℕ, ◌≡◌, refl, true, false, List, [], ◌∷◌, ◌++◌, arith, some, ◌⊎◌}
use libusual_archive.Utf8.{value, utf8_get_char, utf8_validate_string}
use libusual_archive.Utf8.Encoding.{is_scalar, encode}
use libusual_archive.Utf8.Decode.{Decodes, Skips, utf8_get_char-encode, utf8_get_char_exact}
use libusual_archive.Utf8.Text.{IsText, utf8_validate_string-IsText}

-- U+20AC, then an ASCII letter.
abbrev euro : List ℕ
euro = 0xe2 ∷ 0x82 ∷ 0xac ∷ 0x61 ∷ []

utf8_get_char-encode_example :
    utf8_get_char (encode 0x20ac ++ 0x61 ∷ []) ≡ some (value 0x20ac, 0x61 ∷ [])
unfolding is_scalar
utf8_get_char-encode_example = utf8_get_char-encode 0x20ac (0x61 ∷ []) refl

utf8_get_char_exact_example :
    Decodes 0xe2 (0x82 ∷ 0xac ∷ 0x61 ∷ []) ⊎ Skips 0xe2 (0x82 ∷ 0xac ∷ 0x61 ∷ [])
utf8_get_char_exact_example = utf8_get_char_exact 0xe2 (0x82 ∷ 0xac ∷ 0x61 ∷ []) (omega arith)

utf8_validate_string-IsText_example :
    (utf8_validate_string euro ≡ some true) × IsText euro
    ⊎ (utf8_validate_string euro ≡ some false) × ¬ IsText euro
utf8_validate_string-IsText_example = utf8_validate_string-IsText euro (omega arith)
