-- ===== src/Endian/Little.antt =====
-- usual/endian.h: what le64dec reads, as the value of eight bytes with the lowest first.
use libusual_archive.Base.{
  ℕ, zero, suc, ◌+◌, ◌*◌, ◌^◌, ◌<◌, ◌≡◌, ap, ◌∙◌, arith, Bool, true, false, List, [], ◌∷◌,
}
use libusual_archive.Endian.{le64dec, htole64, h64dec, h32dec, h16dec}
use libusual_archive.Endian.Swap.{bswap32_lem, bswap64_lem, four_bytes}

-- The bytes from an address on.
abbrev pub bytes_at : (ℕ → ℕ) → ℕ → ℕ → List ℕ
bytes_at mem a zero = []
bytes_at mem a (suc n) = mem a ∷ bytes_at mem (a + 1) n

abbrev pub le_value : List ℕ → ℕ
le_value [] = 0
le_value (b ∷ bytes) = b + 256 * le_value bytes

-- The address of a byte in two ways.
moved : (mem : ℕ → ℕ) (a b : ℕ) → a ≡ b → mem a ≡ mem b
moved mem a b e = ap mem e

-- In a memory of bytes, le64dec reads the value of the eight bytes at the address, whatever the order of the host.
pub le64dec_lem :
    (big : Bool) (mem : ℕ → ℕ) (p : ℕ)
    → ((i : ℕ) → mem i < 2 ^ 8)
    → le64dec big mem p ≡ le_value (bytes_at mem p 8)
unfolding le64dec htole64 h64dec h32dec h16dec
le64dec_lem big mem p bytes =
    let b0 = bytes p in
    let b1 = bytes (p + 1) in
    let b2 = bytes (p + 2) in
    let b3 = bytes (p + 2 + 1) in
    let b4 = bytes (p + 4) in
    let b5 = bytes (p + 4 + 1) in
    let b6 = bytes (p + 4 + 2) in
    let b7 = bytes (p + 4 + 2 + 1) in
    let e2 = moved mem (p + 1 + 1) (p + 2) (omega arith) in
    let e3 = moved mem (p + 1 + 1 + 1) (p + 2 + 1) (omega arith) in
    let e4 = moved mem (p + 1 + 1 + 1 + 1) (p + 4) (omega arith) in
    let e5 = moved mem (p + 1 + 1 + 1 + 1 + 1) (p + 4 + 1) (omega arith) in
    let e6 = moved mem (p + 1 + 1 + 1 + 1 + 1 + 1) (p + 4 + 2) (omega arith) in
    let e7 = moved mem (p + 1 + 1 + 1 + 1 + 1 + 1 + 1) (p + 4 + 2 + 1) (omega arith) in
    elim big as (λ k. le64dec k mem p ≡ le_value (bytes_at mem p 8)) [
      | false ↦ omega arith
      | true ↦
          let hi = bswap32_lem (mem p) (mem (p + 1)) (mem (p + 2)) (mem (p + 2 + 1)) b0 b1 b2 b3 in
          let lo =
            bswap32_lem (mem (p + 4)) (mem (p + 4 + 1)) (mem (p + 4 + 2)) (mem (p + 4 + 2 + 1)) b4
              b5 b6 b7 in
          bswap64_lem (four_bytes (mem p) (mem (p + 1)) (mem (p + 2)) (mem (p + 2 + 1)))
            (four_bytes (mem (p + 4)) (mem (p + 4 + 1)) (mem (p + 4 + 2)) (mem (p + 4 + 2 + 1)))
            (omega arith) (omega arith)
          ∙ omega (arith, hi, lo)
    ]
