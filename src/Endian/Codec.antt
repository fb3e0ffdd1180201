-- ===== src/Endian/Codec.antt =====
-- usual/endian.h: what is stored in an order is read back in it, on hosts of either order.
use libusual_archive.Base.{
  ℕ, ◌+◌, ◌/◌, ◌%◌, ◌^◌, ◌<◌, ◌≡◌, refl, ◌∙◌, arith, Bool, true, false, ◌⊎◌,
}
use libusual_archive.Endian.{
  htobe16, htobe32, htobe64, htole16, htole32, htole64, h16dec, h32dec, h64dec, be16dec, be32dec,
  be64dec, le16dec, le32dec, le64dec, be16toh, be32toh, be64toh, le16toh, le32toh, le64toh, h16enc,
  h32enc, h64enc, be16enc, be32enc, be64enc, le16enc, le32enc, le64enc, bswap16, bswap32, bswap64,
}
use libusual_archive.Endian.Swap.{
  bswap32_lem, bswap16-bswap16, bswap32-bswap32, bswap64-bswap64, four_bytes,
}

h16_back : (big : Bool) (mem : ℕ → ℕ) (p x : ℕ) → h16dec big (h16enc big mem p x) p ≡ x
unfolding h16dec h16enc
h16_back true mem p x = ground arith
h16_back false mem p x = ground arith

-- Outside the bytes written, memory is as it was.
h16_frame :
    (big : Bool) (mem : ℕ → ℕ) (p x j : ℕ) → j < p ⊎ p + 1 < j → h16enc big mem p x j ≡ mem j
unfolding h16enc
h16_frame true mem p x j out = ground arith
h16_frame false mem p x j out = ground arith

-- A write past the two bytes does not change what is read from them.
h16_after :
    (big : Bool) (mem : ℕ → ℕ) (p q x : ℕ)
    → p + 1 < q
    → h16dec big (h16enc big mem q x) p ≡ h16dec big mem p
unfolding h16dec
h16_after true mem p q x lt =
    rw (h16_frame true mem q x p (ground arith), h16_frame true mem q x (p + 1) (ground arith)) refl
h16_after false mem p q x lt =
    rw (h16_frame false mem q x p (ground arith), h16_frame false mem q x (p + 1) (ground arith))
      refl

h32_back : (big : Bool) (mem : ℕ → ℕ) (p x : ℕ) → h32dec big (h32enc big mem p x) p ≡ x
unfolding h32dec h32enc
h32_back true mem p x =
    rw
      (
        h16_back true (h16enc true mem p (x / 2 ^ 16)) (p + 2) (x % 2 ^ 16),
        h16_after true (h16enc true mem p (x / 2 ^ 16)) p (p + 2) (x % 2 ^ 16) (omega arith),
        h16_back true mem p (x / 2 ^ 16),
      )
      (omega arith)
h32_back false mem p x =
    rw
      (
        h16_back false (h16enc false mem p (x % 2 ^ 16)) (p + 2) (x / 2 ^ 16),
        h16_after false (h16enc false mem p (x % 2 ^ 16)) p (p + 2) (x / 2 ^ 16) (omega arith),
        h16_back false mem p (x % 2 ^ 16),
      )
      (omega arith)

h32_frame :
    (big : Bool) (mem : ℕ → ℕ) (p x j : ℕ) → j < p ⊎ p + 3 < j → h32enc big mem p x j ≡ mem j
unfolding h32enc
h32_frame true mem p x j out =
    h16_frame true (h16enc true mem p (x / 2 ^ 16)) (p + 2) (x % 2 ^ 16) j (ground arith)
    ∙ h16_frame true mem p (x / 2 ^ 16) j (ground arith)
h32_frame false mem p x j out =
    h16_frame false (h16enc false mem p (x % 2 ^ 16)) (p + 2) (x / 2 ^ 16) j (ground arith)
    ∙ h16_frame false mem p (x % 2 ^ 16) j (ground arith)

h32_after :
    (big : Bool) (mem : ℕ → ℕ) (p q x : ℕ)
    → p + 3 < q
    → h32dec big (h32enc big mem q x) p ≡ h32dec big mem p
unfolding h32dec h16dec
h32_after true mem p q x lt =
    rw
      (
        h32_frame true mem q x p (ground arith),
        h32_frame true mem q x (p + 1) (ground arith),
        h32_frame true mem q x (p + 2) (ground arith),
        h32_frame true mem q x (p + 2 + 1) (ground arith),
      )
      refl
h32_after false mem p q x lt =
    rw
      (
        h32_frame false mem q x p (ground arith),
        h32_frame false mem q x (p + 1) (ground arith),
        h32_frame false mem q x (p + 2) (ground arith),
        h32_frame false mem q x (p + 2 + 1) (ground arith),
      )
      refl

h64_back : (big : Bool) (mem : ℕ → ℕ) (p x : ℕ) → h64dec big (h64enc big mem p x) p ≡ x
unfolding h64dec h64enc
h64_back true mem p x =
    rw
      (
        h32_back true (h32enc true mem p (x / 2 ^ 32)) (p + 4) (x % 2 ^ 32),
        h32_after true (h32enc true mem p (x / 2 ^ 32)) p (p + 4) (x % 2 ^ 32) (omega arith),
        h32_back true mem p (x / 2 ^ 32),
      )
      (omega arith)
h64_back false mem p x =
    rw
      (
        h32_back false (h32enc false mem p (x % 2 ^ 32)) (p + 4) (x / 2 ^ 32),
        h32_after false (h32enc false mem p (x % 2 ^ 32)) p (p + 4) (x / 2 ^ 32) (omega arith),
        h32_back false mem p (x % 2 ^ 32),
      )
      (omega arith)

-- For a 16-bit value, be16dec reads what be16enc wrote, and le16dec what le16enc wrote.
pub dec16-enc16 :
    (big : Bool) (mem : ℕ → ℕ) (p x : ℕ)
    → x < 2 ^ 16
    → (be16dec big (be16enc big mem p x) p ≡ x) × (le16dec big (le16enc big mem p x) p ≡ x)
unfolding be16dec be16enc le16dec le16enc htobe16 htole16
dec16-enc16 true mem p x lt = (
  rw (h16_back true mem p (x % 2 ^ 16)) (omega arith),
  rw (h16_back true mem p (bswap16 x)) (bswap16-bswap16 x lt),
)
dec16-enc16 false mem p x lt = (
  rw (h16_back false mem p (bswap16 x)) (bswap16-bswap16 x lt),
  rw (h16_back false mem p (x % 2 ^ 16)) (omega arith),
)

-- For a 32-bit value, be32dec reads what be32enc wrote, and le32dec what le32enc wrote.
pub dec32-enc32 :
    (big : Bool) (mem : ℕ → ℕ) (p x : ℕ)
    → x < 2 ^ 32
    → (be32dec big (be32enc big mem p x) p ≡ x) × (le32dec big (le32enc big mem p x) p ≡ x)
unfolding be32dec be32enc le32dec le32enc htobe32 htole32
dec32-enc32 true mem p x lt = (
  rw (h32_back true mem p (x % 2 ^ 32)) (omega arith),
  rw (h32_back true mem p (bswap32 x)) (bswap32-bswap32 x lt),
)
dec32-enc32 false mem p x lt = (
  rw (h32_back false mem p (bswap32 x)) (bswap32-bswap32 x lt),
  rw (h32_back false mem p (x % 2 ^ 32)) (omega arith),
)

-- For a 64-bit value, be64dec reads what be64enc wrote, and le64dec what le64enc wrote.
pub dec64-enc64 :
    (big : Bool) (mem : ℕ → ℕ) (p x : ℕ)
    → x < 2 ^ 64
    → (be64dec big (be64enc big mem p x) p ≡ x) × (le64dec big (le64enc big mem p x) p ≡ x)
unfolding be64dec be64enc le64dec le64enc htobe64 htole64
dec64-enc64 true mem p x lt = (
  rw (h64_back true mem p (x % 2 ^ 64)) (omega arith),
  rw (h64_back true mem p (bswap64 x)) (bswap64-bswap64 x lt),
)
dec64-enc64 false mem p x lt = (
  rw (h64_back false mem p (bswap64 x)) (bswap64-bswap64 x lt),
  rw (h64_back false mem p (x % 2 ^ 64)) (omega arith),
)

-- In a memory of bytes, be32dec is the number with the byte at the address first and le32dec the one with it last, whatever the
-- order of the host.
pub dec32_lem :
    (big : Bool) (mem : ℕ → ℕ) (p : ℕ)
    → ((i : ℕ) → mem i < 2 ^ 8)
    → (be32dec big mem p ≡ four_bytes (mem p) (mem (p + 1)) (mem (p + 2)) (mem (p + 2 + 1)))
      × (le32dec big mem p ≡ four_bytes (mem (p + 2 + 1)) (mem (p + 2)) (mem (p + 1)) (mem p))
unfolding be32dec le32dec htobe32 htole32 h32dec h16dec
dec32_lem true mem p bytes =
    let b0 = bytes p in
    let b1 = bytes (p + 1) in
    let b2 = bytes (p + 2) in
    let b3 = bytes (p + 2 + 1) in
    (omega arith, bswap32_lem (mem p) (mem (p + 1)) (mem (p + 2)) (mem (p + 2 + 1)) b0 b1 b2 b3)
dec32_lem false mem p bytes =
    let b0 = bytes p in
    let b1 = bytes (p + 1) in
    let b2 = bytes (p + 2) in
    let b3 = bytes (p + 2 + 1) in
    (bswap32_lem (mem (p + 2 + 1)) (mem (p + 2)) (mem (p + 1)) (mem p) b3 b2 b1 b0, omega arith)

-- On a host of either order, each conversion from big- or little-endian to host order undoes the one to it, for values
-- of its width.
pub toh-hto :
    (big : Bool) (x y z : ℕ)
    → x < 2 ^ 16
    → y < 2 ^ 32
    → z < 2 ^ 64
    → (be16toh big (htobe16 big x) ≡ x)
      × (le16toh big (htole16 big x) ≡ x)
      × (be32toh big (htobe32 big y) ≡ y)
      × (le32toh big (htole32 big y) ≡ y)
      × (be64toh big (htobe64 big z) ≡ z)
      × (le64toh big (htole64 big z) ≡ z)
unfolding be16toh le16toh be32toh le32toh be64toh le64toh htobe16 htole16 htobe32 htole32 htobe64
    htole64
toh-hto true x y z p q r = (
  omega arith,
  bswap16-bswap16 x p,
  omega arith,
  bswap32-bswap32 y q,
  omega arith,
  bswap64-bswap64 z r,
)
toh-hto false x y z p q r = (
  bswap16-bswap16 x p,
  omega arith,
  bswap32-bswap32 y q,
  omega arith,
  bswap64-bswap64 z r,
  omega arith,
)
