-- ===== src/Endian.antt =====
-- usual/endian.h: swapping the bytes of integers, and integers in memory in either order.
pub mod Swap
pub mod Codec
pub mod Little
pub mod Tests
use libusual_archive.Base.{ℕ, ◌+◌, ◌*◌, ◌/◌, ◌%◌, ◌^◌, Bool, if◌then◌else◌, update}
use Prim.Native.Nat.{bit_and, bit_or}

-- The expressions for compilers without the built-in functions.
pub bswap16 : ℕ → ℕ
bswap16 x = bit_or (x * 2 ^ 8) (x / 2 ^ 8) % 2 ^ 16

pub bswap32 : ℕ → ℕ
bswap32 x =
    let y = bit_or (bit_and (x * 2 ^ 8 % 2 ^ 32) 0xff00ff00) (bit_and (x / 2 ^ 8) 0x00ff00ff) in
    bit_or (y * 2 ^ 16 % 2 ^ 32) (y / 2 ^ 16)

pub bswap64 : ℕ → ℕ
bswap64 x = bit_or (bswap32 (x % 2 ^ 32) * 2 ^ 32 % 2 ^ 64) (bswap32 (x / 2 ^ 32))

-- `big` is WORDS_BIGENDIAN, the order of the bytes of an integer in the memory of the host. Memory has
-- a byte at every address.
module _ (big : Bool) where
  pub htobe16 : ℕ → ℕ
  htobe16 x = if big then x % 2 ^ 16 else bswap16 x

  pub htobe32 : ℕ → ℕ
  htobe32 x = if big then x % 2 ^ 32 else bswap32 x

  pub htobe64 : ℕ → ℕ
  htobe64 x = if big then x % 2 ^ 64 else bswap64 x

  pub htole16 : ℕ → ℕ
  htole16 x = if big then bswap16 x else x % 2 ^ 16

  pub htole32 : ℕ → ℕ
  htole32 x = if big then bswap32 x else x % 2 ^ 32

  unfoldable pub htole64 : ℕ → ℕ
  htole64 x = if big then bswap64 x else x % 2 ^ 64

  pub be16toh : ℕ → ℕ
  be16toh x = if big then x % 2 ^ 16 else bswap16 x

  pub be32toh : ℕ → ℕ
  be32toh x = if big then x % 2 ^ 32 else bswap32 x

  pub be64toh : ℕ → ℕ
  be64toh x = if big then x % 2 ^ 64 else bswap64 x

  pub le16toh : ℕ → ℕ
  le16toh x = if big then bswap16 x else x % 2 ^ 16

  pub le32toh : ℕ → ℕ
  le32toh x = if big then bswap32 x else x % 2 ^ 32

  pub le64toh : ℕ → ℕ
  le64toh x = if big then bswap64 x else x % 2 ^ 64

  -- `memcpy` from memory into an integer.
  unfoldable pub h16dec : (ℕ → ℕ) → ℕ → ℕ
  h16dec mem p = if big then mem p * 2 ^ 8 + mem (p + 1) else mem (p + 1) * 2 ^ 8 + mem p

  unfoldable pub h32dec : (ℕ → ℕ) → ℕ → ℕ
  h32dec mem p =
      if big
      then h16dec mem p * 2 ^ 16 + h16dec mem (p + 2)
      else h16dec mem (p + 2) * 2 ^ 16 + h16dec mem p

  unfoldable pub h64dec : (ℕ → ℕ) → ℕ → ℕ
  h64dec mem p =
      if big
      then h32dec mem p * 2 ^ 32 + h32dec mem (p + 4)
      else h32dec mem (p + 4) * 2 ^ 32 + h32dec mem p

  pub be16dec : (ℕ → ℕ) → ℕ → ℕ
  be16dec mem p = htobe16 (h16dec mem p)

  pub be32dec : (ℕ → ℕ) → ℕ → ℕ
  be32dec mem p = htobe32 (h32dec mem p)

  pub be64dec : (ℕ → ℕ) → ℕ → ℕ
  be64dec mem p = htobe64 (h64dec mem p)

  pub le16dec : (ℕ → ℕ) → ℕ → ℕ
  le16dec mem p = htole16 (h16dec mem p)

  pub le32dec : (ℕ → ℕ) → ℕ → ℕ
  le32dec mem p = htole32 (h32dec mem p)

  unfoldable pub le64dec : (ℕ → ℕ) → ℕ → ℕ
  le64dec mem p = htole64 (h64dec mem p)

  -- `memcpy` from an integer into memory.
  pub h16enc : (ℕ → ℕ) → ℕ → ℕ → ℕ → ℕ
  h16enc mem p x =
      if big
      then update (update mem p (x / 2 ^ 8)) (p + 1) (x % 2 ^ 8)
      else update (update mem p (x % 2 ^ 8)) (p + 1) (x / 2 ^ 8)

  pub h32enc : (ℕ → ℕ) → ℕ → ℕ → ℕ → ℕ
  h32enc mem p x =
      if big
      then h16enc (h16enc mem p (x / 2 ^ 16)) (p + 2) (x % 2 ^ 16)
      else h16enc (h16enc mem p (x % 2 ^ 16)) (p + 2) (x / 2 ^ 16)

  pub h64enc : (ℕ → ℕ) → ℕ → ℕ → ℕ → ℕ
  h64enc mem p x =
      if big
      then h32enc (h32enc mem p (x / 2 ^ 32)) (p + 4) (x % 2 ^ 32)
      else h32enc (h32enc mem p (x % 2 ^ 32)) (p + 4) (x / 2 ^ 32)

  pub be16enc : (ℕ → ℕ) → ℕ → ℕ → ℕ → ℕ
  be16enc mem p x = h16enc mem p (htobe16 x)

  pub be32enc : (ℕ → ℕ) → ℕ → ℕ → ℕ → ℕ
  be32enc mem p x = h32enc mem p (htobe32 x)

  pub be64enc : (ℕ → ℕ) → ℕ → ℕ → ℕ → ℕ
  be64enc mem p x = h64enc mem p (htobe64 x)

  pub le16enc : (ℕ → ℕ) → ℕ → ℕ → ℕ → ℕ
  le16enc mem p x = h16enc mem p (htole16 x)

  pub le32enc : (ℕ → ℕ) → ℕ → ℕ → ℕ → ℕ
  le32enc mem p x = h32enc mem p (htole32 x)

  pub le64enc : (ℕ → ℕ) → ℕ → ℕ → ℕ → ℕ
  le64enc mem p x = h64enc mem p (htole64 x)
