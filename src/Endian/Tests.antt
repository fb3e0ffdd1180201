-- ===== src/Endian/Tests.antt =====
-- usual/endian.h at concrete numbers.
use libusual_archive.Base.{ℕ, ◌≡◌, refl}
use libusual_archive.Endian.{bswap32}

abbrev blank : ℕ → ℕ
blank i = 0

abbrev ones : ℕ → ℕ
ones i = 1

swapped : bswap32 0x11223344 ≡ 0x44332211
unfolding bswap32
swapped = refl
