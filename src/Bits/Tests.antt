-- ===== src/Bits/Tests.antt =====
-- usual/bits.h at concrete numbers.
use libusual_archive.Base.{ℕ, ◌≡◌, refl, some}
use libusual_archive.Bits.{rol32, fls, ffs, fls_loop, ffs_loop}

abbrev forty : ℕ
forty = 40

positions : (ffs 32 40 ≡ some 4) × (fls 32 40 ≡ some 6)
unfolding ffs fls ffs_loop fls_loop
positions = (refl, refl)

rotation : rol32 0x80000001 4 ≡ 0x18
unfolding rol32
rotation = refl
