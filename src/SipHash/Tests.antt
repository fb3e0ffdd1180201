-- ===== src/SipHash/Tests.antt =====
-- usual/hashing/siphash.c on concrete bytes.
use libusual_archive.Base.{ℕ, ◌<◌, ◌^◌, ◌%◌, ◌≡◌, refl, arith, true, false}
use libusual_archive.Bits.{rol64}
use libusual_archive.Endian.{le64dec, htole64, h64dec, h32dec, h16dec}
use libusual_archive.Endian.Little.{bytes_at}
use libusual_archive.SipHash.{
  SipKeys, sip_start, sip_compress, sip_finalize, sip_round1, sip_round2, sip_round4, sip_blocks,
  sip_tail, siphash24,
}
use libusual_archive.SipHash.Message.{hash_of_padded, siphash24_lem}

-- Every address holds its own lowest byte.
abbrev counting : ℕ → ℕ
counting a = a % 256

counting_bytes : (i : ℕ) → counting i < 2 ^ 8
counting_bytes i = omega arith

-- The test vector of the paper on SipHash.
fifteen_bytes :
    siphash24 false counting 0 15 0x0706050403020100 0x0f0e0d0c0b0a0908 ≡ 0xa129ca6149be45e5
unfolding siphash24 sip_start sip_compress sip_finalize sip_round1 sip_round2 sip_round4 sip_blocks
    sip_tail rol64 le64dec htole64 h64dec h32dec h16dec
fifteen_bytes = refl

siphash24_lem_example : siphash24 true counting 0 9 1 2 ≡ hash_of_padded (bytes_at counting 0 9) 1 2
siphash24_lem_example = siphash24_lem true counting 0 9 1 2 counting_bytes

abbrev no_keys : SipKeys
no_keys = record { initialized = false; k0 = 0; k1 = 0 }
