-- ===== src/SipHash.antt =====
-- usual/hashing/siphash.c: SipHash-2-4.
pub mod Padding
pub mod Message
pub mod Tests
use Prim.Native.Nat.{bit_or, bit_xor}
use libusual_archive.Base.{ℕ, zero, suc, ◌+◌, ◌-◌, ◌*◌, ◌/◌, ◌%◌, ◌^◌, Bool, true, if◌then◌else◌}
use libusual_archive.Bits.{rol64}
use libusual_archive.Endian.{le64dec}

-- `v0` to `v3`.
pub record SipState : Type 0 where
  pub v0 : ℕ
  pub v1 : ℕ
  pub v2 : ℕ
  pub v3 : ℕ

abbrev pub add64 : ℕ → ℕ → ℕ
add64 a b = (a + b) % 2 ^ 64

pub sip_round1 : SipState → SipState
sip_round1 s =
    let v0 = add64 s.v0 s.v1 in
    let v1 = rol64 s.v1 13 in
    let v1 = bit_xor v1 v0 in
    let v0 = rol64 v0 32 in
    let v2 = add64 s.v2 s.v3 in
    let v3 = rol64 s.v3 16 in
    let v3 = bit_xor v3 v2 in
    let v0 = add64 v0 v3 in
    let v3 = rol64 v3 21 in
    let v3 = bit_xor v3 v0 in
    let v2 = add64 v2 v1 in
    let v1 = rol64 v1 17 in
    let v1 = bit_xor v1 v2 in let v2 = rol64 v2 32 in record { v0 = v0; v1 = v1; v2 = v2; v3 = v3 }

pub sip_round2 : SipState → SipState
sip_round2 s = sip_round1 (sip_round1 s)

pub sip_round4 : SipState → SipState
sip_round4 s = sip_round2 (sip_round2 s)

-- `sip_compress(2)`.
pub sip_compress : SipState → ℕ → SipState
sip_compress s m =
    let s' = sip_round2 (record s { v3 = bit_xor s.v3 m }) in record s' { v0 = bit_xor s'.v0 m }

-- `sip_finalize(4)`.
pub sip_finalize : SipState → SipState
sip_finalize s = sip_round4 (record s { v2 = bit_xor s.v2 0xff })

pub sip_start : ℕ → ℕ → SipState
sip_start k0 k1 = record {
  v0 = bit_xor k0 0x736f6d6570736575;
  v1 = bit_xor k1 0x646f72616e646f6d;
  v2 = bit_xor k0 0x6c7967656e657261;
  v3 = bit_xor k1 0x7465646279746573;
}

-- The loop: `blocks` times eight bytes are left up to `end`.
pub sip_blocks : Bool → ℕ → SipState → (ℕ → ℕ) → ℕ → SipState
sip_blocks big zero v mem s = v
sip_blocks big (suc blocks) v mem s =
    sip_blocks big blocks (sip_compress v (le64dec big mem s)) mem (s + 8)

-- The switch, from the case that is chosen on through all those below it.
pub sip_tail : ℕ → ℕ → (ℕ → ℕ) → ℕ → ℕ
sip_tail zero m mem s = m
sip_tail (suc k) m mem s = sip_tail k (bit_or m (mem (s + k) * 2 ^ (8 * k) % 2 ^ 64)) mem s

-- `big` is the order of the bytes in the host, `mem` has a byte at every address.
pub siphash24 : Bool → (ℕ → ℕ) → ℕ → ℕ → ℕ → ℕ → ℕ
siphash24 big mem s len k0 k1 =
    let v = sip_blocks big (len / 8) (sip_start k0 k1) mem s in
    let m = sip_tail (len % 8) (len * 2 ^ 56 % 2 ^ 64) mem (s + len / 8 * 8) in
    let v = sip_finalize (sip_compress v m) in bit_xor (bit_xor (bit_xor v.v0 v.v1) v.v2) v.v3

-- The static variables of siphash24_secure.
pub record SipKeys : Type 0 where
  pub initialized : Bool
  pub k0 : ℕ
  pub k1 : ℕ

-- The keys after the test of `initialized`; `draws` are the results of csrandom, in the order of the source.
pub sip_keys : SipKeys → ℕ × ℕ × ℕ × ℕ → SipKeys
sip_keys keys (a, b, c, d) = if keys.initialized then keys else record {
  initialized = true;
  k0 = bit_or (a * 2 ^ 32 % 2 ^ 64) b;
  k1 = bit_or (c * 2 ^ 32 % 2 ^ 64) d;
}

pub siphash24_secure : Bool → SipKeys → ℕ × ℕ × ℕ × ℕ → (ℕ → ℕ) → ℕ → ℕ → ℕ × SipKeys
siphash24_secure big keys draws mem s len =
    let keys' = sip_keys keys draws in (siphash24 big mem s len keys'.k0 keys'.k1, keys')
