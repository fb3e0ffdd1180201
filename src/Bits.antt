-- ===== src/Bits.antt =====
-- usual/bits.h: powers of two, rotations, the lowest and the highest bit, and multiplication with an overflow check.
pub mod Power
pub mod Multiply
pub mod Scan
pub mod Tests
pub mod Rotate
use libusual_archive.Base.{
  ℕ, zero, suc, ◌+◌, ◌-◌, ◌*◌, ◌/◌, ◌%◌, ◌^◌, Bool, true, false, not, ◌&&◌, ◌||◌, Option, none,
  some, ltb, leb, ◌==◌, if◌then◌else◌,
}
use Prim.Native.Nat.{bit_and, bit_or}

-- `n > 0` comes first, so `n - 1` does not wrap.
pub is_power_of_2 : ℕ → Bool
is_power_of_2 n = ltb 0 n && bit_and n (n - 1) == 0

-- The 16-bit value is shifted as an `int`, and truncated when it is returned.
pub rol16 : ℕ → ℕ → ℕ
rol16 v s = bit_or (v * 2 ^ s) (v / 2 ^ (16 - s)) % 2 ^ 16

pub rol32 : ℕ → ℕ → ℕ
rol32 v s = bit_or (v * 2 ^ s % 2 ^ 32) (v / 2 ^ (32 - s))

unfoldable pub rol64 : ℕ → ℕ → ℕ
rol64 v s = bit_or (v * 2 ^ s % 2 ^ 64) (v / 2 ^ (64 - s))

pub ror16 : ℕ → ℕ → ℕ
ror16 v s = rol16 v (16 - s)

pub ror32 : ℕ → ℕ → ℕ
ror32 v s = rol32 v (32 - s)

pub ror64 : ℕ → ℕ → ℕ
ror64 v s = rol64 v (64 - s)

-- The loops of the macros for compilers without the built-in function, on fuel.
unfoldable pub fls_loop : ℕ → ℕ → ℕ → Option ℕ
fls_loop zero bit u = none
fls_loop (suc fuel) bit u =
    let rest = fls_loop fuel (bit + 1) (u / 2) in if ltb 1 u then rest else some bit

ffs_loop : ℕ → ℕ → ℕ → Option ℕ
ffs_loop zero bit u = none
ffs_loop (suc fuel) bit u =
    let rest = ffs_loop fuel (bit + 1) (u / 2) in if bit_and u 1 == 0 then rest else some bit

-- The argument is what the unsigned type makes of the signed one; `w` is its width.
unfoldable pub fls : (w : ℕ) → ℕ → Option ℕ
fls w x = if x == 0 then some 0 else fls_loop w 1 x

pub ffs : (w : ℕ) → ℕ → Option ℕ
ffs w x = if x == 0 then some 0 else ffs_loop w 1 x

-- `_USUAL_MUL_SAFE_` for an unsigned type of `w` bits: the product, or none for false.
pub safe_mul : (w : ℕ) → ℕ → ℕ → Option ℕ
safe_mul w a b =
    let unsafe = 2 ^ (w / 2) in
    let product = some (a * b % 2 ^ w) in
    if ltb a unsafe && ltb b unsafe
    then product
    else if a == 0 || b == 0
    then product
    else if leb b ((2 ^ w - 1) / a)
    then product
    else none
