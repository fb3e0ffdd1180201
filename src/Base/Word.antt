-- ===== src/Base/Word.antt =====
-- `unsigned` and the fixed-width unsigned integers: numbers below a power of two, wrapped by `%`.
use Prim.Native.Nat.{ℕ, ◌+◌, ◌-◌, ◌%◌, ◌^◌, ◌≤◌, ◌<◌}
use mathlib.Core.Path.{◌≡◌}
use mathlib.Core.List.{List, [], ◌∷◌}
use native.Mathlib.Omega.{arith}

-- The number of values of `unsigned` and `uint32_t`.
abbrev pub u32_mod : ℕ
u32_mod = 2 ^ 32

abbrev pub add32 : ℕ → ℕ → ℕ
add32 a b = (a + b) % u32_mod

abbrev pub sub32 : ℕ → ℕ → ℕ
sub32 a b = (a + u32_mod - b) % u32_mod

pub sub32_lem : (a b : ℕ) → b ≤ a → a < u32_mod → sub32 a b ≡ a - b
sub32_lem a b h k = omega arith

pub add32_lem : (a b : ℕ) → a + b < u32_mod → add32 a b ≡ a + b
add32_lem a b h = omega arith

-- `unsigned char` values.
abbrev pub AreBytes : List ℕ → Type 0
AreBytes [] = Unit
AreBytes (c ∷ bytes) = (c < 256) × AreBytes bytes
