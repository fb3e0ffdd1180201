-- ===== src/PsRandom.antt =====
-- usual/psrandom.c: the xorshift generators and the pseudo-random numbers built on them.
pub mod Output
pub mod Tests
use libusual_archive.Base.{
  ℕ, zero, suc, ◌+◌, ◌-◌, ◌*◌, ◌/◌, ◌%◌, ◌^◌, Bool, ◌||◌, Option, none, some, List, [], ◌∷◌, ltb,
  leb, ◌==◌, if◌then◌else◌, update,
}
use libusual_archive.Base.Word.{u32_mod}
use Prim.Native.Nat.{bit_and, bit_xor}

abbrev u64_mod : ℕ
u64_mod = 2 ^ 64

-- The value, and `*sb`.
pub xorshift128plus_core : ℕ → ℕ → ℕ × ℕ
xorshift128plus_core a b =
    let b1 = bit_xor b (b * 2 ^ 23 % u64_mod) in
    let b2 = bit_xor b1 (bit_xor (bit_xor a (b1 / 2 ^ 17)) (a / 2 ^ 26)) in ((a + b2) % u64_mod, b2)

-- The value, `*s0` and `*s1`.
pub xorshift128plus : ℕ → ℕ → ℕ × ℕ × ℕ
xorshift128plus s0 s1 = let (val, sb) = xorshift128plus_core s1 s0 in (val, s1, sb)

pub xorshift1024plus : (ℕ → ℕ) → ℕ → ℕ × (ℕ → ℕ)
xorshift1024plus state counter =
    let i0 = bit_and counter 15 in
    let i1 = bit_and ((counter + 1) % u32_mod) 15 in
    let (val, sb) = xorshift128plus_core (state i0) (state i1) in (val, update state i1 sb)

-- The static variables.
pub record PsRandom : Type 0 where
  pub ps_state : ℕ → ℕ
  pub ps_init : ℕ
  pub ps_counter : ℕ
  pub ps_cache : ℕ

-- The loop over the state, from index n - 1 down to 0.
fill_state : ℕ → ℕ → ℕ → (ℕ → ℕ) → ℕ → ℕ
fill_state zero a b state = state
fill_state (suc i) a b state =
    let (val, a', b') = xorshift128plus a b in fill_state i a' b' (update state i val)

-- A word with a constant added, unless that makes it zero.
abbrev shift_seed : ℕ → ℕ → ℕ
shift_seed x offset = if (x + offset) % u64_mod == 0 then x else (x + offset) % u64_mod

pub pseudo_random_seed : PsRandom → ℕ → ℕ → PsRandom
pseudo_random_seed ps a b = record ps {
  ps_state = fill_state 16 (shift_seed a 123456789) (shift_seed b 987654321) ps.ps_state;
  ps_init = 1;
  ps_counter = 0;
}

-- The last bytes: `val` shifted down after each of them.
pub low_bytes : ℕ → ℕ → List ℕ
low_bytes zero val = []
low_bytes (suc count) val = val % 2 ^ 8 ∷ low_bytes count (val / 2 ^ 8)

-- Whether a value is kept.
pub in_range : ℕ → ℕ → Bool
in_range upper_bound val =
    let excess = (u32_mod - upper_bound) % upper_bound in
    let lim = (u32_mod - excess) % u32_mod in ltb val lim || lim == 0

-- `seed` is what csrandom_bytes stores.
module _ (seed : ℕ → ℕ) where
  pub ps_initial_seed : PsRandom → PsRandom
  ps_initial_seed ps = record ps { ps_state = seed; ps_init = 1 }

  pub pseudo_random : PsRandom → ℕ × PsRandom
  pseudo_random ps =
      let ready = if ps.ps_init == 0 then ps_initial_seed ps else ps in
      let (val, state) = xorshift1024plus ready.ps_state ready.ps_counter in
      if ready.ps_init == 2 then (ready.ps_cache, record ready { ps_init = 1 }) else (
        val % u32_mod,
        record {
          ps_state = state;
          ps_init = 2;
          ps_counter = (ready.ps_counter + 1) % u32_mod;
          ps_cache = val / 2 ^ 32;
        },
      )

  -- What is stored from `dst` on. le32enc stores the lowest byte first.
  pub pseudo_random_bytes : ℕ → PsRandom → List ℕ × PsRandom
  pseudo_random_bytes zero ps = ([], ps)
  pseudo_random_bytes (suc (suc (suc (suc count)))) ps =
      let (val, ps') = pseudo_random ps in
      let (rest, last) = pseudo_random_bytes count ps' in
      (val % 2 ^ 8 ∷ val / 2 ^ 8 % 2 ^ 8 ∷ val / 2 ^ 16 % 2 ^ 8 ∷ val / 2 ^ 24 % 2 ^ 8 ∷ rest, last)
  pseudo_random_bytes count ps = let (val, ps') = pseudo_random ps in (low_bytes count val, ps')

  -- The loop runs until a value is kept; `none` is that none of the first values is.
  pub pseudo_random_range : (fuel : ℕ) → PsRandom → ℕ → Option (ℕ × PsRandom)
  pseudo_random_range zero ps upper_bound = none
  pseudo_random_range (suc fuel) ps upper_bound =
      let (val, ps') = pseudo_random ps in
      let again = pseudo_random_range fuel ps' upper_bound in
      if leb upper_bound 1
      then some (0, ps)
      else if in_range upper_bound val
      then some (val % upper_bound, ps')
      else again
