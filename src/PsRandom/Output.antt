-- ===== src/PsRandom/Output.antt =====
-- usual/psrandom.c: which values pseudo_random_range keeps, and how many bytes pseudo_random_bytes stores.
use libusual_archive.Base.{
  ℕ, zero, suc, ◌+◌, ◌-◌, ◌*◌, ◌/◌, ◌%◌, ◌^◌, ◌<◌, ◌≡◌, refl, sym, ltb, ◌==◌, arith, ◌||◌, length,
}
use libusual_archive.Base.Word.{u32_mod}
use native.Mathlib.Nat.{div-add-mod', mod-lt, mod-eq-sub-mod}
use libusual_archive.PsRandom.{PsRandom, pseudo_random, pseudo_random_bytes, low_bytes, in_range}

module _ (seed : ℕ → ℕ) where
  length-low_bytes : (count val : ℕ) → length (low_bytes count val) ≡ count
  unfolding low_bytes
  length-low_bytes zero val = refl
  length-low_bytes (suc count) val = omega (arith, length-low_bytes count (val / 2 ^ 8))

  -- pseudo_random_bytes stores as many bytes as it is asked for.
  pub length-pseudo_random_bytes :
      (count : ℕ) (ps : PsRandom) → length ((pseudo_random_bytes seed count ps).0) ≡ count
  unfolding pseudo_random_bytes
  length-pseudo_random_bytes zero ps = refl
  length-pseudo_random_bytes (suc zero) ps = length-low_bytes 1 _
  length-pseudo_random_bytes (suc (suc zero)) ps = length-low_bytes 2 _
  length-pseudo_random_bytes (suc (suc (suc zero))) ps = length-low_bytes 3 _
  length-pseudo_random_bytes (suc (suc (suc (suc count)))) ps =
      omega (arith, length-pseudo_random_bytes count ((pseudo_random seed ps).1))

kept :
    (excess whole val : ℕ)
    → whole + excess ≡ u32_mod
    → excess < u32_mod
    → val < u32_mod
    → (ltb val ((u32_mod - excess) % u32_mod) || (u32_mod - excess) % u32_mod == 0) ≡ ltb val whole
kept zero whole val d lt v = ground arith
kept (suc excess) whole val d lt v =
    let e : (u32_mod - suc excess) % u32_mod ≡ whole = omega arith in rw e (ground arith)

-- For a bound above 1 and 32-bit values, the values that pseudo_random_range keeps are exactly those below the largest multiple of the bound
-- up to 2 ^ 32, so that each remainder comes from equally many.
pub in_range_lem :
    (bound val : ℕ)
    → 1 < bound
    → bound < u32_mod
    → val < u32_mod
    → in_range bound val ≡ ltb val (u32_mod / bound * bound)
unfolding in_range
in_range_lem bound val b1 b2 v =
    let e : (u32_mod - bound) % bound ≡ u32_mod % bound =
      sym (mod-eq-sub-mod {n = u32_mod} {m = bound} (omega arith)) in
    let d : u32_mod / bound * bound + u32_mod % bound ≡ u32_mod = div-add-mod' u32_mod bound in
    let small : u32_mod % bound < bound = mod-lt u32_mod {m = bound} (omega arith) in
    rw e (kept (u32_mod % bound) (u32_mod / bound * bound) val d (omega arith) v)
