-- ===== src/PsRandom/Tests.antt =====
-- usual/psrandom.c at concrete states.
use libusual_archive.Base.{ℕ, ◌≡◌, refl}
use libusual_archive.PsRandom.{PsRandom, xorshift128plus, xorshift128plus_core}

abbrev counting : ℕ → ℕ
counting i = i

abbrev unseeded : PsRandom
unseeded = record { ps_state = counting; ps_init = 0; ps_counter = 0; ps_cache = 0 }

first_word : xorshift128plus 1 2 ≡ (8388677, 2, 8388675)
unfolding xorshift128plus xorshift128plus_core
first_word = refl
