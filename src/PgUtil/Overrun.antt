-- ===== src/PgUtil/Overrun.antt =====
-- usual/pgutil.c: where pg_quote_ident stores outside its destination.
use libusual_archive.Base.{
  ℕ, ◌+◌, ◌-◌, ◌≡◌, refl, sym, ap, ◌∙◌, Bool, true, false, not, none, List, [], ◌∷◌, arith, inl,
  inr, ltb, length, Bool-cases,
}
use mathlib.Core.List.{append-nil}
use libusual_archive.PgUtil.{
  Memory, LoopEnd, jumped, ran, id_start, id_body, is_double_quote, plain_end, pg_quote_ident,
}
use libusual_archive.PgUtil.Text.{any, any-is_last, length-double}
use libusual_archive.PgUtil.Copy.{Copied, copy_loop_lem}
use libusual_archive.PgUtil.Quoting.{overruns, overruns_sizes, needs_quoting_fault, true_not_false}
use libusual_archive.PgUtil.Ident.{cut_plain}

quote_stops : (c : ℕ) → is_double_quote c ≡ true → not (id_body c) ≡ true
quote_stops c e = let same : c ≡ 34 = ground arith in rw same refl

module _ (pg_is_reserved_word : List ℕ → Bool) where
  plain_end_overrun :
      (mem : Memory) (base : ℕ) (src : List ℕ) (dstlen : ℕ) (r : LoopEnd)
      → overruns src dstlen ≡ true
      → Copied (base + dstlen - 1) (λ d. not (id_body d)) (λ d. false) src base mem r
      → plain_end pg_is_reserved_word base src dstlen r ≡ none
  unfolding plain_end
  plain_end_overrun mem base src dstlen (jumped m) bad post =
      needs_quoting_fault m base src dstlen bad
  plain_end_overrun mem base src dstlen (ran (d ∷ rest) dst m) bad
        (pre, parts, q, moved, held, kept, inl bare, room) =
      absurd (omega (arith, ap length bare))
  plain_end_overrun mem base src dstlen (ran (d ∷ rest) dst m) bad
        (pre, parts, q, moved, held, kept, inr full, room) =
      let (last, size) = overruns_sizes src dstlen bad in
      absurd (
        omega (
          arith,
          cut_plain base dst dstlen src pre d rest parts moved full,
          length-double is_double_quote src,
          size,
        ))
  plain_end_overrun mem base src dstlen (ran [] dst m) bad
        (pre, parts, q, moved, held, kept, full, room) =
      let (last, size) = overruns_sizes src dstlen bad in
      let body = ap (any (λ d. not (id_body d))) (parts ∙ append-nil pre) ∙ q in
      absurd (
        true_not_false
          (sym (any-is_last is_double_quote (λ d. not (id_body d)) src quote_stops last) ∙ body))

  -- If the source ends in a double quote and its quoted form has exactly as many bytes as the destination, then pg_quote_ident
  -- stores outside the destination.
  pub pg_quote_ident_overrun :
      (mem : Memory) (base : ℕ) (src : List ℕ) (dstlen : ℕ)
      → overruns src dstlen ≡ true
      → pg_quote_ident pg_is_reserved_word mem base src dstlen ≡ none
  unfolding pg_quote_ident
  pg_quote_ident_overrun mem base [] dstlen bad = absurd (true_not_false (sym bad))
  pg_quote_ident_overrun mem base (c ∷ src) dstlen bad =
      let (last, size) = overruns_sizes (c ∷ src) dstlen bad in
      let room : ltb dstlen 1 ≡ false = ground (arith, size) in
      let (r, returned, post) =
        copy_loop_lem (base + dstlen) (base + dstlen - 1) (λ d. not (id_body d)) (λ d. false)
          (c ∷ src) base mem (ground (arith, room)) in
      elim (Bool-cases (id_start c)) [
        | inl e ↦ rw (room, e, returned) (plain_end_overrun mem base (c ∷ src) dstlen r bad post)
        | inr e ↦ rw (room, e) (needs_quoting_fault mem base (c ∷ src) dstlen bad)
      ]
