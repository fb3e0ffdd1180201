-- ===== src/PgUtil/Attempt.antt =====
-- usual/pgutil.c: one try of pg_quote_literal, from its first quote to its last one.
use libusual_archive.Base.{
  ℕ, ◌+◌, ◌-◌, ◌<◌, ◌≤◌, ◌≡◌, refl, sym, ap, ◌∙◌, subst, Bool, false, ◌&&◌, List, [], ◌∷◌, arith,
  inl, inr, ltb, leb, update, length, Bool-cases, Returns,
}
use libusual_archive.PgUtil.{
  Memory, LoopEnd, jumped, ran, is_backslash, is_escaped, literal_from, literal_end,
}
use mathlib.Core.List.{append-nil}
use libusual_archive.PgUtil.Text.{any, double, Holds, same-Holds}
use libusual_archive.PgUtil.Copy.{Copied, copy_loop_lem, store_lem}
use libusual_archive.PgUtil.Close.{Quoted, between, too_long, not_closed, closes}

-- What the loop and the end make of the source behind `front`.
pub closing :
    (mem mem' : Memory) (base dst dstlen : ℕ) (front src : List ℕ) (stops : ℕ → Bool) (r : LoopEnd)
    → 3 ≤ dstlen
    → dst ≡ base + length front
    → Holds mem' base front
    → ((a : ℕ) → a < base → mem' a ≡ mem a)
    → any stops src ≡ false
    → Copied (base + dstlen - 2) stops is_escaped src dst mem' r
    → Returns
        (Quoted mem base dstlen (between is_escaped 39 front src))
        (literal_end (base + dstlen) (base + dstlen - 2) r)
unfolding literal_end
closing mem mem' base dst dstlen front src stops (jumped m) l e h same quiet (jump, kept) =
    absurd (ground arith)
closing mem mem' base dst dstlen front src stops (ran (c ∷ rest) dst' m) l e h same quiet
      (pre, parts, q, moved, held, kept, inl bad, room) =
    absurd (omega (arith, ap length bad))
closing mem mem' base dst dstlen front src stops (ran (c ∷ rest) dst' m) l e h same quiet
      (pre, parts, q, moved, held, kept, inr full, room) =
    let long = too_long is_escaped 39 base dstlen front pre c rest l (omega arith) in
    (
      (false, m),
      refl,
      (
        sym (ap (λ xs. leb (length (between is_escaped 39 front xs) + 1) dstlen) parts ∙ long),
        (λ bad. absurd (ground arith)),
        λ a lt. kept a (omega arith) ∙ same a lt,
      ),
    )
closing mem mem' base dst dstlen front src stops (ran [] dst' m) l e h same quiet
      (pre, parts, q, moved, held, kept, full, room) =
    let whole : src ≡ pre = parts ∙ append-nil pre in
    let size : dst' ≡ base + length front + length (double is_escaped src) =
      omega (arith, moved, ap (λ xs. length (double is_escaped xs)) whole) in
    elim (Bool-cases (ltb (base + dstlen - 2) dst')) [
      | inl f ↦ rw f (
        (false, m),
        refl,
        (
          sym (not_closed is_escaped 39 base dst' dstlen front src size (ground arith)),
          (λ bad. absurd (ground arith)),
          λ a lt. kept a (omega arith) ∙ same a lt,
        ),
      )
      | inr f ↦
          let front' = same-Holds mem' m base dst front kept (omega arith) h in
          let held' : Holds m (base + length front) (double is_escaped src) =
            subst (λ xs. Holds m (base + length front) (double is_escaped xs)) (sym whole)
              (subst (λ k. Holds m k (double is_escaped pre)) e held) in
          rw
            (
              f,
              store_lem (base + dstlen) m dst' 39 (ground arith),
              store_lem (base + dstlen) (update m dst' 39) (dst' + 1) 0 (ground arith),
            )
            (
              _,
              refl,
              closes is_escaped 39 mem m base dst' dstlen front src l size front' held'
                  (λ a lt. kept a (omega arith) ∙ same a lt) (ground arith),
            )
    ]

-- One try, behind what the destination starts with.
pub try :
    (mem mem' : Memory) (base start dstlen : ℕ) (lead src : List ℕ) (stdquote : Bool)
    → 3 ≤ dstlen
    → length lead < 2
    → start ≡ base + length lead
    → Holds mem' base lead
    → ((a : ℕ) → a < base → mem' a ≡ mem a)
    → Returns
        (λ r.
          Copied
            (base + dstlen - 2)
            (λ c. stdquote && is_backslash c)
            is_escaped
            src
            (start + 1)
            (update mem' start 39)
            r)
        (literal_from (base + dstlen) (base + dstlen - 2) stdquote src start mem')
unfolding literal_from
try mem mem' base start dstlen lead src stdquote l short e h same =
    rw (store_lem (base + dstlen) mem' start 39 (omega arith)) (
      copy_loop_lem (base + dstlen) (base + dstlen - 2) (λ c. stdquote && is_backslash c) is_escaped
        src (start + 1) (update mem' start 39) (omega arith))
