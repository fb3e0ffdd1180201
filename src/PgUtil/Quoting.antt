-- ===== src/PgUtil/Quoting.antt =====
-- usual/pgutil.c: the quoting part of pg_quote_ident, and where it stores outside its destination.
use libusual_archive.Base.{
  ℕ, ◌+◌, ◌-◌, ◌<◌, ◌≤◌, ◌≡◌, refl, sym, ap, ◌∙◌, subst, Bool, true, false, ◌&&◌, none, List, [],
  ◌∷◌, arith, inl, inr, ltb, leb, ◌==◌, update, length, length-append, ==_iff, Bool-cases, Returns,
  Returns-bind,
}
use mathlib.Core.List.{append-nil}
use libusual_archive.PgUtil.{
  Memory, put_byte, LoopEnd, jumped, ran, is_double_quote, quote_end, needs_quoting,
}
use libusual_archive.PgUtil.Text.{
  any_none, double, is_last, Holds, update_other, same-Holds, double-append, is_last-append,
  double-is_last,
}
use libusual_archive.PgUtil.Copy.{Copied, Ends, copy_loop_lem, store_lem}
use libusual_archive.PgUtil.Close.{Quoted, between, length-between, too_long, closes, small}

abbrev pub quoted : List ℕ → List ℕ
quoted src = between is_double_quote 34 (34 ∷ []) src

-- The source ends in a double quote, and its quoted form fits but for the NUL.
abbrev pub overruns : List ℕ → ℕ → Bool
overruns src dstlen = is_last is_double_quote src && (length (quoted src) == dstlen)

pub true_not_false : true ≡ false → ⊥
true_not_false e = ground arith

both : (a b : Bool) → a ≡ true → b ≡ true → (a && b) ≡ true
both a b e f = rw (e, f) refl

no_overrun :
    (base dst dstlen : ℕ) (src : List ℕ)
    → 3 ≤ dstlen
    → overruns src dstlen ≡ false
    → dst ≡ base + 1 + length (double is_double_quote src)
    → Ends (base + dstlen - 2) is_double_quote (base + 1) src dst
    → dst ≤ base + dstlen - 2
no_overrun base dst dstlen src l fine size (inl h) = h
no_overrun base dst dstlen src l fine size (inr (inl e)) = omega arith
no_overrun base dst dstlen src l fine size (inr (inr (e, last))) =
    let fits : length (quoted src) ≡ dstlen =
      length-between is_double_quote 34 (34 ∷ []) src ∙ omega arith in
    absurd (
      true_not_false (
        sym (
          both (is_last is_double_quote src) (length (quoted src) == dstlen) last
            ((==_iff (length (quoted src)) dstlen).1 fits))
        ∙ fine))

quoting_end :
    (mem mem' : Memory) (base dstlen : ℕ) (src : List ℕ) (r : LoopEnd)
    → 3 ≤ dstlen
    → overruns src dstlen ≡ false
    → Holds mem' base (34 ∷ [])
    → ((a : ℕ) → a < base → mem' a ≡ mem a)
    → Copied (base + dstlen - 2) (λ c. false) is_double_quote src (base + 1) mem' r
    → Returns (Quoted mem base dstlen (quoted src)) (quote_end (base + dstlen) r)
unfolding quote_end
quoting_end mem mem' base dstlen src (jumped m) l fine h same (jump, kept) =
    absurd (ground (arith, any_none src))
quoting_end mem mem' base dstlen src (ran (c ∷ rest) dst m) l fine h same
      (pre, parts, q, moved, held, kept, inl bad, room) =
    absurd (omega (arith, ap length bad))
quoting_end mem mem' base dstlen src (ran (c ∷ rest) dst m) l fine h same
      (pre, parts, q, moved, held, kept, inr full, room) =
    let long = too_long is_double_quote 34 base dstlen (34 ∷ []) pre c rest l (omega arith) in
    (
      (false, m),
      refl,
      (
        sym (ap (λ xs. leb (length (quoted xs) + 1) dstlen) parts ∙ long),
        (λ bad. absurd (ground arith)),
        λ a lt. kept a (omega arith) ∙ same a lt,
      ),
    )
quoting_end mem mem' base dstlen src (ran [] dst m) l fine h same
      (pre, parts, q, moved, held, kept, full, room) =
    let whole : src ≡ pre = parts ∙ append-nil pre in
    let size : dst ≡ base + 1 + length (double is_double_quote src) =
      omega (arith, moved, ap (λ xs. length (double is_double_quote xs)) whole) in
    let inside : dst ≤ base + dstlen - 2 =
      no_overrun base dst dstlen src l fine size (
        subst (λ xs. Ends (base + dstlen - 2) is_double_quote (base + 1) xs dst) (sym whole)
          room) in
    let front' = same-Holds mem' m base (base + 1) (34 ∷ []) kept (omega arith) h in
    let held' : Holds m (base + 1) (double is_double_quote src) =
      subst (λ xs. Holds m (base + 1) (double is_double_quote xs)) (sym whole) held in
    rw
      (
        store_lem (base + dstlen) m dst 34 (omega arith),
        store_lem (base + dstlen) (update m dst 34) (dst + 1) 0 (omega arith),
      )
      (
        _,
        refl,
        closes is_double_quote 34 mem m base dst dstlen (34 ∷ []) src l size front' held'
            (λ a lt. kept a (omega arith) ∙ same a lt) inside,
      )

pub parts_true : (a b : Bool) → (a && b) ≡ true → (a ≡ true) × (b ≡ true)
parts_true true b h = (refl, h)
parts_true false b h = absurd (ground arith)

store_fault : (limit : ℕ) (mem : Memory) (a v : ℕ) → limit ≤ a → put_byte limit mem a v ≡ none
store_fault limit mem a v h = ground arith

-- The two conditions of an overrun, as numbers.
pub overruns_sizes :
    (src : List ℕ) (dstlen : ℕ)
    → overruns src dstlen ≡ true
    → (is_last is_double_quote src ≡ true) × (length (double is_double_quote src) + 2 ≡ dstlen)
overruns_sizes src dstlen h =
    let (last, size) = parts_true (is_last is_double_quote src) (length (quoted src) == dstlen) h in
    (
      last,
      omega (
        arith,
        sym (length-between is_double_quote 34 (34 ∷ []) src)
            ∙ (==_iff (length (quoted src)) dstlen).0 size,
      ),
    )

quoting_fault :
    (mem : Memory) (base dstlen : ℕ) (src : List ℕ) (r : LoopEnd)
    → overruns src dstlen ≡ true
    → Copied (base + dstlen - 2) (λ c. false) is_double_quote src (base + 1) mem r
    → quote_end (base + dstlen) r ≡ none
unfolding quote_end
quoting_fault mem base dstlen src (jumped m) bad (jump, kept) =
    absurd (true_not_false (sym jump ∙ any_none src))
quoting_fault mem base dstlen src (ran (c ∷ rest) dst m) bad
      (pre, parts, q, moved, held, kept, inl bare, room) =
    absurd (omega (arith, ap length bare))
quoting_fault mem base dstlen src (ran (c ∷ rest) dst m) bad
      (pre, parts, q, moved, held, kept, inr full, room) =
    let (last, size) = overruns_sizes src dstlen bad in
    let more = double-is_last is_double_quote (c ∷ rest) (
      sym (is_last-append is_double_quote pre c rest)
      ∙ ap (is_last is_double_quote) (sym parts)
      ∙ last) in
    let total =
      ap (λ xs. length (double is_double_quote xs)) parts
      ∙ ap length (double-append is_double_quote pre (c ∷ rest))
      ∙ length-append (double is_double_quote pre) (double is_double_quote (c ∷ rest)) in
    absurd (omega (arith, full, moved, size, more, total))
quoting_fault mem base dstlen src (ran [] dst m) bad
      (pre, parts, q, moved, held, kept, full, room) =
    let (last, size) = overruns_sizes src dstlen bad in
    let whole = ap (λ xs. length (double is_double_quote xs)) (parts ∙ append-nil pre) in
    rw
      (
        store_lem (base + dstlen) m dst 34 (omega arith),
        store_fault (base + dstlen) (update m dst 34) (dst + 1) 0 (omega arith),
      )
      refl

pub below_3 :
    (src : List ℕ) (dstlen : ℕ) → ltb dstlen 3 ≡ true → leb (length (quoted src) + 1) dstlen ≡ false
below_3 src dstlen e =
    let size = length-between is_double_quote 34 (34 ∷ []) src in
    small (length (quoted src)) dstlen (omega (arith, size)) e

pub needs_quoting_lem :
    (mem : Memory) (base : ℕ) (src : List ℕ) (dstlen : ℕ)
    → overruns src dstlen ≡ false
    → Returns (Quoted mem base dstlen (quoted src)) (needs_quoting mem base src dstlen)
unfolding needs_quoting
needs_quoting_lem mem base src dstlen fine = elim (Bool-cases (ltb dstlen 3)) [
  | inl e ↦ rw e (
    (false, mem),
    refl,
    (sym (below_3 src dstlen e), (λ bad. absurd (ground arith)), λ a lt. refl),
  )
  | inr e ↦
      rw (e, store_lem (base + dstlen) mem base 34 (ground arith))
        (Returns-bind
          (copy_loop_lem (base + dstlen) (base + dstlen - 2) (λ c. false) is_double_quote src
            (base + 1) (update mem base 34) (ground arith))
          λ r post.
            quoting_end mem (update mem base 34) base dstlen src r (ground arith) fine
              (ground arith, tt) (λ a lt. update_other mem base 34 a (omega arith)) post)
]

pub needs_quoting_fault :
    (mem : Memory) (base : ℕ) (src : List ℕ) (dstlen : ℕ)
    → overruns src dstlen ≡ true
    → needs_quoting mem base src dstlen ≡ none
unfolding needs_quoting
needs_quoting_fault mem base src dstlen bad = elim (Bool-cases (ltb dstlen 3)) [
  | inl e ↦
      let (last, size) = overruns_sizes src dstlen bad in
      absurd (ground (arith, double-is_last is_double_quote src last, size))
  | inr e ↦
      let (r, returned, post) =
        copy_loop_lem (base + dstlen) (base + dstlen - 2) (λ c. false) is_double_quote src
          (base + 1) (update mem base 34) (ground arith) in
      rw (e, store_lem (base + dstlen) mem base 34 (ground arith), returned)
        (quoting_fault (update mem base 34) base dstlen src r bad post)
]
