-- ===== src/PgUtil/Literal.antt =====
-- usual/pgutil.c: pg_quote_literal against the text that it is to make.
use libusual_archive.Base.{
  ℕ, suc, ◌+◌, ◌-◌, ◌<◌, ◌≤◌, ◌≡◌, refl, sym, ap, ◌∙◌, subst, true, false, Option, none, some, List,
  [], ◌∷◌, ◌++◌, arith, inl, inr, ltb, leb, if◌then◌else◌, ◌>>=◌, update, length, length-append,
  Bool-cases, Returns, Returns-bind,
}
use libusual_archive.PgUtil.{
  Memory, LoopEnd, jumped, ran, is_backslash, is_escaped, literal_end, literal_retry, store_all,
  pg_quote_literal,
}
use mathlib.Core.List.{append-nil}
use libusual_archive.PgUtil.Text.{any, any_none, double, Holds, update_other}
use libusual_archive.PgUtil.Copy.{Copied, store_lem}
use libusual_archive.PgUtil.Close.{Quoted, between, too_long, small}
use libusual_archive.PgUtil.Attempt.{closing, try}

-- NULL, or the source between quotes with its quotes and backslashes doubled, behind an E if it has a backslash.
abbrev pub literal_text : Option (List ℕ) → List ℕ
literal_text none = 78 ∷ 85 ∷ 76 ∷ 76 ∷ []
literal_text (some src) =
    if any is_backslash src
    then 69 ∷ 39 ∷ (double is_escaped src ++ 39 ∷ [])
    else 39 ∷ (double is_escaped src ++ 39 ∷ [])

longer : (n m : ℕ) → leb (n + 1) m ≡ false → leb (suc n + 1) m ≡ false
longer n m h = ground arith

-- A first try that stopped at the limit: the text with the E is longer still.
cut_short :
    (base dst dstlen : ℕ) (src pre : List ℕ) (c : ℕ) (rest : List ℕ)
    → 3 ≤ dstlen
    → src ≡ pre ++ c ∷ rest
    → dst ≡ base + 1 + length (double is_escaped pre)
    → base + dstlen - 2 ≤ dst
    → leb (length (between is_escaped 39 (69 ∷ 39 ∷ []) src) + 1) dstlen ≡ false
cut_short base dst dstlen src pre c rest l e moved full =
    let long = too_long is_escaped 39 base dstlen (39 ∷ []) pre c rest l (omega arith) in
    rw e (longer (length (between is_escaped 39 (39 ∷ []) (pre ++ c ∷ rest))) dstlen long)

-- The first try ends with the loop, or it is given up because of a backslash.
first_try :
    (mem : Memory) (base dstlen : ℕ) (src : List ℕ) (r : LoopEnd)
    → 3 ≤ dstlen
    → Copied (base + dstlen - 2) is_backslash is_escaped src (base + 1) (update mem base 39) r
    → Returns
        (Quoted mem base dstlen (literal_text (some src)))
        (literal_retry (base + dstlen) (base + dstlen - 2) src base r)
unfolding literal_retry literal_end
first_try mem base dstlen src (jumped m) l (jump, kept) =
    let below =
      λ (a : ℕ) (lt : a < base). kept a (omega arith) ∙ update_other mem base 39 a (omega arith) in
    rw (jump, store_lem (base + dstlen) m base 69 (omega arith))
      (Returns-bind
        (try mem (update m base 69) base (base + 1) dstlen (69 ∷ []) src false l (omega arith) refl
          (ground arith, tt) (λ a lt. update_other m base 69 a (omega arith) ∙ below a lt))
        λ r post.
          closing mem (update (update m base 69) (base + 1) 39) base (base + 1 + 1) dstlen
            (69 ∷ 39 ∷ []) src (λ c. false) r l (omega arith) (ground arith, (ground arith, tt))
            (λ a lt.
              update_other (update m base 69) (base + 1) 39 a (omega arith)
              ∙ update_other m base 69 a (omega arith)
              ∙ below a lt)
            (any_none src) post)
first_try mem base dstlen src (ran [] dst m) l (pre, parts, quiet, moved, held, kept, full, room) =
    let none_there : any is_backslash src ≡ false =
      ap (any is_backslash) (parts ∙ append-nil pre) ∙ quiet in
    rw none_there (
      closing mem (update mem base 39) base (base + 1) dstlen (39 ∷ []) src is_backslash
        (ran [] dst m) l refl (ground arith, tt) (λ a lt. ground arith) none_there
        (pre, parts, quiet, moved, held, kept, full, room))
first_try mem base dstlen src (ran (c ∷ rest) dst m) l
      (pre, parts, quiet, moved, held, kept, inl bad, room) =
    absurd (omega (arith, ap length bad))
first_try mem base dstlen src (ran (c ∷ rest) dst m) l
      (pre, parts, quiet, moved, held, kept, inr full, room) =
    elim (Bool-cases (any is_backslash src)) [
      | inl e ↦ rw e (
        (false, m),
        refl,
        (
          sym (cut_short base dst dstlen src pre c rest l parts moved full),
          (λ bad. absurd (ground arith)),
          λ a lt. kept a (omega arith) ∙ update_other mem base 39 a (omega arith),
        ),
      )
      | inr e ↦ rw e (
          closing mem (update mem base 39) base (base + 1) dstlen (39 ∷ []) src is_backslash
            (ran (c ∷ rest) dst m) l refl (ground arith, tt) (λ a lt. ground arith) e
            (pre, parts, quiet, moved, held, kept, inr full, room))
    ]

four_more : (n : ℕ) → n + 1 + 1 + 1 + 1 ≡ n + 4
four_more n = omega arith

store_all-Holds :
    (limit : ℕ) (mem : Memory) (a : ℕ) (xs : List ℕ)
    → a + length xs ≤ limit
    → Returns
        (λ mem'. Holds mem' a xs × ((b : ℕ) → b < a → mem' b ≡ mem b))
        (store_all limit mem a xs)
unfolding store_all
store_all-Holds limit mem a [] lt = (mem, refl, (tt, λ b h. refl))
store_all-Holds limit mem a (x ∷ xs) lt =
    let (m, returned, (held, kept)) =
      store_all-Holds limit (update mem a x) (a + 1) xs (omega arith) in
    rw (store_lem limit mem a x (omega arith)) (
      m,
      returned,
      (
        (kept a (omega arith) ∙ (ground arith), held),
        λ b h. kept b (omega arith) ∙ update_other mem a x b (omega arith),
      ),
    )

shortest : (src : List ℕ) → 2 ≤ length (literal_text (some src))
shortest src =
    let size = length-append (double is_escaped src) (39 ∷ []) in
    elim (Bool-cases (any is_backslash src)) [
      | inl e ↦ rw e (omega (arith, size))
      | inr e ↦ rw e (omega (arith, size))
    ]

null_case :
    (mem : Memory) (base dstlen : ℕ)
    → 5 ≤ dstlen
    → Returns (Quoted mem base dstlen (literal_text none)) (
        store_all (base + dstlen) mem base (78 ∷ 85 ∷ 76 ∷ 76 ∷ 0 ∷ []) >>= λ mem'.
        some (true, mem'))
null_case mem base dstlen l =
    Returns-bind
      (store_all-Holds (base + dstlen) mem base (78 ∷ 85 ∷ 76 ∷ 76 ∷ 0 ∷ []) (omega arith))
      λ m (held, kept).
        let (a, (b, (c, (d, (nul, end))))) = held in
        (
          (true, m),
          refl,
          (
            ground arith,
            (λ _. ((a, (b, (c, (d, tt)))), subst (λ k. m k ≡ 0) (four_more base) nul)),
            kept,
          ),
        )

-- pg_quote_literal never stores outside the destination. It returns true exactly if the literal and its NUL fit, and then the
-- destination holds them: NULL for no source, and otherwise the source between quotes with its quotes and
-- backslashes doubled, behind an E if there is a backslash. No byte before the destination changes.
pub pg_quote_literal_lem :
    (mem : Memory) (base : ℕ) (src : Option (List ℕ)) (dstlen : ℕ)
    → Returns (Quoted mem base dstlen (literal_text src)) (pg_quote_literal mem base src dstlen)
unfolding pg_quote_literal
pg_quote_literal_lem mem base none dstlen = elim (Bool-cases (ltb dstlen 3)) [
  | inl e ↦ rw e (
    (false, mem),
    refl,
    (sym (small 4 dstlen (omega arith) e), (λ bad. absurd (ground arith)), λ a lt. refl),
  )
  | inr e ↦ elim (Bool-cases (ltb dstlen 5)) [
    | inl f ↦
        rw (e, f) ((false, mem), refl, (ground arith, (λ bad. absurd (ground arith)), λ a lt. refl))
    | inr f ↦ rw (e, f) (null_case mem base dstlen (ground arith))
  ]
]
pg_quote_literal_lem mem base (some src) dstlen = elim (Bool-cases (ltb dstlen 3)) [
  | inl e ↦ rw e (
    (false, mem),
    refl,
    (
      sym (small (length (literal_text (some src))) dstlen (shortest src) e),
      (λ bad. absurd (ground arith)),
      λ a lt. refl,
    ),
  )
  | inr e ↦ rw e (
      Returns-bind
        (try mem mem base base dstlen [] src true (ground arith) (omega arith) (omega arith) tt
          (λ a lt. refl))
        λ r post. first_try mem base dstlen src r (ground arith) post)
]
