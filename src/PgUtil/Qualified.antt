-- ===== src/PgUtil/Qualified.antt =====
-- usual/pgutil.c: pg_quote_fqident, two identifiers around a dot.
use libusual_archive.Base.{
  ℕ, ◌+◌, ◌-◌, ◌%◌, ◌^◌, ◌<◌, ◌≤◌, ◌≡◌, refl, sym, ap, ◌∙◌, subst, Bool, true, false, not, ◌&&◌,
  none, some, List, [], ◌∷◌, ◌++◌, arith, inl, inr, ◌⊎◌, leb, ◌==◌, ◌>>=◌, update, length,
  length-append, ltb, take, Bool-cases, Returns, Returns-bind, Returns-map,
}
use mathlib.Core.List.{append_assoc}
use libusual_archive.PgUtil.{
  Memory, put_byte, put_byte, split_at_dot, public_schema, quote_parts, split_parts, copy_schema,
  pg_quote_ident, pg_quote_fqident, is_double_quote,
}
use libusual_archive.PgUtil.Text.{
  any, double, Holds, IsText, store-Holds, update_other, same-Holds, append-Holds, text_at_lem,
  none_of, any-append,
}
use libusual_archive.PgUtil.Copy.{store_lem}
use libusual_archive.PgUtil.Close.{Quoted, too_big}
use libusual_archive.PgUtil.Quoting.{overruns, true_not_false}
use libusual_archive.PgUtil.Ident.{is_plain, ident_text, pg_quote_ident_lem}

abbrev NoNul : List ℕ → Type 0
NoNul src = any (λ d. d == 0) src ≡ false

NoNul-append : (xs ys : List ℕ) → NoNul xs → NoNul ys → NoNul (xs ++ ys)
NoNul-append xs ys h g = any-append (λ d. d == 0) xs ys ∙ rw (h, g) refl

NoNul-double : (p : ℕ → Bool) (src : List ℕ) → NoNul src → NoNul (double p src)
NoNul-double p [] h = refl
NoNul-double p (x ∷ src) h =
    let (here, rest) = none_of (x == 0) (any (λ d. d == 0) src) h in
    let ih = NoNul-double p src rest in
    elim (Bool-cases (p x)) [ inl e ↦ rw (e, here) ih | inr e ↦ rw (e, here) ih ]

room_of : (n dstlen : ℕ) → leb (n + 1) dstlen ≡ true → n < dstlen
room_of n dstlen h = ground arith

short_of :
    (n dstlen more total : ℕ) → total ≡ n + more → leb (n + 1) dstlen ≡ false → dstlen < total + 1
short_of n dstlen more total e h = ground arith

same_fit :
    (a b t dstlen : ℕ)
    → a < dstlen
    → t ≡ a + b + 1
    → leb (b + 1) (dstlen - (a + 1)) ≡ leb (t + 1) dstlen
same_fit a b t dstlen h e = ground arith

module _ (pg_is_reserved_word : List ℕ → Bool) where
  NoNul-ident : (src : List ℕ) → NoNul src → NoNul (ident_text pg_is_reserved_word src)
  NoNul-ident src h = elim (Bool-cases (is_plain src && not (pg_is_reserved_word src))) [
    | inl e ↦ rw e h
    | inr e ↦ rw e (
        NoNul-append (double is_double_quote src) (34 ∷ []) (NoNul-double is_double_quote src h)
          refl)
  ]

  -- The two identifiers and the dot.
  abbrev pub qualified_text : List ℕ → List ℕ → List ℕ
  qualified_text scm name =
      ident_text pg_is_reserved_word scm ++ 46 ∷ ident_text pg_is_reserved_word name

  -- The dot and the second identifier, behind the first one.
  second_part :
      (mem m : Memory) (base : ℕ) (first name : List ℕ) (dstlen : ℕ)
      → length first < dstlen
      → IsText m base first
      → ((a : ℕ) → a < base → m a ≡ mem a)
      → NoNul name
      → overruns name (dstlen - (length first + 1)) ≡ false
      → Returns (Quoted mem base dstlen (first ++ 46 ∷ ident_text pg_is_reserved_word name)) (
          put_byte (base + dstlen) m (base + length first) 46 >>= λ m'.
          pg_quote_ident pg_is_reserved_word m'
            (base + length first + 1)
            name
            (dstlen - (length first + 1)))
  second_part mem m base first name dstlen room (held, nul) kept nz fine =
      let m1 = update m (base + length first) 46 in
      let second = ident_text pg_is_reserved_word name in
      let size : length (first ++ 46 ∷ second) ≡ length first + length second + 1 =
        length-append first (46 ∷ second) ∙ omega arith in
      let dot_size = length-append first (46 ∷ []) in
      let dot : Holds m1 base (first ++ 46 ∷ []) =
        append-Holds m1 base (base + length first) first (46 ∷ []) refl
          (store-Holds m (base + length first) 46 base first (omega arith) held)
          (ground arith, tt) in
      rw (store_lem (base + dstlen) m (base + length first) 46 (omega arith)) (
        Returns-map
          (pg_quote_ident_lem pg_is_reserved_word m1 (base + length first + 1) name
            (dstlen - (length first + 1)) nz fine)
          λ (ok, m2) (fits, holds, same). (
            fits
                ∙ same_fit (length first) (length second) (length (first ++ 46 ∷ second)) dstlen
                    room size,
            (λ e.
                let (h, z) = holds e in
                (
                  subst (Holds m2 base) (append_assoc first (46 ∷ []) second) (
                      append-Holds m2 base (base + length first + 1) (first ++ 46 ∷ []) second
                        (omega (arith, dot_size))
                        (same-Holds m1 m2 base (base + length first + 1) (first ++ 46 ∷ []) same
                          (omega (arith, dot_size)) dot)
                        h),
                  subst (λ k. m2 k ≡ 0) (omega (arith, size)) z,
                )),
            λ a lt.
                same a (omega arith)
                ∙ update_other m (base + length first) 46 a (omega arith)
                ∙ kept a lt,
          ))

  quote_parts_lem :
      (mem : Memory) (base : ℕ) (scm name : List ℕ) (dstlen : ℕ)
      → NoNul scm
      → NoNul name
      → overruns scm dstlen ≡ false
      → overruns name (dstlen - (length (ident_text pg_is_reserved_word scm) + 1)) ≡ false
      → Returns
          (Quoted mem base dstlen (qualified_text scm name))
          (quote_parts pg_is_reserved_word mem base scm name dstlen)
  unfolding quote_parts
  quote_parts_lem mem base scm name dstlen nz nz' fine fine' =
      let first_text = ident_text pg_is_reserved_word scm in
      let second_text = ident_text pg_is_reserved_word name in
      let size = length-append first_text (46 ∷ second_text) in
      Returns-bind (pg_quote_ident_lem pg_is_reserved_word mem base scm dstlen nz fine)
        λ (ok, m) (fits, holds, kept). elim (Bool-cases ok) [
          | inl e ↦
              let text = holds e in
              let room : length first_text < dstlen =
                room_of (length first_text) dstlen (sym fits ∙ e) in
              rw (e, text_at_lem dstlen m base first_text (NoNul-ident scm nz) room text)
                (second_part mem m base first_text name dstlen room text kept nz' fine')
          | inr e ↦ rw e (
            (false, m),
            refl,
            (
              sym (
                  too_big (length (qualified_text scm name) + 1) dstlen (
                    short_of (length first_text) dstlen (length (46 ∷ second_text)) _ size
                      (sym fits ∙ e))),
              (λ bad. absurd (true_not_false (sym bad))),
              kept,
            ),
          )
        ]

split_quiet : (src : List ℕ) → any (λ d. d == 46) src ≡ false → split_at_dot src ≡ none
unfolding split_at_dot
split_quiet [] h = refl
split_quiet (c ∷ src) h =
    let (here, rest) = none_of (c == 46) (any (λ d. d == 46) src) h in
    rw (here, split_quiet src rest) refl

split_first :
    (before after : List ℕ)
    → any (λ d. d == 46) before ≡ false
    → split_at_dot (before ++ 46 ∷ after) ≡ some (before, after)
unfolding split_at_dot
split_first [] after h = refl
split_first (c ∷ before) after h =
    let (here, rest) = none_of (c == 46) (any (λ d. d == 46) before) h in
    rw (here, split_first before after rest) refl

-- The schema and the name that a source stands for: before and after its first dot, or `public` and the source without one.
abbrev pub IsSplit : List ℕ → List ℕ → List ℕ → Type 0
IsSplit src scm name =
    ((any (λ d. d == 46) src ≡ false) × (scm ≡ public_schema) × (name ≡ src))
    ⊎ ((src ≡ scm ++ 46 ∷ name) × (any (λ d. d == 46) scm ≡ false))

NoNul-parts : (src scm name : List ℕ) → IsSplit src scm name → NoNul src → NoNul scm × NoNul name
NoNul-parts src scm name (inl (quiet, e, f)) h = (rw e refl, rw f h)
NoNul-parts src scm name (inr (e, quiet)) h =
    none_of (any (λ d. d == 0) scm) (any (λ d. d == 0) name)
      (sym (any-append (λ d. d == 0) scm (46 ∷ name)) ∙ ap (any (λ d. d == 0)) (sym e) ∙ h)

take-length : (xs : List ℕ) → take (length xs) xs ≡ xs
take-length [] = refl
take-length (x ∷ xs) = ap (λ t. x ∷ t) (take-length xs)

split_long :
    (reserved : List ℕ → Bool) (mem : Memory) (base : ℕ) (src scm name : List ℕ) (dstlen : ℕ)
    → length scm < 2 ^ 31
    → 128 ≤ length scm
    → split_parts reserved mem base src dstlen (some (scm, name)) ≡ some (false, mem)
unfolding split_parts
split_long reserved mem base src scm name dstlen small long =
    let scmlen : length scm % 2 ^ 32 ≡ length scm = omega arith in
    let test : (ltb (length scm) (2 ^ 31) && leb 128 (length scm)) ≡ true = ground arith in
    rw (scmlen, test) refl

split_short :
    (reserved : List ℕ → Bool) (mem : Memory) (base : ℕ) (src scm name : List ℕ) (dstlen : ℕ)
    → length scm < 128
    → split_parts reserved mem base src dstlen (some (scm, name))
      ≡ quote_parts reserved mem base scm name dstlen
unfolding split_parts copy_schema
split_short reserved mem base src scm name dstlen short =
    let scmlen : length scm % 2 ^ 32 ≡ length scm = omega arith in
    let test : (ltb (length scm) (2 ^ 31) && leb 128 (length scm)) ≡ false = ground arith in
    let inside : ltb (length scm) 128 ≡ true = ground arith in
    rw (scmlen, test, inside, take-length scm) refl

-- For a C string of less than 2^31 bytes that stands for a schema and a name, if neither quoted form ends exactly at the limit of its part of the
-- destination, closed by two double quotes: pg_quote_fqident never stores outside the destination. A schema of 128 bytes or more before the dot gives false.
-- Otherwise the call returns true exactly if the two identifiers, the dot and the NUL fit, and then
-- the destination holds them.
pub pg_quote_fqident_lem :
    (pg_is_reserved_word : List ℕ → Bool) (mem : Memory) (base : ℕ) (src scm name : List ℕ)
    (dstlen : ℕ)
    → IsSplit src scm name
    → NoNul src
    → length src < 2 ^ 31
    → overruns scm dstlen ≡ false
    → overruns name (dstlen - (length (ident_text pg_is_reserved_word scm) + 1)) ≡ false
    → ((length scm < 128)
        × Returns
            (Quoted mem base dstlen (qualified_text pg_is_reserved_word scm name))
            (pg_quote_fqident pg_is_reserved_word mem base src dstlen))
      ⊎ ((128 ≤ length scm)
          × (pg_quote_fqident pg_is_reserved_word mem base src dstlen ≡ some (false, mem)))
unfolding pg_quote_fqident split_parts
pg_quote_fqident_lem reserved mem base src scm name dstlen (inl (quiet, e, f)) nz small fine fine' =
    let (nz1, nz2) = NoNul-parts src scm name (inl (quiet, e, f)) nz in
    let whole = quote_parts_lem reserved mem base scm name dstlen nz1 nz2 fine fine' in
    let goal = λ (a b : List ℕ).
      Returns (Quoted mem base dstlen (qualified_text reserved scm name))
        (quote_parts reserved mem base a b dstlen) in
    inl (
      rw e (omega arith),
      subst
          (λ o.
            Returns (Quoted mem base dstlen (qualified_text reserved scm name))
              (split_parts reserved mem base src dstlen o))
          (sym (split_quiet src quiet)) (subst (λ a. goal a src) e (subst (goal scm) f whole)),
    )
pg_quote_fqident_lem reserved mem base src scm name dstlen (inr (e, quiet)) nz small fine fine' =
    let (nz1, nz2) = NoNul-parts src scm name (inr (e, quiet)) nz in
    let whole = quote_parts_lem reserved mem base scm name dstlen nz1 nz2 fine fine' in
    let found = ap split_at_dot e ∙ split_first scm name quiet in
    let short : length scm < 2 ^ 31 = omega (arith, ap length e, length-append scm (46 ∷ name)) in
    let whole_split = ap (split_parts reserved mem base src dstlen) found in
    elim (Bool-cases (leb 128 (length scm))) [
      | inl f ↦ inr (
        ground arith,
        whole_split ∙ split_long reserved mem base src scm name dstlen short (ground arith),
      )
      | inr f ↦
          let shorter : length scm < 128 = ground arith in
          inl (
            shorter,
            subst (Returns (Quoted mem base dstlen (qualified_text reserved scm name)))
                (sym (whole_split ∙ split_short reserved mem base src scm name dstlen shorter))
                whole,
          )
    ]
