-- ===== src/PgUtil/Reading.antt =====
-- usual/pgutil.c: a quoted literal reads back as the source.
use libusual_archive.Base.{
  ℕ, ◌≡◌, refl, ap, Bool, true, false, Option, none, some, List, [], ◌∷◌, ◌++◌, arith, inl, inr,
  ◌==◌, if◌then◌else◌, ◌>>=◌, ==_iff, Bool-cases, Returns, Returns-map,
}
use libusual_archive.PgUtil.{Memory, is_quote, is_backslash, is_escaped, pg_quote_literal}
use libusual_archive.PgUtil.Text.{any, double, IsText, none_of}
use libusual_archive.PgUtil.Literal.{literal_text, pg_quote_literal_lem}

none_is_some : {xs : List ℕ} → none ≡ some xs → ⊥
none_is_some e = ground arith

module _ (special : ℕ → Bool) (close : ℕ) where
  -- The bytes up to the closing one, which ends the text; a special byte stands for itself only when it is doubled.
  unfoldable pub undouble : List ℕ → Option (List ℕ)
  undouble [] = none
  undouble (x ∷ []) = if x == close then some [] else none
  undouble (x ∷ y ∷ xs) =
      let pair = undouble xs >>= λ ys. some (x ∷ ys) in
      let single = undouble (y ∷ xs) >>= λ ys. some (x ∷ ys) in
      if special x then (if x == y then pair else none) else single

  undouble-plain :
      (x : ℕ) (zs ys : List ℕ)
      → special x ≡ false
      → undouble zs ≡ some ys
      → undouble (x ∷ zs) ≡ some (x ∷ ys)
  unfolding undouble
  undouble-plain x [] ys e h = absurd (none_is_some h)
  undouble-plain x (z ∷ zs) ys e h = rw (e, h) refl

  undouble-pair :
      (x : ℕ) (zs ys : List ℕ)
      → special x ≡ true
      → undouble zs ≡ some ys
      → undouble (x ∷ x ∷ zs) ≡ some (x ∷ ys)
  unfolding undouble
  undouble-pair x zs ys e h = rw (e, (==_iff x x).1 refl, h) refl

  pub undouble-double : (src : List ℕ) → undouble (double special src ++ close ∷ []) ≡ some src
  unfolding undouble
  undouble-double [] = rw ((==_iff close close).1 refl) refl
  undouble-double (x ∷ src) = elim (Bool-cases (special x)) [
    | inl e ↦ rw e (undouble-pair x (double special src ++ close ∷ []) src e (undouble-double src))
    | inr e ↦ rw e (undouble-plain x (double special src ++ close ∷ []) src e (undouble-double src))
  ]

-- A literal: special in it are the quotes, and the backslashes behind an E.
unfoldable pub read_literal : List ℕ → Option (List ℕ)
read_literal [] = none
read_literal (c ∷ []) = none
read_literal (c ∷ d ∷ text) =
    if c == 39
    then undouble is_quote 39 (d ∷ text)
    else if c == 69
    then (if d == 39 then undouble is_escaped 39 text else none)
    else none

only_quotes :
    (src : List ℕ) → any is_backslash src ≡ false → double is_escaped src ≡ double is_quote src
only_quotes [] h = refl
only_quotes (x ∷ src) h =
    let (here, rest) = none_of (is_backslash x) (any is_backslash src) h in
    let ih = only_quotes src rest in
    elim (Bool-cases (is_quote x)) [
      | inl e ↦ rw e (ap (λ xs. x ∷ x ∷ xs) ih)
      | inr e ↦ rw (e, here) (ap (λ xs. x ∷ xs) ih)
    ]

standard :
    (body src : List ℕ) → undouble is_quote 39 body ≡ some src → read_literal (39 ∷ body) ≡ some src
unfolding read_literal undouble
standard [] src h = absurd (none_is_some h)
standard (d ∷ body) src h = h

pub literal_text-read : (src : List ℕ) → read_literal (literal_text (some src)) ≡ some src
unfolding read_literal
literal_text-read src = elim (Bool-cases (any is_backslash src)) [
  | inl e ↦ rw (e, undouble-double is_escaped 39 src) refl
  | inr e ↦
      rw (e, only_quotes src e)
        (standard (double is_quote src ++ 39 ∷ []) src (undouble-double is_quote 39 src))
]

-- Whenever pg_quote_literal returns true for a source, what it left in the destination is a text that reads back
-- as the source, by the rules of the server: a doubled quote is a quote, and behind an E a doubled backslash is a backslash.
pub pg_quote_literal-read :
    (mem : Memory) (base : ℕ) (src : List ℕ) (dstlen : ℕ)
    → Returns
        (λ r.
          r.0 ≡ true → (text : List ℕ) × IsText (r.1) base text × (read_literal text ≡ some src))
        (pg_quote_literal mem base (some src) dstlen)
pg_quote_literal-read mem base src dstlen =
    Returns-map (pg_quote_literal_lem mem base (some src) dstlen)
      λ (ok, mem') (fits, holds, kept) yes_ok.
        (literal_text (some src), holds yes_ok, literal_text-read src)
