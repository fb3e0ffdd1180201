-- ===== src/PgUtil/Tests.antt =====
-- usual/pgutil.c at concrete sources, as the numbers of their bytes.
use libusual_archive.Base.{arith}
use libusual_archive.Base.{
  ℕ, ◌<◌, ◌≤◌, ◌≡◌, refl, Bool, true, false, Option, none, some, List, [], ◌∷◌, ◌>>=◌, inr, ◌⊎◌,
  Returns, ◌==◌,
}
use libusual_archive.PgUtil.{
  Memory, text_at, copy_loop, literal_from, literal_end, literal_retry, quote_end, needs_quoting,
  plain_end, pg_quote_literal, pg_quote_ident, pg_quote_fqident, split_at_dot, split_parts,
  copy_schema, quote_parts,
}
use libusual_archive.PgUtil.Text.{IsText}
use libusual_archive.PgUtil.Close.{Quoted}
use libusual_archive.PgUtil.Literal.{literal_text, pg_quote_literal_lem}
use libusual_archive.PgUtil.Reading.{read_literal, pg_quote_literal-read}
use libusual_archive.PgUtil.Ident.{ident_text, pg_quote_ident_lem}
use libusual_archive.PgUtil.Overrun.{pg_quote_ident_overrun}
use libusual_archive.PgUtil.Qualified.{qualified_text, pg_quote_fqident_lem}

abbrev blank : Memory
blank a = 0

-- The only reserved word is `a`.
abbrev reserved_a : List ℕ → Bool
reserved_a [] = false
reserved_a (c ∷ []) = c == 97
reserved_a (c ∷ d ∷ src) = false

abbrev shown : Option (Bool × Memory) → Option (Bool × List ℕ)
shown o = o >>= λ (ok, mem). some (ok, text_at 20 mem 0)

-- `a'b` gives `'a''b'`, and `\` gives `E'\\'`.
literal_of_quote :
    shown (pg_quote_literal blank 0 (some (97 ∷ 39 ∷ 98 ∷ [])) 7)
    ≡ some (true, 39 ∷ 97 ∷ 39 ∷ 39 ∷ 98 ∷ 39 ∷ [])
unfolding pg_quote_literal literal_from literal_retry literal_end copy_loop
literal_of_quote = refl

literal_of_backslash :
    shown (pg_quote_literal blank 0 (some (92 ∷ [])) 6) ≡ some (true, 69 ∷ 39 ∷ 92 ∷ 92 ∷ 39 ∷ [])
unfolding pg_quote_literal literal_from literal_retry literal_end copy_loop
literal_of_backslash = refl

-- `b` stays, `a` is reserved.
ident_of_word : shown (pg_quote_ident reserved_a blank 0 (98 ∷ []) 2) ≡ some (true, 98 ∷ [])
unfolding pg_quote_ident plain_end copy_loop
ident_of_word = refl

ident_of_reserved :
    shown (pg_quote_ident reserved_a blank 0 (97 ∷ []) 4) ≡ some (true, 34 ∷ 97 ∷ 34 ∷ [])
unfolding pg_quote_ident plain_end copy_loop needs_quoting quote_end
ident_of_reserved = refl

-- `a.b` gives `"a".b`.
fqident_of_two :
    shown (pg_quote_fqident reserved_a blank 0 (97 ∷ 46 ∷ 98 ∷ []) 6)
    ≡ some (true, 34 ∷ 97 ∷ 34 ∷ 46 ∷ 98 ∷ [])
unfolding pg_quote_fqident split_parts copy_schema split_at_dot quote_parts pg_quote_ident plain_end
    copy_loop needs_quoting quote_end
fqident_of_two = refl

pg_quote_literal_lem_example :
    Returns
      (Quoted blank 0 7 (literal_text (some (97 ∷ 39 ∷ 98 ∷ []))))
      (pg_quote_literal blank 0 (some (97 ∷ 39 ∷ 98 ∷ [])) 7)
pg_quote_literal_lem_example = pg_quote_literal_lem blank 0 (some (97 ∷ 39 ∷ 98 ∷ [])) 7

pg_quote_literal-read_example :
    Returns
      (λ r.
        r.0 ≡ true
        → (text : List ℕ) × IsText (r.1) 0 text × (read_literal text ≡ some (39 ∷ 92 ∷ [])))
      (pg_quote_literal blank 0 (some (39 ∷ 92 ∷ [])) 8)
pg_quote_literal-read_example = pg_quote_literal-read blank 0 (39 ∷ 92 ∷ []) 8

pg_quote_ident_lem_example :
    Returns
      (Quoted blank 0 4 (ident_text reserved_a (97 ∷ [])))
      (pg_quote_ident reserved_a blank 0 (97 ∷ []) 4)
pg_quote_ident_lem_example = pg_quote_ident_lem reserved_a blank 0 (97 ∷ []) 4 refl refl

pg_quote_ident_overrun_example : pg_quote_ident reserved_a blank 0 (34 ∷ []) 4 ≡ none
pg_quote_ident_overrun_example = pg_quote_ident_overrun reserved_a blank 0 (34 ∷ []) 4 refl

pg_quote_fqident_lem_example :
    ((1 < 128)
      × Returns
          (Quoted blank 0 6 (qualified_text reserved_a (97 ∷ []) (98 ∷ [])))
          (pg_quote_fqident reserved_a blank 0 (97 ∷ 46 ∷ 98 ∷ []) 6))
    ⊎ ((128 ≤ 1)
        × (pg_quote_fqident reserved_a blank 0 (97 ∷ 46 ∷ 98 ∷ []) 6 ≡ some (false, blank)))
pg_quote_fqident_lem_example =
    pg_quote_fqident_lem reserved_a blank 0 (97 ∷ 46 ∷ 98 ∷ []) (97 ∷ []) (98 ∷ []) 6
      (inr (refl, refl)) refl (omega arith) refl refl
