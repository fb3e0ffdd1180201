-- ===== src/PgUtil/Ident.antt =====
-- usual/pgutil.c: pg_quote_ident against the text that it is to make.
use libusual_archive.Base.{
  ℕ, ◌+◌, ◌-◌, ◌<◌, ◌≤◌, ◌≡◌, refl, sym, ap, ◌∙◌, subst, Bool, true, false, not, ◌&&◌, some, List,
  [], ◌∷◌, ◌++◌, arith, inl, inr, ◌⊎◌, ltb, leb, ◌==◌, if◌then◌else◌, ◌>>=◌, update, length,
  length-append, Bool-cases, Returns, Returns-bind, Returns-map,
}
use mathlib.Core.List.{append-nil}
use libusual_archive.PgUtil.{
  Memory, LoopEnd, jumped, ran, copy_loop, id_start, id_body, is_double_quote, needs_quoting,
  plain_end, pg_quote_ident,
}
use libusual_archive.PgUtil.Text.{
  any, double, Holds, IsText, store-Holds, update_other, text_at_lem, double_none, is_last_none,
  length-double,
}
use libusual_archive.PgUtil.Copy.{Copied, Ends, copy_loop_lem, store_lem}
use libusual_archive.PgUtil.Close.{Quoted, length-between, too_big}
use libusual_archive.PgUtil.Quoting.{quoted, overruns, needs_quoting_lem, true_not_false}

-- A lower-case word.
abbrev pub is_plain : List ℕ → Bool
is_plain [] = false
is_plain (c ∷ src) = id_start c && not (any (λ d. not (id_body d)) (c ∷ src))

fits : (n dstlen : ℕ) → n ≤ dstlen → true ≡ leb n dstlen
fits n dstlen h = ground arith

unguarded : (a b : Bool) → a ≡ false → (a && not b) ≡ false
unguarded a b e = rw e refl

guarded : (a b t : Bool) → a ≡ true → b ≡ t → (a && not b) ≡ not t
guarded a b t e f = rw (e, f) refl

is_plain_lem :
    (c : ℕ) (src : List ℕ) (t : Bool)
    → id_start c ≡ true
    → any (λ d. not (id_body d)) (c ∷ src) ≡ t
    → is_plain (c ∷ src) ≡ not t
is_plain_lem c src t start e = guarded (id_start c) (any (λ d. not (id_body d)) (c ∷ src)) t start e

Quoted-below :
    (mem m : Memory) (base dstlen : ℕ) (text : List ℕ) (r : Bool × Memory)
    → ((a : ℕ) → a < base → m a ≡ mem a)
    → Quoted m base dstlen text r
    → Quoted mem base dstlen text r
Quoted-below mem m base dstlen text (ok, mem') same (e, holds, kept) =
    (e, holds, λ a lt. kept a lt ∙ same a lt)

-- A text that does not fit unquoted.
pub cut_plain :
    (base dst dstlen : ℕ) (src pre : List ℕ) (c : ℕ) (rest : List ℕ)
    → src ≡ pre ++ c ∷ rest
    → dst ≡ base + length (double (λ c. false) pre)
    → base + dstlen - 1 ≤ dst
    → dstlen ≤ length src
cut_plain base dst dstlen src pre c rest parts moved full =
    omega (arith, ap length parts, length-append pre (c ∷ rest), ap length (double_none pre))

too_long_for_both :
    (src : List ℕ) (dstlen : ℕ)
    → dstlen ≤ length src
    → (leb (length src + 1) dstlen ≡ false) × (leb (length (quoted src) + 1) dstlen ≡ false)
too_long_for_both src dstlen h =
    let size = length-between is_double_quote 34 (34 ∷ []) src in
    let grows = length-double is_double_quote src in
    (
      too_big (length src + 1) dstlen (omega arith),
      too_big (length (quoted src) + 1) dstlen (omega arith),
    )

update_self : (m : Memory) (d v : ℕ) → update m d v d ≡ v
update_self m d v = ground arith

stays_inside :
    (base dst dstlen : ℕ) (pre : List ℕ)
    → 1 ≤ dstlen
    → Ends (base + dstlen - 1) (λ c. false) base pre dst
    → dst < base + dstlen
stays_inside base dst dstlen pre l (inl h) = omega arith
stays_inside base dst dstlen pre l (inr (inl h)) = omega arith
stays_inside base dst dstlen pre l (inr (inr (h, last))) =
    absurd (true_not_false (sym last ∙ is_last_none pre))

module _ (pg_is_reserved_word : List ℕ → Bool) where
  -- A lower-case word that is not reserved stays as it is, any other source is quoted.
  abbrev pub ident_text : List ℕ → List ℕ
  ident_text src = if is_plain src && not (pg_is_reserved_word src) then src else quoted src

  ident-quoted :
      (src : List ℕ)
      → (is_plain src ≡ false) ⊎ (pg_is_reserved_word src ≡ true)
      → quoted src ≡ ident_text src
  ident-quoted src (inl e) = rw e refl
  ident-quoted src (inr e) = elim (Bool-cases (is_plain src)) [
    | inl f ↦ rw (f, e) refl
    | inr f ↦ rw f refl
  ]

  ident-plain :
      (src : List ℕ) → is_plain src ≡ true → pg_is_reserved_word src ≡ false → src ≡ ident_text src
  ident-plain src e f = rw (e, f) refl

  -- What the quoting part gives for the text.
  ident_needs_quoting :
      (mem m : Memory) (base : ℕ) (src : List ℕ) (dstlen : ℕ)
      → overruns src dstlen ≡ false
      → ((a : ℕ) → a < base → m a ≡ mem a)
      → (is_plain src ≡ false) ⊎ (pg_is_reserved_word src ≡ true)
      → Returns (Quoted mem base dstlen (ident_text src)) (needs_quoting m base src dstlen)
  ident_needs_quoting mem m base src dstlen fine same why =
      subst (λ text. Returns (Quoted mem base dstlen text) (needs_quoting m base src dstlen))
        (ident-quoted src why)
        (Returns-map (needs_quoting_lem m base src dstlen fine)
          λ r q. Quoted-below mem m base dstlen (quoted src) r same q)

  ident_length :
      (src : List ℕ) (dstlen : ℕ)
      → dstlen ≤ length src
      → leb (length (ident_text src) + 1) dstlen ≡ false
  ident_length src dstlen h =
      let (a, b) = too_long_for_both src dstlen h in
      elim (Bool-cases (is_plain src && not (pg_is_reserved_word src))) [
        | inl e ↦ rw e a
        | inr e ↦ rw e b
      ]

  plain_end_lem :
      (mem : Memory) (base : ℕ) (c : ℕ) (src : List ℕ) (dstlen : ℕ) (r : LoopEnd)
      → 1 ≤ dstlen
      → id_start c ≡ true
      → any (λ d. d == 0) (c ∷ src) ≡ false
      → overruns (c ∷ src) dstlen ≡ false
      → Copied (base + dstlen - 1) (λ d. not (id_body d)) (λ d. false) (c ∷ src) base mem r
      → Returns
          (Quoted mem base dstlen (ident_text (c ∷ src)))
          (plain_end pg_is_reserved_word base (c ∷ src) dstlen r)
  unfolding plain_end
  plain_end_lem mem base c src dstlen (jumped m) l start nz fine (jump, kept) =
      ident_needs_quoting mem m base (c ∷ src) dstlen fine kept
        (inl (is_plain_lem c src true start jump))
  plain_end_lem mem base c src dstlen (ran (d ∷ rest) dst m) l start nz fine
        (pre, parts, q, moved, held, kept, inl bare, room) =
      absurd (omega (arith, ap length bare))
  plain_end_lem mem base c src dstlen (ran (d ∷ rest) dst m) l start nz fine
        (pre, parts, q, moved, held, kept, inr full, room) =
      (
        (false, m),
        refl,
        (
          sym (
              ident_length (c ∷ src) dstlen
                (cut_plain base dst dstlen (c ∷ src) pre d rest parts moved full)),
          (λ bad. absurd (true_not_false (sym bad))),
          kept,
        ),
      )
  plain_end_lem mem base c src dstlen (ran [] dst m) l start nz fine
        (pre, parts, q, moved, held, kept, full, room) =
      let whole : c ∷ src ≡ pre = parts ∙ append-nil pre in
      let size : dst ≡ base + length (c ∷ src) =
        omega (arith, moved, ap length whole, ap length (double_none pre)) in
      let inside : dst < base + dstlen = stays_inside base dst dstlen pre l room in
      let body : any (λ d. not (id_body d)) (c ∷ src) ≡ false =
        ap (any (λ d. not (id_body d))) whole ∙ q in
      let m' = update m dst 0 in
      let held' : Holds m base (c ∷ src) =
        subst (Holds m base) (double_none pre ∙ sym whole) held in
      let text : IsText m' base (c ∷ src) = (
        store-Holds m dst 0 base (c ∷ src) (omega arith) held',
        subst (λ k. m' k ≡ 0) size (update_self m dst 0),
      ) in
      let below = λ (a : ℕ) (lt : a < base). update_other m dst 0 a (omega arith) ∙ kept a lt in
      rw
        (
          store_lem (base + dstlen) m dst 0 inside,
          text_at_lem dstlen m' base (c ∷ src) nz (omega arith) text,
        )
        (let chosen = λ (t : Bool).
            Returns (Quoted mem base dstlen (ident_text (c ∷ src)))
              (if t then needs_quoting m' base (c ∷ src) dstlen else some (true, m')) in
          elim (Bool-cases (pg_is_reserved_word (c ∷ src))) [
            | inl e ↦
                subst chosen (sym e)
                  (ident_needs_quoting mem m' base (c ∷ src) dstlen fine below (inr e))
            | inr e ↦ subst chosen (sym e) (
              (true, m'),
              refl,
              subst (λ t. Quoted mem base dstlen t (true, m'))
                  (ident-plain (c ∷ src) (is_plain_lem c src false start body) e)
                  (fits (length (c ∷ src) + 1) dstlen (omega arith), (λ _. text), below),
            )
          ])

  -- For a C string and a destination in which the quoted form, closed by two double quotes, does not end exactly at the
  -- limit: pg_quote_ident never stores outside the destination. It returns true exactly if the identifier and its
  -- NUL fit, and then the destination holds them: the source itself if it is a lower-case word that is not reserved, and
  -- otherwise the source between double quotes, with its double quotes doubled. No byte before the destination changes.
  pub pg_quote_ident_lem :
      (mem : Memory) (base : ℕ) (src : List ℕ) (dstlen : ℕ)
      → any (λ d. d == 0) src ≡ false
      → overruns src dstlen ≡ false
      → Returns
          (Quoted mem base dstlen (ident_text src))
          (pg_quote_ident pg_is_reserved_word mem base src dstlen)
  unfolding pg_quote_ident
  pg_quote_ident_lem mem base [] dstlen nz fine = elim (Bool-cases (ltb dstlen 1)) [
    | inl e ↦ rw e (
      (false, mem),
      refl,
      (ground (arith, e), (λ bad. absurd (true_not_false (sym bad))), λ a lt. refl),
    )
    | inr e ↦ rw e (ident_needs_quoting mem mem base [] dstlen fine (λ a lt. refl) (inl refl))
  ]
  pg_quote_ident_lem mem base (c ∷ src) dstlen nz fine = elim (Bool-cases (ltb dstlen 1)) [
    | inl e ↦ rw e (
      (false, mem),
      refl,
      (
        sym (ident_length (c ∷ src) dstlen (ground arith)),
        (λ bad. absurd (true_not_false (sym bad))),
        λ a lt. refl,
      ),
    )
    | inr e ↦
        let stops = λ (d : ℕ). not (id_body d) in
        let chosen = λ (t : Bool). Returns (Quoted mem base dstlen (ident_text (c ∷ src))) (
          if t
          then (copy_loop (base + dstlen) (base + dstlen - 1) stops (λ d. false) (c ∷ src) base mem
              >>= plain_end pg_is_reserved_word base (c ∷ src) dstlen)
          else needs_quoting mem base (c ∷ src) dstlen) in
        rw e (elim (Bool-cases (id_start c)) [
          | inl f ↦ subst chosen (sym f) (
              Returns-bind
                (copy_loop_lem (base + dstlen) (base + dstlen - 1) stops (λ d. false) (c ∷ src) base
                  mem (ground arith))
                λ r post. plain_end_lem mem base c src dstlen r (ground arith) f nz fine post)
          | inr f ↦ subst chosen (sym f) (
              ident_needs_quoting mem mem base (c ∷ src) dstlen fine (λ a lt. refl)
                (inl (unguarded (id_start c) (any stops (c ∷ src)) f)))
        ])
  ]
