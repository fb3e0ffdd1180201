-- ===== src/PgUtil/Close.antt =====
-- usual/pgutil.c: a quoted text that is closed, or that does not fit.
use libusual_archive.Base.{
  ℕ, ◌+◌, ◌-◌, ◌<◌, ◌≤◌, ◌≡◌, refl, ap, ◌∙◌, subst, Bool, true, false, List, [], ◌∷◌, ◌++◌, arith,
  ltb, leb, update, length, length-append,
}
use mathlib.Core.List.{append_assoc}
use libusual_archive.PgUtil.{Memory}
use libusual_archive.PgUtil.Text.{
  double, Holds, IsText, store-Holds, append-Holds, double-append, length-double,
}

pub too_big : (n m : ℕ) → m < n → leb n m ≡ false
too_big n m h = ground arith

pub small : (n dstlen : ℕ) → 2 ≤ n → ltb dstlen 3 ≡ true → leb (n + 1) dstlen ≡ false
small n dstlen h e = ground arith

-- The call gives true exactly if the text and its NUL fit, and the destination holds them then.
abbrev pub Quoted : Memory → ℕ → ℕ → List ℕ → Bool × Memory → Type 0
Quoted mem base dstlen text (ok, mem') =
    (ok ≡ leb (length text + 1) dstlen)
    × (ok ≡ true → IsText mem' base text)
    × ((a : ℕ) → a < base → mem' a ≡ mem a)

-- The end of a text: its last byte and the NUL.
pub closed :
    (m : Memory) (a b q : ℕ) (xs : List ℕ)
    → b ≡ a + length xs
    → Holds m a xs
    → IsText (update (update m b q) (b + 1) 0) a (xs ++ q ∷ [])
closed m a b q xs e h =
    let m1 = update m b q in
    let m2 = update m1 (b + 1) 0 in
    let kept =
      store-Holds m1 (b + 1) 0 a xs (omega arith) (store-Holds m b q a xs (omega arith) h) in
    (
      append-Holds m2 a b xs (q ∷ []) e kept (ground arith, tt),
      ground (arith, length-append xs (q ∷ [])),
    )

kept_below :
    (m : Memory) (base a dst v : ℕ)
    → a < base
    → base ≤ dst
    → update (update m dst v) (dst + 1) 0 a ≡ m a
kept_below m base a dst v h le = ground arith

-- A text is some front, the source with bytes doubled, and the closing byte.
module _ (doubled : ℕ → Bool) (close : ℕ) where
  abbrev pub between : List ℕ → List ℕ → List ℕ
  between front src = front ++ (double doubled src ++ close ∷ [])

  pub length-between :
      (front src : List ℕ)
      → length (between front src) ≡ length front + length (double doubled src) + 1
  length-between front src =
      length-append front (double doubled src ++ close ∷ [])
      ∙ omega (arith, length-append (double doubled src) (close ∷ []))

  -- The loop stopped at the limit before the end of the source.
  pub too_long :
      (base dstlen : ℕ) (front pre : List ℕ) (c : ℕ) (rest : List ℕ)
      → 3 ≤ dstlen
      → base + dstlen - 2 ≤ base + length front + length (double doubled pre)
      → leb (length (between front (pre ++ c ∷ rest)) + 1) dstlen ≡ false
  too_long base dstlen front pre c rest l full =
      let size : length (double doubled (pre ++ c ∷ rest))
          ≡ length (double doubled pre) + length (double doubled (c ∷ rest)) =
        ap length (double-append doubled pre (c ∷ rest))
        ∙ length-append (double doubled pre) (double doubled (c ∷ rest)) in
      let tail = length-double doubled (c ∷ rest) in
      let whole = length-between front (pre ++ c ∷ rest) in
      too_big (length (between front (pre ++ c ∷ rest)) + 1) dstlen (omega arith)

  pub not_closed :
      (base dst dstlen : ℕ) (front src : List ℕ)
      → dst ≡ base + length front + length (double doubled src)
      → base + dstlen - 2 < dst
      → leb (length (between front src) + 1) dstlen ≡ false
  not_closed base dst dstlen front src e lt =
      let whole = length-between front src in
      too_big (length (between front src) + 1) dstlen (omega arith)

  pub closes :
      (mem m : Memory) (base dst dstlen : ℕ) (front src : List ℕ)
      → 3 ≤ dstlen
      → dst ≡ base + length front + length (double doubled src)
      → Holds m base front
      → Holds m (base + length front) (double doubled src)
      → ((a : ℕ) → a < base → m a ≡ mem a)
      → dst ≤ base + dstlen - 2
      → Quoted mem base dstlen (between front src) (true, update (update m dst close) (dst + 1) 0)
  closes mem m base dst dstlen front src l e h1 h2 same lt =
      let whole = length-between front src in
      let both = append-Holds m base (base + length front) front (double doubled src) refl h1 h2 in
      let text =
        closed m base dst close (front ++ double doubled src)
          (e ∙ omega (arith, length-append front (double doubled src))) both in
      (
        ground arith,
        (λ _.
            subst (IsText (update (update m dst close) (dst + 1) 0) base)
              (append_assoc front (double doubled src) (close ∷ [])) text),
        λ a h. kept_below m base a dst close h (omega arith) ∙ same a h,
      )
