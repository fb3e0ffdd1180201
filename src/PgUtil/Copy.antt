-- ===== src/PgUtil/Copy.antt =====
-- usual/pgutil.c: what the copying loops leave.
use libusual_archive.Base.{
  ℕ, ◌+◌, ◌<◌, ◌≤◌, ◌≡◌, refl, sym, ap, ◌∙◌, subst, Bool, true, false, some, List, [], ◌∷◌, ◌++◌,
  arith, inl, inr, ◌⊎◌, ltb, leb, update, length, length-append, Bool-cases, Returns, lt→ltb,
}
use libusual_archive.PgUtil.{Memory, put_byte, LoopEnd, jumped, ran, copy_loop}
use libusual_archive.PgUtil.Text.{any, double, is_last, Holds, same-Holds, append-Holds, double-nil}

pub store_lem :
    (limit : ℕ) (mem : Memory) (a v : ℕ)
    → a < limit
    → put_byte limit mem a v ≡ some (update mem a v)
store_lem limit mem a v lt = rw (lt→ltb a limit lt) refl

-- Where the loop stops: only a last byte that is doubled takes it past `end`.
abbrev pub Ends : ℕ → (ℕ → Bool) → ℕ → List ℕ → ℕ → Type 0
Ends end doubled dst pre dst' =
    (dst' ≤ end) ⊎ (dst' ≡ dst) ⊎ ((dst' ≡ end + 1) × (is_last doubled pre ≡ true))

-- What is read before the loop is left: `pre`.
abbrev pub Copied : ℕ → (ℕ → Bool) → (ℕ → Bool) → List ℕ → ℕ → Memory → LoopEnd → Type 0
Copied end stops doubled src dst mem (jumped mem') =
    (any stops src ≡ true) × ((a : ℕ) → a < dst → mem' a ≡ mem a)
Copied end stops doubled src dst mem (ran rest dst' mem') =
    (pre : List ℕ) × (src ≡ pre ++ rest)
    × (any stops pre ≡ false)
    × (dst' ≡ dst + length (double doubled pre))
    × Holds mem' dst (double doubled pre)
    × ((a : ℕ) → a < dst → mem' a ≡ mem a)
    × ((rest ≡ []) ⊎ (end ≤ dst'))
    × Ends end doubled dst pre dst'

is_last-cons :
    (p : ℕ → Bool) (x : ℕ) (xs : List ℕ) → is_last p xs ≡ true → is_last p (x ∷ xs) ≡ true
is_last-cons p x [] h = absurd (ground arith)
is_last-cons p x (y ∷ ys) h = h

Ends-more :
    (end : ℕ) (doubled : ℕ → Bool) (c dst n : ℕ) (pre : List ℕ) (dst' : ℕ)
    → dst < end
    → (n ≡ 1) ⊎ ((n ≡ 2) × (doubled c ≡ true))
    → dst' ≡ dst + n + length (double doubled pre)
    → Ends end doubled (dst + n) pre dst'
    → Ends end doubled dst (c ∷ pre) dst'
Ends-more end doubled c dst n pre dst' lt size moved (inl h) = inl h
Ends-more end doubled c dst n pre dst' lt size moved (inr (inr (h, g))) =
    inr (inr (h, is_last-cons doubled c pre g))
Ends-more end doubled c dst n pre dst' lt (inl one) moved (inr (inl h)) = inl (omega arith)
Ends-more end doubled c dst n pre dst' lt (inr (two, g)) moved (inr (inl h)) =
    elim (Bool-cases (leb dst' end)) [
      | inl e ↦ inl (ground arith)
      | inr e ↦ inr (
          inr (
            ground arith,
            subst (λ xs. is_last doubled (c ∷ xs) ≡ true)
                (sym (double-nil doubled pre (omega arith))) g,
          ))
    ]

-- One round: the bytes `cs` are stored and the rest is copied.
Copied-more :
    (end : ℕ) (stops doubled : ℕ → Bool) (c : ℕ) (src : List ℕ) (dst : ℕ) (mem mem' : Memory)
    (cs : List ℕ)
    → stops c ≡ false
    → dst < end
    → ((xs : List ℕ) → double doubled (c ∷ xs) ≡ cs ++ double doubled xs)
    → (length cs ≡ 1) ⊎ ((length cs ≡ 2) × (doubled c ≡ true))
    → Holds mem' dst cs
    → ((a : ℕ) → a < dst → mem' a ≡ mem a)
    → (r : LoopEnd) → Copied end stops doubled src (dst + length cs) mem' r
    → Copied end stops doubled (c ∷ src) dst mem r
Copied-more end stops doubled c src dst mem mem' cs s lt d size stored same (jumped m)
      (jump, kept) =
    (rw s jump, λ a h. kept a (omega arith) ∙ same a h)
Copied-more end stops doubled c src dst mem mem' cs s lt d size stored same (ran rest dst' m)
      (pre, e, quiet, moved, held, kept, full, room) =
    (
      c ∷ pre,
      ap (λ xs. c ∷ xs) e,
      rw s quiet,
      omega (arith, moved, ap length (d pre), length-append cs (double doubled pre)),
      subst (Holds m dst) (sym (d pre)) (
          append-Holds m dst (dst + length cs) cs (double doubled pre) refl
            (same-Holds mem' m dst (dst + length cs) cs kept (omega arith) stored) held),
      (λ a h. kept a (omega arith) ∙ same a h),
      full,
      Ends-more end doubled c dst (length cs) pre dst' lt size moved room,
    )

two_more : (n : ℕ) → n + 1 + 1 ≡ n + 2
two_more n = omega arith

pub copy_loop_lem :
    (limit end : ℕ) (stops doubled : ℕ → Bool) (src : List ℕ) (dst : ℕ) (mem : Memory)
    → end < limit
    → Returns (Copied end stops doubled src dst mem) (copy_loop limit end stops doubled src dst mem)
unfolding copy_loop
copy_loop_lem limit end stops doubled [] dst mem lt = (
  ran [] dst mem,
  refl,
  ([], refl, refl, omega arith, tt, (λ a h. refl), inl refl, inr (inl refl)),
)
copy_loop_lem limit end stops doubled (c ∷ src) dst mem lt = elim (Bool-cases (ltb dst end)) [
  | inr e ↦ rw e (
    ran (c ∷ src) dst mem,
    refl,
    ([], refl, refl, omega arith, tt, (λ a h. refl), inr (ground arith), inr (inl refl)),
  )
  | inl e ↦ elim (Bool-cases (stops c)) [
    | inl f ↦ rw (e, f) (jumped mem, refl, (rw f refl, λ a h. refl))
    | inr f ↦ elim (Bool-cases (doubled c)) [
      | inl g ↦
          let m1 = update mem dst c in
          let m2 = update m1 (dst + 1) c in
          let (r, returned, post) = copy_loop_lem limit end stops doubled src (dst + 1 + 1) m2 lt in
          rw
            (
              e,
              f,
              g,
              store_lem limit mem dst c (ground arith),
              store_lem limit m1 (dst + 1) c (ground arith),
            )
            (
              r,
              returned,
              Copied-more end stops doubled c src dst mem m2 (c ∷ c ∷ []) f (ground arith)
                  (λ xs. rw g refl) (inr (refl, g)) (ground arith, (ground arith, tt))
                  (λ a h. ground arith) r
                  (subst (λ k. Copied end stops doubled src k m2 r) (two_more dst) post),
            )
      | inr g ↦
          let m1 = update mem dst c in
          let (r, returned, post) = copy_loop_lem limit end stops doubled src (dst + 1) m1 lt in
          rw (e, f, g, store_lem limit mem dst c (ground arith))
            (
              r,
              returned,
              Copied-more end stops doubled c src dst mem m1 (c ∷ []) f (ground arith)
                  (λ xs. rw g refl) (inl refl) (ground arith, tt) (λ a h. ground arith) r post,
            )
    ]
  ]
]
