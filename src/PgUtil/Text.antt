-- ===== src/PgUtil/Text.antt =====
-- usual/pgutil.c: texts in memory, and texts with some of their bytes doubled.
use libusual_archive.Base.{
  ℕ, zero, suc, ◌+◌, ◌<◌, ◌≤◌, ◌≡◌, ◌≢◌, refl, ap, ◌∙◌, subst, Bool, true, false, ◌||◌, List, [],
  ◌∷◌, ◌++◌, arith, inl, inr, ◌==◌, if◌then◌else◌, update, length, Bool-cases,
}
use libusual_archive.PgUtil.{Memory, text_at}

-- Some byte passes the test.
abbrev pub any : (ℕ → Bool) → List ℕ → Bool
any p [] = false
any p (x ∷ xs) = p x || any p xs

abbrev pub double : (ℕ → Bool) → List ℕ → List ℕ
double p [] = []
double p (x ∷ xs) = if p x then x ∷ x ∷ double p xs else x ∷ double p xs

-- The last byte passes the test.
abbrev pub is_last : (ℕ → Bool) → List ℕ → Bool
is_last p [] = false
is_last p (x ∷ []) = p x
is_last p (x ∷ y ∷ xs) = is_last p (y ∷ xs)

-- The memory has these bytes from the address on.
abbrev pub Holds : Memory → ℕ → List ℕ → Type 0
Holds mem a [] = Unit
Holds mem a (x ∷ xs) = (mem a ≡ x) × Holds mem (a + 1) xs

abbrev pub IsText : Memory → ℕ → List ℕ → Type 0
IsText mem a xs = Holds mem a xs × (mem (a + length xs) ≡ 0)

pub update_other : (mem : Memory) (d v a : ℕ) → a ≢ d → update mem d v a ≡ mem a
update_other mem d v a ne = ground arith

pub store-Holds :
    (mem : Memory) (d v a : ℕ) (xs : List ℕ)
    → a + length xs ≤ d
    → Holds mem a xs
    → Holds (update mem d v) a xs
store-Holds mem d v a [] lt h = tt
store-Holds mem d v a (x ∷ xs) lt (h, hs) =
    (ground arith, store-Holds mem d v (a + 1) xs (omega arith) hs)

pub same-Holds :
    (m m' : Memory) (a b : ℕ) (xs : List ℕ)
    → ((c : ℕ) → c < b → m' c ≡ m c)
    → a + length xs ≤ b
    → Holds m a xs
    → Holds m' a xs
same-Holds m m' a b [] same lt h = tt
same-Holds m m' a b (x ∷ xs) same lt (h, hs) =
    (same a (omega arith) ∙ h, same-Holds m m' (a + 1) b xs same (omega arith) hs)

pub append-Holds :
    (m : Memory) (a b : ℕ) (xs ys : List ℕ)
    → b ≡ a + length xs
    → Holds m a xs
    → Holds m b ys
    → Holds m a (xs ++ ys)
append-Holds m a b [] ys e h g = subst (λ k. Holds m k ys) (e ∙ omega arith) g
append-Holds m a b (x ∷ xs) ys e (h, hs) g = (h, append-Holds m (a + 1) b xs ys (omega arith) hs g)

shift : (a n : ℕ) → a + suc n ≡ a + 1 + n
shift a n = omega arith

pub none_of : (a b : Bool) → (a || b) ≡ false → (a ≡ false) × (b ≡ false)
none_of true b h = absurd (ground arith)
none_of false b h = (refl, h)

pub text_at_lem :
    (size : ℕ) (m : Memory) (a : ℕ) (xs : List ℕ)
    → any (λ c. c == 0) xs ≡ false
    → length xs < size
    → IsText m a xs
    → text_at size m a ≡ xs
text_at_lem zero m a xs nz lt h = absurd (omega arith)
text_at_lem (suc size) m a [] nz lt (h, e) = ground arith
text_at_lem (suc size) m a (x ∷ xs) nz lt ((h, hs), e) = elim (Bool-cases (x == 0)) [
  | inl f ↦ absurd (ground (arith, f, (none_of (x == 0) (any (λ c. c == 0) xs) nz).0))
  | inr f ↦
      rw (h, f)
        (ap (λ ys. x ∷ ys)
          (text_at_lem size m (a + 1) xs ((none_of (x == 0) (any (λ c. c == 0) xs) nz).1)
            (omega arith) (hs, subst (λ k. m k ≡ 0) (shift a (length xs)) e)))
]

pub double-append :
    (p : ℕ → Bool) (xs ys : List ℕ) → double p (xs ++ ys) ≡ double p xs ++ double p ys
double-append p [] ys = refl
double-append p (x ∷ xs) ys = elim (Bool-cases (p x)) [
  | inl e ↦ rw e (ap (λ zs. x ∷ x ∷ zs) (double-append p xs ys))
  | inr e ↦ rw e (ap (λ zs. x ∷ zs) (double-append p xs ys))
]

pub length-double : (p : ℕ → Bool) (xs : List ℕ) → length xs ≤ length (double p xs)
length-double p [] = omega arith
length-double p (x ∷ xs) = ground (arith, length-double p xs)

pub any-append : (p : ℕ → Bool) (xs ys : List ℕ) → any p (xs ++ ys) ≡ (any p xs || any p ys)
any-append p [] ys = refl
any-append p (x ∷ xs) ys = elim (Bool-cases (p x)) [
  | inl e ↦ rw e refl
  | inr e ↦ rw e (any-append p xs ys)
]

pub double-nil : (p : ℕ → Bool) (xs : List ℕ) → length (double p xs) ≡ 0 → xs ≡ []
double-nil p [] e = refl
double-nil p (x ∷ xs) e = absurd (omega (arith, length-double p (x ∷ xs)))

pub any_none : (src : List ℕ) → any (λ c. false) src ≡ false
any_none [] = refl
any_none (x ∷ src) = any_none src

pub double_none : (src : List ℕ) → double (λ c. false) src ≡ src
double_none [] = refl
double_none (x ∷ src) = ap (λ xs. x ∷ xs) (double_none src)

pub is_last_none : (src : List ℕ) → is_last (λ c. false) src ≡ false
is_last_none [] = refl
is_last_none (x ∷ []) = refl
is_last_none (x ∷ y ∷ src) = is_last_none (y ∷ src)

pub is_last-append :
    (p : ℕ → Bool) (xs : List ℕ) (y : ℕ) (ys : List ℕ)
    → is_last p (xs ++ y ∷ ys) ≡ is_last p (y ∷ ys)
is_last-append p [] y ys = refl
is_last-append p (x ∷ []) y ys = refl
is_last-append p (x ∷ z ∷ xs) y ys = is_last-append p (z ∷ xs) y ys

-- A last byte that is doubled counts twice.
pub double-is_last :
    (p : ℕ → Bool) (xs : List ℕ) → is_last p xs ≡ true → length xs < length (double p xs)
double-is_last p [] h = absurd (ground arith)
double-is_last p (x ∷ []) h = rw h (omega arith)
double-is_last p (x ∷ y ∷ xs) h = ground (arith, double-is_last p (y ∷ xs) h)

pub any-is_last :
    (p q : ℕ → Bool) (xs : List ℕ)
    → ((c : ℕ) → p c ≡ true → q c ≡ true)
    → is_last p xs ≡ true
    → any q xs ≡ true
any-is_last p q [] imp h = absurd (ground arith)
any-is_last p q (x ∷ []) imp h = rw (imp x h) refl
any-is_last p q (x ∷ y ∷ xs) imp h = elim (Bool-cases (q x)) [
  | inl e ↦ rw e refl
  | inr e ↦ let more : any q (y ∷ xs) ≡ true = any-is_last p q (y ∷ xs) imp h in rw e more
]
