-- ===== src/StrPool/Held.antt =====
-- usual/strpool.c: the references that the users of a pool hold, and how many of them stand for one string.
use libusual_archive.Base.{
  ℕ, ◌+◌, ◌<◌, ◌≤◌, ◌≡◌, ◌≢◌, refl, sym, ap, ◌∙◌, subst, List, [], ◌∷◌, ◌++◌, arith, inl, inr,
  Bool-cases, ◌==◌, if◌then◌else◌, ==_iff, OneOf, IsInserted, length, length-append,
}
use libusual_archive.StrPool.{PStr}

abbrev pub held : ℕ → List PStr → ℕ
held address [] = 0
held address (s ∷ refs) =
    let rest = held address refs in if s.address == address then 1 + rest else rest

pub held-append :
    (address : ℕ) (refs more : List PStr)
    → held address (refs ++ more) ≡ held address refs + held address more
held-append address [] more = omega arith
held-append address (s ∷ refs) more = elim (Bool-cases (s.address == address)) [
  | inl e ↦ rw (e, held-append address refs more) (omega arith)
  | inr e ↦ rw e (held-append address refs more)
]

-- One more reference counts for its own string only.
pub held_one : (s : PStr) (refs : List PStr) → held s.address (s ∷ refs) ≡ 1 + held s.address refs
held_one s refs = rw ((==_iff s.address s.address).1 refl) refl

pub held_other :
    (s : PStr) (address : ℕ) (refs : List PStr)
    → s.address ≢ address
    → held address (s ∷ refs) ≡ held address refs
held_other s address refs ne = elim (Bool-cases (s.address == address)) [
  | inl e ↦ absurd (ne ((==_iff s.address address).0 e))
  | inr e ↦ rw e refl
]

pub held-inserted :
    (address : ℕ) (s : PStr) (refs more : List PStr)
    → IsInserted s refs more
    → held address more ≡ held address (s ∷ refs)
held-inserted address s refs more (xs, ys, e, f) =
    let swap : held address xs + held address (s ∷ ys) ≡ held address (s ∷ (xs ++ ys)) =
      elim (Bool-cases (s.address == address)) [
        | inl g ↦ rw (g, held-append address xs ys) (omega arith)
        | inr g ↦ rw g (sym (held-append address xs ys))
      ] in
    ap (held address) f
    ∙ held-append address xs (s ∷ ys)
    ∙ swap
    ∙ ap (λ t. held address (s ∷ t)) (sym e)

pub OneOf-held : (s : PStr) (refs : List PStr) → OneOf s refs → 0 < held s.address refs
OneOf-held s [] h = absurd h
OneOf-held s (r ∷ refs) (inl e) =
    subst (λ t. 0 < held t.address (r ∷ refs)) e (omega (arith, held_one r refs))
OneOf-held s (r ∷ refs) (inr h) = elim (Bool-cases (r.address == s.address)) [
  | inl e ↦ rw e (omega arith)
  | inr e ↦ rw e (OneOf-held s refs h)
]

pub held-length : (address : ℕ) (refs : List PStr) → held address refs ≤ length refs
held-length address [] = omega arith
held-length address (s ∷ refs) = elim (Bool-cases (s.address == address)) [
  | inl e ↦ rw e (omega (arith, held-length address refs))
  | inr e ↦ rw e (omega (arith, held-length address refs))
]

-- No reference stands for an address that none of them has.
pub held_none :
    (address : ℕ) (refs : List PStr)
    → ((s : PStr) → OneOf s refs → s.address ≢ address)
    → held address refs ≡ 0
held_none address [] h = refl
held_none address (s ∷ refs) h =
    held_other s address refs (h s (inl refl)) ∙ held_none address refs λ r m. h r (inr m)

pub length-inserted :
    {A : Type 0} (x : A) (xs ys : List A) → IsInserted x xs ys → length ys ≡ length xs + 1
length-inserted x xs ys (front, back, e, f) =
    ap length f
    ∙ length-append front (x ∷ back)
    ∙ omega arith
    ∙ sym (ap (λ n. n + 1) (ap length e ∙ length-append front back))
