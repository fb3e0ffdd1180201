-- ===== src/Base/Sequence.antt =====
-- Sequences of objects: which are in them, and where one more is put.
use Prim.Native.Nat.{ℕ}
use mathlib.Core.Path.{◌≡◌, sym, ap, ◌∙◌, subst}
use mathlib.Core.Logic.{◌⊎◌, ◌≢◌, inl, inr}
use mathlib.Core.List.{List, [], ◌∷◌, ◌++◌, append_assoc}

-- An element at one of the places.
abbrev pub OneOf : {A : Type 0} → A → List A → Type 0
OneOf x [] = ⊥
OneOf x (y ∷ ys) = (y ≡ x) ⊎ OneOf x ys

pub append-OneOf :
    {A : Type 0} (x : A) (xs ys : List A) → OneOf x xs ⊎ OneOf x ys → OneOf x (xs ++ ys)
append-OneOf x [] ys (inl h) = absurd h
append-OneOf x [] ys (inr h) = h
append-OneOf x (y ∷ xs) ys (inl (inl e)) = inl e
append-OneOf x (y ∷ xs) ys (inl (inr h)) = inr (append-OneOf x xs ys (inl h))
append-OneOf x (y ∷ xs) ys (inr h) = inr (append-OneOf x xs ys (inr h))

pub OneOf-append :
    {A : Type 0} (x : A) (xs ys : List A) → OneOf x (xs ++ ys) → OneOf x xs ⊎ OneOf x ys
OneOf-append x [] ys h = inr h
OneOf-append x (y ∷ xs) ys (inl e) = inl (inl e)
OneOf-append x (y ∷ xs) ys (inr h) = elim (OneOf-append x xs ys h) [
  | inl g ↦ inl (inr g)
  | inr g ↦ inr g
]

-- One more object somewhere in the sequence.
abbrev pub IsInserted : {A : Type 0} → A → List A → List A → Type 0
IsInserted {A} obj before after =
    (xs : List A) × (ys : List A) × (before ≡ xs ++ ys) × (after ≡ xs ++ obj ∷ ys)

pub IsInserted-left :
    {A : Type 0} (obj : A) (before after more : List A)
    → IsInserted obj before after
    → IsInserted obj (before ++ more) (after ++ more)
IsInserted-left obj before after more (xs, ys, e, f) = (
  xs,
  ys ++ more,
  ap (λ t. t ++ more) e ∙ append_assoc xs ys more,
  ap (λ t. t ++ more) f ∙ append_assoc xs (obj ∷ ys) more,
)

pub IsInserted-right :
    {A : Type 0} (obj : A) (before after more : List A)
    → IsInserted obj before after
    → IsInserted obj (more ++ before) (more ++ after)
IsInserted-right obj before after more (xs, ys, e, f) = (
  more ++ xs,
  ys,
  ap (λ t. more ++ t) e ∙ sym (append_assoc more xs ys),
  ap (λ t. more ++ t) f ∙ sym (append_assoc more xs (obj ∷ ys)),
)

pub OneOf-inserted :
    {A : Type 0} (obj x : A) (xs ys : List A)
    → IsInserted obj xs ys
    → OneOf x ys
    → (obj ≡ x) ⊎ OneOf x xs
OneOf-inserted obj x xs ys (front, back, e, f) h =
    elim (OneOf-append x front (obj ∷ back) (subst (OneOf x) f h)) [
      | inl g ↦ inr (subst (OneOf x) (sym e) (append-OneOf x front back (inl g)))
      | inr (inl g) ↦ inl g
      | inr (inr g) ↦ inr (subst (OneOf x) (sym e) (append-OneOf x front back (inr g)))
    ]

pub inserted-OneOf :
    {A : Type 0} (obj x : A) (xs ys : List A)
    → IsInserted obj xs ys
    → (obj ≡ x) ⊎ OneOf x xs
    → OneOf x ys
inserted-OneOf obj x xs ys (front, back, e, f) (inl g) =
    subst (OneOf x) (sym f) (append-OneOf x front (obj ∷ back) (inr (inl g)))
inserted-OneOf obj x xs ys (front, back, e, f) (inr h) =
    subst (OneOf x) (sym f) (elim (OneOf-append x front back (subst (OneOf x) e h)) [
      | inl g ↦ append-OneOf x front (obj ∷ back) (inl g)
      | inr g ↦ append-OneOf x front (obj ∷ back) (inr (inr g))
    ])

-- No two elements of a sequence have the same number.
abbrev pub IsSeparate : {A : Type 0} → (A → ℕ) → List A → Type 0
IsSeparate {A} number xs = (x y : A) → OneOf x xs → OneOf y xs → number x ≡ number y → x ≡ y

pub IsSeparate-inserted :
    {A : Type 0} (number : A → ℕ) (s : A) (xs ys : List A)
    → IsSeparate number xs
    → ((x : A) → OneOf x xs → number x ≢ number s)
    → IsInserted s xs ys
    → IsSeparate number ys
IsSeparate-inserted number s xs ys apart fresh put x y k l e =
    elim (OneOf-inserted s x xs ys put k) [
      | inl f ↦ elim (OneOf-inserted s y xs ys put l) [
        | inl g ↦ sym f ∙ g
        | inr n ↦ absurd (fresh y n (sym e ∙ sym (ap number f)))
      ]
      | inr m ↦ elim (OneOf-inserted s y xs ys put l) [
        | inl g ↦ absurd (fresh x m (e ∙ sym (ap number g)))
        | inr n ↦ apart x y m n e
      ]
    ]
