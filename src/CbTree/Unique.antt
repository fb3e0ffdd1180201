-- ===== src/CbTree/Unique.antt =====
-- usual/cbtree.c: ascending keys are different keys.
use libusual_archive.Base.{
  ℕ, ◌≡◌, sym, ◌∙◌, subst, List, [], ◌∷◌, ◌++◌, inl, inr, OneOf, append-OneOf, refl,
}
use libusual_archive.CbTree.Critical.{SameBits}
use libusual_archive.CbTree.Walk.{IsBefore, IsAscending, before-itself}

module _ {A : Type 0} (key : A → List ℕ) where
  apart : (x y : A) → IsBefore (key x) (key y) → SameBits (key x) (key y) → ⊥
  apart x y before same = before-itself key (key x) (key y) before same

  -- Two objects of an ascending sequence whose keys have the same bits are one.
  pub ascending_distinct :
      (xs : List A) (x y : A)
      → IsAscending key xs
      → OneOf x xs
      → OneOf y xs
      → SameBits (key x) (key y)
      → x ≡ y
  ascending_distinct [] x y up h g same = absurd h
  ascending_distinct (z ∷ xs) x y (first, up) (inl e) (inl f) same = sym e ∙ f
  ascending_distinct (z ∷ xs) x y (first, up) (inl e) (inr g) same =
      absurd (apart z y (first y g) (subst (λ o. SameBits (key o) (key y)) (sym e) same))
  ascending_distinct (z ∷ xs) x y (first, up) (inr h) (inl f) same =
      absurd
        (apart z x (first x h) (subst (λ o. SameBits (key o) (key x)) (sym f) λ i. sym (same i)))
  ascending_distinct (z ∷ xs) x y (first, up) (inr h) (inr g) same =
      ascending_distinct xs x y up h g same

  -- Without one of the objects, no key with its bits is left.
  pub ascending_without :
      (xs : List A) (obj : A) (ys : List A) (x : A)
      → IsAscending key (xs ++ obj ∷ ys)
      → OneOf x (xs ++ ys)
      → SameBits (key x) (key obj)
      → ⊥
  ascending_without [] obj ys x (first, up) h same = apart obj x (first x h) λ i. sym (same i)
  ascending_without (z ∷ xs) obj ys x (first, up) (inl e) same =
      apart z obj (first obj (append-OneOf obj xs (obj ∷ ys) (inr (inl refl))))
        (subst (λ o. SameBits (key o) (key obj)) (sym e) same)
  ascending_without (z ∷ xs) obj ys x (first, up) (inr h) same =
      ascending_without xs obj ys x up h same
