-- ===== src/AaTree/Erase.antt =====
-- usual/aatree.c: removal from the sorted list that a tree stands for.
use libusual_archive.Base.{
  ℕ, suc, ◌<◌, ◌≡◌, refl, ap, none, some, List, [], ◌∷◌, ◌++◌, ◌==◌, if◌then◌else◌, arith,
  Bool-cases, length, ◌⊎◌, inl, inr,
}
use libusual_archive.AaTree.Content.{Below, Above, Sorted, remove_from, find_in}

module _ {V : Type 0} (rank : V → ℕ) where
  pub remove_from-right :
      (r : ℕ) (xs : List V) (v : V) (ys : List V)
      → Below rank (rank v) xs
      → rank v < r
      → remove_from rank r (xs ++ v ∷ ys) ≡ xs ++ v ∷ remove_from rank r ys
  remove_from-right r [] v ys h lt = ground arith
  remove_from-right r (x ∷ xs) v ys (h, hs) lt = elim (Bool-cases (r == rank x)) [
    | inl e ↦ absurd (ground arith)
    | inr e ↦ rw e (ap (λ zs. x ∷ zs) (remove_from-right r xs v ys hs lt))
  ]

  remove_from-Above : (r a : ℕ) (xs : List V) → r < a → Above rank a xs → remove_from rank r xs ≡ xs
  remove_from-Above r a [] lt h = refl
  remove_from-Above r a (x ∷ xs) lt (h, hs) = elim (Bool-cases (r == rank x)) [
    | inl e ↦ absurd (ground arith)
    | inr e ↦ rw e (ap (λ zs. x ∷ zs) (remove_from-Above r a xs lt hs))
  ]

  pub remove_from-left :
      (r : ℕ) (xs : List V) (v : V) (ys : List V)
      → Above rank (rank v) ys
      → r < rank v
      → remove_from rank r (xs ++ v ∷ ys) ≡ remove_from rank r xs ++ v ∷ ys
  remove_from-left r [] v ys h lt = elim (Bool-cases (r == rank v)) [
    | inl e ↦ absurd (ground arith)
    | inr e ↦ rw e (ap (λ zs. v ∷ zs) (remove_from-Above r (rank v) ys lt h))
  ]
  remove_from-left r (x ∷ xs) v ys h lt = elim (Bool-cases (r == rank x)) [
    | inl e ↦ rw e refl
    | inr e ↦ rw e (ap (λ zs. x ∷ zs) (remove_from-left r xs v ys h lt))
  ]

  pub remove_from-present :
      (r : ℕ) (xs : List V) (v : V) (ys : List V)
      → Below rank (rank v) xs
      → r ≡ rank v
      → remove_from rank r (xs ++ v ∷ ys) ≡ xs ++ ys
  remove_from-present r [] v ys h e = ground arith
  remove_from-present r (x ∷ xs) v ys (h, hs) e = elim (Bool-cases (r == rank x)) [
    | inl f ↦ absurd (ground arith)
    | inr f ↦ rw f (ap (λ zs. x ∷ zs) (remove_from-present r xs v ys hs e))
  ]

  Above-remove_from :
      (a r : ℕ) (xs : List V) → Above rank a xs → Above rank a (remove_from rank r xs)
  Above-remove_from a r [] h = tt
  Above-remove_from a r (x ∷ xs) (h, hs) = elim (Bool-cases (r == rank x)) [
    | inl e ↦ rw e hs
    | inr e ↦ rw e (h, Above-remove_from a r xs hs)
  ]

  pub Sorted-remove_from :
      (r : ℕ) (xs : List V) → Sorted rank xs → Sorted rank (remove_from rank r xs)
  Sorted-remove_from r [] h = tt
  Sorted-remove_from r (x ∷ xs) (h, hs) = elim (Bool-cases (r == rank x)) [
    | inl e ↦ rw e hs
    | inr e ↦ rw e (Above-remove_from (rank x) r xs h, Sorted-remove_from r xs hs)
  ]

  -- The length goes down by one if the rank is there.
  pub length-remove_from :
      (r : ℕ) (xs : List V)
      → (find_in rank r xs ≡ none) × (length (remove_from rank r xs) ≡ length xs)
        ⊎ ((x : V) × (find_in rank r xs ≡ some x)
            × (suc (length (remove_from rank r xs)) ≡ length xs))
  length-remove_from r [] = inl (refl, refl)
  length-remove_from r (x ∷ xs) = elim (Bool-cases (r == rank x)) [
    | inl e ↦ rw e (inr (x, refl, refl))
    | inr e ↦ rw e (elim (length-remove_from r xs) [
      | inl (p, q) ↦ inl (p, ap suc q)
      | inr (y, p, q) ↦ inr (y, p, ap suc q)
    ])
  ]

  find_in-same :
      (q : ℕ) (x : V) (xs : List V) → q ≡ rank x → Above rank (rank x) xs → find_in rank q xs ≡ none
  find_in-same q x [] e h = refl
  find_in-same q x (y ∷ ys) e (h, hs) = elim (Bool-cases (q == rank y)) [
    | inl f ↦ absurd (ground arith)
    | inr f ↦ rw f (find_in-same q x ys e hs)
  ]

  pub find_in-remove_from :
      (q r : ℕ) (xs : List V)
      → Sorted rank xs
      → find_in rank q (remove_from rank r xs) ≡ (if q == r then none else find_in rank q xs)
  find_in-remove_from q r [] h = elim (Bool-cases (q == r)) [
    | inl f ↦ rw f refl
    | inr f ↦ rw f refl
  ]
  find_in-remove_from q r (x ∷ xs) (h, hs) =
      let p = find_in-remove_from q r xs hs in
      elim (Bool-cases (r == rank x)) [
        | inl e ↦ elim (Bool-cases (q == r)) [
          | inl f ↦ elim (Bool-cases (q == rank x)) [
            | inl g ↦ rw (e, f) (find_in-same q x xs (ground arith) h)
            | inr g ↦ absurd (ground arith)
          ]
          | inr f ↦ elim (Bool-cases (q == rank x)) [
            | inl g ↦ absurd (ground arith)
            | inr g ↦ rw (e, f, g) refl
          ]
        ]
        | inr e ↦ elim (Bool-cases (q == rank x)) [
          | inl g ↦ elim (Bool-cases (q == r)) [
            | inl f ↦ absurd (ground arith)
            | inr f ↦ rw (e, f, g) refl
          ]
          | inr g ↦ rw (e, g) p
        ]
      ]
