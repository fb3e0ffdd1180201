-- ===== src/AaTree/Content.antt =====
-- usual/aatree.c: a sorted list as the content of a tree, with insertion, removal and search on it.
use libusual_archive.Base.{
  ℕ, ◌<◌, ◌≡◌, refl, ap, Option, none, some, List, [], ◌∷◌, ◌++◌, ltb, ◌==◌, if◌then◌else◌, arith,
  Bool-cases, inl, inr,
}
use libusual_archive.AaTree.{Sign, negative, equal, positive}

-- What `node_cmp(value, node)` answers when values and nodes have ranks.
abbrev pub sign_of : ℕ → ℕ → Sign
sign_of a b = if ltb a b then negative else if a == b then equal else positive

abbrev pub get_or {ℓ} : {A : Type ℓ} → Option A → A → A
get_or none d = d
get_or (some a) d = a

module _ {V : Type 0} (rank : V → ℕ) where
  abbrev pub Below : ℕ → List V → Type 0
  Below r [] = Unit
  Below r (x ∷ xs) = (rank x < r) × Below r xs

  abbrev pub Above : ℕ → List V → Type 0
  Above r [] = Unit
  Above r (x ∷ xs) = (r < rank x) × Above r xs

  -- Strictly ascending ranks.
  abbrev pub Sorted : List V → Type 0
  Sorted [] = Unit
  Sorted (x ∷ xs) = Above (rank x) xs × Sorted xs

  -- A new object at its place, or the list as it was if an object has the rank already.
  abbrev pub insert_into : ℕ → V → List V → List V
  insert_into r new [] = new ∷ []
  insert_into r new (x ∷ xs) =
      if ltb (rank x) r
      then x ∷ insert_into r new xs
      else if r == rank x
      then x ∷ xs
      else new ∷ x ∷ xs

  -- The list without the object of the rank.
  abbrev pub remove_from : ℕ → List V → List V
  remove_from r [] = []
  remove_from r (x ∷ xs) = if r == rank x then xs else x ∷ remove_from r xs

  abbrev pub find_in : ℕ → List V → Option V
  find_in r [] = none
  find_in r (x ∷ xs) = if r == rank x then some x else find_in r xs

  pub Above-weaken : (a b : ℕ) (xs : List V) → a < b → Above b xs → Above a xs
  Above-weaken a b [] lt h = tt
  Above-weaken a b (x ∷ xs) lt (h, hs) = (omega arith, Above-weaken a b xs lt hs)

  Above-left : (r : ℕ) (xs ys : List V) → Above r (xs ++ ys) → Above r xs × Above r ys
  Above-left r [] ys h = (tt, h)
  Above-left r (x ∷ xs) ys (h, hs) = let (p, q) = Above-left r xs ys hs in ((h, p), q)

  -- A sorted list around an object.
  pub Sorted-parts :
      (xs : List V) (v : V) (ys : List V)
      → Sorted (xs ++ v ∷ ys)
      → Sorted xs × Below (rank v) xs × Above (rank v) ys × Sorted ys
  Sorted-parts [] v ys (h, hs) = (tt, tt, h, hs)
  Sorted-parts (x ∷ xs) v ys (h, hs) =
      let (a, b) = Above-left (rank x) xs (v ∷ ys) h in
      let (p, q, r, s) = Sorted-parts xs v ys hs in ((a, p), (b.0, q), r, s)

  pub insert_into-right :
      (r : ℕ) (new : V) (xs : List V) (v : V) (ys : List V)
      → Below (rank v) xs
      → rank v < r
      → insert_into r new (xs ++ v ∷ ys) ≡ xs ++ v ∷ insert_into r new ys
  insert_into-right r new [] v ys h lt = ground arith
  insert_into-right r new (x ∷ xs) v ys (h, hs) lt =
      let p = insert_into-right r new xs v ys hs lt in
      elim (Bool-cases (ltb (rank x) r)) [
        | inl e ↦ rw e (ap (λ zs. x ∷ zs) p)
        | inr e ↦ absurd (ground arith)
      ]

  pub insert_into-left :
      (r : ℕ) (new : V) (xs : List V) (v : V) (ys : List V)
      → r < rank v
      → insert_into r new (xs ++ v ∷ ys) ≡ insert_into r new xs ++ v ∷ ys
  insert_into-left r new [] v ys lt = ground arith
  insert_into-left r new (x ∷ xs) v ys lt =
      let p = insert_into-left r new xs v ys lt in
      elim (Bool-cases (ltb (rank x) r)) [
        | inl e ↦ rw e (ap (λ zs. x ∷ zs) p)
        | inr e ↦ elim (Bool-cases (r == rank x)) [
          | inl f ↦ rw (e, f) refl
          | inr f ↦ rw (e, f) refl
        ]
      ]

  pub insert_into-present :
      (r : ℕ) (new : V) (xs : List V) (v : V) (ys : List V)
      → Below (rank v) xs
      → r ≡ rank v
      → insert_into r new (xs ++ v ∷ ys) ≡ xs ++ v ∷ ys
  insert_into-present r new [] v ys h e = ground arith
  insert_into-present r new (x ∷ xs) v ys (h, hs) e =
      let p = insert_into-present r new xs v ys hs e in
      elim (Bool-cases (ltb (rank x) r)) [
        | inl f ↦ rw f (ap (λ zs. x ∷ zs) p)
        | inr f ↦ absurd (ground arith)
      ]

  Above-insert_into :
      (a r : ℕ) (new : V) (xs : List V) → a < rank new → Above a xs → Above a (insert_into r new xs)
  Above-insert_into a r new [] lt h = (lt, tt)
  Above-insert_into a r new (x ∷ xs) lt (h, hs) =
      let p = Above-insert_into a r new xs lt hs in
      elim (Bool-cases (ltb (rank x) r)) [
        | inl e ↦ rw e (h, p)
        | inr e ↦ elim (Bool-cases (r == rank x)) [
          | inl f ↦ rw (e, f) (h, hs)
          | inr f ↦ rw (e, f) (lt, (h, hs))
        ]
      ]

  pub Sorted-insert_into :
      (r : ℕ) (new : V) (xs : List V) → r ≡ rank new → Sorted xs → Sorted (insert_into r new xs)
  Sorted-insert_into r new [] e h = (tt, tt)
  Sorted-insert_into r new (x ∷ xs) e (h, hs) = elim (Bool-cases (ltb (rank x) r)) [
    | inl f ↦
        rw f
          (Above-insert_into (rank x) r new xs (ground arith) h, Sorted-insert_into r new xs e hs)
    | inr f ↦ elim (Bool-cases (r == rank x)) [
      | inl g ↦ rw (f, g) (h, hs)
      | inr g ↦
          let lt : rank new < rank x = ground arith in
          rw (f, g) ((lt, Above-weaken (rank new) (rank x) xs lt h), (h, hs))
    ]
  ]

  find_in-Above : (r a : ℕ) (xs : List V) → r < a → Above a xs → find_in r xs ≡ none
  find_in-Above r a [] lt h = refl
  find_in-Above r a (x ∷ xs) lt (h, hs) = elim (Bool-cases (r == rank x)) [
    | inl e ↦ absurd (ground arith)
    | inr e ↦ rw e (find_in-Above r a xs lt hs)
  ]

  pub find_in-right :
      (r : ℕ) (xs : List V) (v : V) (ys : List V)
      → Below (rank v) xs
      → rank v < r
      → find_in r (xs ++ v ∷ ys) ≡ find_in r ys
  find_in-right r [] v ys h lt = ground arith
  find_in-right r (x ∷ xs) v ys (h, hs) lt = elim (Bool-cases (r == rank x)) [
    | inl e ↦ absurd (ground arith)
    | inr e ↦ rw e (find_in-right r xs v ys hs lt)
  ]

  pub find_in-left :
      (r : ℕ) (xs : List V) (v : V) (ys : List V)
      → Above (rank v) ys
      → r < rank v
      → find_in r (xs ++ v ∷ ys) ≡ find_in r xs
  find_in-left r [] v ys h lt = elim (Bool-cases (r == rank v)) [
    | inl e ↦ absurd (ground arith)
    | inr e ↦ rw e (find_in-Above r (rank v) ys lt h)
  ]
  find_in-left r (x ∷ xs) v ys h lt = elim (Bool-cases (r == rank x)) [
    | inl e ↦ rw e refl
    | inr e ↦ rw e (find_in-left r xs v ys h lt)
  ]

  pub find_in-present :
      (r : ℕ) (xs : List V) (v : V) (ys : List V)
      → Below (rank v) xs
      → r ≡ rank v
      → find_in r (xs ++ v ∷ ys) ≡ some v
  find_in-present r [] v ys h e = ground arith
  find_in-present r (x ∷ xs) v ys (h, hs) e = elim (Bool-cases (r == rank x)) [
    | inl f ↦ absurd (ground arith)
    | inr f ↦ rw f (find_in-present r xs v ys hs e)
  ]

  -- What is found after an insertion: the new object under its rank if it was free.
  pub find_in-insert_into :
      (q r : ℕ) (new : V) (xs : List V)
      → r ≡ rank new
      → Sorted xs
      → find_in q (insert_into r new xs)
        ≡ (if q == r then some (get_or (find_in r xs) new) else find_in q xs)
  find_in-insert_into q r new [] e h =
      rw e (elim (Bool-cases (q == rank new)) [ inl f ↦ rw f refl | inr f ↦ rw f refl ])
  find_in-insert_into q r new (x ∷ xs) e (h, hs) =
      let p = find_in-insert_into q r new xs e hs in
      elim (Bool-cases (ltb (rank x) r)) [
        | inl f ↦ elim (Bool-cases (r == rank x)) [
          | inl g ↦ absurd (ground arith)
          | inr g ↦ elim (Bool-cases (q == rank x)) [
            | inl j ↦ elim (Bool-cases (q == r)) [
              | inl k ↦ absurd (ground arith)
              | inr k ↦ rw (f, g, j, k) refl
            ]
            | inr j ↦ rw (f, g, j) p
          ]
        ]
        | inr f ↦ elim (Bool-cases (r == rank x)) [
          | inl g ↦ elim (Bool-cases (q == r)) [
            | inl k ↦ elim (Bool-cases (q == rank x)) [
              | inl j ↦ rw (f, g, j, k) refl
              | inr j ↦ absurd (ground arith)
            ]
            | inr k ↦ rw (f, g, k) refl
          ]
          | inr g ↦
              let free = find_in-Above r (rank x) xs (ground arith) h in
              elim (Bool-cases (q == r)) [
                | inl k ↦ elim (Bool-cases (q == rank new)) [
                  | inl j ↦ rw (f, g, k, j, free) refl
                  | inr j ↦ absurd (ground arith)
                ]
                | inr k ↦ elim (Bool-cases (q == rank new)) [
                  | inl j ↦ absurd (ground arith)
                  | inr j ↦ rw (f, g, k, j) refl
                ]
              ]
        ]
      ]
