-- ===== src/LinkedList/Sort/Stack.antt =====
-- usual/list.c: the array of 64 fragments is large enough.
use libusual_archive.Base.{
  ℕ, ◌+◌, ◌*◌, ◌^◌, ◌<◌, ◌≤◌, ◌≡◌, refl, ap, Bool, List, [], ◌∷◌, arith, inl, inr, ◌⊎◌, length, leb,
  Bool-cases,
}
use native.Mathlib.Nat.{pow-suc, add-mul, mul_assoc, pow-le-pow_right}
use libusual_archive.LinkedList.Sort.{merge, add_fragment, collect}

module _ {A : Type 0} (le : A → A → Bool) where
  length-merge : (p q : List A) → length (merge le p q) ≡ length p + length q
  unfolding merge
  length-merge [] q = omega arith
  length-merge (x ∷ p) [] = omega arith
  length-merge (x ∷ p) (y ∷ q) = ground (arith, length-merge p (y ∷ q), length-merge (x ∷ p) q)

  abbrev total : List (List A) → ℕ
  total [] = 0
  total (f ∷ stack) = length f + total stack

  -- Entry i is NULL or has 2 ^ i nodes, and the last one is not NULL.
  abbrev Filled : ℕ → List (List A) → Type 0
  Filled n [] = Unit
  Filled n (f ∷ []) = length f ≡ n
  Filled n (f ∷ g ∷ stack) = ((f ≡ []) ⊎ (length f ≡ n)) × Filled (n + n) (g ∷ stack)

  cleared-Filled :
      (n : ℕ) (stack : List (List A))
      → 0 < length stack
      → Filled (n + n) stack
      → Filled n ([] ∷ stack)
  cleared-Filled n [] p h = absurd (omega arith)
  cleared-Filled n (g ∷ stack) p h = (inl refl, h)

  length-add_fragment : (p : List A) (stack : List (List A)) → 0 < length (add_fragment le p stack)
  unfolding add_fragment
  length-add_fragment p [] = omega arith
  length-add_fragment p ([] ∷ stack) = omega arith
  length-add_fragment p ((x ∷ f) ∷ stack) = omega arith

  add_fragment-Filled :
      (n : ℕ) (p : List A) (stack : List (List A))
      → 0 < n
      → length p ≡ n
      → Filled n stack
      → Filled n (add_fragment le p stack)
  unfolding add_fragment
  add_fragment-Filled n p [] pos e h = e
  add_fragment-Filled n p ([] ∷ []) pos e h = e
  add_fragment-Filled n p ([] ∷ g ∷ stack) pos e (h, hs) = (inr e, hs)
  add_fragment-Filled n p ((x ∷ f) ∷ []) pos e h = (inl refl, omega (arith, length-merge (x ∷ f) p))
  add_fragment-Filled n p ((x ∷ f) ∷ g ∷ stack) pos e (inl bad, hs) =
      absurd (omega (arith, ap length bad))
  add_fragment-Filled n p ((x ∷ f) ∷ g ∷ stack) pos e (inr size, hs) =
      cleared-Filled n (add_fragment le (merge le (x ∷ f) p) (g ∷ stack))
        (length-add_fragment (merge le (x ∷ f) p) (g ∷ stack))
        (add_fragment-Filled (n + n) (merge le (x ∷ f) p) (g ∷ stack) (omega arith)
          (omega (arith, length-merge (x ∷ f) p)) hs)

  total-add_fragment :
      (p : List A) (stack : List (List A))
      → total (add_fragment le p stack) ≡ length p + total stack
  unfolding add_fragment
  total-add_fragment p [] = omega arith
  total-add_fragment p ([] ∷ stack) = omega arith
  total-add_fragment p ((x ∷ f) ∷ stack) =
      omega (arith, total-add_fragment (merge le (x ∷ f) p) stack, length-merge (x ∷ f) p)

  collect-Filled :
      (xs : List A) (stack : List (List A))
      → Filled 1 stack
      → Filled 1 (collect le xs stack) × (total (collect le xs stack) ≡ length xs + total stack)
  unfolding collect
  collect-Filled [] stack h = (h, omega arith)
  collect-Filled (x ∷ xs) stack h =
      let (filled, size) =
        collect-Filled xs (add_fragment le (x ∷ []) stack)
          (add_fragment-Filled 1 (x ∷ []) stack (omega arith) refl h) in
      (filled, omega (arith, size, total-add_fragment (x ∷ []) stack))

  capacity :
      (n : ℕ) (f : List A) (stack : List (List A))
      → Filled n (f ∷ stack)
      → n * 2 ^ length stack ≤ total (f ∷ stack)
  capacity n f [] h = omega arith
  capacity n f (g ∷ stack) (h, hs) =
      let ih = capacity (n + n) g stack hs in
      rw (pow-suc 2 (length stack))
        (omega (arith, ih, add-mul n n (2 ^ length stack), mul_assoc n (2 ^ length stack) 2))

  top_bound : (stack : List (List A)) → Filled 1 stack → total stack < 2 ^ 64 → length stack ≤ 64
  top_bound [] h lt = omega arith
  top_bound (f ∷ stack) h lt = elim (Bool-cases (leb 64 (length stack))) [
    | inl e ↦
        let grows : 2 ^ 64 ≤ 2 ^ length stack =
          pow-le-pow_right (omega arith) {i = 64} {j = length stack} (ground arith) in
        absurd (omega (arith, grows, capacity 1 f stack h))
    | inr e ↦ ground arith
  ]

  -- After any number of nodes below 2 ^ 64, `top` is at most 64: list_sort stays inside its array.
  pub collect_bound : (xs : List A) → length xs < 2 ^ 64 → length (collect le xs []) ≤ 64
  collect_bound xs few =
      let (filled, size) = collect-Filled xs [] tt in
      top_bound (collect le xs []) filled (omega arith)
