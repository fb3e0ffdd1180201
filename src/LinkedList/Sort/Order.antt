-- ===== src/LinkedList/Sort/Order.antt =====
-- usual/list.c: list_sort sorts, and keeps the order of nodes that compare equal.
use libusual_archive.Base.{
  ℕ, ◌<◌, ◌≤◌, ◌≡◌, refl, sym, ap, ◌∙◌, Bool, List, [], ◌∷◌, ◌++◌, leb, ◌==◌, if◌then◌else◌, arith,
  Bool-cases, inl, inr,
}
use mathlib.Core.List.{append_assoc, append-nil}
use libusual_archive.LinkedList.Sort.{merge, add_fragment, collect, merge_all, sort_nodes}

-- Nodes have ranks that cmp_func compares.
module _ {A : Type 0} (le : A → A → Bool) (rank : A → ℕ)
    (compares : (x y : A) → le x y ≡ leb (rank x) (rank y)) where
  abbrev AtLeast : ℕ → List A → Type 0
  AtLeast r [] = Unit
  AtLeast r (x ∷ xs) = (r ≤ rank x) × AtLeast r xs

  -- Ascending ranks.
  abbrev pub IsSorted : List A → Type 0
  IsSorted [] = Unit
  IsSorted (x ∷ xs) = AtLeast (rank x) xs × IsSorted xs

  -- The nodes of one rank, in their order.
  abbrev pub with_rank : ℕ → List A → List A
  with_rank r [] = []
  with_rank r (x ∷ xs) = if rank x == r then x ∷ with_rank r xs else with_rank r xs

  AtLeast-weaken : (a b : ℕ) (xs : List A) → a ≤ b → AtLeast b xs → AtLeast a xs
  AtLeast-weaken a b [] lt h = tt
  AtLeast-weaken a b (x ∷ xs) lt (h, hs) = (omega arith, AtLeast-weaken a b xs lt hs)

  AtLeast-merge : (r : ℕ) (p q : List A) → AtLeast r p → AtLeast r q → AtLeast r (merge le p q)
  unfolding merge
  AtLeast-merge r [] q h g = g
  AtLeast-merge r (x ∷ p) [] h g = h
  AtLeast-merge r (x ∷ p) (y ∷ q) (h, hs) (g, gs) = elim (Bool-cases (le x y)) [
    | inl e ↦ rw (e, merge) (h, AtLeast-merge r p (y ∷ q) hs (g, gs))
    | inr e ↦ rw (e, merge) (g, AtLeast-merge r (x ∷ p) q (h, hs) gs)
  ]

  merge-IsSorted : (p q : List A) → IsSorted p → IsSorted q → IsSorted (merge le p q)
  unfolding merge
  merge-IsSorted [] q h g = g
  merge-IsSorted (x ∷ p) [] h g = h
  merge-IsSorted (x ∷ p) (y ∷ q) (h, hs) (g, gs) = elim (Bool-cases (le x y)) [
    | inl e ↦
        let lt : rank x ≤ rank y = ground (arith, sym (compares x y) ∙ e) in
        rw (e, merge)
          (
            AtLeast-merge (rank x) p (y ∷ q) h (lt, AtLeast-weaken (rank x) (rank y) q lt g),
            merge-IsSorted p (y ∷ q) hs (g, gs),
          )
    | inr e ↦
        let lt : rank y ≤ rank x = ground (arith, sym (compares x y) ∙ e) in
        rw (e, merge)
          (
            AtLeast-merge (rank y) (x ∷ p) q (lt, AtLeast-weaken (rank y) (rank x) p lt h) g,
            merge-IsSorted (x ∷ p) q (h, hs) gs,
          )
  ]

  none_below : (r a : ℕ) (xs : List A) → r < a → AtLeast a xs → with_rank r xs ≡ []
  none_below r a [] lt h = refl
  none_below r a (x ∷ xs) lt (h, hs) = elim (Bool-cases (rank x == r)) [
    | inl e ↦ absurd (ground arith)
    | inr e ↦ rw e (none_below r a xs lt hs)
  ]

  -- Of two sorted fragments, the first one's nodes of a rank come before the second one's.
  with_rank-merge :
      (r : ℕ) (p q : List A)
      → IsSorted p
      → with_rank r (merge le p q) ≡ with_rank r p ++ with_rank r q
  unfolding merge
  with_rank-merge r [] q h = refl
  with_rank-merge r (x ∷ p) [] h = sym (append-nil (with_rank r (x ∷ p)))
  with_rank-merge r (x ∷ p) (y ∷ q) (h, hs) = elim (Bool-cases (le x y)) [
    | inl e ↦
        let ih = with_rank-merge r p (y ∷ q) hs in
        rw (e, merge)
          (elim (Bool-cases (rank x == r)) [
            | inl f ↦ rw f (ap (λ zs. x ∷ zs) ih)
            | inr f ↦ rw f ih
          ])
    | inr e ↦
        let ih = with_rank-merge r (x ∷ p) q (h, hs) in
        rw (e, merge)
          (elim (Bool-cases (rank y == r)) [
            | inl f ↦
                let lt : r < rank x = ground (arith, sym (compares x y) ∙ e) in
                let none = none_below r (rank x) (x ∷ p) lt (omega arith, h) in
                rw (f, none) (ap (λ zs. y ∷ zs) (ih ∙ ap (λ zs. zs ++ with_rank r q) none))
            | inr f ↦ rw f ih
          ])
  ]

  abbrev AllSorted : List (List A) → Type 0
  AllSorted [] = Unit
  AllSorted (f ∷ stack) = IsSorted f × AllSorted stack

  -- The nodes of one rank in all the fragments, the oldest fragment first.
  abbrev pending : ℕ → List (List A) → List A
  pending r [] = []
  pending r (f ∷ stack) = pending r stack ++ with_rank r f

  add_fragment-AllSorted :
      (p : List A) (stack : List (List A))
      → IsSorted p
      → AllSorted stack
      → AllSorted (add_fragment le p stack)
  unfolding add_fragment
  add_fragment-AllSorted p [] h hs = (h, tt)
  add_fragment-AllSorted p ([] ∷ stack) h (g, gs) = (h, gs)
  add_fragment-AllSorted p ((x ∷ f) ∷ stack) h (g, gs) =
      (tt, add_fragment-AllSorted (merge le (x ∷ f) p) stack (merge-IsSorted (x ∷ f) p g h) gs)

  pending-add_fragment :
      (r : ℕ) (p : List A) (stack : List (List A))
      → AllSorted stack
      → pending r (add_fragment le p stack) ≡ pending r stack ++ with_rank r p
  unfolding add_fragment
  pending-add_fragment r p [] h = refl
  pending-add_fragment r p ([] ∷ stack) h =
      ap (λ zs. zs ++ with_rank r p) (sym (append-nil (pending r stack)))
  pending-add_fragment r p ((x ∷ f) ∷ stack) (h, hs) =
      append-nil _
      ∙ pending-add_fragment r (merge le (x ∷ f) p) stack hs
      ∙ ap (λ zs. pending r stack ++ zs) (with_rank-merge r (x ∷ f) p h)
      ∙ sym (append_assoc (pending r stack) (with_rank r (x ∷ f)) (with_rank r p))

  with_rank-cons :
      (r : ℕ) (x : A) (xs : List A) → with_rank r (x ∷ xs) ≡ with_rank r (x ∷ []) ++ with_rank r xs
  with_rank-cons r x xs = elim (Bool-cases (rank x == r)) [ inl e ↦ rw e refl | inr e ↦ rw e refl ]

  collect_lem :
      (xs : List A) (stack : List (List A))
      → AllSorted stack
      → AllSorted (collect le xs stack)
        × ((r : ℕ) → pending r (collect le xs stack) ≡ pending r stack ++ with_rank r xs)
  unfolding collect
  collect_lem [] stack h = (h, λ r. sym (append-nil (pending r stack)))
  collect_lem (x ∷ xs) stack h =
      let (sorted, held) =
        collect_lem xs (add_fragment le (x ∷ []) stack)
          (add_fragment-AllSorted (x ∷ []) stack (tt, tt) h) in
      (
        sorted,
        λ r.
            held r
            ∙ ap (λ zs. zs ++ with_rank r xs) (pending-add_fragment r (x ∷ []) stack h)
            ∙ append_assoc (pending r stack) (with_rank r (x ∷ [])) (with_rank r xs)
            ∙ ap (λ zs. pending r stack ++ zs) (sym (with_rank-cons r x xs)),
      )

  merge_all_lem :
      (stack : List (List A)) (p : List A)
      → AllSorted stack
      → IsSorted p
      → IsSorted (merge_all le stack p)
        × ((r : ℕ) → with_rank r (merge_all le stack p) ≡ pending r stack ++ with_rank r p)
  unfolding merge_all
  merge_all_lem [] p h g = (g, λ r. refl)
  merge_all_lem (f ∷ stack) p (h, hs) g =
      let (sorted, held) = merge_all_lem stack (merge le f p) hs (merge-IsSorted f p h g) in
      (
        sorted,
        λ r.
            held r
            ∙ ap (λ zs. pending r stack ++ zs) (with_rank-merge r f p h)
            ∙ sym (append_assoc (pending r stack) (with_rank r f) (with_rank r p)),
      )

  -- For nodes with ranks that cmp_func compares: the sorted sequence ascends, and it has the nodes of each rank that were
  -- in the list, in the same order: nothing is lost, nothing is doubled, and the sort is stable.
  pub sort_nodes_lem :
      (xs : List A)
      → IsSorted (sort_nodes le xs) × ((r : ℕ) → with_rank r (sort_nodes le xs) ≡ with_rank r xs)
  unfolding sort_nodes
  sort_nodes_lem xs =
      let (sorted, held) = collect_lem xs [] tt in
      let (result, kept) = merge_all_lem (collect le xs []) [] sorted tt in
      (result, λ r. kept r ∙ append-nil (pending r (collect le xs [])) ∙ held r)
