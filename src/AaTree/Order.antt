-- ===== src/AaTree/Order.antt =====
-- usual/aatree.c: what the in-order walk sees, and the sorted list that a tree stands for.
use libusual_archive.Base.{
  ◌++◌, arith, ◌≡◌, refl, sym, subst, Option, none, some, List, ◌∷◌, ◌==◌, ◌>>=◌, Bool-cases, ap,
  ltb, Option-cases, ◌||◌, ◌-◌, inl, inr,
}
use mathlib.Core.List.{append_assoc}
use libusual_archive.AaTree.{
  Tree, nil, node, in_order, walk_sub, level, skew, split, rebalance_on_insert, update_right,
  set_level, reshape, rebalance_on_remove,
}

-- A property of the result of steps that may fail.
abbrev pub OnSome {ℓ} : {A : Type ℓ} → (A → Type 0) → Option A → Type 0
OnSome P none = Unit
OnSome P (some a) = P a

module _ {V : Type 0} where
  abbrev pub objects : Tree V → List V
  objects t = walk_sub in_order t

  skew-objects : (t : Tree V) → OnSome (λ t'. objects t' ≡ objects t) (skew t)
  unfolding skew walk_sub
  skew-objects nil = refl
  skew-objects (node l nil v b) = elim (Bool-cases (l == 0)) [ inl p ↦ rw p tt | inr p ↦ rw p refl ]
  skew-objects (node l (node m c w d) v b) = elim (Bool-cases (l == m)) [
    | inl p ↦ rw p (sym (append_assoc (objects c) (w ∷ objects d) (v ∷ objects b)))
    | inr p ↦ rw p refl
  ]

  split-objects : (t : Tree V) → OnSome (λ t'. objects t' ≡ objects t) (split t)
  unfolding split walk_sub
  split-objects nil = refl
  split-objects (node l a v nil) = elim (Bool-cases (l == 0)) [
    | inl p ↦ rw p tt
    | inr p ↦ rw p refl
  ]
  split-objects (node l a v (node m c w d)) = elim (Bool-cases (l == level d)) [
    | inl p ↦ rw p (append_assoc (objects a) (v ∷ objects c) (w ∷ objects d))
    | inr p ↦ rw p refl
  ]

  pub bind-objects :
      (f : Tree V → Option (Tree V)) (o : Option (Tree V)) (xs : List V)
      → OnSome (λ t. objects t ≡ xs) o
      → ((t : Tree V) → OnSome (λ t'. objects t' ≡ objects t) (f t))
      → OnSome (λ t. objects t ≡ xs) (o >>= f)
  bind-objects f none xs h keeps = tt
  bind-objects f (some t) xs h keeps =
      subst (λ ys. OnSome (λ t'. objects t' ≡ ys) (f t)) h (keeps t)

  pub rebalance_on_insert-objects :
      (t : Tree V) → OnSome (λ t'. objects t' ≡ objects t) (rebalance_on_insert t)
  unfolding rebalance_on_insert
  rebalance_on_insert-objects t =
      bind-objects split (skew t) (objects t) (skew-objects t) split-objects

  update_right-objects :
      (f : Tree V → Option (Tree V))
      → ((t : Tree V) → OnSome (λ t'. objects t' ≡ objects t) (f t))
      → (t : Tree V) → OnSome (λ t'. objects t' ≡ objects t) (update_right f t)
  unfolding update_right walk_sub
  update_right-objects f keeps nil = tt
  update_right-objects f keeps (node l a v b) = elim (Option-cases (f b)) [
    | inl e ↦ rw e tt
    | inr (b', e) ↦
        let same : objects b' ≡ objects b =
          subst (OnSome (λ t'. objects t' ≡ objects b)) e (keeps b) in
        rw e (ap (λ ys. objects a ++ v ∷ ys) same)
  ]

  then-objects :
      (f g : Tree V → Option (Tree V)) (t : Tree V)
      → ((t : Tree V) → OnSome (λ t'. objects t' ≡ objects t) (f t))
      → ((t : Tree V) → OnSome (λ t'. objects t' ≡ objects t) (g t))
      → OnSome (λ t'. objects t' ≡ objects t) (f t >>= g)
  then-objects f g t first second = bind-objects g (f t) (objects t) (first t) second

  reshape-objects : (t : Tree V) → OnSome (λ t'. objects t' ≡ objects t) (reshape t)
  unfolding reshape
  reshape-objects t =
      let skew_right = update_right-objects skew skew-objects in
      let skew_below = update_right-objects (update_right skew) skew_right in
      let split_right = update_right-objects split split-objects in
      then-objects skew _ t skew-objects λ t1.
        then-objects (update_right skew) _ t1 skew_right λ t2.
          then-objects (update_right (update_right skew)) _ t2 skew_below
            λ t3. then-objects split (update_right split) t3 split-objects split_right

  pub rebalance_on_remove-objects :
      (t : Tree V) → OnSome (λ t'. objects t' ≡ objects t) (rebalance_on_remove t)
  unfolding rebalance_on_remove set_level walk_sub
  rebalance_on_remove-objects nil = refl
  rebalance_on_remove-objects (node l a v nil) =
      elim (Bool-cases (ltb (level a) (l - 1) || ltb 0 (l - 1))) [
        | inl e ↦ elim (Bool-cases (ltb (l - 1) 0)) [
          | inl f ↦ absurd (ground arith)
          | inr f ↦ rw (e, f) (reshape-objects (node (l - 1) a v nil))
        ]
        | inr e ↦ rw e refl
      ]
  rebalance_on_remove-objects (node l a v (node n c w d)) =
      elim (Bool-cases (ltb (level a) (l - 1) || ltb n (l - 1))) [
        | inl e ↦ elim (Bool-cases (ltb (l - 1) n)) [
          | inl f ↦ rw (e, f) (reshape-objects (node (l - 1) a v (node (l - 1) c w d)))
          | inr f ↦ rw (e, f) (reshape-objects (node (l - 1) a v (node n c w d)))
        ]
        | inr e ↦ rw e refl
      ]
