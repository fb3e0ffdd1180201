-- ===== src/LinkedList/Sort.antt =====
-- usual/list.c: the merge sort on fragments. A fragment is the list of its nodes, linked by `next` up to NULL, and NULL
-- is the empty one.
pub mod Order
pub mod Stack
use libusual_archive.Base.{Bool, List, [], ◌∷◌, true, false}

module _ {A : Type 0} (le : A → A → Bool) where
  -- `le` is `cmp_func(p, q) <= 0`.
  unfoldable pub merge : List A → List A → List A
  merge [] q = q
  merge (x ∷ p) [] = x ∷ p
  merge (x ∷ p) (y ∷ q) = elim (le x y) [ true ↦ x ∷ merge p (y ∷ q) | false ↦ y ∷ merge (x ∷ p) q ]

  -- The inner loop from the entry `i` on: `stack` is what stands from there up to `top`.
  unfoldable pub add_fragment : List A → List (List A) → List (List A)
  add_fragment p [] = p ∷ []
  add_fragment p ([] ∷ stack) = p ∷ stack
  add_fragment p ((x ∷ f) ∷ stack) = [] ∷ add_fragment (merge (x ∷ f) p) stack

  -- The loop that takes the nodes from the list, one at a time.
  unfoldable pub collect : List A → List (List A) → List (List A)
  collect [] stack = stack
  collect (x ∷ xs) stack = collect xs (add_fragment (x ∷ []) stack)

  -- The loop over the remaining fragments.
  unfoldable pub merge_all : List (List A) → List A → List A
  merge_all [] p = p
  merge_all (f ∷ stack) p = merge_all stack (merge f p)

  unfoldable pub sort_nodes : List A → List A
  sort_nodes xs = merge_all (collect xs []) []
