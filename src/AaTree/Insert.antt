-- ===== src/AaTree/Insert.antt =====
-- usual/aatree.c: aatree_insert and aatree_search against the sorted list of the objects.
use libusual_archive.Base.{
  ℕ, ◌+◌, ◌<◌, ◌≡◌, refl, sym, ap, ◌∙◌, subst, Bool, true, false, Option, none, some, List, ◌∷◌,
  ◌++◌, ltb, ◌==◌, if◌then◌else◌, arith, Bool-cases, inl, inr, ◌⊎◌, Returns, Returns-bind,
  Returns-map, length, length-append,
}
use libusual_archive.AaTree.{
  Sign, negative, equal, positive, Tree, nil, node, in_order, walk_sub, AaTree, aatree_insert,
  insert_sub, rebalance_on_insert, aatree_search, search_sub, aatree_walk,
}
use libusual_archive.AaTree.Shape.{Good, IsAa, Raised, insert_left, insert_right}
use libusual_archive.AaTree.Order.{OnSome, objects, rebalance_on_insert-objects}
use libusual_archive.AaTree.Content.{
  sign_of, Sorted, insert_into, find_in, Sorted-parts, insert_into-right, insert_into-left,
  insert_into-present, Sorted-insert_into, find_in-right, find_in-left, find_in-present,
  find_in-insert_into, get_or,
}

pub both {ℓ} :
    {A : Type ℓ} {P Q : A → Type 0} (o : Option A)
    → Good P o
    → OnSome Q o
    → Returns (λ a. P a × Q a) o
both none p q = absurd p
both (some a) p q = (a, refl, (p, q))

abbrev counted : Bool → ℕ → ℕ
counted added n = if added then n + 1 else n

module _ {V : Type 0} where
  counted-right :
      (added : Bool) (xs : List V) (v : V) (ys ys' zs : List V)
      → zs ≡ xs ++ v ∷ ys'
      → length ys' ≡ counted added (length ys)
      → length zs ≡ counted added (length (xs ++ v ∷ ys))
  counted-right added xs v ys ys' zs e h =
      rw (e, length-append xs (v ∷ ys'), length-append xs (v ∷ ys))
        (elim (Bool-cases added) [ inl f ↦ ground arith | inr f ↦ ground arith ])

  counted-left :
      (added : Bool) (xs xs' : List V) (v : V) (ys zs : List V)
      → zs ≡ xs' ++ v ∷ ys
      → length xs' ≡ counted added (length xs)
      → length zs ≡ counted added (length (xs ++ v ∷ ys))
  counted-left added xs xs' v ys zs e h =
      rw (e, length-append xs' (v ∷ ys), length-append xs (v ∷ ys))
        (elim (Bool-cases added) [ inl f ↦ ground arith | inr f ↦ ground arith ])

-- Values and nodes have ranks that `node_cmp` compares.
module _ {V : Type 0} (node_cmp : ℕ → V → Sign) (key : ℕ → ℕ) (rank : V → ℕ)
    (compares : (k : ℕ) (v : V) → node_cmp k v ≡ sign_of (key k) (rank v)) where
  -- What the comparison says of the ranks.
  pub node_cmp-cases :
      (k : ℕ) (v : V)
      → (node_cmp k v ≡ positive) × (rank v < key k)
        ⊎ (node_cmp k v ≡ negative) × (key k < rank v)
        ⊎ (node_cmp k v ≡ equal) × (key k ≡ rank v)
  node_cmp-cases k v = rw (compares k v) (elim (Bool-cases (ltb (key k) (rank v))) [
    | inl e ↦ rw e (inr (inl (refl, ground arith)))
    | inr e ↦ elim (Bool-cases (key k == rank v)) [
      | inl f ↦ rw (e, f) (inr (inr (refl, ground arith)))
      | inr f ↦ rw (e, f) (inl (refl, ground arith))
    ]
  ])

  -- The outcome of an insertion into a subtree.
  abbrev Inserted : ℕ → V → Tree V → Tree V × Bool → Type 0
  Inserted value new t (t', added) =
      Raised t t'
      × (objects t' ≡ insert_into rank (key value) new (objects t))
      × (length (objects t') ≡ counted added (length (objects t)))

  insert_sub_lem :
      (value : ℕ) (new : V) (t : Tree V)
      → IsAa t
      → Sorted rank (objects t)
      → Returns (Inserted value new t) (insert_sub node_cmp value new t)
  unfolding insert_sub walk_sub
  insert_sub_lem value new nil h s = (
    (node 1 nil new nil, true),
    refl,
    ((((refl, inr refl, omega arith), tt, tt), inr (refl, refl, omega arith)), refl, refl),
  )
  insert_sub_lem value new (node l a v b) h s =
      let (_, ha, hb) = h in
      let (sa, below, _, sb) = Sorted-parts rank (objects a) v (objects b) s in
      elim (node_cmp-cases value v) [
        | inl (e, lt) ↦
            rw (e, insert_sub)
              (Returns-bind (insert_sub_lem value new b hb sb)
                (λ (b', added) (raised, content, count).
                  Returns-bind
                    (both (rebalance_on_insert (node l a v b')) (insert_right l a v b b' h raised)
                      (rebalance_on_insert-objects (node l a v b')))
                    (λ t (shape, same). (
                      (t, added),
                      refl,
                      (
                        shape,
                        same
                            ∙ ap (λ ys. objects a ++ v ∷ ys) content
                            ∙ sym (
                                insert_into-right rank (key value) new (objects a) v (objects b)
                                  below lt),
                        counted-right added (objects a) v (objects b) (objects b') (objects t) same
                            count,
                      ),
                    ))))
        | inr (inl (e, lt)) ↦
            rw (e, insert_sub)
              (Returns-bind (insert_sub_lem value new a ha sa)
                (λ (a', added) (raised, content, count).
                  Returns-bind
                    (both (rebalance_on_insert (node l a' v b)) (insert_left l a v b a' h raised)
                      (rebalance_on_insert-objects (node l a' v b)))
                    (λ t (shape, same). (
                      (t, added),
                      refl,
                      (
                        shape,
                        same
                            ∙ ap (λ xs. xs ++ v ∷ objects b) content
                            ∙ sym (
                                insert_into-left rank (key value) new (objects a) v (objects b) lt),
                        counted-left added (objects a) (objects a') v (objects b) (objects t) same
                            count,
                      ),
                    ))))
        | inr (inr (e, eq)) ↦
            rw (e, insert_sub)
              (
                (node l a v b, false),
                refl,
                (
                  (h, inl refl),
                  sym (insert_into-present rank (key value) new (objects a) v (objects b) below eq),
                  refl,
                ),
              )
      ]

  -- The shape, the order and the count of a tree.
  abbrev pub IsValid : AaTree V → Type 0
  IsValid tree =
      IsAa tree.root × Sorted rank (objects tree.root) × (tree.count ≡ length (objects tree.root))

  -- For values and nodes that node_cmp compares by ranks: aatree_insert of a node of the value's rank into a valid tree
  -- writes no field of NIL and gives a valid tree (AA shape, ascending ranks, count), whose in-order walk is that of the old tree with the
  -- node at its place, or unchanged if there was a node of that rank. Nothing is released.
  pub aatree_insert_lem :
      (tree : AaTree V) (value : ℕ) (new : V)
      → IsValid tree
      → key value ≡ rank new
      → Returns
          (λ tree'.
            IsValid tree'
            × (objects tree'.root ≡ insert_into rank (key value) new (objects tree.root))
            × (tree'.released ≡ tree.released))
          (aatree_insert node_cmp tree value new)
  unfolding aatree_insert
  aatree_insert_lem tree value new (h, sorted, counted_all) e =
      Returns-bind (insert_sub_lem value new tree.root h sorted)
        (λ (t, added) (raised, content, count). (
          record tree { root = t; count = if added then tree.count + 1 else tree.count },
          refl,
          (
            (
              raised.0,
              subst (Sorted rank) (sym content)
                  (Sorted-insert_into rank (key value) new (objects tree.root) e sorted),
              elim (Bool-cases added) [ inl f ↦ ground arith | inr f ↦ ground arith ],
            ),
            content,
            refl,
          ),
        ))

  pub search_sub_lem :
      (t : Tree V) (value : ℕ)
      → Sorted rank (objects t)
      → search_sub node_cmp t value ≡ find_in rank (key value) (objects t)
  unfolding search_sub walk_sub
  search_sub_lem nil value s = refl
  search_sub_lem (node l a v b) value s =
      let (sa, below, above, sb) = Sorted-parts rank (objects a) v (objects b) s in
      elim (node_cmp-cases value v) [
        | inl (e, lt) ↦
            rw (e, search_sub)
              (search_sub_lem b value sb
                ∙ sym (find_in-right rank (key value) (objects a) v (objects b) below lt))
        | inr (inl (e, lt)) ↦
            rw (e, search_sub)
              (search_sub_lem a value sa
                ∙ sym (find_in-left rank (key value) (objects a) v (objects b) above lt))
        | inr (inr (e, eq)) ↦
            rw (e, search_sub)
              (sym (find_in-present rank (key value) (objects a) v (objects b) below eq))
      ]

  -- For values and nodes that node_cmp compares by ranks: aatree_search in a valid tree returns the node of the value's rank in the in-order walk,
  -- and NULL if there is none.
  pub aatree_search_lem :
      (tree : AaTree V) (value : ℕ)
      → IsValid tree
      → aatree_search node_cmp tree value ≡ find_in rank (key value) (aatree_walk tree in_order)
  unfolding aatree_search aatree_walk
  aatree_search_lem tree value (h, s, c) = search_sub_lem tree.root value s

  -- For values and nodes that node_cmp compares by ranks: once a node of the value's rank is inserted into a valid tree, a search for
  -- another value finds what it found before, except that a search for the same rank finds the node that was there already, or else the new one.
  pub aatree_search-insert :
      (tree : AaTree V) (value other : ℕ) (new : V)
      → IsValid tree
      → key value ≡ rank new
      → Returns
          (λ tree'. aatree_search node_cmp tree' other ≡ (
            if key other == key value
            then some (get_or (aatree_search node_cmp tree value) new)
            else aatree_search node_cmp tree other))
          (aatree_insert node_cmp tree value new)
  unfolding aatree_search
  aatree_search-insert tree value other new (h, s, c) e =
      Returns-map (aatree_insert_lem tree value new (h, s, c) e)
        (λ tree' ((h', s', c'), content, _).
          rw
            (
              search_sub_lem tree'.root other s',
              content,
              search_sub_lem tree.root other s,
              search_sub_lem tree.root value s,
            )
            (find_in-insert_into rank (key other) (key value) new (objects tree.root) e s))
