-- ===== src/AaTree/Remove.antt =====
-- usual/aatree.c: aatree_remove against the sorted list of the objects.
use libusual_archive.Base.{
  Bool, if◌then◌else◌, ℕ, suc, ◌+◌, ◌-◌, ◌<◌, ◌≡◌, refl, sym, ap, ◌∙◌, subst, Option, none, some,
  List, ◌∷◌, ◌++◌, ◌==◌, if◌then◌else◌, arith, inl, inr, ◌⊎◌, Returns, Returns-bind, Returns-map,
  bind_assoc, length, ◌>>=◌,
}
use libusual_archive.AaTree.{
  Sign, Tree, nil, node, walk_sub, level, right, AaTree, aatree_remove, remove_sub,
  rebalance_on_remove, steal_leftmost, drop_this_node, aatree_search,
}
use libusual_archive.AaTree.Shape.{IsAa}
use libusual_archive.AaTree.Lower.{Lowered, no_gap}
use libusual_archive.AaTree.Mend.{remove_left, remove_right}
use libusual_archive.AaTree.Order.{objects, rebalance_on_remove-objects}
use libusual_archive.AaTree.Content.{
  sign_of, Sorted, remove_from, find_in, Sorted-parts, find_in-right, find_in-left, find_in-present,
}
use libusual_archive.AaTree.Erase.{
  remove_from-right, remove_from-left, remove_from-present, Sorted-remove_from, length-remove_from,
  find_in-remove_from,
}
use libusual_archive.AaTree.Insert.{both, node_cmp-cases, IsValid, search_sub_lem}

module _ {V : Type 0} where
  -- After a change on the left, and on the right: the shape, and the objects in order.
  mended_left :
      (l : ℕ) (a : Tree V) (v : V) (b a' : Tree V)
      → IsAa (node l a v b)
      → Lowered a a'
      → Returns
          (λ t. Lowered (node l a v b) t × (objects t ≡ objects (node l a' v b)))
          (rebalance_on_remove (node l a' v b))
  mended_left l a v b a' h low =
      both (rebalance_on_remove (node l a' v b)) (remove_left l a v b a' h low)
        (rebalance_on_remove-objects (node l a' v b))

  mended_right :
      (l : ℕ) (a : Tree V) (v : V) (b b' : Tree V)
      → IsAa (node l a v b)
      → Lowered b b'
      → Returns
          (λ t. Lowered (node l a v b) t × (objects t ≡ objects (node l a v b')))
          (rebalance_on_remove (node l a v b'))
  mended_right l a v b b' h low =
      both (rebalance_on_remove (node l a v b')) (remove_right l a v b b' h low)
        (rebalance_on_remove-objects (node l a v b'))

  rebalance_on_remove-IsAa : (t : Tree V) → IsAa t → rebalance_on_remove t ≡ some t
  rebalance_on_remove-IsAa nil h = unfold rebalance_on_remove in refl
  rebalance_on_remove-IsAa (node l a v b) h = no_gap l a v b (omega arith) (ground arith)

  child_lowered :
      (l : ℕ) (b : Tree V)
      → (level b ≡ l) ⊎ (level b + 1 ≡ l)
      → (level b ≡ l) × (level b < l → level (right b) < level b) ⊎ (suc (level b) ≡ l)
  child_lowered l b (inl red) = inl (red, λ lt. absurd (omega arith))
  child_lowered l b (inr black) = inr (omega arith)

  -- steal_leftmost splits the objects of a tree into the first one and the others.
  steal_leftmost_lem :
      (l : ℕ) (a : Tree V) (v : V) (b : Tree V)
      → IsAa (node l a v b)
      → Returns
          (λ (t, leftmost).
            Lowered (node l a v b) t × (objects (node l a v b) ≡ leftmost ∷ objects t))
          (steal_leftmost (node l a v b))
  unfolding steal_leftmost walk_sub
  steal_leftmost_lem l nil v b ((h1, h2, h3), ha, hb) =
      ((b, v), refl, ((hb, child_lowered l b h2), refl))
  steal_leftmost_lem l (node m c w d) v b h =
      Returns-bind (steal_leftmost_lem m c w d (h.1)) λ (a', leftmost) (low, parts).
        Returns-bind (mended_left l (node m c w d) v b a' h low) λ t (lowered, same). (
          (t, leftmost),
          refl,
          (lowered, ap (λ xs. xs ++ v ∷ objects b) parts ∙ ap (λ xs. leftmost ∷ xs) (sym same)),
        )

  -- Dropping the root, and rebalancing what takes its place.
  drop_root :
      (l : ℕ) (a : Tree V) (v : V) (b : Tree V)
      → IsAa (node l a v b)
      → Returns
          (λ t. Lowered (node l a v b) t × (objects t ≡ objects a ++ objects b))
          (drop_this_node l a v b >>= rebalance_on_remove)
  unfolding drop_this_node walk_sub
  drop_root l nil v b ((h1, h2, h3), ha, hb) =
      (b, rebalance_on_remove-IsAa b hb, ((hb, child_lowered l b h2), refl))
  drop_root l (node m c w d) v nil ((h1, h2, h3), ha, hb) = absurd (omega arith)
  drop_root l (node m c w d) v (node n e x f) h =
      let ((b', new), stolen, (low, parts)) = steal_leftmost_lem n e x f (h.2) in
      rw stolen (
        Returns-map (mended_right l (node m c w d) new (node n e x f) b' h low) λ t (lowered, same).
          (lowered, same ∙ ap (λ ys. objects (node m c w d) ++ ys) (sym parts)))

module _ {V : Type 0} (node_cmp : ℕ → V → Sign) (key : ℕ → ℕ) (rank : V → ℕ)
    (compares : (k : ℕ) (v : V) → node_cmp k v ≡ sign_of (key k) (rank v)) where
  -- The outcome of a removal from a subtree.
  abbrev Removed : ℕ → Tree V → Tree V × Option V → Type 0
  Removed value t (t', gone) =
      Lowered t t'
      × (objects t' ≡ remove_from rank (key value) (objects t))
      × (gone ≡ find_in rank (key value) (objects t))

  remove_sub_lem :
      (value : ℕ) (t : Tree V)
      → IsAa t
      → Sorted rank (objects t)
      → Returns (Removed value t) (remove_sub node_cmp value t)
  unfolding remove_sub walk_sub
  remove_sub_lem value nil h s = ((nil, none), refl, ((h, inl (refl, λ lt. lt)), refl, refl))
  remove_sub_lem value (node l a v b) h s =
      let (_, ha, hb) = h in
      let (sa, below, above, sb) = Sorted-parts rank (objects a) v (objects b) s in
      elim (node_cmp-cases node_cmp key rank compares value v) [
        | inl (e, lt) ↦
            rw (e, remove_sub)
              (Returns-bind (remove_sub_lem value b hb sb) λ (b', gone) (low, content, found).
                Returns-bind (mended_right l a v b b' h low) λ t (lowered, same). (
                  (t, gone),
                  refl,
                  (
                    lowered,
                    same
                        ∙ ap (λ ys. objects a ++ v ∷ ys) content
                        ∙ sym
                            (remove_from-right rank (key value) (objects a) v (objects b) below lt),
                    found ∙ sym (find_in-right rank (key value) (objects a) v (objects b) below lt),
                  ),
                ))
        | inr (inl (e, lt)) ↦
            rw (e, remove_sub)
              (Returns-bind (remove_sub_lem value a ha sa) λ (a', gone) (low, content, found).
                Returns-bind (mended_left l a v b a' h low) λ t (lowered, same). (
                  (t, gone),
                  refl,
                  (
                    lowered,
                    same
                        ∙ ap (λ xs. xs ++ v ∷ objects b) content
                        ∙ sym
                            (remove_from-left rank (key value) (objects a) v (objects b) above lt),
                    found ∙ sym (find_in-left rank (key value) (objects a) v (objects b) above lt),
                  ),
                ))
        | inr (inr (e, eq)) ↦
            rw (e, remove_sub)
              (subst (Returns (Removed value (node l a v b)))
                (bind_assoc (drop_this_node l a v b) rebalance_on_remove (λ t. some (t, some v)))
                (Returns-bind (drop_root l a v b h) λ t (lowered, same). (
                  (t, some v),
                  refl,
                  (
                    lowered,
                    same
                        ∙ sym (
                            remove_from-present rank (key value) (objects a) v (objects b) below
                              eq),
                    sym (find_in-present rank (key value) (objects a) v (objects b) below eq),
                  ),
                )))
      ]

  abbrev released_with : Bool → Option V → List V → List V
  released_with releases none vs = vs
  released_with releases (some v) vs = if releases then v ∷ vs else vs

  -- For values and nodes that node_cmp compares by ranks: aatree_remove on a valid tree writes no field of NIL and gives a
  -- valid tree (AA shape, ascending ranks, count), whose in-order walk is that of the old tree without the node of the value's rank,
  -- and release_cb, if it is not NULL, is called exactly for that node, if there is one.
  pub aatree_remove_lem :
      (tree : AaTree V) (value : ℕ)
      → IsValid node_cmp key rank compares tree
      → Returns
          (λ tree'.
            IsValid node_cmp key rank compares tree'
            × (objects tree'.root ≡ remove_from rank (key value) (objects tree.root))
            × (tree'.released
                ≡ released_with tree.releases
                    (find_in rank (key value) (objects tree.root))
                    tree.released))
          (aatree_remove node_cmp tree value)
  unfolding aatree_remove
  aatree_remove_lem tree value (h, sorted, counted) =
      let sorted' = Sorted-remove_from rank (key value) (objects tree.root) sorted in
      Returns-bind (remove_sub_lem value tree.root h sorted) λ (t, gone) (low, content, found).
        elim (length-remove_from rank (key value) (objects tree.root)) [
          | inl (missing, size) ↦
              rw (found, missing)
                (
                  record tree { root = t },
                  refl,
                  (
                    (
                      low.0,
                      subst (Sorted rank) (sym content) sorted',
                      counted ∙ sym size ∙ ap length (sym content),
                    ),
                    content,
                    refl,
                  ),
                )
          | inr (v, present, size) ↦
              rw (found, present)
                (
                  record tree {
                    root = t;
                    count = tree.count - 1;
                    released = if tree.releases then v ∷ tree.released else tree.released;
                  },
                  refl,
                  (
                    (
                      low.0,
                      subst (Sorted rank) (sym content) sorted',
                      omega (arith, ap length content),
                    ),
                    content,
                    refl,
                  ),
                )
        ]

  -- For values and nodes that node_cmp compares by ranks: after the removal of a value from a valid tree, a search for
  -- that rank finds nothing, and a search for any other rank finds what it found before.
  pub aatree_search-remove :
      (tree : AaTree V) (value other : ℕ)
      → IsValid node_cmp key rank compares tree
      → Returns
          (λ tree'.
            aatree_search node_cmp tree' other
            ≡ (if key other == key value then none else aatree_search node_cmp tree other))
          (aatree_remove node_cmp tree value)
  unfolding aatree_search
  aatree_search-remove tree value other (h, s, c) =
      Returns-map (aatree_remove_lem tree value (h, s, c)) λ tree' ((h', s', c'), content, _).
        rw
          (
            search_sub_lem node_cmp key rank compares tree'.root other s',
            content,
            search_sub_lem node_cmp key rank compares tree.root other s,
          )
          (find_in-remove_from rank (key other) (key value) (objects tree.root) s)
