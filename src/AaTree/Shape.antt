-- ===== src/AaTree/Shape.antt =====
-- usual/aatree.c: the AA-tree properties, kept by both rebalancings without a write to NIL.
use libusual_archive.Base.{
  ℕ, suc, ◌+◌, ◌≤◌, ◌<◌, ◌≡◌, refl, Option, none, some, ◌==◌, arith, Bool-cases, inl, inr, ◌⊎◌,
  ==_iff, ==_false, sym, ◌∙◌,
}
use libusual_archive.AaTree.{Tree, nil, node, level, right, skew, split, rebalance_on_insert}

-- The result exists and has the property.
abbrev pub Good {ℓ} : {A : Type ℓ} → (A → Type 0) → Option A → Type 0
Good P none = ⊥
Good P (some a) = P a

module _ {V : Type 0} where
  -- The left child is one level down, the right child at most one, and the right child of the right child is below the node.
  abbrev pub Levels : ℕ → Tree V → Tree V → Type 0
  Levels l a b = (l ≡ level a + 1) × ((level b ≡ l) ⊎ (level b + 1 ≡ l)) × (level (right b) < l)

  abbrev pub IsAa : Tree V → Type 0
  IsAa nil = Unit
  IsAa (node l a v b) = Levels l a b × IsAa a × IsAa b

  pub right_le : (t : Tree V) → IsAa t → level (right t) ≤ level t
  right_le nil h = ground arith
  right_le (node l a v b) h = ground arith

  -- What an insertion into `t` leads to: a tree of the same level, or of the next one, that only if
  -- the right child of `t` was red, and then with a black right child.
  abbrev pub Raised : Tree V → Tree V → Type 0
  Raised t t' =
      IsAa t'
      × ((level t' ≡ level t)
          ⊎ (level t' ≡ suc (level t))
            × (level (right t) ≡ level t)
            × (level (right t') < level t'))

  pub insert_left :
      (l : ℕ) (a : Tree V) (v : V) (b a' : Tree V)
      → IsAa (node l a v b)
      → Raised a a'
      → Good (Raised (node l a v b)) (rebalance_on_insert (node l a' v b))
  unfolding rebalance_on_insert skew split
  insert_left l a v nil nil h r = ground arith
  insert_left l a v nil (node m c w d) h r = ground arith
  insert_left l a v (node n e x f) nil h r = ground arith
  insert_left l a v (node n e x f) (node m c w d) h r = elim (Bool-cases (l == m)) [
    | inl p ↦ elim (Bool-cases (m == n)) [
      | inl q ↦
          let ((h1, h2, h3), ha, hb) = h in
          let (r1, r2) = r in
          let e = (==_iff l m).0 p in
          let e2 = (==_iff m n).0 q in
          rw (p, q)
            (
              ((omega arith, inr (omega arith), omega arith), r1, hb),
              inr (omega arith, sym e2 ∙ sym e, omega arith),
            )
      | inr q ↦
          let ((h1, h2, h3), ha, hb) = h in
          let ((r1, r3, r4), r2) = r in
          let e = (==_iff l m).0 p in
          let ne = ==_false m n q in
          rw (p, q)
            (((omega arith, inl e, omega arith), r3, ((omega arith, h2, h3), r4, hb)), inl (sym e))
    ]
    | inr p ↦ elim (Bool-cases (l == level f)) [
      | inl q ↦ let (h1, h2, h3) = h.0 in let e = (==_iff l (level f)).0 q in absurd (omega arith)
      | inr q ↦
          let ((h1, h2, h3), ha, hb) = h in
          let (r1, r2) = r in
          let ne = ==_false l m p in
          elim r2 [
            | inl s ↦ rw (p, q) (((omega arith, h2, h3), r1, hb), inl refl)
            | inr (s, s2, s3) ↦ absurd (omega arith)
          ]
    ]
  ]

  pub insert_right :
      (l : ℕ) (a : Tree V) (v : V) (b b' : Tree V)
      → IsAa (node l a v b)
      → Raised b b'
      → Good (Raised (node l a v b)) (rebalance_on_insert (node l a v b'))
  unfolding rebalance_on_insert skew split
  insert_right l nil v b nil h r = ground arith
  insert_right l nil v b (node m c w d) h r = ground arith
  insert_right l (node n e x f) v b nil h r = ground arith
  insert_right l (node n e x f) v b (node m c w d) h r = elim (Bool-cases (l == n)) [
    | inl p ↦ let ((h1, h2, h3), ha, hb) = h in let e = (==_iff l n).0 p in absurd (omega arith)
    | inr p ↦ elim (Bool-cases (l == level d)) [
      | inl q ↦
          let ((h1, h2, h3), ha, hb) = h in
          let ((r1, r3, r4), r2) = r in
          let (r5, r6, r7) = r1 in
          let c_le = right_le c r3 in
          let e = (==_iff l (level d)).0 q in
          elim r2 [
            | inl s ↦
                rw (p, q)
                  (
                    (
                      (omega arith, inr (omega arith), omega arith),
                      ((omega arith, inr (omega arith), omega arith), ha, r3),
                      r4,
                    ),
                    inr (omega arith, omega arith, omega arith),
                  )
            | inr (s, s2, s3) ↦ absurd (omega arith)
          ]
      | inr q ↦ ground arith
    ]
  ]
