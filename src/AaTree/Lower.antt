-- ===== src/AaTree/Lower.antt =====
-- usual/aatree.c: rebalance_on_remove mends a tree that lost a level on one side.
use libusual_archive.Base.{
  ℕ, suc, ◌+◌, ◌-◌, ◌≤◌, ◌<◌, ◌≡◌, refl, sym, ◌||◌, some, ltb, arith, Bool-cases, inl, inr, ◌⊎◌,
}
use libusual_archive.AaTree.{
  Tree, nil, node, level, right, skew, split, set_level, update_right, reshape, rebalance_on_remove,
}
use libusual_archive.AaTree.Shape.{IsAa, right_le}

module _ {V : Type 0} where
  -- What a removal from `t` leads to: a tree one level down, or of the same level, and then with a black right
  -- child if `t` has one.
  abbrev pub Lowered : Tree V → Tree V → Type 0
  Lowered t t' =
      IsAa t'
      × ((level t' ≡ level t) × (level (right t) < level t → level (right t') < level t')
          ⊎ (suc (level t') ≡ level t))

  skew_keeps :
      (l : ℕ) (a : Tree V) (v : V) (b : Tree V)
      → level a < l
      → skew (node l a v b) ≡ some (node l a v b)
  unfolding skew
  skew_keeps l nil v b lt = ground arith
  skew_keeps l (node m c w d) v b lt = ground arith

  split_keeps :
      (l : ℕ) (a : Tree V) (v : V) (b : Tree V)
      → level (right b) < l
      → split (node l a v b) ≡ some (node l a v b)
  unfolding split
  split_keeps l a v nil lt = ground arith
  split_keeps l a v (node m c w d) lt = ground arith

  skew_turns :
      (l : ℕ) (c : Tree V) (w : V) (d : Tree V) (v : V) (b : Tree V)
      → skew (node l (node l c w d) v b) ≡ some (node l c w (node l d v b))
  unfolding skew
  skew_turns l c w d v b = ground arith

  split_turns :
      (l : ℕ) (a : Tree V) (v : V) (m : ℕ) (c : Tree V) (w : V) (d : Tree V)
      → l ≡ level d
      → split (node l a v (node m c w d)) ≡ some (node (m + 1) (node l a v c) w d)
  unfolding split
  split_turns l a v m c w d e = ground arith

  skew-IsAa : (t : Tree V) → IsAa t → skew t ≡ some t
  skew-IsAa nil h = unfold skew in refl
  skew-IsAa (node l a v b) h = skew_keeps l a v b (omega arith)

  split-IsAa : (t : Tree V) → IsAa t → split t ≡ some t
  split-IsAa nil h = unfold split in refl
  split-IsAa (node l a v b) h = split_keeps l a v b (omega arith)

  -- The right child became too low, or the left child's right child is red: the steps of reshape then.
  pub right_gap_black :
      (k : ℕ) (c : Tree V) (w : V) (d : Tree V) (v : V) (b : Tree V)
      → IsAa (node k c w d)
      → IsAa b
      → suc (level d) ≡ k
      → suc (level b) ≡ k
      → reshape (node k (node k c w d) v b) ≡ some (node k c w (node k d v b))
  unfolding reshape update_right
  right_gap_black k c w d v b h g e f =
      let b_le = right_le b g in
      rw
        (
          skew_turns k c w d v b,
          skew_keeps k d v b (omega arith),
          skew-IsAa b g,
          split_keeps k c w (node k d v b) (omega arith),
          split_keeps k d v b (omega arith),
        )
        refl

  pub right_gap_red :
      (k : ℕ) (c : Tree V) (w : V) (e : Tree V) (x : V) (f : Tree V) (v : V) (b : Tree V)
      → IsAa (node k c w (node k e x f))
      → IsAa b
      → suc (level b) ≡ k
      → reshape (node k (node k c w (node k e x f)) v b)
        ≡ some (node (k + 1) (node k c w e) x (node k f v b))
  unfolding reshape update_right
  right_gap_red k c w e x f v b h g p =
      let b_le = right_le b g in
      rw
        (
          skew_turns k c w (node k e x f) v b,
          skew_turns k e x f v b,
          skew_keeps k f v b (omega arith),
          split_turns k c w k e x (node k f v b) refl,
          split_keeps k f v b (omega arith),
        )
        refl

  pub left_gap_red :
      (k : ℕ) (a : Tree V) (v : V) (c : Tree V) (w : V) (d : Tree V)
      → level a < k
      → level c < k
      → level d ≡ k
      → IsAa d
      → reshape (node k a v (node k c w d)) ≡ some (node (k + 1) (node k a v c) w d)
  unfolding reshape update_right
  left_gap_red k a v c w d p q r g =
      rw
        (
          skew_keeps k a v (node k c w d) p,
          skew_keeps k c w d q,
          skew-IsAa d g,
          split_turns k a v k c w d (sym r),
          split-IsAa d g,
        )
        refl

  pub left_gap_black :
      (k : ℕ) (a : Tree V) (v : V) (c : Tree V) (w : V) (d : Tree V)
      → level a < k
      → level c < k
      → level d < k
      → IsAa d
      → reshape (node k a v (node k c w d)) ≡ some (node k a v (node k c w d))
  unfolding reshape update_right
  left_gap_black k a v c w d p q r g =
      let d_le = right_le d g in
      rw
        (
          skew_keeps k a v (node k c w d) p,
          skew_keeps k c w d q,
          skew-IsAa d g,
          split_keeps k a v (node k c w d) r,
          split_keeps k c w d (omega arith),
        )
        refl

  -- The right child was red, and has been lowered: what reshape makes depends on its left child's right child `f`
  -- and its right child's right child `q`.
  pub left_gap_lowered :
      (k : ℕ) (a : Tree V) (v : V) (e : Tree V) (x : V) (f : Tree V) (w : V) (p : Tree V) (z : V)
      (q : Tree V)
      → level a < k
      → level f < k
      → level q < k
      → reshape (node k a v (node k (node k e x f) w (node k p z q)))
        ≡ some (node (k + 1) (node k a v e) x (node k f w (node k p z q)))
  unfolding reshape update_right
  left_gap_lowered k a v e x f w p z q h i j =
      rw
        (
          skew_keeps k a v (node k (node k e x f) w (node k p z q)) h,
          skew_turns k e x f w (node k p z q),
          skew_keeps k f w (node k p z q) i,
          split_turns k a v k e x (node k f w (node k p z q)) refl,
          split_keeps k f w (node k p z q) j,
        )
        refl

  pub left_gap_lowered_right :
      (k : ℕ) (a : Tree V) (v : V) (e : Tree V) (x : V) (f : Tree V) (w : V) (p : Tree V) (z : V)
      (q : Tree V)
      → level a < k
      → level f < k
      → level q ≡ k
      → reshape (node k a v (node k (node k e x f) w (node k p z q)))
        ≡ some (node (k + 1) (node k a v e) x (node (k + 1) (node k f w p) z q))
  unfolding reshape update_right
  left_gap_lowered_right k a v e x f w p z q h i j =
      rw
        (
          skew_keeps k a v (node k (node k e x f) w (node k p z q)) h,
          skew_turns k e x f w (node k p z q),
          skew_keeps k f w (node k p z q) i,
          split_turns k a v k e x (node k f w (node k p z q)) refl,
          split_turns k f w k p z q (sym j),
        )
        refl

  pub left_gap_lowered_left :
      (k : ℕ) (a : Tree V) (v : V) (e : Tree V) (x : V) (g : Tree V) (y : V) (h : Tree V) (w : V)
      (d : Tree V)
      → level a < k
      → level d ≡ k
      → reshape (node k a v (node k (node k e x (node k g y h)) w d))
        ≡ some (node (k + 1) (node k a v e) x (node (k + 1) (node k g y h) w d))
  unfolding reshape update_right
  left_gap_lowered_left k a v e x g y h w d i j =
      rw
        (
          skew_keeps k a v (node k (node k e x (node k g y h)) w d) i,
          skew_turns k e x (node k g y h) w d,
          skew_turns k g y h w d,
          split_turns k a v k e x (node k g y (node k h w d)) refl,
          split_turns k g y k h w d (sym j),
        )
        refl

  -- When rebalance_on_remove changes nothing, and what it hands to reshape.
  pub no_gap :
      (l : ℕ) (a : Tree V) (v : V) (b : Tree V)
      → l ≤ level a + 1
      → l ≤ level b + 1
      → rebalance_on_remove (node l a v b) ≡ some (node l a v b)
  unfolding rebalance_on_remove
  no_gap l a v b p q = elim (Bool-cases (ltb (level a) (l - 1) || ltb (level b) (l - 1))) [
    | inl e ↦ absurd (ground arith)
    | inr e ↦ rw e refl
  ]

  pub gap :
      (k : ℕ) (a : Tree V) (v : V) (b : Tree V)
      → (level a < k) ⊎ (level b < k)
      → level b ≤ k
      → rebalance_on_remove (node (suc k) a v b) ≡ reshape (node k a v b)
  unfolding rebalance_on_remove
  gap k a v b low le =
      let e : suc k - 1 ≡ k = omega arith in
      rw e (elim (Bool-cases (ltb (level a) k || ltb (level b) k)) [
        | inl f ↦ elim (Bool-cases (ltb k (level b))) [
          | inl g ↦ absurd (ground arith)
          | inr g ↦ rw (f, g) refl
        ]
        | inr f ↦ absurd (ground arith)
      ])

  pub gap_red :
      (k : ℕ) (a : Tree V) (v : V) (c : Tree V) (w : V) (d : Tree V)
      → level a < k
      → rebalance_on_remove (node (suc k) a v (node (suc k) c w d))
        ≡ reshape (node k a v (node k c w d))
  unfolding rebalance_on_remove set_level
  gap_red k a v c w d low =
      let e : suc k - 1 ≡ k = omega arith in
      rw e (elim (Bool-cases (ltb (level a) k || ltb (suc k) k)) [
        | inl f ↦ elim (Bool-cases (ltb k (suc k))) [
          | inl g ↦ rw (f, g) refl
          | inr g ↦ absurd (ground arith)
        ]
        | inr f ↦ absurd (ground arith)
      ])
