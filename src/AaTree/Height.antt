-- ===== src/AaTree/Height.antt =====
-- usual/aatree.c: the trees are balanced, so every walk from the root is short.
use libusual_archive.Base.{
  ℕ, suc, ◌+◌, ◌*◌, ◌^◌, ◌<◌, ◌≤◌, ◌≡◌, arith, inl, inr, ◌∷◌, length, length-append,
}
use Prim.Native.Nat.{max}
use native.Mathlib.Nat.{pow-suc, mul-le-mul, pow-le-pow_right}
use libusual_archive.Base.Bits.{pow_sum}
use libusual_archive.AaTree.{Tree, nil, node, level, right, walk_sub, in_order}
use libusual_archive.AaTree.Shape.{IsAa}
use libusual_archive.AaTree.Order.{objects}

module _ {V : Type 0} where
  -- The nodes on the longest path from the root: a bound on the rounds of aatree_search and on the depth of the
  -- recursions.
  unfoldable pub height : Tree V → ℕ
  height nil = 0
  height (node l a v b) = suc (max (height a) (height b))

  -- A red node stands above black ones only.
  height-le-level :
      (t : Tree V)
      → IsAa t
      → (height t ≤ 2 * level t) × (level (right t) < level t → height t + 1 ≤ 2 * level t)
  unfolding height
  height-le-level nil h = (omega arith, λ lt. absurd (omega arith))
  height-le-level (node l a v b) ((h1, h2, h3), ha, hb) =
      let (a_low, _) = height-le-level a ha in
      let (b_low, b_black) = height-le-level b hb in
      elim h2 [
        | inl red ↦ let b_tight = b_black (omega arith) in (omega arith, λ lt. absurd (omega arith))
        | inr black ↦ (omega arith, λ lt. omega arith)
      ]

  -- Each level doubles the number of nodes.
  level-le-size : (t : Tree V) → IsAa t → 2 ^ level t ≤ length (objects t) + 1
  unfolding walk_sub
  level-le-size nil h = omega arith
  level-le-size (node l a v b) ((h1, h2, h3), ha, hb) =
      let size = length-append (objects a) (v ∷ objects b) in
      let grows : 2 ^ level a ≤ 2 ^ level b = pow-le-pow_right (omega arith) (omega arith) in
      let e : l ≡ suc (level a) = omega arith in
      rw e (omega (arith, size, grows, pow-suc 2 (level a), level-le-size a ha, level-le-size b hb))

  -- In a tree of the AA shape with n objects, 2 ^ height is at most (n + 1) ^ 2: the height is at most twice the
  -- logarithm of n + 1.
  pub height_bound :
      (t : Tree V)
      → IsAa t
      → 2 ^ height t ≤ (length (walk_sub in_order t) + 1) * (length (walk_sub in_order t) + 1)
  height_bound t h =
      let twice : 2 * level t ≡ level t + level t = omega arith in
      let low : 2 ^ height t ≤ 2 ^ (level t + level t) =
        pow-le-pow_right (omega arith) (omega (arith, (height-le-level t h).0)) in
      let size = level-le-size t h in
      omega (arith, low, pow_sum (level t) (level t), mul-le-mul size size)
