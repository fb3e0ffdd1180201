-- ===== src/AaTree.antt =====
-- usual/aatree.c: a balanced search tree of nodes that the user's structures embed.
pub mod Shape
pub mod Lower
pub mod Mend
pub mod Order
pub mod Content
pub mod Erase
pub mod Remove
pub mod Height
pub mod Reach
pub mod Insert
pub mod Tests
use libusual_archive.Base.{
  ℕ, zero, suc, ◌+◌, ◌-◌, Bool, true, false, ◌||◌, Option, none, some, List, [], ◌∷◌, ◌++◌, ltb,
  ◌==◌, if◌then◌else◌, ◌>>=◌,
}

-- The sign of what `node_cmp` returns.
pub data Sign : Type 0 where
  negative equal positive : Sign

-- A tree of `struct AANode`: `nil` is the shared node NIL, and `node` has the level, the left child,
-- the user's object around the node, and the right child.
pub data Tree (V : Type 0) : Type 0 where
  nil : Tree V
  node : ℕ → Tree V → V → Tree V → Tree V

-- `enum AATreeWalkType`.
pub data WalkType : Type 0 where
  in_order pre_order post_order : WalkType

module _ {V : Type 0} where
  abbrev pub level : Tree V → ℕ
  level nil = 0
  level (node l a v b) = l

  abbrev pub right : Tree V → Tree V
  right nil = nil
  right (node l a v b) = b

  -- NIL is constant: `none` is a write to it.
  pub skew : Tree V → Option (Tree V)
  skew nil = some nil
  skew (node l nil v b) = if l == 0 then none else some (node l nil v b)
  skew (node l (node m c w d) v b) =
      if l == m then some (node m c w (node l d v b)) else some (node l (node m c w d) v b)

  pub split : Tree V → Option (Tree V)
  split nil = some nil
  split (node l a v nil) = if l == 0 then none else some (node l a v nil)
  split (node l a v (node m c w d)) =
      if l == level d
      then some (node (m + 1) (node l a v c) w d)
      else some (node l a v (node m c w d))

  pub rebalance_on_insert : Tree V → Option (Tree V)
  rebalance_on_insert current = skew current >>= split

  -- A write to a field of a node: `t->level`, and `t->right` by a step on the child.
  pub set_level : Tree V → ℕ → Option (Tree V)
  set_level nil l = none
  set_level (node m a v b) l = some (node l a v b)

  pub update_right : (Tree V → Option (Tree V)) → Tree V → Option (Tree V)
  update_right f nil = none
  update_right f (node l a v b) = do b' ← f b; some (node l a v b')

  -- The steps of rebalance_on_remove once the level has been lowered.
  pub reshape : Tree V → Option (Tree V)
  reshape lowered = do
    t ← skew lowered
    t ← update_right skew t
    t ← update_right (update_right skew) t
    t ← split t
    update_right split t

  -- `level - 1` is at least 0 at a node, and NIL is not lowered.
  pub rebalance_on_remove : Tree V → Option (Tree V)
  rebalance_on_remove nil = some nil
  rebalance_on_remove (node l a v b) =
      if ltb (level a) (l - 1) || ltb (level b) (l - 1)
      then (do
        b' ← if ltb (l - 1) (level b) then set_level b (l - 1) else some b
        reshape (node (l - 1) a v b'))
      else some (node l a v b)

  -- What is left, and the node that was leftmost.
  pub steal_leftmost : Tree V → Option (Tree V × V)
  steal_leftmost nil = none
  steal_leftmost (node l nil v b) = some (b, v)
  steal_leftmost (node l (node m c w d) v b) = do
    (a', leftmost) ← steal_leftmost (node m c w d)
    t ← rebalance_on_remove (node l a' v b)
    some (t, leftmost)

  -- The tree that takes the place of a node; `*new = *old` gives the stolen node the links and the level of the old one.
  -- The cleanup of the old node, the call of release_cb and `count--`, is in aatree_remove, which learns from remove_sub which node it was.
  pub drop_this_node : ℕ → Tree V → V → Tree V → Option (Tree V)
  drop_this_node l nil v b = some b
  drop_this_node l (node m c w d) v nil = some (node m c w d)
  drop_this_node l (node m c w d) v (node n e x f) = do
    (b', new) ← steal_leftmost (node n e x f)
    some (node l (node m c w d) new b')

  -- The order in which the walker is called.
  pub walk_sub : WalkType → Tree V → List V
  walk_sub wtype nil = []
  walk_sub in_order (node l a v b) = walk_sub in_order a ++ v ∷ walk_sub in_order b
  walk_sub post_order (node l a v b) = walk_sub post_order a ++ (walk_sub post_order b ++ v ∷ [])
  walk_sub pre_order (node l a v b) = v ∷ (walk_sub pre_order a ++ walk_sub pre_order b)

-- `struct AATree` without `node_cmp`. `releases` tells whether `release_cb` is not NULL, `released` lists its calls, the last one first.
pub record AaTree (V : Type 0) : Type 0 where
  pub root : Tree V
  pub count : ℕ
  pub releases : Bool
  pub released : List V

module _ {V : Type 0} where
  pub aatree_init : Bool → AaTree V
  aatree_init releases = record { root = nil; count = 0; releases = releases; released = [] }

  pub aatree_walk : AaTree V → WalkType → List V
  aatree_walk tree wtype = walk_sub wtype tree.root

  -- A call of a release_cb that is NULL is `none`.
  pub call_release : Bool → List V → List V → Option (List V)
  call_release releases [] released = some released
  call_release releases (v ∷ vs) released =
      let rest = call_release releases vs (v ∷ released) in if releases then rest else none

  -- `release_cb` is the walker.
  pub aatree_destroy : AaTree V → Option (AaTree V)
  aatree_destroy tree =
      call_release tree.releases (walk_sub post_order tree.root) tree.released >>= λ released.
      some (record tree { root = nil; count = 0; released = released })

-- The key is a `uintptr_t`.
module _ {V : Type 0} (node_cmp : ℕ → V → Sign) where
  -- The subtree, and whether a node was added, for `count`.
  pub insert_sub : ℕ → V → Tree V → Option (Tree V × Bool)
  insert_sub value new nil = some (node 1 nil new nil, true)
  insert_sub value new (node l a v b) = elim (node_cmp value v) [
    | positive ↦ do
      (b', added) ← insert_sub value new b
      t ← rebalance_on_insert (node l a v b')
      some (t, added)
    | negative ↦ do
      (a', added) ← insert_sub value new a
      t ← rebalance_on_insert (node l a' v b)
      some (t, added)
    | equal ↦ some (node l a v b, false)
  ]

  pub aatree_insert : AaTree V → ℕ → V → Option (AaTree V)
  aatree_insert tree value new = do
    (t, added) ← insert_sub value new tree.root
    some (record tree { root = t; count = if added then tree.count + 1 else tree.count })

  -- The subtree, and the node that was dropped.
  pub remove_sub : ℕ → Tree V → Option (Tree V × Option V)
  remove_sub value nil = some (nil, none)
  remove_sub value (node l a v b) = elim (node_cmp value v) [
    | positive ↦ do
      (b', gone) ← remove_sub value b
      t ← rebalance_on_remove (node l a v b')
      some (t, gone)
    | negative ↦ do
      (a', gone) ← remove_sub value a
      t ← rebalance_on_remove (node l a' v b)
      some (t, gone)
    | equal ↦ do t ← drop_this_node l a v b; t' ← rebalance_on_remove t; some (t', some v)
  ]

  pub aatree_remove : AaTree V → ℕ → Option (AaTree V)
  aatree_remove tree value = do
    (t, gone) ← remove_sub value tree.root
    some (elim gone [
      | none ↦ record tree { root = t }
      | some v ↦ record tree {
        root = t;
        count = tree.count - 1;
        released = if tree.releases then v ∷ tree.released else tree.released;
      }
    ])

  pub search_sub : Tree V → ℕ → Option V
  search_sub nil value = none
  search_sub (node l a v b) value = elim (node_cmp value v) [
    | positive ↦ search_sub b value
    | negative ↦ search_sub a value
    | equal ↦ some v
  ]

  -- `none` is NULL.
  pub aatree_search : AaTree V → ℕ → Option V
  aatree_search tree value = search_sub tree.root value
