-- ===== src/AaTree/Reach.antt =====
-- usual/aatree.c: every tree that the calls of the API lead to is valid and balanced.
use libusual_archive.Base.{
  ℕ, ◌+◌, ◌*◌, ◌^◌, ◌≤◌, ◌≡◌, refl, subst, sym, Bool, true, Option, none, some, List, [], ◌∷◌,
  arith, ◌>>=◌, Returns-some,
}
use mathlib.Core.List.{reverse_aux}
use mathlib.Core.Option.{some-injective}
use libusual_archive.AaTree.{
  Sign, nil, AaTree, post_order, aatree_init, aatree_insert, aatree_remove, aatree_destroy,
  call_release, walk_sub,
}
use libusual_archive.AaTree.Content.{sign_of}
use libusual_archive.AaTree.Insert.{IsValid, aatree_insert_lem}
use libusual_archive.AaTree.Remove.{aatree_remove_lem}
use libusual_archive.AaTree.Height.{height, height_bound}

module _ {V : Type 0} (node_cmp : ℕ → V → Sign) (key : ℕ → ℕ) (rank : V → ℕ)
    (compares : (k : ℕ) (v : V) → node_cmp k v ≡ sign_of (key k) (rank v)) where
  -- Calls on one tree, from aatree_init on. A node is inserted under a value of its rank.
  pub data Reach : AaTree V → Type 0 where
    init : (releases : Bool) → Reach (aatree_init releases)
    insert :
        {tree tree' : AaTree V}
        → Reach tree
        → (value : ℕ) (new : V) → key value ≡ rank new
        → aatree_insert node_cmp tree value new ≡ some tree'
        → Reach tree'
    remove :
        {tree tree' : AaTree V}
        → Reach tree
        → (value : ℕ) → aatree_remove node_cmp tree value ≡ some tree'
        → Reach tree'
    destroy : {tree tree' : AaTree V} → Reach tree → aatree_destroy tree ≡ some tree' → Reach tree'

  empty-IsValid :
      (tree tree' : AaTree V) (o : Option (List V))
      → (o >>= λ released. some (record tree { root = nil; count = 0; released = released }))
        ≡ some tree'
      → IsValid node_cmp key rank compares tree'
  unfolding walk_sub
  empty-IsValid tree tree' none done = absurd (none_some done)
    where
      none_some : {A : Type 0} {a : A} → none ≡ some a → ⊥
      none_some h = ground arith
  empty-IsValid tree tree' (some released) done =
      subst (IsValid node_cmp key rank compares) (some-injective _ tree' done) (tt, tt, refl)

  call_release_lem :
      (vs released : List V) → call_release true vs released ≡ some (reverse_aux vs released)
  unfolding call_release
  call_release_lem [] released = refl
  call_release_lem (v ∷ vs) released = call_release_lem vs (v ∷ released)

  -- aatree_destroy of a tree with a release_cb calls it for every node, those below a node before it, and leaves an empty tree.
  pub aatree_destroy_lem :
      (tree : AaTree V)
      → tree.releases ≡ true
      → aatree_destroy tree
        ≡ some (record tree {
          root = nil;
          count = 0;
          released = reverse_aux (walk_sub post_order tree.root) tree.released;
        })
  unfolding aatree_destroy
  aatree_destroy_lem tree e =
      rw (e, call_release_lem (walk_sub post_order tree.root) tree.released) refl

  stays-IsValid : {tree : AaTree V} → Reach tree → IsValid node_cmp key rank compares tree
  unfolding aatree_init aatree_destroy walk_sub
  stays-IsValid (init releases) = (tt, tt, refl)
  stays-IsValid (insert {tree} r value new e done) =
      (Returns-some
        (aatree_insert_lem node_cmp key rank compares tree value new (stays-IsValid r) e) done).0
  stays-IsValid (remove {tree} r value done) =
      (Returns-some (aatree_remove_lem node_cmp key rank compares tree value (stays-IsValid r))
        done).0
  stays-IsValid (destroy {tree} {tree'} r done) =
      empty-IsValid tree tree'
        (call_release tree.releases (walk_sub post_order tree.root) tree.released) done

  abbrev pub IsBalanced : AaTree V → Type 0
  IsBalanced tree =
      IsValid node_cmp key rank compares tree
      × (2 ^ height tree.root ≤ (tree.count + 1) * (tree.count + 1))

  -- For values and nodes that node_cmp compares by ranks: every tree that inserts, removes and destroys which return lead to from
  -- aatree_init has the AA shape, ascending ranks and the right count, and 2 ^ height is at most (count + 1) ^ 2.
  pub Reach-IsBalanced : (tree : AaTree V) → Reach tree → IsBalanced tree
  Reach-IsBalanced tree r =
      let (h, s, c) = stays-IsValid r in
      (
        (h, s, c),
        subst (λ n. 2 ^ height tree.root ≤ (n + 1) * (n + 1)) (sym c) (height_bound tree.root h),
      )
