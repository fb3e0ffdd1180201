-- ===== src/AaTree/Tests.antt =====
-- usual/aatree.c at concrete trees: numbers as nodes, compared with a number as the key.
use libusual_archive.Base.{
  true, false, ℕ, ◌≡◌, refl, Option, none, some, List, [], ◌∷◌, ◌>>=◌, Returns,
}
use libusual_archive.AaTree.{
  Sign, nil, node, in_order, pre_order, AaTree, aatree_init, aatree_insert, aatree_remove,
  aatree_search, aatree_walk, aatree_destroy, call_release, WalkType, walk_sub, insert_sub,
  rebalance_on_insert, skew, split, remove_sub, drop_this_node, steal_leftmost, rebalance_on_remove,
  reshape, set_level, update_right,
}
use libusual_archive.AaTree.Content.{sign_of, insert_into}
use libusual_archive.AaTree.Order.{objects}
use libusual_archive.AaTree.Insert.{IsValid, aatree_insert_lem, aatree_search-insert}
use libusual_archive.AaTree.Remove.{aatree_remove_lem, aatree_search-remove}
use libusual_archive.AaTree.Reach.{Reach, insert, init, IsBalanced, Reach-IsBalanced}
use native.Mathlib.Omega.{arith}

abbrev compare_keys : ℕ → ℕ → Sign
compare_keys = sign_of

abbrev identity : ℕ → ℕ
identity n = n

abbrev three_nodes : AaTree ℕ
three_nodes = record {
  root = node 2 (node 1 nil 10 nil) 20 (node 1 nil 30 nil);
  count = 3;
  releases = true;
  released = [];
}

three_nodes-IsValid : IsValid compare_keys identity identity (λ k v. refl) three_nodes
unfolding walk_sub
three_nodes-IsValid = ((ground arith, ground arith, ground arith), ground arith, refl)

abbrev walk_and_count : WalkType → AaTree ℕ → List ℕ × ℕ × List ℕ
walk_and_count wtype t = (aatree_walk t wtype, t.count, t.released)

insert_all : List ℕ → AaTree ℕ → Option (AaTree ℕ)
insert_all [] tree = some tree
insert_all (x ∷ xs) tree = aatree_insert compare_keys tree x x >>= insert_all xs

walk_of_five :
    (insert_all (3 ∷ 1 ∷ 5 ∷ 2 ∷ 4 ∷ 3 ∷ []) (aatree_init true) >>= λ t.
    some (walk_and_count in_order t))
    ≡ some (1 ∷ 2 ∷ 3 ∷ 4 ∷ 5 ∷ [], 5, [])
unfolding insert_all aatree_insert aatree_init aatree_walk insert_sub rebalance_on_insert skew split
    walk_sub
walk_of_five = refl

after_removal :
    (aatree_remove compare_keys three_nodes 20 >>= λ t. some (walk_and_count pre_order t))
    ≡ some (10 ∷ 30 ∷ [], 2, 20 ∷ [])
unfolding aatree_remove aatree_walk remove_sub drop_this_node steal_leftmost rebalance_on_remove
    reshape skew split walk_sub set_level update_right
after_removal = refl

after_destroy :
    (aatree_destroy three_nodes >>= λ t. some (walk_and_count pre_order t))
    ≡ some ([], 0, 20 ∷ 30 ∷ 10 ∷ [])
unfolding aatree_destroy aatree_walk call_release walk_sub
after_destroy = refl

-- Without a release_cb a call through NULL.
destroy_null : aatree_destroy (record three_nodes { releases = false }) ≡ none
unfolding aatree_destroy call_release walk_sub
destroy_null = refl

aatree_insert_lem_example :
    Returns
      (λ tree'.
        IsValid compare_keys identity identity (λ k v. refl) tree'
        × (objects tree'.root ≡ insert_into identity 25 25 (objects (three_nodes.root)))
        × (tree'.released ≡ []))
      (aatree_insert compare_keys three_nodes 25 25)
aatree_insert_lem_example =
    aatree_insert_lem compare_keys identity identity (λ k v. refl) three_nodes 25 25
      three_nodes-IsValid refl

aatree_search-insert_example :
    Returns
      (λ tree'. aatree_search compare_keys tree' 10 ≡ aatree_search compare_keys three_nodes 10)
      (aatree_insert compare_keys three_nodes 25 25)
aatree_search-insert_example =
    aatree_search-insert compare_keys identity identity (λ k v. refl) three_nodes 25 10 25
      three_nodes-IsValid refl

aatree_remove_lem_example :
    Returns
      (λ tree'.
        IsValid compare_keys identity identity (λ k v. refl) tree'
        × (objects tree'.root ≡ 10 ∷ 30 ∷ [])
        × (tree'.released ≡ 20 ∷ []))
      (aatree_remove compare_keys three_nodes 20)
unfolding walk_sub
aatree_remove_lem_example =
    aatree_remove_lem compare_keys identity identity (λ k v. refl) three_nodes 20
      three_nodes-IsValid

aatree_search-remove_example :
    Returns
      (λ tree'. aatree_search compare_keys tree' 20 ≡ none)
      (aatree_remove compare_keys three_nodes 20)
aatree_search-remove_example =
    aatree_search-remove compare_keys identity identity (λ k v. refl) three_nodes 20 20
      three_nodes-IsValid

abbrev one_node : AaTree ℕ
one_node = record { root = node 1 nil 7 nil; count = 1; releases = true; released = [] }

one_node-Reach : Reach compare_keys identity identity (λ k v. refl) one_node
unfolding aatree_insert aatree_init insert_sub
one_node-Reach = insert (init true) 7 7 refl refl

Reach-IsBalanced_example : IsBalanced compare_keys identity identity (λ k v. refl) one_node
Reach-IsBalanced_example =
    Reach-IsBalanced compare_keys identity identity (λ k v. refl) one_node one_node-Reach
