-- ===== src/CbTree/Tests.antt =====
-- usual/cbtree.c on concrete keys: the objects are the keys themselves.
use libusual_archive.Base.{
  ℕ, ◌≡◌, refl, Bool, true, false, Option, none, some, List, [], ◌∷◌, ◌++◌, arith, Returns, OneOf,
  sym, subst, inl, inr,
}
use libusual_archive.CbTree.{
  CbTree, Node, external, node, get_bit, find_diff, crit_bit, find_crit_bit, key_matches,
  same_key_bytes, raw_lookup, new_node, insert_at, cbtree_create, cbtree_lookup, cbtree_insert,
  cbtree_delete, cbtree_destroy, cbtree_walk, destroy_node, drop_external, keep_left, keep_right,
  release,
}
use libusual_archive.Bits.{fls, fls_loop}
use libusual_archive.Index.{call_all, IsFound}
use libusual_archive.CbTree.Critical.{IsKey, SameBits, IsCritical, find_crit_bit_lem}
use libusual_archive.CbTree.Contract.{contents, IsCbTree, cbtree_lookup_lem}
use libusual_archive.CbTree.Changes.{
  IsNewInsertion, cbtree_insert_new, IsDeletion, cbtree_delete_lem, cbtree_walk_lem, Reach, created,
  inserted, Reach-IsCbTree,
}
use libusual_archive.CbTree.Walk.{IsAscending}

abbrev itself : List ℕ → List ℕ
itself key = key

-- The keys `ab` and `ad`, whose bytes 0x62 and 0x64 differ first in the bit 0x04.
abbrev ab : List ℕ
ab = 97 ∷ 98 ∷ []

abbrev ad : List ℕ
ad = 97 ∷ 100 ∷ []

abbrev tree_of : Option (Node (List ℕ)) → CbTree (List ℕ)
tree_of root = record { root = root; frees = true; released = [] }

abbrev one_key : CbTree (List ℕ)
one_key = tree_of (some (external ad))

abbrev two_keys : CbTree (List ℕ)
two_keys = tree_of (some (node 13 (external ab) (external ad)))

first_step : cbtree_insert itself true (tree_of none) ad ≡ some (true, one_key)
unfolding cbtree_insert
first_step = refl

second_step : cbtree_insert itself true one_key ab ≡ some (true, two_keys)
unfolding cbtree_insert raw_lookup find_crit_bit find_diff crit_bit fls fls_loop insert_at new_node
    get_bit
second_step = refl

-- A key that is there, or is there up to zeros at its end, is refused.
same_refused : cbtree_insert itself true two_keys ab ≡ some (false, two_keys)
unfolding cbtree_insert raw_lookup find_crit_bit find_diff crit_bit fls fls_loop insert_at new_node
    get_bit
same_refused = refl

zero_refused : cbtree_insert itself true two_keys (ab ++ 0 ∷ []) ≡ some (false, two_keys)
unfolding cbtree_insert raw_lookup find_crit_bit find_diff crit_bit fls fls_loop insert_at new_node
    get_bit
zero_refused = refl

-- ... and yet it is not found.
zero_not_found : cbtree_lookup itself two_keys (ab ++ 0 ∷ []) ≡ none
unfolding cbtree_lookup raw_lookup key_matches same_key_bytes get_bit
zero_not_found = refl

one_left : cbtree_delete itself two_keys ab ≡ (true, record one_key { released = ab ∷ [] })
unfolding cbtree_delete raw_lookup key_matches same_key_bytes get_bit drop_external keep_left
    keep_right release
one_left = refl

ab-IsKey : IsKey ab
ab-IsKey = ((omega arith, (omega arith, tt)), omega arith)

ad-IsKey : IsKey ad
ad-IsKey = ((omega arith, (omega arith, tt)), omega arith)

start : cbtree_create true true ≡ some (tree_of none)
unfolding cbtree_create
start = refl

two_keys-Reach : Reach itself two_keys
two_keys-Reach =
    inserted true one_key ab true
      (inserted true (tree_of none) ad true (created true start) ad-IsKey first_step) ab-IsKey
      second_step

Reach-IsCbTree_example : IsCbTree itself two_keys
Reach-IsCbTree_example = Reach-IsCbTree itself two_keys-Reach

find_crit_bit_lem_example : Returns (IsCritical ab ad) (find_crit_bit ab ad)
find_crit_bit_lem_example = find_crit_bit_lem ab ad ab-IsKey ad-IsKey

cbtree_lookup_lem_example : IsFound itself (contents two_keys) ad (cbtree_lookup itself two_keys ad)
cbtree_lookup_lem_example =
    cbtree_lookup_lem itself two_keys ad (Reach-IsCbTree itself two_keys-Reach)

-- The bit 6 of `b` is set, that of `a` is not.
other_bits : (k : List ℕ) → SameBits (98 ∷ []) (97 ∷ k) → ⊥
unfolding get_bit
other_bits k same = absurd (differs (same 6))
  where
    differs : true ≡ false → ⊥
    differs e = ground arith

b_clashes_not : (x : List ℕ) → OneOf x (contents two_keys) → SameBits (98 ∷ []) x → ⊥
b_clashes_not x (inl e) same = other_bits (98 ∷ []) (subst (SameBits (98 ∷ [])) (sym e) same)
b_clashes_not x (inr (inr none_left)) same = elim none_left [ ]
b_clashes_not x (inr (inl e)) same = other_bits (100 ∷ []) (subst (SameBits (98 ∷ [])) (sym e) same)

cbtree_insert_new_example :
    Returns
      (IsNewInsertion itself true (98 ∷ []) two_keys)
      (cbtree_insert itself true two_keys (98 ∷ []))
cbtree_insert_new_example =
    cbtree_insert_new itself true two_keys (98 ∷ []) (Reach-IsCbTree itself two_keys-Reach)
      ((omega arith, tt), omega arith) b_clashes_not

cbtree_delete_lem_example : IsDeletion itself ab two_keys (cbtree_delete itself two_keys ab)
cbtree_delete_lem_example =
    cbtree_delete_lem itself two_keys ab (Reach-IsCbTree itself two_keys-Reach)

-- Collecting the keys, as a callback that never stops.
abbrev collect : List (List ℕ) → List ℕ → Bool × List (List ℕ)
collect seen key = (true, seen ++ key ∷ [])

cbtree_walk_lem_example :
    IsAscending itself (contents two_keys)
    × (cbtree_walk collect two_keys [] ≡ call_all collect (contents two_keys) [])
cbtree_walk_lem_example =
    cbtree_walk_lem itself collect two_keys [] (Reach-IsCbTree itself two_keys-Reach)

all_released : (cbtree_destroy two_keys).released ≡ ab ∷ ad ∷ []
unfolding cbtree_destroy destroy_node
all_released = refl
