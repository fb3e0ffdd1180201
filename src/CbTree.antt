-- ===== src/CbTree.antt =====
-- usual/cbtree.c: the crit-bit tree of objects under keys of bytes.
pub mod Byte
pub mod Critical
pub mod Shape
pub mod Insert
pub mod Delete
pub mod Walk
pub mod Contract
pub mod Changes
pub mod Unique
pub mod AsIndex
mod Tests
use Prim.Native.Nat.{bit_and, bit_xor}
use libusual_archive.Base.{
  ℕ, zero, suc, ◌+◌, ◌-◌, ◌*◌, ◌/◌, ◌%◌, ◌^◌, Bool, true, false, not, ◌&&◌, Option, none, some,
  List, [], ◌∷◌, ◌++◌, ltb, leb, ◌==◌, if◌then◌else◌, ◌>>=◌, length, get_elem?,
}
use libusual_archive.Bits.{fls}

-- `SAME_KEY` and `MAX_KEY`.
abbrev pub same_key : ℕ
same_key = 2 ^ 64 - 1

abbrev pub max_key : ℕ
max_key = same_key / 8

-- A child is a node or an object, which the lowest bit of the pointer tells.
pub data Node (A : Type 0) : Type 0 where
  external : (obj : A) → Node A
  node : (bitpos : ℕ) (child0 child1 : Node A) → Node A

unfoldable pub get_bit : ℕ → List ℕ → Bool
get_bit bitpos key = elim (get_elem? key (bitpos / 8)) [
  | none ↦ false
  | some byte ↦ not (bit_and byte (2 ^ (7 - bitpos % 8)) == 0)
]

-- Both loops of find_crit_bit: where the keys differ, and the two bytes there. The shorter one is filled with zeros.
unfoldable pub find_diff : ℕ → List ℕ → List ℕ → Option (ℕ × ℕ × ℕ)
find_diff i [] [] = none
find_diff i (av ∷ a) (bv ∷ b) =
    let rest = find_diff (i + 1) a b in if av == bv then rest else some (i, av, bv)
find_diff i (av ∷ a) [] =
    let rest = find_diff (i + 1) a [] in if av == 0 then rest else some (i, av, 0)
find_diff i [] (bv ∷ b) =
    let rest = find_diff (i + 1) [] b in if 0 == bv then rest else some (i, 0, bv)

unfoldable pub crit_bit : Option (ℕ × ℕ × ℕ) → Option ℕ
crit_bit none = some same_key
crit_bit (some (i, av, bv)) = fls 32 (bit_xor av bv) >>= λ r. some ((i * 8 + (8 - r)) % 2 ^ 64)

-- The result is in an Option for the loop of fls.
unfoldable pub find_crit_bit : List ℕ → List ℕ → Option ℕ
find_crit_bit a b = crit_bit (find_diff 0 a b)

-- `released` are the calls of obj_free_cb, the latest last, and `frees` tells whether there is such a callback.
pub record CbTree (A : Type 0) : Type 0 where
  pub root : Option (Node A)
  pub frees : Bool
  pub released : List A

-- `granted` are the outcomes of the allocations here and below.
unfoldable pub cbtree_create : {A : Type 0} → Bool → Bool → Option (CbTree A)
cbtree_create frees granted =
    if granted then some (record { root = none; frees = frees; released = [] }) else none

-- The lengths are the same and memcmp gives 0.
unfoldable pub same_key_bytes : List ℕ → List ℕ → Bool
same_key_bytes [] [] = true
same_key_bytes (x ∷ xs) (y ∷ ys) = x == y && same_key_bytes xs ys
same_key_bytes xs ys = false

-- `obj_key_cb`.
module _ {A : Type 0} (obj_key : A → List ℕ) where
  unfoldable pub key_matches : A → List ℕ → Bool
  key_matches obj key = same_key_bytes (obj_key obj) key

  unfoldable pub raw_lookup : Node A → List ℕ → A
  raw_lookup (external obj) key = obj
  raw_lookup (node bitpos l r) key =
      let left = raw_lookup l key in
      let right = raw_lookup r key in if get_bit bitpos key then right else left

  unfoldable pub cbtree_lookup : CbTree A → List ℕ → Option A
  cbtree_lookup tree key = elim tree.root [
    | none ↦ none
    | some root ↦ let obj = raw_lookup root key in if key_matches obj key then some obj else none
  ]

  -- A new node above `old`, with the object on the side of its bit.
  unfoldable pub new_node : ℕ → List ℕ → A → Node A → Node A
  new_node newbit key obj old =
      if get_bit newbit key then node newbit old (external obj) else node newbit (external obj) old

  -- insert_at once its node is allocated: the loop goes down to the place, and the way to it stays.
  unfoldable pub insert_at : ℕ → List ℕ → A → Node A → Node A
  insert_at newbit key obj (external old) = new_node newbit key obj (external old)
  insert_at newbit key obj (node bitpos l r) =
      let left = insert_at newbit key obj l in
      let right = insert_at newbit key obj r in
      if ltb bitpos newbit
      then (if get_bit bitpos key then node bitpos l right else node bitpos left r)
      else new_node newbit key obj (node bitpos l r)

  unfoldable pub cbtree_insert : Bool → CbTree A → A → Option (Bool × CbTree A)
  cbtree_insert granted tree obj = elim tree.root [
    | none ↦ some (true, record tree { root = some (external obj) })
    | some root ↦
        let key = obj_key obj in
        let placed = find_crit_bit key (obj_key (raw_lookup root key)) >>= λ newbit. some (
          if newbit == same_key
          then (false, tree)
          else if granted
          then (true, record tree { root = some (insert_at newbit key obj root) })
          else (false, tree)) in
        if ltb max_key (length key) then some (false, tree) else placed
  ]

  -- A node whose child is gone is replaced with the other child.
  unfoldable pub keep_left : ℕ → Option (Node A) → Node A → Node A
  keep_left bitpos none r = r
  keep_left bitpos (some l) r = node bitpos l r

  unfoldable pub keep_right : ℕ → Node A → Option (Node A) → Node A
  keep_right bitpos l none = l
  keep_right bitpos l (some r) = node bitpos l r

  -- What is left without the object at the end of the way.
  unfoldable pub drop_external : List ℕ → Node A → Option (Node A)
  drop_external key (external obj) = none
  drop_external key (node bitpos l r) =
      let left = keep_left bitpos (drop_external key l) r in
      let right = keep_right bitpos l (drop_external key r) in
      if get_bit bitpos key then some right else some left

  unfoldable pub release : CbTree A → A → List A
  release tree obj = if tree.frees then tree.released ++ obj ∷ [] else tree.released

  unfoldable pub cbtree_delete : CbTree A → List ℕ → Bool × CbTree A
  cbtree_delete tree key = elim tree.root [
    | none ↦ (false, tree)
    | some root ↦
        let obj = raw_lookup root key in
        if key_matches obj key
        then (true, record tree { root = drop_external key root; released = release tree obj })
        else (false, tree)
  ]

-- The calls of obj_free_cb.
pub destroy_node : {A : Type 0} → Node A → List A
destroy_node (external obj) = obj ∷ []
destroy_node (node bitpos l r) = destroy_node l ++ destroy_node r

pub cbtree_destroy : {A : Type 0} → CbTree A → CbTree A
cbtree_destroy tree = elim tree.root [
  | none ↦ tree
  | some root ↦ record tree {
    root = none;
    released = if tree.frees then tree.released ++ destroy_node root else tree.released;
  }
]

-- `cb_func` changes a state and tells whether to go on.
unfoldable pub walk : {A S : Type 0} → (S → A → Bool × S) → Node A → S → Bool × S
walk cb_func (external obj) s = cb_func s obj
walk cb_func (node bitpos l r) s =
    let (ok, s') = walk cb_func l s in
    let rest = walk cb_func r s' in if ok then rest else (false, s')

unfoldable pub cbtree_walk : {A S : Type 0} → (S → A → Bool × S) → CbTree A → S → Bool × S
cbtree_walk cb_func tree s = elim tree.root [ none ↦ (true, s) | some root ↦ walk cb_func root s ]
