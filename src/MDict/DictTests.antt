-- ===== src/MDict/DictTests.antt =====
-- usual/mdict.c with the crit-bit tree of usual/cbtree.c, on a concrete dictionary.
use libusual_archive.Base.{
  ℕ, ◌+◌, ◌<◌, ◌≤◌, ◌≡◌, refl, sym, ◌∙◌, subst, true, Option, none, some, List, [], ◌∷◌, arith, inl,
  inr, OneOf, update, length, Returns,
}
use libusual_archive.Base.Word.{AreBytes}
use mathlib.Core.Option.{some-injective}
use libusual_archive.Index.{Index}
use libusual_archive.CbTree.{
  external, key_matches, same_key_bytes, raw_lookup, cbtree_create, cbtree_lookup, cbtree_insert,
  cbtree_delete,
}
use libusual_archive.CbTree.Critical.{IsKey}
use libusual_archive.CbTree.AsIndex.{cbtree_index}
use libusual_archive.MDict.{kind, estimate, prepend, emit, finish, decode, urldec_str}
use libusual_archive.MDict.Dict.{
  MDictElem, mdict_getkey, MDict, Granted, Outcomes, no_vptr, read_value, skip_and, read_pair,
  mdict_new, mdict_get_buf, mdict_get_str, insert_elem, create_elem, put_elem, mdict_put_str,
  mdict_del_key, put_pair, urldecode_loop, mdict_urldecode, mdict_urlencode,
}
use libusual_archive.MDict.Lookup.{IsDict}
use libusual_archive.MDict.Map.{IsFresh}
use libusual_archive.MDict.Removal.{IsRemoved, mdict_del_key_lem}
use libusual_archive.MDict.Decoding.{mdict_urldecode_lem}
use libusual_archive.MDict.Pairs.{IsValue}
use libusual_archive.MDict.Whole.{IsSource, IsWhole, mdict_urlencode-urldecode}
use libusual_archive.Base.{Bool, ◌≢◌, ◌&&◌, ◌||◌, leb}
use libusual_archive.Mbuf.State.{MBuf, mbuf_init_dynamic}
use libusual_archive.Mbuf.View.{IsValid}

abbrev tree : Index MDictElem mdict_getkey
tree = cbtree_index mdict_getkey

abbrev no_values : ℕ → Option (List ℕ)
no_values address = none

abbrev empty : MDict tree.State
empty = record { tree = record { root = none; frees = true; released = [] }; val = no_values }

-- The key `k` with the value `v`, at the address 8.
abbrev k : List ℕ
k = 107 ∷ []

abbrev v : List ℕ
v = 118 ∷ []

abbrev k_elem : MDictElem
k_elem = record { address = 8; key = k }

abbrev one : MDict tree.State
one = record {
  tree = record { root = some (external k_elem); frees = true; released = [] };
  val = update no_values 8 (some v);
}

abbrev all_granted : Granted
all_granted = record { vptr = true; kptr = true; el = some 8; node = true }

start : mdict_new tree true true no_values ≡ some empty
unfolding mdict_new cbtree_create
start = refl

put_one : mdict_put_str tree all_granted empty k (some v) ≡ some (true, one)
unfolding mdict_put_str no_vptr put_elem create_elem insert_elem cbtree_lookup cbtree_insert
put_one = refl

get_one : mdict_get_str tree one k ≡ some v
unfolding mdict_get_str mdict_get_buf cbtree_lookup raw_lookup key_matches same_key_bytes
    mdict_getkey
get_one = refl

del_one : (mdict_del_key tree one k).0 ≡ true
unfolding mdict_del_key cbtree_delete raw_lookup key_matches same_key_bytes mdict_getkey
del_one = refl

-- A free address: more than all that are in use.
abbrev above : List MDictElem → ℕ
above [] = 8
above (x ∷ xs) = x.address + 8 + above xs

above_all : (x : MDictElem) (xs : List MDictElem) → OneOf x xs → x.address < above xs
above_all x [] h = absurd h
above_all x (y ∷ xs) (inl e) = subst (λ t. t.address < y.address + 8 + above xs) e (omega arith)
above_all x (y ∷ xs) (inr h) = omega (arith, above_all x xs h)

abbrev outcomes : Outcomes tree.State
outcomes = record {
  text = λ s. true;
  el = λ d. some (above (tree.contents d.tree));
  node = λ d. true;
}

above-IsFresh : (d : MDict tree.State) → IsFresh tree (outcomes.el d) d
above-IsFresh d address e x m same =
    let place : above (tree.contents d.tree) ≡ address =
      some-injective (above (tree.contents d.tree)) address e in
    omega (arith, above_all x (tree.contents d.tree) m, same, place)

-- `k=v`.
read_one : mdict_urldecode tree outcomes empty (107 ∷ 61 ∷ 118 ∷ []) ≡ some (true, one)
unfolding mdict_urldecode urldecode_loop read_pair read_value skip_and put_pair create_elem
    insert_elem urldec_str decode estimate kind emit prepend finish cbtree_lookup cbtree_insert
read_one = refl

empty-IsDict : IsDict tree empty
empty-IsDict = record { valid = (tt, λ x h. absurd h); separate = λ x y h. absurd h }

short-IsKey : (key : List ℕ) → AreBytes key → length key ≤ 3 → IsKey key
short-IsKey key bytes small = (bytes, omega arith)

one-IsDict : IsDict tree one
unfolding mdict_getkey
one-IsDict = record {
  valid = (
    tt,
    λ x h. elim h [
      | inl e ↦ subst (λ t. IsKey t.key) e ((omega arith, tt), omega arith)
      | inr n ↦ absurd n
    ],
  );
  separate = λ x y h g e. elim h [
    | inl f ↦ elim g [ inl i ↦ sym f ∙ i | inr n ↦ absurd n ]
    | inr n ↦ absurd n
  ];
}

mdict_del_key_lem_example : IsRemoved tree one k (mdict_del_key tree one k)
mdict_del_key_lem_example = mdict_del_key_lem tree one k one-IsDict

mdict_urldecode_lem_example :
    Returns (λ r. IsDict tree (r.1)) (mdict_urldecode tree outcomes empty (107 ∷ 61 ∷ 118 ∷ []))
mdict_urldecode_lem_example =
    mdict_urldecode_lem tree outcomes empty (107 ∷ 61 ∷ 118 ∷ [])
      (omega arith, (omega arith, (omega arith, tt))) empty-IsDict short-IsKey above-IsFresh

-- isalnum in the C locale, and a buffer that can grow.
abbrev is_alnum : ℕ → Bool
is_alnum c = (leb 48 c && leb c 57) || ((leb 65 c && leb c 90) || (leb 97 c && leb c 122))

abbrev can_grow : MBuf → Bool
can_grow b = true

abbrev buffer : MBuf
buffer = mbuf_init_dynamic (λ i. 0)

buffer-IsValid : IsValid buffer
unfolding mbuf_init_dynamic
buffer-IsValid = record {
  cursors = omega arith;
  inside = omega arith;
  small = omega arith;
  byte = λ i. omega arith;
}

abbrev next_place : MDict tree.State → ℕ
next_place d = above (tree.contents d.tree)

one-IsSource : IsSource tree can_grow is_alnum one
unfolding mdict_getkey
one-IsSource = record {
  is_dict = one-IsDict;
  texts = λ el h. elim h [
    | inl e ↦
        subst (λ (t : MDictElem). AreBytes t.key × IsValue (one.val t.address)) e
          ((omega arith, tt), (omega arith, tt))
    | inr n ↦ absurd n
  ];
  keys = λ el h. elim h [
    | inl e ↦ subst (λ (t : MDictElem). IsKey t.key) e ((omega arith, tt), omega arith)
    | inr n ↦ absurd n
  ];
  written = λ el h. elim h [
    | inl e ↦ subst (λ (t : MDictElem). t.key ≡ [] → one.val t.address ≢ none) e (λ f. ground arith)
    | inr n ↦ absurd n
  ];
}

mdict_urlencode-urldecode_example :
    Returns
      (IsWhole tree can_grow is_alnum next_place one empty buffer)
      (mdict_urlencode tree can_grow is_alnum one buffer)
unfolding mbuf_init_dynamic
mdict_urlencode-urldecode_example =
    mdict_urlencode-urldecode tree can_grow is_alnum next_place one empty buffer
      (refl, refl, refl, refl) one-IsSource buffer-IsValid (omega arith) empty-IsDict refl
      above-IsFresh
