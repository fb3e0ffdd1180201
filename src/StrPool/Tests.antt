-- ===== src/StrPool/Tests.antt =====
-- usual/strpool.c with the crit-bit tree of usual/cbtree.c, on concrete strings.
use libusual_archive.Base.{
  ℕ, ◌≡◌, ◌↔◌, refl, true, false, none, some, List, [], ◌∷◌, arith, inl, update, Returns,
  IsInserted,
}
use libusual_archive.Index.{Index}
use libusual_archive.CbTree.{
  external, key_matches, same_key_bytes, raw_lookup, cbtree_create, cbtree_lookup, cbtree_insert,
  cbtree_delete, drop_external, release, walk, cbtree_walk,
}
use libusual_archive.CbTree.AsIndex.{cbtree_index}
use libusual_archive.StrPool.{
  PStr, get_key, StrPool, length_of, strlen, load_bytes, int_inc, insert_str, create_str, get_str,
  free_str, strpool_create, strpool_get, strpool_incref, strpool_decref, strpool_free,
}
use libusual_archive.StrPool.Pool.{IsPool}
use libusual_archive.StrPool.Decref.{strpool_decref_lem}
use libusual_archive.StrPool.Runs.{IsCall, Holds, created, got, Holds-IsPool, Holds-interned}

abbrev tree : Index PStr get_key
tree = cbtree_index get_key

-- `ab` with its NUL, in memory at the address 100.
abbrev text : List ℕ
text = 97 ∷ 98 ∷ 0 ∷ []

abbrev ab : PStr
ab = record { address = 100; len = 2; str = text }

abbrev no_counts : ℕ → ℕ
no_counts address = 0

abbrev empty : StrPool tree.State
empty = record {
  tree = record { root = none; frees = false; released = [] };
  count = 0;
  refcnt = no_counts;
}

abbrev with_ab : StrPool tree.State
with_ab = record {
  tree = record { root = some (external ab); frees = false; released = [] };
  count = 1;
  refcnt = update no_counts 100 1;
}

abbrev without_ab : StrPool tree.State
without_ab = record {
  tree = record { root = none; frees = false; released = [] };
  count = 0;
  refcnt = update (update (update no_counts 100 1) 100 0) 100 0;
}

start : strpool_create tree true true no_counts ≡ some empty
unfolding strpool_create cbtree_create
start = refl

first_get : strpool_get tree (some 100) true empty text none ≡ some (some ab, with_ab)
unfolding strpool_get length_of strlen load_bytes cbtree_lookup get_str create_str insert_str
    cbtree_insert get_key int_inc
first_get = refl

-- The second time it is the same string, without an allocation.
second_get :
    strpool_get tree none true with_ab text (some 2)
    ≡ some (some ab, record with_ab { refcnt = update with_ab.refcnt 100 2 })
unfolding strpool_get length_of load_bytes cbtree_lookup raw_lookup key_matches same_key_bytes
    get_str get_key strpool_incref int_inc
second_get = refl

last_decref : strpool_decref tree (some ab) with_ab ≡ some without_ab
unfolding strpool_decref free_str cbtree_delete raw_lookup key_matches same_key_bytes drop_external
    release get_key
last_decref = refl

first-IsCall : IsCall tree (some 100) empty [] text none
unfolding length_of strlen get_key
first-IsCall = record {
  n = 2;
  is_length = refl;
  room = omega arith;
  is_key = ((omega arith, (omega arith, tt)), omega arith);
  fresh = λ address e x h. absurd h;
  few = omega arith;
  strings = omega arith;
}

ab-Holds : Holds tree with_ab (ab ∷ [])
ab-Holds = got (some 100) true empty text none (created no_counts start) first-IsCall first_get

one_of_one : IsInserted ab [] (ab ∷ [])
one_of_one = ([], [], refl, refl)

strpool_decref_lem_example :
    Returns (λ sp. IsPool tree sp []) (strpool_decref tree (some ab) with_ab)
strpool_decref_lem_example =
    strpool_decref_lem tree with_ab ab [] (ab ∷ []) (Holds-IsPool tree ab-Holds) one_of_one

Holds-IsPool_example : IsPool tree with_ab (ab ∷ [])
Holds-IsPool_example = Holds-IsPool tree ab-Holds

Holds-interned_example : (get_key ab ≡ get_key ab) ↔ (ab.address ≡ ab.address)
Holds-interned_example = Holds-interned tree ab ab ab-Holds (inl refl) (inl refl)

-- Freeing the pool clears the counter of each string that is left.
all_freed : strpool_free tree with_ab 100 ≡ 0
unfolding strpool_free cbtree_walk walk free_str
all_freed = refl
