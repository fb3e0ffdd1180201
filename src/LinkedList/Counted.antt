-- ===== src/LinkedList/Counted.antt =====
-- usual/statlist.h: lists with a count.
use libusual_archive.Base.{
  ℕ, ◌+◌, ◌<◌, ◌^◌, ◌≡◌, refl, sym, ap, subst, Option, none, some, List, [], ◌∷◌, ◌++◌, arith,
  length, length-append,
}
use libusual_archive.Base.Word.{add32, sub32}
use libusual_archive.LinkedList.{
  Links, StatList, list_init, list_del, statlist_init, statlist_prepend, statlist_append,
  statlist_remove, statlist_pop, statlist_put_before, statlist_put_after, statlist_count,
}
use libusual_archive.LinkedList.Ring.{Avoids, IsList}
use libusual_archive.LinkedList.Edit.{
  list_prepend_lem, list_append_lem, list_del_lem, list_pop_first, list_pop-none,
}
use libusual_archive.LinkedList.Between.{list_append_before, list_prepend_after}

-- Calls on one counted list from statlist_init on, beside the sequence of nodes that they mean. A node that is put
-- in is in no list of this head, one that is taken out is in it, and the count stays in an `int`.
pub data Runs : StatList → Links → List ℕ → Type 0 where
  init : (s : Links) (head : ℕ) → Runs ((statlist_init s head).0) ((statlist_init s head).1) []
  prepend :
      {list : StatList} {s : Links} {xs : List ℕ}
      → Runs list s xs
      → (item : ℕ) → Avoids item (list.head ∷ xs)
      → length xs + 1 < 2 ^ 31
      → Runs ((statlist_prepend list s item).0) ((statlist_prepend list s item).1) (item ∷ xs)
  append :
      {list : StatList} {s : Links} {xs : List ℕ}
      → Runs list s xs
      → (item : ℕ) → Avoids item (list.head ∷ xs)
      → length xs + 1 < 2 ^ 31
      → Runs ((statlist_append list s item).0) ((statlist_append list s item).1) (xs ++ item ∷ [])
  put_before :
      {list : StatList} {s : Links} (xs : List ℕ) (pos : ℕ) (ys : List ℕ)
      → Runs list s (xs ++ pos ∷ ys)
      → (item : ℕ) → Avoids item (list.head ∷ xs ++ pos ∷ ys)
      → length (xs ++ pos ∷ ys) + 1 < 2 ^ 31
      → Runs
          ((statlist_put_before list s item pos).0)
          ((statlist_put_before list s item pos).1)
          (xs ++ item ∷ pos ∷ ys)
  put_after :
      {list : StatList} {s : Links} (xs : List ℕ) (pos : ℕ) (ys : List ℕ)
      → Runs list s (xs ++ pos ∷ ys)
      → (item : ℕ) → Avoids item (list.head ∷ xs ++ pos ∷ ys)
      → length (xs ++ pos ∷ ys) + 1 < 2 ^ 31
      → Runs
          ((statlist_put_after list s item pos).0)
          ((statlist_put_after list s item pos).1)
          (xs ++ pos ∷ item ∷ ys)
  remove :
      {list : StatList} {s : Links} (xs : List ℕ) (item : ℕ) (ys : List ℕ)
      → Runs list s (xs ++ item ∷ ys)
      → Runs ((statlist_remove list s item).0) ((statlist_remove list s item).1) (xs ++ ys)
  pop :
      {list : StatList} {s : Links} (x : ℕ) (xs : List ℕ)
      → Runs list s (x ∷ xs)
      → Runs ((statlist_pop list s).1) ((statlist_pop list s).2) xs
  pop_empty :
      {list : StatList} {s : Links}
      → Runs list s []
      → Runs ((statlist_pop list s).1) ((statlist_pop list s).2) []

counted_one_more :
    (c : ℕ) (xs : List ℕ) (item : ℕ) (ys : List ℕ)
    → c ≡ length (xs ++ ys)
    → length (xs ++ ys) + 1 < 2 ^ 31
    → (add32 c 1 ≡ length (xs ++ item ∷ ys)) × (length (xs ++ item ∷ ys) < 2 ^ 31)
counted_one_more c xs item ys e lt = (
  omega (arith, length-append xs ys, length-append xs (item ∷ ys)),
  omega (arith, length-append xs ys, length-append xs (item ∷ ys)),
)

counted_one_less :
    (c : ℕ) (xs : List ℕ) (item : ℕ) (ys : List ℕ)
    → c ≡ length (xs ++ item ∷ ys)
    → length (xs ++ item ∷ ys) < 2 ^ 31
    → (sub32 c 1 ≡ length (xs ++ ys)) × (length (xs ++ ys) < 2 ^ 31)
counted_one_less c xs item ys e lt = (
  omega (arith, length-append xs ys, length-append xs (item ∷ ys)),
  omega (arith, length-append xs ys, length-append xs (item ∷ ys)),
)

unfoldable after_pop : StatList → Option ℕ × Links → Option ℕ × StatList × Links
after_pop list (item, s) = (
  item,
  elim item [ none ↦ list | some i ↦ record list { cur_count = sub32 list.cur_count 1 } ],
  s,
)

statlist_pop_first :
    (list : StatList) (s : Links) (x : ℕ) (xs : List ℕ)
    → IsList s list.head (x ∷ xs)
    → statlist_pop list s
      ≡ (some x, record list { cur_count = sub32 list.cur_count 1 }, list_del s x)
unfolding statlist_pop after_pop
statlist_pop_first list s x xs ring = ap (after_pop list) ((list_pop_first s list.head x xs ring).0)

statlist_pop-none :
    (list : StatList) (s : Links) → IsList s list.head [] → statlist_pop list s ≡ (none, list, s)
unfolding statlist_pop after_pop
statlist_pop-none list s ring = ap (after_pop list) (list_pop-none s list.head ring)

-- Calls of statlist_init, _prepend, _append, _put_before, _put_after, _remove and _pop, also on an empty list, where a node that is put in is not
-- in the list, one that is taken out or put beside is in it, and there are never 2^31 nodes: every list that they lead to is a ring of the
-- nodes that the calls mean, in their order, and statlist_count is their number.
pub Runs-IsCounted :
    {list : StatList} {s : Links} {xs : List ℕ}
    → Runs list s xs
    → IsList s list.head xs × (statlist_count list ≡ length xs) × (length xs < 2 ^ 31)
unfolding statlist_count statlist_init list_init statlist_prepend statlist_append statlist_remove
    statlist_put_before statlist_put_after
Runs-IsCounted (init s head) = (((ground arith, ground arith), (tt, tt)), refl, omega arith)
Runs-IsCounted (prepend {list} {s} {xs} r item a lt) =
    let (ring, c, b) = Runs-IsCounted r in
    let (c', b') = counted_one_more list.cur_count [] item xs c lt in
    (list_prepend_lem s list.head item xs ring a, c', b')
Runs-IsCounted (append {list} {s} {xs} r item a lt) =
    let (ring, c, b) = Runs-IsCounted r in
    (
      list_append_lem s list.head item xs ring a,
      omega (arith, length-append xs (item ∷ [])),
      omega (arith, length-append xs (item ∷ [])),
    )
Runs-IsCounted (put_before {list} {s} xs pos ys r item a lt) =
    let (ring, c, b) = Runs-IsCounted r in
    let (c', b') = counted_one_more list.cur_count xs item (pos ∷ ys) c lt in
    (list_append_before s list.head item pos xs ys ring a, c', b')
Runs-IsCounted (put_after {list} {s} xs pos ys r item a lt) =
    let (ring, c, b) = Runs-IsCounted r in
    let before = length-append xs (pos ∷ ys) in
    let after = length-append xs (pos ∷ item ∷ ys) in
    (list_prepend_after s list.head item pos xs ys ring a, omega arith, omega arith)
Runs-IsCounted (remove {list} {s} xs item ys r) =
    let (ring, c, b) = Runs-IsCounted r in
    let (c', b') = counted_one_less list.cur_count xs item ys c b in
    ((list_del_lem s list.head item xs ys ring).0, c', b')
Runs-IsCounted (pop {list} {s} x xs r) =
    let (ring, c, b) = Runs-IsCounted r in
    let (c', b') = counted_one_less list.cur_count [] x xs c b in
    subst
      (λ (r : Option ℕ × StatList × Links).
        IsList r.2 r.1.head xs × (statlist_count r.1 ≡ length xs) × (length xs < 2 ^ 31))
      (sym (statlist_pop_first list s x xs ring))
      ((list_del_lem s list.head x [] xs ring).0, c', b')
Runs-IsCounted (pop_empty {list} {s} r) =
    let (ring, c, b) = Runs-IsCounted r in
    subst
      (λ (r : Option ℕ × StatList × Links).
        IsList r.2 r.1.head [] × (statlist_count r.1 ≡ 0) × (0 < 2 ^ 31))
      (sym (statlist_pop-none list s ring)) (ring, c, b)
