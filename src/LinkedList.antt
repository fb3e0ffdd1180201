-- ===== src/LinkedList.antt =====
-- usual/list.h, usual/statlist.h and usual/list.c: doubly linked circular lists.
pub mod Sort
pub mod Ring
pub mod Edit
pub mod Between
pub mod Restore
pub mod Counted
pub mod Tests
use libusual_archive.Base.{
  ℕ, zero, suc, ◌+◌, ◌-◌, Bool, Option, none, some, List, [], ◌∷◌, ◌==◌, if◌then◌else◌, ◌>>=◌,
  update,
}
use libusual_archive.Base.Word.{add32, sub32}
use libusual_archive.LinkedList.Sort.{sort_nodes}

-- The fields of every `struct List` in memory, by address. NULL is 0.
pub record Links : Type 0 where
  pub next : ℕ → ℕ
  pub prev : ℕ → ℕ

abbrev pub set_next : Links → ℕ → ℕ → Links
set_next s p v = record s { next = update s.next p v }

abbrev pub set_prev : Links → ℕ → ℕ → Links
set_prev s p v = record s { prev = update s.prev p v }

pub list_init : Links → ℕ → Links
list_init s list = set_next (set_prev s list list) list list

pub list_empty : Links → ℕ → Bool
list_empty s list = s.next list == list

pub list_prepend : Links → ℕ → ℕ → Links
list_prepend s list item =
    let s = set_next s item (s.next list) in
    let s = set_prev s item list in let s = set_prev s (s.next list) item in set_next s list item

pub list_append : Links → ℕ → ℕ → Links
list_append s list item =
    let s = set_next s item list in
    let s = set_prev s item (s.prev list) in
    let s = set_next s (s.prev list) item in set_prev s list item

pub list_del : Links → ℕ → Links
list_del s item =
    let s = set_next s (s.prev item) (s.next item) in
    let s = set_prev s (s.next item) (s.prev item) in
    let s = set_prev s item item in set_next s item (s.prev item)

-- The result is the node that is returned, none for NULL.
pub list_pop : Links → ℕ → Option ℕ × Links
list_pop s list =
    if list_empty s list then (none, s) else (some (s.next list), list_del s (s.next list))

pub list_first : Links → ℕ → Option ℕ
list_first s list = if list_empty s list then none else some (s.next list)

pub list_last : Links → ℕ → Option ℕ
list_last s list = if list_empty s list then none else some (s.prev list)

-- The first loop of list_sort: it takes the first node off the list until there is none.
pub take_nodes : ℕ → Links → ℕ → Option (List ℕ × Links)
take_nodes zero s list = none
take_nodes (suc fuel) s list =
    let p = s.next list in
    let taken = set_next (set_next s list (s.next p)) p 0 in
    let rest = take_nodes fuel taken list >>= λ (nodes, s'). some (p ∷ nodes, s') in
    if p == list then some ([], s) else rest

-- The last loop, over the nodes of the sorted fragment from `p` on. The `next` fields of these nodes, which merge
-- writes when it makes the fragment, are written here as well.
pub restore : Links → ℕ → ℕ → List ℕ → Links
restore s list p [] = set_next (set_prev s list p) p list
restore s list p (x ∷ xs) = restore (set_prev (set_next s p x) x p) list x xs

module _ (le : ℕ → ℕ → Bool) where
  pub list_sort : ℕ → Links → ℕ → Option Links
  list_sort fuel s list =
      if list_empty s list
      then some s
      else (take_nodes fuel s list >>= λ (nodes, s').
          some (restore s' list list (sort_nodes le nodes)))

-- `struct StatList`: `head` is its address, and `cur_count` the bits of an `int`.
pub record StatList : Type 0 where
  pub head : ℕ
  pub cur_count : ℕ

pub statlist_init : Links → ℕ → StatList × Links
statlist_init s head = (record { head = head; cur_count = 0 }, list_init s head)

pub statlist_prepend : StatList → Links → ℕ → StatList × Links
statlist_prepend list s item =
    (record list { cur_count = add32 list.cur_count 1 }, list_prepend s list.head item)

pub statlist_append : StatList → Links → ℕ → StatList × Links
statlist_append list s item =
    (record list { cur_count = add32 list.cur_count 1 }, list_append s list.head item)

pub statlist_remove : StatList → Links → ℕ → StatList × Links
statlist_remove list s item = (record list { cur_count = sub32 list.cur_count 1 }, list_del s item)

pub statlist_pop : StatList → Links → Option ℕ × StatList × Links
statlist_pop list s =
    let (item, s') = list_pop s list.head in
    (
      item,
      elim item [ none ↦ list | some i ↦ record list { cur_count = sub32 list.cur_count 1 } ],
      s',
    )

pub statlist_count : StatList → ℕ
statlist_count list = list.cur_count

pub statlist_first : StatList → Links → Option ℕ
statlist_first list s = list_first s list.head

pub statlist_last : StatList → Links → Option ℕ
statlist_last list s = list_last s list.head

pub statlist_empty : StatList → Links → Bool
statlist_empty list s = list_empty s list.head

pub statlist_put_before : StatList → Links → ℕ → ℕ → StatList × Links
statlist_put_before list s item pos =
    (record list { cur_count = add32 list.cur_count 1 }, list_append s pos item)

pub statlist_put_after : StatList → Links → ℕ → ℕ → StatList × Links
statlist_put_after list s item pos =
    (record list { cur_count = add32 list.cur_count 1 }, list_prepend s pos item)
