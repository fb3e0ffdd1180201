-- ===== src/LinkedList/Tests.antt =====
-- usual/list.h, usual/statlist.h and usual/list.c at concrete memories.
use libusual_archive.Base.{
  ℕ, update, ◌^◌, ◌<◌, ◌≤◌, ◌≡◌, refl, Bool, List, [], ◌∷◌, ◌++◌, arith, leb, Returns, length,
}
use libusual_archive.LinkedList.{
  Links, StatList, list_init, list_prepend, list_append, list_sort, statlist_init, statlist_append,
  statlist_count,
}
use libusual_archive.LinkedList.Sort.{merge, add_fragment, collect, merge_all, sort_nodes}
use libusual_archive.LinkedList.Ring.{IsList}
use libusual_archive.LinkedList.Counted.{Runs, init, append, Runs-IsCounted}
use libusual_archive.LinkedList.Restore.{list_sort_lem}
use libusual_archive.LinkedList.Sort.Order.{IsSorted, with_rank}
use libusual_archive.LinkedList.Sort.Stack.{collect_bound}

abbrev blank : Links
blank = record { next = λ a. 0; prev = λ a. 0 }

-- The list 1 with the nodes 3 and 2.
abbrev two_nodes : Links
two_nodes = record {
  next = update (update (update (λ a. 0) 1 3) 3 2) 2 1;
  prev = update (update (update (λ a. 0) 1 2) 2 3) 3 1;
}

abbrev ranks : ℕ → ℕ
ranks a = a

abbrev compare_nodes : ℕ → ℕ → Bool
compare_nodes p q = leb (ranks p) (ranks q)

abbrev nodes : List ℕ
nodes = 3 ∷ 2 ∷ []

two_nodes-IsList : IsList two_nodes 1 (3 ∷ 2 ∷ [])
two_nodes-IsList = (
  (refl, refl, (refl, refl, (refl, refl))),
  (((omega arith), ((omega arith), tt)), (((omega arith), tt), (tt, tt))),
)

built : (list_append (list_prepend (list_init blank 1) 1 3) 1 2).next 3 ≡ 2
unfolding list_init list_prepend list_append
built = refl

sorted_two : sort_nodes compare_nodes (3 ∷ 1 ∷ 2 ∷ 5 ∷ 4 ∷ []) ≡ 1 ∷ 2 ∷ 3 ∷ 4 ∷ 5 ∷ []
unfolding sort_nodes collect add_fragment merge merge_all
sorted_two = refl

abbrev counted_one : StatList × Links
counted_one = statlist_append ((statlist_init blank 1).0) ((statlist_init blank 1).1) 2

one_run : Runs (counted_one.0) (counted_one.1) ([] ++ 2 ∷ [])
unfolding statlist_init
one_run = append (init blank 1) 2 ((omega arith), tt) (omega arith)

Runs-IsCounted_example :
    IsList (counted_one.1) (counted_one.0.head) ([] ++ 2 ∷ [])
    × (statlist_count (counted_one.0) ≡ 1)
    × (1 < 2 ^ 31)
Runs-IsCounted_example = Runs-IsCounted one_run

list_sort_lem_example :
    Returns
      (λ s'.
        (ys : List ℕ) × IsList s' 1 ys
        × IsSorted compare_nodes ranks (λ x y. refl) ys
        × ((r : ℕ)
            → with_rank compare_nodes ranks (λ x y. refl) r ys
              ≡ with_rank compare_nodes ranks (λ x y. refl) r (3 ∷ 2 ∷ [])))
      (list_sort compare_nodes 3 two_nodes 1)
list_sort_lem_example =
    list_sort_lem compare_nodes ranks (λ x y. refl) 3 two_nodes 1 (3 ∷ 2 ∷ []) two_nodes-IsList
      (omega arith)

collect_bound_example : length (collect compare_nodes (3 ∷ 1 ∷ 2 ∷ []) []) ≤ 64
collect_bound_example = collect_bound compare_nodes (3 ∷ 1 ∷ 2 ∷ []) (omega arith)
