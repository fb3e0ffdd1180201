-- ===== src/Heap/Tests.antt =====
-- Runs of the heap of usual/heap.c, and its theorems at concrete heaps.
use libusual_archive.Base.{
  ℕ, ◌+◌, ◌-◌, ◌<◌, ◌≡◌, ◌^◌, refl, Bool, true, false, some, arith, ltb, Returns, ◌⊎◌, update,
  ◌>>=◌, Option,
}
use libusual_archive.Heap.{
  Heap, Ptr, heap_create, heap_reserve, heap_push, heap_remove, heap_pop, heap_top, append,
  rebalance, bubble_up, bubble_down, is_better, swap, set, load, get_child, get_parent, pick_child,
}
use libusual_archive.Heap.Order.{IsOrder, InOrder, count}
use libusual_archive.Heap.Push.{Pushed, heap_push_lem}
use libusual_archive.Heap.Remove.{Removed, heap_remove_lem}
use libusual_archive.Heap.Reach.{IsValid, Reach, created, pushed, heap_pop_lem, Reach-IsValid}

-- The smaller address first.
abbrev smaller : Ptr → Ptr → Bool
smaller a b = ltb a b

smaller-IsOrder : IsOrder smaller
smaller-IsOrder = record { asym = λ a b h. ground arith; trans = λ a b c h k. ground arith }

-- Five objects in 32 cells.
abbrev sample : Heap
sample = record { cells = λ i. i + 3; allocated = 32; used = 5; saved = λ p. p - 3; tracks = true }

sample-InOrder : InOrder smaller sample
sample-InOrder c p q = ground arith

-- A push, then two pops: the objects come out best first.
pop_push : Option (Ptr × Ptr × ℕ)
unfolding heap_push heap_pop heap_remove append rebalance bubble_up bubble_down is_better swap set
    load get_child get_parent pick_child heap_reserve
pop_push = do
  (done, h) ← heap_push smaller true sample 1
  (p, h) ← heap_pop smaller h
  (q, h) ← heap_pop smaller h
  some (p, q, h.used)

pop_push_run : pop_push ≡ some (1, 3, 4)
unfolding pop_push
pop_push_run = refl

-- A count that overflows: the call succeeds and gives no room.
reserve_overflow : heap_reserve true sample (2 ^ 32 - 1) ≡ (true, sample)
unfolding heap_reserve
reserve_overflow = refl

heap_push_lem_example :
    Returns
      (λ r.
        (r.0 ≡ true) × Pushed smaller sample 1 r.1
        ⊎ (r.0 ≡ false)
          × (r.1 ≡ sample)
          × (◌≡◌ {A = Bool} true false)
          × (sample.used ≡ sample.allocated))
      (heap_push smaller true sample 1)
heap_push_lem_example =
    heap_push_lem smaller-IsOrder true sample 1 (omega arith, omega arith) (omega arith)
      sample-InOrder

heap_remove_lem_example :
    Returns (λ r. (r.0 ≡ 4) × Removed smaller sample 4 r.1) (heap_remove smaller sample 1)
heap_remove_lem_example =
    heap_remove_lem smaller-IsOrder sample 1 (omega arith, omega arith) sample-InOrder (omega arith)

heap_pop_lem_example :
    Returns
      (λ r.
        (heap_top sample ≡ some r.0)
        × ((i : ℕ) → i < 5 → smaller (i + 3) r.0 ≡ false)
        × Removed smaller sample r.0 r.1)
      (heap_pop smaller sample)
heap_pop_lem_example =
    heap_pop_lem smaller-IsOrder sample (omega arith, omega arith) sample-InOrder (omega arith)

abbrev empty_heap : Heap
empty_heap = record { cells = λ i. 0; allocated = 0; used = 0; saved = λ p. 0; tracks = true }

empty_heap-Reach : Reach smaller empty_heap
unfolding heap_create
empty_heap-Reach = created true true (λ i. 0) (λ p. 0) refl

-- The same heap after a push.
abbrev one_object : Heap
one_object = record {
  cells = update (λ i. 0) 0 7;
  allocated = 32;
  used = 1;
  saved = update (λ p. 0) 7 0;
  tracks = true;
}

one_object-Reach : Reach smaller one_object
unfolding pop_push heap_push append bubble_up set heap_reserve count
one_object-Reach = pushed true 7 empty_heap-Reach (omega arith) refl refl

Reach-IsValid_example : IsValid smaller one_object
Reach-IsValid_example = Reach-IsValid smaller-IsOrder one_object-Reach
