-- ===== src/Heap.antt =====
-- usual/heap.c: a binary heap in an array, best element first.
pub mod Order
pub mod Swap
pub mod Up
pub mod Down
pub mod Room
pub mod Push
pub mod Rebalance
pub mod Remove
pub mod Reach
mod Tests
use libusual_archive.Base.{
  ℕ, zero, suc, ◌+◌, ◌*◌, ◌/◌, ◌%◌, Bool, true, false, not, Option, none, some, ltb, leb, ◌==◌,
  if◌then◌else◌, ◌>>=◌, update,
}
use libusual_archive.Base.Word.{u32_mod, add32, sub32}

-- A `void *`; `null` is NULL. The heap compares and stores pointers, and never follows them.
abbrev pub Ptr : Type 0
Ptr = ℕ

abbrev pub null : Ptr
null = 0

-- `struct Heap` without its callbacks and allocator. `cells` is the memory behind `data`, of which the first
-- `allocated` cells may be accessed. `saved` is what the user's objects remember of `save_pos`, and
-- `tracks` says whether that callback is set.
pub record Heap : Type 0 where
  pub cells : ℕ → Ptr
  pub allocated : ℕ
  pub used : ℕ
  pub saved : Ptr → ℕ
  pub tracks : Bool

-- `h->data[i]`, a fault outside the allocation.
pub load : Heap → ℕ → Option Ptr
load h i = if ltb i h.allocated then some (h.cells i) else none

pub get_parent : ℕ → ℕ
get_parent i = sub32 i 1 / 2

pub get_child : ℕ → ℕ → ℕ
get_child i child_nr = (2 * i + 1 + child_nr) % u32_mod

pub set : Heap → ℕ → Ptr → Option Heap
set h i ptr =
    if ltb i h.allocated
    then some (record h {
      cells = update h.cells i ptr;
      saved = if h.tracks then update h.saved ptr i else h.saved;
    })
    else none

pub swap : Heap → ℕ → ℕ → Option Heap
swap h i1 i2 = do tmp ← load h i1; other ← load h i2; h' ← set h i1 other; set h' i2 tmp

-- `cx_realloc` and `cx_alloc0` return NULL or not: their outcome is the argument `granted`.
pub heap_reserve : (granted : Bool) → Heap → ℕ → Bool × Heap
heap_reserve granted h extra =
    if ltb (add32 h.used extra) h.allocated
    then (true, h)
    else let doubled = (h.allocated * 2) % u32_mod in
      let at_least = if ltb doubled 32 then 32 else doubled in
      let newalloc = if ltb at_least (add32 h.used extra) then add32 h.used extra else at_least in
      if granted then (true, record h { allocated = newalloc }) else (false, h)

-- The callback `save_pos` is set or not; the memory behind a NULL `data` has no cell to access.
pub heap_create : (granted : Bool) → (tracks : Bool) → (ℕ → Ptr) → (Ptr → ℕ) → Option Heap
heap_create granted tracks cells saved =
    if granted
    then some (record { cells = cells; allocated = 0; used = 0; saved = saved; tracks = tracks })
    else none

pub heap_size : Heap → ℕ
heap_size h = h.used

pub heap_top : Heap → Option Ptr
heap_top h = if ltb 0 h.used then load h 0 else some null

pub heap_get_obj : Heap → ℕ → Option Ptr
heap_get_obj h pos = if ltb pos h.used then load h pos else some null

module _ (better : Ptr → Ptr → Bool) where
  pub is_better : Heap → ℕ → ℕ → Option Bool
  is_better h i1 i2 = do a ← load h i1; b ← load h i2; some (better a b)

  pub bubble_up : ℕ → Heap → ℕ → Option Heap
  bubble_up zero h i = none
  bubble_up (suc fuel) h i =
      let p = get_parent i in
      let rise = swap h i p >>= λ h'. bubble_up fuel h' p in
      let round = is_better h i p >>= λ above. if above then rise else some h in
      if ltb 0 i then round else some h

  -- The better child of the node whose left child is `c`.
  pub pick_child : Heap → ℕ → Option ℕ
  pick_child h c =
      if ltb (add32 c 1) h.used
      then (do right ← is_better h (add32 c 1) c; some (if right then add32 c 1 else c))
      else some c

  pub bubble_down : ℕ → Heap → ℕ → Option Heap
  bubble_down zero h i = none
  bubble_down (suc fuel) h i =
      let round : Option Heap = do
        c ← pick_child h (get_child i 0)
        below ← is_better h c i
        let sink = swap h i c >>= λ h'. bubble_down fuel h' c
        if below then sink else some h
      in if ltb (get_child i 0) h.used then round else some h

  -- A loop gets as many rounds as the array has cells in use, and one for the final test.
  pub rebalance : Heap → ℕ → Option Heap
  rebalance h pos =
      if pos == 0
      then bubble_down (suc h.used) h pos
      else if pos == sub32 h.used 1
      then bubble_up (suc h.used) h pos
      else (do
        above ← is_better h pos (get_parent pos)
        if above then bubble_up (suc h.used) h pos else bubble_down (suc h.used) h pos)

  -- The end of heap_push, once there is room.
  pub append : Heap → Ptr → Option (Bool × Heap)
  append h ptr = do
    let pos = h.used
    placed ← set (record h { used = add32 pos 1 }) pos ptr
    risen ← bubble_up (suc pos) placed pos
    some (true, risen)

  pub heap_push : (granted : Bool) → Heap → Ptr → Option (Bool × Heap)
  heap_push granted h ptr =
      let reserved = heap_reserve granted h 1 in
      let (ready, h') = if leb h.allocated h.used then reserved else (true, h) in
      if ready then append h' ptr else some (false, h')

  pub heap_remove : Heap → ℕ → Option (Ptr × Heap)
  heap_remove h pos = if leb h.used pos then some (null, h) else do
    obj ← load h pos
    let last = sub32 h.used 1
    let shrunk = record h { used = last }
    h' ←
        if ltb pos last
        then (do moved ← load shrunk last; filled ← set shrunk pos moved; rebalance filled pos)
        else some shrunk
    some (obj, record h' { cells = update h'.cells last null })

  pub heap_pop : Heap → Option (Ptr × Heap)
  heap_pop h = heap_remove h 0
