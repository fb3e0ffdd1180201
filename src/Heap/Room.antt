-- ===== src/Heap/Room.antt =====
-- usual/heap.c: `heap_reserve`.
use libusual_archive.Base.{ℕ, ◌+◌, ◌≤◌, ◌<◌, ◌≡◌, ◌^◌, Bool, true, false, arith}
use libusual_archive.Heap.{Heap, heap_reserve}

-- What a call of heap_reserve leaves: only the allocation may differ, and it has not shrunk.
pub record Reserved (h : Heap) (extra : ℕ) (granted : Bool) (done : Bool) (h' : Heap) : Type 0 where
  pub kept : h' ≡ record h { allocated = h'.allocated }
  pub room : done ≡ true → h.used + extra ≤ h'.allocated
  pub denied : done ≡ false → (granted ≡ false) × (h' ≡ h)

-- If used + extra does not overflow `unsigned`, heap_reserve keeps the objects, their number and
-- the saved positions; when it returns true the allocation has room for `extra` more objects, and
-- it returns false only when the allocator refuses, with the heap unchanged.
pub heap_reserve-Reserved :
    (granted : Bool) (h : Heap) (extra : ℕ)
    → h.used + extra < 2 ^ 32
    → Reserved h extra granted (heap_reserve granted h extra).0 (heap_reserve granted h extra).1
unfolding heap_reserve
heap_reserve-Reserved true h extra fits = record {
  kept = ground arith;
  room = ground arith;
  denied = ground arith;
}
heap_reserve-Reserved false h extra fits = record {
  kept = ground arith;
  room = ground arith;
  denied = ground arith;
}
