-- ===== src/Heap/Reach.antt =====
-- usual/heap.c: what popping gives, and the states that the operations of the API reach.
use libusual_archive.Base.{
  ℕ, zero, suc, ◌+◌, ◌<◌, ◌≡◌, ◌^◌, refl, Bool, true, false, some, arith, ltb, leb, Bool-cases, inl,
  inr, Returns, Returns-map, Returns-some, subst, sym, ap,
}
use mathlib.Core.Option.{some-injective}
use libusual_archive.Heap.{
  Heap, Ptr, null, load, heap_create, heap_reserve, heap_push, heap_remove, heap_pop, heap_top,
}
use libusual_archive.Heap.Order.{IsOrder, InOrder, IsRoomy, IsTracked, holds, up}
use libusual_archive.Heap.Room.{heap_reserve-Reserved}
use libusual_archive.Heap.Push.{heap_push_lem}
use libusual_archive.Heap.Remove.{Removed, heap_remove_lem}

-- The heap property, the bounds and the saved positions.
pub record IsValid (better : Ptr → Ptr → Bool) (h : Heap) : Type 0 where
  pub room : IsRoomy h
  pub order : InOrder better h
  pub tracked : IsTracked h

-- The states that calls of the API lead to. An object is pushed only while it is not in the heap,
-- and sizes stay below the limits of `unsigned`.
pub data Reach (better : Ptr → Ptr → Bool) : Heap → Type 0 where
  created :
      (granted tracks : Bool) (cells : ℕ → Ptr) (saved : Ptr → ℕ) {h : Heap}
      → heap_create granted tracks cells saved ≡ some h
      → Reach better h
  pushed :
      (granted : Bool) (ptr : Ptr) {done : Bool} {h h' : Heap}
      → Reach better h
      → h.used < 2 ^ 31
      → holds h ptr ≡ 0
      → heap_push better granted h ptr ≡ some (done, h')
      → Reach better h'
  removed :
      (pos : ℕ) {obj : Ptr} {h h' : Heap}
      → Reach better h
      → heap_remove better h pos ≡ some (obj, h')
      → Reach better h'
  reserved :
      (granted : Bool) (extra : ℕ) {done : Bool} {h h' : Heap}
      → Reach better h
      → h.used + extra < 2 ^ 32
      → heap_reserve granted h extra ≡ (done, h')
      → Reach better h'

module _ {better : Ptr → Ptr → Bool} (order : IsOrder better) where
  root_best_below :
      (k : ℕ) (h : Heap) (i : ℕ)
      → InOrder better h
      → i < k
      → i < h.used
      → better (h.cells i) (h.cells 0) ≡ false
  root_best_below zero h i o f p = absurd (ground arith)
  root_best_below (suc k) h i o f p = elim (Bool-cases (ltb 0 i)) [
    | inl deep ↦
        order.trans (h.cells i) (h.cells (up i)) (h.cells 0) (o i (ground arith) p)
          (root_best_below k h (up i) o (ground arith) (omega arith))
    | inr root ↦
        let e : i ≡ 0 = ground arith in
        rw e (elim (Bool-cases (better (h.cells 0) (h.cells 0))) [
          | inl t ↦ order.asym (h.cells 0) (h.cells 0) t
          | inr f' ↦ f'
        ])
  ]

  -- heap_pop on a heap in order that is not empty returns what heap_top shows, no object in the heap is better than it,
  -- and what is left holds all the other objects, in order.
  pub heap_pop_lem :
      (h : Heap)
      → IsRoomy h
      → InOrder better h
      → 0 < h.used
      → Returns
          (λ r.
            (heap_top h ≡ some r.0)
            × ((i : ℕ) → i < h.used → better (h.cells i) r.0 ≡ false)
            × Removed better h r.0 r.1)
          (heap_pop better h)
  unfolding heap_pop heap_top load
  heap_pop_lem h room o h0 = Returns-map (heap_remove_lem order h 0 room o h0) λ r (e, gone).
      rw e (ground arith, λ i hi. root_best_below (suc i) h i o (omega arith) hi, gone)

  push-IsValid :
      (granted : Bool) (h : Heap) (ptr : Ptr)
      → IsValid better h
      → h.used < 2 ^ 31
      → holds h ptr ≡ 0
      → Returns (λ r. IsValid better r.1) (heap_push better granted h ptr)
  push-IsValid granted h ptr v small fresh =
      Returns-map (heap_push_lem order granted h ptr v.room small v.order) λ r p. elim p [
        | inl (done, q) ↦ record {
          room = (q.room, omega (arith, q.used));
          order = q.order;
          tracked = q.tracked v.tracked fresh;
        }
        | inr (kept, same, denied, full) ↦ subst (IsValid better) (sym same) v
      ]

  remove-IsValid :
      (h : Heap) (pos : ℕ)
      → IsValid better h
      → Returns (λ r. IsValid better r.1) (heap_remove better h pos)
  remove-IsValid h pos v = elim (Bool-cases (ltb pos h.used)) [
    | inl here ↦ Returns-map (heap_remove_lem order h pos v.room v.order (ground arith)) λ r (e, q).
        record {
          room = omega (arith, v.room.0, v.room.1, q.used, q.allocated);
          order = q.order;
          tracked = q.tracked v.tracked;
        }
    | inr past ↦
        let out : leb h.used pos ≡ true = ground arith in
        unfold heap_remove in rw out ((null, h), refl, v)
  ]

  reserve-IsValid :
      (granted : Bool) (h : Heap) (extra : ℕ)
      → IsValid better h
      → h.used + extra < 2 ^ 32
      → IsValid better (heap_reserve granted h extra).1
  reserve-IsValid granted h extra v fits =
      let r = heap_reserve-Reserved granted h extra fits in
      elim (Bool-cases (heap_reserve granted h extra).0) [
        | inl done ↦ rw r.kept (record {
          room = (omega (arith, r.room done), v.room.1);
          order = v.order;
          tracked = v.tracked;
        })
        | inr refused ↦ subst (IsValid better) (sym (r.denied refused).1) v
      ]

  create-IsValid :
      (granted tracks : Bool) (cells : ℕ → Ptr) (saved : Ptr → ℕ) {h : Heap}
      → heap_create granted tracks cells saved ≡ some h
      → IsValid better h
  unfolding heap_create
  create-IsValid true tracks cells saved e = subst (IsValid better) (some-injective _ _ e) (record {
    room = (omega arith, omega arith);
    order = λ c p q. absurd (omega arith);
    tracked = λ on i q. absurd (omega arith);
  })
  create-IsValid false tracks cells saved e = cc

  -- For a strict weak order: every heap that calls which return lead to has its objects in order inside the allocation and, if
  -- save_pos is used, every object's saved position is the one it is at. The calls are heap_create, heap_push of an object
  -- that is not in a heap of fewer than 2^31 objects, heap_remove at any position, and heap_reserve where the objects and the
  -- room asked for are fewer than 2^32.
  pub Reach-IsValid : {h : Heap} → Reach better h → IsValid better h
  Reach-IsValid (created granted tracks cells saved e) = create-IsValid granted tracks cells saved e
  Reach-IsValid (pushed granted ptr {h} r small fresh e) =
      Returns-some (push-IsValid granted h ptr (Reach-IsValid r) small fresh) e
  Reach-IsValid (removed pos {h} r e) = Returns-some (remove-IsValid h pos (Reach-IsValid r)) e
  Reach-IsValid (reserved granted extra {h} r fits e) =
      subst (IsValid better) (ap (λ t. t.1) e)
        (reserve-IsValid granted h extra (Reach-IsValid r) fits)
