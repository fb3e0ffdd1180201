-- ===== src/Heap/Push.antt =====
-- usual/heap.c: `heap_push`.
use libusual_archive.Base.{
  ℕ, suc, ◌+◌, ◌≤◌, ◌<◌, ◌≡◌, ◌^◌, refl, Bool, true, false, arith, leb, if◌then◌else◌, Bool-cases,
  inl, inr, Returns, Returns-map, update, lt→ltb, ◌∙◌, ◌⊎◌,
}
use libusual_archive.Base.Word.{add32}
use libusual_archive.Heap.{Heap, Ptr, set, append, heap_reserve, heap_push}
use libusual_archive.Heap.Order.{
  IsOrder, InOrder, IsRoomy, IsTracked, holds, hit, count-add, count_zero,
}
use libusual_archive.Heap.Room.{heap_reserve-Reserved}
use libusual_archive.Heap.Up.{UpInv, bubble_up_lem}

-- `h'` holds the objects of `h` and one more.
pub record Pushed (better : Ptr → Ptr → Bool) (h : Heap) (ptr : Ptr) (h' : Heap) : Type 0 where
  pub used : h'.used ≡ h.used + 1
  pub room : h'.used ≤ h'.allocated
  pub order : InOrder better h'
  pub objects : (p : Ptr) → holds h' p ≡ holds h p + hit p ptr
  pub tracked : IsTracked h → holds h ptr ≡ 0 → IsTracked h'

-- The state in which the new object stands in the last cell.
abbrev placed : Heap → Ptr → Heap
placed h ptr = record h {
  used = h.used + 1;
  cells = update h.cells h.used ptr;
  saved = if h.tracks then update h.saved ptr h.used else h.saved;
}

module _ {better : Ptr → Ptr → Bool} (order : IsOrder better) where
  placed-UpInv : (h : Heap) (ptr : Ptr) → InOrder better h → UpInv better (placed h ptr) h.used
  placed-UpInv h ptr o = record {
    inside = omega arith;
    edges = λ c p q r. ground (arith, o c);
    across = λ c p q r s. absurd (omega arith);
  }

  holds-placed : (h : Heap) (ptr p : Ptr) → holds (placed h ptr) p ≡ holds h p + hit p ptr
  holds-placed h ptr p = count-add p h.used h.cells ptr

  placed-IsTracked :
      (h : Heap) (ptr : Ptr) → IsTracked h → holds h ptr ≡ 0 → IsTracked (placed h ptr)
  placed-IsTracked h ptr t fresh on k hk = ground (arith, t on k, count_zero ptr h.used h.cells k)

  append_lem :
      (h : Heap) (ptr : Ptr)
      → h.used < h.allocated
      → h.used < 2 ^ 31
      → InOrder better h
      → Returns (λ r. (r.0 ≡ true) × Pushed better h ptr r.1) (append better h ptr)
  unfolding append set
  append_lem h ptr room small o =
      let counter : add32 h.used 1 ≡ h.used + 1 = omega arith in
      let (h', run, (r, o')) =
        bubble_up_lem order (suc h.used) (placed h ptr) h.used (omega arith) (omega arith)
          (placed-UpInv h ptr o) in
      rw (counter, lt→ltb h.used h.allocated room, run)
        (
          (true, h'),
          refl,
          (
            refl,
            record {
              used = r.used;
              room = omega (arith, r.used, r.allocated);
              order = o';
              objects = λ p. r.same p ∙ holds-placed h ptr p;
              tracked = λ t fresh. r.tracked (placed-IsTracked h ptr t fresh);
            },
          ),
        )

  -- The same in the state after heap_reserve.
  append-reserved :
      (h : Heap) (ptr : Ptr) (n : ℕ)
      → h.used < n
      → h.used < 2 ^ 31
      → InOrder better h
      → Returns
          (λ r. (r.0 ≡ true) × Pushed better h ptr r.1)
          (append better (record h { allocated = n }) ptr)
  append-reserved h ptr n room small o =
      Returns-map (append_lem (record h { allocated = n }) ptr room small o) λ r (done, p). (
        done,
        record {
          used = p.used;
          room = p.room;
          order = p.order;
          objects = p.objects;
          tracked = p.tracked;
        },
      )

  -- heap_push on a heap of fewer than 2^31 objects either adds exactly the new object, keeping the
  -- heap property and the saved positions (if the object was not there before), or returns false
  -- and leaves the heap unchanged; it returns false only if the heap was full and the allocator
  -- refused.
  pub heap_push_lem :
      (granted : Bool) (h : Heap) (ptr : Ptr)
      → IsRoomy h
      → h.used < 2 ^ 31
      → InOrder better h
      → Returns
          (λ r.
            (r.0 ≡ true) × Pushed better h ptr r.1
            ⊎ (r.0 ≡ false) × (r.1 ≡ h) × (granted ≡ false) × (h.used ≡ h.allocated))
          (heap_push better granted h ptr)
  unfolding heap_push
  heap_push_lem granted h ptr room small o = elim (Bool-cases (leb h.allocated h.used)) [
    | inl full ↦
        let v = heap_reserve-Reserved granted h 1 (omega arith) in
        elim (Bool-cases (heap_reserve granted h 1).0) [
          | inl ready ↦
              rw (full, ready, v.kept)
                (Returns-map
                  (append-reserved h ptr (heap_reserve granted h 1).1.allocated
                    (omega (arith, v.room ready)) small o)
                  λ r p. inl p)
          | inr refused ↦
              let (denied, same) = v.denied refused in
              rw (full, refused)
                (
                  (false, (heap_reserve granted h 1).1),
                  refl,
                  inr (refl, same, denied, ground arith),
                )
        ]
    | inr spare ↦ rw spare (Returns-map (append_lem h ptr (ground arith) small o) λ r p. inl p)
  ]
