-- ===== src/Heap/Remove.antt =====
-- usual/heap.c: `heap_remove`, `heap_pop` and `heap_top`.
use libusual_archive.Base.{
  ℕ, ◌+◌, ◌-◌, ◌<◌, ◌≡◌, refl, Bool, true, false, arith, ltb, leb, if◌then◌else◌, Bool-cases, inl,
  inr, Returns, update, subst, sym,
}
use libusual_archive.Base.Word.{sub32, sub32_lem}
use libusual_archive.Heap.{Heap, Ptr, null, load, set, heap_remove}
use libusual_archive.Heap.Order.{
  IsOrder, InOrder, IsRoomy, IsTracked, holds, hit, count-update, count-update_out, count_last, up,
}
use libusual_archive.Heap.Swap.{Rearranged}
use libusual_archive.Heap.Rebalance.{Gap, rebalance_lem}

-- `obj` is out of the heap, and its cell has been given up.
pub record Removed (better : Ptr → Ptr → Bool) (h : Heap) (obj : Ptr) (h' : Heap) : Type 0 where
  pub used : h'.used + 1 ≡ h.used
  pub allocated : h'.allocated ≡ h.allocated
  pub cleared : h'.cells h'.used ≡ null
  pub order : InOrder better h'
  pub objects : (p : Ptr) → holds h' p + hit p obj ≡ holds h p
  pub tracked : IsTracked h → IsTracked h'

-- The state in which the last object has taken the place of the one at `pos`.
abbrev filled : Heap → ℕ → Heap
filled h pos = record h {
  used = h.used - 1;
  cells = update h.cells pos (h.cells (h.used - 1));
  saved = if h.tracks then update h.saved (h.cells (h.used - 1)) pos else h.saved;
}

-- The state after the last cell is given up.
abbrev dropped : Heap → ℕ → Heap
dropped h last = record h { cells = update h.cells last null }

module _ {better : Ptr → Ptr → Bool} (order : IsOrder better) where
  filled-Gap :
      (h : Heap) (pos : ℕ) → InOrder better h → pos + 1 < h.used → Gap better (filled h pos) pos
  filled-Gap h pos o hp = record {
    inside = omega arith;
    edges = λ c p q r s. ground (arith, o c);
    across = λ c p q r s.
        ground (arith, o c, o pos, order.trans (h.cells c) (h.cells pos) (h.cells (up pos)));
  }

holds-filled :
    (h : Heap) (pos : ℕ) (p : Ptr)
    → pos + 1 < h.used
    → holds (filled h pos) p + hit p (h.cells pos) ≡ holds h p
holds-filled h pos p hp = ground (
  arith,
  count-update p (h.used - 1) h.cells pos (h.cells (h.used - 1)),
  count_last p h.used h.cells,
)

filled-IsTracked : (h : Heap) (pos : ℕ) → pos + 1 < h.used → IsTracked h → IsTracked (filled h pos)
filled-IsTracked h pos hp t on k hk = ground (arith, t on k, t on (h.used - 1))

dropped-InOrder :
    (better : Ptr → Ptr → Bool) (h : Heap) → InOrder better h → InOrder better (dropped h h.used)
dropped-InOrder better h o c p q = ground (arith, o c)

dropped-IsTracked : (h : Heap) → IsTracked h → IsTracked (dropped h h.used)
dropped-IsTracked h t on k hk = ground (arith, t on k)

holds-dropped : (h : Heap) (p : Ptr) → holds (dropped h h.used) p ≡ holds h p
holds-dropped h p = count-update_out p h.used h.cells h.used null (omega arith)

-- The last object is taken: nothing moves.
abbrev shrunk : Heap → Heap
shrunk h = record h { used = h.used - 1 }

holds-shrunk :
    (h : Heap) (p : Ptr)
    → 0 < h.used
    → holds (shrunk h) p + hit p (h.cells (h.used - 1)) ≡ holds h p
holds-shrunk h p h0 = ground (arith, count_last p h.used h.cells)

shrunk-Removed :
    (better : Ptr → Ptr → Bool) (h : Heap)
    → 0 < h.used
    → InOrder better h
    → Removed better h (h.cells (h.used - 1)) (dropped (shrunk h) (h.used - 1))
shrunk-Removed better h h0 o = record {
  used = omega arith;
  allocated = refl;
  cleared = ground arith;
  order = λ c p q. ground (arith, o c);
  objects = λ p. ground (arith, holds-dropped (shrunk h) p, holds-shrunk h p);
  tracked = λ t on k hk. ground (arith, t on k);
}

filled-Removed :
    (better : Ptr → Ptr → Bool) (h : Heap) (pos : ℕ) (h' : Heap)
    → pos + 1 < h.used
    → Rearranged (filled h pos) h'
    → InOrder better h'
    → Removed better h (h.cells pos) (dropped h' h'.used)
filled-Removed better h pos h' hp r o = record {
  used = omega (arith, r.used);
  allocated = r.allocated;
  cleared = ground arith;
  order = dropped-InOrder better h' o;
  objects = λ p. omega (arith, holds-dropped h' p, r.same p, holds-filled h pos p hp);
  tracked = λ t. dropped-IsTracked h' (r.tracked (filled-IsTracked h pos hp t));
}

module _ {better : Ptr → Ptr → Bool} (order : IsOrder better) where
  -- heap_remove at a position in use returns the object there and leaves all the others in heap
  -- order, with their saved positions right and the freed cell NULL.
  pub heap_remove_lem :
      (h : Heap) (pos : ℕ)
      → IsRoomy h
      → InOrder better h
      → pos < h.used
      → Returns
          (λ r. (r.0 ≡ h.cells pos) × Removed better h (h.cells pos) r.1)
          (heap_remove better h pos)
  unfolding heap_remove load set
  heap_remove_lem h pos room o hp =
      let last : sub32 h.used 1 ≡ h.used - 1 = sub32_lem h.used 1 (omega arith) (omega arith) in
      let live : leb h.used pos ≡ false = ground arith in
      let tail : ltb (h.used - 1) h.allocated ≡ true = ground arith in
      let alloc : ltb pos h.allocated ≡ true = ground arith in
      elim (Bool-cases (ltb pos (h.used - 1))) [
        | inl inner ↦
            let inner' : pos + 1 < h.used = ground arith in
            let (h', run, (r, o')) =
              rebalance_lem order (filled h pos) pos (omega arith)
                (filled-Gap order h pos o inner') in
            rw (live, alloc, last, inner, tail, run)
              (
                (h.cells pos, dropped h' (h.used - 1)),
                refl,
                (
                  refl,
                  subst (λ n. Removed better h (h.cells pos) (dropped h' n)) r.used
                      (filled-Removed better h pos h' inner' r o'),
                ),
              )
        | inr end ↦
            let at : pos ≡ h.used - 1 = ground arith in
            rw (live, alloc, last, end)
              (
                (h.cells pos, dropped (shrunk h) (h.used - 1)),
                refl,
                (
                  refl,
                  subst (λ n. Removed better h (h.cells n) (dropped (shrunk h) (h.used - 1)))
                      (sym at) (shrunk-Removed better h (omega arith) o),
                ),
              )
      ]
