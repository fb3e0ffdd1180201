-- ===== src/Heap/Swap.antt =====
-- usual/heap.c: `swap` and the comparison, at positions inside the allocation.
use libusual_archive.Base.{ℕ, ◌<◌, ◌≡◌, refl, ◌∙◌, Bool, some, arith, if◌then◌else◌, update}
use libusual_archive.Heap.{Heap, Ptr, load, set, swap, is_better}
use libusual_archive.Heap.Order.{IsTracked, count-update, holds}

-- The state after `swap`.
abbrev pub swapped : Heap → ℕ → ℕ → Heap
swapped h i j = record h {
  cells = update (update h.cells i (h.cells j)) j (h.cells i);
  saved = if h.tracks then update (update h.saved (h.cells j) i) (h.cells i) j else h.saved;
}

-- `h'` holds the objects of `h` in other places, and tells the user where.
pub record Rearranged (h h' : Heap) : Type 0 where
  pub used : h'.used ≡ h.used
  pub allocated : h'.allocated ≡ h.allocated
  pub tracks : h'.tracks ≡ h.tracks
  pub same : (p : Ptr) → holds h' p ≡ holds h p
  pub tracked : IsTracked h → IsTracked h'

pub Rearranged-refl : (h : Heap) → Rearranged h h
Rearranged-refl h = record {
  used = refl;
  allocated = refl;
  tracks = refl;
  same = λ p. refl;
  tracked = λ t. t;
}

pub Rearranged-trans : {h h' h'' : Heap} → Rearranged h h' → Rearranged h' h'' → Rearranged h h''
Rearranged-trans r s = record {
  used = s.used ∙ r.used;
  allocated = s.allocated ∙ r.allocated;
  tracks = s.tracks ∙ r.tracks;
  same = λ p. s.same p ∙ r.same p;
  tracked = λ t. s.tracked (r.tracked t);
}

module _ (h : Heap) (i j : ℕ) (hi : i < h.allocated) (hj : j < h.allocated) where
  pub swap_lem : swap h i j ≡ some (swapped h i j)
  unfolding swap load set
  swap_lem = ground arith

  pub is_better_lem :
      (better : Ptr → Ptr → Bool) → is_better better h i j ≡ some (better (h.cells i) (h.cells j))
  unfolding is_better load
  is_better_lem better = ground arith

module _ (h : Heap) (i j : ℕ) (hi : i < h.used) (hj : j < h.used) where
  holds-swapped : (p : Ptr) → holds (swapped h i j) p ≡ holds h p
  holds-swapped p = ground (
    arith,
    count-update p h.used (update h.cells i (h.cells j)) j (h.cells i),
    count-update p h.used h.cells i (h.cells j),
  )

  swapped-IsTracked : IsTracked h → IsTracked (swapped h i j)
  swapped-IsTracked t on k hk = ground (arith, t on i hi, t on j hj, t on k hk)

  pub swapped-Rearranged : Rearranged h (swapped h i j)
  swapped-Rearranged = record {
    used = refl;
    allocated = refl;
    tracks = refl;
    same = holds-swapped;
    tracked = swapped-IsTracked;
  }
