-- ===== src/Heap/Down.antt =====
-- usual/heap.c: `bubble_down`.
use libusual_archive.Base.{
  ℕ, zero, suc, ◌+◌, ◌*◌, ◌≤◌, ◌<◌, ◌≡◌, ◌≢◌, refl, Bool, true, false, arith, ltb, Bool-cases, inl,
  inr, Returns, Returns-map, ◌==◌,
}
use libusual_archive.Base.Word.{add32}
use libusual_archive.Heap.{Heap, Ptr, bubble_down, pick_child}
use libusual_archive.Heap.Order.{IsOrder, InOrder, IsRoomy, up, get_child_lem}
use libusual_archive.Heap.Swap.{
  swapped, swap_lem, is_better_lem, swapped-Rearranged, Rearranged, Rearranged-refl,
  Rearranged-trans,
}

-- Only the children of `i` may be better than their parent; they are in order with its parent.
pub record DownInv (better : Ptr → Ptr → Bool) (h : Heap) (i : ℕ) : Type 0 where
  pub inside : i < h.used
  pub edges : (c : ℕ) → 0 < c → c < h.used → up c ≢ i → better (h.cells c) (h.cells (up c)) ≡ false
  pub across :
      (c : ℕ) → 0 < c → c < h.used → up c ≡ i → 0 < i → better (h.cells c) (h.cells (up i)) ≡ false

-- `m` is a child of `i`, and no child of `i` is better.
record IsBestChild (better : Ptr → Ptr → Bool) (h : Heap) (i m : ℕ) : Type 0 where
  inside : m < h.used
  below : 0 < m
  child : up m ≡ i
  best : (c : ℕ) → 0 < c → c < h.used → up c ≡ i → better (h.cells c) (h.cells m) ≡ false

module _ {better : Ptr → Ptr → Bool} (order : IsOrder better) where
  irrefl : (a : Ptr) → better a a ≡ false
  irrefl a = elim (Bool-cases (better a a)) [ inl e ↦ order.asym a a e | inr e ↦ e ]

  pick_child-IsBestChild :
      (h : Heap) (i : ℕ)
      → IsRoomy h
      → 2 * i + 1 < h.used
      → Returns (IsBestChild better h i) (pick_child better h (2 * i + 1))
  unfolding pick_child
  pick_child-IsBestChild h i room hi = elim (Bool-cases (ltb (add32 (2 * i + 1) 1) h.used)) [
    | inl two ↦
        let next : add32 (2 * i + 1) 1 ≡ 2 * i + 2 = omega arith in
        let inner : 2 * i + 2 < h.used = ground arith in
        rw (two, next, is_better_lem h (2 * i + 2) (2 * i + 1) (omega arith) (omega arith) better)
          (elim (Bool-cases (better (h.cells (2 * i + 2)) (h.cells (2 * i + 1)))) [
            | inl right ↦ rw right (
              2 * i + 2,
              refl,
              record {
                inside = inner;
                below = omega arith;
                child = omega arith;
                best = λ c p q r. elim (Bool-cases (c == 2 * i + 1)) [
                  | inl e ↦ ground (arith, order.asym (h.cells (2 * i + 2)) (h.cells (2 * i + 1)))
                  | inr e ↦ ground (arith, irrefl (h.cells (2 * i + 2)))
                ];
              },
            )
            | inr left ↦ rw left (
              2 * i + 1,
              refl,
              record {
                inside = hi;
                below = omega arith;
                child = omega arith;
                best = λ c p q r. elim (Bool-cases (c == 2 * i + 1)) [
                  | inl e ↦ ground (arith, irrefl (h.cells (2 * i + 1)))
                  | inr e ↦ ground arith
                ];
              },
            )
          ])
    | inr one ↦ rw one (
      2 * i + 1,
      refl,
      record {
        inside = hi;
        below = omega arith;
        child = omega arith;
        best = λ c p q r. ground (arith, irrefl (h.cells (2 * i + 1)));
      },
    )
  ]

  swapped-DownInv :
      (h : Heap) (i m : ℕ)
      → DownInv better h i
      → IsBestChild better h i m
      → better (h.cells m) (h.cells i) ≡ true
      → DownInv better (swapped h i m) m
  swapped-DownInv h i m v s above = record {
    inside = s.inside;
    edges = λ c p q r.
        ground
          (arith, v.edges c, v.across m, s.best c, s.child, order.asym (h.cells m) (h.cells i));
    across = λ c p q r t. ground (arith, v.edges c, s.child, s.below);
  }

  pub bubble_down_lem :
      (fuel : ℕ) (h : Heap) (i : ℕ)
      → h.used ≤ i + fuel
      → IsRoomy h
      → DownInv better h i
      → Returns (λ h'. Rearranged h h' × InOrder better h') (bubble_down better fuel h i)
  unfolding bubble_down
  bubble_down_lem zero h i f room v = absurd (omega (arith, v.inside))
  bubble_down_lem (suc fuel) h i f room v =
      rw (get_child_lem i (omega (arith, v.inside))) (elim (Bool-cases (ltb (2 * i + 1) h.used)) [
        | inl deep ↦
            let (m, picked, s) = pick_child-IsBestChild h i room (ground arith) in
            let hm : m < h.allocated = omega (arith, s.inside) in
            let hi : i < h.allocated = omega (arith, v.inside) in
            rw (deep, picked, is_better_lem h m i hm hi better)
              (elim (Bool-cases (better (h.cells m) (h.cells i))) [
                | inl above ↦
                    rw (above, swap_lem h i m hi hm)
                      (Returns-map
                        (bubble_down_lem fuel (swapped h i m) m (omega (arith, s.child, s.below, f))
                          room (swapped-DownInv h i m v s above))
                        (λ h' (r, o).
                          (Rearranged-trans (swapped-Rearranged h i m v.inside s.inside) r, o)))
                | inr settled ↦ rw settled (
                  h,
                  refl,
                  (
                    Rearranged-refl h,
                    λ c p q. ground (
                      arith,
                      v.edges c,
                      s.best c,
                      order.trans (h.cells c) (h.cells m) (h.cells i),
                    ),
                  ),
                )
              ])
        | inr leaf ↦ rw leaf (h, refl, (Rearranged-refl h, λ c p q. ground (arith, v.edges c)))
      ])
