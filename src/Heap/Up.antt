-- ===== src/Heap/Up.antt =====
-- usual/heap.c: `bubble_up`.
use libusual_archive.Base.{
  ℕ, zero, suc, ◌<◌, ◌≡◌, ◌≢◌, refl, Bool, true, false, arith, ltb, Bool-cases, inl, inr, Returns,
  Returns-map,
}
use libusual_archive.Heap.{Heap, Ptr, bubble_up}
use libusual_archive.Heap.Order.{IsOrder, InOrder, IsRoomy, up, get_parent-up}
use libusual_archive.Heap.Swap.{
  swapped, swap_lem, is_better_lem, swapped-Rearranged, Rearranged, Rearranged-refl,
  Rearranged-trans,
}

-- Only the object at `i` may be better than its parent; its children are in order with that parent.
pub record UpInv (better : Ptr → Ptr → Bool) (h : Heap) (i : ℕ) : Type 0 where
  pub inside : i < h.used
  pub edges : (c : ℕ) → 0 < c → c < h.used → c ≢ i → better (h.cells c) (h.cells (up c)) ≡ false
  pub across :
      (c : ℕ) → 0 < c → c < h.used → up c ≡ i → 0 < i → better (h.cells c) (h.cells (up i)) ≡ false

module _ {better : Ptr → Ptr → Bool} (order : IsOrder better) where
  swapped-UpInv :
      (h : Heap) (i : ℕ)
      → UpInv better h i
      → 0 < i
      → better (h.cells i) (h.cells (up i)) ≡ true
      → UpInv better (swapped h i (up i)) (up i)
  swapped-UpInv h i v pos above = record {
    inside = omega (arith, v.inside);
    edges = λ c p q r. ground (
      arith,
      v.edges c,
      v.across c,
      order.asym (h.cells i) (h.cells (up i)),
      order.trans (h.cells c) (h.cells (up i)) (h.cells i),
    );
    across = λ c p q r s. ground (
      arith,
      v.edges c,
      v.edges (up i),
      order.trans (h.cells c) (h.cells (up i)) (h.cells (up (up i))),
    );
  }

  pub bubble_up_lem :
      (fuel : ℕ) (h : Heap) (i : ℕ)
      → i < fuel
      → IsRoomy h
      → UpInv better h i
      → Returns (λ h'. Rearranged h h' × InOrder better h') (bubble_up better fuel h i)
  unfolding bubble_up
  bubble_up_lem zero h i f room v = absurd (ground arith)
  bubble_up_lem (suc fuel) h i f room v = elim (Bool-cases (ltb 0 i)) [
    | inl pos ↦
        rw
          (
            pos,
            get_parent-up i (ground arith) (omega (arith, v.inside)),
            is_better_lem h i (up i) (omega (arith, v.inside)) (omega (arith, v.inside)) better,
          )
          (elim (Bool-cases (better (h.cells i) (h.cells (up i)))) [
            | inl above ↦
                rw (above, swap_lem h i (up i) (omega (arith, v.inside)) (omega (arith, v.inside)))
                  (Returns-map
                    (bubble_up_lem fuel (swapped h i (up i)) (up i) (ground arith) room
                      (swapped-UpInv h i v (ground arith) above))
                    (λ h' (r, o). (
                      Rearranged-trans
                          (swapped-Rearranged h i (up i) v.inside (omega (arith, v.inside))) r,
                      o,
                    )))
            | inr settled ↦
                rw settled (h, refl, (Rearranged-refl h, λ c p q. ground (arith, v.edges c)))
          ])
    | inr root ↦ rw root (h, refl, (Rearranged-refl h, λ c p q. ground (arith, v.edges c)))
  ]
