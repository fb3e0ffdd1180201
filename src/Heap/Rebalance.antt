-- ===== src/Heap/Rebalance.antt =====
-- usual/heap.c: `rebalance`.
use libusual_archive.Base.{
  ℕ, suc, ◌-◌, ◌<◌, ◌≡◌, ◌≢◌, Bool, true, false, arith, Bool-cases, inl, inr, Returns, ◌==◌,
}
use libusual_archive.Base.Word.{sub32, sub32_lem}
use libusual_archive.Heap.{Heap, Ptr, rebalance}
use libusual_archive.Heap.Order.{IsOrder, InOrder, IsRoomy, up, get_parent-up}
use libusual_archive.Heap.Swap.{Rearranged, is_better_lem}
use libusual_archive.Heap.Up.{UpInv, bubble_up_lem}
use libusual_archive.Heap.Down.{DownInv, bubble_down_lem}

-- The object at `pos` may be out of order with its parent and its children; they are in order
-- with one another.
pub record Gap (better : Ptr → Ptr → Bool) (h : Heap) (pos : ℕ) : Type 0 where
  pub inside : pos < h.used
  pub edges :
      (c : ℕ)
      → 0 < c
      → c < h.used
      → c ≢ pos
      → up c ≢ pos
      → better (h.cells c) (h.cells (up c)) ≡ false
  pub across :
      (c : ℕ)
      → 0 < c
      → c < h.used
      → up c ≡ pos
      → 0 < pos
      → better (h.cells c) (h.cells (up pos)) ≡ false

module _ {better : Ptr → Ptr → Bool} (order : IsOrder better) where
  Gap-UpInv :
      (h : Heap) (pos : ℕ)
      → Gap better h pos
      → 0 < pos
      → better (h.cells pos) (h.cells (up pos)) ≡ true
      → UpInv better h pos
  Gap-UpInv h pos g pos0 above = record {
    inside = g.inside;
    edges = λ c p q r. ground (
      arith,
      g.edges c,
      g.across c,
      order.asym (h.cells pos) (h.cells (up pos)),
      order.trans (h.cells c) (h.cells (up pos)) (h.cells pos),
    );
    across = λ c p q r s. ground (arith, g.across c);
  }

  Gap-UpInv_last : (h : Heap) (pos : ℕ) → Gap better h pos → pos ≡ h.used - 1 → UpInv better h pos
  Gap-UpInv_last h pos g e = record {
    inside = g.inside;
    edges = λ c p q r. g.edges c p q r (omega arith);
    across = λ c p q r s. absurd (omega arith);
  }

  Gap-DownInv :
      (h : Heap) (pos : ℕ)
      → Gap better h pos
      → (0 < pos → better (h.cells pos) (h.cells (up pos)) ≡ false)
      → DownInv better h pos
  Gap-DownInv h pos g settled = record {
    inside = g.inside;
    edges = λ c p q r. ground (arith, g.edges c, settled);
    across = λ c p q r s. g.across c p q r s;
  }

  -- One object out of place is moved to where it is in order.
  pub rebalance_lem :
      (h : Heap) (pos : ℕ)
      → IsRoomy h
      → Gap better h pos
      → Returns (λ h'. Rearranged h h' × InOrder better h') (rebalance better h pos)
  unfolding rebalance
  rebalance_lem h pos room g = elim (Bool-cases (pos == 0)) [
    | inl root ↦ rw root (
        bubble_down_lem order (suc h.used) h pos (omega arith) room
          (Gap-DownInv h pos g (ground arith)))
    | inr deep ↦ elim (Bool-cases (pos == sub32 h.used 1)) [
      | inl last ↦
          rw (deep, last)
            (bubble_up_lem order (suc h.used) h pos (omega (arith, g.inside)) room
              (Gap-UpInv_last h pos g (ground (arith, sub32_lem h.used 1))))
      | inr inner ↦
          rw
            (
              deep,
              inner,
              get_parent-up pos (ground arith) (omega (arith, g.inside)),
              is_better_lem h pos (up pos) (omega (arith, g.inside)) (omega (arith, g.inside))
                  better,
            )
            (elim (Bool-cases (better (h.cells pos) (h.cells (up pos)))) [
              | inl above ↦ rw above (
                  bubble_up_lem order (suc h.used) h pos (omega (arith, g.inside)) room
                    (Gap-UpInv h pos g (ground arith) above))
              | inr settled ↦ rw settled (
                  bubble_down_lem order (suc h.used) h pos (omega arith) room
                    (Gap-DownInv h pos g (λ _. settled)))
            ])
    ]
  ]
