-- ===== src/AaTree/Mend.antt =====
-- usual/aatree.c: rebalance_on_remove restores the shape after a removal on either side.
use libusual_archive.Base.{ℕ, zero, suc, ◌+◌, ◌<◌, ◌≡◌, refl, sym, ◌∙◌, arith, inl, inr, subst}
use libusual_archive.AaTree.{Tree, nil, node, level, rebalance_on_remove}
use libusual_archive.AaTree.Shape.{Good, IsAa, right_le}
use libusual_archive.AaTree.Lower.{
  Lowered, no_gap, gap, gap_red, right_gap_black, right_gap_red, left_gap_red, left_gap_black,
  left_gap_lowered, left_gap_lowered_right, left_gap_lowered_left,
}

module _ {V : Type 0} where
  -- The right child is black.
  left_low_black :
      (k : ℕ) (a : Tree V) (v : V) (c : Tree V) (w : V) (d a' : Tree V)
      → IsAa (node k c w d)
      → IsAa a'
      → suc (level a') ≡ k
      → level a ≡ k
      → Good
          (Lowered (node (suc k) a v (node k c w d)))
          (rebalance_on_remove (node (suc k) a' v (node k c w d)))
  left_low_black k a v c w d a' ((b1, b2, b3), hc, hd) ha' low la =
      rw (gap k a' v (node k c w d) (inl (omega arith)) (omega arith)) (elim b2 [
        | inl red ↦ rw (left_gap_red k a' v c w d (omega arith) (omega arith) red hd) (
          (
            (omega arith, inr (omega arith), omega arith),
            ((sym low ∙ omega arith, inr (omega arith), omega (arith, right_le c hc)), ha', hc),
            hd,
          ),
          inl (omega arith, λ lt. omega arith),
        )
        | inr black ↦
            rw (left_gap_black k a' v c w d (omega arith) (omega arith) (omega arith) hd) (
              ((omega arith, inl refl, omega arith), ha', ((b1, inr black, b3), hc, hd)),
              inr (omega arith),
            )
      ])

  -- The right child is red.
  left_low_red :
      (k : ℕ) (a : Tree V) (v : V) (e : Tree V) (x : V) (f : Tree V) (w : V) (p : Tree V) (z : V)
      (q a' : Tree V)
      → IsAa (node k e x f)
      → IsAa (node k p z q)
      → IsAa a'
      → suc (level a') ≡ k
      → level f < k
      → Good
          (Lowered (node (suc k) a v (node (suc k) (node k e x f) w (node k p z q))))
          (rebalance_on_remove (node (suc k) a' v (node (suc k) (node k e x f) w (node k p z q))))
  left_low_red k a v e x f w p z q a' ((e1, e2, e3), he, hf) ((p1, p2, p3), hp, hq) ha' low black =
      let new_left : IsAa (node k a' v e) =
        ((sym low ∙ omega arith, inr (omega arith), omega (arith, right_le e he)), ha', he) in
      rw (gap_red k a' v (node k e x f) w (node k p z q) (omega arith)) (elim p2 [
        | inl red ↦ rw (left_gap_lowered_right k a' v e x f w p z q (omega arith) black red) (
          (
            (omega arith, inl refl, omega arith),
            new_left,
            (
              (omega arith, inr (omega arith), omega arith),
              ((omega arith, inr (omega arith), omega (arith, right_le p hp)), hf, hp),
              hq,
            ),
          ),
          inl (omega arith, λ lt. absurd (omega arith)),
        )
        | inr below ↦ rw (left_gap_lowered k a' v e x f w p z q (omega arith) black (omega arith)) (
          (
            (omega arith, inr (omega arith), omega arith),
            new_left,
            ((omega arith, inl refl, omega arith), hf, ((p1, inr below, p3), hp, hq)),
          ),
          inl (omega arith, λ lt. absurd (omega arith)),
        )
      ])

  left_low_reds :
      (k : ℕ) (a : Tree V) (v : V) (e : Tree V) (x : V) (g : Tree V) (y : V) (h : Tree V) (w : V)
      (d a' : Tree V)
      → IsAa (node k e x (node k g y h))
      → IsAa d
      → level d ≡ k
      → IsAa a'
      → suc (level a') ≡ k
      → Good
          (Lowered (node (suc k) a v (node (suc k) (node k e x (node k g y h)) w d)))
          (rebalance_on_remove (node (suc k) a' v (node (suc k) (node k e x (node k g y h)) w d)))
  left_low_reds k a v e x g y h w d a' ((e1, e2, e3), he, hf) hd same ha' low =
      let ((f1, f2, f3), hg, hh) = hf in
      let new_left : IsAa (node k a' v e) =
        ((sym low ∙ omega arith, inr (omega arith), omega (arith, right_le e he)), ha', he) in
      rw
        (
          gap_red k a' v (node k e x (node k g y h)) w d (omega arith),
          left_gap_lowered_left k a' v e x g y h w d (omega arith) same,
        )
        (
          (
            (omega arith, inl refl, omega arith),
            new_left,
            ((omega arith, inr (omega arith), omega (arith, right_le d hd)), hf, hd),
          ),
          inl (omega arith, λ lt. absurd (omega arith)),
        )

  left_low_split :
      (k : ℕ) (a : Tree V) (v : V) (c : Tree V) (w : V) (d a' : Tree V)
      → IsAa (node (suc k) c w d)
      → level d ≡ k
      → IsAa a'
      → suc (level a') ≡ k
      → Good
          (Lowered (node (suc k) a v (node (suc k) c w d)))
          (rebalance_on_remove (node (suc k) a' v (node (suc k) c w d)))
  left_low_split k a v nil w d a' ((b1, b2, b3), hc, hd) same ha' low = absurd (omega arith)
  left_low_split k a v (node m e x f) w nil a' ((b1, b2, b3), hc, hd) same ha' low =
      absurd (omega arith)
  left_low_split k a v (node m e x nil) w (node n p z q) a' ((b1, b2, b3), hc, hd) same ha' low =
      let m_k : m ≡ k = omega arith in
      let hc' = subst (λ l. IsAa (node l e x nil)) m_k hc in
      let hd' = subst (λ l. IsAa (node l p z q)) same hd in
      rw (m_k, same) (left_low_red k a v e x nil w p z q a' hc' hd' ha' low (omega arith))
  left_low_split k a v (node m e x (node l g y h)) w (node n p z q) a' ((b1, b2, b3), hc, hd) same
        ha' low =
      let m_k : m ≡ k = omega arith in
      let hc' = subst (λ l'. IsAa (node l' e x (node l g y h))) m_k hc in
      let hd' = subst (λ l'. IsAa (node l' p z q)) same hd in
      let hf = hc.2 in
      rw (m_k, same)
        (elim (hc'.0.1) [
          | inl red ↦
              let hc'' = subst (λ l'. IsAa (node k e x (node l' g y h))) red hc' in
              rw red (left_low_reds k a v e x g y h w (node k p z q) a' hc'' hd' refl ha' low)
          | inr below ↦
              left_low_red k a v e x (node l g y h) w p z q a' hc' hd' ha' low (omega arith)
        ])

  pub remove_left :
      (l : ℕ) (a : Tree V) (v : V) (b a' : Tree V)
      → IsAa (node l a v b)
      → Lowered a a'
      → Good (Lowered (node l a v b)) (rebalance_on_remove (node l a' v b))
  remove_left zero a v b a' ((h1, h2, h3), ha, hb) low = absurd (omega arith)
  remove_left (suc k) a v b a' ((h1, h2, h3), ha, hb) (ia, inl (same, keeps)) =
      rw (no_gap (suc k) a' v b (omega arith) (omega arith))
        (((omega arith, h2, h3), ia, hb), inl (refl, λ lt. lt))
  remove_left (suc k) a v nil a' ((h1, h2, h3), ha, hb) (ia, inr down) = absurd (omega arith)
  remove_left (suc k) a v (node n c w d) a' ((h1, inr black, h3), ha, hb) (ia, inr down) =
      let e : n ≡ k = omega arith in
      rw e (
        left_low_black k a v c w d a' (subst (λ l. IsAa (node l c w d)) e hb) ia (omega arith)
          (omega arith))
  remove_left (suc k) a v (node n c w d) a' ((h1, inl red, h3), ha, hb) (ia, inr down) = rw red (
      left_low_split k a v c w d a' (subst (λ l. IsAa (node l c w d)) red hb) (omega arith) ia
        (omega arith))

  right_low_black :
      (k : ℕ) (c : Tree V) (w : V) (d : Tree V) (v : V) (b b' : Tree V)
      → IsAa (node k c w d)
      → IsAa b'
      → suc (level b') ≡ k
      → level b ≡ k
      → level d + 1 ≡ k
      → Good
          (Lowered (node (suc k) (node k c w d) v b))
          (rebalance_on_remove (node (suc k) (node k c w d) v b'))
  right_low_black k c w d v b b' ((a1, a2, a3), hc, hd) ib low same black =
      rw
        (
          gap k (node k c w d) v b' (inr (omega arith)) (omega arith),
          right_gap_black k c w d v b' ((a1, a2, a3), hc, hd) ib (omega arith) low,
        )
        (
          (
            (a1, inl refl, omega arith),
            hc,
            ((omega arith, inr (omega arith), omega (arith, right_le b' ib)), hd, ib),
          ),
          inr refl,
        )

  right_low :
      (k : ℕ) (c : Tree V) (w : V) (d : Tree V) (v : V) (b b' : Tree V)
      → IsAa (node k c w d)
      → IsAa b'
      → suc (level b') ≡ k
      → level b ≡ k
      → Good
          (Lowered (node (suc k) (node k c w d) v b))
          (rebalance_on_remove (node (suc k) (node k c w d) v b'))
  right_low k c w nil v b b' ((a1, inl red, a3), hc, hd) ib low same = absurd (omega arith)
  right_low k c w (node n e x f) v b b' ((a1, inl red, a3), hc, hd) ib low same =
      let ((d1, d2, d3), he, hf) = subst (λ l. IsAa (node l e x f)) red hd in
      let whole : IsAa (node k c w (node k e x f)) =
        ((a1, inl refl, omega arith), hc, ((d1, d2, d3), he, hf)) in
      rw
        (
          red,
          gap k (node k c w (node k e x f)) v b' (inr (omega arith)) (omega arith),
          right_gap_red k c w e x f v b' whole ib low,
        )
        (
          (
            (omega arith, inr (omega arith), omega arith),
            ((a1, inr (omega arith), omega (arith, right_le e he)), hc, he),
            ((omega arith, inr (omega arith), omega (arith, right_le b' ib)), hf, ib),
          ),
          inl (omega arith, λ lt. omega arith),
        )
  right_low k c w d v b b' ((a1, inr black, a3), hc, hd) ib low same =
      right_low_black k c w d v b b' ((a1, inr black, a3), hc, hd) ib low same black

  pub remove_right :
      (l : ℕ) (a : Tree V) (v : V) (b b' : Tree V)
      → IsAa (node l a v b)
      → Lowered b b'
      → Good (Lowered (node l a v b)) (rebalance_on_remove (node l a v b'))
  remove_right zero a v b b' ((h1, h2, h3), ha, hb) low = absurd (omega arith)
  remove_right (suc k) a v b b' ((h1, h2, h3), ha, hb) (ib, inl (same, keeps)) =
      rw (no_gap (suc k) a v b' (omega arith) (omega arith)) (
        (
          (
            h1,
            rw same h2,
            elim h2 [
              | inl red ↦ omega (arith, keeps (omega arith))
              | inr low ↦ omega (arith, right_le b' ib)
            ],
          ),
          ha,
          ib,
        ),
        inl (refl, λ lt. omega arith),
      )
  remove_right (suc k) a v b b' ((h1, inl red, h3), ha, hb) (ib, inr down) =
      rw (no_gap (suc k) a v b' (omega arith) (omega arith)) (
        ((h1, inr (omega arith), omega (arith, right_le b' ib)), ha, ib),
        inl (refl, λ lt. omega arith),
      )
  remove_right (suc k) nil v b b' ((h1, inr black, h3), ha, hb) (ib, inr down) =
      absurd (omega arith)
  remove_right (suc k) (node m c w d) v b b' ((h1, inr black, h3), ha, hb) (ib, inr down) =
      let e : m ≡ k = omega arith in
      rw e (
        right_low k c w d v b b' (subst (λ l. IsAa (node l c w d)) e ha) ib (omega arith)
          (omega arith))
