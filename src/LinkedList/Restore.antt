-- ===== src/LinkedList/Restore.antt =====
-- usual/list.c: list_sort on the links in memory.
use libusual_archive.Base.{
  ℕ, zero, suc, ◌<◌, ◌≡◌, ◌≢◌, refl, sym, ap, ◌∙◌, subst, Bool, true, false, Option, some, List, [],
  ◌∷◌, leb, ◌==◌, if◌then◌else◌, ◌>>=◌, arith, Bool-cases, ==_iff, ==_false, inl, inr, length,
  Returns, Returns-bind,
}
use libusual_archive.LinkedList.{
  Links, set_next, set_prev, list_empty, take_nodes, restore, list_sort,
}
use libusual_archive.LinkedList.Ring.{Avoids, Distinct, Chain, IsList, update_other, update_self}
use libusual_archive.LinkedList.Sort.{sort_nodes}
use libusual_archive.LinkedList.Sort.Order.{IsSorted, with_rank, sort_nodes_lem}

restore-next :
    (s : Links) (list p : ℕ) (xs : List ℕ) (d : ℕ)
    → p ≢ d
    → Avoids d xs
    → (restore s list p xs).next d ≡ s.next d
unfolding restore
restore-next s list p [] d np a = ground arith
restore-next s list p (x ∷ xs) d np (nx, a) =
    restore-next (set_prev (set_next s p x) x p) list x xs d nx a
    ∙ update_other s.next p x d (λ e. np (sym e))

restore-prev :
    (s : Links) (list p : ℕ) (xs : List ℕ) (d : ℕ)
    → list ≢ d
    → Avoids d xs
    → (restore s list p xs).prev d ≡ s.prev d
unfolding restore
restore-prev s list p [] d np a = ground arith
restore-prev s list p (x ∷ xs) d np (nx, a) =
    restore-prev (set_prev (set_next s p x) x p) list x xs d np a
    ∙ update_other s.prev x p d (λ e. nx (sym e))

-- The last loop makes a ring of the nodes.
restore-Chain :
    (s : Links) (list p : ℕ) (xs : List ℕ)
    → Distinct (p ∷ xs)
    → Avoids list xs
    → Chain (restore s list p xs) p xs list
unfolding restore
restore-Chain s list p [] d a = (update_self s.next p list, update_self s.prev list p)
restore-Chain s list p (x ∷ xs) ((xp, px), (x_xs, d)) (xl, a) =
    let s' = set_prev (set_next s p x) x p in
    (
      restore-next s' list x xs p xp px ∙ update_self s.next p x,
      restore-prev s' list x xs x (λ e. xl (sym e)) x_xs ∙ update_self s.prev x p,
      restore-Chain s' list x xs (x_xs, d) a,
    )

-- The forward links alone.
abbrev IsReached : Links → ℕ → List ℕ → ℕ → Type 0
IsReached s p [] q = s.next p ≡ q
IsReached s p (x ∷ xs) q = (s.next p ≡ x) × IsReached s x xs q

forward : (s : Links) (p : ℕ) (xs : List ℕ) (q : ℕ) → Chain s p xs q → IsReached s p xs q
forward s p [] q (n, m) = n
forward s p (x ∷ xs) q (n, m, c) = (n, forward s x xs q c)

IsReached-set_next :
    (s : Links) (d v p : ℕ) (xs : List ℕ) (q : ℕ)
    → p ≢ d
    → Avoids d xs
    → IsReached s p xs q
    → IsReached (set_next s d v) p xs q
IsReached-set_next s d v p [] q np a n = update_other s.next d v p np ∙ n
IsReached-set_next s d v p (x ∷ xs) q np (nx, a) (n, c) =
    (update_other s.next d v p np ∙ n, IsReached-set_next s d v x xs q nx a c)

-- After the first node x is taken off, the others are still reached.
IsReached-rest :
    (s : Links) (list x : ℕ) (xs : List ℕ)
    → Distinct (list ∷ x ∷ xs)
    → IsReached s x xs list
    → IsReached (set_next (set_next s list (s.next x)) x 0) list xs list
IsReached-rest s list x [] ((xl, a), (b, d)) n =
    update_other ((set_next s list (s.next x)).next) x 0 list (λ e. xl (sym e))
    ∙ update_self s.next list (s.next x)
    ∙ n
IsReached-rest s list x (y ∷ ys) ((xl, (yl, a)), ((yx, b), d)) (n, c) = (
  update_other ((set_next s list (s.next x)).next) x 0 list (λ e. xl (sym e))
      ∙ update_self s.next list (s.next x)
      ∙ n,
  IsReached-set_next (set_next s list (s.next x)) x 0 y ys list yx b
      (IsReached-set_next s list (s.next x) y ys list yl a c),
)

-- One round, with the first node that it reads.
take_round : ℕ → Links → ℕ → ℕ → Option (List ℕ × Links)
take_round fuel s list p =
    if p == list
    then some ([], s)
    else (take_nodes fuel (set_next (set_next s list (s.next p)) p 0) list >>= λ (nodes, s').
        some (p ∷ nodes, s'))

take_nodes-round :
    (fuel : ℕ) (s : Links) (list p : ℕ)
    → s.next list ≡ p
    → take_nodes (suc fuel) s list ≡ take_round fuel s list p
unfolding take_nodes take_round
take_nodes-round fuel s list p n =
    subst (λ k. take_nodes (suc fuel) s list ≡ take_round fuel s list k) n refl

take_nodes_lem :
    (fuel : ℕ) (s : Links) (list : ℕ) (xs : List ℕ)
    → length xs < fuel
    → Distinct (list ∷ xs)
    → IsReached s list xs list
    → Returns (λ r. r.0 ≡ xs) (take_nodes fuel s list)
unfolding take_round
take_nodes_lem zero s list xs lt d c = absurd (omega arith)
take_nodes_lem (suc fuel) s list [] lt d n =
    let e : (list == list) ≡ true = (==_iff list list).1 refl in
    rw (take_nodes-round fuel s list list n, e) (([], s), refl, refl)
take_nodes_lem (suc fuel) s list (x ∷ xs) lt ((xl, a), (b, d)) (n, c) =
    elim (Bool-cases (x == list)) [
      | inl e ↦ absurd (xl ((==_iff x list).0 e))
      | inr e ↦
          rw (take_nodes-round fuel s list x n, e)
            (Returns-bind
              (take_nodes_lem fuel (set_next (set_next s list (s.next x)) x 0) list xs (omega arith)
                (a, d) (IsReached-rest s list x xs ((xl, a), (b, d)) c))
              λ (nodes, s') same. ((x ∷ nodes, s'), refl, ap (λ ys. x ∷ ys) same))
    ]

module _ (le : ℕ → ℕ → Bool) (rank : ℕ → ℕ)
    (compares : (x y : ℕ) → le x y ≡ leb (rank x) (rank y)) where
  with_rank-Avoids :
      (r d : ℕ) (xs : List ℕ) → Avoids d xs → Avoids d (with_rank le rank compares r xs)
  with_rank-Avoids r d [] a = tt
  with_rank-Avoids r d (x ∷ xs) (n, a) = elim (Bool-cases (rank x == r)) [
    | inl e ↦ rw e (n, with_rank-Avoids r d xs a)
    | inr e ↦ rw e (with_rank-Avoids r d xs a)
  ]

  Avoids-with_rank :
      (d : ℕ) (xs : List ℕ) → Avoids d (with_rank le rank compares (rank d) xs) → Avoids d xs
  Avoids-with_rank d [] a = tt
  Avoids-with_rank d (x ∷ xs) a =
      let others = with_rank le rank compares (rank d) xs in
      let picked = λ (t : Bool) (e : (rank x == rank d) ≡ t).
        subst (λ t. Avoids d (if t then x ∷ others else others)) e a in
      elim (Bool-cases (rank x == rank d)) [
        | inl e ↦ let (n, a') = picked true e in (n, Avoids-with_rank d xs a')
        | inr e ↦ (
          (λ k. ==_false (rank x) (rank d) e (ap rank k)),
          Avoids-with_rank d xs (picked false e),
        )
      ]

  with_rank-Distinct :
      (r : ℕ) (xs : List ℕ) → Distinct xs → Distinct (with_rank le rank compares r xs)
  with_rank-Distinct r [] d = tt
  with_rank-Distinct r (x ∷ xs) (a, d) = elim (Bool-cases (rank x == r)) [
    | inl e ↦ rw e (with_rank-Avoids r x xs a, with_rank-Distinct r xs d)
    | inr e ↦ rw e (with_rank-Distinct r xs d)
  ]

  tail_Distinct :
      (t : Bool) (x : ℕ) (xs : List ℕ) → Distinct (if t then x ∷ xs else xs) → Distinct xs
  tail_Distinct true x xs (a, d) = d
  tail_Distinct false x xs d = d

  Distinct-with_rank :
      (xs : List ℕ) → ((r : ℕ) → Distinct (with_rank le rank compares r xs)) → Distinct xs
  Distinct-with_rank [] d = tt
  Distinct-with_rank (x ∷ xs) d =
      let others = with_rank le rank compares (rank x) xs in
      let here =
        subst (λ t. Distinct (if t then x ∷ others else others)) ((==_iff (rank x) (rank x)).1 refl)
          (d (rank x)) in
      (
        Avoids-with_rank x xs (here.0),
        Distinct-with_rank xs
            λ r. tail_Distinct (rank x == r) x (with_rank le rank compares r xs) (d r),
      )

  -- A permutation that keeps the nodes of each rank keeps a ring's nodes distinct.
  same_nodes :
      (list : ℕ) (xs ys : List ℕ)
      → ((r : ℕ) → with_rank le rank compares r ys ≡ with_rank le rank compares r xs)
      → Distinct (list ∷ xs)
      → Distinct (list ∷ ys)
  same_nodes list xs ys same (a, d) = (
    Avoids-with_rank list ys
        (subst (Avoids list) (sym (same (rank list))) (with_rank-Avoids (rank list) list xs a)),
    Distinct-with_rank ys λ r. subst Distinct (sym (same r)) (with_rank-Distinct r xs d),
  )

  -- For nodes with ranks that cmp_func compares and a list of fewer nodes than the fuel: list_sort ends, and leaves under the same
  -- head a list of ascending ranks that has the nodes of each rank that the list had, in the same order (so it is the
  -- stable sort of the list), linked in both directions.
  pub list_sort_lem :
      (fuel : ℕ) (s : Links) (list : ℕ) (xs : List ℕ)
      → IsList s list xs
      → length xs < fuel
      → Returns
          (λ s'.
            (ys : List ℕ) × IsList s' list ys
            × IsSorted le rank compares ys
            × ((r : ℕ) → with_rank le rank compares r ys ≡ with_rank le rank compares r xs))
          (list_sort le fuel s list)
  unfolding list_sort list_empty
  list_sort_lem fuel s list [] (c, d) lt =
      let e : (s.next list == list) ≡ true = (==_iff (s.next list) list).1 (c.0) in
      rw e (s, refl, ([], (c, d), tt, λ r. refl))
  list_sort_lem fuel s list (x ∷ xs) (c, d) lt = elim (Bool-cases (s.next list == list)) [
    | inl e ↦ absurd (d.0.0 (sym (c.0) ∙ (==_iff (s.next list) list).0 e))
    | inr e ↦
        let (sorted, same) = sort_nodes_lem le rank compares (x ∷ xs) in
        let ys = sort_nodes le (x ∷ xs) in
        let d' = same_nodes list (x ∷ xs) ys same d in
        rw e (
          Returns-bind (take_nodes_lem fuel s list (x ∷ xs) lt d (forward s list (x ∷ xs) list c))
            λ (nodes, s') taken. rw taken (
              restore s' list list ys,
              refl,
              (ys, (restore-Chain s' list list ys d' (d'.0), d'), sorted, same),
            ))
  ]
