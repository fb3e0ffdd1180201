-- ===== src/LinkedList/Edit.antt =====
-- usual/list.h: adding nodes to a list and taking them out.
use libusual_archive.Base.{
  ℕ, ◌≡◌, ◌≢◌, refl, sym, ◌∙◌, subst, List, [], ◌∷◌, ◌++◌, arith, inl, inr, ◌⊎◌, ◌==◌, none, some,
  Bool-cases, ==_iff,
}
use mathlib.Core.List.{append-nil}
use libusual_archive.LinkedList.{
  Links, set_next, set_prev, list_empty, list_prepend, list_append, list_del, list_pop, list_first,
}
use libusual_archive.LinkedList.Ring.{
  Avoids, Distinct, Chain, IsList, update_other, set_next-Chain, set_prev-Chain, Avoids-append,
  append-Avoids, insert-Distinct, delete-Distinct, prev_end-Avoids, next_start-Avoids, split-Chain,
}

-- The writes of list_prepend and list_append, with the neighbour that they read.
unfoldable pub after_head : Links → ℕ → ℕ → ℕ → Links
after_head s list item n =
    set_next (set_prev (set_prev (set_next s item n) item list) n item) list item

unfoldable pub before_pos : Links → ℕ → ℕ → ℕ → Links
before_pos s pos item p =
    set_prev (set_next (set_prev (set_next s item pos) item p) p item) pos item

pub list_prepend_form :
    (s : Links) (list item : ℕ)
    → list ≢ item
    → list_prepend s list item ≡ after_head s list item (s.next list)
unfolding list_prepend after_head
list_prepend_form s list item ne = rw (update_other s.next item (s.next list) list ne) refl

pub list_append_form :
    (s : Links) (pos item : ℕ)
    → pos ≢ item
    → list_append s pos item ≡ before_pos s pos item (s.prev pos)
unfolding list_append before_pos
list_append_form s pos item ne = rw (update_other s.prev item (s.prev pos) pos ne) refl

-- A chain far from the writes.
pub far_after_head :
    (s : Links) (list item n p : ℕ) (xs : List ℕ) (q : ℕ)
    → (p ≢ item) × (p ≢ list)
    → (q ≢ item) × (q ≢ n)
    → Avoids item xs × Avoids n xs × Avoids list xs
    → Chain s p xs q
    → Chain (after_head s list item n) p xs q
unfolding after_head
far_after_head s list item n p xs q (p1, p2) (q1, q2) (a1, a2, a3) c =
    set_next-Chain _ list item p xs q p2 a3 (
      set_prev-Chain _ n item p xs q q2 a2
        (set_prev-Chain _ item list p xs q q1 a1 (set_next-Chain s item n p xs q p1 a1 c)))

pub prepend-Chain :
    (s : Links) (list item : ℕ) (xs : List ℕ) (q : ℕ)
    → list ≢ item
    → q ≢ item
    → Avoids item xs
    → Avoids q xs
    → Distinct (list ∷ xs)
    → Chain s list xs q
    → Chain (after_head s list item (s.next list)) list (item ∷ xs) q
prepend-Chain s list item [] q l1 q1 a1 a2 d (n, m) =
    subst (λ k. Chain (after_head s list item k) list (item ∷ []) q) (sym n)
      (unfold after_head in (ground arith, ground arith, (ground arith, ground arith)))
prepend-Chain s list item (x ∷ xs) q l1 q1 (x1, a1) (x2, a2) ((x3, d1), (d2, d3)) (n, m, c) =
    let far = far_after_head s list item x x xs q (x1, x3) (q1, λ e. x2 (sym e)) (a1, d2, d1) c in
    subst (λ k. Chain (after_head s list item k) list (item ∷ x ∷ xs) q) (sym n)
      (unfold after_head in (ground arith, ground arith, (ground arith, ground arith, far)))

-- The nodes up to the last one, whose `next` changes.
pub append-Chain :
    (s : Links) (pos item list : ℕ) (xs : List ℕ) (p : ℕ)
    → p ≡ s.prev pos
    → pos ≢ item
    → list ≢ item
    → Avoids item xs
    → Avoids pos xs
    → Distinct (list ∷ xs)
    → Chain s list xs pos
    → Chain (before_pos s pos item p) list (xs ++ item ∷ []) pos
unfolding before_pos
append-Chain s pos item list [] p e p1 l1 a1 a2 d (n, m) =
    rw (e, m) (ground arith, ground arith, (ground arith, ground arith))
append-Chain s pos item list (x ∷ xs) p e p1 l1 (x1, a1) (x2, a2) ((x3, d1), d) (n, m, c) =
    let far : p ≢ list = λ f. prev_end-Avoids s list x xs pos c x3 d1 (sym e ∙ f) in
    (ground arith, ground arith, append-Chain s pos item x xs p e p1 x1 a1 a2 d c)

-- The writes of list_del, with the neighbours that they read.
around : Links → ℕ → ℕ → ℕ → Links
around s item p n = set_next (set_prev (set_prev (set_next s p n) n p) item item) item item

list_del_form : (s : Links) (item : ℕ) → list_del s item ≡ around s item (s.prev item) (s.next item)
unfolding list_del around
list_del_form s item = ground arith

del-Chain :
    (s : Links) (item p n h : ℕ) (xs ys : List ℕ) (q : ℕ)
    → p ≡ s.prev item
    → n ≡ s.next item
    → h ≢ item
    → q ≢ item
    → Avoids item (xs ++ ys)
    → Distinct (h ∷ xs ++ ys)
    → Avoids q (xs ++ ys)
    → Chain s h xs item
    → Chain s item ys q
    → Chain (around s item p n) h (xs ++ ys) q
unfolding around
del-Chain s item p n h [] [] q e f h1 q1 a d aq (n1, m1) (n2, m2) =
    rw (e, f, m1, n2) (ground arith, ground arith)
del-Chain s item p n h [] (y ∷ ys) q e f h1 q1 (y1, a) ((y2, d1), (d2, d3)) (y3, aq) (n1, m1)
      (n2, m2, c) =
    let far = set_next-Chain _ item item y ys q y1 a (
      set_prev-Chain _ item item y ys q q1 a
        (set_prev-Chain _ y h y ys q (λ k. y3 (sym k)) d2 (set_next-Chain s h y y ys q y2 d1 c))) in
    let moved : Chain (around s item p n) y ys q =
      subst (λ k. Chain (around s item k n) y ys q) (sym (e ∙ m1))
        (subst (λ k. Chain (around s item h k) y ys q) (sym (f ∙ n2)) far) in
    (rw (e, f, m1, n2) (ground arith), rw (e, f, m1, n2) (ground arith), moved)
del-Chain s item p n h (x ∷ xs) ys q e f h1 q1 (x1, a) ((x2, d1), (d2, d3)) (x3, aq) (n1, m1, c)
      c2 =
    let (h_xs, _) = Avoids-append h xs ys d1 in
    let (_, x_ys) = Avoids-append x xs ys d2 in
    let last : p ≢ h = λ k. prev_end-Avoids s h x xs item c x2 h_xs (sym e ∙ k) in
    let first : n ≢ x =
      λ k. next_start-Avoids s x item ys q c2 (λ j. x3 (sym j)) x_ys (sym f ∙ k) in
    (ground arith, ground arith, del-Chain s item p n x xs ys q e f x1 q1 a (d2, d3) aq c c2)

-- In a list with a node that is not in it, list_prepend puts the node first.
pub list_prepend_lem :
    (s : Links) (list item : ℕ) (xs : List ℕ)
    → IsList s list xs
    → Avoids item (list ∷ xs)
    → IsList (list_prepend s list item) list (item ∷ xs)
list_prepend_lem s list item xs (c, (d, ds)) (l1, a) = (
  subst (λ t. Chain t list (item ∷ xs) list) (sym (list_prepend_form s list item l1))
      (prepend-Chain s list item xs list l1 l1 a d (d, ds) c),
  (((λ e. l1 (sym e)), d), (a, ds)),
)

-- In a list with a node that is not in it, list_append puts the node last.
pub list_append_lem :
    (s : Links) (list item : ℕ) (xs : List ℕ)
    → IsList s list xs
    → Avoids item (list ∷ xs)
    → IsList (list_append s list item) list (xs ++ item ∷ [])
list_append_lem s list item xs (c, (d, ds)) (l1, a) = (
  subst (λ t. Chain t list (xs ++ item ∷ []) list) (sym (list_append_form s list item l1))
      (append-Chain s list item list xs (s.prev list) refl l1 l1 a d (d, ds) c),
  (
    append-Avoids list xs (item ∷ []) d ((λ e. l1 (sym e)), tt),
    insert-Distinct xs item [] (subst Distinct (sym (append-nil xs)) ds)
        (subst (Avoids item) (sym (append-nil xs)) a),
  ),
)

del_self :
    (s : Links) (item : ℕ)
    → ((list_del s item).next item ≡ item) × ((list_del s item).prev item ≡ item)
unfolding list_del
del_self s item = (ground arith, ground arith)

-- list_del takes a node out of its list, wherever it stands, and leaves it as an empty list of its own.
pub list_del_lem :
    (s : Links) (list item : ℕ) (xs ys : List ℕ)
    → IsList s list (xs ++ item ∷ ys)
    → IsList (list_del s item) list (xs ++ ys) × IsList (list_del s item) item []
list_del_lem s list item xs ys (c, (d, ds)) =
    let (c1, c2) = split-Chain s list xs item ys list c in
    let (ds', out) = delete-Distinct xs item ys ds in
    let (d1, (l1, d2)) = Avoids-append list xs (item ∷ ys) d in
    let d' = append-Avoids list xs ys d1 d2 in
    let l2 = λ (e : list ≡ item). l1 (sym e) in
    (
      (
        subst (λ t. Chain t list (xs ++ ys) list) (sym (list_del_form s item))
            (del-Chain s item (s.prev item) (s.next item) list xs ys list refl refl l2 l2 out
              (d', ds') d' c1 c2),
        (d', ds'),
      ),
      (del_self s item, (tt, tt)),
    )

pub list_pop_first :
    (s : Links) (list x : ℕ) (xs : List ℕ)
    → IsList s list (x ∷ xs)
    → (list_pop s list ≡ (some x, list_del s x)) × (list_first s list ≡ some x)
unfolding list_pop list_first list_empty
list_pop_first s list x xs ((n, m, c), ((x1, d), ds)) = elim (Bool-cases (s.next list == list)) [
  | inl e ↦ absurd (x1 (sym n ∙ (==_iff (s.next list) list).0 e))
  | inr e ↦ (rw (e, n) refl, rw (e, n) refl)
]

pub list_pop-none : (s : Links) (list : ℕ) → IsList s list [] → list_pop s list ≡ (none, s)
unfolding list_pop list_empty
list_pop-none s list ((n, m), d) = ground arith

-- list_pop on an empty list returns NULL and changes nothing; on any other it takes the first node out, which is what list_first showed, and
-- leaves it as an empty list of its own.
pub list_pop_lem :
    (s : Links) (list : ℕ) (xs : List ℕ)
    → IsList s list xs
    → (xs ≡ []) × (list_pop s list ≡ (none, s)) × (list_first s list ≡ none)
      ⊎ ((x : ℕ) × (rest : List ℕ) × (xs ≡ x ∷ rest)
          × (list_pop s list ≡ (some x, list_del s x))
          × (list_first s list ≡ some x)
          × IsList (list_del s x) list rest
          × IsList (list_del s x) x [])
unfolding list_pop list_first list_empty
list_pop_lem s list [] ((n, m), d) = inl (refl, ground arith, ground arith)
list_pop_lem s list (x ∷ xs) h =
    let (taken, alone) = list_del_lem s list x [] xs h in
    let (popped, first) = list_pop_first s list x xs h in
    inr (x, xs, refl, popped, first, taken, alone)
