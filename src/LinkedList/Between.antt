-- ===== src/LinkedList/Between.antt =====
-- usual/list.h: adding a node next to another one inside a list.
use libusual_archive.Base.{ℕ, ◌≢◌, refl, sym, subst, List, [], ◌∷◌, ◌++◌}
use mathlib.Core.List.{append_assoc}
use libusual_archive.LinkedList.{Links, list_prepend, list_append}
use libusual_archive.LinkedList.Ring.{
  Avoids, Distinct, Chain, IsList, set_next-Chain, set_prev-Chain, Avoids-append, append-Avoids,
  insert-Distinct, delete-Distinct, split-Chain, join-Chain, prev_end-Avoids, next_start-Avoids,
}
use libusual_archive.LinkedList.Edit.{
  before_pos, after_head, far_after_head, prepend-Chain, append-Chain, list_prepend_form,
  list_append_form,
}

-- The node before the end of a part of a ring is not in the other part, and neither is the node after its start.
prev_not_after :
    (s : Links) (p : ℕ) (xs : List ℕ) (d : ℕ) (ys : List ℕ)
    → Chain s p xs d
    → Avoids p ys
    → Distinct (xs ++ d ∷ ys)
    → Avoids (s.prev d) ys
prev_not_after s p [] d ys (n, m) a h = subst (λ k. Avoids k ys) (sym m) a
prev_not_after s p (x ∷ xs) d ys (n, m, c) a (h, hs) =
    prev_not_after s x xs d ys c ((Avoids-append x xs (d ∷ ys) h).1.1) hs

next_not_before :
    (s : Links) (d : ℕ) (ys : List ℕ) (q : ℕ) (xs : List ℕ)
    → Chain s d ys q
    → Avoids q xs
    → Distinct (xs ++ d ∷ ys)
    → Avoids (s.next d) xs
next_not_before s d ys q [] c a h = tt
next_not_before s d ys q (x ∷ xs) c (xq, a) (h, hs) =
    let (_, (_, x_ys)) = Avoids-append x xs (d ∷ ys) h in
    (
      (λ e. next_start-Avoids s x d ys q c (λ k. xq (sym k)) x_ys (sym e)),
      next_not_before s d ys q xs c a hs,
    )

first_Distinct : (xs ys : List ℕ) → Distinct (xs ++ ys) → Distinct xs
first_Distinct [] ys h = tt
first_Distinct (x ∷ xs) ys (h, hs) = ((Avoids-append x xs ys h).0, first_Distinct xs ys hs)

insert_second :
    (xs : List ℕ) (p d : ℕ) (ys : List ℕ)
    → Distinct (xs ++ p ∷ ys)
    → Avoids d (xs ++ p ∷ ys)
    → Distinct (xs ++ p ∷ d ∷ ys)
insert_second [] p d ys (h, hs) (n, ns) = (((λ e. n (sym e)), h), (ns, hs))
insert_second (x ∷ xs) p d ys (h, hs) (n, ns) =
    let (a, (b, c)) = Avoids-append x xs (p ∷ ys) h in
    (append-Avoids x xs (p ∷ d ∷ ys) a (b, ((λ e. n (sym e)), c)), insert_second xs p d ys hs ns)

second_Distinct : (xs ys : List ℕ) → Distinct (xs ++ ys) → Distinct ys
second_Distinct [] ys h = h
second_Distinct (x ∷ xs) ys (h, hs) = second_Distinct xs ys hs

-- In a list with `pos` in it and `item` not in it, list_append at `pos` puts the item right before `pos`.
pub list_append_before :
    (s : Links) (list item pos : ℕ) (xs ys : List ℕ)
    → IsList s list (xs ++ pos ∷ ys)
    → Avoids item (list ∷ xs ++ pos ∷ ys)
    → IsList (list_append s pos item) list (xs ++ item ∷ pos ∷ ys)
list_append_before s list item pos xs ys (c, (d, ds)) (l1, a) =
    let (c1, c2) = split-Chain s list xs pos ys list c in
    let (d1, (lp, d2)) = Avoids-append list xs (pos ∷ ys) d in
    let (a1, (pi, a2)) = Avoids-append item xs (pos ∷ ys) a in
    let (ds', out) = delete-Distinct xs pos ys ds in
    let (o1, o2) = Avoids-append pos xs ys out in
    let parted = prev_not_after s list xs pos ys c1 d2 ds in
    let first =
      append-Chain s pos item list xs (s.prev pos) refl pi l1 a1 o1
        (d1, first_Distinct xs (pos ∷ ys) ds) c1 in
    let pos_last : pos ≢ s.prev pos =
      λ e. prev_end-Avoids s pos list xs pos c1 (λ k. lp (sym k)) o1 (sym e) in
    let second : Chain (before_pos s pos item (s.prev pos)) pos ys list =
      unfold before_pos in
      set_prev-Chain _ pos item pos ys list (λ k. lp (sym k)) o2
        (set_next-Chain _ (s.prev pos) item pos ys list pos_last parted (
          set_prev-Chain _ item (s.prev pos) pos ys list l1 a2
            (set_next-Chain s item pos pos ys list pi a2 c2))) in
    let whole =
      join-Chain (before_pos s pos item (s.prev pos)) list (xs ++ item ∷ []) pos ys list first
        second in
    (
      subst (λ t. Chain t list (xs ++ item ∷ pos ∷ ys) list) (sym (list_append_form s pos item pi))
          (subst (λ zs. Chain (before_pos s pos item (s.prev pos)) list zs list)
            (append_assoc xs (item ∷ []) (pos ∷ ys)) whole),
      (
        append-Avoids list xs (item ∷ pos ∷ ys) d1 ((λ e. l1 (sym e)), (lp, d2)),
        insert-Distinct xs item (pos ∷ ys) ds a,
      ),
    )

-- In a list with `pos` in it and `item` not in it, list_prepend at `pos` puts the item right after `pos`.
pub list_prepend_after :
    (s : Links) (list item pos : ℕ) (xs ys : List ℕ)
    → IsList s list (xs ++ pos ∷ ys)
    → Avoids item (list ∷ xs ++ pos ∷ ys)
    → IsList (list_prepend s pos item) list (xs ++ pos ∷ item ∷ ys)
list_prepend_after s list item pos xs ys (c, (d, ds)) (l1, a) =
    let (c1, c2) = split-Chain s list xs pos ys list c in
    let (d1, (lp, d2)) = Avoids-append list xs (pos ∷ ys) d in
    let (a1, (pi, a2)) = Avoids-append item xs (pos ∷ ys) a in
    let (ds', out) = delete-Distinct xs pos ys ds in
    let (o1, o2) = Avoids-append pos xs ys out in
    let pos_ys = second_Distinct xs (pos ∷ ys) ds in
    let second = prepend-Chain s pos item ys list pi l1 a2 d2 pos_ys c2 in
    let n_pos : pos ≢ s.next pos =
      λ e. next_start-Avoids s pos pos ys list c2 (λ k. lp (sym k)) o2 (sym e) in
    let parted = next_not_before s pos ys list xs c2 d1 ds in
    let first : Chain (after_head s pos item (s.next pos)) list xs pos =
      far_after_head s pos item (s.next pos) list xs pos (l1, λ k. lp (sym k)) (pi, n_pos)
        (a1, parted, o1) c1 in
    let whole =
      join-Chain (after_head s pos item (s.next pos)) list xs pos (item ∷ ys) list first second in
    (
      subst (λ t. Chain t list (xs ++ pos ∷ item ∷ ys) list) (sym (list_prepend_form s pos item pi))
          whole,
      (
        append-Avoids list xs (pos ∷ item ∷ ys) d1 (lp, ((λ e. l1 (sym e)), d2)),
        insert_second xs pos item ys ds a,
      ),
    )
