-- ===== src/LinkedList/Ring.antt =====
-- usual/list.h: a list in memory is a ring of distinct nodes, linked in both directions.
use libusual_archive.Base.{ℕ, ◌≡◌, ◌≢◌, sym, ◌∙◌, List, [], ◌∷◌, ◌++◌, arith, update}
use libusual_archive.LinkedList.{Links, set_next, set_prev}

-- The node is not in the list.
abbrev pub Avoids : ℕ → List ℕ → Type 0
Avoids d [] = Unit
Avoids d (x ∷ xs) = (x ≢ d) × Avoids d xs

abbrev pub Distinct : List ℕ → Type 0
Distinct [] = Unit
Distinct (x ∷ xs) = Avoids x xs × Distinct xs

-- From p over the nodes to q, linked in both directions.
abbrev pub Chain : Links → ℕ → List ℕ → ℕ → Type 0
Chain s p [] q = (s.next p ≡ q) × (s.prev q ≡ p)
Chain s p (x ∷ xs) q = (s.next p ≡ x) × (s.prev x ≡ p) × Chain s x xs q

-- The list with this head has these nodes, in this order.
abbrev pub IsList : Links → ℕ → List ℕ → Type 0
IsList s list xs = Chain s list xs list × Distinct (list ∷ xs)

pub update_other : (f : ℕ → ℕ) (d v a : ℕ) → a ≢ d → update f d v a ≡ f a
update_other f d v a h = ground arith

pub update_self : (f : ℕ → ℕ) (d v : ℕ) → update f d v d ≡ v
update_self f d v = ground arith

-- Writes to other nodes keep a chain.
pub set_next-Chain :
    (s : Links) (d v p : ℕ) (xs : List ℕ) (q : ℕ)
    → p ≢ d
    → Avoids d xs
    → Chain s p xs q
    → Chain (set_next s d v) p xs q
set_next-Chain s d v p [] q np h (n, m) = (update_other s.next d v p np ∙ n, m)
set_next-Chain s d v p (x ∷ xs) q np (nx, h) (n, m, c) =
    (update_other s.next d v p np ∙ n, m, set_next-Chain s d v x xs q nx h c)

pub set_prev-Chain :
    (s : Links) (d v p : ℕ) (xs : List ℕ) (q : ℕ)
    → q ≢ d
    → Avoids d xs
    → Chain s p xs q
    → Chain (set_prev s d v) p xs q
set_prev-Chain s d v p [] q nq h (n, m) = (n, update_other s.prev d v q nq ∙ m)
set_prev-Chain s d v p (x ∷ xs) q nq (nx, h) (n, m, c) =
    (n, update_other s.prev d v x nx ∙ m, set_prev-Chain s d v x xs q nq h c)

pub Avoids-append : (d : ℕ) (xs ys : List ℕ) → Avoids d (xs ++ ys) → Avoids d xs × Avoids d ys
Avoids-append d [] ys h = (tt, h)
Avoids-append d (x ∷ xs) ys (n, h) = let (a, b) = Avoids-append d xs ys h in ((n, a), b)

pub append-Avoids : (d : ℕ) (xs ys : List ℕ) → Avoids d xs → Avoids d ys → Avoids d (xs ++ ys)
append-Avoids d [] ys h g = g
append-Avoids d (x ∷ xs) ys (n, h) g = (n, append-Avoids d xs ys h g)

-- A new node between two parts of a list of distinct nodes, and one taken out.
pub insert-Distinct :
    (xs : List ℕ) (d : ℕ) (ys : List ℕ)
    → Distinct (xs ++ ys)
    → Avoids d (xs ++ ys)
    → Distinct (xs ++ d ∷ ys)
insert-Distinct [] d ys h n = (n, h)
insert-Distinct (x ∷ xs) d ys (h, hs) (n, ns) =
    let (a, b) = Avoids-append x xs ys h in
    (append-Avoids x xs (d ∷ ys) a ((λ e. n (sym e)), b), insert-Distinct xs d ys hs ns)

pub delete-Distinct :
    (xs : List ℕ) (d : ℕ) (ys : List ℕ)
    → Distinct (xs ++ d ∷ ys)
    → Distinct (xs ++ ys) × Avoids d (xs ++ ys)
delete-Distinct [] d ys (h, hs) = (hs, h)
delete-Distinct (x ∷ xs) d ys (h, hs) =
    let (a, (n, b)) = Avoids-append x xs (d ∷ ys) h in
    let (p, q) = delete-Distinct xs d ys hs in
    ((append-Avoids x xs ys a b, p), ((λ e. n (sym e)), q))

-- The ends of a chain: the last link starts at one of its nodes.
pub prev_end-Avoids :
    (s : Links) (d p : ℕ) (xs : List ℕ) (q : ℕ)
    → Chain s p xs q
    → p ≢ d
    → Avoids d xs
    → s.prev q ≢ d
prev_end-Avoids s d p [] q (n, m) np h = λ e. np (sym m ∙ e)
prev_end-Avoids s d p (x ∷ xs) q (n, m, c) np (nx, h) = prev_end-Avoids s d x xs q c nx h

pub next_start-Avoids :
    (s : Links) (d p : ℕ) (xs : List ℕ) (q : ℕ)
    → Chain s p xs q
    → q ≢ d
    → Avoids d xs
    → s.next p ≢ d
next_start-Avoids s d p [] q (n, m) nq h = λ e. nq (sym n ∙ e)
next_start-Avoids s d p (x ∷ xs) q (n, m, c) nq (nx, h) = λ e. nx (sym n ∙ e)

pub split-Chain :
    (s : Links) (p : ℕ) (xs : List ℕ) (d : ℕ) (ys : List ℕ) (q : ℕ)
    → Chain s p (xs ++ d ∷ ys) q
    → Chain s p xs d × Chain s d ys q
split-Chain s p [] d ys q (n, m, c) = ((n, m), c)
split-Chain s p (x ∷ xs) d ys q (n, m, c) =
    let (a, b) = split-Chain s x xs d ys q c in ((n, m, a), b)

pub join-Chain :
    (s : Links) (p : ℕ) (xs : List ℕ) (d : ℕ) (ys : List ℕ) (q : ℕ)
    → Chain s p xs d
    → Chain s d ys q
    → Chain s p (xs ++ d ∷ ys) q
join-Chain s p [] d ys q (n, m) c = (n, m, c)
join-Chain s p (x ∷ xs) d ys q (n, m, a) c = (n, m, join-Chain s x xs d ys q a c)
