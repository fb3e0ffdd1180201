-- ===== src/CbTree/Walk.antt =====
-- usual/cbtree.c: walking over a tree goes through its objects in the order of their keys.
use libusual_archive.Base.{
  ℕ, ◌≡◌, refl, sym, ◌∙◌, Bool, true, false, List, [], ◌∷◌, ◌++◌, inl, inr, Bool-cases, OneOf,
  append-OneOf, OneOf-append, if◌then◌else◌,
}
use libusual_archive.CbTree.{Node, external, node, get_bit, walk, destroy_node}
use libusual_archive.Index.{call_all}
use libusual_archive.CbTree.Critical.{Agree, SameBits}
use libusual_archive.CbTree.Byte.{false_not_true}
use libusual_archive.CbTree.Shape.{objects, In, IsCritBit}

call_all-append :
    {A S : Type 0} (cb_func : S → A → Bool × S) (xs ys : List A) (s : S)
    → call_all cb_func (xs ++ ys) s
      ≡ (let (ok, s') = call_all cb_func xs s in if ok then call_all cb_func ys s' else (false, s'))
call_all-append cb_func [] ys s = refl
call_all-append cb_func (x ∷ xs) ys s = elim (Bool-cases ((cb_func s x).0)) [
  | inl e ↦ rw e (call_all-append cb_func xs ys ((cb_func s x).1))
  | inr e ↦ rw e refl
]

same_pair : {S : Type 0} (r : Bool × S) → r ≡ (if r.0 then (true, r.1) else (false, r.1))
same_pair (true, s) = refl
same_pair (false, s) = refl

one_call :
    {A S : Type 0} (cb_func : S → A → Bool × S) (x : A) (s : S)
    → cb_func s x ≡ call_all cb_func (x ∷ []) s
one_call cb_func x s = same_pair (cb_func s x)

pub walk_lem :
    {A S : Type 0} (cb_func : S → A → Bool × S) (t : Node A) (s : S)
    → walk cb_func t s ≡ call_all cb_func (objects t) s
unfolding walk
walk_lem cb_func (external obj) s = one_call cb_func obj s
walk_lem cb_func (node b l r) s =
    rw (walk_lem cb_func l s, walk_lem cb_func r ((call_all cb_func (objects l) s).1))
      (sym (call_all-append cb_func (objects l) (objects r) s))

pub destroy_node_lem : {A : Type 0} (t : Node A) → destroy_node t ≡ objects t
unfolding destroy_node
destroy_node_lem (external obj) = refl
destroy_node_lem (node b l r) = rw (destroy_node_lem l, destroy_node_lem r) refl

-- The order of keys: at the first bit in which they differ, the first one has 0.
abbrev pub IsBefore : List ℕ → List ℕ → Type 0
IsBefore a b = (c : ℕ) × Agree a b c × (get_bit c a ≡ false) × (get_bit c b ≡ true)

pub In-objects : {A : Type 0} (x : A) (t : Node A) → In x t → OneOf x (objects t)
In-objects x (external obj) e = inl e
In-objects x (node b l r) (inl h) = append-OneOf x (objects l) (objects r) (inl (In-objects x l h))
In-objects x (node b l r) (inr h) = append-OneOf x (objects l) (objects r) (inr (In-objects x r h))

pub objects-In : {A : Type 0} (x : A) (t : Node A) → OneOf x (objects t) → In x t
objects-In x (external obj) (inl e) = e
objects-In x (external obj) (inr h) = absurd h
objects-In x (node b l r) h = elim (OneOf-append x (objects l) (objects r) h) [
  | inl g ↦ inl (objects-In x l g)
  | inr g ↦ inr (objects-In x r g)
]

module _ {A : Type 0} (key : A → List ℕ) where
  abbrev pub IsAscending : List A → Type 0
  IsAscending [] = Unit
  IsAscending (x ∷ xs) = ((y : A) → OneOf y xs → IsBefore (key x) (key y)) × IsAscending xs

  IsAscending-append :
      (xs ys : List A)
      → IsAscending xs
      → IsAscending ys
      → ((x y : A) → OneOf x xs → OneOf y ys → IsBefore (key x) (key y))
      → IsAscending (xs ++ ys)
  IsAscending-append [] ys h g across = g
  IsAscending-append (x ∷ xs) ys (h, hs) g across = (
    (λ y m. elim (OneOf-append y xs ys m) [ inl k ↦ h y k | inr k ↦ across x y (inl refl) k ]),
    IsAscending-append xs ys hs g λ z y k. across z y (inr k),
  )

  pub objects-IsAscending : (t : Node A) → IsCritBit key t → IsAscending (objects t)
  objects-IsAscending (external obj) v = ((λ y h. absurd h), tt)
  objects-IsAscending (node b l r) (agree, zeros, ones, vl, vr) =
      IsAscending-append (objects l) (objects r) (objects-IsAscending l vl)
        (objects-IsAscending r vr)
        λ x y h g.
          let mx = objects-In x l h in
          let my = objects-In y r g in (b, agree x y (inl mx) (inr my), zeros x mx, ones y my)

  -- An object is not before itself, so no two places of a sequence have keys with the same bits.
  pub before-itself : (a b : List ℕ) → IsBefore a b → SameBits a b → ⊥
  before-itself a b (c, agree, e, f) same = false_not_true (sym e ∙ same c ∙ f)
