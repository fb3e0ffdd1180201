-- ===== src/CbTree/Delete.antt =====
-- usual/cbtree.c: cbtree_delete takes one object out and keeps the shape.
use libusual_archive.Base.{
  ℕ, refl, subst, Option, none, some, List, [], ◌++◌, inl, inr, ◌⊎◌, Bool-cases,
}
use mathlib.Core.List.{append-nil}
use libusual_archive.CbTree.{
  Node, external, node, get_bit, raw_lookup, drop_external, keep_left, keep_right,
}
use libusual_archive.CbTree.Shape.{objects, In, IsCritBit}
use libusual_archive.Base.{IsInserted, IsInserted-left, IsInserted-right}

-- The objects and the shape of a tree that may be empty.
abbrev pub contents_of : {A : Type 0} → Option (Node A) → List A
contents_of none = []
contents_of (some t) = objects t

abbrev pub InRoot : {A : Type 0} → A → Option (Node A) → Type 0
InRoot x none = ⊥
InRoot x (some t) = In x t

module _ {A : Type 0} (key : A → List ℕ) where
  abbrev pub IsShaped : Option (Node A) → Type 0
  IsShaped none = Unit
  IsShaped (some t) = IsCritBit key t

  -- What a removal leaves.
  abbrev pub IsDropped : A → Node A → Option (Node A) → Type 0
  IsDropped obj t o =
      IsShaped o × IsInserted obj (contents_of o) (objects t) × ((x : A) → InRoot x o → In x t)

  keep_left_lem :
      (b : ℕ) (obj : A) (l r : Node A) (o : Option (Node A))
      → IsCritBit key (node b l r)
      → IsDropped obj l o
      → IsDropped obj (node b l r) (some (keep_left key b o r))
  unfolding keep_left
  keep_left_lem b obj l r none (agree, zeros, ones, vl, vr) (v, taken, members) =
      (vr, IsInserted-left obj [] (objects l) (objects r) taken, λ x h. inr h)
  keep_left_lem b obj l r (some l') (agree, zeros, ones, vl, vr) (v, taken, members) =
      let up : (x : A) → In x l' ⊎ In x r → In x (node b l r) =
        λ x h. elim h [ inl m ↦ inl (members x m) | inr m ↦ inr m ] in
      (
        ((λ x y h g. agree x y (up x h) (up y g)), (λ x h. zeros x (members x h)), ones, v, vr),
        IsInserted-left obj (objects l') (objects l) (objects r) taken,
        up,
      )

  keep_right_lem :
      (b : ℕ) (obj : A) (l r : Node A) (o : Option (Node A))
      → IsCritBit key (node b l r)
      → IsDropped obj r o
      → IsDropped obj (node b l r) (some (keep_right key b l o))
  unfolding keep_right
  keep_right_lem b obj l r none (agree, zeros, ones, vl, vr) (v, taken, members) = (
    vl,
    subst (λ t. IsInserted obj t (objects l ++ objects r)) (append-nil (objects l))
        (IsInserted-right obj [] (objects r) (objects l) taken),
    λ x h. inl h,
  )
  keep_right_lem b obj l r (some r') (agree, zeros, ones, vl, vr) (v, taken, members) =
      let up : (x : A) → In x l ⊎ In x r' → In x (node b l r) =
        λ x h. elim h [ inl m ↦ inl m | inr m ↦ inr (members x m) ] in
      (
        ((λ x y h g. agree x y (up x h) (up y g)), zeros, (λ x h. ones x (members x h)), vl, v),
        IsInserted-right obj (objects r') (objects r) (objects l) taken,
        up,
      )

  -- drop_external takes out the object that raw_lookup reaches.
  pub drop_external_lem :
      (t : Node A) (k : List ℕ)
      → IsCritBit key t
      → IsDropped (raw_lookup key t k) t (drop_external key k t)
  unfolding drop_external raw_lookup
  drop_external_lem (external obj) k v = (tt, ([], [], refl, refl), λ x h. absurd h)
  drop_external_lem (node b l r) k v =
      let (agree, zeros, ones, vl, vr) = v in
      elim (Bool-cases (get_bit b k)) [
        | inl e ↦ rw e (
            keep_right_lem b (raw_lookup key r k) l r (drop_external key k r) v
              (drop_external_lem r k vr))
        | inr e ↦ rw e (
            keep_left_lem b (raw_lookup key l k) l r (drop_external key k l) v
              (drop_external_lem l k vl))
      ]
