-- ===== src/CbTree/Shape.antt =====
-- usual/cbtree.c: the shape of a crit-bit tree, and where raw_lookup ends.
use libusual_archive.Base.{
  ℕ, ◌≡◌, refl, sym, ◌∙◌, subst, true, false, List, [], ◌∷◌, ◌++◌, inl, inr, ◌⊎◌, Bool-cases,
}
use libusual_archive.CbTree.{Node, external, node, get_bit, raw_lookup}
use libusual_archive.CbTree.Critical.{Agree, SameBits}

-- The objects of a tree, from left to right.
abbrev pub objects : {A : Type 0} → Node A → List A
objects (external obj) = obj ∷ []
objects (node bitpos l r) = objects l ++ objects r

abbrev pub In : {A : Type 0} → A → Node A → Type 0
In x (external obj) = obj ≡ x
In x (node bitpos l r) = In x l ⊎ In x r

module _ {A : Type 0} (key : A → List ℕ) where
  -- The keys below a node agree before its bit, which is 0 on the left and 1 on the right.
  abbrev pub IsCritBit : Node A → Type 0
  IsCritBit (external obj) = Unit
  IsCritBit (node bitpos l r) =
      ((x y : A) → In x (node bitpos l r) → In y (node bitpos l r) → Agree (key x) (key y) bitpos)
      × ((x : A) → In x l → get_bit bitpos (key x) ≡ false)
      × ((x : A) → In x r → get_bit bitpos (key x) ≡ true)
      × IsCritBit l
      × IsCritBit r

  pub raw_lookup-left :
      (b : ℕ) (l r : Node A) (k : List ℕ)
      → get_bit b k ≡ false
      → raw_lookup key (node b l r) k ≡ raw_lookup key l k
  unfolding raw_lookup
  raw_lookup-left b l r k e = rw e refl

  pub raw_lookup-right :
      (b : ℕ) (l r : Node A) (k : List ℕ)
      → get_bit b k ≡ true
      → raw_lookup key (node b l r) k ≡ raw_lookup key r k
  unfolding raw_lookup
  raw_lookup-right b l r k e = rw e refl

  -- The object that is reached is in the tree.
  pub raw_lookup-In : (t : Node A) (k : List ℕ) → In (raw_lookup key t k) t
  unfolding raw_lookup
  raw_lookup-In (external obj) k = refl
  raw_lookup-In (node b l r) k = elim (Bool-cases (get_bit b k)) [
    | inl e ↦ inr (subst (λ x. In x r) (sym (raw_lookup-right b l r k e)) (raw_lookup-In r k))
    | inr e ↦ inl (subst (λ x. In x l) (sym (raw_lookup-left b l r k e)) (raw_lookup-In l k))
  ]

  -- An object with the bits of the key is the one that is reached.
  pub raw_lookup-same :
      (t : Node A) (k : List ℕ) (x : A)
      → IsCritBit t
      → In x t
      → SameBits (key x) k
      → raw_lookup key t k ≡ x
  unfolding raw_lookup
  raw_lookup-same (external obj) k x v e same = e
  raw_lookup-same (node b l r) k x (agree, zeros, ones, vl, vr) (inl h) same =
      raw_lookup-left b l r k (sym (same b) ∙ zeros x h) ∙ raw_lookup-same l k x vl h same
  raw_lookup-same (node b l r) k x (agree, zeros, ones, vl, vr) (inr h) same =
      raw_lookup-right b l r k (sym (same b) ∙ ones x h) ∙ raw_lookup-same r k x vr h same
