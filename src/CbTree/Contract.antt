-- ===== src/CbTree/Contract.antt =====
-- usual/cbtree.c: what each function of the tree promises, said with its objects in a row.
use libusual_archive.Base.{
  ℕ, ◌≡◌, refl, sym, ap, ◌∙◌, subst, Bool, true, false, Option, none, some, List, inl, inr, ◌⊎◌,
  Bool-cases, arith, OneOf, if◌then◌else◌, ◌==◌, ==_iff, ◌<◌,
}
use libusual_archive.CbTree.{
  CbTree, Node, get_bit, same_key, key_matches, raw_lookup, cbtree_lookup, insert_at,
}
use libusual_archive.Index.{IsFound}
use libusual_archive.CbTree.Byte.{same_key_bytes_lem, false_not_true}
use libusual_archive.CbTree.Critical.{SameBits, IsKey, IsCritical}
use libusual_archive.CbTree.Shape.{objects, IsCritBit, raw_lookup-In, raw_lookup-same}
use libusual_archive.Base.{IsInserted}
use libusual_archive.CbTree.Insert.{insert_at_lem}
use libusual_archive.CbTree.Delete.{contents_of, IsShaped}
use libusual_archive.CbTree.Walk.{In-objects, objects-In}

-- The objects of the tree, in the order of a walk.
abbrev pub contents : {A : Type 0} → CbTree A → List A
contents tree = contents_of tree.root

module _ {A : Type 0} (key : A → List ℕ) where
  abbrev pub HasKeys : List A → Type 0
  HasKeys xs = (x : A) → OneOf x xs → IsKey (key x)

  abbrev pub IsCbTree : CbTree A → Type 0
  IsCbTree tree = IsShaped key tree.root × HasKeys (contents tree)

  pub key_matches_sound : (obj : A) (k : List ℕ) → key_matches key obj k ≡ true → key obj ≡ k
  unfolding key_matches
  key_matches_sound obj k e = (same_key_bytes_lem (key obj) k).0 e

  pub key_matches_same : (obj : A) (k : List ℕ) → key obj ≡ k → key_matches key obj k ≡ true
  unfolding key_matches
  key_matches_same obj k e = (same_key_bytes_lem (key obj) k).1 e

  pub same_bits : (obj : A) (k : List ℕ) → key obj ≡ k → SameBits (key obj) k
  same_bits obj k e = λ i. ap (get_bit i) e

  lookup_root :
      (root : Option (Node A)) (frees : Bool) (released : List A) (k : List ℕ)
      → IsShaped key root
      → IsFound key
          (contents_of root)
          k
          (cbtree_lookup key (record { root = root; frees = frees; released = released }) k)
  unfolding cbtree_lookup
  lookup_root none frees released k v = λ x h. absurd h
  lookup_root (some t) frees released k v =
      let reached = raw_lookup key t k in
      elim (Bool-cases (key_matches key reached k)) [
        | inl e ↦ rw e (In-objects reached t (raw_lookup-In key t k), key_matches_sound reached k e)
        | inr e ↦ rw e λ x h same.
            let here : reached ≡ x =
              raw_lookup-same key t k x v (objects-In x t h) (same_bits x k same) in
            false_not_true (sym e ∙ key_matches_same reached k (ap key here ∙ same))
      ]

  -- In a valid tree: cbtree_lookup finds the object with exactly this key, and returns nothing only if no object has it.
  pub cbtree_lookup_lem :
      (tree : CbTree A) (k : List ℕ)
      → IsCbTree tree
      → IsFound key (contents tree) k (cbtree_lookup key tree k)
  cbtree_lookup_lem tree k (v, keys) = lookup_root tree.root tree.frees tree.released k v

  -- The outcomes of an insertion.
  abbrev pub IsInsertion : Bool → A → CbTree A → Bool × CbTree A → Type 0
  IsInsertion granted obj tree (ok, tree') =
      ((ok ≡ true)
        × ((x : A) → OneOf x (contents tree) → SameBits (key obj) (key x) → ⊥)
        × IsInserted obj (contents tree) (contents tree')
        × IsCbTree tree'
        × (tree'.frees ≡ tree.frees)
        × (tree'.released ≡ tree.released))
      ⊎ ((ok ≡ false)
          × (tree' ≡ tree)
          × ((granted ≡ false) ⊎ ((x : A) × OneOf x (contents tree) × SameBits (key obj) (key x))))

  -- A critical bit decides between the refusal of a clash and the new object.
  pub critical_cases :
      (granted : Bool) (t : Node A) (frees : Bool) (released : List A) (obj : A) (newbit : ℕ)
      → IsCritBit key t
      → HasKeys (objects t)
      → IsKey (key obj)
      → IsCritical (key obj) (key (raw_lookup key t (key obj))) newbit
      → IsInsertion granted obj
          (record { root = some t; frees = frees; released = released })
          (if newbit == same_key
            then (false, record { root = some t; frees = frees; released = released })
            else if granted
            then (
              true,
              record {
                root = some (insert_at key newbit (key obj) obj t);
                frees = frees;
                released = released;
              },
            )
            else (false, record { root = some t; frees = frees; released = released }))
  critical_cases granted t frees released obj newbit v keys k (inl (e, same)) =
      rw (e, (==_iff same_key same_key).1 refl)
        (inr (
          refl,
          refl,
          inr (
            raw_lookup key t (key obj),
            In-objects (raw_lookup key t (key obj)) t (raw_lookup-In key t (key obj)),
            same,
          ),
        ))
  critical_cases false t frees released obj newbit v keys k (inr (lt, agree, differ)) =
      rw (other newbit lt) (inr (refl, refl, inl refl))
    where
      other : (n : ℕ) → n < same_key → (n == same_key) ≡ false
      other n h = ground arith
  critical_cases true t frees released obj newbit v keys k (inr (lt, agree, differ)) =
      let (v', added, members) = insert_at_lem key newbit obj t v agree differ in
      let none_same : (x : A) → OneOf x (objects t) → SameBits (key obj) (key x) → ⊥ = λ x h same.
        differ (
          same newbit
          ∙ sym (
              ap (λ o. get_bit newbit (key o))
                (raw_lookup-same key t (key obj) x v (objects-In x t h) λ i. sym (same i)))) in
      let keys' : HasKeys (objects (insert_at key newbit (key obj) obj t)) = λ x h.
        elim (members x (objects-In x _ h)) [
          | inl e ↦ subst (λ o. IsKey (key o)) e k
          | inr m ↦ keys x (In-objects x t m)
        ] in
      rw (other newbit lt) (inl (refl, none_same, added, (v', keys'), refl, refl))
    where
      other : (n : ℕ) → n < same_key → (n == same_key) ≡ false
      other n h = ground arith
