-- ===== src/CbTree/AsIndex.antt =====
-- usual/cbtree.c: the crit-bit tree is an index of objects by their keys.
use libusual_archive.Base.{
  ℕ, ◌≡◌, refl, sym, subst, Bool, true, false, List, inl, inr, ◌⊎◌, OneOf, IsInserted, Returns-map,
}
use libusual_archive.Index.{Index}
use libusual_archive.CbTree.{
  CbTree, cbtree_create, cbtree_lookup, cbtree_insert, cbtree_delete, cbtree_walk,
}
use libusual_archive.CbTree.Critical.{SameBits, IsKey}
use libusual_archive.CbTree.Walk.{IsAscending}
use libusual_archive.CbTree.Contract.{contents, IsCbTree, IsInsertion, cbtree_lookup_lem}
use libusual_archive.CbTree.Changes.{
  cbtree_insert_lem, IsDeletion, cbtree_delete_lem, cbtree_walk_lem, cbtree_create_lem,
}
use libusual_archive.CbTree.Unique.{ascending_distinct, ascending_without}

module _ {A : Type 0} (key : A → List ℕ) where
  pub valid-IsAscending : (t : CbTree A) → IsCbTree key t → IsAscending key (contents t)
  valid-IsAscending t v = (cbtree_walk_lem key (λ s x. (true, s)) t tt v).0

  abbrev IsAdded : Bool → A → CbTree A → Bool × CbTree A → Type 0
  IsAdded granted obj t r =
      ((r.0 ≡ true)
        × ((x : A) → OneOf x (contents t) → SameBits (key obj) (key x) → ⊥)
        × IsInserted obj (contents t) (contents (r.1))
        × IsCbTree key (r.1))
      ⊎ ((r.0 ≡ false)
          × (r.1 ≡ t)
          × ((granted ≡ false) ⊎ ((x : A) × OneOf x (contents t) × SameBits (key obj) (key x))))

  pub added :
      (granted : Bool) (obj : A) (t : CbTree A) (r : Bool × CbTree A)
      → IsInsertion key granted obj t r
      → IsAdded granted obj t r
  added granted obj t (ok, t') (inl (e, none_same, put, v, f, g)) = inl (e, none_same, put, v)
  added granted obj t (ok, t') (inr h) = inr h

  abbrev IsTaken : List ℕ → CbTree A → Bool × CbTree A → Type 0
  IsTaken k t r =
      ((r.0 ≡ true)
        × ((obj : A) × (key obj ≡ k)
            × IsInserted obj (contents (r.1)) (contents t)
            × ((x : A) → OneOf x (contents (r.1)) → SameBits (key x) k → ⊥)
            × IsCbTree key (r.1)))
      ⊎ ((r.0 ≡ false) × (r.1 ≡ t) × ((x : A) → OneOf x (contents t) → key x ≡ k → ⊥))

  pub taken :
      (k : List ℕ) (t : CbTree A) (r : Bool × CbTree A)
      → IsCbTree key t
      → IsDeletion key k t r
      → IsTaken k t r
  taken k t (ok, t') v (inl (e, obj, f, (xs, ys, p, q), v', g, h)) =
      let up = subst (IsAscending key) q (valid-IsAscending t v) in
      let gone : (x : A) → OneOf x (contents t') → SameBits (key x) k → ⊥ = λ x m same.
        ascending_without key xs obj ys x up (subst (OneOf x) p m)
          (subst (SameBits (key x)) (sym f) same) in
      inl (e, (obj, f, (xs, ys, p, q), gone, v'))
  taken k t (ok, t') v (inr (e, f, g)) = inr (e, f, g)

  abbrev pub cbtree_index : Index A key
  cbtree_index = record {
    State = CbTree A;
    create = cbtree_create;
    lookup = cbtree_lookup key;
    insert = cbtree_insert key;
    delete = cbtree_delete key;
    walk = cbtree_walk;
    contents = contents;
    IsValid = IsCbTree key;
    IsKey = IsKey;
    Same = SameBits;
    same_refl = λ k i. refl;
    create_lem = λ frees t e. cbtree_create_lem key frees t e;
    lookup_lem = λ t k v. cbtree_lookup_lem key t k v;
    insert_lem = λ granted t obj v k.
        Returns-map (cbtree_insert_lem key granted t obj v k) λ r h. added granted obj t r h;
    delete_lem = λ t k v. taken k t (cbtree_delete key t k) v (cbtree_delete_lem key t k v);
    distinct = λ t x y v h g same.
        ascending_distinct key (contents t) x y (valid-IsAscending t v) h g same;
    walk_lem = λ cb_func t s v. (cbtree_walk_lem key cb_func t s v).1;
  }
