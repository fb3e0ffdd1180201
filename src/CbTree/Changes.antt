-- ===== src/CbTree/Changes.antt =====
-- usual/cbtree.c: insertion, deletion, walking and the end of a tree, from its creation on.
use libusual_archive.Base.{
  ℕ, ◌≡◌, ◌≢◌, ◌≤◌, refl, sym, ap, ◌∙◌, subst, Bool, true, false, Option, none, some, List, [],
  ◌++◌, inl, inr, ◌⊎◌, Bool-cases, arith, OneOf, if◌then◌else◌, Returns, Returns-bind, Returns-map,
  Returns-some, ltb, length,
}
use mathlib.Core.List.{append-nil}
use mathlib.Core.Option.{some-injective}
use libusual_archive.CbTree.{
  CbTree, Node, max_key, key_matches, raw_lookup, cbtree_create, cbtree_insert, cbtree_delete,
  cbtree_destroy, cbtree_walk, drop_external, release,
}
use libusual_archive.Index.{call_all}
use libusual_archive.CbTree.Critical.{IsKey, SameBits, find_crit_bit_lem}
use libusual_archive.CbTree.Shape.{objects, raw_lookup-In, raw_lookup-same}
use libusual_archive.Base.{IsInserted}
use libusual_archive.CbTree.Delete.{contents_of, IsShaped, IsDropped, drop_external_lem}
use libusual_archive.CbTree.Walk.{
  walk_lem, destroy_node_lem, In-objects, objects-In, IsAscending, objects-IsAscending,
}
use libusual_archive.CbTree.Contract.{
  contents, HasKeys, IsCbTree, IsInsertion, critical_cases, key_matches_sound, key_matches_same,
  same_bits,
}
use libusual_archive.CbTree.Byte.{false_not_true}

module _ {A : Type 0} (key : A → List ℕ) where
  not_too_long : (n : ℕ) → n ≤ max_key → ltb max_key n ≡ false
  not_too_long n h = ground arith

  insert_root :
      (granted : Bool) (root : Option (Node A)) (frees : Bool) (released : List A) (obj : A)
      → IsCbTree key (record { root = root; frees = frees; released = released })
      → IsKey (key obj)
      → Returns
          (IsInsertion key granted obj (record { root = root; frees = frees; released = released }))
          (cbtree_insert key granted
            (record { root = root; frees = frees; released = released })
            obj)
  unfolding cbtree_insert
  insert_root granted none frees released obj v k = (
    _,
    refl,
    inl (
      refl,
      (λ x h. absurd h),
      ([], [], refl, refl),
      (tt, λ x h. elim h [ inl e ↦ subst (λ o. IsKey (key o)) e k | inr h ↦ absurd h ]),
      refl,
      refl,
    ),
  )
  insert_root granted (some t) frees released obj (v, keys) k =
      let reached = raw_lookup key t (key obj) in
      let reached_key = keys reached (In-objects reached t (raw_lookup-In key t (key obj))) in
      rw (not_too_long (length (key obj)) (k.1)) (
        Returns-bind (find_crit_bit_lem (key obj) (key reached) k reached_key) λ newbit crit.
          (_, refl, critical_cases key granted t frees released obj newbit v keys k crit))

  pub cbtree_insert_lem :
      (granted : Bool) (tree : CbTree A) (obj : A)
      → IsCbTree key tree
      → IsKey (key obj)
      → Returns (IsInsertion key granted obj tree) (cbtree_insert key granted tree obj)
  cbtree_insert_lem granted tree obj v k =
      insert_root granted tree.root tree.frees tree.released obj v k

  -- The outcomes where no object of the tree clashes with the new one.
  abbrev pub IsNewInsertion : Bool → A → CbTree A → Bool × CbTree A → Type 0
  IsNewInsertion granted obj tree (ok, tree') =
      ((ok ≡ true)
        × IsInserted obj (contents tree) (contents tree')
        × IsCbTree key tree'
        × (tree'.frees ≡ tree.frees)
        × (tree'.released ≡ tree.released))
      ⊎ ((ok ≡ false) × (tree' ≡ tree) × (granted ≡ false))

  without_clash :
      (granted : Bool) (obj : A) (tree : CbTree A) (r : Bool × CbTree A)
      → ((x : A) → OneOf x (contents tree) → SameBits (key obj) (key x) → ⊥)
      → IsInsertion key granted obj tree r
      → IsNewInsertion granted obj tree r
  without_clash granted obj tree (ok, tree') none_same (inl (e, f, added, v, g, h)) =
      inl (e, added, v, g, h)
  without_clash granted obj tree (ok, tree') none_same (inr (e, same, inl failed)) =
      inr (e, same, failed)
  without_clash granted obj tree (ok, tree') none_same (inr (e, same, inr (x, m, clash))) =
      absurd (none_same x m clash)

  -- In a valid tree, for an object with a key of bytes and at most MAX_KEY of them, where no object of the tree has a key with the
  -- same bits: cbtree_insert returns. Either it gives true, exactly this object is added and the tree stays valid; or it gives
  -- false, the tree is unchanged, and the allocation failed.
  pub cbtree_insert_new :
      (granted : Bool) (tree : CbTree A) (obj : A)
      → IsCbTree key tree
      → IsKey (key obj)
      → ((x : A) → OneOf x (contents tree) → SameBits (key obj) (key x) → ⊥)
      → Returns (IsNewInsertion granted obj tree) (cbtree_insert key granted tree obj)
  cbtree_insert_new granted tree obj v k none_same =
      Returns-map (cbtree_insert_lem granted tree obj v k)
        λ r h. without_clash granted obj tree r none_same h

  -- The outcomes of a deletion.
  abbrev pub IsDeletion : List ℕ → CbTree A → Bool × CbTree A → Type 0
  IsDeletion k tree (ok, tree') =
      ((ok ≡ true)
        × (obj : A) × (key obj ≡ k)
        × IsInserted obj (contents tree') (contents tree)
        × IsCbTree key tree'
        × (tree'.frees ≡ tree.frees)
        × (tree'.released ≡ release key tree obj))
      ⊎ ((ok ≡ false) × (tree' ≡ tree) × ((x : A) → OneOf x (contents tree) → key x ≢ k))

  dropped_keys :
      (obj : A) (t : Node A) (o : Option (Node A))
      → HasKeys key (objects t)
      → IsDropped key obj t o
      → HasKeys key (contents_of o)
  dropped_keys obj t none keys d = λ x h. absurd h
  dropped_keys obj t (some t') keys (v, taken, members) =
      λ x h. keys x (In-objects x t (members x (objects-In x t' h)))

  delete_root :
      (root : Option (Node A)) (frees : Bool) (released : List A) (k : List ℕ)
      → IsCbTree key (record { root = root; frees = frees; released = released })
      → IsDeletion k
          (record { root = root; frees = frees; released = released })
          (cbtree_delete key (record { root = root; frees = frees; released = released }) k)
  unfolding cbtree_delete
  delete_root none frees released k v = inr (refl, refl, λ x h. absurd h)
  delete_root (some t) frees released k (v, keys) =
      let reached = raw_lookup key t k in
      let dropped = drop_external_lem key t k v in
      elim (Bool-cases (key_matches key reached k)) [
        | inl e ↦ rw e (
            inl (
              refl,
              reached,
              key_matches_sound key reached k e,
              dropped.1,
              (dropped.0, dropped_keys reached t (drop_external key k t) keys dropped),
              refl,
              refl,
            ))
        | inr e ↦
            let absent : (x : A) → OneOf x (objects t) → key x ≢ k = λ x h same.
              let here : reached ≡ x =
                raw_lookup-same key t k x v (objects-In x t h) (same_bits key x k same) in
              false_not_true (sym e ∙ key_matches_same key reached k (ap key here ∙ same)) in
            rw e (inr (refl, refl, absent))
      ]

  -- In a valid tree: either cbtree_delete gives true, exactly one object with this key is taken out and given to obj_free_cb, if
  -- there is one, and the tree stays valid; or it gives false, the tree is unchanged and no object has the key.
  pub cbtree_delete_lem :
      (tree : CbTree A) (k : List ℕ)
      → IsCbTree key tree
      → IsDeletion k tree (cbtree_delete key tree k)
  cbtree_delete_lem tree k v = delete_root tree.root tree.frees tree.released k v

  shaped-IsAscending :
      (root : Option (Node A)) → IsShaped key root → IsAscending key (contents_of root)
  shaped-IsAscending none v = tt
  shaped-IsAscending (some t) v = objects-IsAscending key t v

  walk_root :
      {S : Type 0} (cb_func : S → A → Bool × S) (root : Option (Node A)) (frees : Bool)
      (released : List A) (s : S)
      → cbtree_walk cb_func (record { root = root; frees = frees; released = released }) s
        ≡ call_all cb_func (contents_of root) s
  unfolding cbtree_walk
  walk_root cb_func none frees released s = refl
  walk_root cb_func (some t) frees released s = walk_lem cb_func t s

  -- In a valid tree: cbtree_walk calls cb_func on the objects in the order of their keys, no two of which have the same bits,
  -- up to the first call that returns false.
  pub cbtree_walk_lem :
      {S : Type 0} (cb_func : S → A → Bool × S) (tree : CbTree A) (s : S)
      → IsCbTree key tree
      → IsAscending key (contents tree)
        × (cbtree_walk cb_func tree s ≡ call_all cb_func (contents tree) s)
  cbtree_walk_lem cb_func tree s (v, keys) =
      (shaped-IsAscending tree.root v, walk_root cb_func tree.root tree.frees tree.released s)

  -- The trees that calls of the functions make, where every object has a key of bytes and at most MAX_KEY of them.
  pub data Reach : CbTree A → Type 0 where
    created :
        (frees : Bool) {tree : CbTree A}
        → (made : cbtree_create frees true ≡ some tree) → Reach tree
    inserted :
        (granted : Bool) (tree : CbTree A) (obj : A) (ok : Bool) {tree' : CbTree A}
        → (before : Reach tree) → (is_key : IsKey (key obj))
        → (step : cbtree_insert key granted tree obj ≡ some (ok, tree')) → Reach tree'
    deleted :
        (tree : CbTree A) (k : List ℕ)
        → (before : Reach tree) → Reach ((cbtree_delete key tree k).1)

  pub cbtree_create_lem :
      (frees : Bool) (tree : CbTree A)
      → cbtree_create frees true ≡ some tree
      → IsCbTree key tree × (contents tree ≡ [])
  unfolding cbtree_create
  cbtree_create_lem frees tree e =
      let fresh : record { root = none; frees = frees; released = [] } ≡ tree =
        some-injective _ tree e in
      (subst (IsCbTree key) fresh (tt, λ x h. absurd h), ap contents (sym fresh))

  insertion-IsCbTree :
      (granted : Bool) (obj : A) (tree : CbTree A) (r : Bool × CbTree A)
      → IsCbTree key tree
      → IsInsertion key granted obj tree r
      → IsCbTree key (r.1)
  insertion-IsCbTree granted obj tree (ok, tree') v (inl (e, none_same, added, v', f, g)) = v'
  insertion-IsCbTree granted obj tree (ok, tree') v (inr (e, same, reason)) =
      subst (IsCbTree key) (sym same) v

  deletion-IsCbTree :
      (k : List ℕ) (tree : CbTree A) (r : Bool × CbTree A)
      → IsCbTree key tree
      → IsDeletion k tree r
      → IsCbTree key (r.1)
  deletion-IsCbTree k tree (ok, tree') v (inl (e, obj, f, taken, v', g, h)) = v'
  deletion-IsCbTree k tree (ok, tree') v (inr (e, same, absent)) = subst (IsCbTree key) (sym same) v

  destroy_root :
      (root : Option (Node A)) (frees : Bool) (released : List A)
      → cbtree_destroy (record { root = root; frees = frees; released = released }) ≡ record {
        root = none;
        frees = frees;
        released = if frees then released ++ contents_of root else released;
      }
  unfolding cbtree_destroy
  destroy_root none false released = refl
  destroy_root none true released =
      ap (λ t. record { root = none; frees = true; released = t }) (sym (append-nil released))
  destroy_root (some t) frees released = rw (destroy_node_lem t) refl

  -- A destroyed tree has no objects left, and each of them was given to obj_free_cb once, if there is such a callback.
  pub cbtree_destroy_lem :
      (tree : CbTree A)
      → (contents (cbtree_destroy tree) ≡ [])
        × ((cbtree_destroy tree).released
            ≡ (if tree.frees then tree.released ++ contents tree else tree.released))
  cbtree_destroy_lem tree =
      let e = destroy_root tree.root tree.frees tree.released in
      (ap contents e, ap (λ t. t.released) e)

  -- Every tree that cbtree_create, cbtree_insert and cbtree_delete make, where the keys are bytes and at most MAX_KEY of them, is
  -- valid: the keys below a node agree before its bit, which is 0 for those on its left and 1 for those on its right.
  pub Reach-IsCbTree : {tree : CbTree A} → Reach tree → IsCbTree key tree
  Reach-IsCbTree (created frees made) = (cbtree_create_lem frees _ made).0
  Reach-IsCbTree (inserted granted tree obj ok before is_key step) =
      insertion-IsCbTree granted obj tree _ (Reach-IsCbTree before)
        (Returns-some (cbtree_insert_lem granted tree obj (Reach-IsCbTree before) is_key) step)
  Reach-IsCbTree (deleted tree k before) =
      deletion-IsCbTree k tree _ (Reach-IsCbTree before)
        (cbtree_delete_lem tree k (Reach-IsCbTree before))
