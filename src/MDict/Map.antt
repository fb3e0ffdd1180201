-- ===== src/MDict/Map.antt =====
-- usual/mdict.c: setting the value of an element, and inserting one, as changes of a map.
use libusual_archive.Base.{
  ℕ, ◌≡◌, ◌≢◌, refl, sym, ap, ◌∙◌, subst, Bool, true, false, Option, none, some, List, inl, inr,
  ◌⊎◌, OneOf, IsInserted, OneOf-inserted, inserted-OneOf, IsSeparate-inserted, update, Returns,
  Returns-bind, Returns-map,
}
use libusual_archive.Index.{Index}
use libusual_archive.Base.{update_same, update_other}
use libusual_archive.MDict.Dict.{
  MDictElem, mdict_getkey, MDict, mdict_get_buf, insert_elem, create_elem, set_val,
}
use libusual_archive.MDict.Lookup.{IsDict, get_member, get_agree}

module _ (index : Index MDictElem mdict_getkey) where
  -- One key has another value, and all others have theirs.
  abbrev pub IsUpdated : MDict index.State → List ℕ → Option (List ℕ) → MDict index.State → Type 0
  IsUpdated dict key val dict' =
      (mdict_get_buf index dict' key ≡ some val)
      × ((k : List ℕ) → k ≢ key → mdict_get_buf index dict' k ≡ mdict_get_buf index dict k)

  -- What the allocator promises: no element of the dictionary stands at the new address.
  abbrev pub IsFresh : Option ℕ → MDict index.State → Type 0
  IsFresh place dict =
      (address : ℕ)
      → place ≡ some address
      → (x : MDictElem) → OneOf x (index.contents dict.tree)
      → x.address ≢ address

  abbrev pub HasClash : MDict index.State → List ℕ → Type 0
  HasClash dict key =
      (x : MDictElem) × OneOf x (index.contents dict.tree) × index.Same key (mdict_getkey x)

  -- An insertion: the key is updated, or there is a reason and no key is.
  abbrev pub IsPut :
      Type 0 → MDict index.State → List ℕ → Option (List ℕ) → Bool × MDict index.State → Type 0
  IsPut Reason dict key val (ok, dict') =
      IsDict index dict'
      × (((ok ≡ true) × IsUpdated dict key val dict')
          ⊎ ((ok ≡ false)
              × ((k : List ℕ) → mdict_get_buf index dict' k ≡ mdict_get_buf index dict k)
              × Reason))

  pub set_val_lem :
      (Reason : Type 0) (dict : MDict index.State) (key : List ℕ) (val : Option (List ℕ))
      (el : MDictElem)
      → IsDict index dict
      → OneOf el (index.contents dict.tree)
      → mdict_getkey el ≡ key
      → IsPut Reason dict key val (true, set_val index dict el val)
  unfolding set_val
  set_val_lem Reason dict key val el h m e =
      let dict' : MDict index.State = record dict { val = update dict.val el.address val } in
      let h' : IsDict index dict' = record { valid = h.valid; separate = h.separate } in
      let here : mdict_get_buf index dict' (mdict_getkey el) ≡ some val =
        get_member index dict' el h' m
        ∙ ap some (update_same dict.val el.address val el.address refl) in
      (
        h',
        inl (
          refl,
          (
            subst (λ k. mdict_get_buf index dict' k ≡ some val) e here,
            λ k ne.
                get_agree index dict dict' k h h'
                  (λ x n f. (
                    n,
                    update_other dict.val el.address val x.address
                        λ same. ne (sym f ∙ ap mdict_getkey (sym (h.separate el x m n same)) ∙ e),
                  ))
                  λ x n f. n,
          ),
        ),
      )

  added_lem :
      (Reason : Type 0) (dict : MDict index.State) (el : MDictElem) (val : Option (List ℕ))
      (tree : index.State)
      → IsDict index dict
      → ((x : MDictElem) → OneOf x (index.contents dict.tree) → x.address ≢ el.address)
      → IsInserted el (index.contents dict.tree) (index.contents tree)
      → index.IsValid tree
      → IsPut Reason dict
          (mdict_getkey el)
          val
          (true, record { tree = tree; val = update dict.val el.address val })
  added_lem Reason dict el val tree h fresh put v =
      let dict' : MDict index.State = record {
        tree = tree;
        val = update dict.val el.address val;
      } in
      let h' : IsDict index dict' = record {
        valid = v;
        separate =
            IsSeparate-inserted (λ x. x.address) el (index.contents dict.tree) (index.contents tree)
              h.separate fresh put;
      } in
      let here : mdict_get_buf index dict' (mdict_getkey el) ≡ some val =
        get_member index dict' el h'
          (inserted-OneOf el el (index.contents dict.tree) (index.contents tree) put (inl refl))
        ∙ ap some (update_same dict.val el.address val el.address refl) in
      (
        h',
        inl (
          refl,
          (
            here,
            λ k ne.
                get_agree index dict dict' k h h'
                  (λ x m e. (
                    inserted-OneOf el x (index.contents dict.tree) (index.contents tree) put
                        (inr m),
                    update_other dict.val el.address val x.address λ same. fresh x m (sym same),
                  ))
                  λ x m e.
                    elim (OneOf-inserted el x (index.contents dict.tree) (index.contents tree) put
                      m) [ inl f ↦ absurd (ne (sym e ∙ ap mdict_getkey (sym f))) | inr n ↦ n ],
          ),
        ),
      )

  -- The new value stands where no element is.
  unused_lem :
      (Reason : Type 0) (dict : MDict index.State) (address : ℕ) (key : List ℕ)
      (val : Option (List ℕ)) (tree : index.State)
      → IsDict index dict
      → ((x : MDictElem) → OneOf x (index.contents dict.tree) → x.address ≢ address)
      → tree ≡ dict.tree
      → Reason
      → IsPut Reason dict key val (false, record { tree = tree; val = update dict.val address val })
  unused_lem Reason dict address key val tree h fresh same reason =
      subst
        (λ t.
          IsPut Reason dict key val (false, record { tree = t; val = update dict.val address val }))
        (sym same)
        (let dict' : MDict index.State = record dict { val = update dict.val address val } in
          let h' : IsDict index dict' = record { valid = h.valid; separate = h.separate } in
          (
            h',
            inr (
              refl,
              (λ k.
                  get_agree index dict dict' k h h'
                    (λ x m e.
                      (m, update_other dict.val address val x.address λ f. fresh x m (sym f)))
                    λ x m e. m),
              reason,
            ),
          ))

  insert_elem_lem :
      (granted : Bool) (dict : MDict index.State) (address : ℕ) (key : List ℕ)
      (val : Option (List ℕ))
      → IsDict index dict
      → index.IsKey key
      → ((x : MDictElem) → OneOf x (index.contents dict.tree) → x.address ≢ address)
      → Returns
          (IsPut ((granted ≡ false) ⊎ HasClash dict key) dict key val)
          (insert_elem index granted dict address key val)
  unfolding insert_elem mdict_getkey
  insert_elem_lem granted dict address key val h k fresh =
      let el : MDictElem = record { address = address; key = key } in
      Returns-bind (index.insert_lem granted dict.tree el h.valid k) λ (ok, tree) r. elim r [
        | inl (e, none_same, put, v) ↦ rw e (
          _,
          refl,
          added_lem ((granted ≡ false) ⊎ HasClash dict key) dict el val tree h fresh put v,
        )
        | inr (e, same, reason) ↦ rw e (
          _,
          refl,
          unused_lem ((granted ≡ false) ⊎ HasClash dict key) dict address key val tree h fresh same
              reason,
        )
      ]

  -- Why a key is not put: an allocation failed, or the index has no room for it beside another one.
  abbrev pub IsScarce : Option ℕ → Bool → MDict index.State → List ℕ → Type 0
  IsScarce place node dict key = (place ≡ none) ⊎ ((node ≡ false) ⊎ HasClash dict key)

  pub weaken :
      (R S : Type 0) (dict : MDict index.State) (key : List ℕ) (val : Option (List ℕ))
      (r : Bool × MDict index.State)
      → (R → S)
      → IsPut R dict key val r
      → IsPut S dict key val r
  weaken R S dict key val (ok, dict') f (h, inl done) = (h, inl done)
  weaken R S dict key val (ok, dict') f (h, inr (e, same, reason)) = (h, inr (e, same, f reason))

  pub create_elem_lem :
      (place : Option ℕ) (node : Bool) (dict : MDict index.State) (key : List ℕ)
      (val : Option (List ℕ))
      → IsDict index dict
      → index.IsKey key
      → IsFresh place dict
      → Returns
          (IsPut (IsScarce place node dict key) dict key val)
          (create_elem index place node dict key val)
  unfolding create_elem
  create_elem_lem none node dict key val h k fresh =
      (_, refl, (h, inr (refl, (λ q. refl), inl refl)))
  create_elem_lem (some address) node dict key val h k fresh =
      Returns-map (insert_elem_lem node dict address key val h k (fresh address refl)) λ r p.
        weaken ((node ≡ false) ⊎ HasClash dict key) (IsScarce (some address) node dict key) dict key
          val r (λ q. inr q) p
