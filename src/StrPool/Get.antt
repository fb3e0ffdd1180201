-- ===== src/StrPool/Get.antt =====
-- usual/strpool.c: strpool_get gives a reference to the one string with these bytes.
use libusual_archive.Base.{
  ℕ, zero, suc, ◌+◌, ◌<◌, ◌≤◌, ◌≡◌, refl, sym, ap, ◌∙◌, subst, Bool, true, false, Option, none,
  some, List, [], ◌∷◌, arith, inl, inr, ◌⊎◌, OneOf, length, take, update, leb, Returns,
  Returns-bind,
}
use libusual_archive.Index.{Index, IsFound}
use libusual_archive.StrPool.{
  PStr, get_key, StrPool, load_bytes, length_of, int_max, insert_str, create_str, get_str,
  strpool_get,
}
use libusual_archive.StrPool.Pool.{
  IsPool, IsFresh, int_inc_lem, incref-IsPool, strpool_incref_lem, insert-IsPool,
}
use libusual_archive.Base.{update_other}

load_bytes_lem : (str : List ℕ) (n : ℕ) → n ≤ length str → load_bytes str n ≡ some (take n str)
unfolding load_bytes
load_bytes_lem str n h = let ok : leb n (length str) ≡ true = ground arith in rw ok refl

-- The byte behind the string is not part of its key.
take-take : (n m : ℕ) (str : List ℕ) → n ≤ m → take n (take m str) ≡ take n str
take-take zero m str h = refl
take-take (suc n) zero str h = absurd (omega arith)
take-take (suc n) (suc m) [] h = refl
take-take (suc n) (suc m) (x ∷ str) h = ap (λ t. x ∷ t) (take-take n m str (omega arith))

module _ (index : Index PStr get_key) where
  -- Why there can be no string: an allocation failed, or the index has no room beside another key.
  abbrev pub IsRefused : Option ℕ → Bool → StrPool index.State → List ℕ → Type 0
  IsRefused place granted sp key =
      (place ≡ none)
      ⊎ ((granted ≡ false)
          ⊎ ((x : PStr) × OneOf x (index.contents sp.tree) × index.Same key (get_key x)))

  abbrev pub IsGot :
      Option ℕ
      → Bool
      → StrPool index.State
      → List PStr
      → List ℕ
      → Option PStr × StrPool index.State
      → Type 0
  IsGot place granted sp refs key (some s, sp') = IsPool index sp' (s ∷ refs) × (get_key s ≡ key)
  IsGot place granted sp refs key (none, sp') =
      IsPool index sp' refs
      × (sp'.tree ≡ sp.tree)
      × (sp'.count ≡ sp.count)
      × IsRefused place granted sp key

  refused-IsPool :
      (sp : StrPool index.State) (refs : List PStr) (address : ℕ) (tree : index.State)
      → IsPool index sp refs
      → IsFresh index sp address
      → tree ≡ sp.tree
      → IsPool index
          (record { tree = tree; count = sp.count; refcnt = update sp.refcnt address 1 })
          refs
  refused-IsPool sp refs address tree h fresh e =
      subst
        (λ t.
          IsPool index (record { tree = t; count = sp.count; refcnt = update sp.refcnt address 1 })
            refs)
        (sym e)
        (record {
          valid = h.valid;
          counted = h.counted;
          separate = h.separate;
          exact = λ x k.
              update_other sp.refcnt address 1 x.address (λ f. fresh x k (sym f)) ∙ h.exact x k;
          used = h.used;
          inside = h.inside;
          representable = h.representable;
        })

  insert_str_lem :
      (granted : Bool) (sp : StrPool index.State) (refs : List PStr) (s : PStr)
      → IsPool index sp refs
      → index.IsKey (get_key s)
      → IsFresh index sp s.address
      → length refs < int_max
      → sp.count < int_max
      → Returns (IsGot (some s.address) granted sp refs (get_key s)) (insert_str index granted sp s)
  unfolding insert_str
  insert_str_lem granted sp refs s h k fresh few strings =
      Returns-bind (index.insert_lem granted sp.tree s h.valid k) λ (ok, tree) r. elim r [
        | inl (e, none_same, put, v) ↦
            rw (e, int_inc_lem sp.count strings)
              (_, refl, (insert-IsPool index sp refs s tree h fresh put v few, refl))
        | inr (e, same, reason) ↦
            rw e (
              _,
              refl,
              (refused-IsPool sp refs s.address tree h fresh same, same, refl, inr reason),
            )
      ]

  create_str_lem :
      (place : Option ℕ) (granted : Bool) (sp : StrPool index.State) (refs : List PStr)
      (str : List ℕ) (n : ℕ)
      → IsPool index sp refs
      → n < length str
      → index.IsKey (take n str)
      → ((address : ℕ) → place ≡ some address → IsFresh index sp address)
      → length refs < int_max
      → sp.count < int_max
      → Returns (IsGot place granted sp refs (take n str)) (create_str index place granted sp str n)
  unfolding create_str get_key
  create_str_lem none granted sp refs str n h room k fresh few strings =
      (_, refl, (h, refl, refl, inl refl))
  create_str_lem (some address) granted sp refs str n h room k fresh few strings =
      let s : PStr = record { address = address; len = n; str = take (n + 1) str } in
      let key : take n str ≡ get_key s = key_of address str n in
      rw (load_bytes_lem str (n + 1) (omega arith)) (
        subst
          (λ t. Returns (IsGot (some address) granted sp refs t) (insert_str index granted sp s))
          (sym key)
          (insert_str_lem granted sp refs s h (subst index.IsKey key k) (fresh address refl) few
            strings))
    where
      key_of :
          (address : ℕ) (str : List ℕ) (n : ℕ)
          → take n str ≡ get_key (record { address = address; len = n; str = take (n + 1) str })
      key_of address str n = sym (take-take n (n + 1) str (omega arith))

  get_str_lem :
      (place : Option ℕ) (granted : Bool) (sp : StrPool index.State) (refs : List PStr)
      (str : List ℕ) (n : ℕ) (known : Option PStr)
      → IsPool index sp refs
      → n < length str
      → index.IsKey (take n str)
      → ((address : ℕ) → place ≡ some address → IsFresh index sp address)
      → length refs < int_max
      → sp.count < int_max
      → IsFound get_key (index.contents sp.tree) (take n str) known
      → Returns
          (IsGot place granted sp refs (take n str))
          (get_str index place granted sp str n known)
  unfolding get_str
  get_str_lem place granted sp refs str n none h room k fresh few strings absent =
      create_str_lem place granted sp refs str n h room k fresh few strings
  get_str_lem place granted sp refs str n (some s) h room k fresh few strings (m, e) =
      rw (strpool_incref_lem index sp refs s h m few)
        (_, refl, (incref-IsPool index sp refs s h m few, e))

  pub strpool_get_lem :
      (place : Option ℕ) (granted : Bool) (sp : StrPool index.State) (refs : List PStr)
      (str : List ℕ) (len : Option ℕ) (n : ℕ)
      → IsPool index sp refs
      → length_of len str ≡ some n
      → n < length str
      → index.IsKey (take n str)
      → ((address : ℕ) → place ≡ some address → IsFresh index sp address)
      → length refs < int_max
      → sp.count < int_max
      → Returns
          (IsGot place granted sp refs (take n str))
          (strpool_get index place granted sp str len)
  unfolding strpool_get
  strpool_get_lem place granted sp refs str len n h e room k fresh few strings =
      rw (e, load_bytes_lem str n (omega arith))
        (get_str_lem place granted sp refs str n (index.lookup sp.tree (take n str)) h room k fresh
          few strings (index.lookup_lem sp.tree (take n str) h.valid))
