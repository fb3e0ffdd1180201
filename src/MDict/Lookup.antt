-- ===== src/MDict/Lookup.antt =====
-- usual/mdict.c: a dictionary as a map from keys to values.
use libusual_archive.Base.{
  ℕ, ◌≡◌, ◌≢◌, refl, sym, ap, ◌∙◌, subst, Option, none, some, List, inl, inr, ◌⊎◌, OneOf,
  IsSeparate, ◌>>=◌,
}
use libusual_archive.Index.{Index, IsFound}
use libusual_archive.MDict.Dict.{MDictElem, mdict_getkey, MDict, mdict_get_buf}

module _ (index : Index MDictElem mdict_getkey) where
  -- The elements stand at different addresses.
  pub record IsDict (dict : MDict index.State) : Type 0 where
    pub valid : index.IsValid dict.tree
    pub separate : IsSeparate (λ (x : MDictElem). x.address) (index.contents dict.tree)

  get_present :
      (dict : MDict index.State) (el : MDictElem) (found : Option MDictElem)
      → IsDict dict
      → OneOf el (index.contents dict.tree)
      → IsFound mdict_getkey (index.contents dict.tree) (mdict_getkey el) found
      → (found >>= λ x. some (dict.val x.address)) ≡ some (dict.val el.address)
  get_present dict el none h m absent = absurd (absent el m refl)
  get_present dict el (some x) h m (k, e) =
      let same : x ≡ el =
        index.distinct dict.tree x el h.valid k m (
          subst (λ t. index.Same t (mdict_getkey el)) (sym e)
            (index.same_refl (mdict_getkey el))) in
      ap (λ t. some (dict.val t.address)) same

  -- The value of an element that is there, and no value for a key that no element has.
  pub get_member :
      (dict : MDict index.State) (el : MDictElem)
      → IsDict dict
      → OneOf el (index.contents dict.tree)
      → mdict_get_buf index dict (mdict_getkey el) ≡ some (dict.val el.address)
  unfolding mdict_get_buf
  get_member dict el h m =
      get_present dict el (index.lookup dict.tree (mdict_getkey el)) h m
        (index.lookup_lem dict.tree (mdict_getkey el) h.valid)

  get_none :
      (dict : MDict index.State) (key : List ℕ) (found : Option MDictElem)
      → IsFound mdict_getkey (index.contents dict.tree) key found
      → ((x : MDictElem) → OneOf x (index.contents dict.tree) → mdict_getkey x ≢ key)
      → (found >>= λ x. some (dict.val x.address)) ≡ none
  get_none dict key none f absent = refl
  get_none dict key (some x) (m, e) absent = absurd (absent x m e)

  pub get_absent :
      (dict : MDict index.State) (key : List ℕ)
      → IsDict dict
      → ((x : MDictElem) → OneOf x (index.contents dict.tree) → mdict_getkey x ≢ key)
      → mdict_get_buf index dict key ≡ none
  unfolding mdict_get_buf
  get_absent dict key h absent =
      get_none dict key (index.lookup dict.tree key) (index.lookup_lem dict.tree key h.valid) absent

  -- A key is that of an element, or of none.
  pub key_cases :
      (dict : MDict index.State) (key : List ℕ)
      → IsDict dict
      → ((el : MDictElem) × OneOf el (index.contents dict.tree) × (mdict_getkey el ≡ key))
        ⊎ ((x : MDictElem) → OneOf x (index.contents dict.tree) → mdict_getkey x ≢ key)
  key_cases dict key h =
      found_cases (index.lookup dict.tree key) (index.lookup_lem dict.tree key h.valid)
    where
      found_cases :
          (found : Option MDictElem)
          → IsFound mdict_getkey (index.contents dict.tree) key found
          → ((el : MDictElem) × OneOf el (index.contents dict.tree) × (mdict_getkey el ≡ key))
            ⊎ ((x : MDictElem) → OneOf x (index.contents dict.tree) → mdict_getkey x ≢ key)
      found_cases none absent = inr absent
      found_cases (some el) (m, e) = inl (el, m, e)

  -- Two dictionaries give the same for a key if they have the same elements with it, at the same values.
  pub get_agree :
      (dict dict' : MDict index.State) (key : List ℕ)
      → IsDict dict
      → IsDict dict'
      → ((x : MDictElem)
          → OneOf x (index.contents dict.tree)
          → mdict_getkey x ≡ key
          → OneOf x (index.contents dict'.tree) × (dict'.val x.address ≡ dict.val x.address))
      → ((x : MDictElem)
          → OneOf x (index.contents dict'.tree)
          → mdict_getkey x ≡ key
          → OneOf x (index.contents dict.tree))
      → mdict_get_buf index dict' key ≡ mdict_get_buf index dict key
  get_agree dict dict' key h h' there back = elim (key_cases dict key h) [
    | inl (el, m, e) ↦
        let (m', same) = there el m e in
        subst (λ k. mdict_get_buf index dict' k ≡ mdict_get_buf index dict k) e
          (get_member dict' el h' m' ∙ ap some same ∙ sym (get_member dict el h m))
    | inr absent ↦
        get_absent dict' key h' (λ x m e. absent x (back x m e) e)
        ∙ sym (get_absent dict key h absent)
  ]
