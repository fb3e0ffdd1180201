-- ===== src/MDict/Removal.antt =====
-- usual/mdict.c: mdict_del_key takes one key out of the map.
use libusual_archive.Base.{
  ℕ, ◌≡◌, ◌≢◌, refl, sym, ap, ◌∙◌, subst, arith, Bool, true, false, none, some, List, inl, inr, ◌⊎◌,
  OneOf, IsInserted, OneOf-inserted, inserted-OneOf,
}
use libusual_archive.Index.{Index}
use libusual_archive.MDict.Dict.{MDictElem, mdict_getkey, MDict, mdict_get_buf, mdict_del_key}
use libusual_archive.MDict.Lookup.{IsDict, get_member, get_absent, get_agree}

module _ (index : Index MDictElem mdict_getkey) where
  -- What a deletion does to the map.
  abbrev pub IsRemoved : MDict index.State → List ℕ → Bool × MDict index.State → Type 0
  IsRemoved dict key (ok, dict') =
      IsDict index dict'
      × (mdict_get_buf index dict' key ≡ none)
      × ((k : List ℕ) → k ≢ key → mdict_get_buf index dict' k ≡ mdict_get_buf index dict k)
      × (((ok ≡ true) × (mdict_get_buf index dict key ≢ none))
          ⊎ ((ok ≡ false) × (mdict_get_buf index dict key ≡ none)))

  taken_lem :
      (dict : MDict index.State) (key : List ℕ) (el : MDictElem) (tree : index.State)
      → IsDict index dict
      → mdict_getkey el ≡ key
      → IsInserted el (index.contents tree) (index.contents dict.tree)
      → ((x : MDictElem) → OneOf x (index.contents tree) → index.Same (mdict_getkey x) key → ⊥)
      → index.IsValid tree
      → IsRemoved dict key (true, record dict { tree = tree })
  taken_lem dict key el tree h e taken gone v =
      let dict' : MDict index.State = record dict { tree = tree } in
      let still : (x : MDictElem)
          → OneOf x (index.contents tree)
          → OneOf x (index.contents dict.tree) =
        λ x m. inserted-OneOf el x (index.contents tree) (index.contents dict.tree) taken (inr m) in
      let m : OneOf el (index.contents dict.tree) =
        inserted-OneOf el el (index.contents tree) (index.contents dict.tree) taken (inl refl) in
      let h' : IsDict index dict' = record {
        valid = v;
        separate = λ x y k l f. h.separate x y (still x k) (still y l) f;
      } in
      let had : mdict_get_buf index dict key ≡ some (dict.val el.address) =
        subst (λ k. mdict_get_buf index dict k ≡ some (dict.val el.address)) e
          (get_member index dict el h m) in
      (
        h',
        get_absent index dict' key h'
            (λ x k f. gone x k (subst (λ t. index.Same t key) (sym f) (index.same_refl key))),
        (λ k ne.
            get_agree index dict dict' k h h'
              (λ x n f. (
                elim (OneOf-inserted el x (index.contents tree) (index.contents dict.tree) taken
                    n) [ inl g ↦ absurd (ne (sym f ∙ ap mdict_getkey (sym g) ∙ e)) | inr l ↦ l ],
                refl,
              ))
              λ x n f. still x n),
        inl (refl, λ absent. none_some (sym absent ∙ had)),
      )
    where
      none_some : {A : Type 0} {a : A} → none ≡ some a → ⊥
      none_some f = ground arith

  -- mdict_del_key leaves a dictionary in which the key has no value and every other key has what it had. It gives true exactly if
  -- the key was there.
  pub mdict_del_key_lem :
      (dict : MDict index.State) (key : List ℕ)
      → IsDict index dict
      → IsRemoved dict key (mdict_del_key index dict key)
  unfolding mdict_del_key
  mdict_del_key_lem dict key h = elim (index.delete_lem dict.tree key h.valid) [
    | inl (e, (el, f, taken, gone, v)) ↦
        rw e (taken_lem dict key el ((index.delete dict.tree key).1) h f taken gone v)
    | inr (e, same, absent) ↦
        let nothing = get_absent index dict key h absent in
        rw (e, same) (h, nothing, (λ k ne. refl), inr (refl, nothing))
  ]
