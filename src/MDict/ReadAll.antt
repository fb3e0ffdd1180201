-- ===== src/MDict/ReadAll.antt =====
-- usual/mdict.c: mdict_urldecode puts the pairs of a text one after the other.
use libusual_archive.Base.{
  ℕ, zero, suc, ◌<◌, ◌≤◌, ◌≡◌, ◌≢◌, refl, sym, ap, ◌∙◌, subst, arith, Bool, true, false, ◌||◌,
  Option, none, some, List, [], ◌∷◌, ◌++◌, inl, inr, ◌⊎◌, Bool-cases, length, length-append,
  Returns, Returns-map, OneOf, ◌==◌, ltb, ◌&&◌,
}
use libusual_archive.Index.{Index}
use libusual_archive.Mbuf.State.{MBuf}
use libusual_archive.MDict.Text.{IsAlnum}
use libusual_archive.MDict.Escape.{escape, escaped}
use libusual_archive.MDict.Pairs.{value_text, pair_text, IsAnd, pair_text-read_pair}
use libusual_archive.MDict.Dict.{
  MDictElem, mdict_getkey, MDict, skip_and, mdict_get_buf, urldecode_loop, mdict_urldecode,
}
use libusual_archive.MDict.Lookup.{IsDict, get_member, get_absent, key_cases}
use libusual_archive.MDict.Map.{IsFresh, IsUpdated}
use libusual_archive.MDict.Decoding.{skip_and-length}
use libusual_archive.MDict.WriteAll.{joined, AreTexts}
use libusual_archive.MDict.Puts.{keys_decided, none-some, generous, put_pair-clear, loop_step}

module _ (index : Index MDictElem mdict_getkey) (place : MDict index.State → ℕ) where
  module _ (isalnum : ℕ → Bool) (granted : MBuf → Bool) (val : ℕ → Option (List ℕ)) where
    abbrev pub text_of : Bool → List MDictElem → List ℕ
    text_of first els = joined index granted isalnum val first els

    joined-IsAnd : (els : List MDictElem) → IsAnd (text_of false els)
    joined-IsAnd [] = tt
    joined-IsAnd (el ∷ els) = refl

    joined-skip : (els : List MDictElem) → skip_and (text_of false els) ≡ text_of true els
    unfolding skip_and
    joined-skip [] = refl
    joined-skip (el ∷ els) = refl

    escape_some : (c : ℕ) → 0 < length (escape isalnum c)
    escape_some c = elim (Bool-cases (c == 32)) [
      | inl e ↦ rw e (omega arith)
      | inr e ↦ elim (Bool-cases ((ltb c 128 && isalnum c) || (c == 46 || c == 95))) [
        | inl f ↦ rw (e, f) (omega arith)
        | inr f ↦ rw (e, f) (omega arith)
      ]
    ]

    pair_some :
        (key : List ℕ) (v : Option (List ℕ))
        → (key ≡ [] → v ≢ none)
        → 0 < length (pair_text isalnum key v)
    pair_some [] none h = absurd (h refl refl)
    pair_some [] (some v) h = omega arith
    pair_some (c ∷ key) v h = omega (
      arith,
      escape_some c,
      length-append (escape isalnum c ++ escaped isalnum key) (value_text isalnum v),
      length-append (escape isalnum c) (escaped isalnum key),
    )

    module _ (tree : index.State) (valid : index.IsValid tree)
        (texts : AreTexts index granted isalnum val (index.contents tree))
        (keys : (el : MDictElem) → OneOf el (index.contents tree) → index.IsKey (mdict_getkey el))
        (written : (el : MDictElem)
          → OneOf el (index.contents tree)
          → el.key ≡ []
          → val el.address ≢ none)
        (signs : IsAlnum isalnum)
        (fresh : (d : MDict index.State) → IsFresh index (some (place d)) d) where
      -- All that is in the dictionary comes from the tree.
      abbrev Known : MDict index.State → Type 0
      Known d =
          (k : List ℕ)
          → mdict_get_buf index d k ≢ none
          → (el : MDictElem) × OneOf el (index.contents tree) × (mdict_getkey el ≡ k)

      same_key_same :
          (x y : MDictElem)
          → OneOf x (index.contents tree)
          → OneOf y (index.contents tree)
          → mdict_getkey x ≡ mdict_getkey y
          → x ≡ y
      same_key_same x y h g e =
          index.distinct tree x y valid h g
            (subst (index.Same (mdict_getkey x)) e (index.same_refl (mdict_getkey x)))

      clear_of_Known :
          (d : MDict index.State) (el x : MDictElem)
          → IsDict index d
          → Known d
          → OneOf el (index.contents tree)
          → OneOf x (index.contents d.tree)
          → index.Same (mdict_getkey el) (mdict_getkey x)
          → mdict_getkey x ≡ mdict_getkey el
      clear_of_Known d el x h known m n same =
          let (y, my, e) =
            known (mdict_getkey x) (λ absent. none-some (sym absent ∙ get_member index d x h n)) in
          let one : el ≡ y =
            index.distinct tree el y valid m my
              (subst (index.Same (mdict_getkey el)) (sym e) same) in
          sym e ∙ ap mdict_getkey (sym one)

      Known-update :
          (d d' : MDict index.State) (el : MDictElem)
          → Known d
          → OneOf el (index.contents tree)
          → ((k : List ℕ)
              → k ≢ mdict_getkey el
              → mdict_get_buf index d' k ≡ mdict_get_buf index d k)
          → Known d'
      Known-update d d' el known m others k there = elim (keys_decided k (mdict_getkey el)) [
        | inl e ↦ (el, m, sym e)
        | inr ne ↦ known k λ absent. there (others k ne ∙ absent)
      ]

      occurs :
          (els : List MDictElem) (k : List ℕ)
          → ((x : MDictElem) × OneOf x els × (mdict_getkey x ≡ k))
            ⊎ ((x : MDictElem) → OneOf x els → mdict_getkey x ≢ k)
      occurs [] k = inr λ x h. absurd h
      occurs (el ∷ els) k = elim (keys_decided (mdict_getkey el) k) [
        | inl e ↦ inl (el, inl refl, e)
        | inr ne ↦ elim (occurs els k) [
          | inl (x, m, e) ↦ inl (x, inr m, e)
          | inr absent ↦
              inr
                λ x h. elim h [ inl f ↦ subst (λ t. mdict_getkey t ≢ k) f ne | inr m ↦ absent x m ]
        ]
      ]

      abbrev IsFilled : MDict index.State → List MDictElem → Bool × MDict index.State → Type 0
      IsFilled d els (ok, d') =
          (ok ≡ true)
          × ((x : MDictElem)
              → OneOf x els
              → mdict_get_buf index d' (mdict_getkey x) ≡ some (val x.address))
          × ((k : List ℕ)
              → ((x : MDictElem) → OneOf x els → mdict_getkey x ≢ k)
              → mdict_get_buf index d' k ≡ mdict_get_buf index d k)

      IsFilled-update :
          (d d1 : MDict index.State) (el : MDictElem) (els : List MDictElem)
          (r : Bool × MDict index.State)
          → ((x : MDictElem) → OneOf x (el ∷ els) → OneOf x (index.contents tree))
          → IsUpdated index d (mdict_getkey el) (val el.address) d1
          → IsFilled d1 els r
          → IsFilled d (el ∷ els) r
      IsFilled-update d d1 el els (ok, d') from (new, others) (e, all, rest) = (
        e,
        (λ x m. elim m [
          | inr n ↦ all x n
          | inl f ↦
              subst (λ t. mdict_get_buf index d' (mdict_getkey t) ≡ some (val t.address)) f
                (elim (occurs els (mdict_getkey el)) [
                  | inl (y, n, g) ↦
                      subst (λ t. mdict_get_buf index d' (mdict_getkey t) ≡ some (val t.address))
                        (same_key_same y el (from y (inr n)) (from el (inl refl)) g) (all y n)
                  | inr absent ↦ rest (mdict_getkey el) absent ∙ new
                ])
        ]),
        λ k absent. rest k (λ x n. absent x (inr n)) ∙ others k λ e. absent el (inl refl) (sym e),
      )

      fill_all :
          (fuel : ℕ) (d : MDict index.State) (els : List MDictElem)
          → ((x : MDictElem) → OneOf x els → OneOf x (index.contents tree))
          → length (text_of true els) ≤ fuel
          → IsDict index d
          → Known d
          → Returns
              (IsFilled d els)
              (urldecode_loop index fuel (generous index place) d (text_of true els))
      unfolding urldecode_loop mdict_getkey
      fill_all fuel d [] from enough h known =
          (_, refl, (refl, (λ x m. absurd m), λ k absent. refl))
      fill_all zero d (el ∷ els) from enough h known = absurd (
          omega (
            arith,
            pair_some el.key (val el.address) (written el (from el (inl refl))),
            length-append (pair_text isalnum el.key (val el.address)) (text_of false els),
          ))
      fill_all (suc fuel) d (el ∷ els) from enough h known =
          let m = from el (inl refl) in
          let (bk, bv) = texts el m in
          let text = pair_text isalnum el.key (val el.address) in
          let total = length-append text (text_of false els) in
          let pos = pair_some el.key (val el.address) (written el m) in
          let read =
            pair_text-read_pair isalnum el.key (val el.address) (text_of false els) signs bk bv
              (joined-IsAnd els) in
          let shorter : length (text_of true els) ≤ length (text_of false els) =
            subst (λ t. length t ≤ length (text_of false els)) (joined-skip els)
              (skip_and-length (text_of false els)) in
          let (put, e, (h1, outcome)) =
            put_pair-clear index place d el.key (val el.address) h (keys el m) (fresh d)
              (λ x n same. clear_of_Known d el x h known m n same) in
          elim outcome [
            | inr (f, same, nothing) ↦ absurd nothing
            | inl (f, updated) ↦
                let step =
                  loop_step index place fuel d (put.1) (text ++ text_of false els) el.key
                    (skip_and (text_of false els)) (val el.address) (omega arith) read
                    (e ∙ ap (λ b. some (b, put.1)) f)
                  ∙ ap (urldecode_loop index fuel (generous index place) (put.1))
                      (joined-skip els) in
                subst (Returns (IsFilled d (el ∷ els))) (sym step) (
                  Returns-map
                    (fill_all fuel (put.1) els (λ x n. from x (inr n)) (omega arith) h1
                      (Known-update d (put.1) el known m (updated.1)))
                    λ r p. IsFilled-update d (put.1) el els r from updated p)
          ]

      -- Read into an empty dictionary: each key has the value that the text was made from, and no other key has one.
      pub fill_empty :
          (d : MDict index.State)
          → IsDict index (record { tree = tree; val = val })
          → IsDict index d
          → index.contents d.tree ≡ []
          → Returns
              (λ r.
                (r.0 ≡ true)
                × ((k : List ℕ)
                    → mdict_get_buf index (r.1) k
                      ≡ mdict_get_buf index (record { tree = tree; val = val }) k))
              (mdict_urldecode index (generous index place) d (text_of true (index.contents tree)))
      unfolding mdict_urldecode
      fill_empty d hs h empty =
          let nothing : (k : List ℕ) → mdict_get_buf index d k ≡ none =
            λ k. get_absent index d k h λ x m. absurd (subst (OneOf x) empty m) in
          let source : MDict index.State = record { tree = tree; val = val } in
          Returns-map
            (fill_all (length (text_of true (index.contents tree))) d (index.contents tree)
              (λ x m. m) (omega arith) h λ k there. absurd (there (nothing k)))
            λ r (e, all, rest). (
              e,
              λ k. elim (key_cases index source k hs) [
                | inl (el, m, f) ↦
                    subst (λ t. mdict_get_buf index (r.1) t ≡ mdict_get_buf index source t) f
                      (all el m ∙ sym (get_member index source el hs m))
                | inr absent ↦ rest k absent ∙ nothing k ∙ sym (get_absent index source k hs absent)
              ],
            )
