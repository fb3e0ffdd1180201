-- ===== src/MDict/Puts.antt =====
-- usual/mdict.c: a pair that mdict_urldecode puts where nothing is in the way.
use libusual_archive.Base.{
  ℕ, suc, ◌<◌, ◌≡◌, ◌≢◌, refl, sym, ◌∙◌, arith, Bool, true, Option, none, some, List, [], ◌∷◌, inl,
  inr, ◌⊎◌, Bool-cases, length, Returns, Returns-map, OneOf,
}
use libusual_archive.Index.{Index, IsFound}
use libusual_archive.CbTree.{same_key_bytes}
use libusual_archive.CbTree.Byte.{same_key_bytes_lem, false_not_true}
use libusual_archive.MDict.Dict.{
  MDictElem, mdict_getkey, MDict, Outcomes, read_pair, create_elem, set_val, put_pair,
  urldecode_loop,
}
use libusual_archive.MDict.Lookup.{IsDict}
use libusual_archive.MDict.Map.{IsFresh, IsPut, IsScarce, weaken, create_elem_lem, set_val_lem}

pub keys_decided : (a b : List ℕ) → (a ≡ b) ⊎ (a ≢ b)
keys_decided a b = elim (Bool-cases (same_key_bytes a b)) [
  | inl e ↦ inl ((same_key_bytes_lem a b).0 e)
  | inr e ↦ inr λ f. false_not_true (sym e ∙ (same_key_bytes_lem a b).1 f)
]

pub none-some : {A : Type 0} {a : A} → none ≡ some a → ⊥
none-some f = ground arith

module _ (index : Index MDictElem mdict_getkey) (place : MDict index.State → ℕ) where
  -- Every allocation succeeds, those of elements at `place`.
  abbrev pub generous : Outcomes index.State
  generous = record { text = λ s. true; el = λ d. some (place d); node = λ d. true }

  IsPut-found :
      (dict : MDict index.State) (key : List ℕ) (val : Option (List ℕ)) (found : Option MDictElem)
      → IsDict index dict
      → index.IsKey key
      → IsFresh index (some (place dict)) dict
      → ((x : MDictElem)
          → OneOf x (index.contents dict.tree)
          → index.Same key (mdict_getkey x)
          → mdict_getkey x ≡ key)
      → IsFound mdict_getkey (index.contents dict.tree) key found
      → Returns
          (IsPut index ⊥ dict key val)
          (elim found as (λ _. Option (Bool × MDict index.State)) [
            | none ↦ create_elem index (some (place dict)) true dict key val
            | some el ↦ some (true, set_val index dict el val)
          ])
  IsPut-found dict key val (some el) h k fresh clear (m, e) =
      (_, refl, set_val_lem index ⊥ dict key val el h m e)
  IsPut-found dict key val none h k fresh clear absent =
      Returns-map (create_elem_lem index (some (place dict)) true dict key val h k fresh) λ r p.
        weaken index (IsScarce index (some (place dict)) true dict key) ⊥ dict key val r
          (λ reason. elim reason [
            | inl e ↦ none-some (sym e)
            | inr (inl e) ↦ false_not_true (sym e)
            | inr (inr (x, m, same)) ↦ absent x m (clear x m same)
          ])
          p

  pub put_pair-clear :
      (dict : MDict index.State) (key : List ℕ) (val : Option (List ℕ))
      → IsDict index dict
      → index.IsKey key
      → IsFresh index (some (place dict)) dict
      → ((x : MDictElem)
          → OneOf x (index.contents dict.tree)
          → index.Same key (mdict_getkey x)
          → mdict_getkey x ≡ key)
      → Returns (IsPut index ⊥ dict key val) (put_pair index generous dict key val)
  unfolding put_pair
  put_pair-clear dict key val h k fresh clear =
      IsPut-found dict key val (index.lookup dict.tree key) h k fresh clear
        (index.lookup_lem dict.tree key h.valid)

  pub loop_step :
      (fuel : ℕ) (dict d : MDict index.State) (text k s : List ℕ) (v : Option (List ℕ))
      → 0 < length text
      → read_pair (λ t. true) text ≡ some (some (k, v, s))
      → put_pair index generous dict k v ≡ some (true, d)
      → urldecode_loop index (suc fuel) generous dict text ≡ urldecode_loop index fuel generous d s
  unfolding urldecode_loop
  loop_step fuel dict d [] k s v pos e f = absurd (omega arith)
  loop_step fuel dict d (c ∷ text) k s v pos e f = rw (urldecode_loop, e, f) refl
