-- ===== src/MDict/Decoding.antt =====
-- usual/mdict.c: the loop of mdict_urldecode comes to an end, for every text.
use libusual_archive.Base.{
  ℕ, zero, suc, ◌-◌, ◌≤◌, ◌≡◌, refl, sym, subst, arith, Bool, true, false, ◌||◌, Option, none, some,
  List, [], ◌∷◌, inl, inr, Bool-cases, ◌==◌, if◌then◌else◌, ◌>>=◌, length, Returns, Returns-bind,
  Returns-map,
}
use libusual_archive.Base.Word.{AreBytes}
use libusual_archive.Index.{Index, IsFound}
use libusual_archive.MDict.{percent, plus, stop, plain, kind}
use libusual_archive.MDict.Text.{IsStop, IsDecoded, urldec_str_lem}
use libusual_archive.MDict.Dict.{
  MDictElem, mdict_getkey, MDict, Outcomes, create_elem, set_val, read_value, skip_and, read_pair,
  put_pair, urldecode_loop, mdict_urldecode,
}
use libusual_archive.MDict.Lookup.{IsDict}
use libusual_archive.MDict.Map.{IsFresh, create_elem_lem, set_val_lem}

stop_chosen :
    (a b d : Bool)
    → (if a then percent else if b then plus else if d then stop else plain) ≡ stop
    → d ≡ true
stop_chosen true b d e = absurd (ground arith)
stop_chosen false true d e = absurd (ground arith)
stop_chosen false false true e = refl
stop_chosen false false false e = absurd (ground arith)

stop_signs : (c : ℕ) → kind c ≡ stop → (c == 38 || c == 61) ≡ true
unfolding kind
stop_signs c e = stop_chosen (c == 37) (c == 43) (c == 38 || c == 61) e

-- What is left behind `&` is not longer, and bytes as before.
pub skip_and-length : (s : List ℕ) → length (skip_and s) ≤ length s
unfolding skip_and
skip_and-length [] = omega arith
skip_and-length (c ∷ s) = elim (Bool-cases (c == 38)) [
  | inl e ↦ rw e (omega arith)
  | inr e ↦ rw e (omega arith)
]

skip_and-AreBytes : (s : List ℕ) → AreBytes s → AreBytes (skip_and s)
unfolding skip_and
skip_and-AreBytes [] b = b
skip_and-AreBytes (c ∷ s) b = elim (Bool-cases (c == 38)) [
  | inl e ↦ subst (λ t. AreBytes (if t then s else c ∷ s)) (sym e) (b.1)
  | inr e ↦ subst (λ t. AreBytes (if t then s else c ∷ s)) (sym e) b
]

-- Behind the key something is consumed unless the text is at its end.
abbrev IsRest : List ℕ → Option (Option (List ℕ) × List ℕ) → Type 0
IsRest s none = Unit
IsRest s (some (v, s')) =
    (length (skip_and s') ≤ length s - 1) × (AreBytes s → AreBytes (skip_and s'))

valued :
    (c : ℕ) (s : List ℕ) (r : Option (List ℕ × List ℕ))
    → IsDecoded s r
    → IsRest (c ∷ s) (r >>= λ (v, s'). some (some v, s'))
valued c s none h = tt
valued c s (some (v, s')) (size, sum, at_stop, all) =
    (omega (arith, skip_and-length s'), λ b. skip_and-AreBytes s' ((all b.1).1))

valueless :
    (c : ℕ) (s : List ℕ) → kind c ≡ stop → (c == 61) ≡ false → IsRest (c ∷ s) (some (none, c ∷ s))
unfolding skip_and
valueless c s e f =
    subst
      (λ t.
        (length (if t then s else c ∷ s) ≤ suc (length s) - 1)
        × (AreBytes (c ∷ s) → AreBytes (if t then s else c ∷ s)))
      (sym (is_and c (stop_signs c e) f)) (omega arith, λ b. b.1)
  where
    is_and : (c : ℕ) → (c == 38 || c == 61) ≡ true → (c == 61) ≡ false → (c == 38) ≡ true
    is_and c g h = ground arith

read_value_lem :
    (granted : List ℕ → Bool) (s : List ℕ) → IsStop s → Returns (IsRest s) (read_value granted s)
unfolding read_value skip_and
read_value_lem granted [] h = (some (none, []), refl, (omega arith, λ b. b))
read_value_lem granted (c ∷ s) h = elim (Bool-cases (c == 61)) [
  | inl e ↦ rw e (
      Returns-bind (urldec_str_lem (granted s) s)
        λ r d. (r >>= λ (v, s'). some (some v, s'), refl, valued c s r d))
  | inr e ↦ rw e (some (none, c ∷ s), refl, valueless c s h e)
]

-- A pair: its key is made of bytes of the text, and what is left is shorter than a text that is not empty.
abbrev IsPair : List ℕ → Option (List ℕ × Option (List ℕ) × List ℕ) → Type 0
IsPair s none = Unit
IsPair s (some (k, v, s')) =
    (length k ≤ length s) × (length s' ≤ length s - 1) × (AreBytes s → AreBytes k × AreBytes s')

paired :
    (s k s' : List ℕ) (r : Option (Option (List ℕ) × List ℕ))
    → IsDecoded s (some (k, s'))
    → IsRest s' r
    → IsPair s (r >>= λ (v, s''). some (k, v, skip_and s''))
paired s k s' none d h = tt
paired s k s' (some (v, s'')) (size, sum, at_stop, all) (shorter, bytes) =
    (omega arith, omega arith, λ b. let (bk, bs) = all b in (bk, bytes bs))

read_pair_lem : (granted : List ℕ → Bool) (s : List ℕ) → Returns (IsPair s) (read_pair granted s)
unfolding read_pair
read_pair_lem granted s = Returns-bind (urldec_str_lem (granted s) s) key_read
  where
    key_read :
        (r : Option (List ℕ × List ℕ))
        → IsDecoded s r
        → Returns (IsPair s) (elim r as (λ _. Option (Option (List ℕ × Option (List ℕ) × List ℕ))) [
          | none ↦ some none
          | some (k, s') ↦
              read_value granted s' >>= λ r'. some (r' >>= λ (v, s''). some (k, v, skip_and s''))
        ])
    key_read none d = (none, refl, tt)
    key_read (some (k, s')) d =
        Returns-bind (read_value_lem granted s' (d.2))
          λ r h. ((r >>= λ (v, s''). some (k, v, skip_and s'')), refl, paired s k s' r d h)

module _ (index : Index MDictElem mdict_getkey) where
  put_found :
      (outcomes : Outcomes index.State) (dict : MDict index.State) (key : List ℕ)
      (val : Option (List ℕ)) (found : Option MDictElem)
      → IsDict index dict
      → index.IsKey key
      → IsFresh index (outcomes.el dict) dict
      → IsFound mdict_getkey (index.contents dict.tree) key found
      → Returns
          (λ r. IsDict index (r.1))
          (elim found as (λ _. Option (Bool × MDict index.State)) [
            | none ↦ create_elem index (outcomes.el dict) (outcomes.node dict) dict key val
            | some el ↦ some (true, set_val index dict el val)
          ])
  put_found outcomes dict key val none h k fresh absent =
      Returns-map
        (create_elem_lem index (outcomes.el dict) (outcomes.node dict) dict key val h k fresh)
        λ r p. p.0
  put_found outcomes dict key val (some el) h k fresh (m, e) =
      (_, refl, (set_val_lem index Unit dict key val el h m e).0)

  put_pair_lem :
      (outcomes : Outcomes index.State) (dict : MDict index.State) (key : List ℕ)
      (val : Option (List ℕ))
      → IsDict index dict
      → index.IsKey key
      → IsFresh index (outcomes.el dict) dict
      → Returns (λ r. IsDict index (r.1)) (put_pair index outcomes dict key val)
  unfolding put_pair
  put_pair_lem outcomes dict key val h k fresh =
      put_found outcomes dict key val (index.lookup dict.tree key) h k fresh
        (index.lookup_lem dict.tree key h.valid)

  abbrev Ends : Option (Bool × MDict index.State) → Type 0
  Ends o = Returns (λ r. IsDict index (r.1)) o

  -- The rest of the text is read if the pair is put.
  next :
      (fuel : ℕ) (outcomes : Outcomes index.State) (s : List ℕ) (ok : Bool)
      (dict : MDict index.State)
      → IsDict index dict
      → (IsDict index dict → Ends (urldecode_loop index fuel outcomes dict s))
      → Ends (elim ok as (λ _. Option (Bool × MDict index.State)) [
        | true ↦ urldecode_loop index fuel outcomes dict s
        | false ↦ some (false, dict)
      ])
  next fuel outcomes s true dict h again = again h
  next fuel outcomes s false dict h again = (_, refl, h)

  loop_lem :
      (fuel n : ℕ) (outcomes : Outcomes index.State) (dict : MDict index.State) (s : List ℕ)
      → length s ≤ fuel
      → length s ≤ n
      → AreBytes s
      → IsDict index dict
      → ((k : List ℕ) → AreBytes k → length k ≤ n → index.IsKey k)
      → ((d : MDict index.State) → IsFresh index (outcomes.el d) d)
      → Ends (urldecode_loop index fuel outcomes dict s)
  unfolding urldecode_loop
  loop_lem fuel n outcomes dict [] enough small b h keys fresh = (_, refl, h)
  loop_lem zero n outcomes dict (c ∷ s) enough small b h keys fresh = absurd (omega arith)
  loop_lem (suc fuel) n outcomes dict (c ∷ s) enough small b h keys fresh =
      Returns-bind (read_pair_lem outcomes.text (c ∷ s)) (
        pair_read λ s' dict' shorter b' h'.
          loop_lem fuel n outcomes dict' s' (omega arith) (omega arith) b' h' keys fresh)
    where
      pair_read :
          ((s' : List ℕ) (dict' : MDict index.State)
            → length s' ≤ length (c ∷ s) - 1
            → AreBytes s'
            → IsDict index dict'
            → Ends (urldecode_loop index fuel outcomes dict' s'))
          → (r : Option (List ℕ × Option (List ℕ) × List ℕ)) → IsPair (c ∷ s) r
          → Ends (elim r as (λ _. Option (Bool × MDict index.State)) [
            | none ↦ some (false, dict)
            | some (k, v, s') ↦ put_pair index outcomes dict k v >>= λ (ok, dict'). elim ok [
              | true ↦ urldecode_loop index fuel outcomes dict' s'
              | false ↦ some (false, dict')
            ]
          ])
      pair_read again none p = (_, refl, h)
      pair_read again (some (k, v, s')) (size, shorter, bytes) =
          let (bk, bs) = bytes b in
          Returns-bind (put_pair_lem outcomes dict k v h (keys k bk (omega arith)) (fresh dict))
            λ (ok, dict') h'. next fuel outcomes s' ok dict' h' (again s' dict' shorter bs)

  -- For a text of bytes whose parts the index takes as keys, and memory that no element uses: mdict_urldecode comes to an end
  -- without a store outside the memory of a key or a value and without a read of the bytes of an escape behind the end of the
  -- text, and leaves a dictionary, whether all of the text could be read or not.
  pub mdict_urldecode_lem :
      (outcomes : Outcomes index.State) (dict : MDict index.State) (str : List ℕ)
      → AreBytes str
      → IsDict index dict
      → ((k : List ℕ) → AreBytes k → length k ≤ length str → index.IsKey k)
      → ((d : MDict index.State) → IsFresh index (outcomes.el d) d)
      → Returns (λ r. IsDict index (r.1)) (mdict_urldecode index outcomes dict str)
  unfolding mdict_urldecode
  mdict_urldecode_lem outcomes dict str b h keys fresh =
      loop_lem (length str) (length str) outcomes dict str (omega arith) (omega arith) b h keys
        fresh
