-- ===== src/CbTree/Insert.antt =====
-- usual/cbtree.c: insert_at puts one object at its place and keeps the shape.
use libusual_archive.Base.{
  ℕ, ◌<◌, ◌≤◌, ◌≡◌, ◌≢◌, refl, sym, ap, ◌∙◌, subst, Bool, true, false, List, [], arith, inl, inr,
  ◌⊎◌, Bool-cases, ltb,
}
use mathlib.Core.List.{append-nil}
use libusual_archive.CbTree.{Node, external, node, get_bit, raw_lookup, new_node, insert_at}
use libusual_archive.CbTree.Critical.{Agree}
use libusual_archive.Base.{IsInserted, IsInserted-left, IsInserted-right}
use libusual_archive.CbTree.Shape.{
  objects, In, IsCritBit, raw_lookup-left, raw_lookup-right, raw_lookup-In,
}

not_same : (a b : Bool) → a ≢ b → a ≡ true → b ≡ false
not_same true true h e = absurd (h refl)
not_same true false h e = refl
not_same false b h e = absurd (ground arith)

not_same_false : (a b : Bool) → a ≢ b → a ≡ false → b ≡ true
not_same_false false false h e = absurd (h refl)
not_same_false false true h e = refl
not_same_false true b h e = absurd (ground arith)

module _ {A : Type 0} (key : A → List ℕ) where
  -- What an insertion leaves.
  abbrev pub IsPlaced : A → Node A → Node A → Type 0
  IsPlaced obj t t' =
      IsCritBit key t'
      × IsInserted obj (objects t) (objects t')
      × ((x : A) → In x t' → (obj ≡ x) ⊎ In x t)

  new_node_lem :
      (c : ℕ) (obj : A) (old : Node A)
      → IsCritBit key old
      → ((x : A) → In x old → Agree (key obj) (key x) c × (get_bit c (key obj) ≢ get_bit c (key x)))
      → IsPlaced obj old (new_node key c (key obj) obj old)
  unfolding new_node
  new_node_lem c obj old v away =
      let same_as_obj : (x : A) → (obj ≡ x) ⊎ In x old → Agree (key obj) (key x) c =
        λ x h i lt. elim h [ inl e ↦ ap (λ o. get_bit i (key o)) e | inr m ↦ (away x m).0 i lt ] in
      let pairs : (x y : A)
          → (obj ≡ x) ⊎ In x old
          → (obj ≡ y) ⊎ In y old
          → Agree (key x) (key y) c =
        λ x y h g i lt. sym (same_as_obj x h i lt) ∙ same_as_obj y g i lt in
      elim (Bool-cases (get_bit c (key obj))) [
        | inl e ↦ rw e (
          (
            (λ x y h g. pairs x y (flip x old h) (flip y old g)),
            (λ x m. not_same (get_bit c (key obj)) (get_bit c (key x)) ((away x m).1) e),
            (λ x m. subst (λ o. get_bit c (key o) ≡ true) m e),
            v,
            tt,
          ),
          (objects old, [], sym (append-nil (objects old)), refl),
          λ x h. flip x old h,
        )
        | inr e ↦ rw e (
          (
            (λ x y h g. pairs x y h g),
            (λ x m. subst (λ o. get_bit c (key o) ≡ false) m e),
            (λ x m. not_same_false (get_bit c (key obj)) (get_bit c (key x)) ((away x m).1) e),
            tt,
            v,
          ),
          ([], objects old, refl, refl),
          λ x h. h,
        )
      ]
    where
      flip : (x : A) (old : Node A) → In x old ⊎ (obj ≡ x) → (obj ≡ x) ⊎ In x old
      flip x old (inl m) = inr m
      flip x old (inr e) = inl e

  -- Below the place of the new bit: all the keys agree up to it, and there they differ from the new one.
  below_place :
      (c b : ℕ) (obj : A) (l r : Node A)
      → IsCritBit key (node b l r)
      → c ≤ b
      → Agree (key obj) (key (raw_lookup key (node b l r) (key obj))) c
      → get_bit c (key obj) ≢ get_bit c (key (raw_lookup key (node b l r) (key obj)))
      → (x : A) → In x (node b l r)
      → Agree (key obj) (key x) c × (get_bit c (key obj) ≢ get_bit c (key x))
  below_place c b obj l r (agree, zeros, ones, vl, vr) le same differ x h =
      let y = raw_lookup key (node b l r) (key obj) in
      let y_in = raw_lookup-In key (node b l r) (key obj) in
      let not_here : c ≢ b = λ e. differ (
        subst (λ n. get_bit n (key obj) ≡ get_bit n (key y)) (sym e)
          (own_side b obj l r zeros ones)) in
      let lt : c < b = strict c b le not_here in
      (
        (λ i less. same i less ∙ agree y x y_in h i (omega arith)),
        λ e. differ (e ∙ agree x y h y_in c lt),
      )
    where
      strict : (c b : ℕ) → c ≤ b → c ≢ b → c < b
      strict c b le ne = ground arith

      own_side :
          (b : ℕ) (obj : A) (l r : Node A)
          → ((x : A) → In x l → get_bit b (key x) ≡ false)
          → ((x : A) → In x r → get_bit b (key x) ≡ true)
          → get_bit b (key obj) ≡ get_bit b (key (raw_lookup key (node b l r) (key obj)))
      own_side b obj l r zeros ones = elim (Bool-cases (get_bit b (key obj))) [
        | inl e ↦
            e
            ∙ sym (
                ap (λ o. get_bit b (key o)) (raw_lookup-right key b l r (key obj) e)
                ∙ ones _ (raw_lookup-In key r (key obj)))
        | inr e ↦
            e
            ∙ sym (
                ap (λ o. get_bit b (key o)) (raw_lookup-left key b l r (key obj) e)
                ∙ zeros _ (raw_lookup-In key l (key obj)))
      ]

  -- Agreement of all pairs, from that with one object.
  all_pairs :
      (b : ℕ) (obj : A) (t t' : Node A)
      → ((x : A) → In x t → Agree (key obj) (key x) b)
      → ((x : A) → In x t' → (obj ≡ x) ⊎ In x t)
      → (x y : A) → In x t'
      → In y t'
      → Agree (key x) (key y) b
  all_pairs b obj t t' with_obj members x y h g i lt =
      let one : (z : A) → In z t' → get_bit i (key obj) ≡ get_bit i (key z) = λ z k.
        elim (members z k) [ inl e ↦ ap (λ o. get_bit i (key o)) e | inr m ↦ with_obj z m i lt ] in
      sym (one x h) ∙ one y g

  one_side :
      (b : ℕ) (side : Bool) (obj : A) (t t' : Node A)
      → get_bit b (key obj) ≡ side
      → ((x : A) → In x t → get_bit b (key x) ≡ side)
      → ((x : A) → In x t' → (obj ≡ x) ⊎ In x t)
      → (x : A) → In x t'
      → get_bit b (key x) ≡ side
  one_side b side obj t t' e h members x m = elim (members x m) [
    | inl f ↦ subst (λ o. get_bit b (key o) ≡ side) f e
    | inr k ↦ h x k
  ]

  -- With the first bit in which the new key differs from the one that is reached: insert_at keeps the shape and adds the object.
  pub insert_at_lem :
      (c : ℕ) (obj : A) (t : Node A)
      → IsCritBit key t
      → Agree (key obj) (key (raw_lookup key t (key obj))) c
      → get_bit c (key obj) ≢ get_bit c (key (raw_lookup key t (key obj)))
      → IsPlaced obj t (insert_at key c (key obj) obj t)
  unfolding insert_at raw_lookup
  insert_at_lem c obj (external old) v same differ = new_node_lem c obj (external old) tt λ x e. (
    subst (λ o. Agree (key obj) (key o) c) e same,
    λ f. differ (f ∙ ap (λ o. get_bit c (key o)) (sym e)),
  )
  insert_at_lem c obj (node b l r) v same differ = elim (Bool-cases (ltb b c)) [
    | inr e ↦
        rw e
          (new_node_lem c obj (node b l r) v (below_place c b obj l r v (ground arith) same differ))
    | inl e ↦
        let (agree, zeros, ones, vl, vr) = v in
        let y_in = raw_lookup-In key (node b l r) (key obj) in
        let with_obj : (x : A) → In x (node b l r) → Agree (key obj) (key x) b = λ x h i lt.
          same i (ground arith) ∙ agree (raw_lookup key (node b l r) (key obj)) x y_in h i lt in
        elim (Bool-cases (get_bit b (key obj))) [
          | inl f ↦
              let reached = raw_lookup-right key b l r (key obj) f in
              let (v', added, members) =
                insert_at_lem c obj r vr (subst (λ o. Agree (key obj) (key o) c) reached same)
                  (subst (λ o. get_bit c (key obj) ≢ get_bit c (key o)) reached differ) in
              let members' : (x : A)
                  → In x l ⊎ In x (insert_at key c (key obj) obj r)
                  → (obj ≡ x) ⊎ In x (node b l r) =
                λ x h. elim h [
                  | inl m ↦ inr (inl m)
                  | inr m ↦ elim (members x m) [ inl g ↦ inl g | inr k ↦ inr (inr k) ]
                ] in
              rw (e, f)
                (
                  (
                    all_pairs b obj (node b l r) (node b l (insert_at key c (key obj) obj r))
                        with_obj members',
                    zeros,
                    one_side b true obj r (insert_at key c (key obj) obj r) f ones members,
                    vl,
                    v',
                  ),
                  IsInserted-right obj (objects r) (objects (insert_at key c (key obj) obj r))
                      (objects l) added,
                  members',
                )
          | inr f ↦
              let reached = raw_lookup-left key b l r (key obj) f in
              let (v', added, members) =
                insert_at_lem c obj l vl (subst (λ o. Agree (key obj) (key o) c) reached same)
                  (subst (λ o. get_bit c (key obj) ≢ get_bit c (key o)) reached differ) in
              let members' : (x : A)
                  → In x (insert_at key c (key obj) obj l) ⊎ In x r
                  → (obj ≡ x) ⊎ In x (node b l r) =
                λ x h. elim h [
                  | inl m ↦ elim (members x m) [ inl g ↦ inl g | inr k ↦ inr (inl k) ]
                  | inr m ↦ inr (inr m)
                ] in
              rw (e, f)
                (
                  (
                    all_pairs b obj (node b l r) (node b (insert_at key c (key obj) obj l) r)
                        with_obj members',
                    one_side b false obj l (insert_at key c (key obj) obj l) f zeros members,
                    ones,
                    v',
                    vr,
                  ),
                  IsInserted-left obj (objects l) (objects (insert_at key c (key obj) obj l))
                      (objects r) added,
                  members',
                )
        ]
  ]
