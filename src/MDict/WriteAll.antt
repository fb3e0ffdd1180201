-- ===== src/MDict/WriteAll.antt =====
-- usual/mdict.c: mdict_urlencode writes the pairs of the dictionary one after the other.
use libusual_archive.Base.{
  ℕ, ◌+◌, ◌*◌, ◌^◌, ◌≤◌, ◌≡◌, refl, sym, ap, ◌∙◌, subst, arith, Bool, true, false, Option, none,
  some, List, [], ◌∷◌, ◌++◌, inl, inr, ◌>>=◌, length, length-append, Returns, OneOf,
}
use libusual_archive.Base.Word.{AreBytes}
use libusual_archive.Index.{Index, call_all}
use libusual_archive.Mbuf.State.{MBuf}
use libusual_archive.Mbuf.View.{IsValid}
use libusual_archive.Mbuf.Writing.{Appended}
use libusual_archive.MDict.Escape.{
  escaped, WroteText, Appended-nil, Appended-append, Appended-place,
}
use libusual_archive.MDict.Pairs.{
  value_text, pair_text, separator, IsValue, size, write_elem_lem, length-escaped, length-separator,
}
use libusual_archive.MDict.Dict.{
  MDictElem, mdict_getkey, UrlEncCtx, write_elem, urlenc_elem, enc_step, mdict_walk,
  mdict_urlencode,
}

call_all-step :
    {A S : Type 0} (cb_func : S → A → Bool × S) (x : A) (xs : List A) (s s' : S)
    → cb_func s x ≡ (true, s')
    → call_all cb_func (x ∷ xs) s ≡ call_all cb_func xs s'
call_all-step cb_func x xs s s' e = rw e refl

call_all-stop :
    {A S : Type 0} (cb_func : S → A → Bool × S) (x : A) (xs : List A) (s s' : S)
    → cb_func s x ≡ (false, s')
    → call_all cb_func (x ∷ xs) s ≡ (false, s')
call_all-stop cb_func x xs s s' e = rw e refl

module _ (index : Index MDictElem mdict_getkey) (granted : MBuf → Bool) (isalnum : ℕ → Bool)
    (val : ℕ → Option (List ℕ)) where
  -- The pairs of a URL, with `&` between them, and the room for them.
  abbrev pub joined : Bool → List MDictElem → List ℕ
  joined first [] = []
  joined first (el ∷ els) =
      (separator first ++ pair_text isalnum el.key (val el.address)) ++ joined false els

  abbrev pub room_for : List MDictElem → ℕ
  room_for [] = 0
  room_for (el ∷ els) = 2 + length el.key * 3 + size (val el.address) * 3 + room_for els

  abbrev pub AreTexts : List MDictElem → Type 0
  AreTexts els = (el : MDictElem) → OneOf el els → AreBytes el.key × IsValue (val el.address)

  length-value_text : (v : Option (List ℕ)) → length (value_text isalnum v) ≤ 1 + size v * 3
  length-value_text none = omega arith
  length-value_text (some v) = omega (arith, length-escaped granted isalnum v)

  length-pair :
      (first : Bool) (key : List ℕ) (v : Option (List ℕ))
      → length (separator first ++ pair_text isalnum key v) ≤ 2 + length key * 3 + size v * 3
  length-pair first key v = omega (
    arith,
    length-append (separator first) (pair_text isalnum key v),
    length-append (escaped isalnum key) (value_text isalnum v),
    length-separator granted isalnum first,
    length-escaped granted isalnum key,
    length-value_text v,
  )

  enc_step_lem :
      (ctx : UrlEncCtx) (el : MDictElem) (ok : Bool) (d : MBuf)
      → write_elem granted isalnum ctx el.key (val el.address) ≡ some (ok, d)
      → enc_step index granted isalnum (some ctx) el.key (val el.address)
        ≡ (ok, some (record { dst = d; is_first = false }))
  unfolding enc_step urlenc_elem
  enc_step_lem ctx el ok d e = rw (enc_step, e) refl

  abbrev each : Option UrlEncCtx → MDictElem → Bool × Option UrlEncCtx
  each s el = enc_step index granted isalnum s el.key (val el.address)

  -- The walk ends with a context, and has written everything or found no room.
  abbrev IsAll : MBuf → List ℕ → Bool × Option UrlEncCtx → Type 0
  IsAll dst text (ok, end) =
      (ctx : UrlEncCtx) × (end ≡ some ctx) × WroteText granted dst text (ok, ctx.dst)

  later :
      (dst d : MBuf) (text more : List ℕ) (r : Bool × Option UrlEncCtx)
      → Appended dst text d
      → IsAll d more r
      → IsAll dst (text ++ more) r
  later dst d text more (ok, end) a (ctx, e, inl (f, b)) =
      (ctx, e, inl (f, Appended-append dst d ctx.dst text more a b))
  later dst d text more (ok, end) a (ctx, e, inr (f, v, inl g)) =
      (ctx, e, inr (f, v, inl (sym a.flags ∙ g)))
  later dst d text more (ok, end) a (ctx, e, inr (f, v, inr g)) = (ctx, e, inr (f, v, inr g))

  walk_all :
      (dst : MBuf) (first : Bool) (els : List MDictElem)
      → IsValid dst
      → AreTexts els
      → dst.write_pos + room_for els ≤ 2 ^ 30
      → IsAll dst
          (joined first els)
          (call_all each els (some (record { dst = dst; is_first = first })))
  walk_all dst first [] v b room = (_, refl, inl (refl, Appended-nil dst v))
  walk_all dst first (el ∷ els) v b room =
      let (bk, bv) = b el (inl refl) in
      let text = separator first ++ pair_text isalnum el.key (val el.address) in
      let (r, e, w) =
        write_elem_lem granted isalnum dst first el.key (val el.address) v bk bv (omega arith) in
      let step = enc_step_lem (record { dst = dst; is_first = first }) el (r.0) (r.1) e in
      elim w [
        | inl (f, a) ↦
            let go : call_all each (el ∷ els) (some (record { dst = dst; is_first = first }))
                ≡ call_all each els (some (record { dst = r.1; is_first = false })) =
              call_all-step each el els _ _
                (step ∙ ap (λ t. (t, some (record { dst = r.1; is_first = false }))) f) in
            subst (IsAll dst (text ++ joined false els)) (sym go) (
              later dst (r.1) text (joined false els) _ a (
                walk_all (r.1) false els a.valid (λ x m. b x (inr m))
                  (omega (
                    arith,
                    Appended-place dst (r.1) text a,
                    length-pair first el.key (val el.address),
                  ))))
        | inr (f, v', reason) ↦
            let end : call_all each (el ∷ els) (some (record { dst = dst; is_first = first }))
                ≡ (false, some (record { dst = r.1; is_first = false })) =
              call_all-stop each el els _ _
                (step ∙ ap (λ t. (t, some (record { dst = r.1; is_first = false }))) f) in
            subst (IsAll dst (text ++ joined false els)) (sym end) (_, refl, inr (refl, v', reason))
      ]

  ended :
      (dst : MBuf) (text : List ℕ) (r : Bool × Option UrlEncCtx)
      → IsAll dst text r
      → Returns (WroteText granted dst text) (r.1 >>= λ ctx. some (r.0, ctx.dst))
  ended dst text (ok, end) (ctx, e, w) = rw e ((ok, ctx.dst), refl, w)

  pub mdict_urlencode_lem :
      (tree : index.State) (dst : MBuf)
      → index.IsValid tree
      → IsValid dst
      → AreTexts (index.contents tree)
      → dst.write_pos + room_for (index.contents tree) ≤ 2 ^ 30
      → Returns
          (WroteText granted dst (joined true (index.contents tree)))
          (mdict_urlencode index granted isalnum (record { tree = tree; val = val }) dst)
  unfolding mdict_urlencode mdict_walk
  mdict_urlencode_lem tree dst t v b room =
      let walked = index.walk_lem each tree (some (record { dst = dst; is_first = true })) t in
      ended dst (joined true (index.contents tree))
        (index.walk each tree (some (record { dst = dst; is_first = true })))
        (subst (IsAll dst (joined true (index.contents tree))) (sym walked)
          (walk_all dst true (index.contents tree) v b room))
