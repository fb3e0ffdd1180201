-- ===== src/StrPool/Runs.antt =====
-- usual/strpool.c: sequences of calls, with the references that the callers hold.
use libusual_archive.Base.{
  ℕ, ◌<◌, ◌≡◌, ◌↔◌, refl, sym, ap, ◌∙◌, subst, Bool, true, false, Option, none, some, List, [], ◌∷◌,
  arith, inl, OneOf, IsInserted, length, take, Returns-some, ◌>>=◌,
}
use mathlib.Core.Option.{some-injective}
use libusual_archive.Index.{Index}
use libusual_archive.StrPool.{
  PStr, get_key, StrPool, int_max, length_of, strpool_create, strpool_get, strpool_incref,
  strpool_decref, strpool_total,
}
use libusual_archive.StrPool.Pool.{IsPool, IsFresh, incref-IsPool, strpool_incref_lem}
use libusual_archive.StrPool.Get.{IsGot, strpool_get_lem}
use libusual_archive.StrPool.Decref.{strpool_decref_lem}

module _ (index : Index PStr get_key) where
  -- A call of strpool_get that can be made: the text can be read with the byte behind it and is a key for the index, the new
  -- memory is not that of a string, and the two counters have room.
  pub record IsCall (place : Option ℕ) (sp : StrPool index.State) (refs : List PStr) (str : List ℕ)
      (len : Option ℕ) : Type 0 where
    pub n : ℕ
    pub is_length : length_of len str ≡ some n
    pub room : n < length str
    pub is_key : index.IsKey (take n str)
    pub fresh : (address : ℕ) → place ≡ some address → IsFresh index sp address
    pub few : length refs < int_max
    pub strings : sp.count < int_max

  -- `Holds sp refs`: calls have led to the pool `sp`, and `refs` are the references that are not given back. A reference can be
  -- copied and given back only by who holds it.
  pub data Holds : StrPool index.State → List PStr → Type 0 where
    created :
        (refcnt : ℕ → ℕ) {sp : StrPool index.State}
        → (made : strpool_create index true true refcnt ≡ some sp) → Holds sp []
    got :
        (place : Option ℕ) (granted : Bool) (sp : StrPool index.State) (str : List ℕ)
        (len : Option ℕ) {s : PStr} {sp' : StrPool index.State} {refs : List PStr}
        → (before : Holds sp refs) → (call : IsCall place sp refs str len)
        → (step : strpool_get index place granted sp str len ≡ some (some s, sp'))
        → Holds sp' (s ∷ refs)
    refused :
        (place : Option ℕ) (granted : Bool) (sp : StrPool index.State) (str : List ℕ)
        (len : Option ℕ) {sp' : StrPool index.State} {refs : List PStr}
        → (before : Holds sp refs) → (call : IsCall place sp refs str len)
        → (step : strpool_get index place granted sp str len ≡ some (none, sp')) → Holds sp' refs
    copied :
        (sp : StrPool index.State) {s : PStr} {sp' : StrPool index.State} {refs : List PStr}
        → (before : Holds sp refs) → (one : OneOf s refs) → (few : length refs < int_max)
        → (step : strpool_incref index (some s) sp ≡ some sp') → Holds sp' (s ∷ refs)
    given_back :
        (sp : StrPool index.State) (s : PStr) (more : List PStr) {sp' : StrPool index.State}
        {refs : List PStr}
        → (before : Holds sp more) → (one : IsInserted s refs more)
        → (step : strpool_decref index (some s) sp ≡ some sp') → Holds sp' refs

  empty-IsPool :
      (refcnt : ℕ → ℕ) (tree : index.State) (sp : StrPool index.State)
      → index.create false true ≡ some tree
      → record { tree = tree; count = 0; refcnt = refcnt } ≡ sp
      → IsPool index sp []
  empty-IsPool refcnt tree sp made e =
      let (v, empty) = index.create_lem false tree made in
      let nothing : (x : PStr) → OneOf x (index.contents tree) → ⊥ =
        λ x h. subst (OneOf x) empty h in
      subst (λ t. IsPool index t []) e
        (record {
          valid = v;
          counted = sym (ap length empty);
          separate = λ x y h. absurd (nothing x h);
          exact = λ x h. absurd (nothing x h);
          used = λ x h. absurd (nothing x h);
          inside = λ x h. absurd h;
          representable = omega arith;
        })

  created-IsPool :
      (refcnt : ℕ → ℕ) (sp : StrPool index.State) (o : Option index.State)
      → index.create false true ≡ o
      → (o >>= λ tree. some (record { tree = tree; count = 0; refcnt = refcnt })) ≡ some sp
      → IsPool index sp []
  created-IsPool refcnt sp none e made = absurd (none_some made)
    where
      none_some : {A : Type 0} {a : A} → none ≡ some a → ⊥
      none_some h = ground arith
  created-IsPool refcnt sp (some tree) e made =
      empty-IsPool refcnt tree sp e (some-injective _ sp made)

  make-IsPool :
      (refcnt : ℕ → ℕ) (sp : StrPool index.State)
      → strpool_create index true true refcnt ≡ some sp
      → IsPool index sp []
  unfolding strpool_create
  make-IsPool refcnt sp made = created-IsPool refcnt sp (index.create false true) refl made

  got_lem :
      (place : Option ℕ) (granted : Bool) (sp : StrPool index.State) (str : List ℕ) (len : Option ℕ)
      (refs : List PStr) (r : Option PStr × StrPool index.State)
      → IsPool index sp refs
      → (call : IsCall place sp refs str len) → strpool_get index place granted sp str len ≡ some r
      → IsGot index place granted sp refs (take call.n str) r
  got_lem place granted sp str len refs r h call step =
      Returns-some
        (strpool_get_lem index place granted sp refs str len call.n h call.is_length call.room
          call.is_key call.fresh call.few call.strings)
        step

  -- After any calls in which each text can be read with the byte behind it and is a key for the index, new memory is not that of
  -- a string of the pool, only references that are held are copied and given back, and before each call of strpool_get and
  -- strpool_incref fewer than 2^31 - 1 references are held, and before strpool_get the pool has fewer than 2^31 - 1 strings:
  -- the strings of the pool stand at different addresses, strpool_total is their number, every reference that is held is to one
  -- of them, and the counter of each string is the number of references held to it, which is not 0.
  pub Holds-IsPool :
      {sp : StrPool index.State} {refs : List PStr} → Holds sp refs → IsPool index sp refs
  Holds-IsPool (created refcnt made) = make-IsPool refcnt _ made
  Holds-IsPool (got place granted sp str len before call step) =
      (got_lem place granted sp str len _ _ (Holds-IsPool before) call step).0
  Holds-IsPool (refused place granted sp str len before call step) =
      (got_lem place granted sp str len _ _ (Holds-IsPool before) call step).0
  Holds-IsPool (copied sp {s} {sp'} {refs} before one few step) =
      let h = Holds-IsPool before in
      let m = h.inside _ one in
      subst (λ t. IsPool index t (s ∷ refs))
        (some-injective _ sp' (sym (strpool_incref_lem index sp refs s h m few) ∙ step))
        (incref-IsPool index sp refs s h m few)
  Holds-IsPool (given_back sp s more before one step) =
      Returns-some (strpool_decref_lem index sp s _ more (Holds-IsPool before) one) step

  -- After any calls: two references that are held have the same text exactly if they are the same pointer. The calls are those
  -- with texts that can be read with the byte behind them and are keys for the index, with new memory that is not that of a
  -- string of the pool, and with references that are held; before each call of strpool_get and strpool_incref fewer than
  -- 2^31 - 1 references are held, and before strpool_get the pool has fewer than 2^31 - 1 strings.
  pub Holds-interned :
      {sp : StrPool index.State} {refs : List PStr} (s t : PStr)
      → Holds sp refs
      → OneOf s refs
      → OneOf t refs
      → (get_key s ≡ get_key t) ↔ (s.address ≡ t.address)
  Holds-interned {sp} s t run hs ht =
      let h = Holds-IsPool run in
      (
        (λ e.
            ap (λ x. x.address)
              (index.distinct sp.tree s t h.valid (h.inside s hs) (h.inside t ht)
                (subst (index.Same (get_key s)) e (index.same_refl (get_key s))))),
        λ e. ap get_key (h.separate s t (h.inside s hs) (h.inside t ht) e),
      )

  no_strings : (xs : List PStr) → ((x : PStr) → OneOf x xs → ⊥) → length xs ≡ 0
  no_strings [] h = refl
  no_strings (x ∷ xs) h = absurd (h x (inl refl))

  -- Once every reference is given back, no string is left in the pool.
  pub Holds-total : {sp : StrPool index.State} → Holds sp [] → strpool_total index sp ≡ 0
  unfolding strpool_total
  Holds-total {sp} run =
      let h = Holds-IsPool run in
      h.counted ∙ no_strings (index.contents sp.tree) λ x m. absurd (omega (arith, h.used x m))
