-- ===== src/StrPool/Pool.antt =====
-- usual/strpool.c: what holds of a pool and the references to its strings between the calls.
use libusual_archive.Base.{
  ℕ, ◌+◌, ◌<◌, ◌≤◌, ◌≡◌, ◌≢◌, refl, sym, ap, ◌∙◌, subst, some, List, ◌∷◌, arith, inl, inr, ◌⊎◌,
  Bool-cases, ◌==◌, ltb, true, ==_iff, ==_false, OneOf, IsInserted, OneOf-inserted, inserted-OneOf,
  length, update,
}
use libusual_archive.Base.{update_same, update_other, IsSeparate, IsSeparate-inserted}
use libusual_archive.Index.{Index}
use libusual_archive.StrPool.{PStr, get_key, StrPool, int_max, int_inc, strpool_incref}
use libusual_archive.StrPool.Held.{
  held, held_one, held_other, held_none, held-length, length-inserted,
}

-- The same address, or not.
pub address_cases : (i j : ℕ) → (i ≡ j) ⊎ (i ≢ j)
address_cases i j = elim (Bool-cases (i == j)) [
  | inl e ↦ inl ((==_iff i j).0 e)
  | inr e ↦ inr (==_false i j e)
]

pub int_inc_lem : (n : ℕ) → n < int_max → int_inc n ≡ some (n + 1)
unfolding int_inc
int_inc_lem n h = let small : ltb n int_max ≡ true = ground arith in rw small refl

module _ (index : Index PStr get_key) where
  -- The strings of the pool stand at different addresses, `count` is their number, each reference is to one of them, and the
  -- counter of each is the number of references to it, which is not 0. There are no more references than an int can count.
  pub record IsPool (sp : StrPool index.State) (refs : List PStr) : Type 0 where
    pub valid : index.IsValid sp.tree
    pub counted : sp.count ≡ length (index.contents sp.tree)
    pub separate : IsSeparate (λ (x : PStr). x.address) (index.contents sp.tree)
    pub exact :
        (x : PStr) → OneOf x (index.contents sp.tree) → sp.refcnt x.address ≡ held x.address refs
    pub used : (x : PStr) → OneOf x (index.contents sp.tree) → 0 < held x.address refs
    pub inside : (x : PStr) → OneOf x refs → OneOf x (index.contents sp.tree)
    pub representable : length refs ≤ int_max

  -- What the allocator promises: no string of the pool stands at the new address.
  abbrev pub IsFresh : StrPool index.State → ℕ → Type 0
  IsFresh sp address = (x : PStr) → OneOf x (index.contents sp.tree) → x.address ≢ address

  more_held :
      (s : PStr) (address : ℕ) (refs : List PStr)
      → 0 < held address refs
      → 0 < held address (s ∷ refs)
  more_held s address refs h = elim (address_cases s.address address) [
    | inl e ↦ subst (λ a. 0 < held a (s ∷ refs)) e (omega (arith, held_one s refs))
    | inr ne ↦ omega (arith, h, held_other s address refs ne)
  ]

  -- A reference to a string of the pool, and its counter goes up.
  pub incref-IsPool :
      (sp : StrPool index.State) (refs : List PStr) (s : PStr)
      → IsPool sp refs
      → OneOf s (index.contents sp.tree)
      → length refs < int_max
      → IsPool
          (record sp { refcnt = update sp.refcnt s.address (sp.refcnt s.address + 1) })
          (s ∷ refs)
  incref-IsPool sp refs s h m few = record {
    valid = h.valid;
    counted = h.counted;
    separate = h.separate;
    exact = exact;
    used = λ x k. more_held s x.address refs (h.used x k);
    inside = inside;
    representable = omega arith;
  }
    where
      exact :
          (x : PStr)
          → OneOf x (index.contents sp.tree)
          → update sp.refcnt s.address (sp.refcnt s.address + 1) x.address
            ≡ held x.address (s ∷ refs)
      exact x k = elim (address_cases s.address x.address) [
        | inl e ↦
            update_same sp.refcnt s.address (sp.refcnt s.address + 1) x.address e
            ∙ ap (λ n. n + 1) (h.exact s m)
            ∙ omega arith
            ∙ sym (held_one s refs)
            ∙ ap (λ a. held a (s ∷ refs)) e
        | inr ne ↦
            update_other sp.refcnt s.address (sp.refcnt s.address + 1) x.address ne
            ∙ h.exact x k
            ∙ sym (held_other s x.address refs ne)
      ]

      inside : (x : PStr) → OneOf x (s ∷ refs) → OneOf x (index.contents sp.tree)
      inside x (inl e) = subst (λ t. OneOf t (index.contents sp.tree)) e m
      inside x (inr k) = h.inside x k

  pub strpool_incref_lem :
      (sp : StrPool index.State) (refs : List PStr) (s : PStr)
      → IsPool sp refs
      → OneOf s (index.contents sp.tree)
      → length refs < int_max
      → strpool_incref index (some s) sp
        ≡ some (record sp { refcnt = update sp.refcnt s.address (sp.refcnt s.address + 1) })
  unfolding strpool_incref
  strpool_incref_lem sp refs s h m few =
      let room : sp.refcnt s.address < int_max =
        omega (arith, h.exact s m, held-length s.address refs, few) in
      rw (int_inc_lem (sp.refcnt s.address) room) refl

  -- A new string at a fresh address, with the first reference to it.
  pub insert-IsPool :
      (sp : StrPool index.State) (refs : List PStr) (s : PStr) (tree : index.State)
      → IsPool sp refs
      → IsFresh sp s.address
      → IsInserted s (index.contents sp.tree) (index.contents tree)
      → index.IsValid tree
      → length refs < int_max
      → IsPool
          (record { tree = tree; count = sp.count + 1; refcnt = update sp.refcnt s.address 1 })
          (s ∷ refs)
  insert-IsPool sp refs s tree h fresh put v few = record {
    valid = v;
    counted =
        ap (λ n. n + 1) h.counted
        ∙ sym (length-inserted s (index.contents sp.tree) (index.contents tree) put);
    separate =
        IsSeparate-inserted (λ x. x.address) s (index.contents sp.tree) (index.contents tree)
          h.separate fresh put;
    exact = exact;
    used = used;
    inside = inside;
    representable = omega arith;
  }
    where
      old : (x : PStr) → OneOf x (index.contents tree) → (s ≡ x) ⊎ OneOf x (index.contents sp.tree)
      old x k = OneOf-inserted s x (index.contents sp.tree) (index.contents tree) put k

      none_held : held s.address refs ≡ 0
      none_held = held_none s.address refs λ r m. fresh r (h.inside r m)

      exact :
          (x : PStr)
          → OneOf x (index.contents tree)
          → update sp.refcnt s.address 1 x.address ≡ held x.address (s ∷ refs)
      exact x k = elim (old x k) [
        | inl f ↦
            subst (λ t. update sp.refcnt s.address 1 t.address ≡ held t.address (s ∷ refs)) f
              (update_same sp.refcnt s.address 1 s.address refl
                ∙ sym (held_one s refs ∙ ap (λ n. 1 + n) none_held))
        | inr m ↦
            let ne : s.address ≢ x.address = λ e. fresh x m (sym e) in
            update_other sp.refcnt s.address 1 x.address ne
            ∙ h.exact x m
            ∙ sym (held_other s x.address refs ne)
      ]

      used : (x : PStr) → OneOf x (index.contents tree) → 0 < held x.address (s ∷ refs)
      used x k = elim (old x k) [
        | inl f ↦ subst (λ t. 0 < held t.address (s ∷ refs)) f (omega (arith, held_one s refs))
        | inr m ↦ more_held s x.address refs (h.used x m)
      ]

      inside : (x : PStr) → OneOf x (s ∷ refs) → OneOf x (index.contents tree)
      inside x (inl e) =
          inserted-OneOf s x (index.contents sp.tree) (index.contents tree) put (inl e)
      inside x (inr k) =
          inserted-OneOf s x (index.contents sp.tree) (index.contents tree) put (inr (h.inside x k))
