-- ===== src/StrPool/Decref.antt =====
-- usual/strpool.c: strpool_decref gives a reference back, and the string with the last one.
use libusual_archive.Base.{
  ℕ, ◌+◌, ◌-◌, ◌<◌, ◌≡◌, ◌≢◌, refl, sym, ap, ◌∙◌, subst, true, false, some, List, arith, inl, inr,
  Bool-cases, OneOf, IsInserted, OneOf-inserted, inserted-OneOf, update, ltb, Returns,
}
use libusual_archive.Index.{Index}
use libusual_archive.StrPool.{PStr, get_key, StrPool, free_str, strpool_decref}
use libusual_archive.StrPool.Held.{
  held, held_one, held_other, held-inserted, OneOf-held, length-inserted,
}
use libusual_archive.StrPool.Pool.{IsPool, address_cases}
use libusual_archive.Base.{update_same, update_other}

module _ (index : Index PStr get_key) where
  -- The counters of the other strings are those of the references that are left.
  other_exact :
      (sp : StrPool index.State) (s x : PStr) (refs more : List PStr)
      → IsPool index sp more
      → IsInserted s refs more
      → OneOf x (index.contents sp.tree)
      → s.address ≢ x.address
      → sp.refcnt x.address ≡ held x.address refs
  other_exact sp s x refs more h put k ne =
      h.exact x k ∙ held-inserted x.address s refs more put ∙ held_other s x.address refs ne

  left_lem :
      (sp : StrPool index.State) (s : PStr) (refs more : List PStr)
      → IsPool index sp more
      → IsInserted s refs more
      → sp.refcnt s.address ≡ 1 + held s.address refs
  left_lem sp s refs more h put =
      let m = h.inside s (inserted-OneOf s s refs more put (inl refl)) in
      h.exact s m ∙ held-inserted s.address s refs more put ∙ held_one s refs

  -- References are left: the counter goes down.
  lower-IsPool :
      (sp : StrPool index.State) (s : PStr) (refs more : List PStr) (left : ℕ)
      → IsPool index sp more
      → IsInserted s refs more
      → left ≡ held s.address refs
      → 0 < left
      → IsPool index (record sp { refcnt = update sp.refcnt s.address left }) refs
  lower-IsPool sp s refs more left h put e pos = record {
    valid = h.valid;
    counted = h.counted;
    separate = h.separate;
    exact = exact;
    used = used;
    inside = λ x k. h.inside x (inserted-OneOf s x refs more put (inr k));
    representable = omega (arith, h.representable, length-inserted s refs more put);
  }
    where
      exact :
          (x : PStr)
          → OneOf x (index.contents sp.tree)
          → update sp.refcnt s.address left x.address ≡ held x.address refs
      exact x k = elim (address_cases s.address x.address) [
        | inl f ↦ update_same sp.refcnt s.address left x.address f ∙ e ∙ ap (λ a. held a refs) f
        | inr ne ↦
            update_other sp.refcnt s.address left x.address ne
            ∙ other_exact sp s x refs more h put k ne
      ]

      used : (x : PStr) → OneOf x (index.contents sp.tree) → 0 < held x.address refs
      used x k = elim (address_cases s.address x.address) [
        | inl f ↦ subst (λ a. 0 < held a refs) f (omega arith)
        | inr ne ↦ omega (
          arith,
          h.used x k,
          held-inserted x.address s refs more put,
          held_other s x.address refs ne,
        )
      ]

  -- No reference is left: the string goes out of the tree.
  remove-IsPool :
      (sp : StrPool index.State) (s : PStr) (refs more : List PStr) (tree : index.State)
      (refcnt : ℕ → ℕ)
      → IsPool index sp more
      → IsInserted s refs more
      → held s.address refs ≡ 0
      → ((address : ℕ) → s.address ≢ address → refcnt address ≡ sp.refcnt address)
      → IsInserted s (index.contents tree) (index.contents sp.tree)
      → ((x : PStr) → OneOf x (index.contents tree) → x ≢ s)
      → index.IsValid tree
      → IsPool index (record { tree = tree; count = sp.count - 1; refcnt = refcnt }) refs
  remove-IsPool sp s refs more tree refcnt h put none_held others taken gone v = record {
    valid = v;
    counted =
        ap (λ n. n - 1)
          (h.counted ∙ length-inserted s (index.contents tree) (index.contents sp.tree) taken)
        ∙ omega arith;
    separate = λ x y k l e. h.separate x y (still x k) (still y l) e;
    exact = λ x k.
        others x.address (away x k) ∙ other_exact sp s x refs more h put (still x k) (away x k);
    used = λ x k. omega (
      arith,
      h.used x (still x k),
      held-inserted x.address s refs more put,
      held_other s x.address refs (away x k),
    );
    inside = inside;
    representable = omega (arith, h.representable, length-inserted s refs more put);
  }
    where
      still : (x : PStr) → OneOf x (index.contents tree) → OneOf x (index.contents sp.tree)
      still x k = inserted-OneOf s x (index.contents tree) (index.contents sp.tree) taken (inr k)

      away : (x : PStr) → OneOf x (index.contents tree) → s.address ≢ x.address
      away x k e = gone x k (
          h.separate x s (still x k) (h.inside s (inserted-OneOf s s refs more put (inl refl)))
            (sym e))

      inside : (x : PStr) → OneOf x refs → OneOf x (index.contents tree)
      inside x k =
          elim (OneOf-inserted s x (index.contents tree) (index.contents sp.tree) taken
            (h.inside x (inserted-OneOf s x refs more put (inr k)))) [
              | inl e ↦ absurd (
                  omega (
                    arith,
                    subst (λ t. 0 < held t.address refs) (sym e) (OneOf-held x refs k),
                    none_held,
                  ))
              | inr m ↦ m
            ]

  delete_str :
      (sp : StrPool index.State) (s : PStr) (refs more : List PStr) (refcnt : ℕ → ℕ)
      → IsPool index sp more
      → IsInserted s refs more
      → held s.address refs ≡ 0
      → ((address : ℕ) → s.address ≢ address → refcnt address ≡ sp.refcnt address)
      → IsPool index
          (record {
            tree = (index.delete sp.tree (get_key s)).1;
            count = sp.count - 1;
            refcnt = refcnt;
          })
          refs
  delete_str sp s refs more refcnt h put none_held others =
      let m = h.inside s (inserted-OneOf s s refs more put (inl refl)) in
      elim (index.delete_lem sp.tree (get_key s) h.valid) [
        | inl (e, (obj, same_key, taken, gone, v)) ↦
            let found : obj ≡ s =
              index.distinct sp.tree obj s h.valid
                (inserted-OneOf obj obj (index.contents ((index.delete sp.tree (get_key s)).1))
                  (index.contents sp.tree) taken (inl refl))
                m
                (subst (λ k. index.Same k (get_key s)) (sym same_key)
                  (index.same_refl (get_key s))) in
            let not_s : (x : PStr)
                → OneOf x (index.contents ((index.delete sp.tree (get_key s)).1))
                → x ≢ s =
              λ x k f. gone x k (
                subst (λ t. index.Same t (get_key s)) (ap get_key (sym f))
                  (index.same_refl (get_key s))) in
            remove-IsPool sp s refs more ((index.delete sp.tree (get_key s)).1) refcnt h put
              none_held others
              (subst
                (λ t.
                  IsInserted t (index.contents ((index.delete sp.tree (get_key s)).1))
                    (index.contents sp.tree))
                found taken)
              not_s v
        | inr (e, same, absent) ↦ absurd (absent s m refl)
      ]

  -- For a pool with its references, of which there are at most 2^31 - 1, and one of them: strpool_decref returns, its Assert holds, and what it leaves is a pool with the other
  -- references, from which a string is gone exactly when no reference to it is left.
  pub strpool_decref_lem :
      (sp : StrPool index.State) (s : PStr) (refs more : List PStr)
      → IsPool index sp more
      → IsInserted s refs more
      → Returns (λ sp'. IsPool index sp' refs) (strpool_decref index (some s) sp)
  unfolding strpool_decref free_str
  strpool_decref_lem sp s refs more h put =
      let counter = left_lem sp s refs more h put in
      let left = sp.refcnt s.address - 1 in
      let is_left : left ≡ held s.address refs = omega arith in
      let holds : ltb 0 (sp.refcnt s.address) ≡ true =
        positive (sp.refcnt s.address) (omega arith) in
      elim (Bool-cases (ltb 0 left)) [
        | inl e ↦
            rw (holds, e)
              (_, refl, lower-IsPool sp s refs more left h put is_left (is_positive left e))
        | inr e ↦
            let zero_left : held s.address refs ≡ 0 = sym is_left ∙ is_zero left e in
            rw (holds, e)
              (
                _,
                refl,
                delete_str sp s refs more (update (update sp.refcnt s.address left) s.address 0) h
                    put zero_left
                    λ a ne.
                      update_other (update sp.refcnt s.address left) s.address 0 a ne
                      ∙ update_other sp.refcnt s.address left a ne,
              )
      ]
    where
      positive : (n : ℕ) → 0 < n → ltb 0 n ≡ true
      positive n h = ground arith

      is_positive : (n : ℕ) → ltb 0 n ≡ true → 0 < n
      is_positive n h = ground arith

      is_zero : (n : ℕ) → ltb 0 n ≡ false → n ≡ 0
      is_zero n h = ground arith
