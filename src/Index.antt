-- ===== src/Index.antt =====
-- usual/cbtree.h, as its users strpool.c and mdict.c see it: an index of objects by their keys.
use libusual_archive.Base.{
  ℕ, ◌≡◌, ◌≢◌, Bool, true, false, Option, none, some, List, [], ◌∷◌, OneOf, IsInserted, Returns,
  ◌⊎◌, if◌then◌else◌,
}

-- What a lookup in objects gives.
abbrev pub IsFound : {A : Type 0} → (A → List ℕ) → List A → List ℕ → Option A → Type 0
IsFound {A} key xs k none = (x : A) → OneOf x xs → key x ≢ k
IsFound key xs k (some obj) = OneOf obj xs × (key obj ≡ k)

-- The calls on the objects one after the other, up to the first that returns false.
abbrev pub call_all : {A S : Type 0} → (S → A → Bool × S) → List A → S → Bool × S
call_all cb_func [] s = (true, s)
call_all cb_func (x ∷ xs) s =
    let (ok, s') = cb_func s x in if ok then call_all cb_func xs s' else (false, s')

-- The functions of cbtree.h and their laws. `IsKey` are the keys that the index is made for, and two keys are the `Same` if the
-- index has no room for both.
pub record Index (A : Type 0) (key : A → List ℕ) : Type 1 where
  pub State : Type 0
  pub create : Bool → Bool → Option State
  pub lookup : State → List ℕ → Option A
  pub insert : Bool → State → A → Option (Bool × State)
  pub delete : State → List ℕ → Bool × State
  pub walk : {S : Type 0} → (S → A → Bool × S) → State → S → Bool × S
  pub contents : State → List A
  pub IsValid : State → Type 0
  pub IsKey : List ℕ → Type 0
  pub Same : List ℕ → List ℕ → Type 0
  pub same_refl : (k : List ℕ) → Same k k
  pub create_lem :
      (frees : Bool) (t : State) → create frees true ≡ some t → IsValid t × (contents t ≡ [])
  pub lookup_lem : (t : State) (k : List ℕ) → IsValid t → IsFound key (contents t) k (lookup t k)
  pub insert_lem :
      (granted : Bool) (t : State) (obj : A)
      → IsValid t
      → IsKey (key obj)
      → Returns
          (λ r.
            ((r.0 ≡ true)
              × ((x : A) → OneOf x (contents t) → Same (key obj) (key x) → ⊥)
              × IsInserted obj (contents t) (contents (r.1))
              × IsValid (r.1))
            ⊎ ((r.0 ≡ false)
                × (r.1 ≡ t)
                × ((granted ≡ false) ⊎ ((x : A) × OneOf x (contents t) × Same (key obj) (key x)))))
          (insert granted t obj)
  pub delete_lem :
      (t : State) (k : List ℕ)
      → IsValid t
      → (((delete t k).0 ≡ true)
          × ((obj : A) × (key obj ≡ k)
              × IsInserted obj (contents ((delete t k).1)) (contents t)
              × ((x : A) → OneOf x (contents ((delete t k).1)) → Same (key x) k → ⊥)
              × IsValid ((delete t k).1)))
        ⊎ (((delete t k).0 ≡ false)
            × ((delete t k).1 ≡ t)
            × ((x : A) → OneOf x (contents t) → key x ≢ k))
  pub distinct :
      (t : State) (x y : A)
      → IsValid t
      → OneOf x (contents t)
      → OneOf y (contents t)
      → Same (key x) (key y)
      → x ≡ y
  pub walk_lem :
      {S : Type 0} (cb_func : S → A → Bool × S) (t : State) (s : S)
      → IsValid t
      → walk cb_func t s ≡ call_all cb_func (contents t) s
