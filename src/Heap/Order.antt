-- ===== src/Heap/Order.antt =====
-- usual/heap.c and usual/heap.h: the heap property, the contents as a multiset and the positions
-- that `save_pos` has told the user, as predicates on the state.
use libusual_archive.Base.{
  ℕ, zero, suc, ◌+◌, ◌-◌, ◌*◌, ◌/◌, ◌^◌, ◌≤◌, ◌<◌, ◌≡◌, refl, Bool, true, false, arith, ◌==◌,
  if◌then◌else◌, update, Bool-cases, inl, inr,
}
use native.Mathlib.Numerals.{add-one}
use libusual_archive.Heap.{Heap, Ptr, get_parent, get_child}

-- What usual/heap.h asks of the callback: it orders the objects, and is false for equal ones.
pub record IsOrder (better : Ptr → Ptr → Bool) : Type 0 where
  pub asym : (a b : Ptr) → better a b ≡ true → better b a ≡ false
  pub trans : (a b c : Ptr) → better a b ≡ false → better b c ≡ false → better a c ≡ false

abbrev pub up : ℕ → ℕ
up c = (c - 1) / 2

-- No object is better than its parent.
abbrev pub InOrder : (Ptr → Ptr → Bool) → Heap → Type 0
InOrder better h = (c : ℕ) → 0 < c → c < h.used → better (h.cells c) (h.cells (up c)) ≡ false

-- The cells in use lie inside the allocation, and positions do not overflow `unsigned`.
abbrev pub IsRoomy : Heap → Type 0
IsRoomy h = (h.used ≤ h.allocated) × (h.used ≤ 2 ^ 31)

-- Every object in the heap remembers where it is, if the callback is set.
abbrev pub IsTracked : Heap → Type 0
IsTracked h = h.tracks ≡ true → (i : ℕ) → i < h.used → h.saved (h.cells i) ≡ i

abbrev pub hit : Ptr → Ptr → ℕ
hit p q = if q == p then 1 else 0

-- How often `p` stands in the first `n` cells.
unfoldable pub count : Ptr → ℕ → (ℕ → Ptr) → ℕ
count p zero f = 0
count p (suc n) f = hit p (f n) + count p n f

-- How often `p` is in the heap.
abbrev pub holds : Heap → Ptr → ℕ
holds h p = count p h.used h.cells

pub count-update_out :
    (p : Ptr) (n : ℕ) (f : ℕ → Ptr) (i : ℕ) (v : Ptr)
    → n ≤ i
    → count p n (update f i v) ≡ count p n f
unfolding count
count-update_out p zero f i v h = refl
count-update_out p (suc n) f i v h = ground (arith, count-update_out p n f i v)

pub count-add :
    (p : Ptr) (n : ℕ) (f : ℕ → Ptr) (v : Ptr)
    → count p (n + 1) (update f n v) ≡ count p n f + hit p v
unfolding count
count-add p n f v = rw add-one (ground (arith, count-update_out p n f n v))

pub count-update :
    (p : Ptr) (n : ℕ) (f : ℕ → Ptr) (i : ℕ) (v : Ptr)
    → i < n
    → count p n (update f i v) + hit p (f i) ≡ count p n f + hit p v
unfolding count
count-update p zero f i v h = absurd (ground arith)
count-update p (suc n) f i v h = ground (arith, count-update p n f i v, count-update_out p n f i v)

pub count_last :
    (p : Ptr) (n : ℕ) (f : ℕ → Ptr) → 0 < n → count p n f ≡ hit p (f (n - 1)) + count p (n - 1) f
unfolding count
count_last p zero f h = absurd (ground arith)
count_last p (suc n) f h = let e : suc n - 1 ≡ n = omega arith in rw e

pub count_zero :
    (p : Ptr) (n : ℕ) (f : ℕ → Ptr) (i : ℕ) → count p n f ≡ 0 → i < n → (f i == p) ≡ false
unfolding count
count_zero p zero f i e h = absurd (ground arith)
count_zero p (suc n) f i e h = elim (Bool-cases (i == n)) [
  | inl last ↦ ground arith
  | inr before ↦ ground (arith, count_zero p n f i)
]

pub get_parent-up : (i : ℕ) → 0 < i → i < 2 ^ 32 → get_parent i ≡ up i
unfolding get_parent
get_parent-up i p h = omega arith

pub get_child_lem : (i : ℕ) → i < 2 ^ 31 → get_child i 0 ≡ 2 * i + 1
unfolding get_child
get_child_lem i h = omega arith
