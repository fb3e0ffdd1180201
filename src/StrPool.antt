-- ===== src/StrPool.antt =====
-- usual/strpool.c: interned strings with reference counts, kept in an index of objects by their keys.
pub mod Held
pub mod Pool
pub mod Get
pub mod Decref
pub mod Runs
mod Tests
use libusual_archive.Base.{
  ℕ, zero, suc, ◌+◌, ◌-◌, Bool, true, false, Option, none, some, List, [], ◌∷◌, ltb, leb, ◌==◌,
  if◌then◌else◌, ◌>>=◌, length, take, update,
}
use libusual_archive.Index.{Index}

-- What stays the same of `struct PStr` while it is allocated. The field refcnt is in the memory of the pool.
pub record PStr : Type 0 where
  pub address : ℕ
  pub len : ℕ
  pub str : List ℕ

unfoldable pub get_key : PStr → List ℕ
get_key s = take s.len s.str

-- `refcnt` is that field of the strings by address.
pub record StrPool (Tree : Type 0) : Type 0 where
  pub tree : Tree
  pub count : ℕ
  pub refcnt : ℕ → ℕ

-- Reading bytes at `str`, and the distance of the first NUL.
pub load_bytes : List ℕ → ℕ → Option (List ℕ)
load_bytes str n = if leb n (length str) then some (take n str) else none

pub strlen : List ℕ → Option ℕ
strlen [] = none
strlen (byte ∷ str) =
    let rest = strlen str >>= λ n. some (n + 1) in if byte == 0 then some 0 else rest

-- A negative length is `none`.
pub length_of : Option ℕ → List ℕ → Option ℕ
length_of none str = strlen str
length_of (some len) str = some len

pub free_str : (ℕ → ℕ) → PStr → Bool × (ℕ → ℕ)
free_str refcnt s = (true, update refcnt s.address 0)

-- The largest int. `++` on it is undefined, which is `none`.
abbrev pub int_max : ℕ
int_max = 2147483647

pub int_inc : ℕ → Option ℕ
int_inc n = if ltb n int_max then some (n + 1) else none

-- The functions of usual/cbtree.h that the pool calls.
module _ (index : Index PStr get_key) where
  -- `granted` and `granted_tree` are the outcomes of the two allocations.
  pub strpool_create : Bool → Bool → (ℕ → ℕ) → Option (StrPool index.State)
  strpool_create granted granted_tree refcnt =
      if granted
      then (index.create false granted_tree >>= λ tree.
          some (record { tree = tree; count = 0; refcnt = refcnt }))
      else none

  -- The memory after the walk, before it is given back.
  pub strpool_free : StrPool index.State → ℕ → ℕ
  strpool_free sp = (index.walk free_str sp.tree sp.refcnt).1

  pub strpool_total : StrPool index.State → ℕ
  strpool_total sp = sp.count

  pub strpool_incref : Option PStr → StrPool index.State → Option (StrPool index.State)
  strpool_incref none sp = some sp
  strpool_incref (some s) sp = int_inc (sp.refcnt s.address) >>= λ refs.
      some (record sp { refcnt = update sp.refcnt s.address refs })

  -- The string is inserted, or its memory is given back.
  pub insert_str : Bool → StrPool index.State → PStr → Option (Option PStr × StrPool index.State)
  insert_str granted sp cstr =
      let refcnt = update sp.refcnt cstr.address 1 in
      index.insert granted sp.tree cstr >>= λ (ok, tree).
      if ok
      then (int_inc sp.count >>= λ strings.
          some (some cstr, record { tree = tree; count = strings; refcnt = refcnt }))
      else some (none, record { tree = tree; count = sp.count; refcnt = refcnt })

  -- `place` is what cx_alloc returns for the string, `granted` the outcome of the allocation in cbtree_insert.
  pub create_str :
      Option ℕ
      → Bool
      → StrPool index.State
      → List ℕ
      → ℕ
      → Option (Option PStr × StrPool index.State)
  create_str none granted sp str len = some (none, sp)
  create_str (some address) granted sp str len = load_bytes str (len + 1) >>= λ bytes.
      insert_str granted sp (record { address = address; len = len; str = bytes })

  pub get_str :
      Option ℕ
      → Bool
      → StrPool index.State
      → List ℕ
      → ℕ
      → Option PStr
      → Option (Option PStr × StrPool index.State)
  get_str place granted sp str len none = create_str place granted sp str len
  get_str place granted sp str len (some cstr) =
      strpool_incref (some cstr) sp >>= λ sp'. some (some cstr, sp')

  -- `str` is the memory from the pointer on, in which a read behind the end is a fault.
  pub strpool_get :
      Option ℕ
      → Bool
      → StrPool index.State
      → List ℕ
      → Option ℕ
      → Option (Option PStr × StrPool index.State)
  strpool_get place granted sp str len = length_of len str >>= λ n.
      load_bytes str n >>= λ key. get_str place granted sp str n (index.lookup sp.tree key)

  -- A failing Assert is `none`.
  pub strpool_decref : Option PStr → StrPool index.State → Option (StrPool index.State)
  strpool_decref none sp = some sp
  strpool_decref (some s) sp =
      let left = sp.refcnt s.address - 1 in
      let refcnt = update sp.refcnt s.address left in
      if ltb 0 (sp.refcnt s.address)
      then some (
          if ltb 0 left then record sp { refcnt = refcnt } else record {
            tree = (index.delete sp.tree (get_key s)).1;
            count = sp.count - 1;
            refcnt = (free_str refcnt s).1;
          })
      else none
