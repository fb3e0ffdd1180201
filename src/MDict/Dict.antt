-- ===== src/MDict/Dict.antt =====
-- usual/mdict.c: the dictionary, its values in an index of elements by their keys, and as the text of a URL.
use libusual_archive.Base.{
  ℕ, zero, suc, Bool, true, false, not, Option, none, some, List, [], ◌∷◌, ◌==◌, if◌then◌else◌,
  ◌>>=◌, length, update,
}
use libusual_archive.Index.{Index}
use libusual_archive.Mbuf.State.{MBuf}
use libusual_archive.MDict.{urldec_str, urlenc_str, write_byte}

-- What stays the same of `struct MDictElem`. The field val is in the memory of the dictionary.
pub record MDictElem : Type 0 where
  pub address : ℕ
  pub key : List ℕ

unfoldable pub mdict_getkey : MDictElem → List ℕ
mdict_getkey el = el.key

-- `val` is that field of the elements by address, `none` where its data is NULL.
pub record MDict (Tree : Type 0) : Type 0 where
  pub tree : Tree
  pub val : ℕ → Option (List ℕ)

-- The outcomes of the allocations that mdict_put_str makes, and in it cbtree_insert.
pub record Granted : Type 0 where
  pub vptr : Bool
  pub kptr : Bool
  pub el : Option ℕ
  pub node : Bool

unfoldable pub no_vptr : Granted → Option (List ℕ) → Bool
no_vptr granted none = false
no_vptr granted (some val) = not granted.vptr

-- The outcomes in mdict_urldecode: those of urldec_str by what is left of the text, the others by the dictionary.
pub record Outcomes (Tree : Type 0) : Type 0 where
  pub text : List ℕ → Bool
  pub el : MDict Tree → Option ℕ
  pub node : MDict Tree → Bool

-- The value behind `=`, if there is one, and then `&`.
unfoldable pub read_value : (List ℕ → Bool) → List ℕ → Option (Option (Option (List ℕ) × List ℕ))
read_value granted [] = some (some (none, []))
read_value granted (c ∷ s) =
    if c == 61
    then (urldec_str (granted s) s >>= λ r. some (r >>= λ (v, s'). some (some v, s')))
    else some (some (none, c ∷ s))

unfoldable pub skip_and : List ℕ → List ℕ
skip_and [] = []
skip_and (c ∷ s) = if c == 38 then s else c ∷ s

-- `s < end && ...` and the text between: the key, the value and what is left.
unfoldable pub read_pair :
    (List ℕ → Bool) → List ℕ → Option (Option (List ℕ × Option (List ℕ) × List ℕ))
read_pair granted s = urldec_str (granted s) s >>= λ r. elim r [
  | none ↦ some none
  | some (k, s') ↦
      read_value granted s' >>= λ r'. some (r' >>= λ (v, s''). some (k, v, skip_and s''))
]

pub record UrlEncCtx : Type 0 where
  pub dst : MBuf
  pub is_first : Bool

module _ (granted : MBuf → Bool) (isalnum : ℕ → Bool) where
  unfoldable pub enc_separator : UrlEncCtx → Option (Bool × MBuf)
  enc_separator ctx = if ctx.is_first then some (true, ctx.dst) else write_byte granted ctx.dst 38

  unfoldable pub enc_value : Option (List ℕ) → MBuf → Option (Bool × MBuf)
  enc_value none dst = some (true, dst)
  enc_value (some val) dst = write_byte granted dst 61 >>= λ (ok, dst').
      if ok then urlenc_str granted isalnum dst' val else some (false, dst')

  unfoldable pub enc_pair : List ℕ → Option (List ℕ) → MBuf → Option (Bool × MBuf)
  enc_pair key val dst = urlenc_str granted isalnum dst key >>= λ (ok, dst').
      if ok then enc_value val dst' else some (false, dst')

  unfoldable pub write_elem : UrlEncCtx → List ℕ → Option (List ℕ) → Option (Bool × MBuf)
  write_elem ctx key val =
      enc_separator ctx >>= λ (ok, dst). if ok then enc_pair key val dst else some (false, dst)

  unfoldable pub urlenc_elem : UrlEncCtx → List ℕ → Option (List ℕ) → Option (Bool × UrlEncCtx)
  urlenc_elem ctx key val =
      write_elem ctx key val >>= λ (ok, dst). some (ok, record { dst = dst; is_first = false })

module _ (index : Index MDictElem mdict_getkey) where
  unfoldable pub mdict_new : Bool → Bool → (ℕ → Option (List ℕ)) → Option (MDict index.State)
  mdict_new granted granted_tree val =
      if granted
      then (index.create true granted_tree >>= λ tree. some (record { tree = tree; val = val }))
      else none

  -- `none` is NULL; the value has NULL or its bytes.
  unfoldable pub mdict_get_buf : MDict index.State → List ℕ → Option (Option (List ℕ))
  mdict_get_buf dict key = index.lookup dict.tree key >>= λ el. some (dict.val el.address)

  unfoldable pub mdict_get_str : MDict index.State → List ℕ → Option (List ℕ)
  mdict_get_str dict key = mdict_get_buf dict key >>= λ val. val

  -- A new element at the address.
  unfoldable pub insert_elem :
      Bool → MDict index.State → ℕ → List ℕ → Option (List ℕ) → Option (Bool × MDict index.State)
  insert_elem granted dict address key val =
      index.insert granted dict.tree (record { address = address; key = key }) >>= λ (ok, tree).
      some (ok, record { tree = tree; val = update dict.val address val })

  unfoldable pub create_elem :
      Option ℕ
      → Bool
      → MDict index.State
      → List ℕ
      → Option (List ℕ)
      → Option (Bool × MDict index.State)
  create_elem none granted dict key val = some (false, dict)
  create_elem (some address) granted dict key val = insert_elem granted dict address key val

  unfoldable pub set_val : MDict index.State → MDictElem → Option (List ℕ) → MDict index.State
  set_val dict el val = record dict { val = update dict.val el.address val }

  unfoldable pub put_elem :
      Granted
      → MDict index.State
      → List ℕ
      → Option (List ℕ)
      → Option MDictElem
      → Option (Bool × MDict index.State)
  put_elem granted dict key val (some el) = some (true, set_val dict el val)
  put_elem granted dict key val none =
      if granted.kptr then create_elem granted.el granted.node dict key val else some (false, dict)

  unfoldable pub mdict_put_str :
      Granted → MDict index.State → List ℕ → Option (List ℕ) → Option (Bool × MDict index.State)
  mdict_put_str granted dict key val =
      let put = put_elem granted dict key val (index.lookup dict.tree key) in
      if no_vptr granted val then some (false, dict) else put

  unfoldable pub mdict_del_key : MDict index.State → List ℕ → Bool × MDict index.State
  mdict_del_key dict key = let r = index.delete dict.tree key in (r.0, record dict { tree = r.1 })

  unfoldable pub mdict_walk :
      {S : Type 0} → (S → List ℕ → Option (List ℕ) → Bool × S) → MDict index.State → S → Bool × S
  mdict_walk cb_func dict s =
      index.walk (λ s' el. cb_func s' el.key (dict.val el.address)) dict.tree s

  unfoldable pub put_pair :
      Outcomes index.State
      → MDict index.State
      → List ℕ
      → Option (List ℕ)
      → Option (Bool × MDict index.State)
  put_pair outcomes dict key val = elim (index.lookup dict.tree key) [
    | none ↦ create_elem (outcomes.el dict) (outcomes.node dict) dict key val
    | some el ↦ some (true, set_val dict el val)
  ]

  -- The loop of mdict_urldecode, on fuel.
  unfoldable pub urldecode_loop :
      ℕ → Outcomes index.State → MDict index.State → List ℕ → Option (Bool × MDict index.State)
  urldecode_loop fuel outcomes dict [] = some (true, dict)
  urldecode_loop zero outcomes dict (c ∷ s) = none
  urldecode_loop (suc fuel) outcomes dict (c ∷ s) = read_pair outcomes.text (c ∷ s) >>= λ r.
      elim r [
        | none ↦ some (false, dict)
        | some (k, v, s') ↦ put_pair outcomes dict k v >>= λ (ok, dict'). elim ok [
          | true ↦ urldecode_loop fuel outcomes dict' s'
          | false ↦ some (false, dict')
        ]
      ]

  unfoldable pub mdict_urldecode :
      Outcomes index.State → MDict index.State → List ℕ → Option (Bool × MDict index.State)
  mdict_urldecode outcomes dict str = urldecode_loop (length str) outcomes dict str

  -- urlenc_elem as a callback, with a fault as a state that stops the walk.
  unfoldable pub enc_step :
      (MBuf → Bool)
      → (ℕ → Bool)
      → Option UrlEncCtx
      → List ℕ
      → Option (List ℕ)
      → Bool × Option UrlEncCtx
  enc_step granted isalnum none key val = (false, none)
  enc_step granted isalnum (some ctx) key val = elim (urlenc_elem granted isalnum ctx key val) [
    | none ↦ (false, none)
    | some (ok, ctx') ↦ (ok, some ctx')
  ]

  unfoldable pub mdict_urlencode :
      (MBuf → Bool) → (ℕ → Bool) → MDict index.State → MBuf → Option (Bool × MBuf)
  mdict_urlencode granted isalnum dict dst =
      let (ok, end) =
        mdict_walk (enc_step granted isalnum) dict (some (record { dst = dst; is_first = true })) in
      end >>= λ ctx. some (ok, ctx.dst)
