-- ===== src/PgUtil.antt =====
-- usual/pgutil.c: quoting of literals and identifiers. A C string is the list of its bytes before the NUL.
pub mod Text
pub mod Copy
pub mod Close
pub mod Attempt
pub mod Literal
pub mod Quoting
pub mod Ident
pub mod Overrun
pub mod Reading
pub mod Qualified
pub mod Tests
use libusual_archive.Base.{
  ℕ, zero, suc, ◌+◌, ◌-◌, Bool, true, false, not, ◌&&◌, ◌||◌, Option, none, some, List, [], ◌∷◌,
  ltb, leb, ◌==◌, if◌then◌else◌, ◌>>=◌, update, length, take, ◌%◌, ◌^◌,
}

abbrev pub Memory : Type 0
Memory = ℕ → ℕ

-- A store to an address from `limit` on, which is behind the destination, is a fault.
abbrev pub put_byte : ℕ → Memory → ℕ → ℕ → Option Memory
put_byte limit mem a v = if ltb a limit then some (update mem a v) else none

pub store_all : ℕ → Memory → ℕ → List ℕ → Option Memory
store_all limit mem a [] = some mem
store_all limit mem a (x ∷ xs) = put_byte limit mem a x >>= λ mem'. store_all limit mem' (a + 1) xs

-- How a copying loop is left: by its goto, or with the bytes that it did not read.
pub data LoopEnd : Type 0 where
  jumped : (mem : Memory) → LoopEnd
  ran : (rest : List ℕ) (dst : ℕ) (mem : Memory) → LoopEnd

-- `while (*src && dst < end)` with a goto on the bytes of `stops`, and the bytes of `doubled` stored twice.
pub copy_loop : ℕ → ℕ → (ℕ → Bool) → (ℕ → Bool) → List ℕ → ℕ → Memory → Option LoopEnd
copy_loop limit end stops doubled [] dst mem = some (ran [] dst mem)
copy_loop limit end stops doubled (c ∷ src) dst mem =
    let dst' = if doubled c then dst + 1 else dst in
    let round = (if doubled c then put_byte limit mem dst c else some mem) >>= λ mem'.
    put_byte limit mem' dst' c >>= λ mem''.
    copy_loop limit end stops doubled src (dst' + 1) mem'' in
    if ltb dst end
    then (if stops c then some (jumped mem) else round)
    else some (ran (c ∷ src) dst mem)

abbrev pub is_quote : ℕ → Bool
is_quote c = c == 39

abbrev pub is_backslash : ℕ → Bool
is_backslash c = c == 92

abbrev pub is_escaped : ℕ → Bool
is_escaped c = is_quote c || is_backslash c

-- From `retry:` on. A standard literal leaves the loop at a backslash, so that only quotes are doubled in it.
pub literal_from : ℕ → ℕ → Bool → List ℕ → ℕ → Memory → Option LoopEnd
literal_from limit end stdquote src dst mem = put_byte limit mem dst 39 >>= λ mem'.
    copy_loop limit end (λ c. stdquote && is_backslash c) is_escaped src (dst + 1) mem'

pub literal_end : ℕ → ℕ → LoopEnd → Option (Bool × Memory)
literal_end limit end (jumped mem) = none
literal_end limit end (ran (c ∷ rest) dst mem) = some (false, mem)
literal_end limit end (ran [] dst mem) =
    if ltb end dst
    then some (false, mem)
    else (put_byte limit mem dst 39 >>= λ mem'.
        put_byte limit mem' (dst + 1) 0 >>= λ mem''. some (true, mem''))

-- `retry_ext:`. There is no second jump, since `stdquote` is false then.
pub literal_retry : ℕ → ℕ → List ℕ → ℕ → LoopEnd → Option (Bool × Memory)
literal_retry limit end src base (jumped mem) = put_byte limit mem base 69 >>= λ mem'.
    literal_from limit end false src (base + 1) mem' >>= literal_end limit end
literal_retry limit end src base (ran rest dst mem) = literal_end limit end (ran rest dst mem)

-- `base` is `_dst`, no source is NULL. A negative `dstlen` is like 0.
pub pg_quote_literal : Memory → ℕ → Option (List ℕ) → ℕ → Option (Bool × Memory)
pg_quote_literal mem base none dstlen =
    let null = store_all (base + dstlen) mem base (78 ∷ 85 ∷ 76 ∷ 76 ∷ 0 ∷ []) >>= λ mem'.
    some (true, mem') in
    if ltb dstlen 3 then some (false, mem) else if ltb dstlen 5 then some (false, mem) else null
pg_quote_literal mem base (some src) dstlen =
    let limit = base + dstlen in
    let end = base + dstlen - 2 in
    if ltb dstlen 3
    then some (false, mem)
    else (literal_from limit end true src base mem >>= literal_retry limit end src base)

abbrev pub id_start : ℕ → Bool
id_start c = (leb 97 c && leb c 122) || c == 95

abbrev pub id_body : ℕ → Bool
id_body c = id_start c || (leb 48 c && leb c 57)

abbrev pub is_double_quote : ℕ → Bool
is_double_quote c = c == 34

-- The string at an address of which `size` bytes are left.
abbrev pub text_at : ℕ → Memory → ℕ → List ℕ
text_at zero mem a = []
text_at (suc size) mem a =
    let rest = text_at size mem (a + 1) in if mem a == 0 then [] else mem a ∷ rest

-- The end of the quoting loop of pg_quote_ident.
pub quote_end : ℕ → LoopEnd → Option (Bool × Memory)
quote_end limit (jumped mem) = none
quote_end limit (ran (c ∷ rest) dst mem) = some (false, mem)
quote_end limit (ran [] dst mem) = put_byte limit mem dst 34 >>= λ mem'.
    put_byte limit mem' (dst + 1) 0 >>= λ mem''. some (true, mem'')

-- `needs_quoting:`. Nothing jumps out of the loop.
pub needs_quoting : Memory → ℕ → List ℕ → ℕ → Option (Bool × Memory)
needs_quoting mem base src dstlen =
    let limit = base + dstlen in
    if ltb dstlen 3
    then some (false, mem)
    else (put_byte limit mem base 34 >>= λ mem'.
        copy_loop limit (base + dstlen - 2) (λ c. false) is_double_quote src (base + 1) mem'
        >>= quote_end limit)

-- The parts before and after the first dot.
pub split_at_dot : List ℕ → Option (List ℕ × List ℕ)
split_at_dot [] = none
split_at_dot (c ∷ src) =
    let rest = split_at_dot src >>= λ (before, after). some (c ∷ before, after) in
    if c == 46 then some ([], src) else rest

-- `"public"`.
abbrev pub public_schema : List ℕ
public_schema = 112 ∷ 117 ∷ 98 ∷ 108 ∷ 105 ∷ 99 ∷ []

-- pg_is_reserved_word looks words up in a generated table.
module _ (pg_is_reserved_word : List ℕ → Bool) where
  -- After the first loop of pg_quote_ident.
  pub plain_end : ℕ → List ℕ → ℕ → LoopEnd → Option (Bool × Memory)
  plain_end base src dstlen (jumped mem) = needs_quoting mem base src dstlen
  plain_end base src dstlen (ran (c ∷ rest) dst mem) = some (false, mem)
  plain_end base src dstlen (ran [] dst mem) = put_byte (base + dstlen) mem dst 0 >>= λ mem'.
      if pg_is_reserved_word (text_at dstlen mem' base)
      then needs_quoting mem' base src dstlen
      else some (true, mem')

  pub pg_quote_ident : Memory → ℕ → List ℕ → ℕ → Option (Bool × Memory)
  pg_quote_ident mem base [] dstlen =
      if ltb dstlen 1 then some (false, mem) else needs_quoting mem base [] dstlen
  pg_quote_ident mem base (c ∷ src) dstlen =
      let plain =
        copy_loop (base + dstlen) (base + dstlen - 1) (λ d. not (id_body d)) (λ d. false) (c ∷ src)
          base mem
        >>= plain_end base (c ∷ src) dstlen in
      if ltb dstlen 1
      then some (false, mem)
      else if id_start c
      then plain
      else needs_quoting mem base (c ∷ src) dstlen

  pub quote_parts : Memory → ℕ → List ℕ → List ℕ → ℕ → Option (Bool × Memory)
  quote_parts mem base scm name dstlen = pg_quote_ident mem base scm dstlen >>= λ (ok, mem').
      let scmlen = length (text_at dstlen mem' base) in
      let second = put_byte (base + dstlen) mem' (base + scmlen) 46 >>= λ mem''.
      pg_quote_ident mem'' (base + scmlen + 1) name (dstlen - (scmlen + 1)) in
      if ok then second else some (false, mem')

  -- `scmbuf[128]` with the schema and its NUL; `int scmlen` is the distance modulo 2 ^ 32, and a negative one, which the test lets
  -- pass, is a size for memcpy far behind the buffer.
  pub copy_schema : List ℕ → ℕ → Option (List ℕ)
  copy_schema scm scmlen = if ltb scmlen 128 then some (take scmlen scm) else none

  pub split_parts : Memory → ℕ → List ℕ → ℕ → Option (List ℕ × List ℕ) → Option (Bool × Memory)
  split_parts mem base src dstlen none = quote_parts mem base public_schema src dstlen
  split_parts mem base src dstlen (some (scm, name)) =
      let scmlen = length scm % 2 ^ 32 in
      let copied = copy_schema scm scmlen >>= λ scmbuf. quote_parts mem base scmbuf name dstlen in
      if ltb scmlen (2 ^ 31) && leb 128 scmlen then some (false, mem) else copied

  pub pg_quote_fqident : Memory → ℕ → List ℕ → ℕ → Option (Bool × Memory)
  pg_quote_fqident mem base src dstlen = split_parts mem base src dstlen (split_at_dot src)
