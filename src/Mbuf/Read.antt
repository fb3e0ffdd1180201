-- ===== src/Mbuf/Read.antt =====
-- usual/mbuf.h: the reading functions.
use Prim.Native.Nat.{bit_or}
use libusual_archive.Base.{
  ℕ, zero, suc, ◌+◌, ◌*◌, ◌%◌, ◌^◌, Option, none, some, ltb, ◌==◌, if◌then◌else◌, ◌>>=◌,
}
use libusual_archive.Base.Word.{u32_mod, add32}
use libusual_archive.Mbuf.State.{MBuf, load, mbuf_avail_for_read}

-- The reading functions: a fault, or the value (`none` for a return of false) and the buffer.
abbrev pub Read : Type 0 → Type 0
Read A = Option (Option A × MBuf)

unfoldable pub mbuf_get_byte : MBuf → Read ℕ
mbuf_get_byte b =
    if ltb b.write_pos (add32 b.read_pos 1)
    then some (none, b)
    else do v ← load b b.read_pos; some (some v, record b { read_pos = add32 b.read_pos 1 })

-- The byte as a `char`, by its bits.
unfoldable pub mbuf_get_char : MBuf → Read ℕ
mbuf_get_char b =
    if ltb b.write_pos (add32 b.read_pos 1)
    then some (none, b)
    else do v ← load b b.read_pos; some (some v, record b { read_pos = add32 b.read_pos 1 })

abbrev pub shl32 : ℕ → ℕ → ℕ
shl32 x k = (x * 2 ^ k) % u32_mod

unfoldable pub mbuf_get_uint16be : MBuf → Read ℕ
mbuf_get_uint16be buf = if ltb buf.write_pos (add32 buf.read_pos 2) then some (none, buf) else do
  a ← load buf buf.read_pos
  b ← load buf (add32 buf.read_pos 1)
  some (some (bit_or (shl32 a 8) b % 2 ^ 16), record buf { read_pos = add32 buf.read_pos 2 })

unfoldable pub mbuf_get_uint32be : MBuf → Read ℕ
mbuf_get_uint32be buf = if ltb buf.write_pos (add32 buf.read_pos 4) then some (none, buf) else do
  a ← load buf buf.read_pos
  b ← load buf (add32 buf.read_pos 1)
  c ← load buf (add32 buf.read_pos 2)
  d ← load buf (add32 buf.read_pos 3)
  let value = bit_or (bit_or (bit_or (shl32 a 24) (shl32 b 16)) (shl32 c 8)) d
  some (some value, record buf { read_pos = add32 buf.read_pos 4 })

-- If the second half is missing the first has been consumed.
unfoldable pub mbuf_get_uint64be : MBuf → Read ℕ
mbuf_get_uint64be buf = do
  (high, buf') ← mbuf_get_uint32be buf
  elim high [
    | none ↦ some (none, buf')
    | some a ↦ do
      (low, buf'') ← mbuf_get_uint32be buf'
      elim low [ none ↦ some (none, buf'') | some b ↦ some (some (bit_or (a * 2 ^ 32) b), buf'') ]
  ]

-- The pointer to `len` bytes.
unfoldable pub mbuf_get_bytes : MBuf → ℕ → Option ℕ × MBuf
mbuf_get_bytes b len =
    if ltb b.write_pos (add32 b.read_pos len)
    then (none, b)
    else (some b.read_pos, record b { read_pos = add32 b.read_pos len })

unfoldable pub mbuf_get_chars : MBuf → ℕ → Option ℕ × MBuf
mbuf_get_chars b len =
    if ltb b.write_pos (add32 b.read_pos len)
    then (none, b)
    else (some b.read_pos, record b { read_pos = add32 b.read_pos len })

-- `memchr` for a zero byte: the position of the first, if it is among `n` bytes from `i`.
unfoldable pub find_nul : MBuf → ℕ → ℕ → Option (Option ℕ)
find_nul b zero i = some none
find_nul b (suc n) i =
    let rest = find_nul b n (i + 1) in load b i >>= λ v. if v == 0 then some (some i) else rest

-- The pointer to a string.
unfoldable pub mbuf_get_string : MBuf → Read ℕ
mbuf_get_string b = do
  nul ← find_nul b (mbuf_avail_for_read b) b.read_pos
  elim nul [
    | none ↦ some (none, b)
    | some p ↦ some (some b.read_pos, record b { read_pos = p + 1 })
  ]
