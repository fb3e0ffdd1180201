-- ===== src/Mbuf/Write.antt =====
-- usual/mbuf.h and usual/mbuf.c: growing, the writing functions, cutting, slicing and comparing.
use libusual_archive.Base.{
  ℕ, zero, suc, ◌+◌, ◌-◌, ◌*◌, ◌%◌, Bool, true, false, not, ◌&&◌, ◌||◌, Option, none, some, List,
  ltb, leb, ◌==◌, if◌then◌else◌, ◌>>=◌, length, get_elem?,
}
use libusual_archive.Base.Word.{u32_mod, add32, sub32}
use libusual_archive.Mbuf.State.{MBuf, mbuf_avail_for_read, mbuf_init_fixed_reader, mbuf_written}
use libusual_archive.Mbuf.Read.{mbuf_get_bytes}

-- `while (new_alloc < need) new_alloc *= 2`.
unfoldable pub grow : ℕ → ℕ → ℕ → Option ℕ
grow zero new_alloc need = none
grow (suc fuel) new_alloc need =
    let more = grow fuel ((new_alloc * 2) % u32_mod) need in
    if ltb new_alloc need then more else some new_alloc

-- `realloc` returns NULL or not: its outcome is `granted`. The loop gets 33 rounds, `unsigned` having 32 bits.
unfoldable pub mbuf_make_room : (granted : Bool) → MBuf → ℕ → Option (Bool × MBuf)
mbuf_make_room granted b len =
    if b.reader || b.fixed
    then some (false, b)
    else if leb (add32 b.write_pos len) b.alloc_len
    then some (true, b)
    else do
      new_alloc ← grow 33 (if b.alloc_len == 0 then 128 else b.alloc_len) (add32 b.write_pos len)
      if granted
          then some (true, record b { present = true; alloc_len = new_alloc })
          else some (false, b)

-- The test that the writing functions begin with.
unfoldable pub ensure_room : (granted : Bool) → MBuf → ℕ → Option (Bool × MBuf)
ensure_room granted b len =
    if ltb b.alloc_len (add32 b.write_pos len) then mbuf_make_room granted b len else some (true, b)

-- `memcpy` of `len` bytes to offset `dst`.
abbrev pub copy_in : (ℕ → ℕ) → ℕ → ℕ → (ℕ → ℕ) → ℕ → ℕ
copy_in cells dst len src j = if leb dst j && ltb j (dst + len) then src (j - dst) else cells j

-- A store of `len` bytes at the write cursor, a fault if they are not inside the memory.
unfoldable pub store : MBuf → ℕ → (ℕ → ℕ) → Option MBuf
store b len src =
    if leb (b.write_pos + len) b.alloc_len
    then some (record b {
      cells = copy_in b.cells b.write_pos len src;
      write_pos = add32 b.write_pos len;
    })
    else none

unfoldable pub mbuf_write_byte : (granted : Bool) → MBuf → ℕ → Option (Bool × MBuf)
mbuf_write_byte granted b val = do
  (ready, b') ← ensure_room granted b 1
  if ready then (store b' 1 (λ _. val) >>= λ b''. some (true, b'')) else some (false, b')

unfoldable pub mbuf_write : (granted : Bool) → MBuf → (ℕ → ℕ) → ℕ → Option (Bool × MBuf)
mbuf_write granted b ptr len = do
  (ready, b') ← ensure_room granted b len
  if ready then (store b' len ptr >>= λ b''. some (true, b'')) else some (false, b')

unfoldable pub mbuf_write_raw_mbuf : (granted : Bool) → MBuf → MBuf → Option (Bool × MBuf)
mbuf_write_raw_mbuf granted dst src = mbuf_write granted dst src.cells src.write_pos

-- The end of mbuf_write_mbuf, after mbuf_get_bytes: the result, and both buffers.
unfoldable pub hand_over :
    (granted : Bool) → MBuf → MBuf → ℕ → Option ℕ × MBuf → Option (Bool × MBuf × MBuf)
hand_over granted dst src len (none, src') = some (false, dst, src')
hand_over granted dst src len (some p, src') = do
  (done, dst') ← mbuf_write granted dst (λ i. src.cells (p + i)) len
  if done
      then some (true, dst', src')
      else some (false, dst', record src' { read_pos = sub32 src'.read_pos len })

unfoldable pub mbuf_write_mbuf : (granted : Bool) → MBuf → MBuf → ℕ → Option (Bool × MBuf × MBuf)
mbuf_write_mbuf granted dst src len = hand_over granted dst src len (mbuf_get_bytes src len)

unfoldable pub mbuf_fill : (granted : Bool) → MBuf → ℕ → ℕ → Option (Bool × MBuf)
mbuf_fill granted b byte len = do
  (ready, b') ← ensure_room granted b len
  if ready then (store b' len (λ _. byte) >>= λ b''. some (true, b'')) else some (false, b')

-- memmove inside the memory: `len` bytes at `from` go to `ofs`, a fault if one of them is not inside.
unfoldable pub move_bytes : MBuf → ℕ → ℕ → ℕ → Option (ℕ → ℕ)
move_bytes b ofs from len =
    if leb (ofs + len) b.alloc_len && leb (from + len) b.alloc_len
    then some (copy_in b.cells ofs len (λ i. b.cells (from + i)))
    else none

unfoldable pub mbuf_cut : MBuf → ℕ → ℕ → Option (Bool × MBuf)
mbuf_cut b ofs len =
    if b.reader
    then some (false, b)
    else if ltb (add32 ofs len) b.write_pos
    then (let endofs = add32 ofs len in
        move_bytes b ofs endofs (sub32 b.write_pos endofs) >>= λ moved.
        some (true, record b { cells = moved; write_pos = sub32 b.write_pos len }))
    else if ltb ofs b.write_pos
    then some (true, record b { write_pos = ofs })
    else some (true, b)

unfoldable pub mbuf_copy : MBuf → MBuf
mbuf_copy src = src

-- The source, and the reader of its next `len` bytes, over the same memory.
unfoldable pub mbuf_slice : MBuf → ℕ → Option MBuf × MBuf
mbuf_slice src len = if ltb (mbuf_avail_for_read src) len then (none, src) else (
  some (mbuf_init_fixed_reader (λ i. src.cells (src.read_pos + i)) src.present len),
  record src { read_pos = add32 src.read_pos len },
)

-- `memcmp` of `n` bytes is 0.
unfoldable pub same_bytes : ℕ → (ℕ → ℕ) → (ℕ → ℕ) → Bool
same_bytes zero f g = true
same_bytes (suc n) f g = f 0 == g 0 && same_bytes n (λ i. f (suc i)) (λ i. g (suc i))

-- `none` is a NULL pointer, and `alias` says that the two pointers are equal.
unfoldable pub mbuf_eq : (alias : Bool) → Option MBuf → Option MBuf → Bool
mbuf_eq true b1 b2 = true
mbuf_eq false none b2 = false
mbuf_eq false (some b1) none = false
mbuf_eq false (some b1) (some b2) =
    if not (mbuf_written b1 == mbuf_written b2)
    then false
    else same_bytes (mbuf_written b1) b1.cells b2.cells

-- The asciiz string is its bytes before the NUL.
unfoldable pub mbuf_eq_str : Option MBuf → List ℕ → Bool
mbuf_eq_str b1 s =
    let at : ℕ → ℕ = λ i. elim (get_elem? s i) [ none ↦ 0 | some c ↦ c ] in
    mbuf_eq false b1 (some (mbuf_init_fixed_reader at true (length s)))
