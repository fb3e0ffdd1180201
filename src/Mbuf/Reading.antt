-- ===== src/Mbuf/Reading.antt =====
-- usual/mbuf.h: what the reading functions return and consume.
use Prim.Native.Nat.{bit_or}
use libusual_archive.Base.{
  ℕ, ◌+◌, ◌-◌, ◌*◌, ◌%◌, ◌≤◌, ◌<◌, ◌^◌, ◌≡◌, refl, ap, ◌∙◌, sym, true, false, List, [], ◌∷◌, ◌++◌,
  arith, length, ltb, leb, if◌then◌else◌, none, some, ◌⊎◌, inl, inr, Bool-cases,
}
use native.Mathlib.Nat.{zero-add}
use libusual_archive.Base.Word.{add32}
use libusual_archive.Base.Bits.{bit_or-fields}
use libusual_archive.Mbuf.State.{MBuf, load}
use libusual_archive.Mbuf.Read.{
  shl32, mbuf_get_uint16be, mbuf_get_uint32be, mbuf_get_uint64be, mbuf_get_bytes,
}
use libusual_archive.Mbuf.View.{bytes, unread, IsValid, length-bytes, bytes-add}

-- A list of bytes as a number, the first byte the highest.
unfoldable pub big_endian : ℕ → List ℕ → ℕ
big_endian acc [] = acc
big_endian acc (x ∷ xs) = big_endian (acc * 256 + x) xs

-- The buffer after `n` bytes are read.
abbrev pub skip : MBuf → ℕ → MBuf
skip b n = record b { read_pos = b.read_pos + n }

join_two : (a b : ℕ) → a < 256 → b < 256 → bit_or (shl32 a 8) b % 2 ^ 16 ≡ a * 256 + b
join_two a b ha hb = ground (arith, bit_or-fields 8 a b)

join_four :
    (a b c d : ℕ)
    → a < 256
    → b < 256
    → c < 256
    → d < 256
    → bit_or (bit_or (bit_or (shl32 a 24) (shl32 b 16)) (shl32 c 8)) d
      ≡ ((a * 256 + b) * 256 + c) * 256 + d
join_four a b c d ha hb hc hd =
    let e1 : (a * 2 ^ 24) % 2 ^ 32 ≡ a * 2 ^ 24 = omega arith in
    let e2 : (b * 2 ^ 16) % 2 ^ 32 ≡ b * 2 ^ 16 = omega arith in
    let e3 : (c * 2 ^ 8) % 2 ^ 32 ≡ c * 2 ^ 8 = omega arith in
    let f1 : a * 2 ^ 24 + b * 2 ^ 16 ≡ (a * 256 + b) * 2 ^ 16 = omega arith in
    let f2 : (a * 256 + b) * 2 ^ 16 + c * 2 ^ 8 ≡ ((a * 256 + b) * 256 + c) * 2 ^ 8 = omega arith in
    rw
      (
        e1,
        e2,
        e3,
        bit_or-fields 24 a (b * 2 ^ 16) (omega arith),
        f1,
        bit_or-fields 16 (a * 256 + b) (c * 2 ^ 8) (omega arith),
        f2,
        bit_or-fields 8 ((a * 256 + b) * 256 + c) d hd,
      )
      (omega arith)

load_lem : (b : MBuf) (i : ℕ) → i < b.alloc_len → load b i ≡ some (b.cells i)
unfolding load
load_lem b i h = ground arith

-- mbuf_get_uint16be returns the next two bytes, the first the higher, or false if there are not two.
pub mbuf_get_uint16be_lem :
    (b : MBuf)
    → IsValid b
    → mbuf_get_uint16be b
      ≡ some (
          if leb (b.read_pos + 2) b.write_pos
          then (some (big_endian 0 (bytes b.cells b.read_pos 2)), skip b 2)
          else (none, b))
unfolding mbuf_get_uint16be load bytes big_endian
mbuf_get_uint16be_lem b v = ground (
  arith,
  join_two (b.cells b.read_pos) (b.cells (b.read_pos + 1)),
  v.byte b.read_pos,
  v.byte (b.read_pos + 1),
)

-- mbuf_get_uint32be returns the next four bytes, the first the highest, or false if there are not four.
pub mbuf_get_uint32be_lem :
    (b : MBuf)
    → IsValid b
    → mbuf_get_uint32be b
      ≡ some (
          if leb (b.read_pos + 4) b.write_pos
          then (some (big_endian 0 (bytes b.cells b.read_pos 4)), skip b 4)
          else (none, b))
unfolding mbuf_get_uint32be bytes big_endian
mbuf_get_uint32be_lem b v = elim (Bool-cases (leb (b.read_pos + 4) b.write_pos)) [
  | inl room ↦
      let fits : b.read_pos + 4 ≤ b.write_pos = ground arith in
      let a0 : ltb b.write_pos (add32 b.read_pos 4) ≡ false = ground arith in
      let a1 : add32 b.read_pos 1 ≡ b.read_pos + 1 = omega arith in
      let a2 : add32 b.read_pos 2 ≡ b.read_pos + 1 + 1 = omega arith in
      let a3 : add32 b.read_pos 3 ≡ b.read_pos + 1 + 1 + 1 = omega arith in
      let a4 : add32 b.read_pos 4 ≡ b.read_pos + 4 = omega arith in
      rw (
        room,
        a0,
        a1,
        a2,
        a3,
        a4,
        load_lem b b.read_pos (omega arith),
        load_lem b (b.read_pos + 1) (omega arith),
        load_lem b (b.read_pos + 1 + 1) (omega arith),
        load_lem b (b.read_pos + 1 + 1 + 1) (omega arith),
        join_four (b.cells b.read_pos) (b.cells (b.read_pos + 1)) (b.cells (b.read_pos + 1 + 1))
            (b.cells (b.read_pos + 1 + 1 + 1)) (v.byte _) (v.byte _) (v.byte _) (v.byte _),
        zero-add,
      )
  | inr short ↦
      let a0 : ltb b.write_pos (add32 b.read_pos 4) ≡ true = ground arith in rw (a0, short)
]

big_endian_fits : (f : ℕ → ℕ) (s : ℕ) → ((i : ℕ) → f i < 256) → big_endian 0 (bytes f s 4) < 2 ^ 32
unfolding big_endian bytes
big_endian_fits f s h = omega (arith, h s, h (s + 1), h (s + 1 + 1), h (s + 1 + 1 + 1))

big_endian-append :
    (acc : ℕ) (xs ys : List ℕ) → big_endian acc (xs ++ ys) ≡ big_endian (big_endian acc xs) ys
unfolding big_endian
big_endian-append acc [] ys = refl
big_endian-append acc (x ∷ xs) ys = big_endian-append (acc * 256 + x) xs ys

big_endian_from :
    (acc : ℕ) (f : ℕ → ℕ) (s : ℕ)
    → big_endian acc (bytes f s 4) ≡ acc * 2 ^ 32 + big_endian 0 (bytes f s 4)
unfolding big_endian bytes
big_endian_from acc f s = omega arith

join_eight :
    (f : ℕ → ℕ) (s : ℕ)
    → ((i : ℕ) → f i < 256)
    → bit_or (big_endian 0 (bytes f s 4) * 2 ^ 32) (big_endian 0 (bytes f (s + 4) 4))
      ≡ big_endian 0 (bytes f s 8)
join_eight f s h =
    bit_or-fields 32 (big_endian 0 (bytes f s 4)) (big_endian 0 (bytes f (s + 4) 4))
      (big_endian_fits f (s + 4) h)
    ∙ sym (big_endian_from (big_endian 0 (bytes f s 4)) f (s + 4))
    ∙ sym (
        ap (big_endian 0) (bytes-add f s 4 4)
        ∙ big_endian-append 0 (bytes f s 4) (bytes f (s + 4) 4))

-- mbuf_get_uint64be returns the next eight bytes, the first the highest. If there are only four to
-- seven it returns false and has consumed four of them; if there are fewer it consumes none.
pub mbuf_get_uint64be_lem :
    (b : MBuf)
    → IsValid b
    → mbuf_get_uint64be b
      ≡ some (
          if leb (b.read_pos + 8) b.write_pos
          then (some (big_endian 0 (bytes b.cells b.read_pos 8)), skip b 8)
          else (none, if leb (b.read_pos + 4) b.write_pos then skip b 4 else b))
unfolding mbuf_get_uint64be
mbuf_get_uint64be_lem b v = elim (Bool-cases (leb (b.read_pos + 4) b.write_pos)) [
  | inl room ↦
      let v' : IsValid (skip b 4) = record {
        cursors = ground arith;
        inside = v.inside;
        small = v.small;
        byte = v.byte;
      } in
      rw (mbuf_get_uint32be_lem b v, room, mbuf_get_uint32be_lem (skip b 4) v')
        (elim (Bool-cases (leb (b.read_pos + 4 + 4) b.write_pos)) [
          | inl more ↦
              let a0 : leb (b.read_pos + 8) b.write_pos ≡ true = ground arith in
              let a1 : b.read_pos + 4 + 4 ≡ b.read_pos + 8 = omega arith in
              rw (more, a0, a1, join_eight b.cells b.read_pos v.byte)
          | inr less ↦
              let a0 : leb (b.read_pos + 8) b.write_pos ≡ false = ground arith in rw (less, a0)
        ])
  | inr short ↦
      let a0 : leb (b.read_pos + 8) b.write_pos ≡ false = ground arith in
      rw (mbuf_get_uint32be_lem b v, short, a0)
]

-- mbuf_get_bytes returns false and changes nothing if fewer than `len` bytes are unread; else it
-- returns where the next `len` of them stand, and they are no longer unread. The lengths add up
-- without overflow.
pub mbuf_get_bytes_lem :
    (b : MBuf) (len : ℕ)
    → IsValid b
    → b.read_pos + len < 2 ^ 32
    → (length (unread b) < len) × (mbuf_get_bytes b len ≡ (none, b))
      ⊎ (mbuf_get_bytes b len ≡ (some b.read_pos, skip b len))
        × (unread b ≡ bytes b.cells b.read_pos len ++ unread (skip b len))
        × IsValid (skip b len)
unfolding mbuf_get_bytes unread
mbuf_get_bytes_lem b len v small = elim (Bool-cases (leb (b.read_pos + len) b.write_pos)) [
  | inl room ↦
      let a0 : ltb b.write_pos (add32 b.read_pos len) ≡ false = ground arith in
      let a1 : add32 b.read_pos len ≡ b.read_pos + len = omega arith in
      let total : b.write_pos - b.read_pos ≡ len + (b.write_pos - (b.read_pos + len)) =
        ground arith in
      inr (
        rw (a0, a1),
        rw total (bytes-add b.cells b.read_pos len (b.write_pos - (b.read_pos + len))),
        record { cursors = ground arith; inside = v.inside; small = v.small; byte = v.byte },
      )
  | inr short ↦
      let a0 : ltb b.write_pos (add32 b.read_pos len) ≡ true = ground arith in
      inl (ground (arith, length-bytes b.cells b.read_pos (b.write_pos - b.read_pos)), rw a0)
]

-- With a length that makes the sum overflow, mbuf_get_bytes returns true although fewer than `len`
-- bytes are unread, and moves the read cursor back.
pub mbuf_get_bytes_overflow :
    (b : MBuf) (len : ℕ)
    → IsValid b
    → len < 2 ^ 32
    → 2 ^ 32 ≤ b.read_pos + len
    → (length (unread b) < len)
      × (mbuf_get_bytes b len
          ≡ (some b.read_pos, record b { read_pos = b.read_pos + len - 2 ^ 32 }))
unfolding mbuf_get_bytes unread
mbuf_get_bytes_overflow b len v small over =
    let a0 : ltb b.write_pos (add32 b.read_pos len) ≡ false = ground arith in
    let a1 : add32 b.read_pos len ≡ b.read_pos + len - 2 ^ 32 = omega arith in
    (ground (arith, length-bytes b.cells b.read_pos (b.write_pos - b.read_pos)), rw (a0, a1))
