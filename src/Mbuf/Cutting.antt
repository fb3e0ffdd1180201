-- ===== src/Mbuf/Cutting.antt =====
-- usual/mbuf.h: `mbuf_cut`.
use libusual_archive.Base.{
  ℕ, ◌+◌, ◌-◌, ◌≤◌, ◌<◌, ◌^◌, ◌≡◌, refl, ap, ◌∙◌, sym, true, false, arith, ltb, ◌⊎◌, inl, inr,
  Bool-cases, ◌++◌, List, [], Bool, some, leb, Returns,
}
use Prim.Native.Nat.{min}
use libusual_archive.Base.Word.{add32, sub32}
use libusual_archive.Mbuf.State.{MBuf, mbuf_avail_for_read}
use libusual_archive.Mbuf.Write.{copy_in, move_bytes, mbuf_cut}
use mathlib.Core.List.{append-nil}
use libusual_archive.Mbuf.Writing.{stored_range}
use libusual_archive.Mbuf.View.{bytes, contents, IsValid, bytes_agree}

-- The bytes before the cut and those after it.
abbrev pub outside_cut : MBuf → ℕ → ℕ → List ℕ
outside_cut b ofs len =
    bytes b.cells 0 (min ofs b.write_pos) ++ bytes b.cells (ofs + len) (b.write_pos - (ofs + len))

bytes-zero : (f : ℕ → ℕ) (s n : ℕ) → n ≡ 0 → bytes f s n ≡ []
unfolding bytes
bytes-zero f s n e = rw e

closed_up :
    (f : ℕ → ℕ) (ofs len w : ℕ)
    → ofs + len < w
    → bytes (copy_in f ofs (w - (ofs + len)) (λ i. f (ofs + len + i))) 0 (w - len)
      ≡ bytes f 0 (min ofs w) ++ bytes f (ofs + len) (w - (ofs + len))
closed_up f ofs len w h =
    let total : w - len ≡ ofs + (w - (ofs + len)) = omega arith in
    let front : min ofs w ≡ ofs = omega arith in
    rw (total, front)
      (stored_range f (λ i. f (ofs + len + i)) 0 ofs ofs (w - (ofs + len)) (omega arith)
        ∙ ap (λ t. bytes f 0 ofs ++ t)
            (bytes_agree (λ i. f (ofs + len + i)) f 0 (ofs + len) (w - (ofs + len))
              (λ i hi. ground arith)))

cut_short :
    (f : ℕ → ℕ) (ofs len w n : ℕ)
    → w ≤ ofs + len
    → n ≡ min ofs w
    → bytes f 0 n ≡ bytes f 0 (min ofs w) ++ bytes f (ofs + len) (w - (ofs + len))
cut_short f ofs len w n h e =
    rw (e, bytes-zero f (ofs + len) (w - (ofs + len)) (omega arith)) (sym (append-nil _))

abbrev pub IsCut : MBuf → ℕ → ℕ → Bool × MBuf → Type 0
IsCut b ofs len (ok, b') =
    (ok ≡ true)
    × (contents b' ≡ outside_cut b ofs len)
    × (b'.read_pos ≡ b.read_pos)
    × (b'.alloc_len ≡ b.alloc_len)

moved_inside :
    (b : MBuf) (ofs len : ℕ)
    → b.write_pos ≤ b.alloc_len
    → ofs + len < b.write_pos
    → move_bytes b ofs (ofs + len) (b.write_pos - (ofs + len))
      ≡ some (copy_in b.cells ofs (b.write_pos - (ofs + len)) (λ i. b.cells (ofs + len + i)))
unfolding move_bytes
moved_inside b ofs len v h =
    let to : leb (ofs + (b.write_pos - (ofs + len))) b.alloc_len ≡ true = ground arith in
    let from : leb (ofs + len + (b.write_pos - (ofs + len))) b.alloc_len ≡ true = ground arith in
    rw (to, from) refl

-- On a buffer that is no reader mbuf_cut takes exactly the given stretch out of the contents, as
-- far as there are any, and keeps the read cursor, with no access outside the allocation; on a reader it returns false and changes nothing. The lengths add up
-- without overflow.
pub mbuf_cut_lem :
    (b : MBuf) (ofs len : ℕ)
    → IsValid b
    → ofs + len < 2 ^ 32
    → (b.reader ≡ true) × (mbuf_cut b ofs len ≡ some (false, b))
      ⊎ (b.reader ≡ false) × Returns (IsCut b ofs len) (mbuf_cut b ofs len)
unfolding mbuf_cut contents
mbuf_cut_lem b ofs len v fits = elim (Bool-cases b.reader) [
  | inl reads ↦ rw reads (inl (refl, refl))
  | inr writes ↦
      let sum : add32 ofs len ≡ ofs + len = omega arith in
      elim (Bool-cases (ltb (ofs + len) b.write_pos)) [
        | inl inner ↦
            let rest : sub32 b.write_pos (ofs + len) ≡ b.write_pos - (ofs + len) = ground arith in
            let end : sub32 b.write_pos len ≡ b.write_pos - len = ground arith in
            rw (sum, rest, end, moved_inside b ofs len v.inside (ground arith), inner, writes)
              (inr (
                refl,
                (_, refl, (refl, closed_up b.cells ofs len b.write_pos (ground arith), refl, refl)),
              ))
        | inr tail ↦ elim (Bool-cases (ltb ofs b.write_pos)) [
          | inl some' ↦
              rw (writes, sum, tail, some')
                (inr (
                  refl,
                  (
                    _,
                    refl,
                    (
                      refl,
                      cut_short b.cells ofs len b.write_pos ofs (ground arith) (ground arith),
                      refl,
                      refl,
                    ),
                  ),
                ))
          | inr none' ↦
              rw (writes, sum, tail, none')
                (inr (
                  refl,
                  (
                    _,
                    refl,
                    (
                      refl,
                      cut_short b.cells ofs len b.write_pos b.write_pos (ground arith)
                          (ground arith),
                      refl,
                      refl,
                    ),
                  ),
                ))
        ]
      ]
]

-- If a cut reaches the end of the contents and begins before the read cursor, the read cursor is left past the write
-- cursor, and mbuf_avail_for_read wraps to a number near 2^32.
pub mbuf_cut_past_reader :
    (b : MBuf) (ofs len : ℕ)
    → IsValid b
    → ofs + len < 2 ^ 32
    → b.reader ≡ false
    → b.write_pos ≤ ofs + len
    → ofs < b.read_pos
    → Returns
        (λ (ok, b').
          (b'.write_pos < b'.read_pos) × (mbuf_avail_for_read b' ≡ 2 ^ 32 - (b.read_pos - ofs)))
        (mbuf_cut b ofs len)
unfolding mbuf_cut mbuf_avail_for_read
mbuf_cut_past_reader b ofs len v fits writes tail early =
    let sum : add32 ofs len ≡ ofs + len = omega arith in
    let t0 : ltb (ofs + len) b.write_pos ≡ false = ground arith in
    let t1 : ltb ofs b.write_pos ≡ true = ground arith in
    rw (writes, sum, t0, t1) (_, refl, (early, ground arith))
