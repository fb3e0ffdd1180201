-- ===== src/Mbuf/Moving.antt =====
-- usual/mbuf.h: bytes moved from one buffer to another, and strings read from a buffer.
use libusual_archive.Base.{
  ℕ, zero, suc, ◌+◌, ◌-◌, ◌≤◌, ◌<◌, ◌^◌, ◌≡◌, ◌≢◌, refl, ap, subst, Bool, true, false, arith, ltb,
  ◌==◌, ◌⊎◌, inl, inr, Bool-cases, ◌++◌, some, none, Returns, Returns-bind,
}
use libusual_archive.Base.Word.{sub32}
use libusual_archive.Mbuf.State.{MBuf, load, mbuf_avail_for_read}
use libusual_archive.Mbuf.Read.{find_nul, mbuf_get_string}
use libusual_archive.Mbuf.Write.{hand_over, mbuf_write_mbuf}
use libusual_archive.Mbuf.View.{bytes, unread, IsValid, bytes_agree}
use libusual_archive.Mbuf.Reading.{skip, mbuf_get_bytes_lem}
use libusual_archive.Mbuf.Writing.{Appended, mbuf_write_lem}

-- The next `len` unread bytes of `src` have gone to the end of `dst`.
pub record Moved (dst src : MBuf) (len : ℕ) (dst' src' : MBuf) : Type 0 where
  pub written : Appended dst (bytes src.cells src.read_pos len) dst'
  pub consumed : unread src ≡ bytes src.cells src.read_pos len ++ unread src'
  pub valid : IsValid src'

abbrev MovedOrKept : MBuf → MBuf → ℕ → Bool × MBuf × MBuf → Type 0
MovedOrKept dst src len r =
    (r.0 ≡ true) × Moved dst src len r.1 r.2 ⊎ (r.0 ≡ false) × (r.1 ≡ dst) × (r.2 ≡ src)

restored :
    (src : MBuf) (len : ℕ)
    → src.read_pos + len < 2 ^ 32
    → record src { read_pos = sub32 (src.read_pos + len) len } ≡ src
restored src len fits =
    let e : sub32 (src.read_pos + len) len ≡ src.read_pos = omega arith in
    ap (λ n. record src { read_pos = n }) e

-- For up to 2^30 bytes in all mbuf_write_mbuf ends, and either moves the next `len` unread bytes of one buffer
-- to the end of the other and returns true, or returns false and leaves both as they were.
pub mbuf_write_mbuf_lem :
    (granted : Bool) (dst src : MBuf) (len : ℕ)
    → IsValid dst
    → IsValid src
    → dst.write_pos + len ≤ 2 ^ 30
    → Returns
        (λ r. (r.0 ≡ true) × Moved dst src len r.1 r.2 ⊎ (r.0 ≡ false) × (r.1 ≡ dst) × (r.2 ≡ src))
        (mbuf_write_mbuf granted dst src len)
unfolding mbuf_write_mbuf hand_over
mbuf_write_mbuf_lem granted dst src len vd vs small =
    let fits : src.read_pos + len < 2 ^ 32 = omega (arith, vs.cursors, vs.inside, vs.small) in
    elim (mbuf_get_bytes_lem src len vs fits) [
      | inl (short, e) ↦ rw e ((false, dst, src), refl, inr (refl, refl, refl))
      | inr (e, split, v') ↦ rw e (
          Returns-bind
            (mbuf_write_lem granted dst (λ i. src.cells (src.read_pos + i)) len vd
              (λ i. vs.byte (src.read_pos + i)) small)
            λ (done, dst') w. elim w [
              | inl (yes', a) ↦ rw yes' (
                (true, dst', skip src len),
                refl,
                inl (
                  refl,
                  record {
                    written =
                        subst (λ t. Appended dst t dst')
                          (bytes_agree (λ i. src.cells (src.read_pos + i)) src.cells 0 src.read_pos
                            len (λ i hi. ground arith))
                          a;
                    consumed = split;
                    valid = v';
                  },
                ),
              )
              | inr (no', kept, full, why) ↦ rw no' (
                (false, dst', record src { read_pos = sub32 (src.read_pos + len) len }),
                refl,
                inr (refl, kept, restored src len fits),
              )
            ])
    ]

abbrev pub NoNul : (ℕ → ℕ) → ℕ → ℕ → Type 0
NoNul f i n = (j : ℕ) → i ≤ j → j < i + n → f j ≢ 0

-- `memchr` finds the first zero byte.
find_nul_lem :
    (b : MBuf) (n i : ℕ)
    → i + n ≤ b.alloc_len
    → (find_nul b n i ≡ some none) × NoNul b.cells i n
      ⊎ ((p : ℕ) × (find_nul b n i ≡ some (some p))
          × (i ≤ p)
          × (p < i + n)
          × (b.cells p ≡ 0)
          × NoNul b.cells i (p - i))
unfolding find_nul load
find_nul_lem b zero i h = inl (refl, λ j p q. absurd (omega arith))
find_nul_lem b (suc n) i h =
    let inside : ltb i b.alloc_len ≡ true = ground arith in
    elim (Bool-cases (b.cells i == 0)) [
      | inl nul ↦ inr (
        i,
        rw (inside, nul),
        omega arith,
        omega arith,
        ground arith,
        λ j p q. absurd (omega arith),
      )
      | inr more ↦ elim (find_nul_lem b n (i + 1) (omega arith)) [
        | inl (e, none') ↦ inl (rw (inside, more) e, λ j p q. ground (arith, none' j))
        | inr (p, e, lo, hi, z, before) ↦
            inr (
              p,
              rw (inside, more) e,
              omega arith,
              omega arith,
              z,
              λ j q r. ground (arith, before j),
            )
      ]
    ]

-- mbuf_get_string returns false, changing nothing, if no NUL is unread; else it returns the read cursor as the start of the string
-- and moves it past the first unread NUL.
pub mbuf_get_string_lem :
    (b : MBuf)
    → IsValid b
    → (mbuf_get_string b ≡ some (none, b)) × NoNul b.cells b.read_pos (b.write_pos - b.read_pos)
      ⊎ ((n : ℕ) × (mbuf_get_string b ≡ some (some b.read_pos, skip b (n + 1)))
          × (b.read_pos + n < b.write_pos)
          × (b.cells (b.read_pos + n) ≡ 0)
          × NoNul b.cells b.read_pos n)
unfolding mbuf_get_string mbuf_avail_for_read
mbuf_get_string_lem b v =
    let count : sub32 b.write_pos b.read_pos ≡ b.write_pos - b.read_pos =
      omega (arith, v.cursors, v.inside, v.small) in
    elim (find_nul_lem b (b.write_pos - b.read_pos) b.read_pos
      (omega (arith, v.cursors, v.inside))) [
        | inl (e, absent) ↦ inl (rw (count, e), absent)
        | inr (p, e, lo, hi, z, before) ↦
            let place : b.read_pos + (p - b.read_pos) ≡ p = omega arith in
            let next : b.read_pos + (p - b.read_pos + 1) ≡ p + 1 = omega arith in
            inr (
              p - b.read_pos,
              rw (count, e, next),
              rw place (omega (arith, hi)),
              rw place z,
              before,
            )
      ]
