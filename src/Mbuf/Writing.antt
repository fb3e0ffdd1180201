-- ===== src/Mbuf/Writing.antt =====
-- usual/mbuf.h: what the writing functions append, and what `mbuf_cut` removes.
use libusual_archive.Base.{
  ℕ, ◌+◌, ◌-◌, ◌≤◌, ◌<◌, ◌^◌, ◌≡◌, refl, ap, ◌∙◌, Bool, true, false, arith, leb, ◌||◌, ◌⊎◌, inl,
  inr, Bool-cases, Returns, Returns-bind, ◌++◌, List,
}
use libusual_archive.Base.Word.{add32}
use libusual_archive.Mbuf.State.{MBuf}
use libusual_archive.Mbuf.Write.{copy_in, store, mbuf_write, mbuf_write_byte}
use libusual_archive.Mbuf.View.{
  bytes, contents, unread, IsValid, bytes-add, bytes-copy_in, bytes-copy_in_before,
}
use libusual_archive.Mbuf.Growing.{Ready, ensure_room-Ready}

-- `b'` is `b` with more bytes at the end.
pub record Appended (b : MBuf) (more : List ℕ) (b' : MBuf) : Type 0 where
  pub valid : IsValid b'
  pub cursor : b'.read_pos ≡ b.read_pos
  pub flags : (b'.reader || b'.fixed) ≡ (b.reader || b.fixed)
  pub all : contents b' ≡ contents b ++ more
  pub ahead : unread b' ≡ unread b ++ more

-- The outcome of a writing function.
abbrev pub Wrote : Bool → MBuf → List ℕ → ℕ → Bool × MBuf → Type 0
Wrote granted b more len r =
    (r.0 ≡ true) × Appended b more r.1
    ⊎ (r.0 ≡ false)
      × (r.1 ≡ b)
      × (b.alloc_len < b.write_pos + len)
      × ((b.reader || b.fixed) ≡ true ⊎ granted ≡ false)

-- A store behind a stretch of memory adds to it.
pub stored_range :
    (f src : ℕ → ℕ) (s n w len : ℕ)
    → s + n ≡ w
    → bytes (copy_in f w len src) s (n + len) ≡ bytes f s n ++ bytes src 0 len
stored_range f src s n w len place = rw (
  bytes-add (copy_in f w len src) s n len,
  place,
  bytes-copy_in f src w len,
  bytes-copy_in_before f src w len s n (omega arith),
)

store-Appended :
    (b : MBuf) (len : ℕ) (src : ℕ → ℕ)
    → IsValid b
    → b.write_pos + len ≤ b.alloc_len
    → ((i : ℕ) → src i < 256)
    → Returns (Appended b (bytes src 0 len)) (store b len src)
unfolding store contents unread
store-Appended b len src v fits byte =
    let inside : leb (b.write_pos + len) b.alloc_len ≡ true = ground arith in
    let sum : add32 b.write_pos len ≡ b.write_pos + len = omega (arith, v.small) in
    let later : b.write_pos + len - b.read_pos ≡ b.write_pos - b.read_pos + len =
      omega (arith, v.cursors) in
    rw (inside, sum)
      (
        record b { cells = copy_in b.cells b.write_pos len src; write_pos = b.write_pos + len },
        refl,
        record {
          valid = record {
            cursors = omega (arith, v.cursors);
            inside = fits;
            small = v.small;
            byte = λ i. ground (arith, byte (i - b.write_pos), v.byte i);
          };
          cursor = refl;
          flags = refl;
          all = stored_range b.cells src 0 b.write_pos b.write_pos len (omega arith);
          ahead = rw later (
              stored_range b.cells src b.read_pos (b.write_pos - b.read_pos) b.write_pos len
                (omega (arith, v.cursors)));
        },
      )

-- What holds of the buffer after `ensure_room` holds of the one before.
Appended-Ready :
    (granted : Bool) (b : MBuf) (len : ℕ) (done : Bool) (b' : MBuf) (more : List ℕ) (b'' : MBuf)
    → Ready granted b len done b'
    → Appended b' more b''
    → Appended b more b''
unfolding contents unread
Appended-Ready granted b len done b' more b'' r a = record {
  valid = a.valid;
  cursor = a.cursor ∙ ap (λ t. t.read_pos) r.kept;
  flags = a.flags ∙ ap (λ t. t.reader || t.fixed) r.kept;
  all = a.all ∙ ap (λ t. contents t ++ more) r.kept;
  ahead = a.ahead ∙ ap (λ t. unread t ++ more) r.kept;
}

-- For up to 2^30 bytes in all mbuf_write ends, and either appends exactly the given bytes to the contents and to what is
-- unread, and returns true, or returns false and leaves the buffer unchanged; it returns false only if the bytes do not
-- fit and the buffer is fixed, is a reader, or cannot get memory.
pub mbuf_write_lem :
    (granted : Bool) (b : MBuf) (ptr : ℕ → ℕ) (len : ℕ)
    → IsValid b
    → ((i : ℕ) → ptr i < 256)
    → b.write_pos + len ≤ 2 ^ 30
    → Returns (Wrote granted b (bytes ptr 0 len) len) (mbuf_write granted b ptr len)
unfolding mbuf_write
mbuf_write_lem granted b ptr len v byte small =
    Returns-bind (ensure_room-Ready granted b len v small) (λ (done, b') r. elim (Bool-cases done) [
      | inl go ↦ rw go (
          Returns-bind
            (store-Appended b' len ptr r.valid
              (omega (arith, ap (λ (t : MBuf). t.write_pos) r.kept, r.room go)) byte)
            λ b'' a.
              ((true, b''), refl, inl (refl, Appended-Ready granted b len done b' _ b'' r a)))
      | inr stop ↦ rw stop (
        (false, b'),
        refl,
        inr (refl, (r.refused stop).0, (r.refused stop).1, (r.refused stop).2),
      )
    ])

-- mbuf_write_byte is mbuf_write of one byte, and mbuf_fill of a repeated one.
pub mbuf_write_byte-write :
    (granted : Bool) (b : MBuf) (val : ℕ)
    → mbuf_write_byte granted b val ≡ mbuf_write granted b (λ _. val) 1
unfolding mbuf_write_byte mbuf_write
mbuf_write_byte-write granted b val = refl
