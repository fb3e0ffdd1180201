-- ===== src/Mbuf/State.antt =====
-- usual/mbuf.h: the buffer, its initialisation and its cursors.
use libusual_archive.Base.{ℕ, Bool, true, false, not, ◌&&◌, Option, none, some, ltb, if◌then◌else◌}
use libusual_archive.Base.Word.{sub32}

-- `struct MBuf`. `cells` is the memory at `data`, of which `alloc_len` bytes may be accessed, and
-- `present` says that `data` is not NULL. Pointers into the memory are offsets from `data`.
pub record MBuf : Type 0 where
  pub cells : ℕ → ℕ
  pub present : Bool
  pub read_pos : ℕ
  pub write_pos : ℕ
  pub alloc_len : ℕ
  pub reader : Bool
  pub fixed : Bool

unfoldable pub mbuf_init_fixed_reader : (ℕ → ℕ) → Bool → ℕ → MBuf
mbuf_init_fixed_reader ptr present len = record {
  cells = ptr;
  present = present;
  read_pos = 0;
  write_pos = len;
  alloc_len = len;
  reader = true;
  fixed = true;
}

unfoldable pub mbuf_init_fixed_writer : (ℕ → ℕ) → Bool → ℕ → MBuf
mbuf_init_fixed_writer ptr present len = record {
  cells = ptr;
  present = present;
  read_pos = 0;
  write_pos = 0;
  alloc_len = len;
  reader = false;
  fixed = true;
}

-- What the memory would hold once there is some is the argument.
unfoldable pub mbuf_init_dynamic : (ℕ → ℕ) → MBuf
mbuf_init_dynamic later = record {
  cells = later;
  present = false;
  read_pos = 0;
  write_pos = 0;
  alloc_len = 0;
  reader = false;
  fixed = false;
}

-- The memory itself is given back to `free` unless it is fixed; the structure is zeroed.
unfoldable pub mbuf_free : MBuf → MBuf
mbuf_free b = if b.present then mbuf_init_dynamic b.cells else b

unfoldable pub mbuf_rewind_reader : MBuf → MBuf
mbuf_rewind_reader b = record b { read_pos = 0 }

unfoldable pub mbuf_rewind_writer : MBuf → MBuf
mbuf_rewind_writer b = if not b.reader then record b { read_pos = 0; write_pos = 0 } else b

unfoldable pub mbuf_avail_for_read : MBuf → ℕ
mbuf_avail_for_read b = sub32 b.write_pos b.read_pos

unfoldable pub mbuf_avail_for_write : MBuf → ℕ
mbuf_avail_for_write b =
    if not b.reader && ltb b.write_pos b.alloc_len then sub32 b.alloc_len b.write_pos else 0

unfoldable pub mbuf_written : MBuf → ℕ
mbuf_written b = b.write_pos

unfoldable pub mbuf_consumed : MBuf → ℕ
mbuf_consumed b = b.read_pos

-- `buf->data[i]`, a fault outside the memory.
unfoldable pub load : MBuf → ℕ → Option ℕ
load b i = if ltb i b.alloc_len then some (b.cells i) else none
