-- ===== src/Mbuf/Tests.antt =====
-- Runs of usual/mbuf.h, and its theorems at concrete buffers.
use libusual_archive.Base.{
  ◌*◌, ◌%◌, ◌≡◌, refl, true, false, arith, leb, if◌then◌else◌, ◌⊎◌, some, none, Returns,
}
use libusual_archive.Mbuf.State.{MBuf, load}
use libusual_archive.Mbuf.Read.{mbuf_get_uint16be, mbuf_get_uint64be}
use libusual_archive.Mbuf.Write.{ensure_room, mbuf_write, mbuf_cut}
use libusual_archive.Mbuf.View.{bytes, IsValid}
use libusual_archive.Mbuf.Reading.{big_endian, skip, mbuf_get_uint64be_lem}
use libusual_archive.Mbuf.Growing.{Ready, ensure_room-Ready}
use libusual_archive.Mbuf.Writing.{Wrote, mbuf_write_lem}
use libusual_archive.Mbuf.Cutting.{IsCut, mbuf_cut_lem}

-- Twelve bytes written to 128, of which two have been read.
abbrev sample : MBuf
sample = record {
  cells = λ i. (i * 3) % 256;
  present = true;
  read_pos = 2;
  write_pos = 12;
  alloc_len = 128;
  reader = false;
  fixed = false;
}

sample-IsValid : IsValid sample
sample-IsValid = record {
  cursors = omega arith;
  inside = omega arith;
  small = omega arith;
  byte = λ i. omega arith;
}

read_run : mbuf_get_uint16be sample ≡ some (some 0x609, skip sample 2)
unfolding mbuf_get_uint16be load
read_run = refl

mbuf_get_uint64be_lem_example :
    mbuf_get_uint64be sample
    ≡ some (
        if leb 10 12
        then (some (big_endian 0 (bytes sample.cells 2 8)), skip sample 8)
        else (none, if leb 6 12 then skip sample 4 else sample))
mbuf_get_uint64be_lem_example = mbuf_get_uint64be_lem sample sample-IsValid

ensure_room-Ready_example :
    Returns (λ r. Ready true sample 500 r.0 r.1) (ensure_room true sample 500)
ensure_room-Ready_example = ensure_room-Ready true sample 500 sample-IsValid (omega arith)

mbuf_write_lem_example :
    Returns (Wrote true sample (bytes (λ i. 7) 0 500) 500) (mbuf_write true sample (λ i. 7) 500)
mbuf_write_lem_example =
    mbuf_write_lem true sample (λ i. 7) 500 sample-IsValid (λ i. omega arith) (omega arith)

-- Another buffer, with nothing read.
abbrev target : MBuf
target = record sample { read_pos = 0; write_pos = 4 }

target-IsValid : IsValid target
target-IsValid = record {
  cursors = omega arith;
  inside = omega arith;
  small = omega arith;
  byte = λ i. omega arith;
}

mbuf_cut_lem_example :
    (sample.reader ≡ true) × (mbuf_cut sample 3 4 ≡ some (false, sample))
    ⊎ (sample.reader ≡ false) × Returns (IsCut sample 3 4) (mbuf_cut sample 3 4)
mbuf_cut_lem_example = mbuf_cut_lem sample 3 4 sample-IsValid (omega arith)
