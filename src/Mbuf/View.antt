-- ===== src/Mbuf/View.antt =====
-- usual/mbuf.h: a buffer seen as the list of the bytes written and of those still to be read.
use libusual_archive.Base.{
  ℕ, zero, suc, ◌+◌, ◌-◌, ◌≤◌, ◌<◌, ◌^◌, ◌≡◌, refl, ap, List, [], ◌∷◌, ◌++◌, arith, length,
}
use libusual_archive.Mbuf.State.{MBuf}
use libusual_archive.Mbuf.Write.{copy_in}

-- `n` bytes of memory from offset `s`.
unfoldable pub bytes : (ℕ → ℕ) → ℕ → ℕ → List ℕ
bytes f s zero = []
bytes f s (suc n) = f s ∷ bytes f (s + 1) n

-- The bytes written so far, and those of them not yet read.
unfoldable pub contents : MBuf → List ℕ
contents b = bytes b.cells 0 b.write_pos

unfoldable pub unread : MBuf → List ℕ
unread b = bytes b.cells b.read_pos (b.write_pos - b.read_pos)

-- The cursors are in order and inside the memory, and the memory holds bytes.
pub record IsValid (b : MBuf) : Type 0 where
  pub cursors : b.read_pos ≤ b.write_pos
  pub inside : b.write_pos ≤ b.alloc_len
  pub small : b.alloc_len ≤ 2 ^ 31
  pub byte : (i : ℕ) → b.cells i < 256

pub length-bytes : (f : ℕ → ℕ) (s n : ℕ) → length (bytes f s n) ≡ n
unfolding bytes
length-bytes f s zero = refl
length-bytes f s (suc n) = ap suc (length-bytes f (s + 1) n)

-- Memory that agrees, at two places.
pub bytes_agree :
    (f g : ℕ → ℕ) (s t n : ℕ)
    → ((i : ℕ) → i < n → f (s + i) ≡ g (t + i))
    → bytes f s n ≡ bytes g t n
unfolding bytes
bytes_agree f g s t zero h = refl
bytes_agree f g s t (suc n) h =
    ground (arith, h 0, bytes_agree f g (s + 1) (t + 1) n (λ i hi. ground (arith, h (suc i))))

pub bytes-add : (f : ℕ → ℕ) (s n m : ℕ) → bytes f s (n + m) ≡ bytes f s n ++ bytes f (s + n) m
unfolding bytes
bytes-add f s zero m = ground arith
bytes-add f s (suc n) m =
    let count : suc n + m ≡ suc (n + m) = omega arith in
    let place : s + suc n ≡ s + 1 + n = omega arith in
    rw (count, place) (ap (λ t. f s ∷ t) (bytes-add f (s + 1) n m))

-- What is stored is there afterwards, and nothing else has changed.
pub bytes-copy_in :
    (f src : ℕ → ℕ) (dst len : ℕ) → bytes (copy_in f dst len src) dst len ≡ bytes src 0 len
bytes-copy_in f src dst len = bytes_agree _ _ dst 0 len (λ i hi. ground arith)

pub bytes-copy_in_before :
    (f src : ℕ → ℕ) (dst len s n : ℕ)
    → s + n ≤ dst
    → bytes (copy_in f dst len src) s n ≡ bytes f s n
bytes-copy_in_before f src dst len s n h = bytes_agree _ _ s s n (λ i hi. ground arith)
