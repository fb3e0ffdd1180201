-- ===== src/SipHash/Message.antt =====
-- usual/hashing/siphash.c: siphash24 against the hash of the padded message, block after block.
use Prim.Native.Nat.{bit_xor}
use libusual_archive.Base.{
  ℕ, zero, suc, ◌+◌, ◌*◌, ◌/◌, ◌%◌, ◌^◌, ◌<◌, ◌≤◌, ◌≡◌, refl, sym, ap, ◌∙◌, arith, Bool, Bool-cases,
  inl, inr, List, [], ◌∷◌, ◌++◌, length,
}
use libusual_archive.Endian.Little.{bytes_at, le_value, le64dec_lem}
use libusual_archive.SipHash.{
  SipState, sip_start, sip_compress, sip_finalize, sip_blocks, sip_tail, siphash24, SipKeys,
  sip_keys, siphash24_secure,
}
use libusual_archive.Endian.{le64dec}
use libusual_archive.SipHash.Padding.{padding, last_word, length-bytes_at}

-- Eight bytes at a time, as long as there are eight.
unfoldable pub absorb : SipState → List ℕ → SipState
absorb v (a ∷ b ∷ c ∷ d ∷ e ∷ f ∷ g ∷ h ∷ rest) =
    absorb (sip_compress v (le_value (a ∷ b ∷ c ∷ d ∷ e ∷ f ∷ g ∷ h ∷ []))) rest
absorb v bytes = v

-- The bytes, zeros, and the lowest byte of their number, in whole blocks.
abbrev pub padded : List ℕ → List ℕ
padded bytes = bytes ++ padding (length bytes % 8) (length bytes % 256)

abbrev pub hash_of_padded : List ℕ → ℕ → ℕ → ℕ
hash_of_padded bytes k0 k1 =
    let v = sip_finalize (absorb (sip_start k0 k1) (padded bytes)) in
    bit_xor (bit_xor (bit_xor v.v0 v.v1) v.v2) v.v3

at_start :
    (mem : ℕ → ℕ) (v : SipState) (more : List ℕ) (a b n r : ℕ)
    → a ≡ b
    → n ≡ r
    → absorb v (bytes_at mem a n ++ more) ≡ absorb v (bytes_at mem b r ++ more)
at_start mem v more a b n r e f = rw (e, f) refl

absorb_block :
    (big : Bool) (v : SipState) (mem : ℕ → ℕ) (s n : ℕ) (more : List ℕ)
    → ((i : ℕ) → mem i < 2 ^ 8)
    → absorb v (bytes_at mem s (suc (suc (suc (suc (suc (suc (suc (suc n)))))))) ++ more)
      ≡ absorb (sip_compress v (le64dec big mem s)) (bytes_at mem (s + 8) n ++ more)
unfolding absorb
absorb_block big v mem s n more bytes =
    let there : s + 1 + 1 + 1 + 1 + 1 + 1 + 1 + 1 ≡ s + 8 = omega arith in
    ap (λ m. absorb (sip_compress v m) (bytes_at mem (s + 1 + 1 + 1 + 1 + 1 + 1 + 1 + 1) n ++ more))
      (sym (le64dec_lem big mem s bytes))
    ∙ ap (λ a. absorb (sip_compress v (le64dec big mem s)) (bytes_at mem a n ++ more)) there

absorb_blocks :
    (big : Bool) (blocks r : ℕ) (v : SipState) (mem : ℕ → ℕ) (s : ℕ) (more : List ℕ)
    → ((i : ℕ) → mem i < 2 ^ 8)
    → absorb v (bytes_at mem s (blocks * 8 + r) ++ more)
      ≡ absorb (sip_blocks big blocks v mem s) (bytes_at mem (s + blocks * 8) r ++ more)
unfolding sip_blocks
absorb_blocks big zero r v mem s more bytes =
    at_start mem v more s (s + 0 * 8) (0 * 8 + r) r (omega arith) (omega arith)
absorb_blocks big (suc blocks) r v mem s more bytes =
    let v' = sip_compress v (le64dec big mem s) in
    let count : suc blocks * 8 + r
        ≡ suc (suc (suc (suc (suc (suc (suc (suc (blocks * 8 + r)))))))) =
      omega arith in
    ap (λ n. absorb v (bytes_at mem s n ++ more)) count
    ∙ absorb_block big v mem s (blocks * 8 + r) more bytes
    ∙ absorb_blocks big blocks r v' mem (s + 8) more bytes
    ∙ ap (λ a. absorb (sip_blocks big blocks v' mem (s + 8)) (bytes_at mem a r ++ more))
        {y = s + suc blocks * 8} (omega arith)

-- The last block.
absorb_last :
    (r len : ℕ) (v : SipState) (mem : ℕ → ℕ) (s : ℕ)
    → r ≤ 7
    → absorb v (bytes_at mem s r ++ padding r len)
      ≡ sip_compress v (le_value (bytes_at mem s r ++ padding r len))
unfolding absorb
absorb_last zero len v mem s h = refl
absorb_last (suc zero) len v mem s h = refl
absorb_last (suc (suc zero)) len v mem s h = refl
absorb_last (suc (suc (suc zero))) len v mem s h = refl
absorb_last (suc (suc (suc (suc zero)))) len v mem s h = refl
absorb_last (suc (suc (suc (suc (suc zero))))) len v mem s h = refl
absorb_last (suc (suc (suc (suc (suc (suc zero)))))) len v mem s h = refl
absorb_last (suc (suc (suc (suc (suc (suc (suc zero))))))) len v mem s h = refl
absorb_last (suc (suc (suc (suc (suc (suc (suc (suc r)))))))) len v mem s h = absurd (omega arith)

-- In a memory of bytes, on a host of either order: siphash24 is the hash of the message with its padding, absorbed in
-- blocks of eight bytes, each as the number with its lowest byte first.
pub siphash24_lem :
    (big : Bool) (mem : ℕ → ℕ) (s len k0 k1 : ℕ)
    → ((i : ℕ) → mem i < 2 ^ 8)
    → siphash24 big mem s len k0 k1 ≡ hash_of_padded (bytes_at mem s len) k0 k1
unfolding siphash24
siphash24_lem big mem s len k0 k1 bytes =
    let start = sip_start k0 k1 in
    let v = sip_blocks big (len / 8) start mem s in
    let there = s + len / 8 * 8 in
    let pad = padding (len % 8) (len % 256) in
    let result =
      λ (w : SipState). let f = sip_finalize w in bit_xor (bit_xor (bit_xor f.v0 f.v1) f.v2) f.v3 in
    let top : len * 2 ^ 56 % 2 ^ 64 ≡ len % 256 * 2 ^ 56 = omega arith in
    let word : sip_tail (len % 8) (len * 2 ^ 56 % 2 ^ 64) mem there
        ≡ le_value (bytes_at mem there (len % 8) ++ pad) =
      ap (λ m. sip_tail (len % 8) m mem there) top
      ∙ last_word (len % 8) (len % 256) mem there (omega arith) bytes in
    let whole : absorb start (padded (bytes_at mem s len))
        ≡ sip_compress v (le_value (bytes_at mem there (len % 8) ++ pad)) =
      ap (λ n. absorb start (bytes_at mem s len ++ padding (n % 8) (n % 256)))
        (length-bytes_at mem s len)
      ∙ ap (λ n. absorb start (bytes_at mem s n ++ pad)) {y = len / 8 * 8 + len % 8} (omega arith)
      ∙ absorb_blocks big (len / 8) (len % 8) start mem s pad bytes
      ∙ absorb_last (len % 8) (len % 256) v mem there (omega arith) in
    ap (λ m. result (sip_compress v m)) word ∙ sym (ap result whole)

keys_stay :
    (keys : SipKeys) (draws later : ℕ × ℕ × ℕ × ℕ)
    → sip_keys (sip_keys keys draws) later ≡ sip_keys keys draws
unfolding sip_keys
keys_stay keys (a, b, c, d) (a', b', c', d') = elim (Bool-cases keys.initialized) [
  | inl e ↦ rw e refl
  | inr e ↦ rw e refl
]

-- In a memory of bytes: from the first call of siphash24_secure on, each call gives the hash of its padded message under
-- one pair of keys, those that the first call left, whatever csrandom gives later.
pub siphash24_secure_lem :
    (big : Bool) (keys : SipKeys) (draws later : ℕ × ℕ × ℕ × ℕ) (mem mem' : ℕ → ℕ)
    (s len s' len' : ℕ)
    → ((i : ℕ) → mem i < 2 ^ 8)
    → ((i : ℕ) → mem' i < 2 ^ 8)
    → (let (hash, kept) = siphash24_secure big keys draws mem s len in
        let (hash', kept') = siphash24_secure big kept later mem' s' len' in
        (hash ≡ hash_of_padded (bytes_at mem s len) kept.k0 kept.k1)
        × (hash' ≡ hash_of_padded (bytes_at mem' s' len') kept.k0 kept.k1)
        × (kept' ≡ kept))
unfolding siphash24_secure
siphash24_secure_lem big keys draws later mem mem' s len s' len' bytes bytes' =
    let kept = sip_keys keys draws in
    let same : sip_keys kept later ≡ kept = keys_stay keys draws later in
    (
      siphash24_lem big mem s len kept.k0 kept.k1 bytes,
      ap (λ k. siphash24 big mem' s' len' k.k0 k.k1) same
          ∙ siphash24_lem big mem' s' len' kept.k0 kept.k1 bytes',
      same,
    )
