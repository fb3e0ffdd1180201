-- ===== src/MDict/Loops.antt =====
-- usual/mdict.c: the steps of the two loops of urldec_str.
use libusual_archive.Base.{
  ℕ, ◌+◌, ◌-◌, ◌<◌, ◌≡◌, refl, none, some, List, [], ◌∷◌, ltb, true, false, arith, inl, inr, ◌⊎◌,
  length,
}
use libusual_archive.MDict.{
  Kind, percent, plus, stop, plain, kind, estimate, emit, finish, hex_pair, escape_at, decode,
}

-- One of the four kinds.
pub Kind-cases : (k : Kind) → (k ≡ percent) ⊎ ((k ≡ plus) ⊎ ((k ≡ stop) ⊎ (k ≡ plain)))
Kind-cases percent = inl refl
Kind-cases plus = inr (inl refl)
Kind-cases stop = inr (inr (inl refl))
Kind-cases plain = inr (inr (inr refl))

pub estimate-percent :
    (c : ℕ) (s : List ℕ) → kind c ≡ percent → estimate 0 (c ∷ s) ≡ 1 + estimate 2 s
unfolding estimate
estimate-percent c s e = rw (estimate, e) refl

pub estimate-plus : (c : ℕ) (s : List ℕ) → kind c ≡ plus → estimate 0 (c ∷ s) ≡ 1 + estimate 0 s
unfolding estimate
estimate-plus c s e = rw (estimate, e) refl

pub estimate-stop : (c : ℕ) (s : List ℕ) → kind c ≡ stop → estimate 0 (c ∷ s) ≡ 0
unfolding estimate
estimate-stop c s e = rw (estimate, e) refl

pub estimate-plain : (c : ℕ) (s : List ℕ) → kind c ≡ plain → estimate 0 (c ∷ s) ≡ 1 + estimate 0 s
unfolding estimate
estimate-plain c s e = rw (estimate, e) refl

pub decode-nil : (room : ℕ) → decode room [] ≡ finish room []
unfolding decode
decode-nil room = refl

pub decode-plus :
    (room c : ℕ) (s : List ℕ)
    → kind c ≡ plus
    → decode room (c ∷ s) ≡ emit room 32 (decode (room - 1) s)
unfolding decode
decode-plus room c [] e = rw (decode, e) refl
decode-plus room c (x ∷ []) e = rw (decode, e) refl
decode-plus room c (x ∷ y ∷ s) e = rw (decode, e) refl

pub decode-plain :
    (room c : ℕ) (s : List ℕ)
    → kind c ≡ plain
    → decode room (c ∷ s) ≡ emit room c (decode (room - 1) s)
unfolding decode
decode-plain room c [] e = rw (decode, e) refl
decode-plain room c (x ∷ []) e = rw (decode, e) refl
decode-plain room c (x ∷ y ∷ s) e = rw (decode, e) refl

pub decode-stop :
    (room c : ℕ) (s : List ℕ) → kind c ≡ stop → decode room (c ∷ s) ≡ finish room (c ∷ s)
unfolding decode
decode-stop room c [] e = rw (decode, e) refl
decode-stop room c (x ∷ []) e = rw (decode, e) refl
decode-stop room c (x ∷ y ∷ s) e = rw (decode, e) refl

pub escape_at-pair : (x y : ℕ) (s : List ℕ) → escape_at (x ∷ y ∷ s) ≡ some (hex_pair x y)
unfolding escape_at
escape_at-pair x y s = let long : ltb (length (x ∷ y ∷ s)) 2 ≡ false = ground arith in rw long refl

pub escape_at-cut : (s : List ℕ) → length s < 2 → escape_at s ≡ some none
unfolding escape_at
escape_at-cut s h = let short : ltb (length s) 2 ≡ true = ground arith in rw short refl

-- An escape in full, and one that the end of the text cuts off.
pub decode-percent :
    (room c x y byte : ℕ) (s : List ℕ)
    → kind c ≡ percent
    → hex_pair x y ≡ some byte
    → decode room (c ∷ x ∷ y ∷ s) ≡ emit room byte (decode (room - 1) s)
unfolding decode
decode-percent room c x y byte s e f = rw (decode, e, escape_at-pair x y s, f) refl

pub decode-not_hex :
    (room c x y : ℕ) (s : List ℕ)
    → kind c ≡ percent
    → hex_pair x y ≡ none
    → decode room (c ∷ x ∷ y ∷ s) ≡ some none
unfolding decode
decode-not_hex room c x y s e f = rw (decode, e, escape_at-pair x y s, f) refl

pub decode-cut :
    (room c : ℕ) (s : List ℕ) → kind c ≡ percent → length s < 2 → decode room (c ∷ s) ≡ some none
unfolding decode
decode-cut room c [] e h = rw (decode, e, escape_at-cut [] h) refl
decode-cut room c (x ∷ []) e h = rw (decode, e, escape_at-cut (x ∷ []) h) refl
decode-cut room c (x ∷ y ∷ s) e h = absurd (omega arith)
