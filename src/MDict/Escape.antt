-- ===== src/MDict/Escape.antt =====
-- usual/mdict.c: what urlenc_str writes.
use Prim.Native.Nat.{bit_and}
use libusual_archive.Base.{
  ℕ, zero, suc, ◌+◌, ◌-◌, ◌*◌, ◌/◌, ◌%◌, ◌^◌, ◌<◌, ◌≤◌, ◌≡◌, refl, sym, ap, ◌∙◌, subst, Bool, true,
  false, ◌&&◌, ◌||◌, Option, some, List, [], ◌∷◌, ◌++◌, arith, inl, inr, ◌⊎◌, Bool-cases, ltb, ◌==◌,
  if◌then◌else◌, ◌>>=◌, length, length-append, get_elem?, Returns, Returns-bind, Returns-map,
}
use mathlib.Core.List.{append_assoc, append-nil}
use libusual_archive.Base.Bits.{bit_and-low}
use libusual_archive.Base.Word.{AreBytes}
use libusual_archive.Mbuf.State.{MBuf}
use libusual_archive.Mbuf.View.{IsValid, bytes, contents, unread, length-bytes}
use libusual_archive.Mbuf.Writing.{Appended, mbuf_write_lem, mbuf_write_byte-write}
use libusual_archive.MDict.{hextbl, write_byte, write_hex, urlenc_byte, urlenc_str}

-- Consecutive numbers.
abbrev run : ℕ → ℕ → List ℕ
run s zero = []
run s (suc n) = s ∷ run (s + 1) n

get_elem?-run : (i n s : ℕ) (more : List ℕ) → i < n → get_elem? (run s n ++ more) i ≡ some (s + i)
get_elem?-run i zero s more h = absurd (omega arith)
get_elem?-run zero (suc n) s more h = ap some (omega arith)
get_elem?-run (suc i) (suc n) s more h =
    get_elem?-run i n (s + 1) more (omega arith) ∙ ap some (omega arith)

get_elem?-past :
    (i n s : ℕ) (more : List ℕ) → n ≤ i → get_elem? (run s n ++ more) i ≡ get_elem? more (i - n)
get_elem?-past i zero s more h = ap (get_elem? more) (omega arith)
get_elem?-past zero (suc n) s more h = absurd (omega arith)
get_elem?-past (suc i) (suc n) s more h =
    get_elem?-past i n (s + 1) more (omega arith) ∙ ap (get_elem? more) (omega arith)

-- The digit for a number below 16.
abbrev pub hex : ℕ → ℕ
hex d = if ltb d 10 then 48 + d else 87 + d

hextbl_lem : (d : ℕ) → d < 16 → get_elem? hextbl d ≡ some (hex d)
hextbl_lem d h = elim (Bool-cases (ltb d 10)) [
  | inl e ↦ get_elem?-run d 10 48 (run 97 6) (ground arith) ∙ ap some (rw e refl)
  | inr e ↦
      get_elem?-past d 10 48 (run 97 6) (ground arith)
      ∙ ap (λ l. get_elem? l (d - 10)) (sym (append-nil (run 97 6)))
      ∙ get_elem?-run (d - 10) 6 97 [] (omega arith)
      ∙ ap some (rw e (ground arith))
]

-- What stands for a byte in a URL, and for a text.
abbrev pub escape : (ℕ → Bool) → ℕ → List ℕ
escape isalnum c =
    if c == 32
    then 43 ∷ []
    else if (ltb c 128 && isalnum c) || (c == 46 || c == 95)
    then c ∷ []
    else 37 ∷ hex (c / 16) ∷ hex (c % 16) ∷ []

abbrev pub escaped : (ℕ → Bool) → List ℕ → List ℕ
escaped isalnum [] = []
escaped isalnum (c ∷ str) = escape isalnum c ++ escaped isalnum str

pub Appended-nil : (b : MBuf) → IsValid b → Appended b [] b
Appended-nil b v = record {
  valid = v;
  cursor = refl;
  flags = refl;
  all = sym (append-nil (contents b));
  ahead = sym (append-nil (unread b));
}

pub Appended-append :
    (b b' b'' : MBuf) (xs ys : List ℕ)
    → Appended b xs b'
    → Appended b' ys b''
    → Appended b (xs ++ ys) b''
Appended-append b b' b'' xs ys f g = record {
  valid = g.valid;
  cursor = g.cursor ∙ f.cursor;
  flags = g.flags ∙ f.flags;
  all = g.all ∙ ap (λ t. t ++ ys) f.all ∙ append_assoc (contents b) xs ys;
  ahead = g.ahead ∙ ap (λ t. t ++ ys) f.ahead ∙ append_assoc (unread b) xs ys;
}

pub Appended-place :
    (b b' : MBuf) (xs : List ℕ) → Appended b xs b' → b'.write_pos ≡ b.write_pos + length xs
unfolding contents
Appended-place b b' xs f =
    sym (length-bytes b'.cells 0 b'.write_pos)
    ∙ ap length f.all
    ∙ length-append (contents b) xs
    ∙ ap (λ n. n + length xs) (length-bytes b.cells 0 b.write_pos)

module _ (granted : MBuf → Bool) where
  -- Everything is written, or some of it and the buffer cannot grow.
  abbrev pub WroteText : MBuf → List ℕ → Bool × MBuf → Type 0
  WroteText dst more (ok, dst') =
      ((ok ≡ true) × Appended dst more dst')
      ⊎ ((ok ≡ false)
          × IsValid dst'
          × (((dst.reader || dst.fixed) ≡ true) ⊎ ((b : MBuf) × (granted b ≡ false))))

  pub write_byte_lem :
      (dst : MBuf) (c : ℕ)
      → IsValid dst
      → c < 256
      → dst.write_pos + 1 ≤ 2 ^ 30
      → Returns (WroteText dst (c ∷ [])) (write_byte granted dst c)
  unfolding write_byte bytes
  write_byte_lem dst c v small room = rw (mbuf_write_byte-write (granted dst) dst c) (
      Returns-map (mbuf_write_lem (granted dst) dst (λ i. c) 1 v (λ i. small) room) λ (ok, dst') r.
        elim r [
          | inl (e, f) ↦ inl (e, f)
          | inr (e, same, full, reason) ↦
              inr (
                e,
                subst IsValid (sym same) v,
                elim reason [ inl g ↦ inl g | inr g ↦ inr (dst, g) ],
              )
        ])

  -- One part after the other, as long as there is room.
  pub then_lem :
      (dst : MBuf) (xs ys : List ℕ) (o : Option (Bool × MBuf))
      (f : Bool × MBuf → Option (Bool × MBuf))
      → Returns (WroteText dst xs) o
      → ((b : MBuf) → Appended dst xs b → Returns (WroteText b ys) (f (true, b)))
      → ((b : MBuf) → f (false, b) ≡ some (false, b))
      → Returns (WroteText dst (xs ++ ys)) (o >>= f)
  then_lem dst xs ys o f first next stop = Returns-bind first λ (ok, b) r. elim r [
    | inl (e, a) ↦ rw e (
        Returns-map (next b a) λ (ok', b') r'. elim r' [
          | inl (e', a') ↦ inl (e', Appended-append dst b b' xs ys a a')
          | inr (e', v, reason) ↦
              inr (e', v, elim reason [ inl g ↦ inl (sym a.flags ∙ g) | inr g ↦ inr g ])
        ])
    | inr (e, v, reason) ↦ rw e ((false, b), stop b, inr (refl, v, reason))
  ]

  write_hex_lem :
      (dst : MBuf) (d : ℕ)
      → IsValid dst
      → d < 16
      → dst.write_pos + 1 ≤ 2 ^ 30
      → Returns (WroteText dst (hex d ∷ [])) (write_hex granted (true, dst) d)
  unfolding write_hex
  write_hex_lem dst d v small room =
      rw (hextbl_lem d small) (write_byte_lem dst (hex d) v (ground arith) room)

  hex_pair_lem :
      (dst : MBuf) (c : ℕ)
      → IsValid dst
      → c < 256
      → dst.write_pos + 3 ≤ 2 ^ 30
      → Returns (WroteText dst (37 ∷ hex (c / 16) ∷ hex (c % 16) ∷ [])) (
          write_byte granted dst 37 >>= λ r.
          write_hex granted r (c / 16) >>= λ r'. write_hex granted r' (bit_and c 15))
  unfolding write_hex
  hex_pair_lem dst c v small room =
      let low : bit_and c 15 ≡ c % 16 = bit_and-low 4 c in
      rw low (
        then_lem dst (37 ∷ []) (hex (c / 16) ∷ hex (c % 16) ∷ []) (write_byte granted dst 37)
          (λ r. write_hex granted r (c / 16) >>= λ r'. write_hex granted r' (c % 16))
          (write_byte_lem dst 37 v (omega arith) (omega arith))
          (λ b a.
            then_lem b (hex (c / 16) ∷ []) (hex (c % 16) ∷ [])
              (write_hex granted (true, b) (c / 16)) (λ r. write_hex granted r (c % 16))
              (write_hex_lem b (c / 16) a.valid (omega arith)
                (omega (arith, Appended-place dst b (37 ∷ []) a)))
              (λ b' a'. write_hex_lem b' (c % 16) a'.valid (omega arith) (
                omega (
                  arith,
                  Appended-place dst b (37 ∷ []) a,
                  Appended-place b b' (hex (c / 16) ∷ []) a',
                )))
              λ b'. refl)
          λ b. refl)

  urlenc_byte_lem :
      (isalnum : ℕ → Bool) (dst : MBuf) (c : ℕ)
      → IsValid dst
      → c < 256
      → dst.write_pos + 3 ≤ 2 ^ 30
      → Returns (WroteText dst (escape isalnum c)) (urlenc_byte granted isalnum dst c)
  unfolding urlenc_byte
  urlenc_byte_lem isalnum dst c v small room = elim (Bool-cases (c == 32)) [
    | inl e ↦ rw e (write_byte_lem dst 43 v (omega arith) (omega arith))
    | inr e ↦ elim (Bool-cases ((ltb c 128 && isalnum c) || (c == 46 || c == 95))) [
      | inl f ↦ rw (e, f) (write_byte_lem dst c v small (omega arith))
      | inr f ↦ rw (e, f) (hex_pair_lem dst c v small room)
    ]
  ]

  pub length-escape : (isalnum : ℕ → Bool) (c : ℕ) → length (escape isalnum c) ≤ 3
  length-escape isalnum c = elim (Bool-cases (c == 32)) [
    | inl e ↦ rw e (omega arith)
    | inr e ↦ elim (Bool-cases ((ltb c 128 && isalnum c) || (c == 46 || c == 95))) [
      | inl f ↦ rw (e, f) (omega arith)
      | inr f ↦ rw (e, f) (omega arith)
    ]
  ]

  -- Into a valid buffer, of a size up to 2^30 with three bytes for each byte of the text: urlenc_str returns. Either it has added the
  -- text with its escapes and gives true, or it gives false, the buffer is valid, and it is fixed, a reader, or could not grow.
  pub urlenc_str_lem :
      (isalnum : ℕ → Bool) (dst : MBuf) (str : List ℕ)
      → IsValid dst
      → AreBytes str
      → dst.write_pos + length str * 3 ≤ 2 ^ 30
      → Returns (WroteText dst (escaped isalnum str)) (urlenc_str granted isalnum dst str)
  unfolding urlenc_str
  urlenc_str_lem isalnum dst [] v small room = ((true, dst), refl, inl (refl, Appended-nil dst v))
  urlenc_str_lem isalnum dst (c ∷ str) v (byte, small) room =
      then_lem dst (escape isalnum c) (escaped isalnum str) (urlenc_byte granted isalnum dst c)
        (λ (ok, dst'). if ok then urlenc_str granted isalnum dst' str else some (false, dst'))
        (urlenc_byte_lem isalnum dst c v byte (omega arith))
        (λ b a.
          urlenc_str_lem isalnum b str a.valid small
            (omega (arith, Appended-place dst b (escape isalnum c) a, length-escape isalnum c)))
        λ b. refl
