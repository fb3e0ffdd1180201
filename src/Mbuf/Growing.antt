-- ===== src/Mbuf/Growing.antt =====
-- usual/mbuf.c: `mbuf_make_room` and its doubling loop.
use libusual_archive.Base.{
  ℕ, zero, suc, ◌+◌, ◌*◌, ◌%◌, ◌≤◌, ◌<◌, ◌^◌, ◌≡◌, refl, ap, ◌∙◌, sym, Bool, true, false, arith,
  ltb, leb, ◌==◌, ◌||◌, if◌then◌else◌, none, some, ◌⊎◌, inl, inr, Bool-cases, Returns, Returns-map,
}
use native.Mathlib.Nat.{pow-suc, one-le-pow}
use libusual_archive.Base.Word.{add32}
use libusual_archive.Mbuf.State.{MBuf}
use libusual_archive.Mbuf.Write.{grow, mbuf_make_room, ensure_room}
use libusual_archive.Mbuf.View.{IsValid}

halve_need : (a k : ℕ) → a * 2 ^ suc k ≡ a * 2 * 2 ^ k
halve_need a k = omega (arith, ap (λ (p : ℕ). a * p) (pow-suc 2 k))

-- What the loop leaves: room for the need, and less than twice as much if it had to grow.
abbrev Grown : ℕ → ℕ → ℕ → Type 0
Grown a need n = (need ≤ n) × (a ≤ n) × ((n ≡ a) ⊎ (n < 2 * need))

grow_lem :
    (fuel a need : ℕ)
    → need ≤ a * 2 ^ fuel
    → need ≤ 2 ^ 30
    → Returns (Grown a need) (grow (suc fuel) a need)
unfolding grow
grow_lem zero a need h small =
    let enough : ltb a need ≡ false = ground arith in
    rw enough (a, refl, (ground arith, omega arith, inl refl))
grow_lem (suc fuel) a need h small = elim (Bool-cases (ltb a need)) [
  | inl below ↦
      let twice : (a * 2) % 2 ^ 32 ≡ a * 2 = ground arith in
      rw (below, twice)
        (Returns-map (grow_lem fuel (a * 2) need (omega (arith, halve_need a fuel)) small)
          λ n (p, q, r). (p, omega arith, elim r [ inl e ↦ inr (ground arith) | inr l ↦ inr l ]))
  | inr enough ↦ rw enough (a, refl, (ground arith, omega arith, inl refl))
]

Grown-small :
    (alloc need n : ℕ)
    → alloc ≤ 2 ^ 31
    → need ≤ 2 ^ 30
    → Grown (if alloc == 0 then 128 else alloc) need n
    → n ≤ 2 ^ 31
Grown-small alloc need n h k (p, q, inl e) = ground arith
Grown-small alloc need n h k (p, q, inr l) = omega arith

grow_from_zero : (fuel need : ℕ) → 0 < need → grow fuel 0 need ≡ none
unfolding grow
grow_from_zero zero need h = refl
grow_from_zero (suc fuel) need h = ground (arith, grow_from_zero fuel need)

doubled_power : (a j : ℕ) → a * 2 ^ suc j ≡ 2 ^ 31 → a * 2 ≤ 2 ^ 31
doubled_power a j e = grind (arith, halve_need a j, one-le-pow j 2)

-- From a power of two up to 2^31 the loop never ends once more than 2^31 bytes are needed: the
-- doubled size wraps to 0 and stays 0, however many rounds it is given.
pub grow_diverges :
    (fuel a j need : ℕ) → a * 2 ^ j ≡ 2 ^ 31 → 2 ^ 31 < need → grow fuel a need ≡ none
unfolding grow
grow_diverges zero a j need e big = refl
grow_diverges (suc fuel) a zero need e big =
    let below : ltb a need ≡ true = ground arith in
    let wraps : (a * 2) % 2 ^ 32 ≡ 0 = omega arith in
    rw (below, wraps) (grow_from_zero fuel need (omega arith))
grow_diverges (suc fuel) a (suc j) need e big =
    let bound = doubled_power a j e in
    let below : ltb a need ≡ true = ground arith in
    let twice : (a * 2) % 2 ^ 32 ≡ a * 2 = omega arith in
    rw (below, twice) (grow_diverges fuel (a * 2) j need (sym (halve_need a j) ∙ e) big)

-- The state after a call for `len` more bytes.
pub record Ready (granted : Bool) (b : MBuf) (len : ℕ) (done : Bool) (b' : MBuf) : Type 0 where
  pub kept : b' ≡ record b { present = b'.present; alloc_len = b'.alloc_len }
  pub room : done ≡ true → b.write_pos + len ≤ b'.alloc_len
  pub valid : IsValid b'
  pub refused :
      done ≡ false
      → (b' ≡ b)
        × (b.alloc_len < b.write_pos + len)
        × ((b.reader || b.fixed) ≡ true ⊎ granted ≡ false)

grown-Ready :
    (granted : Bool) (b : MBuf) (len n : ℕ)
    → IsValid b
    → b.alloc_len < b.write_pos + len
    → b.write_pos + len ≤ n
    → n ≤ 2 ^ 31
    → Returns {A = Bool × MBuf}
        (λ r. Ready granted b len r.0 r.1)
        (if granted
          then some (true, record b { present = true; alloc_len = n })
          else some (false, b))
grown-Ready true b len n v over fits small = (
  (true, record b { present = true; alloc_len = n }),
  refl,
  record {
    kept = refl;
    room = λ _. fits;
    valid = record {
      cursors = v.cursors;
      inside = omega (arith, v.inside);
      small = small;
      byte = v.byte;
    };
    refused = λ no'. cc;
  },
)
grown-Ready false b len n v over fits small = (
  (false, b),
  refl,
  record { kept = refl; room = λ no'. cc; valid = v; refused = λ _. (refl, over, inr refl) },
)

-- For up to 2^30 bytes in all the test that every writing function begins with ends, and leaves the cursors and the bytes alone; if it
-- returns true the bytes fit, and it returns false only if they do not fit and the buffer is fixed, a reader, or
-- cannot get memory, with the buffer unchanged.
pub ensure_room-Ready :
    (granted : Bool) (b : MBuf) (len : ℕ)
    → IsValid b
    → b.write_pos + len ≤ 2 ^ 30
    → Returns (λ r. Ready granted b len r.0 r.1) (ensure_room granted b len)
unfolding ensure_room mbuf_make_room
ensure_room-Ready granted b len v small =
    let sum : add32 b.write_pos len ≡ b.write_pos + len = omega arith in
    elim (Bool-cases (ltb b.alloc_len (b.write_pos + len))) [
      | inr fits ↦
          rw (sum, fits)
            (
              (true, b),
              refl,
              record { kept = refl; room = λ _. ground arith; valid = v; refused = λ no'. cc },
            )
      | inl over ↦ elim (Bool-cases (b.reader || b.fixed)) [
        | inl still ↦
            rw (sum, over, still)
              (
                (false, b),
                refl,
                record {
                  kept = refl;
                  room = λ no'. cc;
                  valid = v;
                  refused = λ _. (refl, ground arith, inl still);
                },
              )
        | inr grows ↦
            let start = if b.alloc_len == 0 then 128 else b.alloc_len in
            let short : leb (b.write_pos + len) b.alloc_len ≡ false = ground arith in
            let (n, run, (p, q, r)) = grow_lem 32 start (b.write_pos + len) (ground arith) small in
            rw (sum, over, grows, short, run)
              (grown-Ready granted b len n v (ground arith) p
                (Grown-small b.alloc_len (b.write_pos + len) n v.small small (p, q, r)))
      ]
    ]
