-- ===== src/Dbc/Codec/Positions.antt =====
-- `positions` of crates/embrig-dbc/src/codec.rs: a signal's bits are distinct, run on without a gap
-- in the order of its byte order, and stay inside the data exactly when its last bit does.
use embrig.Prelude.{
  ℕ, zero, suc, ◌+◌, ◌-◌, ◌*◌, ◌/◌, ◌%◌, ◌≤◌, ◌<◌, ◌≡◌, ◌≢◌, ◌⊎◌, inl, inr, refl, ap, ◌∙◌, List, [],
  ◌∷◌, some, arith, All, All-map, length, lt→ltb,
}
use native.Mathlib.Decide.{ℕ_discrete}
use embrig.Prelude.Fallible.{ok}
use embrig.Dbc.Codec.{Position, intel_positions, motorola_positions, next_motorola, last?}

abbrev pub Apart : Position → Position → Type 0
Apart p q = (p.0 ≢ q.0) ⊎ (p.1 ≢ q.1)

abbrev pub Distinct : List Position → Type 0
Distinct [] = Unit {0}
Distinct (p ∷ ps) = All (Apart p) ps × Distinct ps

-- A bit of one of the first `n` bytes.
abbrev pub InBytes : ℕ → Position → Type 0
InBytes n p = (p.0 < n) × (p.1 < 8)

-- The place of a bit in the order of each kind: from bit 0 of byte 0 up, and from bit 7 down.
abbrev pub intel_index : Position → ℕ
intel_index p = p.0 * 8 + p.1

abbrev pub motorola_index : Position → ℕ
motorola_index p = p.0 * 8 + (7 - p.1)

abbrev Between : (Position → ℕ) → ℕ → ℕ → Position → Type 0
Between index lo hi p = (lo ≤ index p) × (index p < hi) × (p.1 < 8)

intel_Apart : (p q : Position) → intel_index p < intel_index q → Apart p q
intel_Apart p q lt = elim (ℕ_discrete p.0 q.0) [ yes e ↦ inr (omega arith) | no ne ↦ inl ne ]

motorola_Apart :
    (p q : Position) → p.1 < 8 → q.1 < 8 → motorola_index q < motorola_index p → Apart p q
motorola_Apart p q hp hq lt = elim (ℕ_discrete p.0 q.0) [
  | yes e ↦ inr (omega arith)
  | no ne ↦ inl ne
]

Between-InBytes-intel :
    (lo hi n : ℕ) → hi ≤ n * 8 → (p : Position) → Between intel_index lo hi p → InBytes n p
Between-InBytes-intel lo hi n h p b = omega arith

-- What the codec needs to know of a list of positions: `count` distinct bits of `n` bytes.
pub record Layout (n count : ℕ) (ps : List Position) : Type 0 where
  pub inside : All (InBytes n) ps
  pub distinct : Distinct ps
  pub counted : length ps ≡ count

intel-Between :
    (n start i : ℕ)
    → start + i + n ≤ 65536
    → (ps : List Position) × (intel_positions n start i ≡ ok ps)
      × All (Between intel_index (start + i) (start + i + n)) ps
      × Distinct ps
      × (length ps ≡ n)
unfolding intel_positions
intel-Between zero start i h = ([], refl, tt, tt, refl)
intel-Between (suc n) start i h =
    let (ps, e, b, d, c) = intel-Between n start (i + 1) (omega arith) in
    (
      ((start + i) / 8, (start + i) % 8) ∷ ps,
      rw (lt→ltb (start + i) 65536 (omega arith), e),
      (
        (omega arith, omega arith, omega arith),
        All-map (Between intel_index (start + (i + 1)) (start + (i + 1) + n))
            (Between intel_index (start + i) (start + i + suc n)) ps (λ p q. omega arith) b,
      ),
      (
        All-map (Between intel_index (start + (i + 1)) (start + (i + 1) + n))
            (Apart ((start + i) / 8, (start + i) % 8)) ps
            (λ p q. intel_Apart ((start + i) / 8, (start + i) % 8) p (omega arith)) b,
        d,
      ),
      ap suc c,
    )

-- The bits of a Motorola signal run on in the order of `motorola_index`.
motorola_index-next :
    (p : ℕ)
    → motorola_index (next_motorola p / 8, next_motorola p % 8) ≡ motorola_index (p / 8, p % 8) + 1
unfolding next_motorola
motorola_index-next p = ground arith

abbrev MotorolaBelow : ℕ → Position → Type 0
MotorolaBelow hi p = (motorola_index p < hi) × (p.1 < 8)

-- The start is the index of the most significant bit, from which the indices count up.
motorola-Below :
    (n p : ℕ) (out : List Position)
    → All (MotorolaBelow (motorola_index (p / 8, p % 8))) out
    → Distinct out
    → All (MotorolaBelow (motorola_index (p / 8, p % 8) + n)) (motorola_positions n p out)
      × Distinct (motorola_positions n p out)
      × (length (motorola_positions n p out) ≡ n + length out)
unfolding motorola_positions
motorola-Below zero p out below apart = (
  All-map (MotorolaBelow (motorola_index (p / 8, p % 8)))
      (MotorolaBelow (motorola_index (p / 8, p % 8) + 0)) out (λ q h. omega arith) below,
  apart,
  omega arith,
)
motorola-Below (suc n) p out below apart =
    let at = motorola_index (p / 8, p % 8) in
    let next = motorola_index-next p in
    let index = motorola_index (next_motorola p / 8, next_motorola p % 8) in
    let (b, d, c) =
      motorola-Below n (next_motorola p) ((p / 8, p % 8) ∷ out)
        (
          (omega (arith, next), omega arith),
          All-map (MotorolaBelow at) (MotorolaBelow index) out (λ q h. omega (arith, next)) below,
        )
        (
          All-map (MotorolaBelow at) (Apart (p / 8, p % 8)) out
              (λ q h. motorola_Apart (p / 8, p % 8) q (omega arith) h.1 h.0) below,
          apart,
        ) in
    (
      All-map (MotorolaBelow (index + n)) (MotorolaBelow (at + suc n)) _
          (λ q h. omega (arith, next)) b,
      d,
      omega (arith, c),
    )

-- The last position of a Motorola signal is that of its start bit, its most significant bit.
motorola-last :
    (n p : ℕ) (q : Position) (out : List Position)
    → last? (motorola_positions n p (q ∷ out)) ≡ last? (q ∷ out)
unfolding motorola_positions
motorola-last zero p q out = refl
motorola-last (suc n) p q out = motorola-last n (next_motorola p) (p / 8, p % 8) (q ∷ out)

pub motorola-start : (n p : ℕ) → last? (motorola_positions (suc n) p []) ≡ some (p / 8, p % 8)
unfolding motorola_positions
motorola-start n p = motorola-last n (next_motorola p) (p / 8, p % 8) []

-- The first position of a Motorola signal is that of its least significant bit.
pub motorola-first :
    (n p : ℕ) (out : List Position)
    → (q : Position) × (rest : List Position) × (motorola_positions (suc n) p out ≡ q ∷ rest)
      × (motorola_index q ≡ motorola_index (p / 8, p % 8) + n)
unfolding motorola_positions
motorola-first zero p out = ((p / 8, p % 8), out, refl, omega arith)
motorola-first (suc n) p out =
    let (q, rest, e, index) = motorola-first n (next_motorola p) ((p / 8, p % 8) ∷ out) in
    (q, rest, e, omega (arith, index, motorola_index-next p))

last?-cons :
    (p : Position) (ps : List Position) {q : Position} → last? ps ≡ some q → last? (p ∷ ps) ≡ some q
last?-cons p [] h = absurd (cc)
last?-cons p (r ∷ ps) h = h

-- The last position of an Intel signal is that of its most significant bit.
pub intel-last :
    (n start i : ℕ)
    → start + i + suc n ≤ 65536
    → (ps : List Position) × (intel_positions (suc n) start i ≡ ok ps)
      × (last? ps ≡ some ((start + i + n) / 8, (start + i + n) % 8))
unfolding intel_positions
intel-last zero start i h = (
  ((start + i) / 8, (start + i) % 8) ∷ [],
  rw (lt→ltb (start + i) 65536 (omega arith)),
  ground arith,
)
intel-last (suc n) start i h =
    let (ps, e, l) = intel-last n start (i + 1) (omega arith) in
    (
      ((start + i) / 8, (start + i) % 8) ∷ ps,
      rw (lt→ltb (start + i) 65536 (omega arith), e),
      last?-cons _ ps (l ∙ ap (λ (k : ℕ). some (k / 8, k % 8)) (omega arith)),
    )

-- An Intel signal whose bits end inside the data.
pub intel-Layout :
    (len start n : ℕ)
    → start + len ≤ 65536
    → start + len ≤ n * 8
    → (ps : List Position) × (intel_positions len start 0 ≡ ok ps) × Layout n len ps
intel-Layout len start n range fits =
    let (ps, e, b, d, c) = intel-Between len start 0 (omega arith) in
    (
      ps,
      e,
      record {
        inside =
            All-map (Between intel_index (start + 0) (start + 0 + len)) (InBytes n) ps
              (Between-InBytes-intel (start + 0) (start + 0 + len) n (omega arith)) b;
        distinct = d;
        counted = c;
      },
    )

-- A Motorola signal whose least significant bit lies inside the data.
pub motorola-Layout :
    (len start n : ℕ)
    → motorola_index (start / 8, start % 8) + len ≤ n * 8
    → Layout n len (motorola_positions len start [])
motorola-Layout len start n fits =
    let (b, d, c) = motorola-Below len start [] tt tt in
    record {
      inside =
          All-map (MotorolaBelow (motorola_index (start / 8, start % 8) + len)) (InBytes n) _
            (λ p h. (omega arith, h.1)) b;
      distinct = d;
      counted = omega (arith, c);
    }
