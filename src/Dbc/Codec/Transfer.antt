-- ===== src/Dbc/Codec/Transfer.antt =====
-- The bit loops of `write_signal` and `read_signal` (crates/embrig-dbc/src/codec.rs).
use Prim.Native.Nat.{bit_or}
use embrig.Prelude.{
  ℕ, zero, suc, ◌+◌, ◌*◌, ◌%◌, ◌^◌, ◌≤◌, ◌<◌, ◌≡◌, ◌⊎◌, inl, inr, refl, sym, ap, subst, ◌∙◌, Bool,
  false, List, [], ◌∷◌, some, none, arith, All, All-map, All-get, length, get_elem?, set,
  length-set, get_elem?-some, get_elem?-set_self, get_elem?-set_ne, leb, if◌then◌else◌, Bool-cases,
}
use native.Mathlib.Decide.{ℕ_discrete}
use native.Mathlib.Nat.{mod-lt, one-le-pow, add-zero}
use native.Mathlib.Numerals.{add-one}
use embrig.Prelude.Bits.{
  test_bit, assign_bit, bit, bit-lt, mod_pow_suc, bit_or_pow, test_bit-eq-bit,
  test_bit-assign_bit_self, test_bit-assign_bit_ne, assign_bit-lt,
}
use embrig.Prelude.Fallible.{Fallible, ok}
use embrig.Dbc.Codec.{Position, CodecError, write_bits, read_bits}
use embrig.Dbc.Codec.Positions.{Apart, Distinct, InBytes}

abbrev pub IsBytes : List ℕ → Type 0
IsBytes = All (λ b. b < 256)

-- The bit at a position of the data; `false` outside.
abbrev pub bit_at : List ℕ → Position → Bool
bit_at bytes p = elim (get_elem? bytes p.0) [ none ↦ false | some b ↦ test_bit b p.1 ]

IsBytes-set : (bytes : List ℕ) (i b : ℕ) → b < 256 → IsBytes bytes → IsBytes (set bytes i b)
IsBytes-set [] i b h hs = hs
IsBytes-set (x ∷ bytes) zero b h hs = (h, hs.1)
IsBytes-set (x ∷ bytes) (suc i) b h hs = (hs.0, IsBytes-set bytes i b h hs.1)

IsBytes-get : (bytes : List ℕ) (i b : ℕ) → IsBytes bytes → get_elem? bytes i ≡ some b → b < 256
IsBytes-get bytes i b h e = All-get (λ x. x < 256) bytes i b h e

pub bit_at-byte :
    (bytes : List ℕ) (q : Position) (b : ℕ)
    → get_elem? bytes q.0 ≡ some b
    → bit_at bytes q ≡ test_bit b q.1
bit_at-byte bytes q b e = rw (e, bit_at)

room_test : (i : ℕ) → i < 64 → leb 64 i ≡ false
room_test i h = ground arith

Apart-sym : (p q : Position) → Apart p q → Apart q p
Apart-sym p q (inl ne) = inl (λ e. ne (sym e))
Apart-sym p q (inr ne) = inr (λ e. ne (sym e))

module _ (bytes : List ℕ) (p : Position) (b : ℕ) (v : Bool) (inside : InBytes (length bytes) p)
    (at : get_elem? bytes p.0 ≡ some b) (small : b < 256) where
  stored : get_elem? (set bytes p.0 (assign_bit b p.1 v)) p.0 ≡ some (assign_bit b p.1 v)
  stored = get_elem?-set_self bytes p.0 (assign_bit b p.1 v) inside.0

  -- The assigned bit has the value.
  bit_at-assign_self : bit_at (set bytes p.0 (assign_bit b p.1 v)) p ≡ v
  bit_at-assign_self =
      bit_at-byte _ p (assign_bit b p.1 v) stored ∙ test_bit-assign_bit_self v p.1 b inside.1 small

  same_byte_other :
      (q : Position)
      → q.1 < 8
      → p.0 ≡ q.0
      → Apart p q
      → bit_at (set bytes p.0 (assign_bit b p.1 v)) q ≡ bit_at bytes q
  same_byte_other q hq e (inl ne) = absurd (ne e)
  same_byte_other q hq e (inr ne) =
      bit_at-byte _ q (assign_bit b p.1 v) (
        subst (λ k. get_elem? (set bytes p.0 (assign_bit b p.1 v)) k ≡ some (assign_bit b p.1 v)) e
          stored)
      ∙ test_bit-assign_bit_ne v p.1 b inside.1 small q.1 hq ne
      ∙ sym (bit_at-byte bytes q b (subst (λ k. get_elem? bytes k ≡ some b) e at))

  -- Every other bit keeps its value.
  bit_at-assign_other :
      (q : Position)
      → q.1 < 8
      → Apart p q
      → bit_at (set bytes p.0 (assign_bit b p.1 v)) q ≡ bit_at bytes q
  bit_at-assign_other q hq apart = elim (ℕ_discrete p.0 q.0) [
    | yes e ↦ same_byte_other q hq e apart
    | no ne ↦ rw (get_elem?-set_ne bytes p.0 q.0 (assign_bit b p.1 v) ne, bit_at)
  ]

-- The bits at the positions are those of `raw` from bit `i` up.
abbrev pub Holds : ℕ → ℕ → List Position → List ℕ → Type 0
Holds raw i [] bytes = Unit {0}
Holds raw i (p ∷ ps) bytes = (bit_at bytes p ≡ test_bit raw i) × Holds raw (i + 1) ps bytes

-- A write of all the positions: the data is as long as before and of bytes, the positions hold the
-- bits, and every bit apart from all of them is as before.
pub record Written (raw i : ℕ) (ps : List Position) (bytes out : List ℕ) : Type 0 where
  pub same_length : length out ≡ length bytes
  pub bytes_only : IsBytes out
  pub holds : Holds raw i ps out
  pub kept : (q : Position) → q.1 < 8 → All (λ p. Apart p q) ps → bit_at out q ≡ bit_at bytes q

pub write_bits-Written :
    (raw i : ℕ) (ps : List Position) (bytes : List ℕ)
    → i + length ps ≤ 64
    → IsBytes bytes
    → All (InBytes (length bytes)) ps
    → Distinct ps
    → (out : List ℕ) × (write_bits raw i ps bytes ≡ ok out) × Written raw i ps bytes out
unfolding write_bits
write_bits-Written raw i [] bytes room small inside apart = (
  bytes,
  refl,
  record { same_length = refl; bytes_only = small; holds = tt; kept = λ q h a. refl },
)
write_bits-Written raw i (p ∷ ps) bytes room small inside apart =
    let (b, at) = get_elem?-some bytes p.0 inside.0.0 in
    let lt = IsBytes-get bytes p.0 b small at in
    let v = test_bit raw i in
    let mid = set bytes p.0 (assign_bit b p.1 v) in
    let same = length-set bytes p.0 (assign_bit b p.1 v) in
    let (out, e, w) =
      write_bits-Written raw (i + 1) ps mid (omega arith)
        (IsBytes-set bytes p.0 (assign_bit b p.1 v) (assign_bit-lt v p.1 b inside.0.1 lt) small)
        (subst (λ n. All (InBytes n) ps) (sym same) inside.1) apart.1 in
    (
      out,
      rw (room_test i (omega arith), at) e,
      record {
        same_length = w.same_length ∙ same;
        bytes_only = w.bytes_only;
        holds = (
          w.kept p inside.0.1 (All-map (Apart p) (λ q. Apart q p) ps (λ q. Apart-sym p q) apart.0)
              ∙ bit_at-assign_self bytes p b v inside.0 at lt,
          w.holds,
        );
        kept = λ q h a. w.kept q h a.1 ∙ bit_at-assign_other bytes p b v inside.0 at lt q h a.0;
      },
    )

digit_mul : (b p : ℕ) → b < 2 → ((b ≡ 0) × (b * p ≡ 0)) ⊎ ((b ≡ 1) × (b * p ≡ p))
digit_mul zero p h = inl (refl, omega arith)
digit_mul (suc zero) p h = inr (refl, omega arith)
digit_mul (suc (suc b)) p h = absurd (omega arith)

-- One more bit of the value that is read: the low bits of `raw` so far and bit `i`.
accumulate :
    (raw i : ℕ)
    → (if test_bit raw i then bit_or (raw % 2 ^ i) (2 ^ i) else raw % 2 ^ i) ≡ raw % 2 ^ (i + 1)
accumulate raw i = rw add-one (
    ground (
      arith,
      test_bit-eq-bit raw i,
      bit-lt i raw,
      bit_or_pow i (raw % 2 ^ i) (mod-lt raw (one-le-pow i 2 (omega arith))),
      mod_pow_suc i raw,
      digit_mul (bit i raw) (2 ^ i) (bit-lt i raw),
    ))

shift : (i n : ℕ) → i + 1 + n ≡ i + suc n
shift i n = omega arith

pub read_bits-Holds :
    (raw i acc : ℕ) (ps : List Position) (bytes : List ℕ)
    → i + length ps ≤ 64
    → All (InBytes (length bytes)) ps
    → Holds raw i ps bytes
    → acc ≡ raw % 2 ^ i
    → read_bits i ps bytes acc ≡ ok (raw % 2 ^ (i + length ps))
unfolding read_bits
read_bits-Holds raw i acc [] bytes room inside holds e = rw add-zero (ap ok e)
read_bits-Holds raw i acc (p ∷ ps) bytes room inside holds e =
    let (b, at) = get_elem?-some bytes p.0 inside.0.0 in
    let reads = sym (bit_at-byte bytes p b at) ∙ holds.0 in
    let last : ◌≡◌ {A = Fallible CodecError ℕ} (ok (raw % 2 ^ (i + 1 + length ps)))
        (ok (raw % 2 ^ (i + suc (length ps)))) =
      ap (λ (k : ℕ). ok (raw % 2 ^ k)) (shift i (length ps)) in
    elim (Bool-cases (test_bit raw i)) [
      | inl set_ ↦
          rw (at, reads ∙ set_, room_test i (omega arith))
            (read_bits-Holds raw (i + 1) (bit_or acc (2 ^ i)) ps bytes (omega arith) inside.1
                holds.1 (ap (λ (t : ℕ). bit_or t (2 ^ i)) e ∙ (rw set_ at (accumulate raw i)))
              ∙ last)
      | inr clear ↦
          rw (at, reads ∙ clear)
            (read_bits-Holds raw (i + 1) acc ps bytes (omega arith) inside.1 holds.1
                (e ∙ (rw clear at (accumulate raw i)))
              ∙ last)
    ]
