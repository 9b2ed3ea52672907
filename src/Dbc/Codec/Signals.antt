-- ===== src/Dbc/Codec/Signals.antt =====
-- One signal in the data of a frame: `write_signal` and `read_signal` of
-- crates/embrig-dbc/src/codec.rs.
use embrig.Prelude.{
  ℕ, ◌+◌, ◌*◌, ◌/◌, ◌%◌, ◌^◌, ◌≤◌, ◌≡◌, ◌⊎◌, inl, inr, refl, sym, subst, ◌∙◌, List, [], ◌∷◌, some,
  arith, All, length, Option-cases,
}
use embrig.Prelude.Int.{ℤ, as_u64, IsI64}
use embrig.Prelude.Fallible.{ok}
use embrig.Core.Float.{Float}
use embrig.Dbc.Types.{ByteOrder, intel, motorola, SignalDef}
use embrig.Dbc.Codec.{
  Position, positions, check_bounds, last?, write_signal, read_signal, motorola_positions,
}
use embrig.Dbc.Codec.Positions.{Layout, intel-Layout, motorola-Layout, motorola_index, InBytes}
use embrig.Dbc.Codec.Transfer.{IsBytes, Holds, Written, write_bits-Written, read_bits-Holds}
use embrig.Dbc.Codec.RoundTrip.{from_bits, from_bits-Fits, Fits}

pub order_cases : (o : ByteOrder) → (o ≡ intel) ⊎ (o ≡ motorola)
order_cases intel = inl refl
order_cases motorola = inr refl

last?-All :
    (P : Position → Type 0) (ps : List Position) {p : Position} → All P ps → last? ps ≡ some p → P p
last?-All P [] h e = absurd (cc)
last?-All P (q ∷ []) h e = subst P (cc) h.0
last?-All P (q ∷ r ∷ ps) h e = last?-All P (r ∷ ps) h.1 e

zero_plus : (n : ℕ) → 0 + n ≡ n
zero_plus n = omega arith

module _ (float : Float) where
  -- The index of the first bit in the order of the signal: least significant first for Intel, most
  -- significant first for Motorola.
  abbrev pub first_bit : ByteOrder → ℕ → ℕ
  first_bit intel start = start
  first_bit motorola start = motorola_index (start / 8, start % 8)

  -- The signal is at most 64 bits wide, its bit numbers are u16, and it ends inside `n` bytes.
  pub record FitsIn (s : SignalDef float) (n : ℕ) : Type 0 where
    pub width : s.length ≤ 64
    pub numbers : s.start_bit + s.length ≤ 65536
    pub ends : first_bit s.byte_order s.start_bit + s.length ≤ n * 8

  pub positions-Layout :
      (s : SignalDef float) (n : ℕ)
      → FitsIn s n
      → (ps : List Position) × (positions float s ≡ ok ps) × Layout n s.length ps
  unfolding positions
  positions-Layout s n h = elim (order_cases s.byte_order) [
    | inl e ↦
        let (ps, p, l) = intel-Layout s.length s.start_bit n h.numbers (rw e at h.ends) in
        (ps, rw e p, l)
    | inr e ↦ (
      motorola_positions s.length s.start_bit [],
      rw e,
      motorola-Layout s.length s.start_bit n (rw e at h.ends),
    )
  ]

  pub check_bounds-inside :
      (s : SignalDef float) (ps : List Position) (bytes : List ℕ)
      → All (InBytes (length bytes)) ps
      → check_bounds float s ps bytes ≡ ok tt
  unfolding check_bounds
  check_bounds-inside s ps bytes h = elim (Option-cases (last? ps)) [
    | inl e ↦ rw (e, check_bounds)
    | inr (p, e) ↦
        let inside = last?-All (InBytes (length bytes)) ps h e in
        rw (e, check_bounds) (ground arith)
  ]

  -- A write of a signal that fits returns, whatever the raw value.
  pub write_signal-Written :
      (s : SignalDef float) (raw : ℤ) (bytes : List ℕ)
      → FitsIn s (length bytes)
      → IsBytes bytes
      → (ps : List Position) × (out : List ℕ) × (positions float s ≡ ok ps)
        × Layout (length bytes) s.length ps
        × (write_signal float s raw bytes ≡ ok out)
        × Written (as_u64 raw) 0 ps bytes out
  unfolding write_signal
  write_signal-Written s raw bytes fits small =
      let (ps, e, l) = positions-Layout s (length bytes) fits in
      let (out, w, written) =
        write_bits-Written (as_u64 raw) 0 ps bytes (omega (arith, l.counted, fits.width)) small
          l.inside l.distinct in
      (ps, out, e, l, rw (e, check_bounds-inside s ps bytes l.inside) w, written)

  -- Reading the bits of a value gives its low bits, with the sign extended.
  pub read_signal-Holds :
      (s : SignalDef float) (raw : ℕ) (bytes : List ℕ) (ps : List Position)
      → s.length ≤ 64
      → positions float s ≡ ok ps
      → Layout (length bytes) s.length ps
      → Holds raw 0 ps bytes
      → read_signal float s bytes ≡ from_bits (raw % 2 ^ s.length) s.length s.is_signed
  unfolding read_signal
  read_signal-Holds s raw bytes ps width e l holds =
      rw
        (
          e,
          check_bounds-inside s ps bytes l.inside,
          read_bits-Holds raw 0 0 ps bytes (omega (arith, l.counted)) l.inside holds (omega arith),
          l.counted,
          zero_plus,
        )
        refl

  -- A value that fits the signal's width, written into data that the signal fits, reads back; the
  -- data keeps its length.
  pub read_signal-write_signal :
      (s : SignalDef float) (raw : ℤ) (bytes : List ℕ)
      → FitsIn s (length bytes)
      → IsBytes bytes
      → IsI64 raw
      → Fits raw s.length s.is_signed
      → (out : List ℕ) × (write_signal float s raw bytes ≡ ok out)
        × (read_signal float s out ≡ ok raw)
        × (length out ≡ length bytes)
  read_signal-write_signal s raw bytes fits small i64 range =
      let (ps, out, e, l, w, written) = write_signal-Written s raw bytes fits small in
      (
        out,
        w,
        read_signal-Holds s (as_u64 raw) out ps fits.width e
              (subst (λ n. Layout n s.length ps) (sym written.same_length) l) written.holds
            ∙ from_bits-Fits raw s.length s.is_signed fits.width i64 range,
        written.same_length,
      )
