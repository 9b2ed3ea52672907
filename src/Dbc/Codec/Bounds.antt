-- ===== src/Dbc/Codec/Bounds.antt =====
-- What `write_signal` and `read_signal` of crates/embrig-dbc/src/codec.rs do with a signal that
-- does not fit the data.
use embrig.Prelude.{
  ℕ, suc, ◌+◌, ◌*◌, ◌/◌, ◌%◌, ◌≤◌, ◌<◌, ◌≡◌, sym, ap, ◌∙◌, List, [], ◌∷◌, some, arith, length,
  le→leb, get_elem?-none,
}
use embrig.Prelude.Int.{ℤ}
use embrig.Prelude.Fallible.{ok, err, panic}
use embrig.Core.Float.{Float}
use embrig.Dbc.Types.{intel, motorola, SignalDef}
use embrig.Dbc.Codec.{
  Position, CodecError, signal_out_of_bounds, positions, check_bounds, last?, read_bits, write_bits,
  write_signal, read_signal, intel_positions, motorola_positions,
}
use embrig.Dbc.Codec.Positions.{intel-last, motorola_index, motorola-first, motorola-start}

module _ (float : Float) where
  -- The error that names the signal and the data.
  abbrev pub out_of_bounds : SignalDef float → List ℕ → CodecError
  out_of_bounds s bytes = signal_out_of_bounds s.name s.start_bit s.length (length bytes)

  positions_intel :
      (s : SignalDef float)
      → s.byte_order ≡ intel
      → positions float s ≡ intel_positions s.length s.start_bit 0
  unfolding positions
  positions_intel s o = rw (o, positions)

  positions_motorola :
      (s : SignalDef float)
      → s.byte_order ≡ motorola
      → positions float s ≡ ok (motorola_positions s.length s.start_bit [])
  unfolding positions
  positions_motorola s o = rw (o, positions)

  check_bounds-outside :
      (s : SignalDef float) (ps : List Position) (bytes : List ℕ) (p : Position)
      → last? ps ≡ some p
      → length bytes ≤ p.0
      → check_bounds float s ps bytes ≡ err (out_of_bounds s bytes)
  unfolding check_bounds
  check_bounds-outside s ps bytes p e h = rw (e, le→leb (length bytes) p.0 h, check_bounds)

  check_bounds-passes :
      (s : SignalDef float) (ps : List Position) (bytes : List ℕ) (p : Position)
      → last? ps ≡ some p
      → p.0 < length bytes
      → check_bounds float s ps bytes ≡ ok tt
  unfolding check_bounds
  check_bounds-passes s ps bytes p e h = rw (e, check_bounds) (ground arith)

  -- An Intel signal of at least one bit whose most significant bit lies past the data, and whose start
  -- bit and length come to at most 65536, is refused with the out-of-bounds error, by the write of any
  -- value and by the read.
  pub intel-refused :
      (s : SignalDef float) (raw : ℤ) (bytes : List ℕ) (n : ℕ)
      → s.byte_order ≡ intel
      → s.length ≡ suc n
      → s.start_bit + s.length ≤ 65536
      → length bytes ≤ (s.start_bit + n) / 8
      → (write_signal float s raw bytes ≡ err (out_of_bounds s bytes))
        × (read_signal float s bytes ≡ err (out_of_bounds s bytes))
  unfolding write_signal read_signal
  intel-refused s raw bytes n o len numbers past =
      let (ps, e, l) = intel-last n s.start_bit 0 (omega (arith, len, numbers)) in
      let at = check_bounds-outside s ps bytes _ l (omega arith) in
      let found = positions_intel s o ∙ ap (λ (k : ℕ). intel_positions k s.start_bit 0) len ∙ e in
      (rw (found, at), rw (found, at))

  -- The bounds test of a Motorola signal looks at its most significant bit: when that lies in the
  -- data and the least significant bit lies past it, the write of any value and the read panic.
  pub motorola-panics :
      (s : SignalDef float) (raw : ℤ) (bytes : List ℕ) (n : ℕ)
      → s.byte_order ≡ motorola
      → s.length ≡ suc n
      → s.start_bit / 8 < length bytes
      → length bytes * 8 ≤ motorola_index (s.start_bit / 8, s.start_bit % 8) + n
      → (write_signal float s raw bytes ≡ panic) × (read_signal float s bytes ≡ panic)
  unfolding write_signal read_signal write_bits read_bits
  motorola-panics s raw bytes n o len inside past =
      let (q, rest, e, index) = motorola-first n s.start_bit [] in
      let found =
        positions_motorola s o
        ∙ ap (λ (k : ℕ). ok (motorola_positions k s.start_bit [])) len
        ∙ ap ok e in
      let at =
        check_bounds-passes s (q ∷ rest) bytes _ (ap last? (sym e) ∙ motorola-start n s.start_bit)
          inside in
      let out = get_elem?-none bytes q.0 (omega (arith, index, past)) in
      (rw (found, at, out, write_bits), rw (found, at, out, read_bits))
