-- ===== src/Dbc/Codec.antt =====
-- crates/embrig-dbc/src/codec.rs: packing signals into the data field of a frame.
pub mod Positions
pub mod Transfer
pub mod RoundTrip
pub mod Signals
pub mod Bounds
pub mod Layout
pub mod Messages
pub mod Given
pub mod Whole
use Prim.Native.Nat.{bit_or, max}
use embrig.Prelude.{
  ℕ, zero, suc, ◌+◌, ◌-◌, ◌*◌, ◌/◌, ◌%◌, ◌^◌, String, Bool, true, false, not, ◌&&◌, ◌||◌, List, [],
  ◌∷◌, ◌++◌, Option, none, some, length, get_elem?, set, replicate, ltb, leb, eqb, if◌then◌else◌,
}
use embrig.Prelude.Keys.{string_key}
use embrig.Prelude.Map.{Map, get, insert}
use embrig.Prelude.Int.{ℤ, pos, negsuc, as_u64, as_i64, leb_ℤ, int_key}
use embrig.Prelude.Bits.{test_bit, assign_bit}
use embrig.Prelude.Fallible.{Fallible, ok, err, panic, ◌>>=◌, or_panic}
use embrig.Core.Float.{Float}
use embrig.Dbc.Types.{ByteOrder, intel, motorola, Signal, SignalDef, MessageDef, signal}

-- `overflows` and `symbolic_value` are declared and never built.
pub data CodecError : Type 0 where
  overflows : ℕ → ℕ → CodecError
  signal_out_of_bounds : String → ℕ → ℕ → ℕ → CodecError
  symbolic_value : (name value : String) → CodecError
  unknown_symbol : (signal symbol : String) → CodecError
  short_data : ℕ → ℕ → CodecError
  value_out_of_range : ℤ → ℕ → CodecError

abbrev pub Position : Type 0
Position = ℕ × ℕ

-- `signal.start_bit + i`, a checked u16 sum, for each bit of the value.
unfoldable pub intel_positions : ℕ → ℕ → ℕ → Fallible CodecError (List Position)
intel_positions zero start i = ok []
intel_positions (suc n) start i =
    if ltb (start + i) 65536
    then (intel_positions n start (i + 1) >>= λ rest.
        ok (((start + i) / 8, (start + i) % 8) ∷ rest))
    else panic

-- The bit that follows in the saw-tooth order, towards the least significant one.
unfoldable pub next_motorola : ℕ → ℕ
next_motorola p = if eqb (p % 8) 0 then p + 15 else p - 1

-- From the most significant bit down; each later bit stands before it in the list.
unfoldable pub motorola_positions : ℕ → ℕ → List Position → List Position
motorola_positions zero p out = out
motorola_positions (suc n) p out = motorola_positions n (next_motorola p) ((p / 8, p % 8) ∷ out)

-- `positions.last()`
abbrev pub last? : List Position → Option Position
last? [] = none
last? (p ∷ []) = some p
last? (p ∷ q ∷ ps) = last? (q ∷ ps)

-- `1u64 << i` is a checked shift.
unfoldable pub write_bits : ℕ → ℕ → List Position → List ℕ → Fallible CodecError (List ℕ)
write_bits raw i [] bytes = ok bytes
write_bits raw i ((byte, bit) ∷ ps) bytes = if leb 64 i then panic else do
  b ← or_panic (get_elem? bytes byte)
  write_bits raw (i + 1) ps (set bytes byte (assign_bit b bit (test_bit raw i)))

unfoldable pub read_bits : ℕ → List Position → List ℕ → ℕ → Fallible CodecError ℕ
read_bits i [] bytes raw = ok raw
read_bits i ((byte, bit) ∷ ps) bytes raw = do
  b ← or_panic (get_elem? bytes byte)
  let more = read_bits (i + 1) ps bytes (bit_or raw (2 ^ i))
  let skip = read_bits (i + 1) ps bytes raw
  if test_bit b bit then (if leb 64 i then panic else more) else skip

unfoldable pub sign_extend : ℕ → ℕ → Fallible CodecError ℤ
sign_extend raw len =
    if eqb len 64
    then ok (as_i64 raw)
    else if eqb len 0
    then ok (as_i64 raw)
    else if ltb 64 len
    then panic
    else if test_bit raw (len - 1)
    then ok (as_i64 (bit_or raw (2 ^ 64 - 2 ^ len)))
    else ok (as_i64 raw)

-- `length - 1` of a signed signal is a checked u16 difference.
unfoldable pub fits_bits : ℤ → ℕ → Bool → Fallible CodecError Bool
fits_bits value len is_signed =
    if leb 64 len
    then ok true
    else if is_signed
    then if eqb len 0
      then panic
      else ok (leb_ℤ (negsuc (2 ^ (len - 1) - 1)) value && leb_ℤ value (pos (2 ^ (len - 1) - 1)))
    else ok (leb_ℤ (pos 0) value && leb (as_u64 value) (2 ^ len - 1))

module _ (float : Float) where
  open float use {R, add, sub, mul, div, is_nan, is_infinite, of_i64, round_i64, display}

  -- The (byte, bit) positions of a signal, from the least significant bit of the value up.
  unfoldable pub positions : SignalDef float → Fallible CodecError (List Position)
  unfolding intel_positions motorola_positions next_motorola
  positions s = elim s.byte_order [
    | intel ↦ intel_positions s.length s.start_bit 0
    | motorola ↦ ok (motorola_positions s.length s.start_bit [])
  ]

  -- The bounds test that reading and writing share: it looks at the last position only.
  unfoldable pub check_bounds :
      SignalDef float → List Position → List ℕ → Fallible CodecError (Unit {0})
  check_bounds s ps bytes = elim (last? ps) [
    | none ↦ ok tt
    | some p ↦
        if leb (length bytes) p.0
        then err (signal_out_of_bounds s.name s.start_bit s.length (length bytes))
        else ok tt
  ]

  unfoldable pub write_signal : SignalDef float → ℤ → List ℕ → Fallible CodecError (List ℕ)
  write_signal s raw bytes = do
    ps ← positions s
    checked ← check_bounds s ps bytes
    write_bits (as_u64 raw) 0 ps bytes

  unfoldable pub read_signal : SignalDef float → List ℕ → Fallible CodecError ℤ
  read_signal s bytes = do
    ps ← positions s
    checked ← check_bounds s ps bytes
    raw ← read_bits 0 ps bytes 0
    if s.is_signed then sign_extend raw s.length else ok (as_i64 raw)

  unfoldable pub physical_to_raw : SignalDef float → R → Fallible CodecError ℤ
  physical_to_raw s value =
      let raw_f = div (sub value s.offset) s.factor in
      let raw = round_i64 raw_f in
      if is_nan raw_f || is_infinite raw_f
      then err (value_out_of_range raw s.length)
      else (fits_bits raw s.length s.is_signed >>= λ fits.
          if not fits then err (value_out_of_range raw s.length) else ok raw)

  unfoldable pub raw_to_physical : SignalDef float → ℤ → R
  raw_to_physical s raw = add (mul (of_i64 raw) s.factor) s.offset

  -- `vec![0u8; self.dlc.max(1)]`
  unfoldable pub blank : MessageDef float → List ℕ
  blank m = replicate (max m.dlc 1) 0

  -- The values of known signals that fit; the others are left out without an error.
  unfoldable pub resolve_all :
      MessageDef float → List (String × R) → Map String ℤ → Fallible CodecError (Map String ℤ)
  resolve_all m [] resolved = ok resolved
  resolve_all m ((name, value) ∷ rest) resolved = elim (signal float m name) [
    | none ↦ resolve_all m rest resolved
    | some s ↦ elim (physical_to_raw s value) [
      | ok raw ↦ resolve_all m rest (insert resolved name raw)
      | err e ↦ resolve_all m rest resolved
      | panic ↦ panic
    ]
  ]

  unfoldable pub write_all :
      List (SignalDef float) → Map String ℤ → List ℕ → Fallible CodecError (List ℕ)
  write_all [] resolved bytes = ok bytes
  write_all (s ∷ rest) resolved bytes = elim (get resolved s.name) [
    | none ↦ write_all rest resolved bytes
    | some raw ↦ (write_signal s raw bytes >>= λ bytes'. write_all rest resolved bytes')
  ]

  unfoldable pub encode_signals :
      MessageDef float → List (String × R) → Fallible CodecError (List ℕ)
  encode_signals m values = do
    resolved ← resolve_all m values []
    write_all m.signals resolved (blank m)

  unfoldable pub encode_signal : MessageDef float → String → R → Fallible CodecError (List ℕ)
  encode_signal m name value = elim (signal float m name) [
    | none ↦ err (unknown_symbol name (display value))
    | some s ↦ (physical_to_raw s value >>= λ raw. write_signal s raw (blank m))
  ]

  unfoldable pub decode_all :
      List (SignalDef float) → List ℕ → Fallible CodecError (List (Signal float))
  decode_all [] bytes = ok []
  decode_all (s ∷ rest) bytes = do
    raw ← read_signal s bytes
    signals ← decode_all rest bytes
    ok (
        record {
          name = s.name;
          value = raw_to_physical s raw;
          unit = s.unit;
          symbol = get s.value_table raw;
        }
        ∷ signals)

  unfoldable pub decode_signals :
      MessageDef float → List ℕ → Fallible CodecError (List (Signal float))
  decode_signals m bytes =
      if ltb (length bytes) m.dlc
      then err (short_data (length bytes) m.dlc)
      else decode_all m.signals bytes

  unfoldable pub decode_signal : MessageDef float → List ℕ → String → Fallible CodecError R
  decode_signal m bytes name = elim (signal float m name) [
    | none ↦ err (unknown_symbol name "")
    | some s ↦ (read_signal s bytes >>= λ raw. ok (raw_to_physical s raw))
  ]

  unfoldable pub check_value : MessageDef float → String → R → Fallible CodecError (Unit {0})
  check_value m name value = elim (signal float m name) [
    | none ↦ err (unknown_symbol name (display value))
    | some s ↦ (physical_to_raw s value >>= λ raw. ok tt)
  ]
