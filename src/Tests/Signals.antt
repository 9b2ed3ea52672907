-- ===== src/Tests/Signals.antt =====
-- The theorems on the DBC codec, applied to a message of two signals: a signed Intel signal of 12
-- bits from bit 4, and a Motorola signal of 16 bits whose most significant bit is bit 7 of byte 4.
use embrig.Prelude.{
  ℕ, ◌≡◌, All, Bool, not, ◌&&◌, eqb, refl, List, [], ◌∷◌, none, arith, true, false, length,
  replicate, map,
}
use embrig.Prelude.Keys.{string_key}
use embrig.Prelude.Int.{pos, negsuc}
use embrig.Prelude.Fallible.{ok, err, panic}
use embrig.Dbc.Types.{intel, motorola, SignalDef, MessageDef, signal}
use embrig.Dbc.Codec.{
  Position, positions, write_signal, read_signal, encode_signals, decode_signals, fits_bits,
  intel_positions, motorola_positions, next_motorola,
}
use embrig.Dbc.Codec.Signals.{FitsIn, read_signal-write_signal}
use embrig.Dbc.Codec.Layout.{Disjoint, AllApart, places, read_signal-write_other}
use embrig.Dbc.Codec.Positions.{Apart}
use embrig.Dbc.Codec.Transfer.{IsBytes}
use embrig.Dbc.Codec.Bounds.{out_of_bounds, intel-refused, motorola-panics}
use embrig.Dbc.Codec.Messages.{blank-IsBytes}
use embrig.Dbc.Codec.Given.{given}
use embrig.Dbc.Codec.Whole.{IsLaidOut, decoded, decode_signals-encode_signals}
use embrig.Tests.Reals.{whole}

abbrev speed : SignalDef whole
speed = record {
  name = "speed";
  start_bit = 4;
  length = 12;
  byte_order = intel;
  is_signed = true;
  factor = pos 2;
  offset = pos 10;
  unit = "";
  min = none;
  max = none;
  value_table = [];
}

abbrev load : SignalDef whole
load = record {
  name = "load";
  start_bit = 39;
  length = 16;
  byte_order = motorola;
  is_signed = false;
  factor = pos 1;
  offset = pos 0;
  unit = "";
  min = none;
  max = none;
  value_table = [];
}

abbrev status : MessageDef whole
status = record { id = 256; name = "Status"; dlc = 8; signals = speed ∷ load ∷ [] }

abbrev zeros : List ℕ
zeros = replicate 8 0

speed-FitsIn : FitsIn whole speed 8
speed-FitsIn = record { width = omega arith; numbers = omega arith; ends = omega arith }

load-FitsIn : FitsIn whole load 8
load-FitsIn = record { width = omega arith; numbers = omega arith; ends = omega arith }

-- A test of bits for being apart.
abbrev apart : Position → Position → Bool
apart p q = not (eqb p.0 q.0 && eqb p.1 q.1)

abbrev apart_from : Position → List Position → Bool
apart_from q [] = true
apart_from q (p ∷ ps) = apart p q && apart_from q ps

abbrev all_apart : List Position → List Position → Bool
all_apart ps [] = true
all_apart ps (q ∷ qs) = apart_from q ps && all_apart ps qs

apart-Apart : (p q : Position) → apart p q ≡ true → Apart p q
apart-Apart p q h = ground arith

apart_from-All :
    (q : Position) (ps : List Position) → apart_from q ps ≡ true → All (λ p. Apart p q) ps
apart_from-All q [] h = tt
apart_from-All q (p ∷ ps) h = ground (arith, apart_from-All q ps, apart-Apart p q)

all_apart-AllApart : (ps qs : List Position) → all_apart ps qs ≡ true → AllApart ps qs
all_apart-AllApart ps [] h = tt
all_apart-AllApart ps (q ∷ qs) h = ground (arith, all_apart-AllApart ps qs, apart_from-All q ps)

speed-load-Disjoint : Disjoint whole speed load
unfolding positions intel_positions motorola_positions next_motorola
speed-load-Disjoint = all_apart-AllApart (places whole speed) (places whole load) refl

zeros-IsBytes : IsBytes zeros
zeros-IsBytes = blank-IsBytes whole 8

read_signal-write_signal_example :
    (out : List ℕ) × (write_signal whole speed (negsuc 4) zeros ≡ ok out)
    × (read_signal whole speed out ≡ ok (negsuc 4))
    × (length out ≡ 8)
unfolding fits_bits
read_signal-write_signal_example =
    read_signal-write_signal whole speed (negsuc 4) zeros speed-FitsIn zeros-IsBytes
      (omega arith, omega arith) refl

intel-refused_example :
    (write_signal whole speed (pos 3) (0 ∷ []) ≡ err (out_of_bounds whole speed (0 ∷ [])))
    × (read_signal whole speed (0 ∷ []) ≡ err (out_of_bounds whole speed (0 ∷ [])))
intel-refused_example =
    intel-refused whole speed (pos 3) (0 ∷ []) 11 refl refl (omega arith) (omega arith)

-- Five bytes hold the first byte of the Motorola signal and not the second.
motorola-panics_example :
    (write_signal whole load (pos 3) (replicate 5 0) ≡ panic)
    × (read_signal whole load (replicate 5 0) ≡ panic)
motorola-panics_example =
    motorola-panics whole load (pos 3) (replicate 5 0) 15 refl refl (omega arith) (omega arith)

status-IsLaidOut : IsLaidOut whole status
unfolding signal
status-IsLaidOut = record {
  named = (refl, (refl, tt));
  filled = (omega arith, (omega arith, tt));
  fit = (speed-FitsIn, (load-FitsIn, tt));
  disjoint = ((speed-load-Disjoint, tt), (tt, tt));
}

decode_signals-encode_signals_example :
    (out : List ℕ) × (encode_signals whole status (("speed", pos 4) ∷ []) ≡ ok out)
    × (decode_signals whole status out
        ≡ ok (
            map
              (λ s. decoded whole s (given whole s (("speed", pos 4) ∷ []) (pos 0)))
              status.signals))
decode_signals-encode_signals_example =
    decode_signals-encode_signals whole status (("speed", pos 4) ∷ []) status-IsLaidOut

read_signal-write_other_example :
    (out : List ℕ) × (write_signal whole speed (pos 100) zeros ≡ ok out)
    × (read_signal whole load out ≡ read_signal whole load zeros)
read_signal-write_other_example =
    read_signal-write_other whole speed load (pos 100) zeros speed-FitsIn load-FitsIn
      speed-load-Disjoint zeros-IsBytes
