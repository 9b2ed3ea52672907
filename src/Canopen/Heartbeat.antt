-- ===== src/Canopen/Heartbeat.antt =====
-- The heartbeat message of crates/embrig-canopen/src/codec.rs: one byte, the NMT state.
use Prim.Native.String.{◌++◌ as append}
use embrig.Prelude.{
  ℕ, ◌<◌, ◌≡◌, refl, true, if◌then◌else◌, String, List, [], ◌∷◌, Option, none, some,
}
use embrig.Prelude.Keys.{◌==◌, string_key}
use embrig.Prelude.Int.{ℤ, pos, int_key}
use embrig.Prelude.Fallible.{Fallible, ok, err, ◌>>=◌, or_err}
use embrig.Core.Float.{Float}
use embrig.Core.Signal.{DecodedSignal}
use embrig.Core.Codec.{MessageCodec}
use embrig.Canopen.{hb_boot_up, hb_stopped, hb_operational, hb_pre_operational}
use embrig.Canopen.Values.{as_u8, as_u8-lt, contains, lookup}

unfoldable pub symbol_for : String → ℤ → Option String
symbol_for name raw =
    if name == "state"
    then if raw == pos hb_boot_up
      then some "BOOT_UP"
      else if raw == pos hb_stopped
      then some "STOPPED"
      else if raw == pos hb_operational
      then some "OPERATIONAL"
      else if raw == pos hb_pre_operational
      then some "PRE_OPERATIONAL"
      else none
    else none

module _ (float : Float) where
  open float use {R, of_i64, round_i64, display}

  unfoldable pub check_value : String → R → Fallible String (Unit {0})
  check_value name value =
      if name == "state"
      then if contains float 255 value
        then ok tt
        else err (append "heartbeat state " (append (display value) " is out of range"))
      else err (append "no signal `" (append name "` on heartbeat"))

  unfoldable pub encode_signals : List (String × R) → Fallible String (List ℕ)
  encode_signals values = do
    state ← or_err (lookup float values "state") "heartbeat needs a `state` signal"
    checked ← check_value "state" state
    ok (as_u8 (round_i64 state) ∷ [])

  unfoldable pub physical_for_symbol : String → String → Option R
  physical_for_symbol name symbol =
      if name == "state"
      then if symbol == "BOOT_UP"
        then some (of_i64 (pos hb_boot_up))
        else if symbol == "STOPPED"
        then some (of_i64 (pos hb_stopped))
        else if symbol == "OPERATIONAL"
        then some (of_i64 (pos hb_operational))
        else if symbol == "PRE_OPERATIONAL"
        then some (of_i64 (pos hb_pre_operational))
        else none
      else none

  unfoldable pub decode_signals : List ℕ → Fallible String (List (DecodedSignal R))
  decode_signals [] = err "heartbeat frame is empty"
  decode_signals (state ∷ bytes) = ok (
      record { name = "state"; value = of_i64 (pos state); symbol = symbol_for "state" (pos state) }
      ∷ [])

  -- `data.first()`
  abbrev first_state : List ℕ → Fallible String R
  first_state [] = err "heartbeat frame is empty"
  first_state (state ∷ bytes) = ok (of_i64 (pos state))

  unfoldable pub decode_signal : List ℕ → String → Fallible String R
  decode_signal bytes name =
      if name == "state"
      then first_state bytes
      else err (append "no signal `" (append name "` on heartbeat"))

  unfoldable pub codec : ℕ → MessageCodec R
  codec id = record {
    id = id;
    encode_signals = encode_signals;
    check_value = check_value;
    physical_for_symbol = physical_for_symbol;
    symbol_for = symbol_for;
    decode_signals = decode_signals;
    decode_signal = decode_signal;
  }

  -- A state in 0 to 255 encodes to one byte, the rounded state, which decodes to its value.
  pub decode_signal-encode_signals_state :
      (values : List (String × R)) (state : R)
      → lookup float values "state" ≡ some state
      → contains float 255 state ≡ true
      → (byte : ℕ) × (encode_signals values ≡ ok (byte ∷ []))
        × (decode_signal (byte ∷ []) "state" ≡ ok (of_i64 (pos byte)))
        × (byte < 256)
        × (byte ≡ as_u8 (round_i64 state))
  unfolding encode_signals check_value decode_signal
  decode_signal-encode_signals_state values state given inside =
      (as_u8 (round_i64 state), rw (given, inside) refl, refl, as_u8-lt (round_i64 state), refl)
