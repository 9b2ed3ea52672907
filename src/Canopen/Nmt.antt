-- ===== src/Canopen/Nmt.antt =====
-- The NMT message of crates/embrig-canopen/src/codec.rs: two bytes, the node and the command.
use Prim.Native.String.{◌++◌ as append}
use embrig.Prelude.{
  ℕ, ◌≡◌, refl, true, if◌then◌else◌, String, List, [], ◌∷◌, Option, none, some, length,
}
use embrig.Prelude.Keys.{◌==◌, string_key}
use embrig.Prelude.Int.{ℤ, pos, int_key}
use embrig.Prelude.Format.{decimal}
use embrig.Prelude.Fallible.{Fallible, ok, err, ◌>>=◌, or_err}
use embrig.Core.Float.{Float}
use embrig.Core.Signal.{DecodedSignal}
use embrig.Core.Codec.{MessageCodec}
use embrig.Canopen.{nmt_start, nmt_stop, nmt_pre_operational}
use embrig.Canopen.Values.{as_u8, contains, lookup}

unfoldable pub symbol_for : String → ℤ → Option String
symbol_for name raw =
    if name == "command"
    then if raw == pos nmt_start
      then some "START"
      else if raw == pos nmt_stop
      then some "STOP"
      else if raw == pos nmt_pre_operational
      then some "PRE_OPERATIONAL"
      else none
    else none

abbrev short : List ℕ → String
short bytes = append "NMT frame needs 2 bytes, got " (decimal (length bytes))

module _ (float : Float) where
  open float use {R, of_i64, round_i64, display}

  unfoldable pub check_value : String → R → Fallible String (Unit {0})
  check_value name value =
      if name == "node"
      then if contains float 127 value
        then ok tt
        else err (append "NMT node id " (append (display value) " is out of range"))
      else if name == "command"
      then if contains float 255 value
        then ok tt
        else err (append "NMT command " (append (display value) " is out of range"))
      else err (append "no signal `" (append name "` on NMT"))

  unfoldable pub encode_signals : List (String × R) → Fallible String (List ℕ)
  encode_signals values = do
    node ← or_err (lookup float values "node") "NMT needs a `node` signal"
    command ← or_err (lookup float values "command") "NMT needs a `command` signal"
    node_checked ← check_value "node" node
    command_checked ← check_value "command" command
    ok (as_u8 (round_i64 node) ∷ as_u8 (round_i64 command) ∷ [])

  unfoldable pub physical_for_symbol : String → String → Option R
  physical_for_symbol name symbol =
      if name == "command"
      then if symbol == "START"
        then some (of_i64 (pos nmt_start))
        else if symbol == "STOP"
        then some (of_i64 (pos nmt_stop))
        else if symbol == "PRE_OPERATIONAL"
        then some (of_i64 (pos nmt_pre_operational))
        else none
      else none

  unfoldable pub decode_signals : List ℕ → Fallible String (List (DecodedSignal R))
  decode_signals [] = err (short [])
  decode_signals (node ∷ []) = err (short (node ∷ []))
  decode_signals (node ∷ command ∷ bytes) = ok (
      record { name = "node"; value = of_i64 (pos node); symbol = none }
      ∷ record {
        name = "command";
        value = of_i64 (pos command);
        symbol = symbol_for "command" (pos command);
      }
      ∷ [])

  unfoldable pub decode_signal : List ℕ → String → Fallible String R
  decode_signal [] name = err (short [])
  decode_signal (node ∷ []) name = err (short (node ∷ []))
  decode_signal (node ∷ command ∷ bytes) name =
      if name == "node"
      then ok (of_i64 (pos node))
      else if name == "command"
      then ok (of_i64 (pos command))
      else err (append "no signal `" (append name "` on NMT"))

  unfoldable pub codec : ℕ → MessageCodec R
  codec id = record {
    id = id;
    encode_signals = encode_signals;
    check_value = check_value;
    physical_for_symbol = physical_for_symbol;
    symbol_for = symbol_for;
    decode_signals = decode_signals;
    decode_signal = decode_signal;
  }

  -- A node in 0 to 127 and a command in 0 to 255 encode to two bytes, which decode to their values.
  pub decode_signal-encode_signals :
      (values : List (String × R)) (node command : R)
      → lookup float values "node" ≡ some node
      → lookup float values "command" ≡ some command
      → contains float 127 node ≡ true
      → contains float 255 command ≡ true
      → (bytes : List ℕ) × (encode_signals values ≡ ok bytes)
        × (length bytes ≡ 2)
        × (decode_signal bytes "node" ≡ ok (of_i64 (pos (as_u8 (round_i64 node)))))
        × (decode_signal bytes "command" ≡ ok (of_i64 (pos (as_u8 (round_i64 command)))))
  unfolding encode_signals check_value decode_signal
  decode_signal-encode_signals values node command has_node has_command node_in command_in = (
    as_u8 (round_i64 node) ∷ as_u8 (round_i64 command) ∷ [],
    rw (has_node, has_command, node_in, command_in) refl,
    refl,
    refl,
    refl,
  )
