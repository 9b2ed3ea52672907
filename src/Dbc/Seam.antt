-- ===== src/Dbc/Seam.antt =====
-- The DBC types behind the codec seam: the end of crates/embrig-dbc/src/codec.rs. The text of an
-- error, which a library derives, is a parameter.
use embrig.Prelude.{ℕ, String, List, [], ◌∷◌, Option, none, some, find, map}
use embrig.Prelude.Keys.{◌==◌, string_key, nat_key}
use embrig.Prelude.Map.{Map}
use embrig.Prelude.Fallible.{ok, ◌>>=◌, map_err}
use embrig.Core.Float.{Float}
use embrig.Core.Signal.{DecodedSignal}
use embrig.Core.Codec.{MessageCodec, SignalCodec}
use embrig.Dbc.Types.{MessageDef, Signal, Network, message, physical_for_symbol, symbol_for}
use embrig.Dbc.Codec.{CodecError, encode_signals, check_value, decode_signals, decode_signal}

module _ (float : Float) (to_string : CodecError → String) where
  open float use {R}

  abbrev pub to_decoded : Signal float → DecodedSignal R
  to_decoded s = record { name = s.name; value = s.value; symbol = s.symbol }

  unfoldable pub message_codec : MessageDef float → MessageCodec R
  message_codec m = record {
    id = m.id;
    encode_signals = λ values. map_err to_string (encode_signals float m values);
    check_value = λ name value. map_err to_string (check_value float m name value);
    physical_for_symbol = physical_for_symbol float m;
    symbol_for = symbol_for float m;
    decode_signals = λ bytes.
        map_err to_string (decode_signals float m bytes >>= λ signals. ok (map to_decoded signals));
    decode_signal = λ bytes name. map_err to_string (decode_signal float m bytes name);
  }

  -- `self.messages.values()`
  abbrev pub values : Map ℕ (MessageDef float) → List (MessageDef float)
  values [] = []
  values ((id, m) ∷ rest) = m ∷ values rest

  abbrev pub as_codec : Option (MessageDef float) → Option (MessageCodec R)
  as_codec none = none
  as_codec (some m) = some (message_codec m)

  unfoldable pub signal_codec : Network float → SignalCodec R
  signal_codec n = record {
    message_by_id = λ id. as_codec (message float n id);
    message_by_name = λ name. as_codec (find (λ m. m.name == name) (values n.messages));
  }
