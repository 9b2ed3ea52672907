-- ===== src/Tests/Documents.antt =====
-- A DBC file of one message, its reading, and the theorem on the parser applied to it.
use Prim.Native.String.{◌++◌}
use embrig.Prelude.{ℕ, ◌^◌, ◌≡◌, refl, String, Option, none, some, [], ◌∷◌, false}
use embrig.Prelude.Int.{ℤ, pos}
use embrig.Prelude.Fallible.{ok, err}
use embrig.Dbc.Text.{
  trim, trim_matches, trim_start_matches, trim_end_matches, strip_prefix, starts_with, contains,
  split, split_whitespace, split_once, lines, digits, parse_unsigned, parse_signed,
}
use embrig.Dbc.Types.{intel, new}
use embrig.Dbc.SignalLine.{
  malformed_value_table, position, order_sign, parse_spec, parse_factor, parse_range, parse_sg,
}
use embrig.Dbc.Parser.{parse_bo, pairs_of, parse_val, push_signal, parse_line, parse_lines, parse}
use embrig.Dbc.SignalLine.Returns.{Gives}
use embrig.Dbc.Parser.Keyed.{Keyed, parse-Gives}
use embrig.Tests.Reals.{whole}

abbrev of_digits : Option ℕ → Option ℤ
of_digits none = none
of_digits (some n) = some (pos n)

abbrev parse_whole : String → Option ℤ
parse_whole s = of_digits (parse_unsigned (2 ^ 64) s)

abbrev status : String
status =
    "VERSION \"\"\n\nBO_ 256 Status: 8 Vector__XXX\n SG_ state : 24|8@1+ (1,0) [0|4] \"State\"  Vector__XXX\n"

abbrev with_symbols : String → String
with_symbols symbols = status ++ ("VAL_ 256 state " ++ (symbols ++ " ;\n"))

-- The message, its signal and the symbols of its values are read.
status-read :
    parse whole parse_whole (with_symbols "0 \"OFF\" 1 \"READY\"")
    ≡ ok (record {
      messages =
          (
            256,
            record {
              id = 256;
              name = "Status";
              dlc = 8;
              signals =
                  record {
                    name = "state";
                    start_bit = 24;
                    length = 8;
                    byte_order = intel;
                    is_signed = false;
                    factor = pos 1;
                    offset = pos 0;
                    unit = "State";
                    min = some (pos 0);
                    max = some (pos 4);
                    value_table = (pos 0, "OFF") ∷ (pos 1, "READY") ∷ [];
                  }
                  ∷ [];
            },
          )
          ∷ [];
    })
unfolding trim trim_matches trim_start_matches trim_end_matches strip_prefix starts_with contains
    split split_whitespace split_once lines digits parse_unsigned parse_signed position order_sign
    parse_spec parse_factor parse_range parse_sg parse_bo pairs_of parse_val push_signal parse_line
    parse_lines parse new
status-read = refl

-- A symbol with a space inside its quotes is read as two tokens, and refused.
spaced-refused :
    parse whole parse_whole (with_symbols "0 \"NOT READY\" 1 \"READY\"")
    ≡ err (malformed_value_table 5 "bad value `READY\"`")
unfolding trim trim_matches trim_start_matches trim_end_matches strip_prefix starts_with contains
    split split_whitespace split_once lines digits parse_unsigned parse_signed position order_sign
    parse_spec parse_factor parse_range parse_sg parse_bo pairs_of parse_val push_signal parse_line
    parse_lines parse new
spaced-refused = refl

parse-Gives_example : Gives (Keyed whole parse_whole) (parse whole parse_whole status)
parse-Gives_example = parse-Gives whole parse_whole status
