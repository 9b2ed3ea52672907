-- ===== src/Dbc/Parser.antt =====
-- crates/embrig-dbc/src/parser.rs: the DBC parser. `parse::<f64>()` of the standard library is the
-- parameter `parse_f64`.
pub mod Keyed
use Prim.Native.Char.{Char, code}
use Prim.Native.String.{[], ◌∷◌, ◌++◌}
use embrig.Prelude.{
  ℕ, suc, ◌+◌, ◌^◌, Bool, true, false, ◌||◌, eqb, ltb, if◌then◌else◌, String, List, [], ◌∷◌, Option,
  none, some, length, get_elem?, ◌++◌ as append,
}
use embrig.Prelude.Keys.{◌==◌, nat_key, string_key}
use embrig.Prelude.Int.{ℤ, pos, int_key}
use embrig.Prelude.Map.{Map, get, insert}
use embrig.Prelude.Format.{decimal}
use embrig.Prelude.Fallible.{Fallible, ok, err, ◌>>=◌, or_err, or_panic}
use embrig.Core.Float.{Float}
use embrig.Prelude.Strings.{is_whitespace, is_empty}
use embrig.Dbc.Text.{
  same_char, trim, trim_start_matches, trim_end_matches, trim_matches, strip_prefix, starts_with,
  contains, split, split_whitespace, split_once, lines, parse_unsigned, parse_signed,
}
use embrig.Dbc.Types.{ByteOrder, intel, motorola, SignalDef, MessageDef, Network, new}
use embrig.Dbc.SignalLine.{ParseError, unexpected, malformed_value_table, parse_sg}

module _ (float : Float) (parse_f64 : String → Option float.R) where
  -- The message's entry replaces one with its id.
  unfoldable pub parse_bo : String → ℕ → Network float → Fallible ParseError (ℕ × Network float)
  unfolding split_whitespace parse_unsigned trim_end_matches
  parse_bo rest line network =
      let failure = unexpected line ("BO_ " ++ rest) in
      let tokens = split_whitespace rest in
      do
        id_s ← or_err (get_elem? tokens 0) failure
        id ← or_err (parse_unsigned (2 ^ 32) id_s) failure
        name_token ← or_err (get_elem? tokens 1) failure
        dlc_s ← or_err (get_elem? tokens 2) failure
        dlc ← or_err (parse_unsigned (2 ^ 8) dlc_s) failure
        ok (
          id,
          record {
            messages = insert network.messages id (record {
              id = id;
              name = trim_end_matches (same_char ":") name_token;
              dlc = dlc;
              signals = [];
            });
          },
        )

  -- The message with what a change makes of its first signal of a name; nothing when it has none.
  abbrev pub change_signal :
      String → (SignalDef float → SignalDef float) → List (SignalDef float) → List (SignalDef float)
  change_signal name change [] = []
  change_signal name change (s ∷ rest) =
      let later = change_signal name change rest in
      if s.name == name then change s ∷ rest else s ∷ later

  -- The values and symbols of a table, up to a `;` that stands alone.
  unfoldable pub pairs_of : ℕ → List String → Map ℤ String → Fallible ParseError (Map ℤ String)
  unfolding trim_end_matches trim_matches parse_signed
  pairs_of line [] table = ok table
  pairs_of line (value_s ∷ []) table =
      let text = trim_end_matches (same_char ";") value_s in
      if is_empty text then ok table else (do
        value ←
            or_err (parse_signed (2 ^ 63) text)
              (malformed_value_table line ("bad value `" ++ (text ++ "`")))
        err (malformed_value_table line "symbol missing for value"))
  pairs_of line (value_s ∷ (symbol ∷ rest)) table =
      let text = trim_end_matches (same_char ";") value_s in
      let next : ℤ → Fallible ParseError (Map ℤ String) =
        λ value. pairs_of line rest (insert table value (trim_matches (same_char "\"") symbol)) in
      if is_empty text
      then ok table
      else (or_err (parse_signed (2 ^ 63) text)
            (malformed_value_table line ("bad value `" ++ (text ++ "`")))
          >>= next)

  abbrev pub drop_two : List String → List String
  drop_two [] = []
  drop_two (a ∷ []) = []
  drop_two (a ∷ (b ∷ rest)) = rest

  abbrev pub named : String → List (SignalDef float) → Option (SignalDef float)
  named name [] = none
  named name (s ∷ rest) = if s.name == name then some s else named name rest

  -- A network whose message under `id` is replaced.
  abbrev pub with_message : Network float → ℕ → MessageDef float → Network float
  with_message network id m = record { messages = insert network.messages id m }

  unfoldable pub parse_val : String → ℕ → Network float → Fallible ParseError (Network float)
  unfolding split_whitespace parse_unsigned pairs_of
  parse_val rest line network =
      let tokens = split_whitespace rest in
      if ltb (length tokens) 3
      then err (malformed_value_table line "expected <id> <signal> <pairs>")
      else (do
        id_s ← or_panic (get_elem? tokens 0)
        id ←
            or_err (parse_unsigned (2 ^ 32) id_s)
              (malformed_value_table line ("bad message id `" ++ (id_s ++ "`")))
        name ← or_panic (get_elem? tokens 1)
        elim (get network.messages id) [
          | none ↦ ok network
          | some m ↦ elim (named name m.signals) [
            | none ↦ ok network
            | some s ↦ do
              table ← pairs_of line (drop_two tokens) s.value_table
              ok (
                  with_message network id (record m {
                    signals = change_signal name (λ s. record s { value_table = table }) m.signals;
                  }))
          ]
        ])

  -- The message being filled in, and the network so far.
  abbrev pub State : Type 0
  State = Option ℕ × Network float

  abbrev pub is_ignored : String → Bool
  is_ignored line = is_empty line || starts_with "//" line || starts_with "VERSION" line

  abbrev pub is_skipped : String → Bool
  is_skipped line =
      starts_with "BS_:" line
      || starts_with "NS_" line
      || starts_with "BU_:" line
      || starts_with "BA_" line
      || starts_with "CM_" line

  -- `get_mut(&id).expect(...).signals.push(signal)`
  unfoldable pub push_signal :
      Network float → ℕ → SignalDef float → Fallible ParseError (Network float)
  push_signal network id s = do
    m ← or_panic (get network.messages id)
    ok (with_message network id (record m { signals = append m.signals (s ∷ []) }))

  -- A line that is none of `BO_`, `SG_` and `VAL_`.
  abbrev pub other_line : String → ℕ → State → Fallible ParseError State
  other_line line line_no state =
      if is_skipped line then ok state else err (unexpected line_no line)

  abbrev pub on_val : String → ℕ → State → Fallible ParseError State
  on_val line line_no (current, network) = elim (strip_prefix "VAL_ " line) [
    | none ↦ other_line line line_no (current, network)
    | some rest ↦ do network' ← parse_val rest line_no network; ok (current, network')
  ]

  abbrev pub on_sg : String → ℕ → State → Fallible ParseError State
  on_sg line line_no (current, network) = elim (strip_prefix "SG_ " line) [
    | none ↦ on_val line line_no (current, network)
    | some rest ↦ do
      id ← or_err current (unexpected line_no line)
      s ← parse_sg float parse_f64 rest line_no
      network' ← push_signal network id s
      ok (current, network')
  ]

  -- The body of the loop over the lines, for a line that is trimmed.
  unfoldable pub parse_line : String → ℕ → State → Fallible ParseError State
  unfolding strip_prefix starts_with parse_bo parse_sg push_signal parse_val
  parse_line line line_no (current, network) =
      if is_ignored line then ok (current, network) else elim (strip_prefix "BO_ " line) [
        | none ↦ on_sg line line_no (current, network)
        | some rest ↦ do (id, network') ← parse_bo rest line_no network; ok (some id, network')
      ]

  unfoldable pub parse_lines : List String → ℕ → State → Fallible ParseError State
  unfolding parse_line trim
  parse_lines [] line_no state = ok state
  parse_lines (raw_line ∷ rest) line_no state = do
    state' ← parse_line (trim raw_line) line_no state
    parse_lines rest (line_no + 1) state'

  unfoldable pub parse : String → Fallible ParseError (Network float)
  unfolding lines parse_lines new
  parse input = do (current, network) ← parse_lines (lines input) 1 (none, new float); ok network
