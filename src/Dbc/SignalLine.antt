-- ===== src/Dbc/SignalLine.antt =====
-- The signal lines of the DBC parser, and its errors: `parse_sg` of crates/embrig-dbc/src/parser.rs.
-- `parse::<f64>()` of the standard library is the parameter `parse_f64`.
pub mod Returns
use Prim.Native.Char.{Char, code}
use Prim.Native.String.{[], ◌∷◌, ◌++◌}
use embrig.Prelude.{
  ℕ, suc, ◌+◌, ◌^◌, Bool, true, false, ◌||◌, eqb, ltb, if◌then◌else◌, String, List, [], ◌∷◌, Option,
  none, some, length, get_elem?, ◌++◌ as append,
}
use embrig.Prelude.Keys.{◌==◌, nat_key, string_key}
use embrig.Prelude.Int.{ℤ, pos, int_key}
use embrig.Prelude.Map.{Map, get, insert}
use embrig.Prelude.Format.{decimal}
use embrig.Prelude.Fallible.{Fallible, ok, err, ◌>>=◌, or_err, or_panic}
use embrig.Core.Float.{Float}
use embrig.Prelude.Strings.{is_whitespace, is_empty}
use embrig.Dbc.Text.{
  same_char, trim, trim_start_matches, trim_end_matches, trim_matches, strip_prefix, starts_with,
  contains, split, split_whitespace, split_once, lines, parse_unsigned, parse_signed,
}
use embrig.Dbc.Types.{ByteOrder, intel, motorola, SignalDef, MessageDef, Network, new}

pub data ParseError : Type 0 where
  unexpected : (line : ℕ) (text : String) → ParseError
  malformed_signal : (spec reason : String) → ParseError
  malformed_factor : (text reason : String) → ParseError
  malformed_value_table : (line : ℕ) (reason : String) → ParseError

abbrev at_line : ℕ → String
at_line line = "line " ++ decimal line

-- The first piece of an iterator.
abbrev pub first : List String → Option String
first [] = none
first (s ∷ rest) = some s

abbrev second : List String → Option String
second [] = none
second (s ∷ rest) = first rest

-- The place of the first token with a character.
unfoldable pub position : Char → List String → Option ℕ
unfolding contains
position c [] = none
position c (s ∷ rest) =
    let later = position c rest in
    if contains c s then some 0 else elim later [ none ↦ none | some i ↦ some (suc i) ]

-- The order and the sign of a signal, after the `@`.
unfoldable pub order_sign : String → Option (ByteOrder × Bool)
order_sign [] = none
order_sign (c ∷ []) = none
order_sign (c ∷ (d ∷ rest)) =
    let is_signed : Option Bool =
      if eqb (code d) 45 then some true else if eqb (code d) 43 then some false else none in
    let order : Option ByteOrder =
      if eqb (code c) 49 then some intel else if eqb (code c) 48 then some motorola else none in
    elim order [ none ↦ none | some o ↦ elim is_signed [ none ↦ none | some s ↦ some (o, s) ] ]

unfoldable pub parse_spec : String → ℕ → Fallible ParseError (ℕ × ℕ × ByteOrder × Bool)
unfolding split_once parse_unsigned order_sign
parse_spec spec line =
    let failure = malformed_signal spec (at_line line) in
    do
      (layout, sign) ← or_err (split_once "@" spec) failure
      (start_s, len_s) ← or_err (split_once "|" layout) failure
      start ← or_err (parse_unsigned (2 ^ 16) start_s) failure
      len ← or_err (parse_unsigned (2 ^ 16) len_s) failure
      (order, is_signed) ← or_err (order_sign sign) failure
      ok (start, len, order, is_signed)

module _ (float : Float) (parse_f64 : String → Option float.R) where
  open float use {R, literal}

  abbrev pub number : Option String → Option R
  number none = none
  number (some s) = parse_f64 (trim s)

  abbrev or_zero : Option R → R
  or_zero none = literal (pos 0) 0
  or_zero (some v) = v

  unfoldable pub parse_factor : String → ℕ → Fallible ParseError (R × R)
  unfolding trim trim_start_matches trim_end_matches split
  parse_factor text line =
      let inner =
        trim_end_matches (same_char ")") (trim_start_matches (same_char "(") (trim text)) in
      let parts = split (same_char ",") inner in
      do
        factor ← or_err (number (first parts)) (malformed_factor text (at_line line))
        ok (factor, or_zero (number (second parts)))

  unfoldable pub parse_range : String → Option (R × R)
  unfolding trim trim_start_matches trim_end_matches split
  parse_range text =
      let inner =
        trim_end_matches (same_char "]") (trim_start_matches (same_char "[") (trim text)) in
      let parts = split (same_char "|") inner in
      elim (number (first parts)) [
        | none ↦ none
        | some lo ↦ elim (number (second parts)) [ none ↦ none | some hi ↦ some (lo, hi) ]
      ]

  abbrev range_of : Option String → Option (R × R)
  range_of none = none
  range_of (some s) = parse_range s

  abbrev low : Option (R × R) → Option R
  low none = none
  low (some (lo, hi)) = some lo

  abbrev high : Option (R × R) → Option R
  high none = none
  high (some (lo, hi)) = some hi

  abbrev unit_of : Option String → String
  unit_of none = ""
  unit_of (some s) = trim_matches (same_char "\"") s

  unfoldable pub parse_sg : String → ℕ → Fallible ParseError (SignalDef float)
  unfolding split_whitespace position parse_spec parse_factor parse_range trim_matches
  parse_sg rest line =
      let failure = unexpected line ("SG_ " ++ rest) in
      let tokens = split_whitespace rest in
      if ltb (length tokens) 4 then err failure else (do
        name ← or_panic (get_elem? tokens 0)
        spec_idx ← or_err (position "@" tokens) failure
        spec ← or_panic (get_elem? tokens spec_idx)
        (start, len, order, is_signed) ← parse_spec spec line
        factor_text ← or_err (get_elem? tokens (spec_idx + 1)) failure
        (factor, shift) ← parse_factor factor_text line
        ok (record {
          name = name;
          start_bit = start;
          length = len;
          byte_order = order;
          is_signed = is_signed;
          factor = factor;
          offset = shift;
          unit = unit_of (get_elem? tokens (spec_idx + 3));
          min = low (range_of (get_elem? tokens (spec_idx + 2)));
          max = high (range_of (get_elem? tokens (spec_idx + 2)));
          value_table = [];
        }))
