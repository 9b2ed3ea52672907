-- ===== src/Dbc/Text.antt =====
-- The string functions of the standard library that crates/embrig-dbc/src/parser.rs calls.
use Prim.Native.Char.{Char, code}
use Prim.Native.String.{[], ◌∷◌}
use mathlib.Core.List.{List, [], ◌∷◌}
use embrig.Prelude.{
  ℕ, ◌+◌, ◌-◌, ◌*◌, Bool, true, false, ◌&&◌, ◌||◌, eqb, ltb, if◌then◌else◌, String, Option, none,
  some,
}
use embrig.Prelude.Strings.{is_whitespace, is_empty, is_ascii_digit}
use embrig.Prelude.Int.{ℤ, pos, sub_ℕ}

abbrev pub same_char : Char → Char → Bool
same_char c d = eqb (code c) (code d)

-- A text without the characters of a kind at its start, and at its end.
unfoldable pub trim_start_matches : (Char → Bool) → String → String
trim_start_matches p [] = []
trim_start_matches p (c ∷ s) = let rest = trim_start_matches p s in if p c then rest else c ∷ s

unfoldable pub trim_end_matches : (Char → Bool) → String → String
trim_end_matches p [] = []
trim_end_matches p (c ∷ s) =
    let rest = trim_end_matches p s in if is_empty rest && p c then [] else c ∷ rest

unfoldable pub trim_matches : (Char → Bool) → String → String
unfolding trim_start_matches trim_end_matches
trim_matches p s = trim_end_matches p (trim_start_matches p s)

unfoldable pub trim : String → String
unfolding trim_matches
trim s = trim_matches is_whitespace s

-- The rest of a text after a prefix.
unfoldable pub strip_prefix : String → String → Option String
strip_prefix [] s = some s
strip_prefix (p ∷ ps) [] = none
strip_prefix (p ∷ ps) (c ∷ s) = let rest = strip_prefix ps s in if same_char p c then rest else none

unfoldable pub starts_with : String → String → Bool
unfolding strip_prefix
starts_with prefix s = elim (strip_prefix prefix s) [ none ↦ false | some rest ↦ true ]

unfoldable pub contains : Char → String → Bool
contains d [] = false
contains d (c ∷ s) = same_char c d || contains d s

-- A character in front of the first piece.
abbrev in_front : Char → List String → List String
in_front c [] = (c ∷ []) ∷ []
in_front c (s ∷ pieces) = (c ∷ s) ∷ pieces

unfoldable pub split : (Char → Bool) → String → List String
split p [] = [] ∷ []
split p (c ∷ s) = let pieces = split p s in if p c then [] ∷ pieces else in_front c pieces

abbrev non_empty : List String → List String
non_empty [] = []
non_empty (s ∷ pieces) = if is_empty s then non_empty pieces else s ∷ non_empty pieces

unfoldable pub split_whitespace : String → List String
unfolding split
split_whitespace s = non_empty (split is_whitespace s)

-- The texts before and after the first place of a character.
unfoldable pub split_once : Char → String → Option (String × String)
split_once d [] = none
split_once d (c ∷ s) =
    let later = split_once d s in
    if same_char c d
    then some ([], s)
    else elim later [ none ↦ none | some (before, after) ↦ some (c ∷ before, after) ]

abbrev starts_line : String → Bool
starts_line [] = false
starts_line (c ∷ s) = eqb (code c) 10

-- Lines end with a line feed, or with a carriage return and a line feed; the last one may be without.
unfoldable pub lines : String → List String
lines [] = []
lines (c ∷ s) =
    let rest = lines s in
    if eqb (code c) 10
    then [] ∷ rest
    else if eqb (code c) 13 && starts_line s
    then rest
    else in_front c rest

-- The value of decimal digits, after those already read; nothing when another character is among them.
unfoldable pub digits : String → ℕ → Option ℕ
digits [] acc = some acc
digits (c ∷ s) acc =
    let rest = digits s (acc * 10 + (code c - 48)) in if is_ascii_digit c then rest else none

abbrev some_digits : String → Option ℕ
some_digits [] = none
some_digits (c ∷ s) = digits (c ∷ s) 0

abbrev below : ℕ → Option ℕ → Option ℕ
below bound none = none
below bound (some n) = if ltb n bound then some n else none

-- `parse` of an unsigned integer type: digits, after a plus that may be there.
unfoldable pub parse_unsigned : ℕ → String → Option ℕ
unfolding digits
parse_unsigned bound [] = none
parse_unsigned bound (c ∷ s) = below bound (some_digits (if eqb (code c) 43 then s else c ∷ s))

abbrev of_sign : (ℕ → ℤ) → Option ℕ → Option ℤ
of_sign sign none = none
of_sign sign (some n) = some (sign n)

-- `parse` of a signed integer type of the magnitude `bound`: digits, after a sign that may be there.
unfoldable pub parse_signed : ℕ → String → Option ℤ
unfolding digits
parse_signed bound [] = none
parse_signed bound (c ∷ s) =
    if eqb (code c) 45
    then of_sign (sub_ℕ 0) (below (bound + 1) (some_digits s))
    else of_sign pos (below bound (some_digits (if eqb (code c) 43 then s else c ∷ s)))
