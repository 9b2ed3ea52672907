-- ===== src/Harness/Duration.antt =====
-- `parse_duration` of crates/embrig-test/src/dsl.rs, and the string functions of the standard library
-- that it calls.
pub mod RoundTrip
use Prim.Native.Char.{Char, code}
use Prim.Native.String.{[], ◌∷◌, ◌++◌}
use embrig.Prelude.{
  ℕ, ◌+◌, ◌-◌, ◌*◌, ◌^◌, Bool, true, false, not, ◌&&◌, ◌||◌, eqb, ltb, leb, if◌then◌else◌, String,
  Option, none, some,
}
use embrig.Prelude.Strings.{is_whitespace, is_empty, is_ascii_digit}
use embrig.Prelude.Keys.{◌==◌, string_key}
use embrig.Prelude.Panic.{mul_u64, u64_mod}
use embrig.Prelude.Fallible.{Fallible, ok, err, or_panic}
use embrig.Core.Time.{Timestamp, us_per_ms, us_per_s}

pub data DslError : Type 0 where
  bad_duration : (input message : String) → DslError
  load : (path message : String) → DslError
  bad_expect : ℕ → (message : String) → DslError
  bad_expect_udp : (message message2 : String) → DslError
  bad_fault : (kind message : String) → DslError

unfoldable pub trim_start : String → String
trim_start [] = []
trim_start (c ∷ s) = let rest = trim_start s in if is_whitespace c then rest else c ∷ s

abbrev push_front : Char → String → String
push_front c [] = if is_whitespace c then [] else c ∷ []
push_front c (d ∷ s) = c ∷ d ∷ s

unfoldable pub trim_end : String → String
trim_end [] = []
trim_end (c ∷ s) = push_front c (trim_end s)

-- The leading ASCII digits of a text, and the rest.
unfoldable pub split_digits : String → String × String
split_digits [] = ([], [])
split_digits (c ∷ s) =
    let (num, unit) = split_digits s in if is_ascii_digit c then (c ∷ num, unit) else ([], c ∷ s)

-- The value of ASCII digits, after those already read.
unfoldable pub digits_value : String → ℕ → ℕ
digits_value [] acc = acc
digits_value (c ∷ s) acc = digits_value s (acc * 10 + (code c - 48))

-- `num.parse::<u64>()` of ASCII digits: an error when there are none, or on overflow.
unfoldable pub parse_u64 : String → Option ℕ
unfolding digits_value
parse_u64 [] = none
parse_u64 (c ∷ s) =
    let value = digits_value (c ∷ s) 0 in if ltb value u64_mod then some value else none

unfoldable pub in_unit : String → ℕ → String → Fallible DslError Timestamp
in_unit input value unit =
    if unit == "us" || unit == "µs"
    then ok value
    else if unit == "ms"
    then or_panic (mul_u64 value us_per_ms)
    else if unit == "s"
    then or_panic (mul_u64 value us_per_s)
    else err (bad_duration input ("unknown unit `" ++ unit ++ "` (use us, ms or s)"))

-- A number with its unit, once the input is trimmed.
unfoldable pub parse_trimmed : String → Fallible DslError Timestamp
unfolding split_digits parse_u64 in_unit
parse_trimmed input =
    let (num, unit) = split_digits input in
    if is_empty unit
    then err (bad_duration input "missing unit (us, ms or s)")
    else elim (parse_u64 num) [
      | none ↦ err (bad_duration input ("`" ++ num ++ "` is not an integer"))
      | some value ↦ in_unit input value unit
    ]

unfoldable pub parse_duration : String → Fallible DslError Timestamp
unfolding trim_start trim_end parse_trimmed
parse_duration input = parse_trimmed (trim_end (trim_start input))
