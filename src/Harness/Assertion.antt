-- ===== src/Harness/Assertion.antt =====
-- Assertions on what a poll observed: crates/embrig-test/src/runner.rs.
use Prim.Native.String.{◌++◌}
use embrig.Prelude.{Bool, true, false, not, if◌then◌else◌, String, Option, none, some}
use embrig.Prelude.Keys.{◌==◌, string_key}
use embrig.Prelude.Int.{pos}
use embrig.Prelude.Fallible.{Fallible, ok, err, panic, ◌>>=◌, or_err}
use embrig.Core.Float.{Float}
use embrig.Core.Signal.{SignalValue}
use embrig.Harness.Dsl.{ExpectedValue, num, bool, str, describe}

pub record Assertion (R : Type 0) : Type 0 where
  pub kind : String
  pub label : String
  pub field : String
  pub present : Option Bool
  pub equals : Option (ExpectedValue R)
  pub greater_than : Option R
  pub less_than : Option R

pub record DecodedValue (R : Type 0) : Type 0 where
  pub value : R
  pub symbol : Option String

pub record Observed (R : Type 0) : Type 0 where
  pub value : Option (DecodedValue R)

abbrev nothing : Unit {0}
nothing = tt

module _ (float : Float) where
  open float use {R, sub, abs, lt, le, literal, display}

  unfoldable pub expected_to_signal : ExpectedValue R → SignalValue R
  expected_to_signal (num v) = SignalValue.num v
  expected_to_signal (bool b) = SignalValue.num (if b then literal (pos 1) 0 else literal (pos 0) 0)
  expected_to_signal (str s) = SignalValue.str s

  abbrev symbol_is : Option String → String → Bool
  symbol_is none s = false
  symbol_is (some t) s = t == s

  abbrev same_bool : Bool → Bool → Bool
  same_bool true b = b
  same_bool false b = not b

  unfoldable pub passes_equals : DecodedValue R → ExpectedValue R → Bool
  passes_equals d (num v) = lt (abs (sub d.value v)) (literal (pos 1) 6)
  passes_equals d (bool b) = same_bool (lt (literal (pos 5) 1) d.value) b
  passes_equals d (str s) = symbol_is d.symbol s

  abbrev shown : DecodedValue R → String
  shown d = elim d.symbol [ none ↦ display d.value | some s ↦ s ]

  abbrev named : Assertion R → String
  named spec = spec.label ++ ("." ++ spec.field)

  -- The three comparisons, each of them when it is set.
  unfoldable pub check_equals :
      Assertion R → DecodedValue R → Option (ExpectedValue R) → Fallible String (Unit {0})
  unfolding passes_equals describe
  check_equals spec d none = ok nothing
  check_equals spec d (some expected) =
      if passes_equals d expected
      then ok nothing
      else err
          (named spec ++ (" expected " ++ (describe display expected ++ (", got " ++ shown d))))

  unfoldable pub check_greater :
      Assertion R → DecodedValue R → Option R → Fallible String (Unit {0})
  check_greater spec d none = ok nothing
  check_greater spec d (some v) =
      if le d.value v
      then err (named spec ++ (" expected > " ++ (display v ++ (", got " ++ display d.value))))
      else ok nothing

  unfoldable pub check_less : Assertion R → DecodedValue R → Option R → Fallible String (Unit {0})
  check_less spec d none = ok nothing
  check_less spec d (some v) =
      if le v d.value
      then err (named spec ++ (" expected < " ++ (display v ++ (", got " ++ display d.value))))
      else ok nothing

  abbrev value_of : Option (Observed R) → Option (DecodedValue R)
  value_of none = none
  value_of (some o) = o.value

  unfoldable pub check_present :
      Assertion R → Bool → Option (Observed R) → Fallible String (Unit {0})
  check_present spec true (some o) = ok nothing
  check_present spec false none = ok nothing
  check_present spec true none =
      err ("expected a " ++ (spec.kind ++ (" " ++ (spec.label ++ " to be present"))))
  check_present spec false (some o) = panic

  unfoldable pub check_assertion : Assertion R → Option (Observed R) → Fallible String (Unit {0})
  unfolding check_present check_equals check_greater check_less
  check_assertion spec obs = elim spec.present [
    | some present ↦ check_present spec present obs
    | none ↦ do
      value ← or_err (value_of obs) ("no " ++ (spec.kind ++ (" " ++ (spec.label ++ " observed"))))
      a ← check_equals spec value spec.equals
      b ← check_greater spec value spec.greater_than
      check_less spec value spec.less_than
  ]
