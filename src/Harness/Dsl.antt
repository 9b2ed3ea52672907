-- ===== src/Harness/Dsl.antt =====
-- Test specifications and their validation: crates/embrig-test/src/dsl.rs. `R` is the type of `f64`
-- values. The YAML parser is a library, given by its function `from_str`.
use Prim.Native.String.{◌++◌}
use embrig.Prelude.{
  ℕ, ◌+◌, Bool, true, false, not, ◌&&◌, ◌||◌, eqb, if◌then◌else◌, String, List, [], ◌∷◌, Option,
  none, some,
}
use embrig.Prelude.Map.{Map}
use embrig.Prelude.Fallible.{Fallible, ok, err, ◌>>=◌, or_panic, map_err}
use embrig.Prelude.Result as Result
use embrig.Harness.Duration.{
  DslError, bad_duration, load, bad_expect, bad_expect_udp, bad_fault, parse_duration,
}

pub data FaultKind : Type 0 where
  drop delay corrupt : FaultKind

pub data UdpFaultKind : Type 0 where
  drop delay corrupt : UdpFaultKind

pub data ExpectedValue (R : Type 0) : Type 0 where
  num : R → ExpectedValue R
  bool : Bool → ExpectedValue R
  str : String → ExpectedValue R

unfoldable pub describe : {R : Type 0} → (R → String) → ExpectedValue R → String
describe display (num v) = display v
describe display (bool b) = if b then "true" else "false"
describe display (str s) = "`" ++ s ++ "`"

pub record ExpectStep (R : Type 0) : Type 0 where
  pub id : ℕ
  pub signal : Option String
  pub equals : Option (ExpectedValue R)
  pub greater_than : Option R
  pub less_than : Option R
  pub present : Option Bool
  pub absent : Option Bool
  pub within : Option String

pub record ExpectUdpStep (R : Type 0) : Type 0 where
  pub message : String
  pub field : Option String
  pub equals : Option (ExpectedValue R)
  pub greater_than : Option R
  pub less_than : Option R
  pub present : Option Bool
  pub absent : Option Bool
  pub within : Option String

pub data Step (R : Type 0) : Type 0 where
  send : (id : ℕ) (bytes : List ℕ) → Step R
  set_signal : (ecu : String) (id : ℕ) (signal : String) → ExpectedValue R → Step R
  wait : (time : String) → Step R
  expect : ExpectStep R → Step R
  fault :
      FaultKind
      → (id : ℕ) → (after : Option String) (byte mask : Option ℕ) (start duration : Option String)
      → Step R
  send_udp : (message : String) (fields : Map String (ExpectedValue R)) → Step R
  set_field : (ecu message field : String) → ExpectedValue R → Step R
  expect_udp : ExpectUdpStep R → Step R
  fault_udp :
      UdpFaultKind
      → (message : String)
      → (after : Option String) (byte mask : Option ℕ) (start duration : Option String) → Step R

pub record TestSpec (R : Type 0) : Type 0 where
  pub name : String
  pub timeout : String
  pub steps : List (Step R)

abbrev is_none {ℓ} : {A : Type ℓ} → Option A → Bool
is_none none = true
is_none (some a) = false

-- `usize::from(o.is_some())`
abbrev count_some {ℓ} : {A : Type ℓ} → Option A → ℕ
count_some none = 0
count_some (some a) = 1

-- `if let Some(text) = ... { parse_duration(text)?; }`
unfoldable pub check_duration : Option String → Fallible DslError (Unit {0})
unfolding parse_duration
check_duration none = ok tt
check_duration (some text) = parse_duration text >>= λ t. ok tt

-- `absent` with the opposite sense, else `present`.
unfoldable pub effective_present : Option Bool → Option Bool → Option Bool
effective_present (some v) present = some (not v)
effective_present none present = present

-- The arguments that a kind of fault requires.
unfoldable pub check_fault :
    FaultKind → Option String → Option ℕ → Option ℕ → Fallible DslError (Unit {0})
unfolding parse_duration
check_fault FaultKind.drop after byte mask = ok tt
check_fault FaultKind.delay after byte mask =
    if is_none after
    then err (bad_fault "delay" "a `delay` duration is required")
    else (do text ← or_panic after; t ← parse_duration text; ok tt)
check_fault FaultKind.corrupt after byte mask =
    if is_none byte || is_none mask
    then err (bad_fault "corrupt" "both `byte` and `mask` are required")
    else ok tt

unfoldable pub check_fault_udp :
    UdpFaultKind → Option String → Option ℕ → Option ℕ → Fallible DslError (Unit {0})
unfolding parse_duration
check_fault_udp UdpFaultKind.drop after byte mask = ok tt
check_fault_udp UdpFaultKind.delay after byte mask =
    if is_none after
    then err (bad_fault "delay" "a `delay` duration is required")
    else (do text ← or_panic after; t ← parse_duration text; ok tt)
check_fault_udp UdpFaultKind.corrupt after byte mask =
    if is_none byte || is_none mask
    then err (bad_fault "corrupt" "both `byte` and `mask` are required")
    else ok tt

module _ {R : Type 0} where
  unfoldable pub validate : ExpectStep R → Fallible DslError (Unit {0})
  unfolding check_duration
  validate e =
      let ops =
        count_some e.equals
        + count_some e.greater_than
        + count_some e.less_than
        + count_some e.present
        + count_some e.absent in
      if not (eqb ops 1)
      then err (
          bad_expect e.id "exactly one of equals/greater_than/less_than/present/absent must be set")
      else if is_none e.present && is_none e.absent && is_none e.signal
      then err (bad_expect e.id "a signal name is required unless `present` or `absent` is used")
      else check_duration e.within

  unfoldable pub validate_udp : ExpectUdpStep R → Fallible DslError (Unit {0})
  unfolding check_duration
  validate_udp e =
      let ops =
        count_some e.equals
        + count_some e.greater_than
        + count_some e.less_than
        + count_some e.present
        + count_some e.absent in
      if not (eqb ops 1)
      then err (
          bad_expect_udp e.message
            "exactly one of equals/greater_than/less_than/present/absent must be set")
      else if is_none e.present && is_none e.absent && is_none e.field
      then err
          (bad_expect_udp e.message "a field name is required unless `present` or `absent` is used")
      else check_duration e.within

  -- The body of the loop over the steps.
  unfoldable pub validate_step : Step R → Fallible DslError (Unit {0})
  unfolding validate validate_udp check_fault check_fault_udp check_duration parse_duration
  validate_step (send id bytes) = ok tt
  validate_step (set_signal ecu id signal value) = ok tt
  validate_step (wait time) = parse_duration time >>= λ t. ok tt
  validate_step (expect spec) = validate spec
  validate_step (fault kind id after byte mask start duration) = do
    a ← check_duration duration
    b ← check_duration start
    check_fault kind after byte mask
  validate_step (send_udp message fields) = ok tt
  validate_step (set_field ecu message field value) = ok tt
  validate_step (expect_udp spec) = validate_udp spec
  validate_step (fault_udp kind message after byte mask start duration) = do
    a ← check_duration duration
    b ← check_duration start
    check_fault_udp kind after byte mask

  unfoldable pub validate_steps : List (Step R) → Fallible DslError (Unit {0})
  unfolding validate_step
  validate_steps [] = ok tt
  validate_steps (step ∷ steps) = do a ← validate_step step; validate_steps steps

  module _ (from_str : String → Result.Result String (TestSpec R)) where
    unfoldable pub load_spec_str : String → Fallible DslError (TestSpec R)
    unfolding validate_steps
    load_spec_str text = elim (from_str text) [
      | Result.err message ↦ err (load "<string>" message)
      | Result.ok spec ↦ (validate_steps spec.steps >>= λ a. ok spec)
    ]

    abbrev rename : String → DslError → DslError
    rename path (load old message) = load path message
    rename path (bad_duration input message) = bad_duration input message
    rename path (bad_expect id message) = bad_expect id message
    rename path (bad_expect_udp message message2) = bad_expect_udp message message2
    rename path (bad_fault kind message) = bad_fault kind message

    -- `load_spec` with the text that was read from the file at `path`, or the reader's error.
    unfoldable pub load_spec : String → Result.Result String String → Fallible DslError (TestSpec R)
    unfolding load_spec_str
    load_spec path (Result.err message) = err (load path message)
    load_spec path (Result.ok text) = map_err (rename path) (load_spec_str text)
