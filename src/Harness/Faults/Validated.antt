-- ===== src/Harness/Faults/Validated.antt =====
-- Fault steps that `load_spec_str` of crates/embrig-test/src/dsl.rs accepted, as
-- crates/embrig-test/src/runner.rs runs them.
use embrig.Prelude.{ℕ, String, Option, none, some, ◌≡◌, refl}
use embrig.Prelude.Fallible.{ok, ◌>>=◌, >>=-eq-ok}
use embrig.Core.Time.{Timestamp}
use embrig.Core.Float.{Float}
use embrig.Core.Fault.{Fault, drop_frame, delay_frame, corrupt_byte}
use embrig.Harness.Duration.{parse_duration}
use embrig.Harness.Dsl.{FaultKind, fault, check_duration, check_fault, validate_step}
use embrig.Harness.Target.{TestTarget}
use embrig.Harness.Faults.{fault_from_kind}
use embrig.Harness.Steps.{Texts, answer_text, optional_duration, or_some}
use embrig.Harness.Exec.{exec_step}

-- The fault that the arguments of a step describe.
abbrev pub Requested : FaultKind → ℕ → Option String → (byte mask : Option ℕ) → Fault → Type 0
Requested FaultKind.drop id after byte mask f = f ≡ drop_frame id
Requested FaultKind.delay id after byte mask f =
    (text : String) × (d : Timestamp) × (after ≡ some text)
    × (parse_duration text ≡ ok d)
    × (f ≡ delay_frame id d)
Requested FaultKind.corrupt id after byte mask f =
    (b m : ℕ) × (byte ≡ some b) × (mask ≡ some m) × (f ≡ corrupt_byte id b m)

-- The time that an optional duration says.
abbrev pub Read : Option String → Option Timestamp → Type 0
Read none time = time ≡ none
Read (some text) time = (d : Timestamp) × (parse_duration text ≡ ok d) × (time ≡ some d)

-- A fault whose arguments passed the validation is built, without an error or a panic.
fault_from_kind-validated :
    (kind : FaultKind) (id : ℕ) (after : Option String) (byte mask : Option ℕ)
    → check_fault kind after byte mask ≡ ok tt
    → (f : Fault) × (fault_from_kind kind id after byte mask ≡ ok f)
      × Requested kind id after byte mask f
unfolding check_fault fault_from_kind
fault_from_kind-validated FaultKind.drop id after byte mask h = (drop_frame id, refl, refl)
fault_from_kind-validated FaultKind.delay id none byte mask h = absurd (cc)
fault_from_kind-validated FaultKind.delay id (some text) byte mask h =
    let (d, parsed, rest) = >>=-eq-ok (parse_duration text) (λ t. ok tt) h in
    (delay_frame id d, rw (fault_from_kind, parsed) refl, (text, d, refl, parsed, refl))
fault_from_kind-validated FaultKind.corrupt id after none mask h = absurd (cc)
fault_from_kind-validated FaultKind.corrupt id after (some b) none h = absurd (cc)
fault_from_kind-validated FaultKind.corrupt id after (some b) (some m) h =
    (corrupt_byte id b m, refl, (b, m, refl, refl, refl))

optional_duration-checked :
    (o : Option String)
    → check_duration o ≡ ok tt
    → (d : Option Timestamp) × (optional_duration o ≡ ok d) × Read o d
unfolding check_duration optional_duration
optional_duration-checked none h = (none, refl, refl)
optional_duration-checked (some text) h =
    let (d, parsed, rest) = >>=-eq-ok (parse_duration text) (λ t. ok tt) h in
    (some d, rw (optional_duration, parsed) refl, (d, parsed, refl))

module _ (float : Float) {A T : Type 0} (methods : TestTarget float A T) (texts : Texts float) where
  -- A fault step that passed the validation neither aborts the run nor panics by itself: its outcome is
  -- the target's answer to the fault that its arguments describe, from the step's start, or from now
  -- on when it has none, and for the step's duration, or without end when it has none.
  pub exec_step-validated_fault :
      (fuel : ℕ) (deadline : Timestamp) (t : T) (kind : FaultKind) (id : ℕ) (after : Option String)
      (byte mask : Option ℕ) (start duration : Option String)
      → validate_step {R = float.R} (fault kind id after byte mask start duration) ≡ ok tt
      → (f : Fault) × (from until : Option Timestamp) × (exec_step float methods texts fuel deadline
            t
            (fault kind id after byte mask start duration)
          ≡ answer_text texts.of_target
              (methods.add_can_fault t f (or_some from (methods.elapsed_us t)) until))
        × Requested kind id after byte mask f
        × Read start from
        × Read duration until
  unfolding validate_step exec_step
  exec_step-validated_fault fuel deadline t kind id after byte mask start duration h =
      let (a, until_ok, h') =
        >>=-eq-ok (check_duration duration)
          (λ a. check_duration start >>= λ b. check_fault kind after byte mask) h in
      let (b, from_ok, kind_ok) =
        >>=-eq-ok (check_duration start) (λ b. check_fault kind after byte mask) h' in
      let (until, has_until, read_until) = optional_duration-checked duration until_ok in
      let (from, has_from, read_from) = optional_duration-checked start from_ok in
      let (f, built, requested) = fault_from_kind-validated kind id after byte mask kind_ok in
      (f, from, until, rw (built, has_from, has_until) refl, requested, read_from, read_until)
