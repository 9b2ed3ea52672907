-- ===== src/Tests/Suites.antt =====
-- The theorems on the test runner, applied to a target that is its clock.
use embrig.Prelude.{
  ℕ, ◌+◌, ◌*◌, ◌^◌, ltb, if◌then◌else◌, Bool, ◌≤◌, ◌<◌, ◌≡◌, ◌↔◌, ◌⊎◌, true, false, String, [], ◌∷◌,
  Option, none, some, refl, arith,
}
use Prim.Native.String.{◌++◌}
use embrig.Prelude.Format.{decimal}
use embrig.Prelude.Fallible as Fallible
use embrig.Prelude.Result.{Result, ok}
use embrig.Core.Fault.{Fault}
use embrig.Harness.Duration.{
  parse_duration, parse_trimmed, trim_start, trim_end, split_digits, digits_value, parse_u64,
  in_unit,
}
use embrig.Harness.Duration.RoundTrip.{
  symbol, microseconds, seconds, parse_duration-decimal, parse_duration-panics,
}
use embrig.Harness.Dsl.{
  TestSpec, wait, fault, FaultKind, validate_step, check_duration, check_fault,
}
use embrig.Harness.Target.{TestTarget, no_can, no_netmap}
use embrig.Harness.Assertion.{Assertion, Observed, check_assertion, check_present}
use embrig.Harness.Polling.{Poll, returned, judge, poll_loop, saturating_add}
use embrig.Harness.Polling.Loop.{absent_verdict, absent-first_poll}
use embrig.Harness.Polling.Deadline.{Witnessed, pass-Witnessed, poll_loop-in_time}
use embrig.Harness.Faults.Validated.{Requested, Read, exec_step-validated_fault}
use embrig.Harness.Steps.{Texts, answer_text, or_some}
use embrig.Harness.Exec.{exec_step}
use embrig.Harness.Runner.{TestResult, run_spec, run_steps}
use embrig.Harness.Runner.Verdict.{Passes}
use embrig.Harness.Runner.Spec.{
  Consistent, run_spec-Passes_iff, passed-in_time, run_spec-Consistent,
}
use embrig.Tests.Reals.{whole}

-- A target that waits and takes faults, and has no other links.
abbrev clock : TestTarget whole ℕ ℕ
clock = record {
  codec = λ t. record { message_by_id = λ id. none; message_by_name = λ name. none };
  set_signal = λ t name id signal value. no_can "set_signal" t;
  add_can_fault = λ t f start duration. some (t, ok tt);
  send = λ t frame. no_can "send" t;
  poll = λ t id. some (t + 10, ok none);
  netmap = λ t. none;
  host = λ t. ok 1;
  send_msg = λ t d. no_netmap t;
  poll_msg = λ t dst. no_netmap t;
  set_field = λ t name message field value. no_netmap t;
  add_netmap_fault = λ t f start duration. no_netmap t;
  elapsed_us = λ t. t;
  reset = λ t. some (0, ok tt);
  wait = λ t duration. some (t + duration, ok tt);
}

abbrev pub texts : Texts whole
texts = record { of_dsl = λ e. ""; of_target = λ e. ""; of_field = λ e. "" }

-- A test that waits, with a timeout of a millisecond.
abbrev patient : TestSpec whole.R
patient = record { name = "patient"; timeout = "1ms"; steps = wait "30us" ∷ [] }

pub timeout_parses : parse_duration "1ms" ≡ Fallible.ok 1000
unfolding parse_duration parse_trimmed trim_start trim_end split_digits digits_value parse_u64
    in_unit
timeout_parses = refl

patient-runs :
    run_spec whole clock texts 1 patient 5
    ≡ returned (
      35,
      ok (record { name = "patient"; passed = true; steps = 1; duration_us = 30; failures = [] }),
    )
unfolding run_spec run_steps exec_step parse_duration parse_trimmed trim_start trim_end split_digits
    digits_value parse_u64 in_unit
patient-runs = refl

run_spec-Passes_iff_example :
    ((r : TestResult) × (run_spec whole clock texts 1 patient 5 ≡ returned (35, ok r))
      × (r.passed ≡ true))
    ↔ (Passes whole clock texts 1 "1ms" (saturating_add 5 1000) (wait "30us" ∷ []) 5 35 × (5 ≤ 35))
run_spec-Passes_iff_example =
    run_spec-Passes_iff whole clock texts 1 patient 1000 5 35 timeout_parses

passed-in_time_example : 35 ≤ 5 + 1000
passed-in_time_example =
    passed-in_time whole clock texts 1 patient 1000 5 35
      (record { name = "patient"; passed = true; steps = 1; duration_us = 30; failures = [] })
      timeout_parses (omega arith) patient-runs refl

run_spec-Consistent_example :
    Consistent whole clock texts 1 patient 5 35
      (record { name = "patient"; passed = true; steps = 1; duration_us = 30; failures = [] })
run_spec-Consistent_example =
    run_spec-Consistent whole clock texts 1 patient 1000 5 35
      (record { name = "patient"; passed = true; steps = 1; duration_us = 30; failures = [] })
      timeout_parses patient-runs

-- A poll every 10 microseconds: a message is there from the third one on.
abbrev third : Poll whole (λ (t : ℕ). t)
third t = some (t + 10, ok (if ltb t 20 then none else some (record { value = none })))

abbrev presence : Option Bool → Assertion whole.R
presence p = record {
  kind = "frame";
  label = "0x100";
  field = "";
  present = p;
  equals = none;
  greater_than = none;
  less_than = none;
}

-- The message of the third poll is forbidden, and the first poll passes all the same.
absent-first_poll_example :
    poll_loop whole (λ (t : ℕ). t) 9 (presence (some false)) third 100 100 0
    ≡ returned (10, absent_verdict whole (λ (t : ℕ). t) (presence (some false)) none)
absent-first_poll_example =
    absent-first_poll whole (λ (t : ℕ). t) 8 (presence (some false)) third 100 100 0 10 none refl
      refl

third-found :
    poll_loop whole (λ (t : ℕ). t) 9 (presence (some true)) third 100 100 0 ≡ returned (30, ok tt)
unfolding poll_loop judge check_assertion check_present
third-found = refl

pass-Witnessed_example : Witnessed whole (λ (t : ℕ). t) (presence (some true)) third 100 100 0 30
pass-Witnessed_example =
    pass-Witnessed whole (λ (t : ℕ). t) (presence (some true)) third 100 100 9 0 30 third-found

third-quick :
    (v w : ℕ) (answer : Result String (Option (Observed whole.R)))
    → third v ≡ some (w, answer)
    → w ≤ v + 10
third-quick v w answer h = let same : v + 10 ≡ w = cc in omega (arith, same)

poll_loop-in_time_example : (30 ≤ 0 + 10) ⊎ (30 < 100 + 10)
poll_loop-in_time_example =
    poll_loop-in_time whole (λ (t : ℕ). t) (presence (some true)) third 100 100 10 third-quick 9 0
      30 (ok tt) third-found

late_accepted :
    validate_step {R = whole.R} (fault FaultKind.delay 256 (some "1ms") none none none none)
    ≡ Fallible.ok tt
unfolding validate_step check_duration check_fault parse_duration parse_trimmed trim_start trim_end
    split_digits digits_value parse_u64 in_unit
late_accepted = refl

exec_step-validated_fault_example :
    (f : Fault) × (from until : Option ℕ) × (exec_step whole clock texts 1 1000 5
        (fault FaultKind.delay 256 (some "1ms") none none none none)
      ≡ answer_text texts.of_target (clock.add_can_fault 5 f (or_some from 5) until))
    × Requested FaultKind.delay 256 (some "1ms") none none f
    × Read none from
    × Read none until
exec_step-validated_fault_example =
    exec_step-validated_fault whole clock texts 1 1000 5 FaultKind.delay 256 (some "1ms") none none
      none none late_accepted

-- A number of microseconds that no other unit could have.
parse_duration-decimal_example :
    parse_duration (decimal (2 ^ 63) ++ symbol microseconds) ≡ Fallible.ok (2 ^ 63 * 1)
parse_duration-decimal_example = parse_duration-decimal microseconds (2 ^ 63) (omega arith)

parse_duration-panics_example : parse_duration (decimal (2 ^ 50) ++ symbol seconds) ≡ Fallible.panic
parse_duration-panics_example = parse_duration-panics seconds (2 ^ 50) (omega arith) (omega arith)
