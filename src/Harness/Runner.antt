-- ===== src/Harness/Runner.antt =====
-- `run_spec` and `run_suite` of crates/embrig-test/src/runner.rs, and the results of report.rs. Reading the
-- test files and the wall clock of a suite are parameters; every step may poll up to `fuel` times.
pub mod Verdict
pub mod Spec
use Prim.Native.String.{◌++◌}
use embrig.Prelude.{
  ℕ, ◌-◌, Bool, true, false, ltb, if◌then◌else◌, String, List, [], ◌∷◌, none, some, length, filterb,
}
use embrig.Prelude.{◌++◌ as append}
use embrig.Prelude.Fallible as Fallible
use embrig.Prelude.Fallible.{Fallible}
use embrig.Prelude.Result.{Result, ok, err}
use embrig.Core.Time.{Timestamp}
use embrig.Core.Float.{Float}
use embrig.Harness.Duration.{DslError, parse_duration}
use embrig.Harness.Dsl.{Step, TestSpec}
use embrig.Harness.Target.{TestTarget}
use embrig.Harness.Polling.{Ran, returned, panicked, ◌>>=◌, saturating_add}
use embrig.Harness.Steps.{TestError, target, dsl, Texts}
use embrig.Harness.Exec.{exec_step}

pub record TestResult : Type 0 where
  pub name : String
  pub passed : Bool
  pub steps : ℕ
  pub duration_us : ℕ
  pub failures : List String

pub record SuiteResult : Type 0 where
  pub file : String
  pub duration_us : ℕ
  pub tests : List TestResult

-- `count` of the tests that passed, and the others.
unfoldable pub passed : SuiteResult → ℕ
passed suite = length (filterb (λ t. t.passed) suite.tests)

unfoldable pub failed : SuiteResult → ℕ
unfolding passed
failed suite = length suite.tests - passed suite

abbrev pub exceeded : String → String
exceeded timeout = "test exceeded its timeout (" ++ (timeout ++ ")")

abbrev pub fail : TestResult → String → TestResult
fail r text = record r { passed = false; failures = append r.failures (text ∷ []) }

module _ (float : Float) {A T : Type 0} (methods : TestTarget float A T) (texts : Texts float) where
  open float use {R}
  open methods use {elapsed_us, reset}

  -- The loop over the steps, up to a failure or an error that aborts the run.
  unfoldable pub run_steps :
      ℕ
      → (timeout : String) (deadline : Timestamp) → List (Step R)
      → T
      → TestResult
      → Ran (T × Result TestError TestResult)
  unfolding exec_step
  run_steps fuel timeout deadline [] t result = returned (t, ok result)
  run_steps fuel timeout deadline (step ∷ steps) t result = do
    (t', answer) ← exec_step float methods texts fuel deadline t step
    elim answer [
      | err e ↦ returned (t', err e)
      | ok (err text) ↦ returned (t', ok (fail result text))
      | ok (ok a) ↦
          let rest = run_steps fuel timeout deadline steps t' result in
          if ltb deadline (elapsed_us t')
          then returned (t', ok (fail result (exceeded timeout)))
          else rest
    ]

  abbrev pub fresh : TestSpec R → TestResult
  fresh spec = record {
    name = spec.name;
    passed = true;
    steps = length spec.steps;
    duration_us = 0;
    failures = [];
  }

  -- `result.duration_us = target.elapsed_us() - start`
  abbrev pub finish :
      Timestamp → T × Result TestError TestResult → Ran (T × Result TestError TestResult)
  finish start (t, err e) = returned (t, err e)
  finish start (t, ok result) =
      if ltb (elapsed_us t) start
      then panicked
      else returned (t, ok (record result { duration_us = elapsed_us t - start }))

  unfoldable pub run_spec : ℕ → TestSpec R → T → Ran (T × Result TestError TestResult)
  unfolding run_steps parse_duration
  run_spec fuel spec t = elim (parse_duration spec.timeout) [
    | Fallible.err e ↦ returned (t, err (dsl e))
    | Fallible.panic ↦ panicked
    | Fallible.ok timeout ↦
        (run_steps fuel spec.timeout (saturating_add (elapsed_us t) timeout) spec.steps t
            (fresh spec)
          >>= finish (elapsed_us t))
  ]

  module _ {P : Type 0} (load_spec : P → Fallible DslError (TestSpec R)) where
    unfoldable pub run_tests :
        ℕ → List P → T → List TestResult → Ran (T × Result TestError (List TestResult))
    unfolding run_spec
    run_tests fuel [] t results = returned (t, ok results)
    run_tests fuel (file ∷ files) t results = elim (load_spec file) [
      | Fallible.err e ↦ returned (t, err (dsl e))
      | Fallible.panic ↦ panicked
      | Fallible.ok spec ↦ elim (reset t) [
        | none ↦ panicked
        | some (t', err e) ↦ returned (t', err (target e))
        | some (t', ok a) ↦ do
          (t'', outcome) ← run_spec fuel spec t'
          elim outcome [
            | err e ↦ returned (t'', err e)
            | ok result ↦ run_tests fuel files t'' (append results (result ∷ []))
          ]
      ]
    ]

    unfoldable pub run_suite :
        ℕ → (took_us : ℕ) → List P → String → T → Ran (T × Result TestError SuiteResult)
    unfolding run_tests
    run_suite fuel took_us files label t = do
      (t', outcome) ← run_tests fuel files t []
      elim outcome [
        | err e ↦ returned (t', err e)
        | ok tests ↦
            returned (t', ok (record { file = label; duration_us = took_us; tests = tests }))
      ]
