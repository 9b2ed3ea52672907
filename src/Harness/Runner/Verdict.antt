-- ===== src/Harness/Runner/Verdict.antt =====
-- Which tests pass: `run_spec` of crates/embrig-test/src/runner.rs against its specification.
use embrig.Prelude.{
  ℕ, ◌≤◌, ◌≡◌, ◌⊎◌, inl, inr, refl, sym, subst, ◌∙◌, String, List, [], ◌∷◌, ltb, if◌then◌else◌,
  lt→ltb, le→ltb, lt_or_le,
}
use embrig.Prelude.Result.{Result, ok, err}
use embrig.Core.Time.{Timestamp}
use embrig.Core.Float.{Float}
use embrig.Harness.Dsl.{Step}
use embrig.Harness.Target.{TestTarget}
use embrig.Harness.Polling.{Ran, returned, panicked, unfinished, ◌>>=◌}
use embrig.Harness.Steps.{TestError, Texts, Outcome}
use embrig.Harness.Exec.{exec_step}
use embrig.Harness.Runner.{TestResult, run_steps, fail, exceeded}

pub ended :
    {T : Type 0} {u w : T} {r s : TestResult}
    → ◌≡◌ {A = Ran (T × Result TestError TestResult)} (returned (w, ok s)) (returned (u, ok r))
    → (w ≡ u) × (s ≡ r)
ended h = (cc, cc)

not_ended_panic :
    {T : Type 0} {u : T} {r : TestResult}
    → ◌≡◌ {A = Ran (T × Result TestError TestResult)} panicked (returned (u, ok r))
    → ⊥
not_ended_panic h = cc

not_ended_unfinished :
    {T : Type 0} {u : T} {r : TestResult}
    → ◌≡◌ {A = Ran (T × Result TestError TestResult)} unfinished (returned (u, ok r))
    → ⊥
not_ended_unfinished h = cc

not_ended_err :
    {T : Type 0} {u w : T} {r : TestResult} {e : TestError}
    → ◌≡◌ {A = Ran (T × Result TestError TestResult)} (returned (w, err e)) (returned (u, ok r))
    → ⊥
not_ended_err h = cc

module _ (float : Float) {A T : Type 0} (methods : TestTarget float A T) (texts : Texts float)
    (fuel : ℕ) (timeout : String) (deadline : Timestamp) where
  open float use {R}
  open methods use {elapsed_us}

  abbrev exec : T → Step R → Outcome T
  exec = exec_step float methods texts fuel deadline

  -- Every step succeeds, and ends no later than the deadline.
  pub data Passes : List (Step R) → T → T → Type 0 where
    no_more : {t : T} → Passes [] t t
    one_more :
        {step : Step R} {steps : List (Step R)} {t t' u : T}
        → exec_step float methods texts fuel deadline t step ≡ returned (t', ok (ok tt))
        → elapsed_us t' ≤ deadline
        → Passes steps t' u
        → Passes (step ∷ steps) t u

  abbrev pub run : List (Step R) → T → TestResult → Ran (T × Result TestError TestResult)
  run = run_steps float methods texts fuel timeout deadline

  -- What the loop does after a step.
  abbrev after_step : List (Step R) → TestResult → Outcome T → Ran (T × Result TestError TestResult)
  after_step steps result o = do
    (t', answer) ← o
    elim answer [
      | err e ↦ returned (t', err e)
      | ok (err text) ↦ returned (t', ok (fail result text))
      | ok (ok a) ↦
          if ltb deadline (elapsed_us t')
          then returned (t', ok (fail result (exceeded timeout)))
          else run steps t' result
    ]

  pub run-Passes :
      (steps : List (Step R)) (t u : T) (result : TestResult)
      → Passes steps t u
      → run steps t result ≡ returned (u, ok result)
  unfolding run_steps
  run-Passes [] t u result no_more = refl
  run-Passes (step ∷ steps) t u result (one_more {t' = t'} done early rest) =
      rw (run_steps, done, le→ltb deadline (elapsed_us t') early)
        (run-Passes steps t' u result rest)

  -- A result without failures, or with the one that ended the test.
  abbrev pub OneFailure : TestResult → TestResult → Type 0
  OneFailure result r = (text : String) × (r ≡ fail result text)

  abbrev pub Verdict : List (Step R) → T → T → TestResult → TestResult → Type 0
  Verdict steps t u result r = ((r ≡ result) × Passes steps t u) ⊎ OneFailure result r

  -- A run by what its first step comes to.
  run-cons :
      (step : Step R) (steps : List (Step R)) (t : T) (result : TestResult) (o : Outcome T)
      → exec_step float methods texts fuel deadline t step ≡ o
      → run (step ∷ steps) t result ≡ after_step steps result o
  unfolding run_steps
  run-cons step steps t result o e = rw (run_steps, e) refl

  by_step :
      (steps : List (Step R)) (t u : T) (step : Step R) (result r : TestResult) (o : Outcome T)
      → exec_step float methods texts fuel deadline t step ≡ o
      → ((t' : T) → run steps t' result ≡ returned (u, ok r) → Verdict steps t' u result r)
      → after_step steps result o ≡ returned (u, ok r)
      → Verdict (step ∷ steps) t u result r
  by_step steps t u step result r panicked e rest h = absurd (not_ended_panic h)
  by_step steps t u step result r unfinished e rest h = absurd (not_ended_unfinished h)
  by_step steps t u step result r (returned (t', err failure)) e rest h = absurd (not_ended_err h)
  by_step steps t u step result r (returned (t', ok (err text))) e rest h =
      inr (text, sym (ended h).1)
  by_step steps t u step result r (returned (t', ok (ok a))) e rest h =
      elim (lt_or_le deadline (elapsed_us t')) [
        | inl late ↦
            let over = rw (lt→ltb deadline (elapsed_us t') late) at h in
            inr (exceeded timeout, sym (ended over).1)
        | inr early ↦
            let goes = rw (le→ltb deadline (elapsed_us t') early) at h in
            elim (rest t' goes) [
              | inl (same, passes) ↦ inl (same, one_more e early passes)
              | inr failure ↦ inr failure
            ]
      ]

  pub run-Verdict :
      (steps : List (Step R)) (t u : T) (result r : TestResult)
      → run steps t result ≡ returned (u, ok r)
      → Verdict steps t u result r
  unfolding run_steps
  run-Verdict [] t u result r h =
      let (same, equal) = ended h in inl (sym equal, subst (Passes [] t) same no_more)
  run-Verdict (step ∷ steps) t u result r h =
      by_step steps t u step result r (exec_step float methods texts fuel deadline t step) refl
        (λ t'. run-Verdict steps t' u result r)
        (sym
            (run-cons step steps t result (exec_step float methods texts fuel deadline t step) refl)
          ∙ h)

  pub Passes-in_time :
      {steps : List (Step R)} {t u : T}
      → Passes steps t u
      → elapsed_us t ≤ deadline
      → elapsed_us u ≤ deadline
  Passes-in_time no_more h = h
  Passes-in_time (one_more done early rest) h = Passes-in_time rest early
