-- ===== src/Harness/Runner/Spec.antt =====
-- The result of `run_spec` in crates/embrig-test/src/runner.rs: when a test passes, and what is reported of it.
use mathlib.Core.Bool.{false≢true}
use embrig.Prelude.{
  ℕ, ◌+◌, ◌-◌, ◌^◌, ◌≤◌, ◌<◌, ◌≡◌, ◌↔◌, ◌⊎◌, inl, inr, refl, sym, ap, subst, ◌∙◌, true, false,
  String, [], ◌∷◌, lt→ltb, le→ltb, length, lt_or_le, arith,
}
use embrig.Prelude.Fallible as Fallible
use embrig.Prelude.Result.{Result, ok, err}
use embrig.Core.Time.{Timestamp}
use embrig.Core.Float.{Float}
use embrig.Harness.Duration.{parse_duration}
use embrig.Harness.Dsl.{TestSpec}
use embrig.Harness.Target.{TestTarget}
use embrig.Harness.Polling.{Ran, returned, panicked, unfinished, ◌>>=◌, saturating_add}
use embrig.Harness.Steps.{TestError, Texts}
use embrig.Harness.Runner.{TestResult, run_spec, fresh, finish}
use embrig.Harness.Runner.Verdict.{
  ended, Passes, Verdict, run, run-Passes, run-Verdict, Passes-in_time,
}

bind-returned :
    {B C : Type 0} (first : Ran B) (next : B → Ran C) {c : C}
    → (first >>= next) ≡ returned c
    → (b : B) × (first ≡ returned b) × (next b ≡ returned c)
bind-returned (returned b) next h = (b, refl, h)
bind-returned panicked next h = absurd (cc)
bind-returned unfinished next h = absurd (cc)

module _ (float : Float) {A T : Type 0} (methods : TestTarget float A T) (texts : Texts float)
    (fuel : ℕ) where
  open float use {R}
  open methods use {elapsed_us}

  -- A result with the time that the test took.
  abbrev timed : Timestamp → T → TestResult → TestResult
  timed start u r = record r { duration_us = elapsed_us u - start }

  finish-returned :
      (start : Timestamp) (w u : T) (o : Result TestError TestResult) (r : TestResult)
      → finish float methods texts start (w, o) ≡ returned (u, ok r)
      → (s : TestResult) × (w ≡ u) × (o ≡ ok s) × (r ≡ timed start u s) × (start ≤ elapsed_us u)
  finish-returned start w u (err e) r h = absurd (cc)
  finish-returned start w u (ok s) r h = elim (lt_or_le (elapsed_us w) start) [
    | inl back ↦ let over = rw (lt→ltb (elapsed_us w) start back) at h in absurd (cc)
    | inr on ↦
        let goes = rw (le→ltb (elapsed_us w) start on) at h in
        let (same, equal) = ended goes in
        (
          s,
          same,
          refl,
          subst (λ v. r ≡ timed start v s) same (sym equal),
          subst (λ v. start ≤ elapsed_us v) same on,
        )
  ]

  -- What a test that returned with a result comes to.
  abbrev Reported : TestSpec R → (timeout : ℕ) → T → T → TestResult → Type 0
  Reported spec timeout t u r =
      (s : TestResult) × Verdict float methods texts fuel spec.timeout
        (saturating_add (elapsed_us t) timeout) spec.steps t u (fresh float methods texts spec) s
      × (r ≡ timed (elapsed_us t) u s)
      × (elapsed_us t ≤ elapsed_us u)

  run_spec-Reported :
      (spec : TestSpec R) (timeout : ℕ) (t u : T) (r : TestResult)
      → parse_duration spec.timeout ≡ Fallible.ok timeout
      → run_spec float methods texts fuel spec t ≡ returned (u, ok r)
      → Reported spec timeout t u r
  unfolding run_spec
  run_spec-Reported spec timeout t u r parsed h =
      let deadline = saturating_add (elapsed_us t) timeout in
      let loop =
        run float methods texts fuel spec.timeout deadline spec.steps t
          (fresh float methods texts spec) in
      let ((w, o), ran, finished) =
        bind-returned loop (finish float methods texts (elapsed_us t))
          (rw (run_spec, parsed) at h) in
      let (s, same, is_ok, shape, on) = finish-returned (elapsed_us t) w u o r finished in
      (
        s,
        run-Verdict float methods texts fuel spec.timeout deadline spec.steps t u
            (fresh float methods texts spec) s
            (ran ∙ ap (λ v. returned (v, o)) same ∙ ap (λ p. returned (u, p)) is_ok),
        shape,
        on,
      )

  -- A test whose timeout parses passes if and only if each of its steps succeeds and ends no later than
  -- the deadline, and the clock does not end before it started.
  pub run_spec-Passes_iff :
      (spec : TestSpec R) (timeout : ℕ) (t u : T)
      → parse_duration spec.timeout ≡ Fallible.ok timeout
      → ((r : TestResult) × (run_spec float methods texts fuel spec t ≡ returned (u, ok r))
          × (r.passed ≡ true))
        ↔ (Passes float methods texts fuel spec.timeout
              (saturating_add (elapsed_us t) timeout)
              spec.steps
              t
              u
            × (elapsed_us t ≤ elapsed_us u))
  unfolding run_spec
  run_spec-Passes_iff spec timeout t u parsed = (
    λ (r, h, passed).
        let (s, verdict, shape, on) = run_spec-Reported spec timeout t u r parsed h in
        elim verdict [
          | inl (same, passes) ↦ (passes, on)
          | inr (text, failed) ↦ absurd (
              false≢true
                (ap (λ x. x.passed) (sym failed) ∙ ap (λ x. x.passed) (sym shape) ∙ passed))
        ],
    λ (passes, on). (
      timed (elapsed_us t) u (fresh float methods texts spec),
      rw
          (
            run_spec,
            parsed,
            run-Passes float methods texts fuel spec.timeout (saturating_add (elapsed_us t) timeout)
                spec.steps t u (fresh float methods texts spec) passes,
            le→ltb (elapsed_us u) (elapsed_us t) on,
          )
          refl,
      refl,
    ),
  )

  -- A test that passes ends no later than its deadline, the start and the timeout together: one that
  -- overruns its time never passes.
  pub passed-in_time :
      (spec : TestSpec R) (timeout : ℕ) (t u : T) (r : TestResult)
      → parse_duration spec.timeout ≡ Fallible.ok timeout
      → elapsed_us t + timeout < 2 ^ 64
      → run_spec float methods texts fuel spec t ≡ returned (u, ok r)
      → r.passed ≡ true
      → elapsed_us u ≤ elapsed_us t + timeout
  passed-in_time spec timeout t u r parsed room h passed =
      let (passes, on) = (run_spec-Passes_iff spec timeout t u parsed).0 (r, h, passed) in
      let early =
        Passes-in_time float methods texts fuel spec.timeout (saturating_add (elapsed_us t) timeout)
          passes (omega (arith, room)) in
      omega (arith, early, room)

  abbrev pub Consistent : TestSpec R → T → T → TestResult → Type 0
  Consistent spec t u r =
      (r.name ≡ spec.name)
      × (r.steps ≡ length spec.steps)
      × (elapsed_us t + r.duration_us ≡ elapsed_us u)
      × (((r.passed ≡ true) × (r.failures ≡ []))
          ⊎ ((r.passed ≡ false) × (text : String) × (r.failures ≡ text ∷ [])))

  -- The result of a test has its name, its number of steps and the time it took, and it passed without
  -- failures or failed with exactly one.
  pub run_spec-Consistent :
      (spec : TestSpec R) (timeout : ℕ) (t u : T) (r : TestResult)
      → parse_duration spec.timeout ≡ Fallible.ok timeout
      → run_spec float methods texts fuel spec t ≡ returned (u, ok r)
      → Consistent spec t u r
  run_spec-Consistent spec timeout t u r parsed h =
      let (s, verdict, shape, on) = run_spec-Reported spec timeout t u r parsed h in
      subst (Consistent spec t u) (sym shape) (elim verdict [
        | inl (same, passes) ↦
            subst (λ x. Consistent spec t u (timed (elapsed_us t) u x)) (sym same)
              (refl, refl, omega (arith, on), inl (refl, refl))
        | inr (text, failed) ↦
            subst (λ x. Consistent spec t u (timed (elapsed_us t) u x)) (sym failed)
              (refl, refl, omega (arith, on), inr (refl, text, refl))
      ])
