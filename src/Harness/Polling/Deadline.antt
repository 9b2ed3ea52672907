-- ===== src/Harness/Polling/Deadline.antt =====
-- Deadlines of `poll_until` in crates/embrig-test/src/runner.rs: what a pass rests on, how late a loop
-- returns, and that it ends.
use embrig.Prelude.{
  ℕ, zero, suc, ◌+◌, ◌≤◌, ◌<◌, ◌≡◌, ◌≢◌, ◌⊎◌, inl, inr, refl, sym, ap, subst, ◌∙◌, false, ◌||◌, eqb,
  leb, String, Option, none, some, Bool-cases, arith,
}
use embrig.Prelude.Result.{Result, ok, err}
use embrig.Core.Time.{Timestamp}
use embrig.Core.Float.{Float}
use embrig.Harness.Assertion.{
  Assertion, Observed, check_assertion, check_present, check_equals, check_greater, check_less,
}
use embrig.Harness.Polling.{
  Ran, returned, panicked, Poll, Verdict, decided, again, crashed, judge, poll_loop,
}
use embrig.Harness.Polling.Loop.{
  Attempts, broken, settled, late, retry, poll_loop-Attempts, round, round_again,
}

module _ (float : Float) {T : Type 0} (elapsed_us : T → Timestamp) where
  open float use {R}

  module _ (spec : Assertion R) (poll : Poll float elapsed_us)
      (within_us deadline : Timestamp) where
    abbrev Loop : T → T → Result String (Unit {0}) → Type 0
    Loop = Attempts float elapsed_us spec poll within_us deadline

    not_err : {message : String} → ◌≡◌ {A = Result String (Unit {0})} (err message) (ok tt) → ⊥
    not_err h = cc

    before : (now : ℕ) → (eqb within_us 0 || leb deadline now) ≡ false → now < deadline
    before now h = ground arith

    abbrev pub Witnessed : T → T → Type 0
    Witnessed t u =
        (v : T) × (obs : Option (Observed R)) × (poll v ≡ some (u, ok obs))
        × (judge float elapsed_us spec obs ≡ decided (ok tt))
        × ((v ≡ t) ⊎ (elapsed_us v < deadline))

    Loop-Witnessed :
        {t u : T} {r : Result String (Unit {0})} → Loop t u r → r ≡ ok tt → Witnessed t u
    Loop-Witnessed (broken p) e = absurd (not_err e)
    Loop-Witnessed {t = t} (settled {obs = obs} p j) e = (t, obs, p, j ∙ ap decided e, inl refl)
    Loop-Witnessed (late p j stop) e = absurd (not_err e)
    Loop-Witnessed (retry {t' = t'} p j go rest) e =
        let (v, obs, q, k, when) = Loop-Witnessed rest e in
        (
          v,
          obs,
          q,
          k,
          elim when [
            | inl same ↦
                inr (subst (λ w. elapsed_us w < deadline) (sym same) (before (elapsed_us t') go))
            | inr early ↦ inr early
          ],
        )

    -- When an assertion passes, the last poll observed what satisfies it, and that poll started before
    -- the deadline unless it was the first one.
    pub pass-Witnessed :
        (fuel : ℕ) (t u : T)
        → poll_loop float elapsed_us fuel spec poll within_us deadline t ≡ returned (u, ok tt)
        → Witnessed t u
    pass-Witnessed fuel t u h =
        Loop-Witnessed
          (poll_loop-Attempts float elapsed_us spec poll within_us deadline fuel t u (ok tt) h) refl

    Loop-in_time :
        (d : Timestamp)
        → ((v w : T) (answer : Result String (Option (Observed R)))
            → poll v ≡ some (w, answer)
            → elapsed_us w ≤ elapsed_us v + d)
        → {t u : T} {r : Result String (Unit {0})} → Loop t u r
        → (elapsed_us u ≤ elapsed_us t + d) ⊎ (elapsed_us u < deadline + d)
    Loop-in_time d slow (broken p) = inl (slow _ _ _ p)
    Loop-in_time d slow (settled p j) = inl (slow _ _ _ p)
    Loop-in_time d slow (late p j stop) = inl (slow _ _ _ p)
    Loop-in_time d slow (retry {t' = t'} p j go rest) = elim (Loop-in_time d slow rest) [
      | inl near ↦ inr (omega (arith, near, before (elapsed_us t') go))
      | inr far ↦ inr far
    ]

    -- When no poll takes longer than `d`, an assertion that returns does so less than `d` after its
    -- deadline, or after a single poll's time.
    pub poll_loop-in_time :
        (d : Timestamp)
        → ((v w : T) (answer : Result String (Option (Observed R)))
            → poll v ≡ some (w, answer)
            → elapsed_us w ≤ elapsed_us v + d)
        → (fuel : ℕ) (t u : T) (r : Result String (Unit {0}))
        → poll_loop float elapsed_us fuel spec poll within_us deadline t ≡ returned (u, r)
        → (elapsed_us u ≤ elapsed_us t + d) ⊎ (elapsed_us u < deadline + d)
    poll_loop-in_time d slow fuel t u r h =
        Loop-in_time d slow
          (poll_loop-Attempts float elapsed_us spec poll within_us deadline fuel t u r h)

    judge-crashed : (obs : Option (Observed R)) → judge float elapsed_us spec obs ≢ crashed
    unfolding judge check_assertion check_present check_equals check_greater check_less
    judge-crashed obs h = ground arith

    abbrev Returns : Ran (T × Result String (Unit {0})) → Type 0
    Returns ran = (u : T) × (r : Result String (Unit {0})) × (ran ≡ returned (u, r))

    -- A round whose poll saw something returns, or goes on before the deadline.
    abbrev Goes : (fuel : ℕ) → T → T → Type 0
    Goes fuel t w =
        (elapsed_us w < deadline)
        × (poll_loop float elapsed_us (suc fuel) spec poll within_us deadline t
            ≡ poll_loop float elapsed_us fuel spec poll within_us deadline w)

    judged :
        (fuel : ℕ) (t w : T) (obs : Option (Observed R)) (v : Verdict)
        → poll t ≡ some (w, ok obs)
        → judge float elapsed_us spec obs ≡ v
        → Returns (poll_loop float elapsed_us (suc fuel) spec poll within_us deadline t)
          ⊎ Goes fuel t w
    judged fuel t w obs (decided r) p j =
        inl (w, r, round float elapsed_us fuel spec poll within_us deadline t w obs r p j)
    judged fuel t w obs crashed p j = absurd (judge-crashed obs j)
    judged fuel t w obs (again message) p j =
        let tried =
          round_again float elapsed_us spec poll within_us deadline fuel t w obs message p j in
        elim (Bool-cases (eqb within_us 0 || leb deadline (elapsed_us w))) [
          | inl stop ↦ inl (w, err message, tried ∙ rw stop refl)
          | inr go ↦ inr (before (elapsed_us w) go, tried ∙ rw go refl)
        ]

    by_answer :
        (fuel : ℕ) (t w : T) (answer : Result String (Option (Observed R)))
        → poll t ≡ some (w, answer)
        → Returns (poll_loop float elapsed_us (suc fuel) spec poll within_us deadline t)
          ⊎ Goes fuel t w
    unfolding poll_loop
    by_answer fuel t w (err message) p = inl (w, err message, rw (poll_loop, p) refl)
    by_answer fuel t w (ok obs) p = judged fuel t w obs (judge float elapsed_us spec obs) p refl

    crash :
        (fuel : ℕ) (t : T)
        → poll t ≡ none
        → poll_loop float elapsed_us (suc fuel) spec poll within_us deadline t ≡ panicked
    unfolding poll_loop
    crash fuel t p = rw (poll_loop, p) refl

    -- How a loop ends: it returns, or it panics at a poll of a target that satisfies an invariant.
    abbrev pub Ends : (T → Type 0) → Ran (T × Result String (Unit {0})) → Type 0
    Ends Bad ran = Returns ran ⊎ ((ran ≡ panicked) × (v : T) × Bad v)

    -- When every poll of a target that satisfies an invariant panics for a cause, or answers, advances
    -- the clock and keeps the invariant, the loop ends within as many rounds as there are
    -- microseconds to the deadline, and one.
    pub poll_loop-Ends :
        (Inv Bad : T → Type 0)
        → ((v : T)
            → Inv v
            → ((w : T) × (answer : Result String (Option (Observed R))) × (poll v
                  ≡ some (w, answer))
                × (elapsed_us v < elapsed_us w)
                × Inv w)
              ⊎ ((poll v ≡ none) × Bad v))
        → (fuel : ℕ) (t : T) → Inv t
        → deadline ≤ elapsed_us t + fuel
        → Ends Bad (poll_loop float elapsed_us (suc fuel) spec poll within_us deadline t)
    poll_loop-Ends Inv Bad polls zero t inv enough = elim (polls t inv) [
      | inr (p, bad) ↦ inr (crash zero t p, t, bad)
      | inl (w, answer, p, later, kept) ↦ elim (by_answer zero t w answer p) [
        | inl done ↦ inl done
        | inr (early, on) ↦ absurd (omega (arith, early, later))
      ]
    ]
    poll_loop-Ends Inv Bad polls (suc fuel) t inv enough = elim (polls t inv) [
      | inr (p, bad) ↦ inr (crash (suc fuel) t p, t, bad)
      | inl (w, answer, p, later, kept) ↦ elim (by_answer (suc fuel) t w answer p) [
        | inl done ↦ inl done
        | inr (early, on) ↦
            subst (Ends Bad) (sym on)
              (poll_loop-Ends Inv Bad polls fuel w kept (omega (arith, later)))
      ]
    ]
