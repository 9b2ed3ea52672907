-- ===== src/Harness/Polling/Loop.antt =====
-- What the loop of `poll_until` in crates/embrig-test/src/runner.rs comes to, and when.
use Prim.Native.Nat.{min}
use embrig.Harness.Duration.{DslError, parse_duration}
use embrig.Prelude.{
  ℕ, zero, suc, ◌≡◌, inl, inr, refl, sym, subst, subst₂, ◌∙◌, true, false, ◌||◌, eqb, leb, String,
  Option, none, some, Bool-cases,
}
use embrig.Prelude.Panic.{Panic}
use embrig.Prelude.Fallible.{Fallible}
use embrig.Prelude.Result.{Result, ok, err}
use embrig.Core.Time.{Timestamp}
use embrig.Core.Float.{Float}
use embrig.Harness.Assertion.{Assertion, Observed, check_assertion, check_present}
use embrig.Harness.Polling.{
  Ran, returned, panicked, Poll, Verdict, decided, again, crashed, judge, poll_loop, poll_until,
  saturating_add, seen_text,
}

panicked-returned : {B : Type 0} {b : B} → ◌≡◌ {A = Ran B} panicked (returned b) → ⊥
panicked-returned h = cc

module _ (float : Float) {T : Type 0} (elapsed_us : T → Timestamp) where
  open float use {R}

  -- The verdict on an absent assertion, which is never to try again.
  abbrev pub absent_verdict : Assertion R → Option (Observed R) → Result String (Unit {0})
  absent_verdict spec none = ok tt
  absent_verdict spec (some o) = err (seen_text float elapsed_us spec)

  pub absent-judge :
      (spec : Assertion R) (obs : Option (Observed R))
      → spec.present ≡ some false
      → judge float elapsed_us spec obs ≡ decided (absent_verdict spec obs)
  unfolding judge check_assertion check_present
  absent-judge spec none h = rw h refl
  absent-judge spec (some o) h = rw h refl

  pub round :
      (fuel : ℕ) (spec : Assertion R) (poll : Poll float elapsed_us)
      (within_us deadline : Timestamp) (t t' : T) (obs : Option (Observed R))
      (r : Result String (Unit {0}))
      → poll t ≡ some (t', ok obs)
      → judge float elapsed_us spec obs ≡ decided r
      → poll_loop float elapsed_us (suc fuel) spec poll within_us deadline t ≡ returned (t', r)
  unfolding poll_loop
  round fuel spec poll within_us deadline t t' obs r p v = rw (poll_loop, p, v) refl

  module _ (spec : Assertion R) (poll : Poll float elapsed_us)
      (within_us deadline : Timestamp) where
    -- The rounds of a loop that returns: the last one, and those after which it tries again.
    pub data Attempts : T → T → Result String (Unit {0}) → Type 0 where
      broken :
          {t t' : T} {message : String}
          → poll t ≡ some (t', err message)
          → Attempts t t' (err message)
      settled :
          {t t' : T} {obs : Option (Observed R)} {r : Result String (Unit {0})}
          → poll t ≡ some (t', ok obs)
          → judge float elapsed_us spec obs ≡ decided r
          → Attempts t t' r
      late :
          {t t' : T} {obs : Option (Observed R)} {message : String}
          → poll t ≡ some (t', ok obs)
          → judge float elapsed_us spec obs ≡ again message
          → (eqb within_us 0 || leb deadline (elapsed_us t')) ≡ true
          → Attempts t t' (err message)
      retry :
          {t t' u : T} {obs : Option (Observed R)} {message : String} {r : Result String (Unit {0})}
          → poll t ≡ some (t', ok obs)
          → judge float elapsed_us spec obs ≡ again message
          → (eqb within_us 0 || leb deadline (elapsed_us t')) ≡ false
          → Attempts t' u r
          → Attempts t u r

    returned_inj :
        {t u : T} {r s : Result String (Unit {0})}
        → ◌≡◌ {A = Ran (T × Result String (Unit {0}))} (returned (t, r)) (returned (u, s))
        → (t ≡ u) × (r ≡ s)
    returned_inj h = (cc, cc)

    finish_at :
        {t u u' : T} {r r' : Result String (Unit {0})}
        → Attempts t u r
        → ◌≡◌ {A = Ran (T × Result String (Unit {0}))} (returned (u, r)) (returned (u', r'))
        → Attempts t u' r'
    finish_at {t = t} a h = let (same, equal) = returned_inj h in subst₂ (Attempts t) same equal a

    pub round_again :
        (fuel : ℕ) (t t' : T) (obs : Option (Observed R)) (message : String)
        → poll t ≡ some (t', ok obs)
        → judge float elapsed_us spec obs ≡ again message
        → poll_loop float elapsed_us (suc fuel) spec poll within_us deadline t
          ≡ (elim (eqb within_us 0 || leb deadline (elapsed_us t')) [
            | true ↦ returned (t', err message)
            | false ↦ poll_loop float elapsed_us fuel spec poll within_us deadline t'
          ])
    unfolding poll_loop
    round_again fuel t t' obs message p v = rw (poll_loop, p, v) refl

    -- One round of a loop that returned, by the verdict on what was observed.
    by_verdict :
        (fuel : ℕ) (t t' u : T) (r : Result String (Unit {0})) (obs : Option (Observed R))
        (v : Verdict)
        → poll t ≡ some (t', ok obs)
        → judge float elapsed_us spec obs ≡ v
        → (poll_loop float elapsed_us fuel spec poll within_us deadline t' ≡ returned (u, r)
            → Attempts t' u r)
        → poll_loop float elapsed_us (suc fuel) spec poll within_us deadline t ≡ returned (u, r)
        → Attempts t u r
    unfolding poll_loop
    by_verdict fuel t t' u r obs (decided s) p j rest h =
        finish_at (settled p j) (sym (round fuel spec poll within_us deadline t t' obs s p j) ∙ h)
    by_verdict fuel t t' u r obs crashed p j rest h =
        absurd (panicked-returned (subst (λ x. x ≡ returned (u, r)) (rw (poll_loop, p, j) refl) h))
    by_verdict fuel t t' u r obs (again message) p j rest h =
        let tried = sym (round_again fuel t t' obs message p j) ∙ h in
        elim (Bool-cases (eqb within_us 0 || leb deadline (elapsed_us t'))) [
          | inl stop ↦ finish_at (late p j stop) (
              subst
                (λ b.
                  (elim b [
                    | true ↦ returned (t', err message)
                    | false ↦ poll_loop float elapsed_us fuel spec poll within_us deadline t'
                  ])
                  ≡ returned (u, r))
                stop tried)
          | inr go ↦ retry p j go (
              rest (
                subst
                  (λ b.
                    (elim b [
                      | true ↦ returned (t', err message)
                      | false ↦ poll_loop float elapsed_us fuel spec poll within_us deadline t'
                    ])
                    ≡ returned (u, r))
                  go tried))
        ]

    by_poll :
        (fuel : ℕ) (t u : T) (r : Result String (Unit {0}))
        (o : Panic (T × Result String (Option (Observed R))))
        → poll t ≡ o
        → ((t' : T)
            → poll_loop float elapsed_us fuel spec poll within_us deadline t' ≡ returned (u, r)
            → Attempts t' u r)
        → poll_loop float elapsed_us (suc fuel) spec poll within_us deadline t ≡ returned (u, r)
        → Attempts t u r
    unfolding poll_loop
    by_poll fuel t u r none p rest h =
        absurd (panicked-returned (subst (λ x. x ≡ returned (u, r)) (rw (poll_loop, p) refl) h))
    by_poll fuel t u r (some (t', err message)) p rest h =
        finish_at (broken p) (subst (λ x. x ≡ returned (u, r)) (rw (poll_loop, p) refl) h)
    by_poll fuel t u r (some (t', ok obs)) p rest h =
        by_verdict fuel t t' u r obs (judge float elapsed_us spec obs) p refl (rest t') h

    pub poll_loop-Attempts :
        (fuel : ℕ) (t u : T) (r : Result String (Unit {0}))
        → poll_loop float elapsed_us fuel spec poll within_us deadline t ≡ returned (u, r)
        → Attempts t u r
    unfolding poll_loop
    poll_loop-Attempts zero t u r h = absurd (cc)
    poll_loop-Attempts (suc fuel) t u r h =
        by_poll fuel t u r (poll t) refl (λ t'. poll_loop-Attempts fuel t' u r) h

  -- An absent assertion is decided by its first poll: it passes when that poll sees no message, whatever
  -- time it is given to look within, and fails when the poll sees one.
  pub absent-first_poll :
      (fuel : ℕ) (spec : Assertion R) (poll : Poll float elapsed_us)
      (within_us deadline : Timestamp) (t t' : T) (obs : Option (Observed R))
      → spec.present ≡ some false
      → poll t ≡ some (t', ok obs)
      → poll_loop float elapsed_us (suc fuel) spec poll within_us deadline t
        ≡ returned (t', absent_verdict spec obs)
  absent-first_poll fuel spec poll within_us deadline t t' obs absent p =
      round fuel spec poll within_us deadline t t' obs (absent_verdict spec obs) p
        (absent-judge spec obs absent)

  -- `poll_until` with a `within` that parses is its loop, up to the earlier of the two deadlines.
  pub poll_until-within :
      (to_string : DslError → String) (fuel : ℕ) (spec : Assertion R) (w : String)
      (test_deadline : Timestamp) (poll : Poll float elapsed_us) (t : T) (within_us : Timestamp)
      → parse_duration w ≡ Fallible.ok within_us
      → poll_until float elapsed_us to_string fuel spec (some w) test_deadline poll t
        ≡ poll_loop float elapsed_us fuel spec poll within_us
            (min (saturating_add (elapsed_us t) within_us) test_deadline)
            t
  unfolding poll_until
  poll_until-within to_string fuel spec w test_deadline poll t within_us parsed =
      rw (poll_until, parsed) refl
