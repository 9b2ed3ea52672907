-- ===== src/Harness/Target/Virtual/Polls.antt =====
-- Expectations on the virtual target of crates/embrig-test/src/target.rs.
use Prim.Native.Nat.{min}
use Prim.Native.String.{◌++◌}
use embrig.Prelude.Format.{hex3}
use embrig.Prelude.{
  ℕ, suc, ◌+◌, ◌≤◌, ◌<◌, ◌≡◌, ◌⊎◌, inl, inr, refl, sym, subst, String, Option, none, some, arith,
}
use embrig.Prelude.Keys.{nat_key}
use embrig.Prelude.Fallible.{Fallible}
use embrig.Prelude.Result.{Result, ok, err}
use embrig.Core.Time.{Timestamp}
use embrig.Core.Float.{Float}
use embrig.Core.Frame.{CanFrame}
use embrig.Core.Network.{Network, NetEcu}
use embrig.Core.Sim.Steady.{Steady}
use embrig.Dbc.Codec.{CodecError}
use embrig.Harness.Duration.{parse_duration}
use embrig.Harness.Dsl.{ExpectStep, effective_present}
use embrig.Harness.Target.{TestTarget, TargetError}
use embrig.Harness.Target.Virtual.{VirtualTarget, can_network, poll, virtual_target}
use embrig.Harness.Assertion.{Assertion, Observed}
use embrig.Harness.Polling.{Ran, Poll, returned, saturating_add, poll_loop}
use embrig.Harness.Polling.Loop.{poll_until-within}
use embrig.Harness.Polling.Deadline.{poll_loop-Ends}
use embrig.Harness.Steps.{Texts, evaluate_expect, decode_frame, observe, or_empty}
use embrig.Harness.Target.Virtual.Runs.{BusPanics, poll-Ended, Polled, start, next}

module _ (float : Float) {E : Type 0} (ecus_of : NetEcu float.R CanFrame E) where
  abbrev Bus : Network
  Bus = can_network float ecus_of

  abbrev Target : Type 0
  Target = VirtualTarget float ecus_of

  module _ (A : Type 0) (codec_text : CodecError → String)
      (build : Target → Result TargetError Target) (texts : Texts float) where
    abbrev pub methods : TestTarget float A Target
    unfolding virtual_target
    methods = virtual_target float ecus_of codec_text build

    -- What is made of a frame that was seen: the signal of a name, or nothing of it.
    abbrev decoder : ℕ → String → Target → CanFrame → Fallible String (Observed float.R)
    decoder = decode_frame float methods texts

    -- A poll fails to answer: its run panics, or the decoder does on the frame that it sees.
    abbrev pub PollPanics : ℕ → String → Target → Type 0
    PollPanics id name v =
        BusPanics float ecus_of v
        ⊎ ((t' : Target) × (f : CanFrame) × (poll float ecus_of v id ≡ some (t', ok (some f)))
            × (decoder id name t' f ≡ Fallible.panic))

    abbrev polls : ℕ → String → Poll float (λ (v : Target). v.sim.time)
    polls id name v = observe float methods texts (poll float ecus_of v id) (decoder id name)

    abbrev Answers : ℕ → String → Target → Type 0
    Answers id name v =
        (w : Target) × (answer : Result String (Option (Observed float.R))) × (polls id name v
          ≡ some (w, answer))
        × (v.sim.time < w.sim.time)
        × Steady Bus w.sim
        × (seen : Option CanFrame) × (poll float ecus_of v id ≡ some (w, ok seen))

    decoded :
        (id : ℕ) (name : String) (v w : Target) (f : CanFrame)
        (d : Fallible String (Observed float.R))
        → decoder id name w f ≡ d
        → poll float ecus_of v id ≡ some (w, ok (some f))
        → v.sim.time < w.sim.time
        → Steady Bus w.sim
        → Answers id name v ⊎ ((polls id name v ≡ none) × PollPanics id name v)
    decoded id name v w f (Fallible.ok o) d p later h =
        inl (w, ok (some o), rw (p, observe, d) refl, later, h, some f, p)
    decoded id name v w f (Fallible.err e) d p later h =
        inl (w, err e, rw (p, observe, d) refl, later, h, some f, p)
    decoded id name v w f Fallible.panic d p later h =
        inr (rw (p, observe, d) refl, inr (w, f, p, d))

    observed :
        (id : ℕ) (name : String) (v w : Target) (seen : Option CanFrame)
        → poll float ecus_of v id ≡ some (w, ok seen)
        → v.sim.time < w.sim.time
        → Steady Bus w.sim
        → Answers id name v ⊎ ((polls id name v ≡ none) × PollPanics id name v)
    observed id name v w none p later h = inl (w, ok none, rw p refl, later, h, none, p)
    observed id name v w (some f) p later h =
        decoded id name v w f (decoder id name w f) refl p later h

    polls-Answers :
        (id : ℕ) (name : String) (v : Target)
        → Steady Bus v.sim
        → Answers id name v ⊎ ((polls id name v ≡ none) × PollPanics id name v)
    polls-Answers id name v h = elim (poll-Ended float ecus_of v id h) [
      | inl (w, seen, p, later, h') ↦ observed id name v w seen p (omega (arith, later)) h'
      | inr (p, crash) ↦ inr (rw p refl, inl crash)
    ]

    abbrev asked : ExpectStep float.R → Assertion float.R
    unfolding effective_present
    asked spec = record {
      kind = "frame";
      label = "0x" ++ hex3 spec.id;
      field = or_empty spec.signal;
      present = effective_present spec.absent spec.present;
      equals = spec.equals;
      greater_than = spec.greater_than;
      less_than = spec.less_than;
    }

    as_loop :
        (spec : ExpectStep float.R) (t : Target) (test_deadline : Timestamp) (w : String)
        (fuel within_us : ℕ)
        → spec.within ≡ some w
        → parse_duration w ≡ Fallible.ok within_us
        → evaluate_expect float methods texts fuel spec t test_deadline
          ≡ poll_loop float
              (λ (v : Target). v.sim.time)
              fuel
              (asked spec)
              (polls spec.id (or_empty spec.signal))
              within_us
              (min (saturating_add t.sim.time within_us) test_deadline)
              t
    unfolding evaluate_expect virtual_target asked
    as_loop spec t test_deadline w fuel within_us within parsed = rw within (
        poll_until-within float (λ (v : Target). v.sim.time) texts.of_dsl fuel (asked spec) w
          test_deadline (polls spec.id (or_empty spec.signal)) t within_us parsed)

    -- After polls that answered, the next one panics.
    abbrev pub Fails : ℕ → String → Target → Target → Type 0
    Fails id name t v = Polled float ecus_of id t v × PollPanics id name v

    abbrev Kept : ℕ → Target → Target → Type 0
    Kept id t v = Polled float ecus_of id t v × Steady Bus v.sim

    -- The polls that follow on those of a target answer too, or panic.
    polls-Kept :
        (id : ℕ) (name : String) (t v : Target)
        → Kept id t v
        → ((w : Target) × (answer : Result String (Option (Observed float.R))) × (polls id name v
              ≡ some (w, answer))
            × (v.sim.time < w.sim.time)
            × Kept id t w)
          ⊎ ((polls id name v ≡ none) × Fails id name t v)
    polls-Kept id name t v (reached, h) = elim (polls-Answers id name v h) [
      | inl (w, answer, p, later, h', seen, q) ↦ inl (w, answer, p, later, (next reached q, h'))
      | inr (p, crash) ↦ inr (p, (reached, crash))
    ]

    -- On the virtual bus, whatever its firmware, an expectation ends: from a state with a positive step
    -- and no delayed message that is due before the next tick, with a `within` that parses, it
    -- returns within as many polls as its `within` has microseconds, and one, or it panics because,
    -- after polls that answered, the run of the bus panics in the next poll, or the decoding of the
    -- frame that this poll saw.
    pub evaluate_expect-Ends :
        (spec : ExpectStep float.R) (t : Target) (test_deadline : Timestamp) (w : String)
        (within_us : Timestamp)
        → Steady Bus t.sim
        → spec.within ≡ some w
        → parse_duration w ≡ Fallible.ok within_us
        → ((u : Target) × (r : Result String (Unit {0})) × (evaluate_expect float methods texts
                (suc within_us)
                spec
                t
                test_deadline
              ≡ returned (u, r)))
          ⊎ ((evaluate_expect float methods texts (suc within_us) spec t test_deadline
                ≡ Ran.panicked)
              × (v : Target) × Fails spec.id (or_empty spec.signal) t v)
    evaluate_expect-Ends spec t test_deadline w within_us h within parsed =
        let limit = min (saturating_add t.sim.time within_us) test_deadline in
        let bound : limit ≤ t.sim.time + within_us = omega arith in
        subst
          (λ ran.
            ((u : Target) × (r : Result String (Unit {0})) × (ran ≡ returned (u, r)))
            ⊎ ((ran ≡ Ran.panicked) × (v : Target) × Fails spec.id (or_empty spec.signal) t v))
          (sym (as_loop spec t test_deadline w (suc within_us) within_us within parsed))
          (poll_loop-Ends float (λ (v : Target). v.sim.time) (asked spec)
            (polls spec.id (or_empty spec.signal)) within_us limit (Kept spec.id t)
            (Fails spec.id (or_empty spec.signal) t) (polls-Kept spec.id (or_empty spec.signal) t)
            within_us t (start, h) bound)
