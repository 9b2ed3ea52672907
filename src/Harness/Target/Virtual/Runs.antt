-- ===== src/Harness/Target/Virtual/Runs.antt =====
-- Polls of the virtual target of crates/embrig-test/src/target.rs, with any firmware: with a positive step they end.
use embrig.Prelude.{ℕ, ◌+◌, ◌≤◌, ◌≡◌, ◌⊎◌, inl, inr, refl, Option, none, some, arith}
use embrig.Prelude.Keys.{nat_key}
use embrig.Prelude.Panic.{add_u64}
use embrig.Prelude.Result.{ok}
use embrig.Core.Float.{Float}
use embrig.Core.Frame.{CanFrame}
use embrig.Core.Network.{Network, NetEcu}
use embrig.Core.Recorder.{last_message}
use embrig.Core.Sim as Sim
use embrig.Core.Sim.{NetworkSim, Run, panicked}
use embrig.Core.Sim.Steady.{Steady, Ended, run_until-Ended}
use embrig.Harness.Target.{poll_us}
use embrig.Harness.Target.Virtual.{VirtualTarget, can_network, run_for, poll}

add_u64-cases : (a b : ℕ) → (add_u64 a b ≡ none) ⊎ (add_u64 a b ≡ some (a + b))
add_u64-cases a b = ground arith

module _ (float : Float) {E : Type 0} (ecus_of : NetEcu float.R CanFrame E) where
  abbrev Bus : Network
  Bus = can_network float ecus_of

  abbrev Target : Type 0
  Target = VirtualTarget float ecus_of

  -- The run of a poll panics: a tick of it does, or its end leaves u64.
  abbrev pub BusPanics : Target → Type 0
  BusPanics v = Sim.run_for Bus poll_us v.sim poll_us ≡ panicked

  run_for-Ended :
      (s : NetworkSim Bus) (duration : ℕ)
      → Steady Bus s
      → Ended Bus (s.time + duration) (Sim.run_for Bus duration s duration)
  unfolding Sim.run_for
  run_for-Ended s duration h = elim (add_u64-cases s.time duration) [
    | inl over ↦ rw (Sim.run_for, over) (inr refl)
    | inr fits ↦
        rw (Sim.run_for, fits) (run_until-Ended Bus duration s (s.time + duration) h (omega arith))
  ]

  -- A poll of the virtual target returns and moves its clock on by at least the poll interval, or
  -- its run panics.
  pub poll-Ended :
      (t : Target) (id : ℕ)
      → Steady Bus t.sim
      → ((t' : Target) × (seen : Option CanFrame) × (poll float ecus_of t id ≡ some (t', ok seen))
          × (t.sim.time + poll_us ≤ t'.sim.time)
          × Steady Bus t'.sim)
        ⊎ ((poll float ecus_of t id ≡ none) × BusPanics t)
  unfolding poll run_for
  poll-Ended t id h = elim (run_for-Ended t.sim poll_us h) [
    | inr crash ↦ inr (rw (poll, run_for, crash) refl, crash)
    | inl (s', run, reached, after) ↦ inl (
      record t { sim = s' },
      last_message ⦃k = nat_key⦄ (λ f. f.id) id s'.recorder,
      rw (poll, run_for, run) refl,
      reached,
      after,
    )
  ]

  -- The targets that a target gets to by polls that answer.
  pub data Polled (id : ℕ) (t : Target) : Target → Type 0 where
    start : Polled id t t
    next :
        {v w : Target} {seen : Option CanFrame}
        → Polled id t v
        → poll float ecus_of v id ≡ some (w, ok seen)
        → Polled id t w
