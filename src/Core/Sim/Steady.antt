-- ===== src/Core/Sim/Steady.antt =====
-- Runs of NetworkSim (crates/embrig-core/src/network.rs) with any firmware: with a positive step they end.
use embrig.Prelude.{
  ℕ, zero, suc, ◌+◌, ◌≤◌, ◌<◌, ◌≡◌, ◌⊎◌, inl, inr, refl, sym, subst, none, some, arith, ltb, le→ltb,
  Bool-cases,
}
use embrig.Prelude.Panic.{Panic}
use embrig.Core.Network.{Network}
use embrig.Core.Sim.{NetworkSim, Run, finished, panicked, run_until, step}
use embrig.Core.Sim.Tick.{IsScheduled}
use embrig.Core.Sim.Punctual.{step-Ticks}

Panic-cases : {A : Type 0} (o : Panic A) → (o ≡ none) ⊎ ((a : A) × (o ≡ some a))
Panic-cases none = inl refl
Panic-cases (some a) = inr (a, refl)

module _ (net : Network) where
  -- The step is positive, and no delayed message is due before the next tick.
  pub record Steady (s : NetworkSim net) : Type 0 where
    pub positive : 0 < s.step_us
    pub scheduled : IsScheduled net s

  -- A run that ended: it returned at or after `until`, in a steady state, or one of its ticks panicked.
  abbrev pub Ended : ℕ → Run net → Type 0
  Ended until r =
      ((s' : NetworkSim net) × (r ≡ finished s') × (until ≤ s'.time) × Steady s') ⊎ (r ≡ panicked)

  step-Steady :
      (s t : NetworkSim net) → Steady s → step net s ≡ some t → Steady t × (s.time < t.time)
  step-Steady s t h e =
      let x = step-Ticks net s t h.positive h.scheduled e in
      (
        record {
          positive = subst (λ w. 0 < w) (sym x.step_us) h.positive;
          scheduled = x.scheduled;
        },
        omega (arith, x.time, h.positive),
      )

  -- With a positive step, a run with fuel for the distance ends.
  pub run_until-Ended :
      (fuel : ℕ) (s : NetworkSim net) (until : ℕ)
      → Steady s
      → until ≤ s.time + fuel
      → Ended until (run_until net fuel s until)
  unfolding run_until
  run_until-Ended zero s until h enough =
      rw (le→ltb s.time until (omega arith)) (inl (s, refl, omega arith, h))
  run_until-Ended (suc fuel) s until h enough = elim (Bool-cases (ltb s.time until)) [
    | inr after ↦ rw after (inl (s, refl, ground arith, h))
    | inl before ↦ elim (Panic-cases (step net s)) [
      | inl crash ↦ rw (before, crash) (inr refl)
      | inr (t, e) ↦
          let (steady, later) = step-Steady s t h e in
          rw (before, e) (run_until-Ended fuel t until steady (omega (arith, later)))
    ]
  ]
