-- ===== src/Core/Sim/Clock.antt =====
-- `run_until` of NetworkSim (crates/embrig-core/src/network.rs): it ends, and where the clock
-- stands then.
use embrig.Prelude.{
  ℕ, zero, suc, ◌+◌, ◌*◌, ◌≤◌, ◌<◌, ◌≡◌, ◌↔◌, ◌⊎◌, refl, sym, ap, subst, subst₂, ◌∙◌, some, arith,
  Bool-cases, inl, inr, le→ltb, ltb→lt, ltb, All,
}
use embrig.Prelude.Panic.{u64_mod}
use embrig.Core.Network.{Network}
use embrig.Core.Sim.{NetworkSim, Run, finished, run_until, step}
use embrig.Core.Sim.Tick.{IsScheduled}
use embrig.Core.Sim.Punctual.{Ticks, step-Ticks}
use embrig.Core.Sim.Total.{NeverPanics, Ready, FitsRule, InRange, step-total}

module _ (net : Network) where
  -- The states that ticks lead to, with their number.
  pub data Ticked : NetworkSim net → ℕ → NetworkSim net → Type 0 where
    none_yet : {s : NetworkSim net} → Ticked s 0 s
    one_more :
        {n : ℕ} {s t u : NetworkSim net} → step net s ≡ some t → Ticked t n u → Ticked s (suc n) u

  -- A run from `s` that returned: whole ticks, if any the last of them started before `until`.
  pub record Returns (s : NetworkSim net) (until : ℕ) (r : Run net) : Type 0 where
    pub final : NetworkSim net
    pub ticks : ℕ
    pub returns : r ≡ finished final
    pub ticked : Ticked s ticks final
    pub clock : final.time ≡ s.time + ticks * s.step_us
    pub reached : until ≤ final.time
    pub in_time : (ticks ≡ 0) ⊎ (final.time < until + s.step_us)

  pub Ticks-Ready :
      (horizon : ℕ) (s t : NetworkSim net)
      → Ticks net s t
      → Ready net horizon s
      → Ready net horizon t
  Ticks-Ready horizon s t x h = record {
    in_range =
        subst₂ (λ n subs. All (λ entry. InRange net n entry.1) subs) (sym x.ecus)
          (sym x.subscriptions) h.in_range;
    rules = subst (All (FitsRule net horizon)) (sym x.faults) h.rules;
  }

  Returns-stop : (s : NetworkSim net) (until : ℕ) → until ≤ s.time → Returns s until (finished s)
  Returns-stop s until h = record {
    final = s;
    ticks = 0;
    returns = refl;
    ticked = none_yet;
    clock = omega arith;
    reached = h;
    in_time = inl refl;
  }

  Returns-tick :
      (s t : NetworkSim net) (until : ℕ) (r : Run net)
      → step net s ≡ some t
      → Ticks net s t
      → s.time < until
      → Returns t until r
      → Returns s until r
  Returns-tick s t until r e x lt rest = record {
    final = rest.final;
    ticks = suc rest.ticks;
    returns = rest.returns;
    ticked = one_more e rest.ticked;
    clock = omega (arith, rest.clock, x.time, ap (λ (w : ℕ). rest.ticks * w) x.step_us);
    reached = rest.reached;
    in_time = inr (elim rest.in_time [
      | inl e ↦ omega (arith, rest.clock, x.time, ap (λ (n : ℕ). n * t.step_us) e)
      | inr h ↦ subst (λ w. rest.final.time < until + w) x.step_us h
    ]);
  }

  -- With a positive step, firmware that does not panic, subscriptions in range, rules that fit
  -- below `until`, scheduled delays, room for one more step in u64 and fuel for the distance,
  -- `run_until` returns: after whole ticks it stops at the first tick time not below `until`.
  pub run_until-Returns :
      NeverPanics net
      → (fuel : ℕ) (s : NetworkSim net) (until : ℕ) → 0 < s.step_us
      → IsScheduled net s
      → Ready net until s
      → until + s.step_us ≤ u64_mod
      → until ≤ s.time + fuel
      → Returns s until (run_until net fuel s until)
  unfolding run_until
  run_until-Returns safe zero s until pos sched ready room enough =
      rw (le→ltb s.time until (omega arith)) (Returns-stop s until (omega arith))
  run_until-Returns safe (suc fuel) s until pos sched ready room enough =
      elim (Bool-cases (ltb s.time until)) [
        | inl before ↦
            let lt = ltb→lt s.time until before in
            let (t, e) = step-total net safe until s lt (omega arith) ready in
            let x = step-Ticks net s t pos sched e in
            rw (before, e)
              (Returns-tick s t until _ e x lt (
                run_until-Returns safe fuel t until (omega (arith, x.step_us)) x.scheduled
                  (Ticks-Ready until s t x ready) (omega (arith, x.step_us))
                  (omega (arith, x.time))))
        | inr after ↦ rw after (Returns-stop s until ground arith)
      ]

  mul_mono : (a b w : ℕ) → a ≤ b → a * w ≤ b * w
  mul_mono a b w h = grind arith

  compare_cases : (k m : ℕ) → (k ≡ m) ⊎ ((k < m) ⊎ (m < k))
  compare_cases k m = omega arith

  same_multiple : (k m w : ℕ) → m * w ≤ k * w → k * w < m * w + w → k * w ≡ m * w
  same_multiple k m w lo hi = elim (compare_cases k m) [
    | inl e ↦ ap (λ (n : ℕ). n * w) e
    | inr (inl lt) ↦ absurd (omega (arith, mul_mono (suc k) m w lt))
    | inr (inr gt) ↦ absurd (omega (arith, mul_mono (suc m) k w gt))
  ]

  -- With a positive step, firmware that does not panic, subscriptions in range, rules that fit
  -- below `until`, scheduled delays, room for one more step in u64, fuel for the distance and a clock
  -- not past `until`, the run returns, and it ends exactly at `until` if and only if `until` lies a
  -- whole number of steps after the start.
  pub run_until_exact :
      NeverPanics net
      → (fuel : ℕ) (s : NetworkSim net) (until : ℕ) → 0 < s.step_us
      → IsScheduled net s
      → Ready net until s
      → until + s.step_us ≤ u64_mod
      → until ≤ s.time + fuel
      → s.time ≤ until
      → (s' : NetworkSim net) × (run_until net fuel s until ≡ finished s')
        × ((s'.time ≡ until) ↔ ((m : ℕ) × (until ≡ s.time + m * s.step_us)))
  run_until_exact safe fuel s until pos sched ready room enough start =
      let x = run_until-Returns safe fuel s until pos sched ready room enough in
      let before : x.final.time < until + s.step_us = elim x.in_time [
        | inl e ↦ omega (arith, x.clock, ap (λ (n : ℕ). n * s.step_us) e)
        | inr h ↦ h
      ] in
      (
        x.final,
        x.returns,
        (
          λ e. (x.ticks, sym e ∙ x.clock),
          λ (m, e). omega (
            arith,
            x.clock,
            same_multiple x.ticks m s.step_us (omega (arith, x.clock, x.reached))
                (omega (arith, x.clock, before)),
          ),
        ),
      )
