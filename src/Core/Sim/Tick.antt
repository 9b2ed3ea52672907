-- ===== src/Core/Sim/Tick.antt =====
-- One tick (`step` of NetworkSim, crates/embrig-core/src/network.rs): the clock, the log and the
-- delayed messages.
use embrig.Prelude.{ℕ, ◌+◌, ◌≤◌, ◌<◌, ◌≡◌, sym, ap, ◌∙◌, List, [], ◌∷◌, some, arith, true, not, All}
use embrig.Prelude.Panic.{>>=-eq-some, some_inj, add_u64, add_u64_inv}
use embrig.Core.Network.{Network}
use embrig.Core.Recorder.{NetRecord}
use embrig.Core.Sim.{
  NetworkSim, log_message, deliver, deliver_due, flush_delayed, update_all, route_all, step, is_due,
}
use embrig.Core.Sim.Extends.{IsAt, IsQueued, deliver_inv}

module _ (net : Network) where
  open net use {K, M, F, E, R, keys, message, fault, ecu}

  -- The states of a tick: the ECUs ran, their messages were routed, the due messages delivered.
  pub record IsTick (s s' : NetworkSim net) : Type 0 where
    pub es : List E
    pub out : List M
    pub routed : NetworkSim net
    pub flushed : NetworkSim net
    pub updates : update_all net s.ecus s.time s.outbound ≡ some (es, out)
    pub routes : route_all net (record s { ecus = es; outbound = [] }) out ≡ some routed
    pub flushes : flush_delayed net routed ≡ some flushed
    pub advances : s' ≡ record flushed { time = flushed.time + flushed.step_us }

  pub step-IsTick : (s s' : NetworkSim net) → step net s ≡ some s' → IsTick s s'
  unfolding step
  step-IsTick s s' h =
      let (u, e1, h1) = >>=-eq-some (update_all net s.ecus s.time s.outbound) _ h in
      let (t, e2, h2) =
        >>=-eq-some (route_all net (record s { ecus = u.0; outbound = [] }) u.1) _ h1 in
      let (f, e3, h3) = >>=-eq-some (flush_delayed net t) _ h2 in
      let (now, e4, h4) = >>=-eq-some (add_u64 f.time f.step_us) _ h3 in
      record {
        es = u.0;
        out = u.1;
        routed = t;
        flushed = f;
        updates = e1;
        routes = e2;
        flushes = e3;
        advances = rw (← (add_u64_inv f.time f.step_us e4).0) (sym (some_inj h4));
      }

  -- A delayed message is due at its own timestamp, and not later than this tick allows.
  abbrev pub IsScheduledAt : ℕ → ℕ → ℕ × M → Type 0
  IsScheduledAt now step (at, msg) = (message.ts msg ≡ at) × (now < at + step)

  abbrev pub IsScheduled : NetworkSim net → Type 0
  IsScheduled s = All (IsScheduledAt s.time s.step_us) s.delayed

  -- A record whose time lies in the tick that ends at `now`.
  abbrev pub IsPunctual : ℕ → ℕ → NetRecord M → Type 0
  IsPunctual now step (NetRecord.message msg) =
      (message.ts msg ≤ now) × (now < message.ts msg + step)
  IsPunctual now step (NetRecord.event ts source text) = (ts ≤ now) × (now < ts + step)

  pub IsAt-IsPunctual :
      (now step : ℕ) (r : NetRecord M) → 0 < step → IsAt net now r → IsPunctual now step r
  IsAt-IsPunctual now step (NetRecord.message msg) h e = omega arith
  IsAt-IsPunctual now step (NetRecord.event ts source text) h e = omega arith

  pub IsQueued-IsScheduledAt :
      (now step : ℕ) (entry : ℕ × M)
      → 0 < step
      → IsQueued net now entry
      → IsScheduledAt now step entry
  IsQueued-IsScheduledAt now step (at, msg) h (e, le) = (e, omega arith)

  pub due-IsPunctual :
      (now step : ℕ) (entry : ℕ × M)
      → IsScheduledAt now step entry × (is_due net now entry ≡ true)
      → IsPunctual now step (NetRecord.message entry.1)
  due-IsPunctual now step (at, msg) ((e, lt), due) = ground arith

  pub kept-IsScheduledAt :
      (now step : ℕ) (entry : ℕ × M)
      → IsScheduledAt now step entry × (not (is_due net now entry) ≡ true)
      → IsScheduledAt (now + step) step entry
  kept-IsScheduledAt now step (at, msg) ((e, lt), due) = (e, ground arith)

  pub deliver_due-delayed :
      (s s' : NetworkSim net) (due : List (ℕ × M))
      → deliver_due net s due ≡ some s'
      → s'.delayed ≡ s.delayed
  unfolding deliver_due
  deliver_due-delayed s s' [] h = ap (λ t. t.delayed) (sym (some_inj h))
  deliver_due-delayed s s' ((at, msg) ∷ due) h =
      let (t, e, h1) = >>=-eq-some (deliver net (log_message net s msg) msg) _ h in
      let (es, _, d) = deliver_inv net (log_message net s msg) msg e in
      deliver_due-delayed t s' due h1 ∙ ap (λ u. u.delayed) d
