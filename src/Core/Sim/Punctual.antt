-- ===== src/Core/Sim/Punctual.antt =====
-- Delayed messages of NetworkSim (crates/embrig-core/src/network.rs): nothing is delivered before
-- its time, nor later than the first tick after it.
use embrig.Prelude.{
  ℕ, ◌+◌, ◌<◌, ◌≡◌, sym, ap, ap₂, subst, subst₂, ◌∙◌, List, [], ◌++◌, some, true, Bool, not, length,
  All, filterb, All-append, All-filterb, All-filterb_test, All-both, All-map,
}
use embrig.Core.Network.{Network}
use embrig.Core.Recorder.{NetRecord}
use embrig.Core.Sim.{NetworkSim, flush_delayed, step, is_due}
use embrig.Core.Sim.Extends.{
  Extends, append_append, update_all-length, IsAt, IsQueued, route_all-Extends, deliver_due-Extends,
}
use embrig.Core.Sim.Tick.{
  step-IsTick, IsScheduled, IsScheduledAt, IsPunctual, IsAt-IsPunctual, IsQueued-IsScheduledAt,
  due-IsPunctual, kept-IsScheduledAt, deliver_due-delayed,
}

module _ (net : Network) where
  open net use {K, M, F, E, R, keys, message, fault, ecu}

  -- The due messages are logged and the others stay.
  pub flush_delayed-Extends :
      (s s' : NetworkSim net)
      → IsScheduled net s
      → flush_delayed net s ≡ some s'
      → Extends net
          (IsPunctual net s.time s.step_us)
          (record s { delayed = filterb (λ entry. not (is_due net s.time entry)) s.delayed })
          s'
        × (s'.delayed ≡ filterb (λ entry. not (is_due net s.time entry)) s.delayed)
  unfolding flush_delayed
  flush_delayed-Extends s s' sched h =
      let due = filterb (is_due net s.time) s.delayed in
      let kept = record s {
        delayed = filterb (λ entry. not (is_due net s.time entry)) s.delayed;
      } in
      let P = IsPunctual net s.time s.step_us in
      let Q = IsScheduledAt net s.time s.step_us in
      (
        deliver_due-Extends net P kept s' due
            (All-map (λ entry. Q entry × (is_due net s.time entry ≡ true))
              (λ entry. P (NetRecord.message entry.1)) due (due-IsPunctual net s.time s.step_us)
              (All-both Q (λ entry. is_due net s.time entry ≡ true) due
                (All-filterb Q (is_due net s.time) s.delayed sched)
                (All-filterb_test (is_due net s.time) s.delayed)))
            h,
        deliver_due-delayed net kept s' due h,
      )

  -- After routing, every delayed message is still scheduled.
  pub routed-IsScheduled :
      (s t : NetworkSim net)
      → 0 < s.step_us
      → IsScheduled net s
      → Extends net (IsAt net s.time) s t
      → IsScheduled net t
  routed-IsScheduled s t pos sched x =
      subst (λ now. All (IsScheduledAt net now t.step_us) t.delayed) (sym x.time)
        (subst (λ w. All (IsScheduledAt net s.time w) t.delayed) (sym x.step_us)
          (subst (All (IsScheduledAt net s.time s.step_us)) (sym x.delayed) (
            All-append (IsScheduledAt net s.time s.step_us) s.delayed x.queued sched (
              All-map (IsQueued net s.time) (IsScheduledAt net s.time s.step_us) x.queued
                (λ entry q. IsQueued-IsScheduledAt net s.time s.step_us entry pos q)
                x.queued_later))))

  -- What stays after a flush is scheduled for a later tick.
  flushed-IsScheduled :
      (t f s' : NetworkSim net)
      → IsScheduled net t
      → f.time ≡ t.time
      → f.step_us ≡ t.step_us
      → f.delayed ≡ filterb (λ entry. not (is_due net t.time entry)) t.delayed
      → s' ≡ record f { time = f.time + f.step_us }
      → IsScheduled net s'
  flushed-IsScheduled t f s' sched now width left e = subst (IsScheduled net) (sym e) (
      subst₂ (λ n w. All (IsScheduledAt net (n + w) w) f.delayed) (sym now) (sym width)
        (subst (All (IsScheduledAt net (t.time + t.step_us) t.step_us)) (sym left) (
          All-map (λ entry. Q entry × (late entry ≡ true))
            (IsScheduledAt net (t.time + t.step_us) t.step_us) (filterb late t.delayed)
            (kept-IsScheduledAt net t.time t.step_us)
            (All-both Q (λ entry. late entry ≡ true) (filterb late t.delayed)
              (All-filterb Q late t.delayed sched) (All-filterb_test late t.delayed)))))
    where
      Q : ℕ × M → Type 0
      Q = IsScheduledAt net t.time t.step_us

      late : ℕ × M → Bool
      late entry = not (is_due net t.time entry)

  -- What a tick does to the clock, the settings and the log.
  pub record Ticks (s s' : NetworkSim net) : Type 0 where
    pub logged : List (NetRecord M)
    pub time : s'.time ≡ s.time + s.step_us
    pub step_us : s'.step_us ≡ s.step_us
    pub faults : s'.faults ≡ s.faults
    pub subscriptions : s'.subscriptions ≡ s.subscriptions
    pub ecus : length s'.ecus ≡ length s.ecus
    pub records : s'.recorder.records ≡ s.recorder.records ++ logged
    pub punctual : All (IsPunctual net s.time s.step_us) logged
    pub scheduled : IsScheduled net s'

  -- With a positive step, from a state whose delayed messages are scheduled, a tick that returns
  -- advances the clock by one step, keeps the step, the fault rules and the subscriptions, only
  -- appends to the log, logs no message before its timestamp nor a whole step after it, and leaves
  -- the delayed messages scheduled: none of them was due.
  pub step-Ticks :
      (s s' : NetworkSim net)
      → 0 < s.step_us
      → IsScheduled net s
      → step net s ≡ some s'
      → Ticks s s'
  step-Ticks s s' pos sched h =
      let k = step-IsTick net s s' h in
      let start : NetworkSim net = record s { ecus = k.es; outbound = [] } in
      let a = route_all-Extends net start k.routed k.out k.routes in
      let (b, left) =
        flush_delayed-Extends k.routed k.flushed (routed-IsScheduled start k.routed pos sched a)
          k.flushes in
      let P = IsPunctual net s.time s.step_us in
      let now : k.flushed.time ≡ s.time = b.time ∙ a.time in
      let width : k.flushed.step_us ≡ s.step_us = b.step_us ∙ a.step_us in
      record {
        logged = a.logged ++ b.logged;
        time = ap (λ t. t.time) k.advances ∙ ap₂ ◌+◌ now width;
        step_us = ap (λ t. t.step_us) k.advances ∙ width;
        faults = ap (λ t. t.faults) k.advances ∙ b.faults ∙ a.faults;
        subscriptions = ap (λ t. t.subscriptions) k.advances ∙ b.subscriptions ∙ a.subscriptions;
        ecus =
            ap (λ t. length t.ecus) k.advances
            ∙ b.ecus
            ∙ a.ecus
            ∙ update_all-length net s.ecus s.time s.outbound k.updates;
        records =
            ap (λ t. t.recorder.records) k.advances
            ∙ append_append s.recorder.records a.logged b.logged a.records b.records;
        punctual =
            All-append P a.logged b.logged
              (All-map (IsAt net s.time) P a.logged
                (λ r e. IsAt-IsPunctual net s.time s.step_us r pos e) a.logged_P)
              (subst₂ (λ t w. All (IsPunctual net t w) b.logged) a.time a.step_us b.logged_P);
        scheduled =
            flushed-IsScheduled k.routed k.flushed s'
              (routed-IsScheduled start k.routed pos sched a) b.time b.step_us left k.advances;
      }
