-- ===== src/Core/Sim/Total.antt =====
-- NetworkSim (crates/embrig-core/src/network.rs) does not panic: every subscription names an ECU,
-- and up to a horizon no sum of times leaves u64.
use embrig.Prelude.{
  ℕ, ◌+◌, ◌≤◌, ◌<◌, ◌≡◌, refl, sym, ap, subst, subst₂, ◌∙◌, List, [], ◌∷◌, some, none, arith, ◌&&◌,
  All, set, length, length-set, get_elem?-some, filterb, not, Bool-cases, inl, inr,
}
use embrig.Prelude.Keys.{◌==◌}
use embrig.Prelude.Map.{Map, get}
use embrig.Prelude.Panic.{>>=-total, add_u64, add_u64_lem, u64_mod}
use embrig.Core.Network.{Network, NetAction, NetFaultRule}
use embrig.Core.Recorder.{NetRecord}
use embrig.Core.Sim.{
  NetworkSim, deliver_to, deliver, subscribers, apply_faults, perform, route, route_all,
  log_message, deliver_due, flush_delayed, update_all, step, is_due,
}
use embrig.Core.Sim.Extends.{
  Extends, IsAt, deliver_inv, deliver_to-length, update_all-length, route_all-Extends,
  deliver_due-Extends, route-Extends,
}
use embrig.Core.Sim.Routing.{FitsWindow, active_at_total}

All-Unit : {A : Type 0} (xs : List A) → All (λ x. Unit {0}) xs
All-Unit [] = tt
All-Unit (x ∷ xs) = (tt, All-Unit xs)

module _ (net : Network) where
  open net use {K, M, F, E, R, keys, message, fault, ecu}

  -- The firmware does not panic.
  pub record NeverPanics : Type 0 where
    pub updates :
        (e : E) (now : ℕ) (out : List M) → (r : E × List M) × (ecu.update e now out ≡ some r)
    pub handles : (e : E) (msg : M) (now : ℕ) → (e' : E) × (ecu.on_message e msg now ≡ some e')

  abbrev pub FitsAction : ℕ → NetAction → Type 0
  FitsAction horizon (NetAction.delay d) = d + horizon ≤ u64_mod
  FitsAction horizon NetAction.deliver = Unit {0}
  FitsAction horizon NetAction.drop = Unit {0}
  FitsAction horizon (NetAction.corrupt byte mask) = Unit {0}

  abbrev pub FitsRule : ℕ → NetFaultRule F → Type 0
  FitsRule horizon rule = FitsWindow rule × FitsAction horizon (fault.action rule.fault)

  abbrev pub InRange : ℕ → List ℕ → Type 0
  InRange n = All (λ i. i < n)

  -- Every subscription names an ECU, and every rule stays inside u64 before the horizon.
  pub record Ready (horizon : ℕ) (s : NetworkSim net) : Type 0 where
    pub in_range : All (λ entry. InRange (length s.ecus) entry.1) s.subscriptions
    pub rules : All (FitsRule horizon) s.faults

  pub subscribers-InRange :
      (n : ℕ) (m : Map K (List ℕ)) (key : K)
      → All (λ entry. InRange n entry.1) m
      → InRange n (elim (get ⦃k = keys⦄ m key) [ none ↦ [] | some is ↦ is ])
  subscribers-InRange n [] key h = tt
  subscribers-InRange n ((j, is) ∷ m) key h = elim (Bool-cases (◌==◌ ⦃k = keys⦄ j key)) [
    | inl e ↦ rw e h.0
    | inr e ↦ rw e (subscribers-InRange n m key h.1)
  ]

  module _ (safe : NeverPanics) where
    deliver_to-total :
        (is : List ℕ) (msg : M) (now : ℕ) (es : List E)
        → InRange (length es) is
        → (es' : List E) × (deliver_to net is msg now es ≡ some es')
    unfolding deliver_to
    deliver_to-total [] msg now es h = (es, refl)
    deliver_to-total (i ∷ is) msg now es h =
        let (e, p) = get_elem?-some es i h.0 in
        let (e', q) = safe.handles e msg now in
        let (es', r) =
          deliver_to-total is msg now (set es i e')
            (subst (λ n. InRange n is) (sym (length-set es i e')) h.1) in
        (es', rw (p, q) r)

    deliver-total :
        (s : NetworkSim net) (msg : M)
        → All (λ entry. InRange (length s.ecus) entry.1) s.subscriptions
        → (s' : NetworkSim net) × (deliver net s msg ≡ some s')
    unfolding deliver
    deliver-total s msg h =
        let (es, p) =
          deliver_to-total (subscribers net s (message.key msg)) msg s.time s.ecus
            (subscribers-InRange (length s.ecus) s.subscriptions (message.key msg) h) in
        (record s { ecus = es }, rw p)

    apply_faults-total :
        (horizon : ℕ) (rules : List (NetFaultRule F)) (now : ℕ) (key : K)
        → All (FitsRule horizon) rules
        → (a : NetAction) × (apply_faults net rules now key ≡ some a) × FitsAction horizon a
    unfolding apply_faults
    apply_faults-total horizon [] now key h = (NetAction.deliver, refl, tt)
    apply_faults-total horizon (r ∷ rules) now key h =
        let (b, e) = active_at_total r now h.0.0 in
        elim (Bool-cases (b && fault.matches r.fault key)) [
          | inl hit ↦ (fault.action r.fault, rw (e, hit), h.0.1)
          | inr miss ↦
              let (a, p, f) = apply_faults-total horizon rules now key h.1 in (a, rw (e, miss) p, f)
        ]

    perform-total :
        (horizon : ℕ) (action : NetAction) (s : NetworkSim net) (msg : M)
        → s.time < horizon
        → message.ts msg ≡ s.time
        → FitsAction horizon action
        → All (λ entry. InRange (length s.ecus) entry.1) s.subscriptions
        → (s' : NetworkSim net) × (perform net action s msg ≡ some s')
    unfolding perform
    perform-total horizon NetAction.deliver s msg lt now f h =
        deliver-total (log_message net s msg) msg h
    perform-total horizon NetAction.drop s msg lt now f h = (_, refl)
    perform-total horizon (NetAction.delay d) s msg lt now f h =
        >>=-total (add_u64 (message.ts msg) d) _ (message.ts msg + d)
          (add_u64_lem (message.ts msg) d (omega arith))
          (>>=-total (add_u64 s.time d) _ (s.time + d) (add_u64_lem s.time d (omega arith))
            (_, refl))
    perform-total horizon (NetAction.corrupt byte mask) s msg lt now f h = deliver-total _ _ h

    route-total :
        (horizon : ℕ) (s : NetworkSim net) (msg : M)
        → s.time < horizon
        → message.ts msg ≡ s.time
        → Ready horizon s
        → (s' : NetworkSim net) × (route net s msg ≡ some s')
    unfolding route
    route-total horizon s msg lt now h =
        let (a, e, f) = apply_faults-total horizon s.faults s.time (message.key msg) h.rules in
        >>=-total (apply_faults net s.faults s.time (message.key msg)) _ a e
          (perform-total horizon a s msg lt now f h.in_range)

    -- Routing and delivering keep the rules, the subscriptions and the number of ECUs.
    Extends-Ready :
        (horizon : ℕ) (P : NetRecord M → Type 0) (s s' : NetworkSim net)
        → Extends net P s s'
        → Ready horizon s
        → Ready horizon s'
    Extends-Ready horizon P s s' x h = record {
      in_range =
          subst₂ (λ n subs. All (λ entry. InRange n entry.1) subs) (sym x.ecus)
            (sym x.subscriptions) h.in_range;
      rules = subst (All (FitsRule horizon)) (sym x.faults) h.rules;
    }

    route_all-total :
        (horizon : ℕ) (s : NetworkSim net) (msgs : List M)
        → s.time < horizon
        → Ready horizon s
        → (s' : NetworkSim net) × (route_all net s msgs ≡ some s')
    unfolding route_all
    route_all-total horizon s [] lt h = (s, refl)
    route_all-total horizon s (msg ∷ msgs) lt h =
        let stamped = message.ts-set_ts msg s.time in
        let (t, e) = route-total horizon s (message.set_ts msg s.time) lt stamped h in
        let x = route-Extends net s t (message.set_ts msg s.time) stamped e in
        >>=-total (route net s (message.set_ts msg s.time)) _ t e (
          route_all-total horizon t msgs (omega (arith, x.time))
            (Extends-Ready horizon (IsAt net s.time) s t x h))

    deliver_due-total :
        (s : NetworkSim net) (due : List (ℕ × M))
        → All (λ entry. InRange (length s.ecus) entry.1) s.subscriptions
        → (s' : NetworkSim net) × (deliver_due net s due ≡ some s')
    unfolding deliver_due
    deliver_due-total s [] h = (s, refl)
    deliver_due-total s ((at, msg) ∷ due) h =
        let (t, e) = deliver-total (log_message net s msg) msg h in
        let (es, d, q) = deliver_inv net (log_message net s msg) msg e in
        let n = deliver_to-length net (subscribers net s (message.key msg)) msg s.time s.ecus d in
        >>=-total (deliver net (log_message net s msg) msg) _ t e (
          deliver_due-total t due (
            subst₂ (λ k subs. All (λ entry. InRange k entry.1) subs)
              (sym (ap (λ u. length u.ecus) q ∙ n)) (sym (ap (λ u. u.subscriptions) q)) h))

    update_all-total :
        (es : List E) (now : ℕ) (out : List M)
        → (r : List E × List M) × (update_all net es now out ≡ some r)
    unfolding update_all
    update_all-total [] now out = (_, refl)
    update_all-total (e ∷ es) now out =
        let (u, p) = safe.updates e now out in
        let (v, q) = update_all-total es now u.1 in
        >>=-total (ecu.update e now out) _ u p
          (>>=-total (update_all net es now u.1) _ v q (_, refl))

    flush_delayed-total :
        (s : NetworkSim net)
        → All (λ entry. InRange (length s.ecus) entry.1) s.subscriptions
        → (s' : NetworkSim net) × (flush_delayed net s ≡ some s')
    unfolding flush_delayed
    flush_delayed-total s h =
        deliver_due-total
          (record s { delayed = filterb (λ entry. not (is_due net s.time entry)) s.delayed })
          (filterb (is_due net s.time) s.delayed) h

    flush_delayed-clock :
        (s s' : NetworkSim net)
        → flush_delayed net s ≡ some s'
        → (s'.time ≡ s.time) × (s'.step_us ≡ s.step_us)
    unfolding flush_delayed
    flush_delayed-clock s s' h =
        let due = filterb (is_due net s.time) s.delayed in
        let x =
          deliver_due-Extends net (λ r. Unit {0})
            (record s { delayed = filterb (λ entry. not (is_due net s.time entry)) s.delayed }) s'
            due (All-Unit due) h in
        (x.time, x.step_us)

    -- With firmware that does not panic, subscriptions in range and rules that fit below the
    -- horizon, a tick before the horizon whose end fits in u64 does not panic.
    pub step-total :
        (horizon : ℕ) (s : NetworkSim net)
        → s.time < horizon
        → s.time + s.step_us < u64_mod
        → Ready horizon s
        → (s' : NetworkSim net) × (step net s ≡ some s')
    unfolding step
    step-total horizon s lt fits h =
        let (u, e1) = update_all-total s.ecus s.time s.outbound in
        let start : NetworkSim net = record s { ecus = u.0; outbound = [] } in
        let ready : Ready horizon start = record {
          in_range =
              subst (λ n. All (λ entry. InRange n entry.1) s.subscriptions)
                (sym (update_all-length net s.ecus s.time s.outbound e1)) h.in_range;
          rules = h.rules;
        } in
        let (t, e2) = route_all-total horizon start u.1 lt ready in
        let x = route_all-Extends net start t u.1 e2 in
        let ready' = Extends-Ready horizon (IsAt net s.time) start t x ready in
        let (f, e3) = flush_delayed-total t ready'.in_range in
        let (now, width) = flush_delayed-clock t f e3 in
        let sum : f.time + f.step_us < u64_mod =
          subst₂ (λ a b. a + b < u64_mod) (sym (now ∙ x.time)) (sym (width ∙ x.step_us)) fits in
        >>=-total (update_all net s.ecus s.time s.outbound) _ u e1 (
          >>=-total (route_all net start u.1) _ t e2 (
            >>=-total (flush_delayed net t) _ f e3 (
              >>=-total (add_u64 f.time f.step_us) _ (f.time + f.step_us)
                (add_u64_lem f.time f.step_us sum) (_, refl))))
