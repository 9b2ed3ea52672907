-- ===== src/Core/Sim/Routing.antt =====
-- Which fault applies to a message and which ECUs see it: `apply_faults`, `route` and `deliver` of
-- NetworkSim (crates/embrig-core/src/network.rs).
use embrig.Prelude.{
  ℕ, ◌+◌, ◌≤◌, ◌<◌, ◌≡◌, ◌≢◌, ◌⊎◌, inl, inr, refl, sym, ap, subst, ◌∙◌, Bool, List, [], ◌∷◌, ◌++◌,
  some, none, arith, true, false, ltb, leb, ◌&&◌, ◌↔◌, All, get_elem?, set, get_elem?-set_ne,
}
use embrig.Prelude.Panic.{>>=-eq-some, some_inj, add_u64, u64_mod}
use embrig.Core.Network.{Network, NetAction, NetFaultRule, active_at}
use embrig.Core.Recorder.{NetRecord, push_event}
use Prim.Native.String.{◌++◌ as append}
use embrig.Core.Sim.{
  NetworkSim, deliver_to, deliver, subscribers, apply_faults, perform, route, log_message,
  corrupt_at, describe,
}
use embrig.Core.Sim.Extends.{deliver_inv}

-- The window of a rule in the u64 range, and the times at which the rule is active.
abbrev pub FitsWindow : {F : Type 0} → NetFaultRule F → Type 0
FitsWindow rule = elim rule.duration [ none ↦ Unit {0} | some d ↦ rule.start + d < u64_mod ]

abbrev pub InWindow : {F : Type 0} → NetFaultRule F → ℕ → Type 0
InWindow rule now =
    (rule.start ≤ now) × elim rule.duration [ none ↦ Unit {0} | some d ↦ now < rule.start + d ]

abbrev window_test : {F : Type 0} → NetFaultRule F → ℕ → Bool
window_test rule now =
    leb rule.start now && elim rule.duration [ none ↦ true | some d ↦ ltb now (rule.start + d) ]

active_at_test :
    {F : Type 0} (rule : NetFaultRule F) (now : ℕ)
    → FitsWindow rule
    → active_at rule now ≡ some (window_test rule now)
unfolding active_at
active_at_test rule now fits = ground arith

window_test_iff :
    {F : Type 0} (rule : NetFaultRule F) (now : ℕ)
    → (window_test rule now ≡ true) ↔ InWindow rule now
window_test_iff rule now = ground arith

-- On a window that fits in u64 `active_at` does not panic, and holds exactly inside it: from the
-- start on, and before start plus duration where there is a duration.
pub active_at_iff :
    {F : Type 0} (rule : NetFaultRule F) (now : ℕ)
    → FitsWindow rule
    → (active_at rule now ≡ some true) ↔ InWindow rule now
active_at_iff rule now fits = (
  λ h. (window_test_iff rule now).0 (some_inj (sym (active_at_test rule now fits) ∙ h)),
  λ w. active_at_test rule now fits ∙ ap some ((window_test_iff rule now).1 w),
)

pub active_at_total :
    {F : Type 0} (rule : NetFaultRule F) (now : ℕ)
    → FitsWindow rule
    → (b : Bool) × (active_at rule now ≡ some b)
active_at_total rule now fits = (window_test rule now, active_at_test rule now fits)

module _ (net : Network) where
  open net use {K, M, F, E, R, keys, message, fault, ecu}

  -- The rule does not concern the key now.
  abbrev pub IsIdle : ℕ → K → NetFaultRule F → Type 0
  IsIdle now key rule = (InWindow rule now → ⊥) ⊎ (fault.matches rule.fault key ≡ false)

  IsIdle-test :
      (now : ℕ) (key : K) (rule : NetFaultRule F) (b : Bool)
      → FitsWindow rule
      → IsIdle now key rule
      → active_at rule now ≡ some b
      → (b && fault.matches rule.fault key) ≡ false
  IsIdle-test now key rule false fits idle e = refl
  IsIdle-test now key rule true fits (inl outside) e =
      absurd (outside ((active_at_iff rule now fits).0 e))
  IsIdle-test now key rule true fits (inr misses) e = misses

  -- The first rule that is active and matches decides, whatever rules follow, when its window and those
  -- of the rules before it end below 2 ^ 64.
  pub apply_faults_first :
      (before after : List (NetFaultRule F)) (rule : NetFaultRule F) (now : ℕ) (key : K)
      → All FitsWindow before
      → FitsWindow rule
      → All (IsIdle now key) before
      → InWindow rule now
      → fault.matches rule.fault key ≡ true
      → apply_faults net (before ++ rule ∷ after) now key ≡ some (fault.action rule.fault)
  unfolding apply_faults
  apply_faults_first [] after rule now key fits fit idle inside hit =
      rw ((active_at_iff rule now fit).1 inside, hit)
  apply_faults_first (r ∷ before) after rule now key fits fit idle inside hit =
      let rest = apply_faults_first before after rule now key fits.1 fit idle.1 inside hit in
      let (b, e) = active_at_total r now fits.0 in
      rw (e, IsIdle-test now key r b fits.0 idle.0 e) rest

  -- With no rule that concerns the key the message is delivered.
  pub apply_faults_idle :
      (rules : List (NetFaultRule F)) (now : ℕ) (key : K)
      → All FitsWindow rules
      → All (IsIdle now key) rules
      → apply_faults net rules now key ≡ some NetAction.deliver
  unfolding apply_faults
  apply_faults_idle [] now key fits idle = refl
  apply_faults_idle (r ∷ rules) now key fits idle =
      let rest = apply_faults_idle rules now key fits.1 idle.1 in
      let (b, e) = active_at_total r now fits.0 in
      rw (e, IsIdle-test now key r b fits.0 idle.0 e) rest

  -- An ECU that is not among the indices is not touched.
  deliver_to_other :
      (is : List ℕ) (msg : M) (now : ℕ) (es : List E) {es' : List E} (i : ℕ)
      → All (λ j. j ≢ i) is
      → deliver_to net is msg now es ≡ some es'
      → get_elem? es' i ≡ get_elem? es i
  unfolding deliver_to
  deliver_to_other [] msg now es i apart h = ap (λ xs. get_elem? xs i) (sym (some_inj h))
  deliver_to_other (j ∷ is) msg now es i apart h =
      let (e, _, h1) = >>=-eq-some (get_elem? es j) _ h in
      let (e', _, h2) = >>=-eq-some (ecu.on_message e msg now) _ h1 in
      deliver_to_other is msg now (set es j e') i apart.1 h2 ∙ get_elem?-set_ne es j i e' apart.0

  deliver_other :
      (s s' : NetworkSim net) (msg : M) (i : ℕ)
      → All (λ j. j ≢ i) (subscribers net s (message.key msg))
      → deliver net s msg ≡ some s'
      → get_elem? s'.ecus i ≡ get_elem? s.ecus i
  deliver_other s s' msg i apart h =
      let (es, d, e) = deliver_inv net s msg h in
      ap (λ t. get_elem? t.ecus i) e
      ∙ deliver_to_other (subscribers net s (message.key msg)) msg s.time s.ecus i apart d

  perform_other :
      (action : NetAction) (s s' : NetworkSim net) (msg : M) (i : ℕ)
      → All (λ j. j ≢ i) (subscribers net s (message.key msg))
      → perform net action s msg ≡ some s'
      → get_elem? s'.ecus i ≡ get_elem? s.ecus i
  unfolding perform
  perform_other NetAction.deliver s s' msg i apart h =
      deliver_other (log_message net s msg) s' msg i apart h
  perform_other NetAction.drop s s' msg i apart h = ap (λ t. get_elem? t.ecus i) (sym (some_inj h))
  perform_other (NetAction.delay d) s s' msg i apart h =
      let (ts, e1, h1) = >>=-eq-some (add_u64 (message.ts msg) d) _ h in
      let (at, e2, h2) = >>=-eq-some (add_u64 s.time d) _ h1 in
      ap (λ t. get_elem? t.ecus i) (sym (some_inj h2))
  perform_other (NetAction.corrupt byte mask) s s' msg i apart h =
      let msg' = message.set_payload msg (corrupt_at net (message.payload msg) byte mask) in
      deliver_other _ s' msg' i
        (subst (λ k. All (λ j. j ≢ i) (subscribers net s k)) (sym (message.key-set_payload msg _))
          apart)
        h

  -- Whatever the fault rules do to a message, routing it leaves every ECU alone that is not
  -- subscribed to the message's key; a corrupted message keeps its key.
  pub route_unsubscribed :
      (s s' : NetworkSim net) (msg : M) (i : ℕ)
      → All (λ j. j ≢ i) (subscribers net s (message.key msg))
      → route net s msg ≡ some s'
      → get_elem? s'.ecus i ≡ get_elem? s.ecus i
  unfolding route
  route_unsubscribed s s' msg i apart h =
      let (action, _, h1) = >>=-eq-some (apply_faults net s.faults s.time (message.key msg)) _ h in
      perform_other action s s' msg i apart h1

  -- When the first active rule that matches a message drops it, and its window and those of the rules
  -- before it end below 2 ^ 64, routing returns: no ECU sees the message, it is not delayed, and all
  -- that the log gains is one event at the current time, which names the message as dropped.
  pub route_dropped :
      (s : NetworkSim net) (msg : M) (before after : List (NetFaultRule F)) (rule : NetFaultRule F)
      → s.faults ≡ before ++ rule ∷ after
      → All FitsWindow before
      → FitsWindow rule
      → All (IsIdle s.time (message.key msg)) before
      → InWindow rule s.time
      → fault.matches rule.fault (message.key msg) ≡ true
      → fault.action rule.fault ≡ NetAction.drop
      → (s' : NetworkSim net) × (route net s msg ≡ some s')
        × (s'.ecus ≡ s.ecus)
        × (s'.delayed ≡ s.delayed)
        × (s'.recorder.records
            ≡ s.recorder.records
              ++ NetRecord.event s.time "net"
                  (append "dropped " (append message.noun (append " " (message.label msg))))
                ∷ [])
  unfolding route perform push_event
  route_dropped s msg before after rule e fits fit idle inside hit drops =
      let first =
        apply_faults_first before after rule s.time (message.key msg) fits fit idle inside hit in
      (
        record s {
          recorder = push_event s.recorder s.time "net" (append "dropped " (describe net msg));
        },
        rw (e, first, drops),
        refl,
        refl,
        refl,
      )
