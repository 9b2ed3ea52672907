-- ===== src/Core/Sim/Extends.antt =====
-- What every operation of NetworkSim (crates/embrig-core/src/network.rs) leaves in place while it
-- routes and delivers: the clock, the rules and the subscriptions stay, and the log only grows.
use mathlib.Core.List.{append_assoc, append-nil}
use embrig.Prelude.{
  ℕ, suc, ◌≤◌, All, All-append, subst, ◌≡◌, refl, sym, ap, ◌∙◌, List, [], ◌∷◌, ◌++◌, some, length,
  length-set, get_elem?, set, arith,
}
use embrig.Prelude.Panic.{some_inj, >>=-eq-some, add_u64, add_u64_inv}
use Prim.Native.String.{◌++◌ as append}
use embrig.Prelude.Format.{decimal}
use embrig.Core.Network.{Network, NetAction}
use embrig.Core.Recorder.{NetRecord}
use embrig.Core.Recorder.{push_message, push_event}
use embrig.Core.Sim.{
  NetworkSim, deliver_to, deliver, subscribers, perform, route, route_all, apply_faults,
  deliver_due, inject, corrupt_at, describe, update_all,
}

pub append_append {ℓ} :
    {A : Type ℓ} (xs us vs : List A) {ys zs : List A}
    → ys ≡ xs ++ us
    → zs ≡ ys ++ vs
    → zs ≡ xs ++ (us ++ vs)
append_append xs us vs p q = q ∙ ap (λ r. r ++ vs) p ∙ append_assoc xs us vs

module _ (net : Network) where
  open net use {K, M, F, E, R, keys, message, fault, ecu}

  -- A delayed message is due at its own timestamp, not before `now`.
  abbrev pub IsQueued : ℕ → ℕ × M → Type 0
  IsQueued now (at, msg) = (message.ts msg ≡ at) × (now ≤ at)

  -- `s'` is `s` after some messages were routed: `logged`, of records that satisfy `P`, was
  -- appended to the log and `queued` to the delayed messages.
  pub record Extends (P : NetRecord M → Type 0) (s s' : NetworkSim net) : Type 0 where
    pub logged : List (NetRecord M)
    pub queued : List (ℕ × M)
    pub logged_P : All P logged
    pub queued_later : All (IsQueued s.time) queued
    pub time : s'.time ≡ s.time
    pub step_us : s'.step_us ≡ s.step_us
    pub faults : s'.faults ≡ s.faults
    pub subscriptions : s'.subscriptions ≡ s.subscriptions
    pub outbound : s'.outbound ≡ s.outbound
    pub ecus : length s'.ecus ≡ length s.ecus
    pub records : s'.recorder.records ≡ s.recorder.records ++ logged
    pub delayed : s'.delayed ≡ s.delayed ++ queued

  pub Extends-refl : (P : NetRecord M → Type 0) (s : NetworkSim net) → Extends P s s
  Extends-refl P s = record {
    logged = [];
    queued = [];
    logged_P = tt;
    queued_later = tt;
    time = refl;
    step_us = refl;
    faults = refl;
    subscriptions = refl;
    outbound = refl;
    ecus = refl;
    records = sym (append-nil _);
    delayed = sym (append-nil _);
  }

  pub Extends-trans :
      (P : NetRecord M → Type 0) {s t u : NetworkSim net}
      → Extends P s t
      → Extends P t u
      → Extends P s u
  Extends-trans P {s} {t} {u} a b = record {
    logged = a.logged ++ b.logged;
    queued = a.queued ++ b.queued;
    logged_P = All-append P a.logged b.logged a.logged_P b.logged_P;
    queued_later =
        All-append (IsQueued s.time) a.queued b.queued a.queued_later
          (subst (λ now. All (IsQueued now) b.queued) a.time b.queued_later);
    time = b.time ∙ a.time;
    step_us = b.step_us ∙ a.step_us;
    faults = b.faults ∙ a.faults;
    subscriptions = b.subscriptions ∙ a.subscriptions;
    outbound = b.outbound ∙ a.outbound;
    ecus = b.ecus ∙ a.ecus;
    records = append_append s.recorder.records a.logged b.logged a.records b.records;
    delayed = append_append s.delayed a.queued b.queued a.delayed b.delayed;
  }

  pub deliver_to-length :
      (is : List ℕ) (msg : M) (now : ℕ) (es : List E) {es' : List E}
      → deliver_to net is msg now es ≡ some es'
      → length es' ≡ length es
  unfolding deliver_to
  deliver_to-length [] msg now es h = ground arith
  deliver_to-length (i ∷ is) msg now es h =
      let (e, _, h1) = >>=-eq-some (get_elem? es i) _ h in
      let (e', _, h2) = >>=-eq-some (ecu.on_message e msg now) _ h1 in
      deliver_to-length is msg now (set es i e') h2 ∙ length-set es i e'

  pub update_all-length :
      (es : List E) (now : ℕ) (out : List M) {es' : List E} {out' : List M}
      → update_all net es now out ≡ some (es', out')
      → length es' ≡ length es
  unfolding update_all
  update_all-length [] now out h = ground arith
  update_all-length (e ∷ es) now out h =
      let (u, _, h1) = >>=-eq-some (ecu.update e now out) _ h in
      let (v, e2, h2) = >>=-eq-some (update_all net es now u.1) _ h1 in
      ap (λ r. length r.0) (sym (some_inj h2)) ∙ ap suc (update_all-length es now u.1 e2)

  -- A delivery changes the ECUs alone.
  pub deliver_inv :
      (s : NetworkSim net) (msg : M) {s' : NetworkSim net}
      → deliver net s msg ≡ some s'
      → (es : List E) × (deliver_to net (subscribers net s (message.key msg)) msg s.time s.ecus
          ≡ some es)
        × (s' ≡ record s { ecus = es })
  unfolding deliver
  deliver_inv s msg h =
      let (es, e, h') =
        >>=-eq-some (deliver_to net (subscribers net s (message.key msg)) msg s.time s.ecus) _ h in
      (es, e, ground arith)

  -- The record of a message or an event with the given time.
  abbrev pub IsAt : ℕ → NetRecord M → Type 0
  IsAt now (NetRecord.message msg) = message.ts msg ≡ now
  IsAt now (NetRecord.event ts source text) = ts ≡ now

  -- A state that differs from `s` in the ECUs and by some log entries.
  pub logged_Extends :
      (P : NetRecord M → Type 0) (s s' : NetworkSim net) (new : List (NetRecord M)) (es : List E)
      → All P new
      → length es ≡ length s.ecus
      → s' ≡ record s { ecus = es; recorder = record { records = s.recorder.records ++ new } }
      → Extends P s s'
  logged_Extends P s s' new es ps n e = record {
    logged = new;
    queued = [];
    logged_P = ps;
    queued_later = tt;
    time = ap (λ t. t.time) e;
    step_us = ap (λ t. t.step_us) e;
    faults = ap (λ t. t.faults) e;
    subscriptions = ap (λ t. t.subscriptions) e;
    outbound = ap (λ t. t.outbound) e;
    ecus = ap (λ t. length t.ecus) e ∙ n;
    records = ap (λ t. t.recorder.records) e;
    delayed = ap (λ t. t.delayed) e ∙ sym (append-nil s.delayed);
  }

  -- Delivering a message just logged as `new`.
  pub deliver-Extends :
      (P : NetRecord M → Type 0) (s s' : NetworkSim net) (msg : M) (new : List (NetRecord M))
      → All P new
      → deliver net (record s { recorder = record { records = s.recorder.records ++ new } }) msg
        ≡ some s'
      → Extends P s s'
  deliver-Extends P s s' msg new ps h =
      let (es, d, e) = deliver_inv _ msg h in
      logged_Extends P s s' new es ps
        (deliver_to-length (subscribers net s (message.key msg)) msg s.time s.ecus d) e

  pub perform-Extends :
      (action : NetAction) (s s' : NetworkSim net) (msg : M)
      → message.ts msg ≡ s.time
      → perform net action s msg ≡ some s'
      → Extends (IsAt s.time) s s'
  unfolding perform push_message push_event
  perform-Extends NetAction.deliver s s' msg now h =
      deliver-Extends (IsAt s.time) s s' msg (NetRecord.message msg ∷ []) (now, tt) h
  perform-Extends NetAction.drop s s' msg now h =
      logged_Extends (IsAt s.time) s s' (NetRecord.event s.time "net" _ ∷ []) s.ecus (refl, tt) refl
        (sym (some_inj h))
  perform-Extends (NetAction.delay d) s s' msg now h =
      let (ts, e1, h1) = >>=-eq-some (add_u64 (message.ts msg) d) _ h in
      let (at, e2, h2) = >>=-eq-some (add_u64 s.time d) _ h1 in
      let ts-eq = (add_u64_inv (message.ts msg) d e1).0 in
      let at-eq = (add_u64_inv s.time d e2).0 in
      let e = sym (some_inj h2) in
      record {
        logged = NetRecord.event s.time "net" _ ∷ [];
        queued = (at, message.set_ts msg ts) ∷ [];
        logged_P = (refl, tt);
        queued_later = ((omega (arith, message.ts-set_ts msg ts), omega arith), tt);
        time = ap (λ t. t.time) e;
        step_us = ap (λ t. t.step_us) e;
        faults = ap (λ t. t.faults) e;
        subscriptions = ap (λ t. t.subscriptions) e;
        outbound = ap (λ t. t.outbound) e;
        ecus = ap (λ t. length t.ecus) e;
        records = ap (λ t. t.recorder.records) e;
        delayed = ap (λ t. t.delayed) e;
      }
  perform-Extends (NetAction.corrupt byte mask) s s' msg now h =
      let msg' = message.set_payload msg (corrupt_at net (message.payload msg) byte mask) in
      let text =
        append "corrupted byte " (append (decimal byte) (append " of " (describe net msg'))) in
      deliver-Extends (IsAt s.time) s s' msg'
        (NetRecord.event s.time "net" text ∷ NetRecord.message msg' ∷ [])
        (refl, (message.ts-set_payload msg _ ∙ now, tt))
        (subst (λ rs. deliver net (record s { recorder = record { records = rs } }) msg' ≡ some s')
          (append_assoc s.recorder.records (NetRecord.event s.time "net" text ∷ [])
            (NetRecord.message msg' ∷ []))
          h)

  pub route-Extends :
      (s s' : NetworkSim net) (msg : M)
      → message.ts msg ≡ s.time
      → route net s msg ≡ some s'
      → Extends (IsAt s.time) s s'
  unfolding route
  route-Extends s s' msg now h =
      let (action, _, h1) = >>=-eq-some (apply_faults net s.faults s.time (message.key msg)) _ h in
      perform-Extends action s s' msg now h1

  -- Every message of a tick is routed at the tick's time.
  pub route_all-Extends :
      (s s' : NetworkSim net) (msgs : List M)
      → route_all net s msgs ≡ some s'
      → Extends (IsAt s.time) s s'
  unfolding route_all
  route_all-Extends s s' [] h =
      subst (Extends (IsAt s.time) s) (some_inj h) (Extends-refl (IsAt s.time) s)
  route_all-Extends s s' (msg ∷ msgs) h =
      let (t, e, h1) = >>=-eq-some (route net s (message.set_ts msg s.time)) _ h in
      let first = route-Extends s t (message.set_ts msg s.time) (message.ts-set_ts msg s.time) e in
      let rest = route_all-Extends t s' msgs h1 in
      Extends-trans (IsAt s.time) first (subst (λ now. Extends (IsAt now) t s') first.time rest)

  pub inject-Extends :
      (s s' : NetworkSim net) (msg : M) → inject net s msg ≡ some s' → Extends (IsAt s.time) s s'
  unfolding inject push_message
  inject-Extends s s' msg h =
      deliver-Extends (IsAt s.time) s s' (message.set_ts msg s.time)
        (NetRecord.message (message.set_ts msg s.time) ∷ []) (message.ts-set_ts msg s.time, tt) h

  pub deliver_due-Extends :
      (P : NetRecord M → Type 0) (s s' : NetworkSim net) (due : List (ℕ × M))
      → All (λ entry. P (NetRecord.message entry.1)) due
      → deliver_due net s due ≡ some s'
      → Extends P s s'
  unfolding deliver_due push_message
  deliver_due-Extends P s s' [] ps h = subst (Extends P s) (some_inj h) (Extends-refl P s)
  deliver_due-Extends P s s' ((at, msg) ∷ due) ps h =
      let (t, e, h1) =
        >>=-eq-some
          (deliver net
            (record s {
              recorder = record { records = s.recorder.records ++ NetRecord.message msg ∷ [] };
            })
            msg)
          _ h in
      Extends-trans P (deliver-Extends P s t msg (NetRecord.message msg ∷ []) (ps.0, tt) e)
        (deliver_due-Extends P t s' due ps.1 h1)
