-- ===== src/Core/Sim.antt =====
-- NetworkSim of crates/embrig-core/src/network.rs, generic over a network.
pub mod Extends
pub mod Tick
pub mod Punctual
pub mod Routing
pub mod Total
pub mod Clock
pub mod Reach
pub mod Steady
use Prim.Native.Nat.{bit_xor}
use Prim.Native.String.{◌++◌ as append}
use embrig.Prelude.{
  ℕ, zero, suc, ◌+◌, ◌*◌, Bool, true, false, ◌&&◌, String, List, [], ◌∷◌, ◌++◌, Option, none, some,
  length, get_elem?, set, ltb, leb, if◌then◌else◌, filterb, not,
}
use embrig.Prelude.Keys.{Key}
use embrig.Prelude.Map.{Map, get, insert}
use embrig.Prelude.Panic.{Panic, ◌>>=◌, add_u64, mul_u64}
use embrig.Prelude.Format.{decimal}
use embrig.Prelude.Result.{Result}
use embrig.Core.Time.{Timestamp, us_per_ms}
use embrig.Core.Signal.{SignalValue}
use embrig.Core.Network.{Network, NetFaultRule, NetEcuError, NetAction, active_at}
use embrig.Core.Recorder.{NetRecorder, push_message, push_event}
use embrig.Core.Recorder

module _ (net : Network) where
  open net use {K, M, F, E, R, keys, message, fault, ecu}

  pub record NetworkSim : Type 0 where
    pub time : Timestamp
    pub step_us : Timestamp
    pub ecus : List E
    pub subscriptions : Map K (List ℕ)
    pub outbound : List M
    pub delayed : List (Timestamp × M)
    pub recorder : NetRecorder M
    pub faults : List (NetFaultRule F)

  unfoldable pub new : Timestamp → NetworkSim
  unfolding Recorder.new
  new step_us = record {
    time = 0;
    step_us = step_us;
    ecus = [];
    subscriptions = [];
    outbound = [];
    delayed = [];
    recorder = Recorder.new;
    faults = [];
  }

  -- `subscriptions.entry(key).or_default().push(index)`
  unfoldable pub add_subscription : Map K (List ℕ) → K → ℕ → Map K (List ℕ)
  add_subscription subs key index = elim (get ⦃k = keys⦄ subs key) [
    | none ↦ insert ⦃k = keys⦄ subs key (index ∷ [])
    | some indices ↦ insert ⦃k = keys⦄ subs key (indices ++ index ∷ [])
  ]

  subscribe_all : Map K (List ℕ) → List K → ℕ → Map K (List ℕ)
  subscribe_all subs [] index = subs
  subscribe_all subs (key ∷ rest) index = subscribe_all (add_subscription subs key index) rest index

  unfoldable pub attach : NetworkSim → E → List K → NetworkSim × ℕ
  unfolding add_subscription subscribe_all
  attach s e wanted =
      let index = length s.ecus in
      (
        record s {
          ecus = s.ecus ++ e ∷ [];
          subscriptions = subscribe_all s.subscriptions wanted index;
        },
        index,
      )

  unfoldable pub attach1 : NetworkSim → E → K → NetworkSim × ℕ
  attach1 s e key =
      let index = length s.ecus in
      (
        record s {
          ecus = s.ecus ++ e ∷ [];
          subscriptions = add_subscription s.subscriptions key index;
        },
        index,
      )

  unfoldable pub subscribe : NetworkSim → K → ℕ → NetworkSim
  subscribe s key index = record s { subscriptions = add_subscription s.subscriptions key index }

  unfoldable pub add_fault : NetworkSim → NetFaultRule F → NetworkSim
  add_fault s rule = record s { faults = s.faults ++ rule ∷ [] }

  -- The overrides go to the ECU at the index, which panics out of range.
  unfoldable pub set_signal :
      NetworkSim
      → ℕ
      → ℕ
      → String
      → SignalValue R
      → Panic (NetworkSim × Result NetEcuError (Unit {0}))
  set_signal s index id signal value = do
    e ← get_elem? s.ecus index
    (e', result) ← ecu.set_signal e id signal value
    some (record s { ecus = set s.ecus index e' }, result)

  unfoldable pub set_field :
      NetworkSim
      → ℕ
      → String
      → String
      → SignalValue R
      → Panic (NetworkSim × Result NetEcuError (Unit {0}))
  set_field s index name field value = do
    e ← get_elem? s.ecus index
    (e', result) ← ecu.set_field e name field value
    some (record s { ecus = set s.ecus index e' }, result)

  -- `on_message` of each subscribed ECU, in the order of subscription.
  unfoldable pub deliver_to : List ℕ → M → Timestamp → List E → Panic (List E)
  deliver_to [] msg now es = some es
  deliver_to (i ∷ rest) msg now es = do
    e ← get_elem? es i
    e' ← ecu.on_message e msg now
    deliver_to rest msg now (set es i e')

  abbrev pub subscribers : NetworkSim → K → List ℕ
  subscribers s key = elim (get ⦃k = keys⦄ s.subscriptions key) [
    | none ↦ []
    | some indices ↦ indices
  ]

  unfoldable pub deliver : NetworkSim → M → Panic NetworkSim
  deliver s msg = do
    es ← deliver_to (subscribers s (message.key msg)) msg s.time s.ecus
    some (record s { ecus = es })

  -- The action of the first rule that is active and matches.
  unfoldable pub apply_faults : List (NetFaultRule F) → Timestamp → K → Panic NetAction
  apply_faults [] now key = some NetAction.deliver
  apply_faults (rule ∷ rest) now key =
      let others = apply_faults rest now key in
      do
        active ← active_at rule now
        if active && fault.matches rule.fault key then some (fault.action rule.fault) else others

  abbrev log_message : NetworkSim → M → NetworkSim
  log_message s msg = record s { recorder = push_message s.recorder msg }

  abbrev log_event : NetworkSim → String → NetworkSim
  log_event s text = record s { recorder = push_event s.recorder s.time "net" text }

  -- `if let Some(b) = payload.get_mut(byte) { *b ^= mask }`
  unfoldable pub corrupt_at : List ℕ → ℕ → ℕ → List ℕ
  corrupt_at bytes byte mask = elim (get_elem? bytes byte) [
    | none ↦ bytes
    | some b ↦ set bytes byte (bit_xor b mask)
  ]

  abbrev describe : M → String
  describe msg = append message.noun (append " " (message.label msg))

  unfoldable pub perform : NetAction → NetworkSim → M → Panic NetworkSim
  perform NetAction.deliver s msg = deliver (log_message s msg) msg
  perform NetAction.drop s msg = some (log_event s (append "dropped " (describe msg)))
  perform (NetAction.delay d) s msg =
      let logged =
        log_event s
          (append "delayed " (append (describe msg) (append " by " (append (decimal d) "us")))) in
      do
        ts ← add_u64 (message.ts msg) d
        at ← add_u64 s.time d
        some (record logged { delayed = s.delayed ++ (at, message.set_ts msg ts) ∷ [] })
  perform (NetAction.corrupt byte mask) s msg =
      let msg' = message.set_payload msg (corrupt_at (message.payload msg) byte mask) in
      let logged =
        log_event s
          (append "corrupted byte " (append (decimal byte) (append " of " (describe msg')))) in
      deliver (log_message logged msg') msg'

  unfoldable pub route : NetworkSim → M → Panic NetworkSim
  route s msg = do action ← apply_faults s.faults s.time (message.key msg); perform action s msg

  unfoldable pub inject : NetworkSim → M → Panic NetworkSim
  inject s msg = let msg' = message.set_ts msg s.time in deliver (log_message s msg') msg'

  -- `update` of every ECU, in the order of attachment, over one list of outgoing messages.
  unfoldable pub update_all : List E → Timestamp → List M → Panic (List E × List M)
  update_all [] now out = some ([], out)
  update_all (e ∷ es) now out = do
    (e', out') ← ecu.update e now out
    (es', out'') ← update_all es now out'
    some (e' ∷ es', out'')

  unfoldable pub route_all : NetworkSim → List M → Panic NetworkSim
  route_all s [] = some s
  route_all s (msg ∷ rest) = do s' ← route s (message.set_ts msg s.time); route_all s' rest

  abbrev pub is_due : Timestamp → Timestamp × M → Bool
  is_due now (at, msg) = leb at now

  unfoldable pub deliver_due : NetworkSim → List (Timestamp × M) → Panic NetworkSim
  deliver_due s [] = some s
  deliver_due s ((at, msg) ∷ rest) = do s' ← deliver (log_message s msg) msg; deliver_due s' rest

  unfoldable pub flush_delayed : NetworkSim → Panic NetworkSim
  flush_delayed s =
      let due = filterb (is_due s.time) s.delayed in
      let kept = filterb (λ entry. not (is_due s.time entry)) s.delayed in
      deliver_due (record s { delayed = kept }) due

  unfoldable pub step : NetworkSim → Panic NetworkSim
  step s = do
    (es, out) ← update_all s.ecus s.time s.outbound
    s' ← route_all (record s { ecus = es; outbound = [] }) out
    s'' ← flush_delayed s'
    time ← add_u64 s''.time s''.step_us
    some (record s'' { time = time })

  -- What `run_until` comes to with a number of ticks: it returns, panics, or is still running.
  pub data Run : Type 0 where
    finished : NetworkSim → Run
    panicked : Run
    running : NetworkSim → Run

  unfoldable pub run_until : ℕ → NetworkSim → Timestamp → Run
  run_until zero s until = if ltb s.time until then running s else finished s
  run_until (suc fuel) s until =
      let ticked : Run = elim (step s) [ none ↦ panicked | some s' ↦ run_until fuel s' until ] in
      if ltb s.time until then ticked else finished s

  unfoldable pub run_for : ℕ → NetworkSim → Timestamp → Run
  run_for fuel s duration = elim (add_u64 s.time duration) [
    | none ↦ panicked
    | some until ↦ run_until fuel s until
  ]

  unfoldable pub run_ms : ℕ → NetworkSim → ℕ → Run
  run_ms fuel s n = elim (mul_u64 n us_per_ms) [
    | none ↦ panicked
    | some duration ↦ run_for fuel s duration
  ]
