-- ===== src/Harness/Target/Virtual.antt =====
-- VirtualTarget of crates/embrig-test/src/target.rs: a test runs on the simulated bus. What `reset` reads
-- and builds again is a parameter.
pub mod Runs
pub mod Polls
use Prim.Native.String.{◌++◌}
use embrig.Prelude.{ℕ, String, Option, none, some}
use embrig.Prelude.Keys.{string_key, nat_key}
use embrig.Prelude.Map.{Map, get}
use embrig.Prelude.Panic.{Panic, ◌>>=◌}
use embrig.Prelude.Result.{Result, ok, err, map_err}
use embrig.Core.Time.{Timestamp}
use embrig.Core.Float.{Float}
use embrig.Core.Signal.{SignalValue}
use embrig.Core.Frame.{CanFrame, frame_message}
use embrig.Core.Fault.{Fault, can_fault}
use embrig.Core.Network.{Network as Bus, NetEcu, NetFaultRule}
use embrig.Core.Recorder.{last_message}
use embrig.Core.Sim as Sim
use embrig.Core.Sim.{NetworkSim, Run, finished, panicked, running}
use embrig.Dbc.Types.{Network}
use embrig.Dbc.Codec.{CodecError}
use embrig.Dbc.Seam.{signal_codec}
use embrig.Harness.Target.{
  TestTarget, TargetError, Answer, unknown_ecu, ecu, unsupported_on_target, poll_us, no_netmap,
}

module _ (float : Float) {E : Type 0} (ecus_of : NetEcu float.R CanFrame E) where
  abbrev pub can_network : Bus
  can_network = record {
    K = ℕ;
    M = CanFrame;
    F = Fault;
    E = E;
    R = float.R;
    keys = nat_key;
    message = frame_message;
    fault = can_fault;
    ecu = ecus_of;
  }

  pub record VirtualTarget : Type 0 where
    pub sim : NetworkSim can_network
    pub ecus : Map String ℕ
    pub network : Network float

  abbrev Nothing : Type 0
  Nothing = Unit {0}

  -- A run of the simulation that returned; a run that panics, or that goes on for ever because the
  -- step is zero, gives no target.
  abbrev pub settle : Run can_network → Panic (NetworkSim can_network)
  settle (finished s) = some s
  settle panicked = none
  settle (running s) = none

  -- `duration` ticks are enough for a positive step.
  unfoldable pub run_for : NetworkSim can_network → Timestamp → Panic (NetworkSim can_network)
  unfolding Sim.run_for
  run_for s duration = settle (Sim.run_for can_network duration s duration)

  unfoldable pub set_signal :
      VirtualTarget → String → ℕ → String → SignalValue float.R → Answer VirtualTarget Nothing
  unfolding Sim.set_signal
  set_signal t name id signal value = elim (get t.ecus name) [
    | none ↦ some (t, err (unknown_ecu name))
    | some index ↦ do
      (sim, answer) ← Sim.set_signal can_network t.sim index id signal value
      some (record t { sim = sim }, map_err ecu answer)
  ]

  -- `start.unwrap_or(self.sim.time())`
  abbrev or_now : Option Timestamp → Timestamp → Timestamp
  or_now none now = now
  or_now (some start) now = start

  unfoldable pub add_fault :
      VirtualTarget → Fault → Option Timestamp → Option Timestamp → Answer VirtualTarget Nothing
  unfolding Sim.add_fault
  add_fault t fault start duration =
      let rule : NetFaultRule Fault = record {
        fault = fault;
        start = or_now start t.sim.time;
        duration = duration;
      } in
      some (record t { sim = Sim.add_fault can_network t.sim rule }, ok tt)

  unfoldable pub send : VirtualTarget → CanFrame → Answer VirtualTarget Nothing
  unfolding Sim.inject
  send t frame = do sim ← Sim.inject can_network t.sim frame; some (record t { sim = sim }, ok tt)

  unfoldable pub poll : VirtualTarget → ℕ → Answer VirtualTarget (Option CanFrame)
  unfolding run_for last_message
  poll t id = do
    sim ← run_for t.sim poll_us
    some (record t { sim = sim }, ok (last_message ⦃k = nat_key⦄ (λ f. f.id) id sim.recorder))

  unfoldable pub wait : VirtualTarget → Timestamp → Answer VirtualTarget Nothing
  unfolding run_for
  wait t duration = do sim ← run_for t.sim duration; some (record t { sim = sim }, ok tt)

  unfoldable pub reset :
      (VirtualTarget → Result TargetError VirtualTarget)
      → VirtualTarget
      → Answer VirtualTarget Nothing
  reset build t = elim (build t) [
    | ok fresh ↦ some (fresh, ok tt)
    | err failure ↦ some (t, err failure)
  ]

  unfoldable pub virtual_target :
      {A : Type 0} (to_string : CodecError → String)
      (build : VirtualTarget → Result TargetError VirtualTarget)
      → TestTarget float A VirtualTarget
  unfolding set_signal add_fault send poll wait reset no_netmap
  virtual_target to_string build = record {
    codec = λ t. signal_codec float to_string t.network;
    set_signal = set_signal;
    add_can_fault = add_fault;
    send = send;
    poll = poll;
    netmap = λ t. none;
    host = λ t. err (unsupported_on_target "netmap messaging is not supported by this target");
    send_msg = λ t d. no_netmap t;
    poll_msg = λ t dst. no_netmap t;
    set_field = λ t name message field value. no_netmap t;
    add_netmap_fault = λ t fault start duration. no_netmap t;
    elapsed_us = λ t. t.sim.time;
    reset = reset build;
    wait = wait;
  }
