-- ===== src/Harness/Target/Udp.antt =====
-- UdpTarget of crates/embrig-test/src/udp.rs: a test runs on the simulated UDP network that a vehicle
-- configuration describes. `F` is the type of the firmware. Reading the netmap file again is a
-- parameter of `reset`.
pub mod Build
use Prim.Native.String.{◌++◌}
use embrig.Prelude.{ℕ, String, List, [], Option, none, some}
use embrig.Prelude.Keys.{Key, string_key}
use embrig.Prelude.Map.{Map, get}
use embrig.Prelude.Panic as Panic
use embrig.Prelude.Panic.{Panic}
use embrig.Prelude.Result.{Result, ok, err, map_err}
use embrig.Core.Time.{Timestamp}
use embrig.Core.Float.{Float}
use embrig.Core.Signal.{SignalValue}
use embrig.Core.Network.{NetEcu, NetEcuError, NetFaultRule}
use embrig.Core.Codec.{SignalCodec}
use embrig.Core.Sim.{Run, finished, panicked, running}
use embrig.Net.Netmap.{MessageDef}
use embrig.Net.Udp.{UdpDatagram, UdpFault}
use embrig.Net.Udp.Sim.{UdpSim, udp_network}
use embrig.Net.Udp.Sim as Sim
use embrig.Harness.Target.{
  TestTarget, TargetError, Answer, unknown_ecu, net, poll_us, no_can, unsupported_on_target,
}

module _ (float : Float) {A E : Type 0} ⦃addr : Key A⦄ (display : A → String)
    (ecus_of : NetEcu float.R (UdpDatagram A) E) where
  open float use {R}

  pub record UdpTarget : Type 0 where
    pub sim : UdpSim display ecus_of
    pub netmap : Map String (MessageDef float A)
    pub host : A
    pub ecus : Map String ℕ

  abbrev Nothing : Type 0
  Nothing = Unit {0}

  -- A run of the simulation that returned; one that panics, or goes on for ever because the step is
  -- zero, gives no target.
  abbrev settle : Run (udp_network display ecus_of) → Panic (UdpSim display ecus_of)
  settle (finished s) = some (record { inner = s })
  settle panicked = none
  settle (running s) = none

  unfoldable pub send_msg : UdpTarget → UdpDatagram A → Answer UdpTarget Nothing
  unfolding Sim.inject
  send_msg t d =
      Panic.bind (Sim.inject display ecus_of t.sim d) (λ sim. some (record t { sim = sim }, ok tt))

  unfoldable pub poll_msg : UdpTarget → A → Answer UdpTarget (Option (UdpDatagram A))
  unfolding Sim.run_for Sim.last_datagram
  poll_msg t dst =
      Panic.bind (settle (Sim.run_for display ecus_of poll_us t.sim poll_us))
        (λ sim. some (record t { sim = sim }, ok (Sim.last_datagram display ecus_of sim dst)))

  unfoldable pub set_field :
      (NetEcuError → String)
      → UdpTarget
      → String
      → String
      → String
      → SignalValue R
      → Answer UdpTarget Nothing
  unfolding Sim.set_field
  set_field to_string t name message field value = elim (get t.ecus name) [
    | none ↦ some (t, err (unknown_ecu name))
    | some index ↦
        Panic.bind (Sim.set_field display ecus_of t.sim index message field value)
          (λ (sim, answer). some (record t { sim = sim }, map_err (λ e. net (to_string e)) answer))
  ]

  abbrev or_now : Option Timestamp → Timestamp → Timestamp
  or_now none now = now
  or_now (some start) now = start

  unfoldable pub add_fault :
      UdpTarget → UdpFault A → Option Timestamp → Option Timestamp → Answer UdpTarget Nothing
  unfolding Sim.add_fault Sim.time
  add_fault t fault start duration =
      let rule : NetFaultRule (UdpFault A) = record {
        fault = fault;
        start = or_now start (Sim.time display ecus_of t.sim);
        duration = duration;
      } in
      some (record t { sim = Sim.add_fault display ecus_of t.sim rule }, ok tt)

  unfoldable pub wait : UdpTarget → Timestamp → Answer UdpTarget Nothing
  unfolding Sim.run_for
  wait t duration =
      Panic.bind (settle (Sim.run_for display ecus_of duration t.sim duration))
        (λ sim. some (record t { sim = sim }, ok tt))

  -- What was built again takes the place of the netmap, the simulation and the index map.
  unfoldable pub reset :
      (UdpTarget
        → Result TargetError
            (Map String (MessageDef float A) × UdpSim display ecus_of × Map String ℕ))
      → UdpTarget
      → Answer UdpTarget Nothing
  reset build t = elim (build t) [
    | err failure ↦ some (t, err failure)
    | ok (netmap, sim, ecus) ↦ some (record t { netmap = netmap; sim = sim; ecus = ecus }, ok tt)
  ]

  unfoldable pub udp_target :
      (NetEcuError → String)
      → SignalCodec R
      → (UdpTarget
          → Result TargetError
              (Map String (MessageDef float A) × UdpSim display ecus_of × Map String ℕ))
      → TestTarget float A UdpTarget
  unfolding send_msg poll_msg set_field add_fault wait reset no_can Sim.time
  udp_target to_string network build = record {
    codec = λ t. network;
    set_signal =
        λ t name id signal value. no_can "set_signal is a CAN step; this target has no CAN bus" t;
    add_can_fault =
        λ t fault start duration. no_can "add_fault is a CAN step; this target has no CAN bus" t;
    send = λ t frame. no_can "send is a CAN step; this target has no CAN bus" t;
    poll = λ t id. no_can "poll is a CAN step; this target has no CAN bus" t;
    netmap = λ t. some t.netmap;
    host = λ t. ok t.host;
    send_msg = send_msg;
    poll_msg = poll_msg;
    set_field = set_field to_string;
    add_netmap_fault = add_fault;
    elapsed_us = λ t. Sim.time display ecus_of t.sim;
    reset = reset build;
    wait = wait;
  }
