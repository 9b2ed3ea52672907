-- ===== src/Net/Udp/Sim.antt =====
-- UdpSim of crates/embrig-net/src/sim.rs: NetworkSim keyed by destination endpoints.
use embrig.Prelude.{ℕ, String, Option}
use embrig.Prelude.Keys.{Key}
use embrig.Prelude.Panic.{Panic, ◌>>=◌}
use embrig.Prelude.Result.{Result}
use embrig.Prelude.{some}
use embrig.Core.Time.{Timestamp}
use embrig.Core.Signal.{SignalValue}
use embrig.Core.Network.{Network, NetEcu, NetEcuError, NetFaultRule}
use embrig.Core.Recorder.{NetRecorder, last_message}
use embrig.Core.Sim as Core
use embrig.Core.Sim.{NetworkSim, Run}
use embrig.Net.Udp.{UdpDatagram, UdpFault, datagram_message, udp_fault}

module _ {A R E : Type 0} ⦃addr : Key A⦄ (display : A → String)
    (ecu : NetEcu R (UdpDatagram A) E) where
  abbrev pub udp_network : Network
  udp_network = record {
    K = A;
    M = UdpDatagram A;
    F = UdpFault A;
    E = E;
    R = R;
    keys = addr;
    message = datagram_message display;
    fault = udp_fault;
    ecu = ecu;
  }

  pub record UdpSim : Type 0 where
    pub inner : NetworkSim udp_network

  unfoldable pub new : Timestamp → UdpSim
  unfolding Core.new
  new step_us = record { inner = Core.new udp_network step_us }

  unfoldable pub time : UdpSim → Timestamp
  time s = s.inner.time

  unfoldable pub recorder : UdpSim → NetRecorder (UdpDatagram A)
  recorder s = s.inner.recorder

  unfoldable pub attach : UdpSim → E → A → UdpSim × ℕ
  unfolding Core.attach1
  attach s e address =
      let (inner, index) = Core.attach1 udp_network s.inner e address in
      (record { inner = inner }, index)

  unfoldable pub add_fault : UdpSim → NetFaultRule (UdpFault A) → UdpSim
  unfolding Core.add_fault
  add_fault s rule = record { inner = Core.add_fault udp_network s.inner rule }

  unfoldable pub set_field :
      UdpSim → ℕ → String → String → SignalValue R → Panic (UdpSim × Result NetEcuError (Unit {0}))
  unfolding Core.set_field
  set_field s index message name value = do
    (inner, result) ← Core.set_field udp_network s.inner index message name value
    some (record { inner = inner }, result)

  unfoldable pub last_datagram : UdpSim → A → Option (UdpDatagram A)
  unfolding last_message recorder
  last_datagram s dst = last_message ⦃k = addr⦄ (λ d. d.dst) dst (recorder s)

  unfoldable pub inject : UdpSim → UdpDatagram A → Panic UdpSim
  unfolding Core.inject
  inject s d = do inner ← Core.inject udp_network s.inner d; some (record { inner = inner })

  unfoldable pub step : UdpSim → Panic UdpSim
  unfolding Core.step
  step s = do inner ← Core.step udp_network s.inner; some (record { inner = inner })

  -- The runs leave what NetworkSim's runs leave, within a number of ticks.
  unfoldable pub run_until : ℕ → UdpSim → Timestamp → Run udp_network
  unfolding Core.run_until
  run_until fuel s until = Core.run_until udp_network fuel s.inner until

  unfoldable pub run_for : ℕ → UdpSim → Timestamp → Run udp_network
  unfolding Core.run_for
  run_for fuel s duration = Core.run_for udp_network fuel s.inner duration

  unfoldable pub run_ms : ℕ → UdpSim → ℕ → Run udp_network
  unfolding Core.run_ms
  run_ms fuel s ms = Core.run_ms udp_network fuel s.inner ms
