-- ===== src/Net/Tcp/Sim.antt =====
-- TcpSim of crates/embrig-net/src/tcp.rs: NetworkSim keyed by destination endpoints.
use embrig.Prelude.{ℕ, String, Option}
use embrig.Prelude.Keys.{Key}
use embrig.Prelude.Panic.{Panic, ◌>>=◌}
use embrig.Prelude.Result.{Result}
use embrig.Prelude.{some}
use embrig.Core.Time.{Timestamp}
use embrig.Core.Signal.{SignalValue}
use embrig.Core.Network.{Network, NetEcu, NetEcuError, NetFaultRule}
use embrig.Core.Recorder.{NetRecorder, last_message}
use embrig.Core.Sim as Core
use embrig.Core.Sim.{NetworkSim, Run}
use embrig.Net.Tcp.{TcpSegment, TcpFault, segment_message, tcp_fault}

module _ {A R E : Type 0} ⦃addr : Key A⦄ (display : A → String)
    (ecu : NetEcu R (TcpSegment A) E) where
  abbrev pub tcp_network : Network
  tcp_network = record {
    K = A;
    M = TcpSegment A;
    F = TcpFault A;
    E = E;
    R = R;
    keys = addr;
    message = segment_message display;
    fault = tcp_fault;
    ecu = ecu;
  }

  pub record TcpSim : Type 0 where
    pub inner : NetworkSim tcp_network

  unfoldable pub new : Timestamp → TcpSim
  unfolding Core.new
  new step_us = record { inner = Core.new tcp_network step_us }

  unfoldable pub time : TcpSim → Timestamp
  time s = s.inner.time

  unfoldable pub recorder : TcpSim → NetRecorder (TcpSegment A)
  recorder s = s.inner.recorder

  unfoldable pub connect : TcpSim → E → A → TcpSim × ℕ
  unfolding Core.attach1
  connect s e address =
      let (inner, index) = Core.attach1 tcp_network s.inner e address in
      (record { inner = inner }, index)

  unfoldable pub add_fault : TcpSim → NetFaultRule (TcpFault A) → TcpSim
  unfolding Core.add_fault
  add_fault s rule = record { inner = Core.add_fault tcp_network s.inner rule }

  unfoldable pub set_field :
      TcpSim → ℕ → String → String → SignalValue R → Panic (TcpSim × Result NetEcuError (Unit {0}))
  unfolding Core.set_field
  set_field s index message name value = do
    (inner, result) ← Core.set_field tcp_network s.inner index message name value
    some (record { inner = inner }, result)

  unfoldable pub last_segment : TcpSim → A → Option (TcpSegment A)
  unfolding last_message recorder
  last_segment s dst = last_message ⦃k = addr⦄ (λ d. d.dst) dst (recorder s)

  unfoldable pub inject : TcpSim → TcpSegment A → Panic TcpSim
  unfolding Core.inject
  inject s d = do inner ← Core.inject tcp_network s.inner d; some (record { inner = inner })

  unfoldable pub step : TcpSim → Panic TcpSim
  unfolding Core.step
  step s = do inner ← Core.step tcp_network s.inner; some (record { inner = inner })

  -- The runs leave what NetworkSim's runs leave, within a number of ticks.
  unfoldable pub run_until : ℕ → TcpSim → Timestamp → Run tcp_network
  unfolding Core.run_until
  run_until fuel s until = Core.run_until tcp_network fuel s.inner until

  unfoldable pub run_for : ℕ → TcpSim → Timestamp → Run tcp_network
  unfolding Core.run_for
  run_for fuel s duration = Core.run_for tcp_network fuel s.inner duration

  unfoldable pub run_ms : ℕ → TcpSim → ℕ → Run tcp_network
  unfolding Core.run_ms
  run_ms fuel s ms = Core.run_ms tcp_network fuel s.inner ms
