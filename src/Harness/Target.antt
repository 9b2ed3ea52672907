-- ===== src/Harness/Target.antt =====
-- Test targets: crates/embrig-test/src/target.rs. The traits CanLink, NetmapLink and TestTarget are one
-- record of methods over a type of targets; a method returns the target after it, and may panic. A
-- future that is awaited at once is the call itself.
pub mod Virtual
pub mod Udp
use embrig.Prelude.{ℕ, String, List, Option, none, some}
use embrig.Prelude.Map.{Map}
use embrig.Prelude.Panic.{Panic}
use embrig.Prelude.Result.{Result, ok, err}
use embrig.Core.Time.{Timestamp}
use embrig.Core.Float.{Float}
use embrig.Core.Signal.{SignalValue}
use embrig.Core.Frame.{CanFrame, FrameError}
use embrig.Core.Fault.{Fault}
use embrig.Core.Network.{NetEcuError}
use embrig.Core.Codec.{SignalCodec}
use embrig.Net.Netmap.{MessageDef}
use embrig.Net.Udp.{UdpDatagram, UdpFault}

-- How far a poll advances the virtual time.
abbrev pub poll_us : Timestamp
poll_us = 10000

pub data TargetError : Type 0 where
  unknown_ecu : String → TargetError
  ecu : NetEcuError → TargetError
  frame : FrameError → TargetError
  unsupported_on_hardware unsupported_on_sut unsupported_on_target : String → TargetError
  sut_timeout can net build : String → TargetError

-- The target after a method, with its answer.
abbrev pub Answer : Type 0 → Type 0 → Type 0
Answer T B = Panic (T × Result TargetError B)

pub record TestTarget (float : Float) (A T : Type 0) : Type 0 where
  pub codec : T → SignalCodec float.R
  pub set_signal : T → String → ℕ → String → SignalValue float.R → Answer T (Unit {0})
  pub add_can_fault : T → Fault → Option Timestamp → Option Timestamp → Answer T (Unit {0})
  pub send : T → CanFrame → Answer T (Unit {0})
  pub poll : T → ℕ → Answer T (Option CanFrame)
  pub netmap : T → Option (Map String (MessageDef float A))
  pub host : T → Result TargetError A
  pub send_msg : T → UdpDatagram A → Answer T (Unit {0})
  pub poll_msg : T → A → Answer T (Option (UdpDatagram A))
  pub set_field : T → String → String → String → SignalValue float.R → Answer T (Unit {0})
  pub add_netmap_fault : T → UdpFault A → Option Timestamp → Option Timestamp → Answer T (Unit {0})
  pub elapsed_us : T → Timestamp
  pub reset : T → Answer T (Unit {0})
  pub wait : T → Timestamp → Answer T (Unit {0})

-- The default methods of CanLink and NetmapLink, for a target without that link.
unfoldable pub no_can : {T B : Type 0} → String → T → Answer T B
no_can text t = some (t, err (unsupported_on_target text))

unfoldable pub no_netmap : {T B : Type 0} → T → Answer T B
no_netmap t =
    some (t, err (unsupported_on_target "netmap messaging is not supported by this target"))
