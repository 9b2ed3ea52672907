-- ===== src/Tests/Bus.antt =====
-- A CAN bus with two small ECUs: one that sends a frame at every tick and one that counts frames.
use embrig.Prelude.{ℕ, suc, false, List, [], ◌∷◌, ◌++◌, none, some}
use embrig.Prelude.Keys.{nat_key}
use embrig.Prelude.Result.{err}
use embrig.Core.Network.{Network, NetEcu, NetEcuError, NetFaultRule}
use embrig.Core.Frame.{CanFrame, frame_message}
use embrig.Core.Fault.{Fault, can_fault, drop_frame, delay_frame}
use embrig.Core.Sim.{NetworkSim}

pub data Node : Type 0 where
  sender : (id : ℕ) → Node
  counter : (heard : ℕ) → Node

abbrev pub beacon : ℕ → CanFrame
beacon id = record { id = id; payload = 7 ∷ []; ts = 0; extended = false }

abbrev pub send : Node → List CanFrame → List CanFrame
send (sender id) out = out ++ beacon id ∷ []
send (counter heard) out = out

abbrev pub hear : Node → Node
hear (sender id) = sender id
hear (counter heard) = counter (suc heard)

abbrev pub node_ecu : NetEcu ℕ CanFrame Node
node_ecu = record {
  name = λ e. "node";
  update = λ e now out. some (e, send e out);
  on_message = λ e msg now. some (hear e);
  set_signal = λ e id name value. some (e, err NetEcuError.signal_not_supported);
  set_field = λ e message name value. some (e, err NetEcuError.signal_not_supported);
}

abbrev pub bus : Network
bus = record {
  K = ℕ;
  M = CanFrame;
  F = Fault;
  E = Node;
  R = ℕ;
  keys = nat_key;
  message = frame_message;
  fault = can_fault;
  ecu = node_ecu;
}

-- From time 0, with a step of 10: a sender of frame 256, a counter that listens to it, and a rule
-- that delays the frame by 25 from time 5 on.
abbrev pub delay_rule : NetFaultRule Fault
delay_rule = record { fault = delay_frame 256 25; start = 5; duration = none }

abbrev pub drop_rule : NetFaultRule Fault
drop_rule = record { fault = drop_frame 256; start = 0; duration = some 30 }

abbrev pub rig : List (NetFaultRule Fault) → NetworkSim bus
rig rules = record {
  time = 0;
  step_us = 10;
  ecus = sender 256 ∷ counter 0 ∷ [];
  subscriptions = (256, 1 ∷ []) ∷ [];
  outbound = [];
  delayed = [];
  recorder = record { records = [] };
  faults = rules;
}
