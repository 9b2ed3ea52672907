-- ===== src/Core/Fault.antt =====
-- crates/embrig-core/src/fault.rs: the faults of a CAN bus.
use embrig.Prelude.{ℕ, Bool}
use embrig.Prelude.Keys.{◌==◌, nat_key}
use embrig.Core.Time.{Timestamp}
use embrig.Core.Network.{NetAction, NetFault, NetFaultRule}

pub data Fault : Type 0 where
  drop_frame : (id : ℕ) → Fault
  delay_frame : (id : ℕ) (delay_us : Timestamp) → Fault
  corrupt_byte : (id byte mask : ℕ) → Fault

unfoldable pub matches : Fault → ℕ → Bool
matches (drop_frame id) key = id == key
matches (delay_frame id delay_us) key = id == key
matches (corrupt_byte id byte mask) key = id == key

unfoldable pub action : Fault → NetAction
action (drop_frame id) = NetAction.drop
action (delay_frame id delay_us) = NetAction.delay delay_us
action (corrupt_byte id byte mask) = NetAction.corrupt byte mask

abbrev pub can_fault : NetFault ℕ Fault
can_fault = record { matches = matches; action = action }

abbrev pub FaultRule : Type 0
FaultRule = NetFaultRule Fault
