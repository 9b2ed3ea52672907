-- ===== src/Tests/Ecus.antt =====
-- The theorems on the vehicle controller and on the firmwares, applied to small descriptions.
use embrig.Prelude.{
  ◌≤◌, ◌*◌, ℕ, ◌+◌, ◌≡◌, ◌↔◌, refl, true, false, String, [], ◌∷◌, ◌++◌, none, some, arith,
}
use embrig.Prelude.Int.{ℤ, pos}
use embrig.Prelude.Fallible.{ok}
use embrig.Core.Frame.{CanFrame}
use embrig.Core.Codec.{MessageCodec}
use embrig.Dbc.Types.{SignalDef, Network, intel, message, signal}
use embrig.Dbc.Codec.{
  decode_signal, read_signal, positions, check_bounds, read_bits, intel_positions, raw_to_physical,
}
use embrig.Models.Vehicle.{VehicleController, new, enables, update}
use embrig.Models.Vehicle
use embrig.Models.Vehicle.Safety.{IsSafe, enables_iff, enable_frame}
use embrig.Models.Vehicle.Stale.{update_stale}
use embrig.Firmware.Controller.{ControllerFirmware}
use embrig.Firmware.Controller
use embrig.Firmware.Controller.FailSafe.{Follows, message_at, call, run-new-Follows}
use embrig.Firmware.Robot.{RobotFirmware, behaviour, on_message}
use embrig.Firmware.Robot.Stop.{estop_holds}
use embrig.Models.Charger.{Charger, next_state, full}
use embrig.Models.Charger.States.{next_state_iff}
use embrig.Tests.Reals.{whole}

-- A message of one byte that holds any signal.
abbrev plain : ℕ → MessageCodec ℤ
plain id = record {
  id = id;
  encode_signals = λ values. ok (0 ∷ []);
  check_value = λ name value. ok tt;
  physical_for_symbol = λ name symbol. none;
  symbol_for = λ name raw. none;
  decode_signals = λ bytes. ok [];
  decode_signal = λ bytes name. ok (pos 1);
}

abbrev vehicle : VehicleController whole
vehicle = record {
  name = "vcu";
  battery = plain 0x100;
  brake = plain 0x110;
  driver = plain 0x120;
  charger = plain 0x210;
  enable = plain 0x220;
  period = 10;
  next = 0;
  battery_state = some "READY";
  battery_voltage = some (pos 400);
  last_battery = some 1000;
  brake_pressed = some false;
  drive_enabled = some true;
  charger_state = none;
}

enables_iff_example : (enables whole vehicle 2000 ≡ true) ↔ IsSafe whole vehicle 2000
enables_iff_example = enables_iff whole vehicle 2000

abbrev brake_frame : CanFrame
brake_frame = record { id = 0x110; payload = 0 ∷ []; ts = 0; extended = false }

abbrev braking : VehicleController whole
braking = record vehicle { brake_pressed = some true }

update_stale_example :
    update whole braking 400000 []
    ≡ some (record braking { next = 400000 + 10 }, [] ++ enable_frame whole braking (0 ∷ []) ∷ [])
unfolding Vehicle.on_message
update_stale_example =
    update_stale whole vehicle braking 1000 400000 ((brake_frame, 2000) ∷ []) [] (0 ∷ []) refl
      ((λ e. omega (arith, e)), tt) refl (omega arith) (omega arith) (omega arith) refl
      (omega arith)

abbrev byte_signal : String → SignalDef whole
byte_signal name = record {
  name = name;
  start_bit = 0;
  length = 8;
  byte_order = intel;
  is_signed = false;
  factor = pos 1;
  offset = pos 0;
  unit = "";
  min = none;
  max = none;
  value_table = [];
}

abbrev pump : Network whole
pump = record {
  messages =
      (
        0x100,
        record { id = 0x100; name = "Temp"; dlc = 1; signals = byte_signal "temperature" ∷ [] },
      )
      ∷ (
        0x200,
        record { id = 0x200; name = "Valve"; dlc = 1; signals = byte_signal "valve_open" ∷ [] },
      )
      ∷ [];
}

abbrev warm : ControllerFirmware whole pump
warm = record {
  name = "pump";
  temperature = pos 40;
  is_open = true;
  next_tx = 0;
  period_us = 50000;
}

abbrev temperature_frame : CanFrame
temperature_frame = record { id = 0x100; payload = 40 ∷ []; ts = 0; extended = false }

run-new-Follows_example : Follows whole pump warm
unfolding call Controller.on_message Controller.new message decode_signal signal read_signal
    positions intel_positions check_bounds read_bits raw_to_physical
run-new-Follows_example =
    run-new-Follows whole pump "pump" warm (message_at temperature_frame 5 ∷ []) refl

abbrev stopped : RobotFirmware whole pump
stopped = record {
  name = "rover";
  speed_cmd = pos 1;
  steer_cmd = pos 0;
  estop = true;
  next_tx = 0;
  period_us = 50000;
}

abbrev other_frame : CanFrame
other_frame = record { id = 0x321; payload = []; ts = 0; extended = false }

estop_holds_example : behaviour whole pump stopped ≡ ("ESTOP", pos 0, pos 0)
unfolding on_message
estop_holds_example =
    estop_holds whole pump stopped stopped ((other_frame, 7) ∷ []) refl
      ((λ e. omega (arith, e)), tt) refl

abbrev charger : Charger whole
charger = record {
  name = "charger";
  request = plain 0x200;
  battery = plain 0x100;
  status = plain 0x210;
  period = 10;
  next = 0;
  state = "IDLE";
  charge_request = true;
  last_battery = some 1000;
  last_soc = some (pos 80);
}

next_state_iff_example : ◌≡◌ {A = String} (next_state whole charger 2000) "CHARGING" ↔ (
    (true ≡ true)
    × ((t : ℕ) × (charger.last_battery ≡ some t) × (2000 ≤ t + 500 * 1000))
    × (full whole charger ≡ false))
next_state_iff_example = next_state_iff whole charger 2000
