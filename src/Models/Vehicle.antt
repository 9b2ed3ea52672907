-- ===== src/Models/Vehicle.antt =====
-- The vehicle controller of crates/embrig-models/src/ecus.rs, the ECU under test.
pub mod Safety
pub mod Stale
use embrig.Prelude.{
  ℕ, Bool, true, false, not, ◌&&◌, eqb, ltb, if◌then◌else◌, String, List, [], ◌∷◌, Option, some,
  none,
}
use embrig.Prelude.Keys.{◌==◌, string_key}
use embrig.Prelude.Fallible.{if_ok}
use embrig.Prelude.Int.{pos}
use embrig.Prelude.Panic.{Panic, ◌>>=◌, add_u64}
use embrig.Core.Time.{Timestamp}
use embrig.Core.Frame.{CanFrame}
use embrig.Core.Float.{Float}
use embrig.Core.Codec.{MessageCodec}
use embrig.Models.Sending.{push_frame, fresh}

-- The symbols that a controller knows: any other one counts as none.
unfoldable pub known : List String → Option String → Option String
known [] symbol = none
known (name ∷ rest) symbol =
    let others = known rest symbol in
    elim symbol [ none ↦ none | some s ↦ if s == name then some name else others ]

abbrev pub is_symbol : Option String → String → Bool
is_symbol none name = false
is_symbol (some s) name = s == name

abbrev pub is_bool : Option Bool → Bool → Bool
is_bool none b = false
is_bool (some true) b = b
is_bool (some false) b = not b

module _ (float : Float) where
  open float use {R, le, lt, literal, round_i64}

  pub record VehicleController : Type 0 where
    pub name : String
    pub battery : MessageCodec R
    pub brake : MessageCodec R
    pub driver : MessageCodec R
    pub charger : MessageCodec R
    pub enable : MessageCodec R
    pub period : Timestamp
    pub next : Timestamp
    pub battery_state : Option String
    pub battery_voltage : Option R
    pub last_battery : Option Timestamp
    pub brake_pressed : Option Bool
    pub drive_enabled : Option Bool
    pub charger_state : Option String

  unfoldable pub new :
      String
      → MessageCodec R
      → MessageCodec R
      → MessageCodec R
      → MessageCodec R
      → MessageCodec R
      → Timestamp
      → VehicleController
  new name battery brake driver charger enable period = record {
    name = name;
    battery = battery;
    brake = brake;
    driver = driver;
    charger = charger;
    enable = enable;
    period = period;
    next = 0;
    battery_state = none;
    battery_voltage = none;
    last_battery = none;
    brake_pressed = none;
    drive_enabled = none;
    charger_state = none;
  }

  unfoldable pub charger_ok : VehicleController → Bool
  charger_ok v = not (is_symbol v.charger_state "FAULT")

  unfoldable pub battery_fresh : VehicleController → Timestamp → Bool
  battery_fresh v time = fresh v.last_battery 300 time

  unfoldable pub on_battery : VehicleController → CanFrame → Timestamp → Panic VehicleController
  on_battery v frame time = do
    let seen = record v { last_battery = some time }
    v' ←
        if_ok (v.battery.decode_signal frame.payload "voltage")
          (λ volts. some (record seen { battery_voltage = some volts })) (some seen)
    if_ok (v.battery.decode_signal frame.payload "state")
        (λ s. some (record v' {
          battery_state =
              known ("OFF" ∷ "INIT" ∷ "READY" ∷ "CHARGING" ∷ "FAULT" ∷ [])
                (v.battery.symbol_for "state" (round_i64 s));
        }))
        (some v')

  unfoldable pub on_message : VehicleController → CanFrame → Timestamp → Panic VehicleController
  on_message v frame time =
      if eqb frame.id v.battery.id
      then on_battery v frame time
      else if eqb frame.id v.brake.id
      then if_ok (v.brake.decode_signal frame.payload "brake_pressed")
          (λ x. some (record v { brake_pressed = some (lt (literal (pos 5) 1) x) })) (some v)
      else if eqb frame.id v.driver.id
      then if_ok (v.driver.decode_signal frame.payload "drive_enabled")
          (λ x. some (record v { drive_enabled = some (lt (literal (pos 5) 1) x) })) (some v)
      else if eqb frame.id v.charger.id
      then if_ok (v.charger.decode_signal frame.payload "state")
          (λ s. some (record v {
            charger_state =
                known ("IDLE" ∷ "CHARGING" ∷ "COMPLETE" ∷ "FAULT" ∷ [])
                  (v.charger.symbol_for "state" (round_i64 s));
          }))
          (some v)
      else some v

  abbrev pub voltage_ok : VehicleController → Bool
  voltage_ok v = elim v.battery_voltage [ none ↦ false | some x ↦ le x (literal (pos 450) 0) ]

  -- `enable` of `update`.
  unfoldable pub enables : VehicleController → Timestamp → Bool
  unfolding battery_fresh charger_ok
  enables v time =
      let battery_ok = is_symbol v.battery_state "READY" && voltage_ok v && battery_fresh v time in
      let driver_ok = is_bool v.drive_enabled true && is_bool v.brake_pressed false in
      battery_ok && driver_ok && charger_ok v

  unfoldable pub update :
      VehicleController → Timestamp → List CanFrame → Panic (VehicleController × List CanFrame)
  update v time out =
      let value = if enables v time then literal (pos 1) 0 else literal (pos 0) 0 in
      if ltb time v.next then some (v, out) else do
        out' ← push_frame v.enable.id (v.enable.encode_signals (("motor_enable", value) ∷ [])) out
        next ← add_u64 time v.period
        some (record v { next = next }, out')
