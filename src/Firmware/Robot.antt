-- ===== src/Firmware/Robot.antt =====
-- firmware/robot/src/lib.rs: the motion controller of a rover.
pub mod Stop
use embrig.Prelude.{
  ℕ, Bool, false, ◌&&◌, eqb, ltb, if◌then◌else◌, String, List, [], ◌∷◌, ◌++◌, Option, none, some,
}
use embrig.Prelude.Int.{pos, negsuc}
use embrig.Prelude.Fallible.{if_ok}
use embrig.Prelude.Panic.{Panic, ◌>>=◌, add_u64}
use embrig.Core.Time.{Timestamp}
use embrig.Core.Frame.{CanFrame}
use embrig.Core.Float.{Float}
use embrig.Dbc.Types.{Network, message, physical_for_symbol}
use embrig.Dbc.Codec.{decode_signal}
use embrig.Firmware.Sending.{make_frame}

module _ (float : Float) (network : Network float) where
  open float use {R, add, sub, mul, abs, lt, literal}

  -- `v.clamp(-WHEEL_MAX, WHEEL_MAX)`
  unfoldable pub clamp_speed : R → R
  clamp_speed v =
      if lt v (literal (negsuc 2) 0)
      then literal (negsuc 2) 0
      else if lt (literal (pos 3) 0) v
      then literal (pos 3) 0
      else v

  pub record RobotFirmware : Type 0 where
    pub name : String
    pub speed_cmd : R
    pub steer_cmd : R
    pub estop : Bool
    pub next_tx : Timestamp
    pub period_us : ℕ

  unfoldable pub new : String → RobotFirmware
  new name = record {
    name = name;
    speed_cmd = literal (pos 0) 0;
    steer_cmd = literal (pos 0) 0;
    estop = false;
    next_tx = 0;
    period_us = 50000;
  }

  -- The state with the left and right speeds. `1e-9` has nine places, `MAX_SPEED` and `TRACK` one.
  unfoldable pub behaviour : RobotFirmware → String × R × R
  unfolding clamp_speed
  behaviour f =
      let rest = literal (pos 0) 0 in
      let turn = mul f.steer_cmd (literal (pos 5) 1) in
      if f.estop
      then ("ESTOP", rest, rest)
      else if lt (literal (pos 15) 1) (abs f.speed_cmd)
      then ("FAULT", rest, rest)
      else if lt (abs f.speed_cmd) (literal (pos 1) 9) && lt (abs f.steer_cmd) (literal (pos 1) 9)
      then ("READY", rest, rest)
      else ("DRIVING", clamp_speed (sub f.speed_cmd turn), clamp_speed (add f.speed_cmd turn))

  unfoldable pub on_joystick : RobotFirmware → List ℕ → Panic RobotFirmware
  on_joystick f bytes = do
    m ← message float network 0x100
    f' ←
        if_ok (decode_signal float m bytes "speed") (λ speed. some (record f { speed_cmd = speed }))
          (some f)
    if_ok (decode_signal float m bytes "steer") (λ steer. some (record f' { steer_cmd = steer }))
        (some f')

  unfoldable pub on_estop : RobotFirmware → List ℕ → Panic RobotFirmware
  on_estop f bytes = do
    m ← message float network 0x110
    if_ok (decode_signal float m bytes "estop")
        (λ v. some (record f { estop = lt (literal (pos 5) 1) v })) (some f)

  unfoldable pub on_message : RobotFirmware → CanFrame → Timestamp → Panic RobotFirmware
  on_message f frame time =
      if eqb frame.id 0x100
      then on_joystick f frame.payload
      else if eqb frame.id 0x110
      then on_estop f frame.payload
      else some f

  unfoldable pub transmit :
      RobotFirmware
      → Timestamp
      → List CanFrame
      → String × R × R
      → Panic (RobotFirmware × List CanFrame)
  transmit f time out (state, left, right) = do
    motor ← make_frame float network 0x200 (("left_speed", left) ∷ ("right_speed", right) ∷ [])
    m ← message float network 0x300
    value ← physical_for_symbol float m "state" state
    status ← make_frame float network 0x300 (("state", value) ∷ [])
    next ← add_u64 time f.period_us
    some (record f { next_tx = next }, out ++ motor ∷ status ∷ [])

  unfoldable pub update :
      RobotFirmware → Timestamp → List CanFrame → Panic (RobotFirmware × List CanFrame)
  update f time out =
      let sent = transmit f time out (behaviour f) in
      if ltb time f.next_tx then some (f, out) else sent
