-- ===== src/Firmware/CanNode.antt =====
-- firmware/canopen-controller/src/lib.rs: a CANopen node with a valve. The codec of the node, which
-- the source builds from its description, is a parameter.
pub mod States
pub mod Stop
use embrig.Prelude.{
  ℕ, Bool, false, ◌&&◌, eqb, leb, if◌then◌else◌, String, List, [], ◌∷◌, ◌++◌, Option, none, some,
}
use embrig.Prelude.Int.{pos}
use embrig.Prelude.Fallible.{if_ok}
use embrig.Prelude.Panic.{Panic, ◌>>=◌, add_u64}
use embrig.Core.Time.{Timestamp}
use embrig.Core.Frame.{CanFrame}
use embrig.Core.Frame
use embrig.Core.Float.{Float}
use embrig.Dbc.Codec.{CodecError}
use embrig.Canopen.{
  nmt, tpdo1, rpdo1, heartbeat, nmt_start, nmt_stop, nmt_pre_operational, hb_stopped,
  hb_operational, hb_pre_operational,
}
use embrig.Canopen.Values.{as_u8}
use embrig.Canopen.Node.{CanOpenCodec, message_by_id, message_by_name}
use embrig.Firmware.Sending.{expect, expect_frame}

module _ (float : Float) (to_string : CodecError → String)
    (node : CanOpenCodec float to_string) where
  open float use {R, le, literal, of_i64, round_i64}

  pub record CanOpenControllerFirmware : Type 0 where
    pub name : String
    pub state : ℕ
    pub temperature : R
    -- `open` in the source.
    pub is_open : Bool
    pub next_tpdo : Timestamp
    pub next_heartbeat : Timestamp
    pub period_us : ℕ
    pub heartbeat_us : ℕ

  unfoldable pub new : String → CanOpenControllerFirmware
  new name = record {
    name = name;
    state = hb_pre_operational;
    temperature = literal (pos 0) 0;
    is_open = false;
    next_tpdo = 0;
    next_heartbeat = 0;
    period_us = 50000;
    heartbeat_us = 100000;
  }

  -- `(10.0..=90.0).contains(&temperature)`
  abbrev pub in_band : R → Bool
  in_band t = le (literal (pos 10) 0) t && le t (literal (pos 90) 0)

  unfoldable pub on_command : CanOpenControllerFirmware → ℕ → CanOpenControllerFirmware
  on_command f command =
      if eqb command nmt_start
      then record f { is_open = in_band f.temperature; state = hb_operational }
      else if eqb command nmt_stop
      then record f { state = hb_stopped }
      else if eqb command nmt_pre_operational
      then record f { state = hb_pre_operational }
      else f

  unfoldable pub on_temperature : CanOpenControllerFirmware → R → CanOpenControllerFirmware
  on_temperature f t =
      if eqb f.state hb_operational
      then record f { temperature = t; is_open = in_band t }
      else record f { temperature = t }

  unfoldable pub on_nmt : CanOpenControllerFirmware → List ℕ → Panic CanOpenControllerFirmware
  on_nmt f bytes = do
    m ← message_by_id float to_string node nmt
    if_ok (m.decode_signal bytes "node")
        (λ id.
          if eqb (as_u8 (round_i64 id)) node.node
          then if_ok (m.decode_signal bytes "command")
              (λ command. some (on_command f (as_u8 (round_i64 command)))) (some f)
          else some f)
        (some f)

  unfoldable pub on_rpdo : CanOpenControllerFirmware → List ℕ → Panic CanOpenControllerFirmware
  on_rpdo f bytes = do
    m ← message_by_id float to_string node (rpdo1 node.node)
    if_ok (m.decode_signal bytes "temperature") (λ t. some (on_temperature f t)) (some f)

  -- The NMT message is looked up first, whatever the frame.
  unfoldable pub on_message :
      CanOpenControllerFirmware → CanFrame → Timestamp → Panic CanOpenControllerFirmware
  unfolding rpdo1
  on_message f frame time = do
    nmt_msg ← message_by_id float to_string node nmt
    (if eqb frame.id nmt
        then on_nmt f frame.payload
        else if eqb frame.id (rpdo1 node.node)
        then on_rpdo f frame.payload
        else some f)

  -- A frame for the message of a name.
  unfoldable pub make_frame : String → ℕ → List (String × R) → Panic CanFrame
  unfolding Frame.new
  make_frame name id values = do
    m ← message_by_name float to_string node name
    bytes ← expect (m.encode_signals values)
    expect_frame (Frame.new id bytes)

  abbrev pub valve_values : CanOpenControllerFirmware → List (String × R)
  valve_values f = ("valve_open", if f.is_open then literal (pos 1) 0 else literal (pos 0) 0) ∷ []

  unfoldable pub send_tpdo :
      CanOpenControllerFirmware
      → Timestamp
      → List CanFrame
      → Panic (CanOpenControllerFirmware × List CanFrame)
  unfolding tpdo1
  send_tpdo f time out = do
    frame ← make_frame "TPDO1" (tpdo1 node.node) (valve_values f)
    next ← add_u64 time f.period_us
    some (record f { next_tpdo = next }, out ++ frame ∷ [])

  unfoldable pub send_heartbeat :
      CanOpenControllerFirmware
      → Timestamp
      → List CanFrame
      → Panic (CanOpenControllerFirmware × List CanFrame)
  unfolding heartbeat
  send_heartbeat f time out = do
    frame ← make_frame "Heartbeat" (heartbeat node.node) (("state", of_i64 (pos f.state)) ∷ [])
    next ← add_u64 time f.heartbeat_us
    some (record f { next_heartbeat = next }, out ++ frame ∷ [])

  unfoldable pub update :
      CanOpenControllerFirmware
      → Timestamp
      → List CanFrame
      → Panic (CanOpenControllerFirmware × List CanFrame)
  update f time out = do
    (f', out') ← (if leb f.next_tpdo time then send_tpdo f time out else some (f, out))
    if leb f'.next_heartbeat time then send_heartbeat f' time out' else some (f', out')
