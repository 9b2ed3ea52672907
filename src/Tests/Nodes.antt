-- ===== src/Tests/Nodes.antt =====
-- The theorems on CANopen, applied to node 1.
use embrig.Prelude.{ℕ, ◌<◌, ◌≡◌, refl, true, false, String, List, [], ◌∷◌, some, arith}
use embrig.Prelude.Int.{pos}
use embrig.Prelude.Result.{Result}
use embrig.Core.Frame.{CanFrame}
use embrig.Dbc.Types.{signal}
use embrig.Dbc.Codec.{
  CodecError, encode_signals, resolve_all, physical_to_raw, fits_bits, write_all, write_signal,
  positions, check_bounds, blank, write_bits,
}
use embrig.Dbc.Seam.{message_codec}
use embrig.Canopen.{nmt, tpdo1, rpdo1, heartbeat, hb_stopped, nmt_stop, hb_operational}
use embrig.Canopen.Values.{as_u8}
use embrig.Canopen.Heartbeat
use embrig.Canopen.Nmt
use embrig.Canopen.Node.{
  EcuSpec, SignalSpec, CanOpenCodec, new, pdo, message_by_id, message_by_name, message_by_id-new,
}
use embrig.Firmware.CanNode.{CanOpenControllerFirmware}
use embrig.Firmware.CanNode
use embrig.Firmware.CanNode.States.{Moves, on_message-Moves}
use embrig.Firmware.CanNode.Stop.{hear, stop-keeps_open}
use embrig.Tests.Reals.{whole}

abbrev text : CodecError → String
text e = "error"

abbrev spec : EcuSpec whole text
spec = record { node_id = 1; heartbeat_period_us = 0; tpdo1 = []; rpdo1 = [] }

message_by_id-new_example :
    (c : CanOpenCodec whole text) × (new whole text spec ≡ Result.ok c)
    × (message_by_id whole text c (tpdo1 1)
        ≡ some (message_codec whole text (pdo whole text (tpdo1 1) "TPDO1" [])))
    × (message_by_id whole text c (rpdo1 1)
        ≡ some (message_codec whole text (pdo whole text (rpdo1 1) "RPDO1" [])))
    × (message_by_id whole text c (heartbeat 1) ≡ some (Heartbeat.codec whole (heartbeat 1)))
    × (message_by_id whole text c nmt ≡ some (Nmt.codec whole nmt))
message_by_id-new_example = message_by_id-new whole text spec (omega arith, omega arith)

abbrev open_bit : SignalSpec whole text
open_bit = record {
  name = "valve_open";
  bit = 0;
  length = 1;
  is_signed = false;
  factor = pos 1;
  offset = pos 0;
}

abbrev node : CanOpenCodec whole text
node = record {
  node = 1;
  tpdo = pdo whole text 0x181 "TPDO1" (open_bit ∷ []);
  rpdo = record { id = 0x201; name = "RPDO1"; dlc = 8; signals = [] };
  heartbeat = 0x701;
  nmt = 0;
}

abbrev running_open : CanOpenControllerFirmware whole text node
running_open = record {
  name = "node";
  state = hb_operational;
  temperature = pos 40;
  is_open = true;
  next_tpdo = 0;
  next_heartbeat = 0;
  period_us = 50000;
  heartbeat_us = 100000;
}

abbrev stop_frame : CanFrame
stop_frame = record { id = nmt; payload = 1 ∷ nmt_stop ∷ []; ts = 0; extended = false }

exact : (k : ℕ) → k < 256 → as_u8 (whole.round_i64 (whole.of_i64 (pos k))) ≡ k
unfolding as_u8
exact k h = ground arith

on_message-Moves_example :
    Moves whole text node running_open (record running_open { state = hb_stopped })
unfolding CanNode.on_message CanNode.on_nmt CanNode.on_command message_by_id Nmt.codec
    Nmt.decode_signal as_u8 pdo
on_message-Moves_example =
    on_message-Moves whole text node running_open (record running_open { state = hb_stopped })
      stop_frame 7 refl

abbrev tpdo_frame : CanFrame
tpdo_frame = record {
  id = 0x181;
  payload = 1 ∷ 0 ∷ 0 ∷ 0 ∷ 0 ∷ 0 ∷ 0 ∷ 0 ∷ [];
  ts = 0;
  extended = false;
}

abbrev beat_frame : CanFrame
beat_frame = record { id = 0x701; payload = 4 ∷ []; ts = 0; extended = false }

abbrev stopped_open : CanOpenControllerFirmware whole text node
stopped_open = record running_open { state = hb_stopped }

-- A frame that the node does not know.
abbrev speed_frame : CanFrame
speed_frame = record { id = 256; payload = 1 ∷ []; ts = 0; extended = false }

heard :
    hear whole text node ((stop_frame, 7) ∷ (speed_frame, 8) ∷ []) running_open ≡ some stopped_open
unfolding hear CanNode.on_message CanNode.on_nmt CanNode.on_command message_by_id Nmt.codec
    Nmt.decode_signal as_u8 pdo
heard = refl

valve_frame :
    CanNode.make_frame whole text node "TPDO1" (tpdo1 1) (("valve_open", pos 1) ∷ [])
    ≡ some tpdo_frame
unfolding CanNode.make_frame message_by_name message_codec encode_signals resolve_all signal pdo
    physical_to_raw fits_bits write_all write_signal positions check_bounds blank write_bits tpdo1
valve_frame = refl

state_frame :
    CanNode.make_frame whole text node "Heartbeat" (heartbeat 1) (("state", pos hb_stopped) ∷ [])
    ≡ some beat_frame
unfolding CanNode.make_frame message_by_name Heartbeat.encode_signals Heartbeat.check_value
    heartbeat as_u8
state_frame = refl

stop-keeps_open_example :
    (stopped_open.state ≡ hb_stopped)
    × (f' : CanOpenControllerFirmware whole text node) × (more : List CanFrame) × (CanNode.update
          whole text node stopped_open 100 []
        ≡ some (f', tpdo_frame ∷ more))
unfolding message_by_id pdo
stop-keeps_open_example =
    stop-keeps_open whole text node tpdo_frame beat_frame running_open stopped_open 7 100
      ((speed_frame, 8) ∷ []) [] exact (omega arith) refl refl (refl, tt) heard valve_frame
      state_frame (omega arith) (omega arith) (omega arith)
