-- ===== src/Canopen/Node.antt =====
-- A CANopen node of crates/embrig-canopen/src/codec.rs, with the node description of spec.rs.
use embrig.Prelude.{
  ℕ, ◌≡◌, ◌<◌, ◌≤◌, ◌⊎◌, refl, Bool, true, false, ◌+◌, ◌||◌, eqb, ltb, if◌then◌else◌, String, List,
  [], Option, none, some, map, arith,
}
use embrig.Prelude.Keys.{◌==◌, string_key}
use embrig.Prelude.Result.{Result, ok, err}
use embrig.Core.Float.{Float}
use embrig.Core.Codec.{MessageCodec}
use embrig.Dbc.Types.{SignalDef, MessageDef, intel}
use embrig.Dbc.Codec.{CodecError}
use embrig.Dbc.Seam.{message_codec}
use embrig.Canopen.{nmt, tpdo1, rpdo1, heartbeat}
use embrig.Canopen.Heartbeat
use embrig.Canopen.Nmt

pub data CanOpenError : Type 0 where
  invalid_node_id : ℕ → CanOpenError

module _ (float : Float) (to_string : CodecError → String) where
  open float use {R}

  pub record SignalSpec : Type 0 where
    pub name : String
    pub bit : ℕ
    pub length : ℕ
    pub is_signed : Bool
    pub factor : R
    pub offset : R

  pub record EcuSpec : Type 0 where
    pub node_id : ℕ
    pub heartbeat_period_us : ℕ
    pub tpdo1 : List SignalSpec
    pub rpdo1 : List SignalSpec

  abbrev pub signal_def : SignalSpec → SignalDef float
  signal_def s = record {
    name = s.name;
    start_bit = s.bit;
    length = s.length;
    byte_order = intel;
    is_signed = s.is_signed;
    factor = s.factor;
    offset = s.offset;
    unit = "";
    min = none;
    max = none;
    value_table = [];
  }

  unfoldable pub pdo : ℕ → String → List SignalSpec → MessageDef float
  pdo id name signals = record { id = id; name = name; dlc = 8; signals = map signal_def signals }

  -- The heartbeat and NMT messages are their identifiers.
  pub record CanOpenCodec : Type 0 where
    pub node : ℕ
    pub tpdo : MessageDef float
    pub rpdo : MessageDef float
    pub heartbeat : ℕ
    pub nmt : ℕ

  unfoldable pub new : EcuSpec → Result CanOpenError CanOpenCodec
  new spec =
      if eqb spec.node_id 0 || ltb 127 spec.node_id
      then err (invalid_node_id spec.node_id)
      else ok (record {
        node = spec.node_id;
        tpdo = pdo (tpdo1 spec.node_id) "TPDO1" spec.tpdo1;
        rpdo = pdo (rpdo1 spec.node_id) "RPDO1" spec.rpdo1;
        heartbeat = heartbeat spec.node_id;
        nmt = nmt;
      })

  unfoldable pub message_by_id : CanOpenCodec → ℕ → Option (MessageCodec R)
  unfolding Heartbeat.codec Nmt.codec
  message_by_id c id =
      if eqb id c.tpdo.id
      then some (message_codec float to_string c.tpdo)
      else if eqb id c.rpdo.id
      then some (message_codec float to_string c.rpdo)
      else if eqb id c.heartbeat
      then some (Heartbeat.codec float c.heartbeat)
      else if eqb id c.nmt
      then some (Nmt.codec float c.nmt)
      else none

  unfoldable pub message_by_name : CanOpenCodec → String → Option (MessageCodec R)
  unfolding Heartbeat.codec Nmt.codec
  message_by_name c name =
      if name == "TPDO1"
      then some (message_codec float to_string c.tpdo)
      else if name == "RPDO1"
      then some (message_codec float to_string c.rpdo)
      else if name == "Heartbeat"
      then some (Heartbeat.codec float c.heartbeat)
      else if name == "NMT"
      then some (Nmt.codec float c.nmt)
      else none

  -- The conditions under which a node is made: `1 <= node <= 127`.
  abbrev pub InRange : ℕ → Type 0
  InRange node = (1 ≤ node) × (node ≤ 127)

  range_test : (node : ℕ) → InRange node → (eqb node 0 || ltb 127 node) ≡ false
  range_test node h = ground arith

  refused_test : (node : ℕ) → (node ≡ 0) ⊎ (127 < node) → (eqb node 0 || ltb 127 node) ≡ true
  refused_test node h = ground arith

  same : (a : ℕ) → eqb a a ≡ true
  same a = ground arith

  another : (a b : ℕ) → (a ≡ b → ⊥) → eqb a b ≡ false
  another a b ne = ground arith

  made : EcuSpec → CanOpenCodec
  unfolding pdo tpdo1 rpdo1 heartbeat
  made spec = record {
    node = spec.node_id;
    tpdo = pdo (tpdo1 spec.node_id) "TPDO1" spec.tpdo1;
    rpdo = pdo (rpdo1 spec.node_id) "RPDO1" spec.rpdo1;
    heartbeat = heartbeat spec.node_id;
    nmt = nmt;
  }

  -- For a node id in 1 to 127 the codec is made, and each of the four identifiers of the node finds
  -- its own message: none of them hides another.
  pub message_by_id-new :
      (spec : EcuSpec)
      → InRange spec.node_id
      → (c : CanOpenCodec) × (new spec ≡ ok c)
        × (message_by_id c (tpdo1 spec.node_id)
            ≡ some (message_codec float to_string (pdo (tpdo1 spec.node_id) "TPDO1" spec.tpdo1)))
        × (message_by_id c (rpdo1 spec.node_id)
            ≡ some (message_codec float to_string (pdo (rpdo1 spec.node_id) "RPDO1" spec.rpdo1)))
        × (message_by_id c (heartbeat spec.node_id)
            ≡ some (Heartbeat.codec float (heartbeat spec.node_id)))
        × (message_by_id c nmt ≡ some (Nmt.codec float nmt))
  unfolding made new message_by_id pdo tpdo1 rpdo1 heartbeat
  message_by_id-new spec h = (
    made spec,
    rw (range_test spec.node_id h) refl,
    rw (same (0x180 + spec.node_id)) refl,
    rw
        (
          another (0x200 + spec.node_id) (0x180 + spec.node_id) (λ e. omega (arith, e)),
          same (0x200 + spec.node_id),
        )
        refl,
    rw
        (
          another (0x700 + spec.node_id) (0x180 + spec.node_id) (λ e. omega (arith, e)),
          another (0x700 + spec.node_id) (0x200 + spec.node_id) (λ e. omega (arith, e)),
          same (0x700 + spec.node_id),
        )
        refl,
    rw
        (
          another 0 (0x180 + spec.node_id) (λ e. omega (arith, e)),
          another 0 (0x200 + spec.node_id) (λ e. omega (arith, e)),
          another 0 (0x700 + spec.node_id) (λ e. omega (arith, e)),
        )
        refl,
  )

  -- A node id out of that range is refused with the id.
  pub new-refused :
      (spec : EcuSpec)
      → (spec.node_id ≡ 0) ⊎ (127 < spec.node_id)
      → new spec ≡ err (invalid_node_id spec.node_id)
  unfolding new
  new-refused spec h = rw (refused_test spec.node_id h) refl
