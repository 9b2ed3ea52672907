-- ===== src/Harness/Target/Udp/Build.antt =====
-- `build_udp_simulation_with` of crates/embrig-test/src/udp.rs. `F` is the type of the firmware that the
-- factories make. The texts of errors that a library derives are parameters.
use Prim.Native.String.{◌++◌}
use embrig.Prelude.{ℕ, String, if◌then◌else◌, List, [], ◌∷◌, Option, none, some}
use embrig.Prelude.{◌++◌ as append}
use embrig.Prelude.Keys.{Key, string_key}
use embrig.Prelude.Int.{pos}
use embrig.Prelude.Map.{Map, insert}
use embrig.Prelude.Panic.{Panic}
use embrig.Prelude.Fallible.{Fallible, ok, ◌>>=◌, or_err, map_err}
use embrig.Prelude.Result as Result
use embrig.Core.Time.{Timestamp}
use embrig.Core.Float.{Float}
use embrig.Core.Signal.{SignalValue}
use embrig.Core.Network.{NetEcu, NetEcuError, signal_not_supported}
use embrig.Core.Registry.{NetEcuFactory}
use embrig.Models.Config.{SignalLiteral, num, bool, str}
use embrig.Net.Netmap.{MessageDef, FieldError, field, message, resolve_symbol}
use embrig.Net.Udp.{UdpDatagram}
use embrig.Net.Udp.Ecu.{UdpConfigEcu}
use embrig.Net.Udp.Ecu as Ecu
use embrig.Net.Udp.Sim.{UdpSim}
use embrig.Net.Udp.Sim as Sim
use embrig.Harness.Target.{TargetError, net}

-- crates/embrig-models/src/config.rs: the kinds and the entries of the Ethernet list.
pub data EthEcuKind : Type 0 where
  udp_config udp_sil : EthEcuKind

pub record EthEcuConfig (R A : Type 0) : Type 0 where
  pub name : String
  pub kind : EthEcuKind
  pub address : A
  pub message : Option String
  pub period_us : Timestamp
  pub fields : Map String (SignalLiteral R)
  pub step_budget_us : ℕ

module _ (float : Float) {A F : Type 0} ⦃addr : Key A⦄ (display : A → String)
    (of_field : FieldError float → String) (of_ecu : NetEcuError → String)
    (firmware_ecu : NetEcu float.R (UdpDatagram A) F) where
  open float use {R, literal, of_i64, mul, add}

  unfoldable pub literal_value :
      MessageDef float A → String → SignalLiteral R → Fallible TargetError (SignalValue R)
  unfolding field resolve_symbol
  literal_value m name (num v) = ok (SignalValue.num v)
  literal_value m name (bool b) =
      ok (SignalValue.num (if b then literal (pos 1) 0 else literal (pos 0) 0))
  literal_value m name (str s) = do
    f ←
        or_err (field float m name)
          (net ("unknown field `" ++ (name ++ ("` on `" ++ (display m.dst ++ "`")))))
    raw ←
        or_err (resolve_symbol float m name s)
          (net ("unknown symbol `" ++ (s ++ ("` for field `" ++ (name ++ "`")))))
    ok (SignalValue.num (add (mul (of_i64 raw) f.factor) f.shift))

  unfoldable pub literal_fields :
      MessageDef float A
      → Map String (SignalLiteral R)
      → Map String (SignalValue R)
      → Fallible TargetError (Map String (SignalValue R))
  unfolding literal_value
  literal_fields m [] base = ok base
  literal_fields m ((name, lit) ∷ fields) base = do
    v ← literal_value m name lit
    literal_fields m fields (insert base name v)

  pub data EthNode : Type 0 where
    stimulus : UdpConfigEcu float A → EthNode
    firmware : F → EthNode

  abbrev again : {N B : Type 0} → (N → EthNode) → Panic (N × B) → Panic (EthNode × B)
  again wrap none = none
  again wrap (some (e, b)) = some (wrap e, b)

  abbrev again_alone : {N : Type 0} → (N → EthNode) → Panic N → Panic EthNode
  again_alone wrap none = none
  again_alone wrap (some e) = some (wrap e)

  update : EthNode → Timestamp → List (UdpDatagram A) → Panic (EthNode × List (UdpDatagram A))
  unfolding Ecu.update
  update (stimulus e) time out = again stimulus (Ecu.update float of_field e time out)
  update (firmware e) time out = again firmware (firmware_ecu.update e time out)

  on_message : EthNode → UdpDatagram A → Timestamp → Panic EthNode
  on_message (stimulus e) d time = some (stimulus e)
  on_message (firmware e) d time = again_alone firmware (firmware_ecu.on_message e d time)

  set_field :
      EthNode
      → String
      → String
      → SignalValue R
      → Panic (EthNode × Result.Result NetEcuError (Unit {0}))
  unfolding Ecu.set_field
  set_field (stimulus e) message name value =
      again stimulus (some (Ecu.set_field float e message name value))
  set_field (firmware e) message name value =
      again firmware (firmware_ecu.set_field e message name value)

  unfoldable pub node_ecu : NetEcu R (UdpDatagram A) EthNode
  unfolding update on_message set_field
  node_ecu = record {
    name = λ e. elim e [ stimulus s ↦ s.name | firmware f ↦ firmware_ecu.name f ];
    update = update;
    on_message = on_message;
    set_signal = λ e id signal value. elim e [
      | stimulus s ↦ some (stimulus s, Result.err signal_not_supported)
      | firmware f ↦ again firmware (firmware_ecu.set_signal f id signal value)
    ];
    set_field = set_field;
  }

  pub record BuiltUdpSim : Type 0 where
    pub sim : UdpSim display node_ecu
    pub ecus : List (String × ℕ)

  unfoldable pub build_node :
      NetEcuFactory F
      → Map String (MessageDef float A)
      → EthEcuConfig R A
      → Fallible TargetError EthNode
  unfolding message literal_fields Ecu.new
  build_node factories netmap cfg = elim cfg.kind [
    | udp_config ↦ do
      msg_name ← or_err cfg.message (net ("eth ECU `" ++ (cfg.name ++ "` has no `message` name")))
      m ←
          or_err (message float netmap msg_name)
            (net ("message `" ++ (msg_name ++ "` not found in netmap")))
      base ← literal_fields m cfg.fields []
      ok (stimulus (Ecu.new float cfg.name cfg.address msg_name m cfg.period_us base))
    | udp_sil ↦ do
      e ←
          map_err (λ e. net ("eth ECU `" ++ (cfg.name ++ ("`: " ++ of_ecu e))))
            (factories cfg.name cfg.step_budget_us)
      ok (firmware e)
  ]

  -- `sim.attach` at the entry's address, and its name with the index that it returns.
  unfoldable pub attached : BuiltUdpSim → EthEcuConfig R A → EthNode → BuiltUdpSim
  unfolding Sim.attach
  attached built cfg node =
      let (sim, index) = Sim.attach display node_ecu built.sim node cfg.address in
      record { sim = sim; ecus = append built.ecus ((cfg.name, index) ∷ []) }

  unfoldable pub build_all :
      NetEcuFactory F
      → Map String (MessageDef float A)
      → List (EthEcuConfig R A)
      → BuiltUdpSim
      → Fallible TargetError BuiltUdpSim
  unfolding build_node attached
  build_all factories netmap [] built = ok built
  build_all factories netmap (cfg ∷ rest) built = do
    node ← build_node factories netmap cfg
    build_all factories netmap rest (attached built cfg node)

  unfoldable pub build_udp_simulation_with :
      (step_us : Timestamp)
      → List (EthEcuConfig R A)
      → Map String (MessageDef float A)
      → NetEcuFactory F
      → Fallible TargetError BuiltUdpSim
  unfolding build_all Sim.new
  build_udp_simulation_with step_us eth_ecus netmap factories =
      build_all factories netmap eth_ecus
        (record { sim = Sim.new display node_ecu step_us; ecus = [] })
