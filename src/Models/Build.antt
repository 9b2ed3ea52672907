-- ===== src/Models/Build.antt =====
-- crates/embrig-models/src/lib.rs: a simulation built from a vehicle configuration. `F` is the type of the
-- firmware that the factories make, with its methods.
pub mod Order
use embrig.Prelude.{ℕ, String, List, [], ◌∷◌, ◌++◌, Option, none, some}
use embrig.Prelude.Keys.{nat_key}
use embrig.Prelude.Panic as Panic
use embrig.Prelude.Panic.{Panic}
use embrig.Prelude.Fallible.{Fallible, ok, err, ◌>>=◌, or_err, map_err}
use embrig.Prelude.Result as Result
use embrig.Core.Time.{Timestamp}
use embrig.Core.Float.{Float}
use embrig.Core.Signal.{SignalValue}
use embrig.Core.Frame.{CanFrame, frame_message}
use embrig.Core.Fault.{Fault, can_fault}
use embrig.Core.Network.{Network, NetEcu, NetEcuError, signal_not_supported, not_registered}
use embrig.Core.Codec.{MessageCodec, SignalCodec}
use embrig.Core.Registry.{NetEcuFactory}
use embrig.Core.Sim.{NetworkSim, attach}
use embrig.Core.Sim as Sim
use embrig.Models.Charger.{Charger}
use embrig.Models.Charger as Charger
use embrig.Models.Vehicle.{VehicleController}
use embrig.Models.Vehicle as Vehicle
use embrig.Models.Motor.{Motor}
use embrig.Models.Motor as Motor
use embrig.Models.Config.{EcuKind, EcuConfig, VehicleConfig, ConfigEcu}
use embrig.Models.Config as Config

-- The identifiers of ecus.rs.
abbrev pub id_battery : ℕ
id_battery = 256

abbrev pub id_brake : ℕ
id_brake = 272

abbrev pub id_driver : ℕ
id_driver = 288

abbrev pub id_charge_request : ℕ
id_charge_request = 512

abbrev pub id_charge_status : ℕ
id_charge_status = 528

abbrev pub id_motor_enable : ℕ
id_motor_enable = 544

abbrev pub id_motor_status : ℕ
id_motor_status = 560

-- The errors of the loading of files are here as well; a source error is its text.
pub data ModelError : Type 0 where
  read_vehicle parse_vehicle read_dbc : (path message : String) → ModelError
  parse_dbc missing_message unknown_message_name : String → ModelError
  missing_id : (id : ℕ) (ecu : String) → ModelError
  ecu : (name : String) → NetEcuError → ModelError

-- `NoSils`: a registry with no firmware.
unfoldable pub no_sils : {F : Type 0} → NetEcuFactory F
no_sils name step_budget_us = err (not_registered name)

module _ (float : Float) where
  open float use {R}

  pub data Node (F : Type 0) : Type 0 where
    config : ConfigEcu float → Node F
    charger : Charger float → Node F
    vcu : VehicleController float → Node F
    motor : Motor float → Node F
    firmware : F → Node F

  module _ {F : Type 0} (firmware_ecu : NetEcu R CanFrame F) where
    name : Node F → String
    name (config e) = e.name
    name (charger e) = e.name
    name (vcu e) = e.name
    name (motor e) = e.name
    name (firmware e) = firmware_ecu.name e

    -- A method's result, with the node behind its kind again.
    abbrev again : {N B : Type 0} → (N → Node F) → Panic (N × B) → Panic (Node F × B)
    again wrap none = none
    again wrap (some (e, b)) = some (wrap e, b)

    abbrev again_alone : {N : Type 0} → (N → Node F) → Panic N → Panic (Node F)
    again_alone wrap none = none
    again_alone wrap (some e) = some (wrap e)

    update : Node F → Timestamp → List CanFrame → Panic (Node F × List CanFrame)
    unfolding Config.update Charger.update Vehicle.update Motor.update
    update (config e) time out = again config (Config.update float e time out)
    update (charger e) time out = again charger (Charger.update float e time out)
    update (vcu e) time out = again vcu (Vehicle.update float e time out)
    update (motor e) time out = again motor (Motor.update float e time out)
    update (firmware e) time out = again firmware (firmware_ecu.update e time out)

    on_message : Node F → CanFrame → Timestamp → Panic (Node F)
    unfolding Charger.on_message Vehicle.on_message Motor.on_message
    on_message (config e) frame time = some (config e)
    on_message (charger e) frame time = again_alone charger (Charger.on_message float e frame time)
    on_message (vcu e) frame time = again_alone vcu (Vehicle.on_message float e frame time)
    on_message (motor e) frame time = again_alone motor (Motor.on_message float e frame time)
    on_message (firmware e) frame time = again_alone firmware (firmware_ecu.on_message e frame time)

    set_signal :
        Node F → ℕ → String → SignalValue R → Panic (Node F × Result.Result NetEcuError (Unit {0}))
    unfolding Config.set_signal
    set_signal (config e) id signal value = again config (Config.set_signal float e id signal value)
    set_signal (charger e) id signal value = some (charger e, Result.err signal_not_supported)
    set_signal (vcu e) id signal value = some (vcu e, Result.err signal_not_supported)
    set_signal (motor e) id signal value = some (motor e, Result.err signal_not_supported)
    set_signal (firmware e) id signal value =
        again firmware (firmware_ecu.set_signal e id signal value)

    set_field :
        Node F
        → String
        → String
        → SignalValue R
        → Panic (Node F × Result.Result NetEcuError (Unit {0}))
    set_field (firmware e) message field value =
        again firmware (firmware_ecu.set_field e message field value)
    set_field n message field value = some (n, Result.err signal_not_supported)

    unfoldable pub node_ecu : NetEcu R CanFrame (Node F)
    unfolding name update on_message set_signal set_field
    node_ecu = record {
      name = name;
      update = update;
      on_message = on_message;
      set_signal = set_signal;
      set_field = set_field;
    }

    abbrev pub can_network : Network
    can_network = record {
      K = ℕ;
      M = CanFrame;
      F = Fault;
      E = Node F;
      R = R;
      keys = nat_key;
      message = frame_message;
      fault = can_fault;
      ecu = node_ecu;
    }

    pub record BuiltSimulation : Type 0 where
      pub sim : NetworkSim can_network
      pub ecus : List (String × ℕ)

    -- `sim.attach`, and the name with the index that it returns.
    unfoldable pub attached : BuiltSimulation → String → Node F → List ℕ → BuiltSimulation
    unfolding attach
    attached built name node listen =
        let (sim, index) = attach can_network built.sim node listen in
        record { sim = sim; ecus = built.ecus ++ (name, index) ∷ [] }

    module _ (codec : SignalCodec R) (factories : NetEcuFactory F) where
      abbrev needed : String → ℕ → Fallible ModelError (MessageCodec R)
      needed name id = or_err (codec.message_by_id id) (missing_id id name)

      -- The node of an entry, and the identifiers that it listens to.
      unfoldable pub build_node : EcuConfig R → Fallible ModelError (Node F × List ℕ)
      unfolding Config.new Charger.new Vehicle.new Motor.new
      build_node cfg = elim cfg.kind [
        | EcuKind.config ↦ do
          msg_name ← or_err cfg.message (missing_message cfg.name)
          message ← or_err (codec.message_by_name msg_name) (unknown_message_name msg_name)
          e ← map_err (ecu cfg.name) (Config.new float cfg.name message cfg.period_us cfg.signals)
          ok (config e, cfg.listen)
        | EcuKind.charger ↦ do
          request ← needed cfg.name id_charge_request
          battery ← needed cfg.name id_battery
          status ← needed cfg.name id_charge_status
          ok (
            charger (Charger.new float cfg.name request battery status cfg.period_us),
            id_charge_request ∷ id_battery ∷ [],
          )
        | EcuKind.vcu ↦ do
          battery ← needed cfg.name id_battery
          brake ← needed cfg.name id_brake
          driver ← needed cfg.name id_driver
          status ← needed cfg.name id_charge_status
          enable ← needed cfg.name id_motor_enable
          ok (
            vcu (Vehicle.new float cfg.name battery brake driver status enable cfg.period_us),
            id_battery ∷ id_brake ∷ id_driver ∷ id_charge_status ∷ [],
          )
        | EcuKind.motor ↦ do
          enable ← needed cfg.name id_motor_enable
          status ← needed cfg.name id_motor_status
          ok (motor (Motor.new float cfg.name enable status cfg.period_us), id_motor_enable ∷ [])
        | EcuKind.sil ↦ do
          e ← map_err (ecu cfg.name) (factories cfg.name cfg.step_budget_us)
          ok (firmware e, cfg.listen)
      ]

      -- The loop over the entries.
      unfoldable pub build_all :
          List (EcuConfig R) → BuiltSimulation → Fallible ModelError BuiltSimulation
      unfolding build_node attached
      build_all [] built = ok built
      build_all (cfg ∷ rest) built = do
        (node, listen) ← build_node cfg
        build_all rest (attached built cfg.name node listen)

      unfoldable pub build_simulation_indexed_with_codec :
          VehicleConfig R → Fallible ModelError BuiltSimulation
      unfolding build_all Sim.new
      build_simulation_indexed_with_codec cfg =
          build_all cfg.ecus (record { sim = Sim.new can_network cfg.step_us; ecus = [] })
