-- ===== src/Models/Config.antt =====
-- crates/embrig-models/src/config.rs: the vehicle configuration, and the node that sends one configured
-- message. An ECU of the CAN list has the fields that building it reads.
pub mod Checked
use Prim.Native.String.{◌++◌}
use embrig.Prelude.{
  ℕ, Bool, not, eqb, ltb, if◌then◌else◌, String, List, [], ◌∷◌, Option, none, some,
}
use embrig.Prelude.Keys.{string_key}
use embrig.Prelude.Int.{pos}
use embrig.Prelude.Map.{Map, insert}
use embrig.Prelude.Panic.{Panic, ◌>>=◌, add_u64}
use embrig.Prelude.Format.{hex3}
use embrig.Prelude.Fallible as Fallible
use embrig.Prelude.Fallible.{Fallible, or_err, map_err}
use embrig.Prelude.Result.{Result}
use embrig.Core.Time.{Timestamp}
use embrig.Core.Float.{Float}
use embrig.Core.Signal.{SignalValue}
use embrig.Core.Frame.{CanFrame}
use embrig.Core.Network.{NetEcuError, unknown_message, invalid_value}
use embrig.Core.Codec.{MessageCodec}
use embrig.Models.Sending.{push_frame}

pub data EcuKind : Type 0 where
  config charger vcu motor sil : EcuKind

pub data SignalLiteral (R : Type 0) : Type 0 where
  num : R → SignalLiteral R
  bool : Bool → SignalLiteral R
  str : String → SignalLiteral R

pub record EcuConfig (R : Type 0) : Type 0 where
  pub name : String
  pub kind : EcuKind
  pub message : Option String
  pub period_us : ℕ
  pub signals : Map String (SignalLiteral R)
  pub listen : List ℕ
  pub step_budget_us : ℕ

pub record VehicleConfig (R : Type 0) : Type 0 where
  pub step_us : ℕ
  pub ecus : List (EcuConfig R)

module _ (float : Float) where
  open float use {R, literal}

  abbrev unknown_symbol : String → String → NetEcuError
  unknown_symbol s name = invalid_value ("unknown symbol `" ++ (s ++ ("` for `" ++ (name ++ "`"))))

  unfoldable pub literal_to_physical :
      MessageCodec R → String → SignalLiteral R → Fallible NetEcuError R
  literal_to_physical codec name (num v) = Fallible.ok v
  literal_to_physical codec name (bool b) =
      Fallible.ok (if b then literal (pos 1) 0 else literal (pos 0) 0)
  literal_to_physical codec name (str s) =
      or_err (codec.physical_for_symbol name s) (unknown_symbol s name)

  pub record ConfigEcu : Type 0 where
    pub name : String
    pub codec : MessageCodec R
    pub values : Map String R
    pub period : Timestamp
    pub next : Timestamp

  -- The value of a signal, once the codec has checked it.
  abbrev pub checked : MessageCodec R → String → R → Fallible NetEcuError R
  checked codec name v =
      Fallible.bind (map_err (λ e. invalid_value e) (codec.check_value name v)) (λ a. Fallible.ok v)

  unfoldable pub initial_values :
      MessageCodec R
      → Map String (SignalLiteral R)
      → Map String R
      → Fallible NetEcuError (Map String R)
  unfolding literal_to_physical
  initial_values codec [] values = Fallible.ok values
  initial_values codec ((name, lit) ∷ initial) values =
      Fallible.bind (literal_to_physical codec name lit) (λ v.
        Fallible.bind (checked codec name v)
          (λ v'. initial_values codec initial (insert values name v')))

  unfoldable pub new :
      String
      → MessageCodec R
      → Timestamp
      → Map String (SignalLiteral R)
      → Fallible NetEcuError ConfigEcu
  unfolding initial_values
  new name codec period initial = Fallible.bind (initial_values codec initial []) (λ values.
      Fallible.ok
        (record { name = name; codec = codec; values = values; period = period; next = 0 }))

  unfoldable pub update : ConfigEcu → Timestamp → List CanFrame → Panic (ConfigEcu × List CanFrame)
  unfolding push_frame
  update e time out =
      let sent = push_frame e.codec.id (e.codec.encode_signals e.values) out in
      if ltb time e.next
      then some (e, out)
      else (do out' ← sent; next ← add_u64 time e.period; some (record e { next = next }, out'))

  -- The physical value of an override.
  unfoldable pub physical : MessageCodec R → String → SignalValue R → Fallible NetEcuError R
  physical codec signal (SignalValue.num v) = Fallible.ok v
  physical codec signal (SignalValue.str s) =
      or_err (codec.physical_for_symbol signal s) (unknown_symbol s signal)

  -- The node after an override and its answer: an error leaves the node as it was.
  abbrev pub stored :
      ConfigEcu
      → String
      → Fallible NetEcuError R
      → Panic (ConfigEcu × Result NetEcuError (Unit {0}))
  stored e signal (Fallible.ok v) =
      some (record e { values = insert e.values signal v }, Result.ok tt)
  stored e signal (Fallible.err failure) = some (e, Result.err failure)
  stored e signal Fallible.panic = none

  unfoldable pub set_signal :
      ConfigEcu → ℕ → String → SignalValue R → Panic (ConfigEcu × Result NetEcuError (Unit {0}))
  unfolding physical
  set_signal e id signal value =
      if not (eqb id e.codec.id)
      then some (e, Result.err (unknown_message ("0x" ++ hex3 id)))
      else stored e signal (Fallible.bind (physical e.codec signal value) (checked e.codec signal))
