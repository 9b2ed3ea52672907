-- ===== src/Core/Network.antt =====
-- The traits of crates/embrig-core/src/network.rs: a message, a fault, an ECU. A network is a
-- choice of types for keys, messages, faults and ECUs with those traits.
use embrig.Prelude.{ℕ, String, Bool, false, true, List, Option, none, some, ltb, if◌then◌else◌, ◌≡◌}
use embrig.Prelude.Keys.{Key}
use embrig.Prelude.Panic.{Panic, add_u64, ◌>>=◌}
use embrig.Prelude.Result.{Result}
use embrig.Core.Time.{Timestamp}
use embrig.Core.Signal.{SignalValue}

-- `payload` with `set_payload` is `payload_mut`. The laws are those of field accessors.
pub record NetMessage (K M : Type 0) : Type 0 where
  pub key : M → K
  pub payload : M → List ℕ
  pub set_payload : M → List ℕ → M
  pub ts : M → Timestamp
  pub set_ts : M → Timestamp → M
  pub noun : String
  pub label : M → String
  pub ts-set_ts : (m : M) (t : Timestamp) → ts (set_ts m t) ≡ t
  pub key-set_ts : (m : M) (t : Timestamp) → key (set_ts m t) ≡ key m
  pub payload-set_ts : (m : M) (t : Timestamp) → payload (set_ts m t) ≡ payload m
  pub key-set_payload : (m : M) (p : List ℕ) → key (set_payload m p) ≡ key m
  pub ts-set_payload : (m : M) (p : List ℕ) → ts (set_payload m p) ≡ ts m
  pub payload-set_payload : (m : M) (p : List ℕ) → payload (set_payload m p) ≡ p

-- What to do with a message after fault injection has run.
pub data NetAction : Type 0 where
  deliver drop : NetAction
  delay : Timestamp → NetAction
  corrupt : (byte mask : ℕ) → NetAction

pub record NetFault (K F : Type 0) : Type 0 where
  pub matches : F → K → Bool
  pub action : F → NetAction

pub record NetFaultRule (F : Type 0) : Type 0 where
  pub fault : F
  pub start : Timestamp
  pub duration : Option Timestamp

unfoldable pub active_at : {F : Type 0} → NetFaultRule F → Timestamp → Panic Bool
active_at rule now = if ltb now rule.start then some false else elim rule.duration [
  | none ↦ some true
  | some d ↦ do end ← add_u64 rule.start d; some (ltb now end)
]

pub data NetEcuError : Type 0 where
  signal_not_supported : NetEcuError
  unknown_message unknown_field invalid_value not_registered : String → NetEcuError

-- A virtual ECU: its methods return the new state, and may panic.
pub record NetEcu (R M E : Type 0) : Type 0 where
  pub name : E → String
  pub update : E → Timestamp → List M → Panic (E × List M)
  pub on_message : E → M → Timestamp → Panic E
  pub set_signal : E → ℕ → String → SignalValue R → Panic (E × Result NetEcuError (Unit {0}))
  pub set_field : E → String → String → SignalValue R → Panic (E × Result NetEcuError (Unit {0}))

pub record Network : Type 1 where
  pub K : Type 0
  pub M : Type 0
  pub F : Type 0
  pub E : Type 0
  pub R : Type 0
  pub keys : Key K
  pub message : NetMessage K M
  pub fault : NetFault K F
  pub ecu : NetEcu R M E
