-- ===== src/Models/Charger.antt =====
-- The charger of crates/embrig-models/src/ecus.rs.
pub mod States
use embrig.Prelude.{Bool, false, eqb, ltb, if◌then◌else◌, String, List, [], ◌∷◌, Option, some, none}
use embrig.Prelude.Fallible.{if_ok}
use embrig.Prelude.Int.{pos}
use embrig.Prelude.Panic.{Panic, ◌>>=◌, add_u64}
use embrig.Core.Time.{Timestamp}
use embrig.Core.Frame.{CanFrame}
use embrig.Core.Float.{Float}
use embrig.Core.Codec.{MessageCodec}
use embrig.Models.Sending.{push_frame, fresh}

module _ (float : Float) where
  open float use {R, le, lt, literal}

  pub record Charger : Type 0 where
    pub name : String
    pub request : MessageCodec R
    pub battery : MessageCodec R
    pub status : MessageCodec R
    pub period : Timestamp
    pub next : Timestamp
    pub state : String
    pub charge_request : Bool
    pub last_battery : Option Timestamp
    pub last_soc : Option R

  unfoldable pub new :
      String → MessageCodec R → MessageCodec R → MessageCodec R → Timestamp → Charger
  new name request battery status period = record {
    name = name;
    request = request;
    battery = battery;
    status = status;
    period = period;
    next = 0;
    state = "IDLE";
    charge_request = false;
    last_battery = none;
    last_soc = none;
  }

  unfoldable pub battery_fresh : Charger → Timestamp → Bool
  battery_fresh c time = fresh c.last_battery 500 time

  unfoldable pub on_request : Charger → CanFrame → Panic Charger
  on_request c frame =
      if eqb frame.id c.request.id
      then if_ok (c.request.decode_signal frame.payload "charge_request")
          (λ v. some (record c { charge_request = lt (literal (pos 5) 1) v })) (some c)
      else some c

  unfoldable pub on_battery : Charger → CanFrame → Timestamp → Panic Charger
  on_battery c frame time =
      let seen = record c { last_battery = some time } in
      if eqb frame.id c.battery.id
      then if_ok (c.battery.decode_signal frame.payload "soc")
          (λ soc. some (record seen { last_soc = some soc })) (some seen)
      else some c

  unfoldable pub on_message : Charger → CanFrame → Timestamp → Panic Charger
  on_message c frame time = do c' ← on_request c frame; on_battery c' frame time

  -- `self.last_soc.map(|s| s >= 100.0).unwrap_or(false)`
  abbrev pub full : Charger → Bool
  full c = elim c.last_soc [ none ↦ false | some soc ↦ le (literal (pos 100) 0) soc ]

  unfoldable pub next_state : Charger → Timestamp → String
  unfolding battery_fresh
  next_state c time =
      if c.charge_request
      then if battery_fresh c time then (if full c then "COMPLETE" else "CHARGING") else "FAULT"
      else "IDLE"

  -- The state is computed at every tick, and sent when the period is over.
  unfoldable pub update : Charger → Timestamp → List CanFrame → Panic (Charger × List CanFrame)
  update c time out =
      let c' = record c { state = next_state c time } in
      let sent : Panic (List CanFrame) =
        elim (c.status.physical_for_symbol "state" (next_state c time)) [
          | none ↦ some out
          | some value ↦
              push_frame c.status.id (c.status.encode_signals (("state", value) ∷ [])) out
        ] in
      if ltb time c.next
      then some (c', out)
      else do out' ← sent; next ← add_u64 time c.period; some (record c' { next = next }, out')
