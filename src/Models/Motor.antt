-- ===== src/Models/Motor.antt =====
-- The motor of crates/embrig-models/src/ecus.rs.
use embrig.Prelude.{Bool, false, eqb, ltb, if◌then◌else◌, String, List, [], ◌∷◌, some, none}
use embrig.Prelude.Fallible.{if_ok}
use embrig.Prelude.Int.{pos}
use embrig.Prelude.Panic.{Panic, ◌>>=◌, add_u64}
use embrig.Core.Time.{Timestamp}
use embrig.Core.Frame.{CanFrame}
use embrig.Core.Float.{Float}
use embrig.Core.Codec.{MessageCodec}
use embrig.Models.Sending.{push_frame}

module _ (float : Float) where
  open float use {R, lt, literal}

  pub record Motor : Type 0 where
    pub name : String
    pub enable : MessageCodec R
    pub status : MessageCodec R
    pub period : Timestamp
    pub next : Timestamp
    pub enabled : Bool

  unfoldable pub new : String → MessageCodec R → MessageCodec R → Timestamp → Motor
  new name enable status period = record {
    name = name;
    enable = enable;
    status = status;
    period = period;
    next = 0;
    enabled = false;
  }

  unfoldable pub on_message : Motor → CanFrame → Timestamp → Panic Motor
  on_message m frame time =
      if eqb frame.id m.enable.id
      then if_ok (m.enable.decode_signal frame.payload "motor_enable")
          (λ v. some (record m { enabled = lt (literal (pos 5) 1) v })) (some m)
      else some m

  unfoldable pub update : Motor → Timestamp → List CanFrame → Panic (Motor × List CanFrame)
  update m time out =
      let state = if m.enabled then "RUNNING" else "SAFE" in
      let rpm = if m.enabled then literal (pos 3000) 0 else literal (pos 0) 0 in
      let sent : Panic (List CanFrame) = elim (m.status.physical_for_symbol "state" state) [
        | none ↦ some out
        | some value ↦
            push_frame m.status.id (m.status.encode_signals (("state", value) ∷ ("rpm", rpm) ∷ []))
              out
      ] in
      if ltb time m.next
      then some (m, out)
      else do out' ← sent; next ← add_u64 time m.period; some (record m { next = next }, out')
