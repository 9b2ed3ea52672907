-- ===== src/Firmware/Controller.antt =====
-- firmware/controller/src/lib.rs: the pump controller, which opens a valve inside a temperature band.
pub mod FailSafe
use embrig.Prelude.{
  ℕ, ◌≡◌, Bool, false, ◌&&◌, eqb, leb, if◌then◌else◌, String, List, [], ◌∷◌, ◌++◌, Option, none,
  some,
}
use embrig.Prelude.Int.{pos}
use embrig.Prelude.Fallible.{if_ok}
use embrig.Prelude.Panic.{Panic, ◌>>=◌, add_u64}
use embrig.Core.Time.{Timestamp}
use embrig.Core.Frame.{CanFrame}
use embrig.Core.Float.{Float}
use embrig.Dbc.Types.{Network, message}
use embrig.Dbc.Codec.{decode_signal}
use embrig.Firmware.Sending.{make_frame}

module _ (float : Float) (network : Network float) where
  open float use {R, le, literal}

  pub record ControllerFirmware : Type 0 where
    pub name : String
    pub temperature : R
    -- `open` in the source.
    pub is_open : Bool
    pub next_tx : Timestamp
    pub period_us : ℕ

  unfoldable pub new : String → ControllerFirmware
  new name = record {
    name = name;
    temperature = literal (pos 0) 0;
    is_open = false;
    next_tx = 0;
    period_us = 50000;
  }

  -- `(10.0..=90.0).contains(&temperature)`
  abbrev pub in_band : R → Bool
  in_band t = le (literal (pos 10) 0) t && le t (literal (pos 90) 0)

  unfoldable pub on_message : ControllerFirmware → CanFrame → Timestamp → Panic ControllerFirmware
  on_message f frame time =
      let handled : Panic ControllerFirmware = (do
        m ← message float network 0x100
        if_ok (decode_signal float m frame.payload "temperature")
            (λ t. some (record f { temperature = t; is_open = in_band t })) (some f)) in
      if eqb frame.id 0x100 then handled else some f

  abbrev pub valve_values : ControllerFirmware → List (String × R)
  valve_values f = ("valve_open", if f.is_open then literal (pos 1) 0 else literal (pos 0) 0) ∷ []

  unfoldable pub update :
      ControllerFirmware → Timestamp → List CanFrame → Panic (ControllerFirmware × List CanFrame)
  update f time out =
      let sent : Panic (ControllerFirmware × List CanFrame) = (do
        frame ← make_frame float network 0x200 (valve_values f)
        next ← add_u64 time f.period_us
        some (record f { next_tx = next }, out ++ frame ∷ [])) in
      if leb f.next_tx time then sent else some (f, out)
