-- ===== src/Firmware/Controller/FailSafe.antt =====
-- The valve of firmware/controller/src/lib.rs follows the last temperature.
use embrig.Prelude.{
  ℕ, ◌≡◌, inl, inr, refl, sym, ap, subst, ◌∙◌, false, eqb, leb, String, List, [], ◌∷◌, some,
  Bool-cases,
}
use embrig.Prelude.Int.{pos}
use embrig.Prelude.Fallible.{Fallible, ok, err, panic, if_ok}
use embrig.Prelude.Panic.{Panic, ◌>>=◌, >>=-eq-some, some_inj, add_u64}
use embrig.Core.Frame.{CanFrame}
use embrig.Core.Float.{Float}
use embrig.Dbc.Types.{Network, message}
use embrig.Dbc.Codec.{decode_signal}
use embrig.Firmware.Controller.{ControllerFirmware, new, on_message, update, in_band, valve_values}
use embrig.Firmware.Sending.{make_frame}

module _ (float : Float) (network : Network float) where
  open float use {R, le, literal}

  -- A call of the simulator.
  pub data Call : Type 0 where
    message_at : CanFrame → ℕ → Call
    tick_at : ℕ → List CanFrame → Call

  unfoldable pub call :
      ControllerFirmware float network → Call → Panic (ControllerFirmware float network)
  call f (message_at frame time) = on_message float network f frame time
  call f (tick_at time out) = (update float network f time out >>= λ r. some r.0)

  abbrev pub run :
      ControllerFirmware float network → List Call → Panic (ControllerFirmware float network)
  run f [] = some f
  run f (c ∷ cs) = (call f c >>= λ f'. run f' cs)

  -- The valve is shut at the initial temperature, or open exactly when the temperature is in the
  -- band.
  pub data Follows (f : ControllerFirmware float network) : Type 0 where
    no_reading : f.is_open ≡ false → f.temperature ≡ literal (pos 0) 0 → Follows f
    reading : f.is_open ≡ in_band float network f.temperature → Follows f

  on_message-Follows :
      (f f' : ControllerFirmware float network) (frame : CanFrame) (time : ℕ)
      → Follows f
      → on_message float network f frame time ≡ some f'
      → Follows f'
  unfolding on_message
  on_message-Follows f f' frame time h e = elim (Bool-cases (eqb frame.id 0x100)) [
    | inl t ↦
        let (m, _, e') = >>=-eq-some (message float network 0x100) _ (rw t at e) in
        decoded (decode_signal float m frame.payload "temperature") e'
    | inr t ↦ subst Follows (some_inj (rw t at e)) h
  ]
    where
      decoded :
          {E : Type 0} (r : Fallible E R)
          → if_ok r
              (λ t. some (record f { temperature = t; is_open = in_band float network t }))
              (some f)
            ≡ some f'
          → Follows f'
      decoded (ok t) e = subst Follows (some_inj e) (reading refl)
      decoded (err x) e = subst Follows (some_inj e) h
      decoded panic e = absurd (cc)

  update-keeps :
      (f : ControllerFirmware float network) (r : ControllerFirmware float network × List CanFrame)
      (time : ℕ) (out : List CanFrame)
      → update float network f time out ≡ some r
      → (r.0.is_open ≡ f.is_open) × (r.0.temperature ≡ f.temperature)
  unfolding update
  update-keeps f r time out e = elim (Bool-cases (leb f.next_tx time)) [
    | inl t ↦
        let (frame, _, e1) =
          >>=-eq-some (make_frame float network 0x200 (valve_values float network f)) _
            (rw t at e) in
        let (next, _, e4) = >>=-eq-some (add_u64 time f.period_us) _ e1 in
        let same = some_inj e4 in
        (ap (λ p. p.0.is_open) (sym same), ap (λ p. p.0.temperature) (sym same))
    | inr t ↦
        let same = some_inj (rw t at e) in
        (ap (λ p. p.0.is_open) (sym same), ap (λ p. p.0.temperature) (sym same))
  ]

  call-Follows :
      (f f' : ControllerFirmware float network) (c : Call)
      → Follows f
      → call f c ≡ some f'
      → Follows f'
  unfolding call
  call-Follows f f' (message_at frame time) h e = on_message-Follows f f' frame time h e
  call-Follows f f' (tick_at time out) h e =
      let (r, e1, e2) = >>=-eq-some (update float network f time out) _ e in
      let (o, t) = update-keeps f r time out e1 in subst Follows (some_inj e2) (kept r.0 o t h)
    where
      kept :
          (g : ControllerFirmware float network)
          → g.is_open ≡ f.is_open
          → g.temperature ≡ f.temperature
          → Follows f
          → Follows g
      kept g o t (no_reading shut zero) = no_reading (o ∙ shut) (t ∙ zero)
      kept g o t (reading follows) = reading (o ∙ follows ∙ ap (in_band float network) (sym t))

  run-Follows :
      (f f' : ControllerFirmware float network) (cs : List Call)
      → Follows f
      → run f cs ≡ some f'
      → Follows f'
  run-Follows f f' [] h e = subst Follows (some_inj e) h
  run-Follows f f' (c ∷ cs) h e =
      let (g, e1, e2) = >>=-eq-some (call f c) _ e in
      run-Follows g f' cs (call-Follows f g c h e1) e2

  -- Whatever messages and ticks the controller has handled since it was made, without a panic,
  -- either the valve is shut and the temperature is still the initial 0, or the valve is open exactly
  -- when the stored temperature is in the band from 10 to 90.
  pub run-new-Follows :
      (name : String) (f : ControllerFirmware float network) (cs : List Call)
      → run (new float network name) cs ≡ some f
      → Follows f
  unfolding new
  run-new-Follows name f cs e = run-Follows (new float network name) f cs (no_reading refl refl) e
