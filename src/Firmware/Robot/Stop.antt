-- ===== src/Firmware/Robot/Stop.antt =====
-- The emergency stop and the over-speed fault of firmware/robot/src/lib.rs.
use embrig.Prelude.{
  ℕ, ◌≡◌, ◌≢◌, refl, sym, ap, ◌∙◌, true, false, eqb, List, [], ◌∷◌, some, arith, All, Bool-cases,
  inl, inr,
}
use embrig.Prelude.Int.{pos}
use embrig.Prelude.Fallible.{Fallible, ok, err, panic, if_ok}
use embrig.Prelude.Panic.{Panic, ◌>>=◌, >>=-eq-some, some_inj}
use embrig.Core.Frame.{CanFrame}
use embrig.Core.Float.{Float}
use embrig.Dbc.Types.{Network, message}
use embrig.Dbc.Codec.{decode_signal}
use embrig.Firmware.Robot.{RobotFirmware, behaviour, on_joystick, on_message}

another : (a b : ℕ) → a ≢ b → eqb a b ≡ false
another a b ne = ground arith

module _ (float : Float) (network : Network float) where
  open float use {R, abs, lt, literal}

  abbrev pub receive_all :
      RobotFirmware float network → List (CanFrame × ℕ) → Panic (RobotFirmware float network)
  receive_all f [] = some f
  receive_all f ((frame, time) ∷ rest) = do
    f' ← on_message float network f frame time
    receive_all f' rest

  if_ok-estop :
      {E A : Type 0} (r : Fallible E A) (g : A → RobotFirmware float network)
      (f f' : RobotFirmware float network)
      → ((a : A) → (g a).estop ≡ f.estop)
      → if_ok r (λ a. some (g a)) (some f) ≡ some f'
      → f'.estop ≡ f.estop
  if_ok-estop (ok a) g f f' k h = ap (λ u. u.estop) (sym (some_inj h)) ∙ k a
  if_ok-estop (err e) g f f' k h = ap (λ u. u.estop) (sym (some_inj h))
  if_ok-estop panic g f f' k h = absurd (cc)

  on_joystick-estop :
      (f f' : RobotFirmware float network) (bytes : List ℕ)
      → on_joystick float network f bytes ≡ some f'
      → f'.estop ≡ f.estop
  unfolding on_joystick
  on_joystick-estop f f' bytes h =
      let (m, _, h1) = >>=-eq-some (message float network 0x100) _ h in
      let (g, e, h2) =
        >>=-eq-some
          (if_ok (decode_signal float m bytes "speed")
            (λ speed. some (record f { speed_cmd = speed })) (some f))
          _ h1 in
      if_ok-estop (decode_signal float m bytes "steer") (λ steer. record g { steer_cmd = steer }) g
        f' (λ a. refl) h2
      ∙ if_ok-estop (decode_signal float m bytes "speed") (λ speed. record f { speed_cmd = speed })
          f g (λ a. refl) e

  on_message-estop :
      (f f' : RobotFirmware float network) (frame : CanFrame) (time : ℕ)
      → frame.id ≢ 0x110
      → on_message float network f frame time ≡ some f'
      → f'.estop ≡ f.estop
  unfolding on_message
  on_message-estop f f' frame time other h = elim (Bool-cases (eqb frame.id 0x100)) [
    | inl a ↦ on_joystick-estop f f' frame.payload (rw a at h)
    | inr a ↦ ap (λ u. u.estop) (sym (some_inj (rw (a, another frame.id 0x110 other) at h)))
  ]

  receive_all-estop :
      (f f' : RobotFirmware float network) (frames : List (CanFrame × ℕ))
      → All (λ r. r.0.id ≢ 0x110) frames
      → receive_all f frames ≡ some f'
      → f'.estop ≡ f.estop
  receive_all-estop f f' [] other h = ap (λ u. u.estop) (sym (some_inj h))
  receive_all-estop f f' ((frame, time) ∷ rest) other h =
      let (g, e, h') = >>=-eq-some (on_message float network f frame time) _ h in
      receive_all-estop g f' rest other.1 h' ∙ on_message-estop f g frame time other.0 e

  -- Once the emergency stop is on, whatever frames arrive that are not emergency-stop frames, the
  -- rover is in the stopped state with both wheel speeds zero.
  pub estop_holds :
      (f f' : RobotFirmware float network) (frames : List (CanFrame × ℕ))
      → f.estop ≡ true
      → All (λ r. r.0.id ≢ 0x110) frames
      → receive_all f frames ≡ some f'
      → behaviour float network f' ≡ ("ESTOP", literal (pos 0) 0, literal (pos 0) 0)
  unfolding behaviour
  estop_holds f f' frames on other received =
      rw (receive_all-estop f f' frames other received ∙ on) refl
