-- ===== src/Firmware/CanNode/States.antt =====
-- The NMT states and the valve of firmware/canopen-controller/src/lib.rs.
use embrig.Prelude.{ℕ, ◌≡◌, ◌⊎◌, inl, inr, refl, subst, eqb, String, List, some, arith, Bool-cases}
use embrig.Prelude.Fallible.{Fallible, ok, err, panic, if_ok}
use embrig.Prelude.Panic.{Panic, >>=-eq-some, some_inj}
use embrig.Core.Frame.{CanFrame}
use embrig.Core.Float.{Float}
use embrig.Dbc.Codec.{CodecError}
use embrig.Canopen.{
  nmt, rpdo1, hb_stopped, hb_operational, hb_pre_operational, nmt_start, nmt_stop,
  nmt_pre_operational,
}
use embrig.Canopen.Values.{as_u8}
use embrig.Canopen.Node.{CanOpenCodec, message_by_id}
use embrig.Firmware.CanNode.{
  CanOpenControllerFirmware, in_band, on_command, on_temperature, on_nmt, on_rpdo, on_message,
}

module _ (float : Float) (to_string : CodecError → String)
    (node : CanOpenCodec float to_string) where
  open float use {R, literal, of_i64, round_i64}

  -- What a message may do: nothing to the state and the valve; or go to a state of NMT and leave the
  -- valve; or set the valve by the temperature, in the operational state.
  pub data Moves (f f' : CanOpenControllerFirmware float to_string node) : Type 0 where
    stays : f'.state ≡ f.state → f'.is_open ≡ f.is_open → Moves f f'
    leaves_operation :
        (f'.state ≡ hb_stopped) ⊎ (f'.state ≡ hb_pre_operational)
        → f'.is_open ≡ f.is_open
        → Moves f f'
    decides :
        f'.state ≡ hb_operational
        → f'.is_open ≡ in_band float to_string node f'.temperature
        → Moves f f'

  on_command-Moves :
      (f : CanOpenControllerFirmware float to_string node) (command : ℕ)
      → Moves f (on_command float to_string node f command)
  unfolding on_command
  on_command-Moves f command = elim (Bool-cases (eqb command nmt_start)) [
    | inl a ↦ rw a (decides refl refl)
    | inr a ↦ elim (Bool-cases (eqb command nmt_stop)) [
      | inl b ↦ rw (a, b) (leaves_operation (inl refl) refl)
      | inr b ↦ elim (Bool-cases (eqb command nmt_pre_operational)) [
        | inl c ↦ rw (a, b, c) (leaves_operation (inr refl) refl)
        | inr c ↦ rw (a, b, c) (stays refl refl)
      ]
    ]
  ]

  on_temperature-Moves :
      (f : CanOpenControllerFirmware float to_string node) (t : R)
      → Moves f (on_temperature float to_string node f t)
  unfolding on_temperature
  on_temperature-Moves f t = elim (Bool-cases (eqb f.state hb_operational)) [
    | inl a ↦ rw a (decides (ground arith) refl)
    | inr a ↦ rw a (stays refl refl)
  ]

  if_ok-Moves :
      {E A : Type 0} (r : Fallible E A)
      (g : A → Panic (CanOpenControllerFirmware float to_string node))
      (f f' : CanOpenControllerFirmware float to_string node)
      → ((a : A) → g a ≡ some f' → Moves f f')
      → if_ok r g (some f) ≡ some f'
      → Moves f f'
  if_ok-Moves (ok a) g f f' k h = k a h
  if_ok-Moves (err e) g f f' k h = subst (Moves f) (some_inj h) (stays refl refl)
  if_ok-Moves panic g f f' k h = absurd (cc)

  on_nmt-Moves :
      (f f' : CanOpenControllerFirmware float to_string node) (bytes : List ℕ)
      → on_nmt float to_string node f bytes ≡ some f'
      → Moves f f'
  unfolding on_nmt
  on_nmt-Moves f f' bytes h =
      let (m, _, h1) = >>=-eq-some (message_by_id float to_string node nmt) _ h in
      if_ok-Moves (m.decode_signal bytes "node") _ f f'
        (λ id e. elim (Bool-cases (eqb (as_u8 (round_i64 id)) node.node)) [
          | inl a ↦
              if_ok-Moves (m.decode_signal bytes "command")
                (λ c. some (on_command float to_string node f (as_u8 (round_i64 c)))) f f'
                (λ c e'. subst (Moves f) (some_inj e') (on_command-Moves f (as_u8 (round_i64 c))))
                (rw a at e)
          | inr a ↦ subst (Moves f) (some_inj (rw a at e)) (stays refl refl)
        ])
        h1

  on_rpdo-Moves :
      (f f' : CanOpenControllerFirmware float to_string node) (bytes : List ℕ)
      → on_rpdo float to_string node f bytes ≡ some f'
      → Moves f f'
  unfolding on_rpdo
  on_rpdo-Moves f f' bytes h =
      let (m, _, h1) = >>=-eq-some (message_by_id float to_string node (rpdo1 node.node)) _ h in
      if_ok-Moves (m.decode_signal bytes "temperature")
        (λ t. some (on_temperature float to_string node f t)) f f'
        (λ t e. subst (Moves f) (some_inj e) (on_temperature-Moves f t)) h1

  -- A message that the node handles leaves the state and the valve alone, or moves to the stopped or
  -- the pre-operational state and leaves the valve as it was, or sets the valve by the temperature in
  -- the operational state.
  pub on_message-Moves :
      (f f' : CanOpenControllerFirmware float to_string node) (frame : CanFrame) (time : ℕ)
      → on_message float to_string node f frame time ≡ some f'
      → Moves f f'
  unfolding on_message
  on_message-Moves f f' frame time h =
      let (m, _, h1) = >>=-eq-some (message_by_id float to_string node nmt) _ h in
      elim (Bool-cases (eqb frame.id nmt)) [
        | inl a ↦ on_nmt-Moves f f' frame.payload (rw a at h1)
        | inr a ↦ elim (Bool-cases (eqb frame.id (rpdo1 node.node))) [
          | inl b ↦ on_rpdo-Moves f f' frame.payload (rw (a, b) at h1)
          | inr b ↦ subst (Moves f) (some_inj (rw (a, b) at h1)) (stays refl refl)
        ]
      ]
