-- ===== src/Firmware/CanNode/Stop.antt =====
-- What the node of firmware/canopen-controller/src/lib.rs sends once it is stopped.
use mathlib.Core.List.{append_assoc}
use embrig.Prelude.{
  ℕ, ap, ◌^◌, ◌+◌, ◌≤◌, ◌<◌, ◌≡◌, refl, sym, subst, true, false, eqb, leb, le→leb, String, List, [],
  ◌∷◌, ◌++◌, some, arith, All, Bool-cases, inl, inr,
}
use embrig.Prelude.Int.{pos}
use embrig.Prelude.Fallible.{Fallible, ok, err, panic, if_ok}
use embrig.Prelude.Panic.{Panic, ◌>>=◌, >>=-eq-some, some_inj, add_u64_lem}
use embrig.Core.Frame.{CanFrame}
use embrig.Core.Float.{Float}
use embrig.Dbc.Codec.{CodecError}
use embrig.Canopen.{nmt, rpdo1, tpdo1, heartbeat, hb_stopped, nmt_stop}
use embrig.Canopen.Values.{as_u8}
use embrig.Canopen.Node.{CanOpenCodec, message_by_id}
use embrig.Canopen.Nmt
use embrig.Firmware.CanNode.{
  CanOpenControllerFirmware, on_message, on_nmt, on_command, on_rpdo, on_temperature, make_frame,
  update, send_tpdo, send_heartbeat,
}

module _ (float : Float) (to_string : CodecError → String)
    (node : CanOpenCodec float to_string) where
  open float use {R, literal, of_i64, round_i64}

  abbrev Node : Type 0
  Node = CanOpenControllerFirmware float to_string node

  -- The node after a list of frames, each with the time of its arrival, the first of them first.
  unfoldable pub hear : List (CanFrame × ℕ) → Node → Panic Node
  hear [] f = some f
  hear ((frame, time) ∷ frames) f = do
    f' ← on_message float to_string node f frame time
    hear frames f'

  abbrev pub stop_frame : CanFrame
  stop_frame = record { id = nmt; payload = node.node ∷ nmt_stop ∷ []; ts = 0; extended = false }

  -- The node in the stopped state, with a temperature.
  abbrev stopped : Node → R → Node
  stopped f t = record f { state = hb_stopped; temperature = t }

  hear_stop :
      (f : Node) (time : ℕ)
      → ((k : ℕ) → k < 256 → as_u8 (round_i64 (of_i64 (pos k))) ≡ k)
      → node.node < 256
      → message_by_id float to_string node nmt ≡ some (Nmt.codec float nmt)
      → on_message float to_string node f stop_frame time ≡ some (stopped f f.temperature)
  unfolding on_message on_nmt on_command Nmt.codec Nmt.decode_signal
  hear_stop f time exact small found =
      rw (found, exact node.node small, exact nmt_stop (omega arith), same node.node) refl
    where
      same : (a : ℕ) → eqb a a ≡ true
      same a = ground arith

  decoded-stopped :
      {Failure : Type 0} (r : Fallible Failure R) (f g : Node) (t : R)
      → if_ok r
          (λ read. some (on_temperature float to_string node (stopped f t) read))
          (some (stopped f t))
        ≡ some g
      → (u : R) × (g ≡ stopped f u)
  unfolding on_temperature
  decoded-stopped (ok read) f g t h = (read, sym (some_inj h))
  decoded-stopped (err e) f g t h = (t, sym (some_inj h))
  decoded-stopped panic f g t h = absurd (cc)

  -- A frame that is no command changes the temperature of a stopped node, if anything.
  on_message-stopped :
      (f g : Node) (frame : CanFrame) (time : ℕ) (t : R)
      → eqb frame.id nmt ≡ false
      → on_message float to_string node (stopped f t) frame time ≡ some g
      → (u : R) × (g ≡ stopped f u)
  unfolding on_message on_rpdo
  on_message-stopped f g frame time t other h =
      let (m, _, h1) = >>=-eq-some (message_by_id float to_string node nmt) _ h in
      elim (Bool-cases (eqb frame.id (rpdo1 node.node))) [
        | inl a ↦
            let (m', _, h2) =
              >>=-eq-some (message_by_id float to_string node (rpdo1 node.node)) _
                (rw (other, a) at h1) in
            decoded-stopped (m'.decode_signal frame.payload "temperature") f g t h2
        | inr a ↦ (t, sym (some_inj (rw (other, a) at h1)))
      ]

  hear-stopped :
      (frames : List (CanFrame × ℕ)) (f g : Node) (t : R)
      → All (λ entry. eqb entry.0.id nmt ≡ false) frames
      → hear frames (stopped f t) ≡ some g
      → (u : R) × (g ≡ stopped f u)
  unfolding hear
  hear-stopped [] f g t others h = (t, sym (some_inj h))
  hear-stopped ((frame, time) ∷ frames) f g t others h =
      let (f', heard, h') =
        >>=-eq-some (on_message float to_string node (stopped f t) frame time) (hear frames) h in
      let (u, same) = on_message-stopped f f' frame time t others.0 heard in
      hear-stopped frames f g u others.1 (subst (λ x. hear frames x ≡ some g) same h')

  module _ (frame beat : CanFrame) where
    -- An open node that is stopped sends the frame of an open valve when it is due.
    update-stopped :
        (f : Node) (now : ℕ) (out : List CanFrame) (t : R)
        → f.is_open ≡ true
        → make_frame float to_string node "TPDO1"
            (tpdo1 node.node)
            (("valve_open", literal (pos 1) 0) ∷ [])
          ≡ some frame
        → make_frame float to_string node "Heartbeat"
            (heartbeat node.node)
            (("state", of_i64 (pos hb_stopped)) ∷ [])
          ≡ some beat
        → f.next_tpdo ≤ now
        → now + f.period_us < 2 ^ 64
        → now + f.heartbeat_us < 2 ^ 64
        → (f' : Node) × (more : List CanFrame) × (update float to_string node (stopped f t) now out
            ≡ some (f', out ++ frame ∷ more))
    unfolding update send_tpdo send_heartbeat
    update-stopped f now out t is_open valve state due room room' =
        let first = add_u64_lem now f.period_us room in
        let second = add_u64_lem now f.heartbeat_us room' in
        elim (Bool-cases (leb f.next_heartbeat now)) [
          | inl beats ↦ (
            record (stopped f t) {
              is_open = true;
              next_tpdo = now + f.period_us;
              next_heartbeat = now + f.heartbeat_us;
            },
            beat ∷ [],
            rw (is_open, le→leb f.next_tpdo now due, valve, first, beats, state, second)
                (ap
                  (λ xs. some (
                    record (stopped f t) {
                      is_open = true;
                      next_tpdo = now + f.period_us;
                      next_heartbeat = now + f.heartbeat_us;
                    },
                    xs,
                  ))
                  (append_assoc out (frame ∷ []) (beat ∷ []))),
          )
          | inr waits ↦ (
            record (stopped f t) { is_open = true; next_tpdo = now + f.period_us },
            [],
            rw (le→leb f.next_tpdo now due, is_open, valve, first, waits) refl,
          )
        ]

    -- A node with an open valve that hears its stop command, with node and command in its two bytes,
    -- is stopped, and still open: whatever frames but commands it hears after that, its next update
    -- at which its process data is due sends the frame that says that the valve is open. The node
    -- is one whose id fits in a byte, whose NMT codec stands under the NMT identifier, whose
    -- conversions between bytes and `f64` are exact, whose frames can be made, and whose times fit in
    -- a u64.
    pub stop-keeps_open :
        (f g : Node) (time now : ℕ) (frames : List (CanFrame × ℕ)) (out : List CanFrame)
        → ((k : ℕ) → k < 256 → as_u8 (round_i64 (of_i64 (pos k))) ≡ k)
        → node.node < 256
        → message_by_id float to_string node nmt ≡ some (Nmt.codec float nmt)
        → f.is_open ≡ true
        → All (λ entry. eqb entry.0.id nmt ≡ false) frames
        → hear ((stop_frame, time) ∷ frames) f ≡ some g
        → make_frame float to_string node "TPDO1"
            (tpdo1 node.node)
            (("valve_open", literal (pos 1) 0) ∷ [])
          ≡ some frame
        → make_frame float to_string node "Heartbeat"
            (heartbeat node.node)
            (("state", of_i64 (pos hb_stopped)) ∷ [])
          ≡ some beat
        → f.next_tpdo ≤ now
        → now + f.period_us < 2 ^ 64
        → now + f.heartbeat_us < 2 ^ 64
        → (g.state ≡ hb_stopped)
          × (f' : Node) × (more : List CanFrame) × (update float to_string node g now out
              ≡ some (f', out ++ frame ∷ more))
    unfolding hear
    stop-keeps_open f g time now frames out exact small found is_open others heard valve state due
          room room' =
        let after =
          subst (λ r. (r >>= hear frames) ≡ some g) (hear_stop f time exact small found) heard in
        let (u, same) = hear-stopped frames f g f.temperature others after in
        let (f', more, sends) =
          subst
            (λ x.
              (f' : Node) × (more : List CanFrame) × (update float to_string node x now out
                ≡ some (f', out ++ frame ∷ more)))
            (sym same) (update-stopped f now out u is_open valve state due room room') in
        (ap (λ x. x.state) same, f', more, sends)
