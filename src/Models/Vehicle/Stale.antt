-- ===== src/Models/Vehicle/Stale.antt =====
-- The vehicle controller (crates/embrig-models/src/ecus.rs) without messages from the battery.
use embrig.Prelude.{
  ℕ, ◌+◌, ◌*◌, ◌≤◌, ◌<◌, ◌≡◌, ◌≢◌, refl, sym, subst, ◌∙◌, arith, Bool, true, false, eqb,
  if◌then◌else◌, List, [], ◌∷◌, ◌++◌, some, length, All,
}
use embrig.Prelude.Keys.{string_key}
use embrig.Prelude.Int.{pos}
use embrig.Prelude.Fallible.{Fallible, ok, err, panic, if_ok}
use embrig.Prelude.Panic.{Panic, ◌>>=◌, >>=-eq-some, some_inj, u64_mod}
use embrig.Core.Frame.{CanFrame}
use embrig.Core.Float.{Float}
use embrig.Models.Vehicle.{known, VehicleController, on_message, update}
use embrig.Models.Vehicle.Safety.{update_unsafe, enable_frame}

another : (a b : ℕ) → a ≢ b → eqb a b ≡ false
another a b ne = ground arith

module _ (float : Float) where
  open float use {R, le, lt, literal, round_i64}

  -- The controller after a list of frames with their times.
  abbrev pub receive_all :
      VehicleController float → List (CanFrame × ℕ) → Panic (VehicleController float)
  receive_all v [] = some v
  receive_all v ((frame, time) ∷ rest) = do v' ← on_message float v frame time; receive_all v' rest

  -- What a frame that is not from the battery leaves alone.
  record Keeps (v v' : VehicleController float) : Type 0 where
    battery : v'.battery ≡ v.battery
    enable : v'.enable ≡ v.enable
    last_battery : v'.last_battery ≡ v.last_battery
    next : v'.next ≡ v.next
    period : v'.period ≡ v.period

  unchanged : (v : VehicleController float) → Keeps v v
  unchanged v = record {
    battery = refl;
    enable = refl;
    last_battery = refl;
    next = refl;
    period = refl;
  }

  if_ok-Keeps :
      {E A : Type 0} (r : Fallible E A) (f : A → VehicleController float)
      (v v' : VehicleController float)
      → ((a : A) → Keeps v (f a))
      → if_ok r (λ a. some (f a)) (some v) ≡ some v'
      → Keeps v v'
  if_ok-Keeps (ok a) f v v' k h = subst (Keeps v) (some_inj h) (k a)
  if_ok-Keeps (err e) f v v' k h = subst (Keeps v) (some_inj h) (unchanged v)
  if_ok-Keeps panic f v v' k h = absurd (cc)

  branches :
      (b : Bool) (x y : Panic (VehicleController float)) {P : Type 0} (v' : VehicleController float)
      → (x ≡ some v' → P)
      → (y ≡ some v' → P)
      → (if b then x else y) ≡ some v'
      → P
  branches true x y v' f g h = f h
  branches false x y v' f g h = g h

  on_message-Keeps :
      (v v' : VehicleController float) (frame : CanFrame) (time : ℕ)
      → frame.id ≢ v.battery.id
      → on_message float v frame time ≡ some v'
      → Keeps v v'
  unfolding on_message
  on_message-Keeps v v' frame time other h =
      branches (eqb frame.id v.brake.id) _ _ v'
        (if_ok-Keeps _ (λ x. record v { brake_pressed = some (lt (literal (pos 5) 1) x) }) v v'
          (λ a. record {
            battery = refl;
            enable = refl;
            last_battery = refl;
            next = refl;
            period = refl;
          }))
        (branches (eqb frame.id v.driver.id) _ _ v'
          (if_ok-Keeps _ (λ x. record v { drive_enabled = some (lt (literal (pos 5) 1) x) }) v v'
            (λ a. record {
              battery = refl;
              enable = refl;
              last_battery = refl;
              next = refl;
              period = refl;
            }))
          (branches (eqb frame.id v.charger.id) _ _ v'
            (if_ok-Keeps _
              (λ s. record v {
                charger_state =
                    known ("IDLE" ∷ "CHARGING" ∷ "COMPLETE" ∷ "FAULT" ∷ [])
                      (v.charger.symbol_for "state" (round_i64 s));
              })
              v v'
              (λ a. record {
                battery = refl;
                enable = refl;
                last_battery = refl;
                next = refl;
                period = refl;
              }))
            (λ e. subst (Keeps v) (some_inj e) (unchanged v))))
        (rw (another frame.id v.battery.id other) at h)

  receive_all-Keeps :
      (v v' : VehicleController float) (frames : List (CanFrame × ℕ))
      → All (λ f. f.0.id ≢ v.battery.id) frames
      → receive_all v frames ≡ some v'
      → Keeps v v'
  receive_all-Keeps v v' [] other h = subst (Keeps v) (some_inj h) (unchanged v)
  receive_all-Keeps v v' ((frame, time) ∷ rest) other h =
      let (u, e, h') = >>=-eq-some (on_message float v frame time) _ h in
      let k = on_message-Keeps v u frame time other.0 e in
      let l =
        receive_all-Keeps u v' rest
          (subst (λ c. All (λ f. f.0.id ≢ c.id) rest) (sym k.battery) other.1) h' in
      record {
        battery = l.battery ∙ k.battery;
        enable = l.enable ∙ k.enable;
        last_battery = l.last_battery ∙ k.last_battery;
        next = l.next ∙ k.next;
        period = l.period ∙ k.period;
      }

  -- Once no battery message has arrived for more than 300 ms, whatever other frames were handled
  -- since, an update whose period is over sends the encoding of 0 as its one frame, provided that it
  -- encodes in at most eight bytes and the clock does not overflow.
  pub update_stale :
      (v v' : VehicleController float) (t now : ℕ) (frames : List (CanFrame × ℕ))
      (out : List CanFrame) (off : List ℕ)
      → v.last_battery ≡ some t
      → All (λ f. f.0.id ≢ v.battery.id) frames
      → receive_all v frames ≡ some v'
      → t + 300 * 1000 < now
      → v.next ≤ now
      → now + v.period < u64_mod
      → v.enable.encode_signals (("motor_enable", literal (pos 0) 0) ∷ []) ≡ ok off
      → length off ≤ 8
      → update float v' now out
        ≡ some (record v' { next = now + v'.period }, out ++ enable_frame float v' off ∷ [])
  update_stale v v' t now frames out off seen other received stale due room e fits =
      let k = receive_all-Keeps v v' frames other received in
      update_unsafe float v' now out off (subst (λ n. n ≤ now) (sym k.next) due)
        (subst (λ p. now + p < u64_mod) (sym k.period) room)
        (subst (λ c. c.encode_signals (("motor_enable", literal (pos 0) 0) ∷ []) ≡ ok off)
          (sym k.enable) e)
        fits
        (λ safe.
          let (t', at, h) = safe.seen in
          absurd (omega (arith, h, stale, some_inj (sym at ∙ k.last_battery ∙ seen))))
