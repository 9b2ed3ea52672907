-- ===== src/Models/Vehicle/Safety.antt =====
-- The safety decision of the vehicle controller (crates/embrig-models/src/ecus.rs): when the motor
-- is enabled, and what is sent.
use embrig.Prelude.{
  ℕ, ◌+◌, ◌*◌, ◌≤◌, ◌<◌, ◌≡◌, ◌≢◌, ◌↔◌, inl, inr, refl, sym, ap, subst, arith, Bool, true, false,
  not, ◌&&◌, ltb, String, List, [], ◌∷◌, ◌++◌, Option, some, none, length, Bool-cases, Option-cases,
}
use embrig.Prelude.Keys.{string_key, ==_iff}
use embrig.Prelude.Int.{pos}
use embrig.Prelude.Fallible.{ok}
use embrig.Prelude.Panic.{some_inj, add_u64_lem, u64_mod}
use embrig.Core.Frame.{CanFrame}
use embrig.Core.Float.{Float}
use embrig.Models.Sending.{fresh_iff, push_frame-ok, fresh}
use embrig.Models.Vehicle.{
  VehicleController, is_symbol, is_bool, voltage_ok, enables, battery_fresh, charger_ok, update,
}

is_symbol_iff : (o : Option String) (name : String) → (is_symbol o name ≡ true) ↔ (o ≡ some name)
is_symbol_iff none name = (λ h. absurd (cc), λ e. absurd (cc))
is_symbol_iff (some s) name =
    (λ h. ap some ((==_iff s name).0 h), λ e. (==_iff s name).1 (some_inj e))

is_bool_iff : (o : Option Bool) (b : Bool) → (is_bool o b ≡ true) ↔ (o ≡ some b)
is_bool_iff none b = (λ h. absurd (cc), λ e. absurd (cc))
is_bool_iff (some true) true = (λ h. refl, λ e. refl)
is_bool_iff (some true) false = (λ h. absurd (cc), λ e. absurd (cc))
is_bool_iff (some false) true = (λ h. absurd (cc), λ e. absurd (cc))
is_bool_iff (some false) false = (λ h. refl, λ e. refl)

not_iff : (b : Bool) → (not b ≡ true) ↔ (b ≢ true)
not_iff true = (λ h. absurd (cc), λ ne. absurd (ne refl))
not_iff false = (λ h e. cc, λ ne. refl)

not_yet : (next now : ℕ) → next ≤ now → ltb now next ≡ false
not_yet next now h = ground arith

all_six :
    (a b c d e f : Bool)
    → ((a && b && c) && (d && e) && f) ≡ true
    → (a ≡ true) × (b ≡ true) × (c ≡ true) × (d ≡ true) × (e ≡ true) × (f ≡ true)
all_six a b c d e f h = ground arith

all_six_true :
    (a b c d e f : Bool)
    → a ≡ true
    → b ≡ true
    → c ≡ true
    → d ≡ true
    → e ≡ true
    → f ≡ true
    → ((a && b && c) && (d && e) && f) ≡ true
all_six_true a b c d e f h1 h2 h3 h4 h5 h6 = ground arith

module _ (float : Float) where
  open float use {R, le, lt, literal, round_i64}

  -- The battery is ready at no more than 450 V and was seen within 300 ms, the driver requests
  -- drive with the brake released, and the charger reported no fault.
  pub record IsSafe (v : VehicleController float) (now : ℕ) : Type 0 where
    pub ready : v.battery_state ≡ some "READY"
    pub volts : (x : R) × (v.battery_voltage ≡ some x) × (le x (literal (pos 450) 0) ≡ true)
    pub seen : (t : ℕ) × (v.last_battery ≡ some t) × (now ≤ t + 300 * 1000)
    pub drive : v.drive_enabled ≡ some true
    pub brake : v.brake_pressed ≡ some false
    pub charger : v.charger_state ≢ some "FAULT"

  voltage_ok_iff :
      (v : VehicleController float)
      → (voltage_ok float v ≡ true)
        ↔ ((x : R) × (v.battery_voltage ≡ some x) × (le x (literal (pos 450) 0) ≡ true))
  voltage_ok_iff v = elim (Option-cases v.battery_voltage) [
    | inl e ↦ rw (voltage_ok, e) (λ h. absurd (cc), λ (x, e', h). absurd (cc))
    | inr (x, e) ↦
        rw (voltage_ok, e)
          (
            λ h. (x, refl, h),
            λ (y, e', h). subst (λ z. le z (literal (pos 450) 0) ≡ true) (sym (some_inj e')) h,
          )
  ]

  -- The motor is enabled exactly when the battery is READY at no more than 450 V and was seen at most
  -- 300 ms ago, the driver requests drive with the brake released, and the charger did not report
  -- FAULT.
  pub enables_iff :
      (v : VehicleController float) (now : ℕ) → (enables float v now ≡ true) ↔ IsSafe v now
  unfolding enables battery_fresh charger_ok
  enables_iff v now = (
    λ h.
        let (a, b, c, d, e, f) =
          all_six _ _ (fresh v.last_battery 300 now) _ _ (charger_ok float v) h in
        record {
          ready = (is_symbol_iff v.battery_state "READY").0 a;
          volts = (voltage_ok_iff v).0 b;
          seen = (fresh_iff v.last_battery 300 now).0 c;
          drive = (is_bool_iff v.drive_enabled true).0 d;
          brake = (is_bool_iff v.brake_pressed false).0 e;
          charger = λ at.
              (not_iff (is_symbol v.charger_state "FAULT")).0 f
                ((is_symbol_iff v.charger_state "FAULT").1 at);
        },
    λ s.
        all_six_true _ _ _ _ _ _ ((is_symbol_iff v.battery_state "READY").1 s.ready)
          ((voltage_ok_iff v).1 s.volts) ((fresh_iff v.last_battery 300 now).1 s.seen)
          ((is_bool_iff v.drive_enabled true).1 s.drive)
          ((is_bool_iff v.brake_pressed false).1 s.brake)
          ((not_iff (is_symbol v.charger_state "FAULT")).1
            (λ at. s.charger ((is_symbol_iff v.charger_state "FAULT").0 at))),
  )

  -- The frame with the given data, as the controller sends it.
  abbrev pub enable_frame : VehicleController float → List ℕ → CanFrame
  enable_frame v bytes = record { id = v.enable.id; payload = bytes; ts = 0; extended = false }

  -- When the period is over and the conditions do not hold, the controller sends the encoding of
  -- 0, provided that it encodes in a frame and the clock does not overflow.
  pub update_unsafe :
      (v : VehicleController float) (now : ℕ) (out : List CanFrame) (off : List ℕ)
      → v.next ≤ now
      → now + v.period < u64_mod
      → v.enable.encode_signals (("motor_enable", literal (pos 0) 0) ∷ []) ≡ ok off
      → length off ≤ 8
      → (IsSafe v now → ⊥)
      → update float v now out
        ≡ some (record v { next = now + v.period }, out ++ enable_frame v off ∷ [])
  unfolding update
  update_unsafe v now out off due room e fits danger = elim (Bool-cases (enables float v now)) [
    | inl on ↦ absurd (danger ((enables_iff v now).0 on))
    | inr off_now ↦
        rw
          (
            not_yet v.next now due,
            off_now,
            push_frame-ok v.enable.id _ off out e fits,
            add_u64_lem now v.period room,
          )
          refl
  ]
