-- ===== src/Models/Charger/States.antt =====
-- The states of the charger (crates/embrig-models/src/ecus.rs).
use embrig.Prelude.{
  ℕ, ◌+◌, ◌*◌, ◌≤◌, ◌≡◌, ◌↔◌, refl, Bool, true, false, if◌then◌else◌, String, some,
}
use embrig.Prelude.Keys.{◌==◌, string_key, ==_iff}
use embrig.Core.Float.{Float}
use embrig.Models.Sending.{fresh, fresh_iff}
use embrig.Models.Charger.{Charger, next_state, battery_fresh, full}

apart : (a b : String) → (a == b) ≡ false → a ≡ b → ⊥
apart a b unequal e = let equal = (==_iff a b).1 e in absurd (cc)

state_cases :
    (requested seen complete : Bool)
    → ◌≡◌ {A = String}
        (if requested
          then (if seen then (if complete then "COMPLETE" else "CHARGING") else "FAULT")
          else "IDLE")
        "CHARGING"
      ↔ ((requested ≡ true) × (seen ≡ true) × (complete ≡ false))
state_cases true true true =
    (λ h. absurd (apart "COMPLETE" "CHARGING" refl h), λ (a, b, d). absurd (cc))
state_cases true true false = (λ h. (refl, refl, refl), λ h. refl)
state_cases true false c = (λ h. absurd (apart "FAULT" "CHARGING" refl h), λ (a, b, d). absurd (cc))
state_cases false s c = (λ h. absurd (apart "IDLE" "CHARGING" refl h), λ (a, b, d). absurd (cc))

-- The charger charges exactly when a charge is requested, the battery was seen at most 500 ms ago,
-- and it has not reported a charge of at least 100.
pub next_state_iff :
    (float : Float) (c : Charger float) (now : ℕ)
    → ◌≡◌ {A = String} (next_state float c now) "CHARGING" ↔ (
        (c.charge_request ≡ true)
        × ((t : ℕ) × (c.last_battery ≡ some t) × (now ≤ t + 500 * 1000))
        × (full float c ≡ false))
unfolding next_state battery_fresh
next_state_iff float c now =
    let (to, from) = state_cases c.charge_request (fresh c.last_battery 500 now) (full float c) in
    let (seen, back) = fresh_iff c.last_battery 500 now in
    (λ h. let (a, b, d) = to h in (a, seen b, d), λ (a, b, d). from (a, back b, d))
