-- ===== src/Core/Registry/Budget.antt =====
-- Registered firmware runs under its budget (crates/embrig-core/src/network.rs).
use embrig.Prelude.{
  ℕ, String, List, ltb, if◌then◌else◌, some, none, ◌≡◌, refl, Bool-cases, inl, inr,
}
use embrig.Prelude.Keys.{string_key, ◌==◌, ==_refl}
use embrig.Prelude.Map.{get, get-insert}
use embrig.Prelude.Fallible.{Fallible, ok, ◌>>=◌}
use embrig.Core.Time.{Timestamp}
use embrig.Core.Network.{NetEcu, NetEcuError}
use embrig.Core.Registry.{
  NetEcuFactory, NetRegistry, BudgetedNetEcu, register, create, budgeted, check_budget,
}

-- The ECU that a factory makes, or its error, under the budget.
abbrev pub wrapped :
    {E : Type 0} → ℕ → Fallible NetEcuError E → Fallible NetEcuError (BudgetedNetEcu E)
wrapped budget_us made = made >>= λ e. ok (record { inner = e; budget_us = budget_us })

module _ {E : Type 0} where
  -- What is created under a name is what the factory last registered under it makes, in the step budget
  -- asked for; the factories under other names stay.
  pub create-register :
      (registry : NetRegistry E) (name other : String) (factory known : NetEcuFactory E)
      (budget_us : ℕ)
      → get registry other ≡ some known
      → (create (register registry name factory) name budget_us
          ≡ wrapped budget_us (factory name budget_us))
        × (create (register registry name factory) other budget_us ≡ (
            if name == other
            then wrapped budget_us (factory other budget_us)
            else create registry other budget_us))
  unfolding create register
  create-register registry name other factory known budget_us found = (
    rw (create, get-insert registry name name factory, ==_refl name) refl,
    elim (Bool-cases (name == other)) [
      | inl same ↦ rw (create, get-insert registry name other factory, same) refl
      | inr apart ↦ rw (create, get-insert registry name other factory, apart, found) refl
    ],
  )

module _ {R M E : Type 0} (inner : NetEcu R M E) (update_us : E → Timestamp → ℕ)
    (message_us : E → M → Timestamp → ℕ) where
  -- Firmware under a budget does what it does alone while each call takes at most the budget, and a call
  -- that takes longer panics.
  pub budgeted-within :
      (e e' e'' : E) (budget_us : ℕ) (time : Timestamp) (out out' : List M) (msg : M)
      → inner.update e time out ≡ some (e', out')
      → inner.on_message e msg time ≡ some e''
      → ((budgeted inner update_us message_us).update
            (record { inner = e; budget_us = budget_us })
            time
            out
          ≡ (if ltb budget_us (update_us e time)
              then none
              else some (record { inner = e'; budget_us = budget_us }, out')))
        × ((budgeted inner update_us message_us).on_message
              (record { inner = e; budget_us = budget_us })
              msg
              time
            ≡ (if ltb budget_us (message_us e msg time)
                then none
                else some (record { inner = e''; budget_us = budget_us })))
  unfolding budgeted check_budget
  budgeted-within e e' e'' budget_us time out out' msg updates handles = (
    elim (Bool-cases (ltb budget_us (update_us e time))) [
      | inl over ↦ rw (updates, over) refl
      | inr within ↦ rw (updates, within) refl
    ],
    elim (Bool-cases (ltb budget_us (message_us e msg time))) [
      | inl over ↦ rw (handles, over) refl
      | inr within ↦ rw (handles, within) refl
    ],
  )
