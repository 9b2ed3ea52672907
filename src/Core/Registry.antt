-- ===== src/Core/Registry.antt =====
-- Firmware factories and step budgets: NetEcuFactory, NetRegistry and BudgetedNetEcu of
-- crates/embrig-core/src/network.rs. What a call takes of the wall clock is a parameter.
pub mod Budget
use Prim.Native.String.{◌++◌}
use embrig.Prelude.{ℕ, String, List, [], ◌∷◌, ltb, if◌then◌else◌, some, none}
use embrig.Prelude.Keys.{string_key}
use embrig.Prelude.Map.{Map, get, insert}
use embrig.Prelude.Panic.{Panic}
use embrig.Prelude.Panic as Panic
use embrig.Prelude.Fallible.{Fallible, ok, err, ◌>>=◌, or_err}
use embrig.Core.Time.{Timestamp}
use embrig.Core.Network.{NetEcu, NetEcuError, not_registered}

-- A factory makes an ECU from its name and its step budget.
abbrev pub NetEcuFactory : Type 0 → Type 0
NetEcuFactory E = String → ℕ → Fallible NetEcuError E

abbrev pub NetRegistry : Type 0 → Type 0
NetRegistry E = Map String (NetEcuFactory E)

pub record BudgetedNetEcu (E : Type 0) : Type 0 where
  pub inner : E
  pub budget_us : ℕ

abbrev join : List String → String
join [] = ""
join (s ∷ []) = s
join (s ∷ t ∷ rest) = s ++ (", " ++ join (t ∷ rest))

module _ {E : Type 0} where
  unfoldable pub new : NetRegistry E
  new = []

  unfoldable pub register : NetRegistry E → String → NetEcuFactory E → NetRegistry E
  register registry name factory = insert registry name factory

  -- The keys; a map has them in order already.
  unfoldable pub names : NetRegistry E → List String
  names [] = []
  names ((name, factory) ∷ registry) = name ∷ names registry

  unfoldable pub create : NetRegistry E → NetEcuFactory (BudgetedNetEcu E)
  unfolding names
  create registry name budget_us = do
    factory ←
        or_err (get registry name)
          (not_registered ("`" ++ (name ++ ("` (registered: " ++ (join (names registry) ++ ")")))))
    inner ← factory name budget_us
    ok (record { inner = inner; budget_us = budget_us })

-- A panic when a call took longer than the budget.
unfoldable pub check_budget : ℕ → ℕ → Panic (Unit {0})
check_budget budget_us took_us = if ltb budget_us took_us then none else some tt

module _ {R M E : Type 0} (inner : NetEcu R M E) (update_us : E → Timestamp → ℕ)
    (message_us : E → M → Timestamp → ℕ) where
  unfoldable pub budgeted : NetEcu R M (BudgetedNetEcu E)
  unfolding check_budget
  budgeted = record {
    name = λ e. inner.name e.inner;
    update = λ e time out. Panic.bind (inner.update e.inner time out) (λ (e', out').
        Panic.bind (check_budget e.budget_us (update_us e.inner time))
          (λ a. some (record e { inner = e' }, out')));
    on_message = λ e msg time. Panic.bind (inner.on_message e.inner msg time) (λ e'.
        Panic.bind (check_budget e.budget_us (message_us e.inner msg time))
          (λ a. some (record e { inner = e' })));
    set_signal = λ e id signal value.
        Panic.bind (inner.set_signal e.inner id signal value)
          (λ (e', answer). some (record e { inner = e' }, answer));
    set_field = λ e message field value.
        Panic.bind (inner.set_field e.inner message field value)
          (λ (e', answer). some (record e { inner = e' }, answer));
  }
