-- ===== src/Core/Signal.antt =====
-- crates/embrig-core/src/signal.rs and the data of codec.rs. `R` is the type of `f64` values.
use embrig.Prelude.{String, Bool, if◌then◌else◌, Option, none, some}

pub data SignalValue (R : Type 0) : Type 0 where
  num : R → SignalValue R
  str : String → SignalValue R

module _ {R : Type 0} where
  unfoldable pub as_f64 : SignalValue R → Option R
  as_f64 (num v) = some v
  as_f64 (str s) = none

  unfoldable pub as_str : SignalValue R → Option String
  as_str (num v) = none
  as_str (str s) = some s

  -- `From<bool>`, at the values that stand for 1.0 and 0.0.
  unfoldable pub from_bool : R → R → Bool → SignalValue R
  from_bool one zero v = num (if v then one else zero)

pub record DecodedSignal (R : Type 0) : Type 0 where
  pub name : String
  pub value : R
  pub symbol : Option String
