-- ===== src/Core/Codec.antt =====
-- crates/embrig-core/src/codec.rs: the seam between the bytes of a frame and named values. An object
-- of a trait is a record of its methods, each with the object inside; `boxed` copies the object and
-- is left out.
use embrig.Prelude.{ℕ, String, List, Option}
use embrig.Prelude.Int.{ℤ}
use embrig.Prelude.Fallible.{Fallible}
use embrig.Core.Signal.{DecodedSignal}

-- `R` is the type of `f64` values; the methods return an error text, or panic.
pub record MessageCodec (R : Type 0) : Type 0 where
  pub id : ℕ
  pub encode_signals : List (String × R) → Fallible String (List ℕ)
  pub check_value : String → R → Fallible String (Unit {0})
  pub physical_for_symbol : String → String → Option R
  pub symbol_for : String → ℤ → Option String
  pub decode_signals : List ℕ → Fallible String (List (DecodedSignal R))
  pub decode_signal : List ℕ → String → Fallible String R

pub record SignalCodec (R : Type 0) : Type 0 where
  pub message_by_id : ℕ → Option (MessageCodec R)
  pub message_by_name : String → Option (MessageCodec R)
