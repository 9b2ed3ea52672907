-- ===== src/Core/Float.antt =====
-- `f64`, which the language of the model does not have: the operations of the program's code on it
-- are parameters. The one law is that a cast to `i64` saturates, so that its result is an `i64`.
use embrig.Prelude.{ℕ, Bool, String}
use embrig.Prelude.Int.{ℤ, IsI64}

pub record Float : Type 1 where
  pub R : Type 0
  pub add : R → R → R
  pub sub : R → R → R
  pub mul : R → R → R
  pub div : R → R → R
  pub abs : R → R
  pub le : R → R → Bool
  pub lt : R → R → Bool
  pub is_nan : R → Bool
  pub is_infinite : R → Bool
  -- `raw as f64`, and `v.round() as i64`.
  pub of_i64 : ℤ → R
  pub round_i64 : R → ℤ
  -- A decimal literal: a numerator over a power of ten.
  pub literal : ℤ → ℕ → R
  -- `format!("{v}")`, and `str::parse`.
  pub display : R → String
  -- The bits of `v as f32` and of `v`, whether the first is finite, and the values of bits.
  pub f32_bits : R → ℕ
  pub f32_is_finite : R → Bool
  pub f32_value : ℕ → R
  pub f64_bits : R → ℕ
  pub f64_value : ℕ → R
  pub round_i64-IsI64 : (v : R) → IsI64 (round_i64 v)
