-- ===== src/Tests/Reals.antt =====
-- Whole numbers in place of `f64`, for runs of the models that compute with it.
use embrig.Prelude.{◌+◌, ◌-◌, ◌/◌, ◌^◌, false, true, ltb, if◌then◌else◌, arith}
use embrig.Prelude.Int.{ℤ, pos, negsuc, IsI64, ◌+ℤ◌, ◌-ℤ◌, ◌*ℤ◌, leb_ℤ, sub_ℕ}
use embrig.Core.Float.{Float}

-- Division towards zero; a division by zero gives zero.
abbrev pub div_ℤ : ℤ → ℤ → ℤ
div_ℤ (pos a) (pos b) = pos (a / b)
div_ℤ (pos a) (negsuc b) = sub_ℕ 0 (a / (b + 1))
div_ℤ (negsuc a) (pos b) = sub_ℕ 0 ((a + 1) / b)
div_ℤ (negsuc a) (negsuc b) = pos ((a + 1) / (b + 1))

abbrev pub abs_ℤ : ℤ → ℤ
abs_ℤ (pos a) = pos a
abs_ℤ (negsuc a) = pos (a + 1)

abbrev pub saturate : ℤ → ℤ
saturate (pos n) = if ltb n (2 ^ 63) then pos n else pos (2 ^ 63 - 1)
saturate (negsuc n) = if ltb n (2 ^ 63) then negsuc n else negsuc (2 ^ 63 - 1)

pub saturate-IsI64 : (v : ℤ) → IsI64 (saturate v)
saturate-IsI64 (pos n) = ground arith
saturate-IsI64 (negsuc n) = ground arith

abbrev pub whole : Float
whole = record {
  R = ℤ;
  add = ◌+ℤ◌;
  sub = ◌-ℤ◌;
  mul = ◌*ℤ◌;
  div = div_ℤ;
  abs = abs_ℤ;
  le = leb_ℤ;
  lt = λ a b. leb_ℤ (a +ℤ pos 1) b;
  is_nan = λ _. false;
  is_infinite = λ _. false;
  of_i64 = λ v. v;
  round_i64 = saturate;
  literal = λ n places. div_ℤ n (pos (10 ^ places));
  display = λ _. "?";
  f32_bits = λ _. 0;
  f32_is_finite = λ _. true;
  f32_value = λ n. pos n;
  f64_bits = λ _. 0;
  f64_value = λ n. pos n;
  round_i64-IsI64 = saturate-IsI64;
}
