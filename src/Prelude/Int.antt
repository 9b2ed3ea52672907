-- ===== src/Prelude/Int.antt =====
-- Signed integers over the native numbers, and the casts between `i64` and `u64`.
use Prim.Native.Nat.{ℕ, suc, ◌+◌, ◌-◌, ◌*◌, ◌%◌, ◌^◌, ◌≤◌, ◌<◌, compare, Ordering}
use mathlib.Core.Path.{◌≡◌}
use mathlib.Core.Logic.{◌↔◌}
use mathlib.Core.Bool.{Bool}
use native.Mathlib.Omega.{arith}
use embrig.Prelude.Tests.{ltb, leb, if◌then◌else◌}
use embrig.Prelude.Keys.{Key}

-- `negsuc n` is -(n + 1).
pub data ℤ : Type 0 where
  pos : ℕ → ℤ
  negsuc : ℕ → ℤ

abbrev pub pos_part : ℤ → ℕ
pos_part (pos n) = n
pos_part (negsuc n) = 0

abbrev pub neg_part : ℤ → ℕ
neg_part (pos n) = 0
neg_part (negsuc n) = suc n

-- a - b, as an integer.
abbrev pub sub_ℕ : ℕ → ℕ → ℤ
sub_ℕ a b = if leb b a then pos (a - b) else negsuc (b - a - 1)

infix 50 ◌≤ℤ◌
abbrev pub ◌≤ℤ◌ : ℤ → ℤ → Type 0
a ≤ℤ b = pos_part a + neg_part b ≤ pos_part b + neg_part a

abbrev pub leb_ℤ : ℤ → ℤ → Bool
leb_ℤ a b = leb (pos_part a + neg_part b) (pos_part b + neg_part a)

infixl 65 ◌+ℤ◌ ◌-ℤ◌
infixl 70 ◌*ℤ◌
abbrev pub ◌+ℤ◌ : ℤ → ℤ → ℤ
a +ℤ b = sub_ℕ (pos_part a + pos_part b) (neg_part a + neg_part b)

abbrev pub ◌-ℤ◌ : ℤ → ℤ → ℤ
a -ℤ b = sub_ℕ (pos_part a + neg_part b) (neg_part a + pos_part b)

abbrev pub ◌*ℤ◌ : ℤ → ℤ → ℤ
a *ℤ b =
    sub_ℕ (pos_part a * pos_part b + neg_part a * neg_part b)
      (pos_part a * neg_part b + neg_part a * pos_part b)

abbrev pub compare_ℤ : ℤ → ℤ → Ordering
compare_ℤ (pos a) (pos b) = compare a b
compare_ℤ (pos a) (negsuc b) = Ordering.gt
compare_ℤ (negsuc a) (pos b) = Ordering.lt
compare_ℤ (negsuc a) (negsuc b) = compare b a

pub compare_ℤ_iff : (a b : ℤ) → (compare_ℤ a b ≡ Ordering.eq) ↔ (a ≡ b)
compare_ℤ_iff (pos a) (pos b) = ground arith
compare_ℤ_iff (pos a) (negsuc b) = ground arith
compare_ℤ_iff (negsuc a) (pos b) = ground arith
compare_ℤ_iff (negsuc a) (negsuc b) = ground arith

instance abbrev pub int_key : Key ℤ
int_key = record { cmp = compare_ℤ; cmp_iff = compare_ℤ_iff }

-- `raw as u64` and `raw as i64`: the same 64 bits.
abbrev pub as_u64 : ℤ → ℕ
as_u64 (pos n) = n % 2 ^ 64
as_u64 (negsuc n) = 2 ^ 64 - 1 - n % 2 ^ 64

abbrev pub as_i64 : ℕ → ℤ
as_i64 n = if ltb n (2 ^ 63) then pos n else negsuc (2 ^ 64 - 1 - n)

abbrev pub IsI64 : ℤ → Type 0
IsI64 v = (pos_part v < 2 ^ 63) × (neg_part v ≤ 2 ^ 63)

pub as_i64-as_u64 : (v : ℤ) → IsI64 v → as_i64 (as_u64 v) ≡ v
as_i64-as_u64 (pos n) h = ground arith
as_i64-as_u64 (negsuc n) h = ground arith

pub as_u64-as_i64 : (n : ℕ) → n < 2 ^ 64 → as_u64 (as_i64 n) ≡ n
as_u64-as_i64 n h = ground arith
