-- ===== src/Prelude/Bits.antt =====
-- Laws of the bit operations on bytes and 64-bit words: testing, setting and clearing one bit.
use Prim.Native.Nat.{
  ℕ, zero, suc, ◌+◌, ◌-◌, ◌*◌, ◌/◌, ◌%◌, ◌^◌, ◌≤◌, ◌<◌, min, max, bit_and, bit_or, digits,
  bit_and-bitwise, bit_or-bitwise,
}
use mathlib.Core.Path.{◌≡◌, refl, sym, ap, ◌∙◌}
use mathlib.Core.Logic.{◌⊎◌, ◌≢◌, inl, inr}
use mathlib.Core.Bool.{Bool, true, false, not, ◌&&◌, ◌||◌}
use native.Mathlib.Nat.{
  le_refl, pow-suc, one-le-pow, mod-lt, mod-eq_of_lt, div-add-mod, mul-add-mod_self_left, mul_comm,
}
use native.Mathlib.Omega.{arith}
use embrig.Prelude.Tests.{eqb, leb, ltb, ltb→lt, if◌then◌else◌}

-- The native operations recurse on the halves with fuel: the first argument is enough of it.
module _ (rest : ℕ → ℕ) (digit : ℕ → ℕ → ℕ) where
  digits-one_more :
      (fuel x y : ℕ) → x ≤ fuel → digits rest digit (suc fuel) x y ≡ digits rest digit fuel x y
  digits-one_more fuel zero y h =
      elim fuel as (λ k. digits rest digit (suc k) 0 y ≡ digits rest digit k 0 y) [
        | zero ↦ refl
        | suc k ↦ refl
      ]
  digits-one_more zero (suc x) y h = absurd (omega arith)
  digits-one_more (suc fuel) (suc x) y h =
      rw (digits-one_more fuel (suc x / 2) (y / 2) (omega arith)) refl

  digits-more :
      (extra fuel x y : ℕ)
      → x ≤ fuel
      → digits rest digit (extra + fuel) x y ≡ digits rest digit fuel x y
  digits-more zero fuel x y h = ap (λ (k : ℕ). digits rest digit k x y) (omega arith)
  digits-more (suc extra) fuel x y h =
      ap (λ (k : ℕ). digits rest digit k x y) unfold_sum
      ∙ digits-one_more (extra + fuel) x y (omega arith)
      ∙ digits-more extra fuel x y h
    where
      unfold_sum : suc extra + fuel ≡ suc (extra + fuel)
      unfold_sum = omega arith

  half_fuel :
      (x y : ℕ) → digits rest digit x (suc x / 2) y ≡ digits rest digit (suc x / 2) (suc x / 2) y
  half_fuel x y =
      ap (λ (k : ℕ). digits rest digit k (suc x / 2) y) (omega arith)
      ∙ digits-more (x - suc x / 2) (suc x / 2) (suc x / 2) y (omega arith)

-- The lowest digit of a result, and the digits above it.
pub bit_or-halves : (x y : ℕ) → bit_or x y ≡ 2 * bit_or (x / 2) (y / 2) + max (x % 2) (y % 2)
bit_or-halves zero y = simp bit_or-bitwise (omega arith)
bit_or-halves (suc x) y = simp bit_or-bitwise (omega (arith, half_fuel (λ d. d) max x (y / 2)))

pub bit_and-halves : (x y : ℕ) → bit_and x y ≡ 2 * bit_and (x / 2) (y / 2) + min (x % 2) (y % 2)
bit_and-halves zero y = simp bit_and-bitwise (omega arith)
bit_and-halves (suc x) y = simp bit_and-bitwise (omega (arith, half_fuel (λ d. 0) min x (y / 2)))

-- Bit `i` of a word.
abbrev pub bit : ℕ → ℕ → ℕ
bit zero a = a % 2
bit (suc i) a = bit i (a / 2)

zero-bit_or : (b : ℕ) → bit_or 0 b ≡ b
zero-bit_or b = bit_or-bitwise 0 b

zero-bit_and : (b : ℕ) → bit_and 0 b ≡ 0
zero-bit_and b = bit_and-bitwise 0 b

-- With nothing on the right; `size` bounds the left side.
bit_and-nothing : (size x : ℕ) → x ≤ size → bit_and x 0 ≡ 0
bit_and-nothing zero x small = ap (λ (k : ℕ). bit_and k 0) none_left
  where
    none_left : x ≡ 0
    none_left = omega (arith, small)
bit_and-nothing (suc size) x small =
    omega (arith, bit_and-halves x 0, bit_and-nothing size (x / 2) (omega arith))

bit_or-nothing : (size x : ℕ) → x ≤ size → bit_or x 0 ≡ x
bit_or-nothing zero x small = ap (λ (k : ℕ). bit_or k 0) none_left ∙ sym none_left
  where
    none_left : x ≡ 0
    none_left = omega (arith, small)
bit_or-nothing (suc size) x small =
    omega (arith, bit_or-halves x 0, bit_or-nothing size (x / 2) (omega arith))

mul_pow_suc : (q i : ℕ) → q * 2 ^ suc i ≡ 2 * (q * 2 ^ i)
mul_pow_suc q i = omega (arith, ap (λ (t : ℕ). q * t) (pow-suc 2 i))

-- `a & (1 << i)` is bit `i` in its place.
pub bit_and_pow : (i a : ℕ) → bit_and a (2 ^ i) ≡ bit i a * 2 ^ i
bit_and_pow zero a = omega (arith, bit_and-halves a 1, bit_and-nothing (a / 2) (a / 2) (le_refl _))
bit_and_pow (suc i) a = omega (
  arith,
  bit_and-halves a (2 ^ suc i),
  pow-suc 2 i,
  mul_pow_suc (bit i (a / 2)) i,
  ap (λ (t : ℕ). bit_and (a / 2) t) half,
  bit_and_pow i (a / 2),
)
  where
    half : 2 ^ suc i / 2 ≡ 2 ^ i
    half = omega (arith, pow-suc 2 i)

-- `a | (1 << i)` adds the bit to a word below it.
pub bit_or_pow : (i a : ℕ) → a < 2 ^ i → bit_or a (2 ^ i) ≡ a + 2 ^ i
bit_or_pow zero a h = ground (arith, zero-bit_or 1)
bit_or_pow (suc i) a h =
    ground (arith, bit_or-halves a (2 ^ suc i), pow-suc 2 i, bit_or_pow i (a / 2))

pub bit-lt : (i a : ℕ) → bit i a < 2
bit-lt zero a = omega arith
bit-lt (suc i) a = bit-lt i (a / 2)

mod_double : (a m : ℕ) → 0 < m → a % (2 * m) ≡ 2 * (a / 2 % m) + a % 2
mod_double a m h =
    ap (λ (t : ℕ). t % (2 * m)) split
    ∙ mul-add-mod_self_left (2 * m) (a / 2 / m) (2 * (a / 2 % m) + a % 2)
    ∙ mod-eq_of_lt (omega (arith, mod-lt (a / 2) h))
  where
    split : a ≡ 2 * m * (a / 2 / m) + (2 * (a / 2 % m) + a % 2)
    split = omega (arith, div-add-mod (a / 2) m)

-- The low `i + 1` bits are the low `i` bits and bit `i`.
pub mod_pow_suc : (i a : ℕ) → a % 2 ^ suc i ≡ a % 2 ^ i + bit i a * 2 ^ i
mod_pow_suc zero a = omega arith
mod_pow_suc (suc i) a =
    omega (arith, double (suc i), double i, mul_pow_suc (bit i (a / 2)) i, mod_pow_suc i (a / 2))
  where
    double : (k : ℕ) → a % 2 ^ suc k ≡ 2 * (a / 2 % 2 ^ k) + a % 2
    double k =
        rw (pow-suc 2 k, mul_comm (2 ^ k) 2) (mod_double a (2 ^ k) (one-le-pow k 2 (omega arith)))

-- `byte | (1 << i)` where `v` holds, `byte & !(1 << i)` where it does not.
abbrev pub assign_bit : ℕ → ℕ → Bool → ℕ
assign_bit byte i v = if v then bit_or byte (2 ^ i) else bit_and byte (255 - 2 ^ i)

-- `byte & (1 << i) != 0`
abbrev pub test_bit : ℕ → ℕ → Bool
test_bit byte i = ltb 0 (bit_and byte (2 ^ i))

pub test_bit_zero : (i : ℕ) → test_bit 0 i ≡ false
test_bit_zero i = ground (arith, zero-bit_and (2 ^ i))

digit_cases : (b p : ℕ) → b < 2 → ((b * p ≡ 0) × (b ≡ 0)) ⊎ ((b * p ≡ p) × (b ≡ 1))
digit_cases zero p h = inl (omega arith, refl)
digit_cases (suc zero) p h = inr (omega arith, refl)
digit_cases (suc (suc b)) p h = absurd (omega arith)

pub test_bit-eq-bit : (a i : ℕ) → test_bit a i ≡ eqb (bit i a) 1
test_bit-eq-bit a i =
    ground (arith, bit_and_pow i a, one-le-pow i 2, digit_cases (bit i a) (2 ^ i) (bit-lt i a))

-- A test of the numbers under a limit, by running it on each.
every : (ℕ → Bool) → ℕ → Bool
every test zero = true
every test (suc limit) = if test limit then every test limit else false

every-at : (test : ℕ → Bool) (limit at : ℕ) → at < limit → every test limit ≡ true → test at ≡ true
unfolding every
every-at test zero at under passed = absurd (omega (arith, under))
every-at test (suc limit) at under passed = ground (arith, every-at test limit at)

abbrev eqv : Bool → Bool → Bool
eqv true b = b
eqv false b = not b

eqv→eq : (a b : Bool) → eqv a b ≡ true → a ≡ b
eqv→eq a b h = ground arith

and_true : (a b : Bool) → (a && b) ≡ true → (a ≡ true) × (b ≡ true)
and_true a b h = ground arith

or_ne : (i j : ℕ) (b : Bool) → i ≢ j → (eqb i j || b) ≡ true → b ≡ true
or_ne i j b ne h = ground arith

-- What is checked of each bit position, at every byte.
abbrev assigned : Bool → ℕ → ℕ → Bool
assigned v i byte = eqv (test_bit (assign_bit byte i v) i) v && ltb (assign_bit byte i v) 256

abbrev kept : Bool → ℕ → ℕ → ℕ → Bool
kept v i j byte = eqb i j || eqv (test_bit (assign_bit byte i v) j) (test_bit byte j)

assigned_table : (v : Bool) → every (λ i. every (assigned v i) 256) 8 ≡ true
unfolding every
assigned_table true = refl
assigned_table false = refl

kept_table : (v : Bool) → every (λ i. every (λ j. every (kept v i j) 256) 8) 8 ≡ true
unfolding every
kept_table true = refl
kept_table false = refl

module _ (v : Bool) (i byte : ℕ) (hi : i < 8) (hb : byte < 256) where
  assigned_lem : assigned v i byte ≡ true
  assigned_lem =
      every-at (assigned v i) 256 byte hb
        (every-at (λ k. every (assigned v k) 256) 8 i hi (assigned_table v))

  -- The assigned bit reads back, and the byte stays a byte.
  pub test_bit-assign_bit_self : test_bit (assign_bit byte i v) i ≡ v
  test_bit-assign_bit_self =
      eqv→eq _ _ (and_true (eqv (test_bit (assign_bit byte i v) i) v) _ assigned_lem).0

  pub assign_bit-lt : assign_bit byte i v < 256
  assign_bit-lt = ltb→lt _ _ (and_true _ (ltb (assign_bit byte i v) 256) assigned_lem).1

  -- Every other bit keeps its value.
  pub test_bit-assign_bit_ne :
      (j : ℕ) → j < 8 → i ≢ j → test_bit (assign_bit byte i v) j ≡ test_bit byte j
  test_bit-assign_bit_ne j hj ne = eqv→eq _ _ (
      or_ne i j _ ne (
        every-at (kept v i j) 256 byte hb (
          every-at (λ m. every (kept v i m) 256) 8 j hj
            (every-at (λ k. every (λ m. every (kept v k m) 256) 8) 8 i hi (kept_table v)))))

zero_of_lt : (r : ℕ) → r < 2 ^ 0 → r ≡ 0
zero_of_lt r h = omega arith

-- `r | (q << k)` where `r` fits `k` bits.
pub bit_or_high : (k q r : ℕ) → r < 2 ^ k → bit_or r (q * 2 ^ k) ≡ r + q * 2 ^ k
bit_or_high zero q r h = rw (zero_of_lt r h) (ground (arith, zero-bit_or q, zero-bit_or (q * 1)))
bit_or_high (suc k) q r h = ground (
  arith,
  bit_or-halves r (q * 2 ^ suc k),
  mul_pow_suc q k,
  pow-suc 2 k,
  bit_or_high k q (r / 2) (omega (arith, pow-suc 2 k)),
)

-- The highest bit of a word of `i + 1` bits.
pub test_bit_top : (i a : ℕ) → a < 2 ^ suc i → test_bit a i ≡ leb (2 ^ i) a
test_bit_top i a h = ground (
  arith,
  test_bit-eq-bit a i,
  mod_pow_suc i a,
  pow-suc 2 i,
  mod-lt a (one-le-pow i 2 (omega arith)),
  mod-eq_of_lt h,
  mod-eq_of_lt {n = a} {m = 2 ^ i},
  digit_cases (bit i a) (2 ^ i) (bit-lt i a),
)

suc_out : (k m : ℕ) → suc k + m ≡ suc (k + m)
suc_out k m = omega arith

pub pow-add : (k m : ℕ) → 2 ^ (k + m) ≡ 2 ^ k * 2 ^ m
pow-add zero m = ground arith
pow-add (suc k) m = omega (
  arith,
  ap (λ (t : ℕ). 2 ^ t) (suc_out k m),
  pow-suc 2 (k + m),
  pow-add k m,
  ap (λ (t : ℕ). t * 2 ^ m) (pow-suc 2 k),
)
