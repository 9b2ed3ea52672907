-- ===== src/Dbc/Codec/RoundTrip.antt =====
-- What is written into a frame reads back (crates/embrig-dbc/src/codec.rs): the value through
-- `write_signal` and `read_signal`, with the sign extended.
use Prim.Native.Nat.{bit_or}
use native.Mathlib.Nat.{mod-eq_of_lt, one-le-pow, mul-add-mod_self_right, pow-suc, pow-le-pow_right}
use native.Mathlib.Decide.{ℕ_discrete}
use embrig.Prelude.{
  ℕ, zero, suc, ◌+◌, ◌-◌, ◌*◌, ◌%◌, ◌^◌, ◌≤◌, ◌<◌, ◌≡◌, refl, sym, ap, subst, ◌∙◌, Bool, true,
  false, arith, if◌then◌else◌,
}
use embrig.Prelude.Int.{ℤ, pos, negsuc, as_u64, as_i64, IsI64, pos_part, neg_part}
use embrig.Prelude.Bits.{test_bit, test_bit_top, bit_or_high, pow-add}
use embrig.Prelude.Fallible.{Fallible, ok}
use embrig.Dbc.Codec.{CodecError, sign_extend, fits_bits}

pred_suc : (k : ℕ) → suc k - 1 ≡ k
pred_suc k = omega arith

-- 2^64 is a multiple of 2^k, for the bits above a signal of `k` bits.
above : (k : ℕ) → k ≤ 64 → 2 ^ 64 ≡ 2 ^ (64 - k) * 2 ^ k
above k h = ap (λ (t : ℕ). 2 ^ t) (split k h) ∙ pow-add (64 - k) k
  where
    split : (k : ℕ) → k ≤ 64 → 64 ≡ 64 - k + k
    split k h = omega arith

pred_mul : (a b : ℕ) → 0 < a → (a - 1) * b + b ≡ a * b
pred_mul zero b h = absurd (omega arith)
pred_mul (suc a) b h = rw (pred_suc a) (omega arith)

-- The low bits of a negative value.
low_negsuc : (k m : ℕ) → k ≤ 64 → m < 2 ^ k → (2 ^ 64 - 1 - m) % 2 ^ k ≡ 2 ^ k - 1 - m
low_negsuc k m h lt =
    ap (λ (t : ℕ). t % 2 ^ k) split
    ∙ mul-add-mod_self_right (2 ^ (64 - k) - 1) (2 ^ k) (2 ^ k - 1 - m)
    ∙ mod-eq_of_lt (omega arith)
  where
    split : 2 ^ 64 - 1 - m ≡ (2 ^ (64 - k) - 1) * 2 ^ k + (2 ^ k - 1 - m)
    split =
        omega
          (arith, above k h, pred_mul (2 ^ (64 - k)) (2 ^ k) (one-le-pow (64 - k) 2 (omega arith)))

-- A value of a signed signal of `suc k` bits, from its low bits.
sign_extend-pos :
    (k n : ℕ) → suc k < 64 → n < 2 ^ k → sign_extend (n % 2 ^ suc k) (suc k) ≡ ok (pos n)
unfolding sign_extend
sign_extend-pos k n h lt = rw (mod-eq_of_lt {n = n} {m = 2 ^ suc k} (omega (arith, pow-suc 2 k))) (
    ground (
      arith,
      ap (λ (t : ℕ). test_bit n t) (pred_suc k),
      test_bit_top k n (omega (arith, pow-suc 2 k)),
      pow-le-pow_right {n = 2} (omega arith) {i = k} {j = 62} (omega arith),
    ))

sign_extend-negsuc :
    (k m : ℕ)
    → suc k < 64
    → m < 2 ^ k
    → sign_extend ((2 ^ 64 - 1 - m) % 2 ^ suc k) (suc k) ≡ ok (negsuc m)
unfolding sign_extend
sign_extend-negsuc k m h lt = rw (low_negsuc (suc k) m (omega arith) (omega (arith, pow-suc 2 k))) (
    ground (
      arith,
      ap (λ (t : ℕ). test_bit (2 ^ suc k - 1 - m) t) (pred_suc k),
      test_bit_top k (2 ^ suc k - 1 - m) (omega (arith, pow-suc 2 k)),
      pow-suc 2 k,
      fill,
      pow-le-pow_right {n = 2} (omega arith) {i = k} {j = 62} (omega arith),
    ))
  where
    multiple : 2 ^ 64 - 2 ^ suc k ≡ (2 ^ (64 - suc k) - 1) * 2 ^ suc k
    multiple = omega (
      arith,
      above (suc k) (omega arith),
      pred_mul (2 ^ (64 - suc k)) (2 ^ suc k) (one-le-pow (64 - suc k) 2 (omega arith)),
    )

    fill : bit_or (2 ^ suc k - 1 - m) (2 ^ 64 - 2 ^ suc k) ≡ 2 ^ 64 - 1 - m
    fill =
        ap (λ (t : ℕ). bit_or (2 ^ suc k - 1 - m) t) multiple
        ∙ bit_or_high (suc k) (2 ^ (64 - suc k) - 1) (2 ^ suc k - 1 - m)
            (omega (arith, one-le-pow (suc k) 2 (omega arith)))
        ∙ omega (
          arith,
          multiple,
          pow-suc 2 k,
          pow-le-pow_right {n = 2} (omega arith) {i = k} {j = 62} (omega arith),
        )

-- A value that the width of a signal can hold.
abbrev pub Fits : ℤ → ℕ → Bool → Type 0
Fits value len is_signed = fits_bits value len is_signed ≡ ok true

-- What `read_signal` makes of the low bits of a value.
abbrev pub from_bits : ℕ → ℕ → Bool → Fallible CodecError ℤ
from_bits raw len is_signed = if is_signed then sign_extend raw len else ok (as_i64 raw)

from_bits_whole :
    (value : ℤ) (is_signed : Bool)
    → IsI64 value
    → from_bits (as_u64 value % 2 ^ 64) 64 is_signed ≡ ok value
unfolding sign_extend
from_bits_whole (pos n) false i64 = ground arith
from_bits_whole (pos n) true i64 = ground arith
from_bits_whole (negsuc m) false i64 = ground arith
from_bits_whole (negsuc m) true i64 = ground arith

-- The range of a value that fits a narrower signal.
unsigned_range :
    (value : ℤ) (len : ℕ)
    → len < 64
    → IsI64 value
    → Fits value len false
    → (n : ℕ) × (value ≡ pos n) × (n < 2 ^ len)
unfolding fits_bits
unsigned_range (pos n) len h i64 fits = (n, refl, ground (arith, one-le-pow len 2 (omega arith)))
unsigned_range (negsuc m) len h i64 fits = absurd (ground arith)

signed_range :
    (value : ℤ) (k : ℕ)
    → suc k < 64
    → Fits value (suc k) true
    → (pos_part value < 2 ^ k) × (neg_part value ≤ 2 ^ k)
unfolding fits_bits
signed_range (pos n) k h fits =
    ground (arith, ap (λ (t : ℕ). 2 ^ t) (pred_suc k), one-le-pow k 2 (omega arith))
signed_range (negsuc m) k h fits =
    ground (arith, ap (λ (t : ℕ). 2 ^ t) (pred_suc k), one-le-pow k 2 (omega arith))

from_bits_unsigned :
    (value : ℤ) (len : ℕ)
    → len < 64
    → IsI64 value
    → Fits value len false
    → from_bits (as_u64 value % 2 ^ len) len false ≡ ok value
from_bits_unsigned value len h i64 fits =
    let (n, e, lt) = unsigned_range value len h i64 fits in
    rw e (ground (arith, subst IsI64 e i64, mod-eq_of_lt {n = n} {m = 2 ^ len} lt))

from_bits_signed :
    (value : ℤ) (len : ℕ)
    → len < 64
    → IsI64 value
    → Fits value len true
    → from_bits (as_u64 value % 2 ^ len) len true ≡ ok value
from_bits_signed value zero h i64 fits = absurd (unfold fits_bits in cc)
from_bits_signed (pos n) (suc k) h i64 fits =
    let range = signed_range (pos n) k h fits in
    rw (mod-eq_of_lt {n = n} {m = 2 ^ 64} (omega arith)) (sign_extend-pos k n h range.0)
from_bits_signed (negsuc m) (suc k) h i64 fits =
    let range = signed_range (negsuc m) k h fits in
    rw (mod-eq_of_lt {n = m} {m = 2 ^ 64} (omega arith)) (sign_extend-negsuc k m h range.1)

from_bits_narrow :
    (value : ℤ) (len : ℕ) (is_signed : Bool)
    → len < 64
    → IsI64 value
    → Fits value len is_signed
    → from_bits (as_u64 value % 2 ^ len) len is_signed ≡ ok value
from_bits_narrow value len false = from_bits_unsigned value len
from_bits_narrow value len true = from_bits_signed value len

-- The low `len` bits of a value that fits give the value back, with its sign.
pub from_bits-Fits :
    (value : ℤ) (len : ℕ) (is_signed : Bool)
    → len ≤ 64
    → IsI64 value
    → Fits value len is_signed
    → from_bits (as_u64 value % 2 ^ len) len is_signed ≡ ok value
from_bits-Fits value len is_signed h i64 fits = elim (ℕ_discrete len 64) [
  | yes e ↦
      subst (λ k. from_bits (as_u64 value % 2 ^ k) k is_signed ≡ ok value) (sym e)
        (from_bits_whole value is_signed i64)
  | no ne ↦ from_bits_narrow value len is_signed (omega arith) i64 fits
]
