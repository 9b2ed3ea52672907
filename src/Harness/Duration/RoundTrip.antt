-- ===== src/Harness/Duration/RoundTrip.antt =====
-- A duration printed with its unit reads back (crates/embrig-test/src/dsl.rs).
use text.Mathlib.TextLemmas.{append_assoc}
use native.Mathlib.Nat.{pow-suc}
use Prim.Native.Char.{Char, code}
use Prim.Native.String.append.{cons, nil}
use Prim.Native.String.{[], ◌∷◌, ◌++◌}
use embrig.Prelude.{
  ℕ, zero, suc, ◌+◌, ◌*◌, ◌/◌, ◌%◌, ◌^◌, ◌<◌, ◌≤◌, ◌≡◌, refl, sym, ap, subst, ◌∙◌, true, false,
  String, some, inl, inr, lt_or_le, lt→ltb, le→ltb, arith,
}
use embrig.Prelude.Format.{decimal, digit, print_digits}
use embrig.Prelude.Panic.{u64_mod}
use embrig.Prelude.Fallible.{ok, panic}
use embrig.Prelude.Strings.{is_whitespace, is_empty, is_ascii_digit}
use embrig.Harness.Duration.{
  trim_start, trim_end, split_digits, digits_value, parse_u64, in_unit, parse_duration,
  parse_trimmed,
}

-- A text that is the digit of a number.
record IsDigit (d : ℕ) (front : String) : Type 0 where
  symbol : Char
  is_front : (s : String) → front ++ s ≡ symbol ∷ s
  is_code : code symbol ≡ 48 + d

one_char : (c : Char) (d : ℕ) → code c ≡ 48 + d → IsDigit d (c ∷ [])
one_char c d h = record {
  symbol = c;
  is_front = λ s. cons c [] s ∙ ap (λ t. c ∷ t) (nil s);
  is_code = h;
}

digit-IsDigit : (d : ℕ) → d < 10 → IsDigit d (digit d)
unfolding digit
digit-IsDigit zero h = one_char "0" 0 refl
digit-IsDigit (suc zero) h = one_char "1" 1 refl
digit-IsDigit (suc (suc zero)) h = one_char "2" 2 refl
digit-IsDigit (suc (suc (suc zero))) h = one_char "3" 3 refl
digit-IsDigit (suc (suc (suc (suc zero)))) h = one_char "4" 4 refl
digit-IsDigit (suc (suc (suc (suc (suc zero))))) h = one_char "5" 5 refl
digit-IsDigit (suc (suc (suc (suc (suc (suc zero)))))) h = one_char "6" 6 refl
digit-IsDigit (suc (suc (suc (suc (suc (suc (suc zero))))))) h = one_char "7" 7 refl
digit-IsDigit (suc (suc (suc (suc (suc (suc (suc (suc zero)))))))) h = one_char "8" 8 refl
digit-IsDigit (suc (suc (suc (suc (suc (suc (suc (suc (suc zero))))))))) h = one_char "9" 9 refl
digit-IsDigit (suc (suc (suc (suc (suc (suc (suc (suc (suc (suc d)))))))))) h = absurd (omega arith)

is_ascii_digit-code : (c : Char) (d : ℕ) → code c ≡ 48 + d → d < 10 → is_ascii_digit c ≡ true
is_ascii_digit-code c d e h = rw e (ground arith)

digits_value-digit :
    (d n : ℕ) (rest : String)
    → d < 10
    → digits_value (digit d ++ rest) n ≡ digits_value rest (n * 10 + d)
unfolding digits_value
digits_value-digit d n rest h =
    let front = digit-IsDigit d h in
    rw (front.is_front rest, digits_value) (ap (digits_value rest) (omega (arith, front.is_code)))

-- The digits of a number before a text, read after no digits, come to the number.
digits_value-print_digits :
    (fuel n : ℕ) (rest : String)
    → n < 10 ^ fuel
    → digits_value (print_digits 10 fuel n rest) 0 ≡ digits_value rest n
unfolding print_digits
digits_value-print_digits zero n rest h = ap (digits_value rest) (omega (arith, h))
digits_value-print_digits (suc fuel) n rest h = elim (lt_or_le n 10) [
  | inl small ↦
      rw (print_digits, lt→ltb n 10 small)
        (digits_value-digit n 0 rest small ∙ ap (digits_value rest) (omega arith))
  | inr large ↦
      rw (print_digits, le→ltb n 10 large)
        (digits_value-print_digits fuel (n / 10) (digit (n % 10) ++ rest)
            (omega (arith, h, pow-suc 10 fuel))
          ∙ digits_value-digit (n % 10) (n / 10) rest (omega arith)
          ∙ ap (digits_value rest) (omega arith))
]

split_digits-digit :
    (d : ℕ) (rest : String)
    → d < 10
    → split_digits (digit d ++ rest) ≡ (digit d ++ (split_digits rest).0, (split_digits rest).1)
unfolding split_digits
split_digits-digit d rest h =
    let front = digit-IsDigit d h in
    rw
      (
        front.is_front rest,
        split_digits,
        is_ascii_digit-code front.symbol d front.is_code h,
        front.is_front (split_digits rest).0,
      )
      refl

split_digits-print_digits :
    (fuel n : ℕ) (rest : String)
    → split_digits (print_digits 10 fuel n rest)
      ≡ (print_digits 10 fuel n (split_digits rest).0, (split_digits rest).1)
unfolding print_digits
split_digits-print_digits zero n rest = refl
split_digits-print_digits (suc fuel) n rest = elim (lt_or_le n 10) [
  | inl small ↦ rw (print_digits, lt→ltb n 10 small) (split_digits-digit n rest small)
  | inr large ↦
      rw (print_digits, le→ltb n 10 large)
        (split_digits-print_digits fuel (n / 10) (digit (n % 10) ++ rest)
          ∙ ap (λ s. (print_digits 10 fuel (n / 10) s.0, s.1))
              (split_digits-digit (n % 10) rest (omega arith)))
]

print_digits-append :
    (fuel n : ℕ) (s t : String) → print_digits 10 fuel n s ++ t ≡ print_digits 10 fuel n (s ++ t)
unfolding print_digits
print_digits-append zero n s t = refl
print_digits-append (suc fuel) n s t = elim (lt_or_le n 10) [
  | inl small ↦ rw (print_digits, lt→ltb n 10 small) (append_assoc (digit n) s t)
  | inr large ↦
      rw (print_digits, le→ltb n 10 large)
        (print_digits-append fuel (n / 10) (digit (n % 10) ++ s) t
          ∙ ap (print_digits 10 fuel (n / 10)) (append_assoc (digit (n % 10)) s t))
]

-- A text that `trim_end` leaves, and to which digits may be put in front.
abbrev Solid : String → Type 0
Solid s = (c : Char) × (rest : String) × (s ≡ c ∷ rest) × (trim_end s ≡ s)

digit-Solid : (d : ℕ) (rest : String) → d < 10 → Solid rest → Solid (digit d ++ rest)
unfolding trim_end
digit-Solid d rest h (c, tail, shape, kept) =
    let front = digit-IsDigit d h in
    (front.symbol, rest, front.is_front rest, rw (front.is_front rest, trim_end, kept, shape) refl)

print_digits-Solid : (fuel n : ℕ) (rest : String) → Solid rest → Solid (print_digits 10 fuel n rest)
unfolding print_digits
print_digits-Solid zero n rest h = h
print_digits-Solid (suc fuel) n rest h = elim (lt_or_le n 10) [
  | inl small ↦ rw (print_digits, lt→ltb n 10 small) (digit-Solid n rest small h)
  | inr large ↦
      rw (print_digits, le→ltb n 10 large)
        (print_digits-Solid fuel (n / 10) (digit (n % 10) ++ rest)
          (digit-Solid (n % 10) rest (omega arith) h))
]

-- A text that begins with a digit.
abbrev Leads : String → Type 0
Leads s = (c : Char) × (rest : String) × (s ≡ c ∷ rest) × (is_ascii_digit c ≡ true)

digit-Leads : (d : ℕ) (rest : String) → d < 10 → Leads (digit d ++ rest)
digit-Leads d rest h =
    let front = digit-IsDigit d h in
    (front.symbol, rest, front.is_front rest, is_ascii_digit-code front.symbol d front.is_code h)

print_digits-Leads : (fuel n : ℕ) (rest : String) → Leads rest → Leads (print_digits 10 fuel n rest)
unfolding print_digits
print_digits-Leads zero n rest h = h
print_digits-Leads (suc fuel) n rest h = elim (lt_or_le n 10) [
  | inl small ↦ rw (print_digits, lt→ltb n 10 small) (digit-Leads n rest small)
  | inr large ↦
      rw (print_digits, le→ltb n 10 large)
        (print_digits-Leads fuel (n / 10) (digit (n % 10) ++ rest)
          (digit-Leads (n % 10) rest (omega arith)))
]

decimal-Leads : (n : ℕ) (rest : String) → Leads (print_digits 10 64 n rest)
unfolding print_digits
decimal-Leads n rest = elim (lt_or_le n 10) [
  | inl small ↦ rw (print_digits, lt→ltb n 10 small) (digit-Leads n rest small)
  | inr large ↦
      rw (print_digits, le→ltb n 10 large)
        (print_digits-Leads 63 (n / 10) (digit (n % 10) ++ rest)
          (digit-Leads (n % 10) rest (omega arith)))
]

whitespace-digit : (c : Char) → is_ascii_digit c ≡ true → is_whitespace c ≡ false
whitespace-digit c h = ground arith

trim_start-Leads : (s : String) → Leads s → trim_start s ≡ s
unfolding trim_start
trim_start-Leads s (c, rest, shape, lead) =
    rw (shape, trim_start) (rw (whitespace-digit c lead) refl)

parse_u64-Leads :
    (s : String) → Leads s → digits_value s 0 < u64_mod → parse_u64 s ≡ some (digits_value s 0)
unfolding parse_u64
parse_u64-Leads s (c, rest, shape, lead) h =
    rw (shape, parse_u64)
      (rw
        (lt→ltb (digits_value (c ∷ rest) 0) u64_mod
          (subst (λ t. digits_value t 0 < u64_mod) shape h))
        refl)

parse_duration-parts :
    (text num unit : String) (value : ℕ)
    → trim_start text ≡ text
    → trim_end text ≡ text
    → split_digits text ≡ (num, unit)
    → is_empty unit ≡ false
    → parse_u64 num ≡ some value
    → parse_duration text ≡ in_unit text value unit
unfolding parse_duration parse_trimmed
parse_duration-parts text num unit value start kept parts some_unit number =
    ap parse_trimmed (ap trim_end start ∙ kept)
    ∙ rw (parts, some_unit, number) (ap (λ s. in_unit text value s.1) parts)

decimal-append : (n : ℕ) (unit : String) → decimal n ++ unit ≡ print_digits 10 64 n unit
unfolding decimal
decimal-append n unit = print_digits-append 64 n [] unit ∙ ap (print_digits 10 64 n) (nil unit)

number : (n : ℕ) → n < u64_mod → parse_u64 (print_digits 10 64 n []) ≡ some n
unfolding digits_value
number n fits =
    let value : digits_value (print_digits 10 64 n []) 0 ≡ n =
      digits_value-print_digits 64 n [] (omega (arith, fits)) in
    parse_u64-Leads (print_digits 10 64 n []) (decimal-Leads n []) (omega (arith, value, fits))
    ∙ ap some value

-- A number below 2 ^ 64 with a unit, printed and read.
parse_duration-printed :
    (n : ℕ) (unit : String)
    → n < u64_mod
    → Solid unit
    → split_digits unit ≡ ([], unit)
    → parse_duration (decimal n ++ unit) ≡ in_unit (decimal n ++ unit) n unit
parse_duration-printed n unit fits solid none_first =
    subst (λ text. parse_duration text ≡ in_unit text n unit) (sym (decimal-append n unit))
      (parse_duration-parts (print_digits 10 64 n unit) (print_digits 10 64 n []) unit n
        (trim_start-Leads (print_digits 10 64 n unit) (decimal-Leads n unit))
        (print_digits-Solid 64 n unit solid).3
        (split_digits-print_digits 64 n unit ∙ ap (λ s. (print_digits 10 64 n s.0, s.1)) none_first)
        (rw solid.2 refl) (number n fits))

-- The units of durations, with their symbols and their microseconds.
pub data TimeUnit : Type 0 where
  microseconds micro_sign milliseconds seconds : TimeUnit

abbrev pub symbol : TimeUnit → String
symbol microseconds = "us"
symbol micro_sign = "µs"
symbol milliseconds = "ms"
symbol seconds = "s"

abbrev pub scale : TimeUnit → ℕ
scale microseconds = 1
scale micro_sign = 1
scale milliseconds = 1000
scale seconds = 1000000

-- A number below 2 ^ 64 printed before the symbol of a unit is read with that unit.
read-symbol :
    (unit : TimeUnit) (n : ℕ)
    → n < u64_mod
    → parse_duration (decimal n ++ symbol unit) ≡ in_unit (decimal n ++ symbol unit) n (symbol unit)
unfolding split_digits trim_end
read-symbol microseconds n fits = parse_duration-printed n "us" fits ("u", "s", refl, refl) refl
read-symbol micro_sign n fits = parse_duration-printed n "µs" fits ("µ", "s", refl, refl) refl
read-symbol milliseconds n fits = parse_duration-printed n "ms" fits ("m", "s", refl, refl) refl
read-symbol seconds n fits = parse_duration-printed n "s" fits ("s", "", refl, refl) refl

-- A duration printed as a number and a unit, without spaces, reads back as that many of the unit's
-- microseconds, when these fit in a u64.
pub parse_duration-decimal :
    (unit : TimeUnit) (n : ℕ)
    → n * scale unit < 2 ^ 64
    → parse_duration (decimal n ++ symbol unit) ≡ ok (n * scale unit)
unfolding in_unit
parse_duration-decimal microseconds n h =
    read-symbol microseconds n (omega (arith, h)) ∙ ap ok (omega arith)
parse_duration-decimal micro_sign n h =
    read-symbol micro_sign n (omega (arith, h)) ∙ ap ok (omega arith)
parse_duration-decimal milliseconds n h =
    read-symbol milliseconds n (omega (arith, h)) ∙ rw (lt→ltb (n * 1000) u64_mod h) refl
parse_duration-decimal seconds n h =
    read-symbol seconds n (omega (arith, h)) ∙ rw (lt→ltb (n * 1000000) u64_mod h) refl

-- A number that a u64 holds, printed with a unit of which that many microseconds are more than a u64
-- holds, is no error but a panic of the multiplication, in a build that checks it.
pub parse_duration-panics :
    (unit : TimeUnit) (n : ℕ)
    → n < 2 ^ 64
    → 2 ^ 64 ≤ n * scale unit
    → parse_duration (decimal n ++ symbol unit) ≡ panic
unfolding in_unit
parse_duration-panics microseconds n fits h = absurd (omega (arith, fits, h))
parse_duration-panics micro_sign n fits h = absurd (omega (arith, fits, h))
parse_duration-panics milliseconds n fits h =
    read-symbol milliseconds n fits ∙ rw (le→ltb (n * 1000) u64_mod h) refl
parse_duration-panics seconds n fits h =
    read-symbol seconds n fits ∙ rw (le→ltb (n * 1000000) u64_mod h) refl
