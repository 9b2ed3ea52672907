-- ===== src/Prelude/Format.antt =====
-- The number formats of `format!` that the program uses: `{n}`, and `{n:03X}`.
use Prim.Native.Nat.{ℕ, zero, suc, ◌/◌, ◌%◌}
use Prim.Native.String.{String, ◌++◌}
use mathlib.Core.List.{List, [], ◌∷◌}
use embrig.Prelude.Tests.{ltb, if◌then◌else◌}
use embrig.Prelude.Lists.{get_elem?}
use mathlib.Core.Option.{none, some}

abbrev hex_digits : List String
hex_digits =
    "0" ∷ "1" ∷ "2" ∷ "3" ∷ "4" ∷ "5" ∷ "6" ∷ "7" ∷ "8" ∷ "9" ∷ "A" ∷ "B" ∷ "C" ∷ "D" ∷ "E" ∷ "F"
    ∷ []

unfoldable pub digit : ℕ → String
digit d = elim (get_elem? hex_digits d) [ none ↦ "" | some s ↦ s ]

-- The digits of `n` before `acc`; a number below 2 ^ 64 has at most 64 of them in any base.
unfoldable pub print_digits : ℕ → ℕ → ℕ → String → String
print_digits base zero n acc = acc
print_digits base (suc fuel) n acc =
    let more = print_digits base fuel (n / base) (digit (n % base) ++ acc) in
    if ltb n base then digit n ++ acc else more

unfoldable pub decimal : ℕ → String
unfolding digit print_digits
decimal n = print_digits 10 64 n ""

-- Upper-case hexadecimal, padded with zeros to three places.
pub hex3 : ℕ → String
unfolding digit print_digits
hex3 n =
    let s = print_digits 16 64 n "" in
    if ltb n 16 then "00" ++ s else if ltb n 256 then "0" ++ s else s
