-- ===== src/Prelude/Strings.antt =====
-- Kinds of characters, and texts without any.
use Prim.Native.Char.{Char, code}
use Prim.Native.Nat.{ℕ}
use Prim.Native.String.{String, [], ◌∷◌}
use mathlib.Core.Bool.{Bool, true, false, ◌&&◌, ◌||◌}
use embrig.Prelude.Tests.{eqb, leb}

abbrev pub between : ℕ → ℕ → ℕ → Bool
between lo hi n = leb lo n && leb n hi

-- `char::is_whitespace`, Unicode's White_Space, by code points.
abbrev pub is_whitespace : Char → Bool
is_whitespace c =
    let n = code c in
    between 9 13 n
    || eqb n 32
    || eqb n 133
    || eqb n 160
    || eqb n 5760
    || between 8192 8202 n
    || eqb n 8232
    || eqb n 8233
    || eqb n 8239
    || eqb n 8287
    || eqb n 12288

abbrev pub is_empty : String → Bool
is_empty [] = true
is_empty (c ∷ s) = false

abbrev pub is_ascii_digit : Char → Bool
is_ascii_digit c = between 48 57 (code c)
