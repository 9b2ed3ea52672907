-- ===== src/Canopen/Values.antt =====
-- What the heartbeat and NMT messages of crates/embrig-canopen/src/codec.rs share.
use Prim.Native.Nat.{min}
use embrig.Prelude.{ℕ, ◌<◌, Bool, ◌&&◌, String, List, Option, none, some, find, arith}
use embrig.Prelude.Keys.{◌==◌, string_key}
use embrig.Prelude.Int.{ℤ, pos, negsuc}
use embrig.Core.Float.{Float}

-- A saturating cast to `u8`, after a cast to `i64` that saturates too.
unfoldable pub as_u8 : ℤ → ℕ
as_u8 (pos n) = min n 255
as_u8 (negsuc n) = 0

pub as_u8-lt : (v : ℤ) → as_u8 v < 256
unfolding as_u8
as_u8-lt (pos n) = omega arith
as_u8-lt (negsuc n) = omega arith

module _ (float : Float) where
  open float use {R, le, literal}

  -- `(0.0..=high).contains(&value)`
  abbrev pub contains : ℕ → R → Bool
  contains high value = le (literal (pos 0) 0) value && le value (literal (pos high) 0)

  -- `values.iter().find(|(name, _)| *name == wanted).map(|(_, v)| *v)`
  abbrev pub lookup : List (String × R) → String → Option R
  lookup values wanted = elim (find (λ entry. entry.0 == wanted) values) [
    | none ↦ none
    | some entry ↦ some entry.1
  ]
