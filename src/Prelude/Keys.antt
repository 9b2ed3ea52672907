-- ===== src/Prelude/Keys.antt =====
-- Keys with a total comparison (`Ord` in Rust); only its equality case is used in proofs.
use Prim.Native.Nat.{ℕ, Ordering, compare}
use Prim.Native.String.{String, compare as compare_string}
use mathlib.Core.Path.{◌≡◌, refl, subst}
use mathlib.Core.Logic.{◌↔◌}
use mathlib.Core.Bool.{Bool, true, false}
use native.Mathlib.Omega.{arith}
use text.Mathlib.TextEquality.{path_by_compare}
use text.Mathlib.TextPositions.{compare_refl}

pub record Key {ℓ} (K : Type ℓ) : Type ℓ where
  pub cmp : K → K → Ordering
  pub cmp_iff : (a b : K) → (cmp a b ≡ Ordering.eq) ↔ (a ≡ b)

infix 50 ◌==◌
abbrev pub ◌==◌ {ℓ} : {K : Type ℓ} ⦃k : Key K⦄ → K → K → Bool
◌==◌ ⦃k⦄ a b = elim (k.cmp a b) [ Ordering.eq ↦ true | _ ↦ false ]

pub compare_iff : (a b : ℕ) → (compare a b ≡ Ordering.eq) ↔ (a ≡ b)
compare_iff a b = ground arith

pub compare_string_iff : (a b : String) → (compare_string a b ≡ Ordering.eq) ↔ (a ≡ b)
compare_string_iff a b =
    (path_by_compare a b, λ e. subst (λ c. compare_string a c ≡ Ordering.eq) e (compare_refl a))

instance abbrev pub nat_key : Key ℕ
nat_key = record { cmp = compare; cmp_iff = compare_iff }

instance abbrev pub string_key : Key String
string_key = record { cmp = compare_string; cmp_iff = compare_string_iff }

module _ {ℓ} {K : Type ℓ} ⦃k : Key K⦄ where
  pub ==_iff : (a b : K) → ((a == b) ≡ true) ↔ (a ≡ b)
  ==_iff a b = ground (arith, k.cmp_iff a b)

  pub ==_refl : (a : K) → (a == a) ≡ true
  ==_refl a = (==_iff a a).1 refl
