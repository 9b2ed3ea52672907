-- ===== src/Prelude/Map.antt =====
-- `BTreeMap` as an association list in ascending key order: a lookup finds a key, an insertion
-- keeps the order, the entries are iterated in order.
use Prim.Native.Nat.{Ordering}
use mathlib.Core.Path.{◌≡◌, refl}
use mathlib.Core.Option.{Option, none, some}
use mathlib.Core.List.{List, [], ◌∷◌}
use native.Mathlib.Omega.{arith}
use embrig.Prelude.Tests.{if◌then◌else◌}
use embrig.Prelude.Keys.{Key, ◌==◌}

abbrev pub Map {ℓ κ} : Type ℓ → Type κ → Type (ℓ ⊔ κ)
Map K V = List (K × V)

module _ {ℓ κ} {K : Type ℓ} {V : Type κ} ⦃k : Key K⦄ where
  abbrev pub get : Map K V → K → Option V
  get [] j = none
  get ((i, v) ∷ m) j = if i == j then some v else get m j

  abbrev pub insert : Map K V → K → V → Map K V
  insert [] j w = (j, w) ∷ []
  insert ((i, v) ∷ m) j w = elim (k.cmp j i) [
    | Ordering.lt ↦ (j, w) ∷ (i, v) ∷ m
    | Ordering.eq ↦ (i, w) ∷ m
    | Ordering.gt ↦ (i, v) ∷ insert m j w
  ]

  pub get-insert :
      (m : Map K V) (i j : K) (w : V) → get (insert m i w) j ≡ (if i == j then some w else get m j)
  get-insert [] i j w = refl
  get-insert ((h, v) ∷ m) i j w =
      ground (arith, get-insert m i j w, k.cmp_iff i h, k.cmp_iff h j, k.cmp_iff i j)
