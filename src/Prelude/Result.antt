-- ===== src/Prelude/Result.antt =====
-- `Result<A, E>`, with the chain that `?` makes.
use mathlib.Core.Option.{Option, none, some}

pub data Result {ℓ κ} (E : Type κ) (A : Type ℓ) : Type (ℓ ⊔ κ) where
  ok : A → Result E A
  err : E → Result E A

infixl 5 ◌>>=◌
abbrev pub ◌>>=◌ {ℓ κ μ} :
    {E : Type μ} {A : Type ℓ} {B : Type κ} → Result E A → (A → Result E B) → Result E B
err failure >>= next = err failure
ok value >>= next = next value

abbrev pub map {ℓ κ μ} : {E : Type μ} {A : Type ℓ} {B : Type κ} → (A → B) → Result E A → Result E B
map f (ok a) = ok (f a)
map f (err e) = err e

abbrev pub map_err {ℓ κ μ} :
    {E : Type μ} {D : Type κ} {A : Type ℓ} → (E → D) → Result E A → Result D A
map_err f (ok a) = ok a
map_err f (err e) = err (f e)

abbrev pub ok_or {ℓ μ} : {E : Type μ} {A : Type ℓ} → Option A → E → Result E A
ok_or none e = err e
ok_or (some a) e = ok a
