-- ===== src/Prelude/Fallible.antt =====
-- Code that returns a `Result` and may also panic.
use mathlib.Core.Path.{◌≡◌, refl}
use mathlib.Core.Logic.{◌⊎◌, inl, inr}
use mathlib.Core.Option.{Option, none, some}

pub data Fallible {ℓ κ} (E : Type κ) (A : Type ℓ) : Type (ℓ ⊔ κ) where
  ok : A → Fallible E A
  err : E → Fallible E A
  panic : Fallible E A

infixl 5 ◌>>=◌
abbrev pub ◌>>=◌ {ℓ κ μ} :
    {E : Type μ} {A : Type ℓ} {B : Type κ} → Fallible E A → (A → Fallible E B) → Fallible E B
panic >>= next = panic
err failure >>= next = err failure
ok value >>= next = next value

-- A value that is missing is a panic: an index, `unwrap`, a checked sum.
abbrev pub or_panic {ℓ μ} : {E : Type μ} {A : Type ℓ} → Option A → Fallible E A
or_panic none = panic
or_panic (some a) = ok a

abbrev pub or_err {ℓ μ} : {E : Type μ} {A : Type ℓ} → Option A → E → Fallible E A
or_err none e = err e
or_err (some a) e = ok a

pub ok_inj {ℓ μ} :
    {E : Type μ} {A : Type ℓ} {a b : A} → ◌≡◌ {A = Fallible E A} (ok a) (ok b) → a ≡ b
ok_inj h = cc

-- `if let Ok(value) = ...`, with what is done otherwise; a panic goes on.
abbrev pub if_ok {ℓ κ μ} :
    {E : Type μ} {A : Type ℓ} {B : Type κ} → Fallible E A → (A → Option B) → Option B → Option B
if_ok (ok value) then_do otherwise = then_do value
if_ok (err failure) then_do otherwise = otherwise
if_ok panic then_do otherwise = none

abbrev pub map_err {ℓ κ μ} :
    {E : Type μ} {D : Type κ} {A : Type ℓ} → (E → D) → Fallible E A → Fallible D A
map_err f panic = panic
map_err f (err failure) = err (f failure)
map_err f (ok value) = ok value

-- To split on a computed result and keep the equation.
pub Fallible-cases {ℓ μ} :
    {E : Type μ} {A : Type ℓ} (r : Fallible E A)
    → (r ≡ panic) ⊎ (((e : E) × (r ≡ err e)) ⊎ ((a : A) × (r ≡ ok a)))
Fallible-cases panic = inl refl
Fallible-cases (err e) = inr (inl (e, refl))
Fallible-cases (ok a) = inr (inr (a, refl))

pub >>=-eq-ok {ℓ κ μ} :
    {E : Type μ} {A : Type ℓ} {B : Type κ} (first : Fallible E A) (next : A → Fallible E B)
    {result : B}
    → (first >>= next) ≡ ok result
    → (middle : A) × (first ≡ ok middle) × (next middle ≡ ok result)
>>=-eq-ok panic next returned = absurd (cc)
>>=-eq-ok (err failure) next returned = absurd (cc)
>>=-eq-ok (ok middle) next returned = (middle, refl, returned)

pub map_err-ok {ℓ κ μ} :
    {E : Type μ} {D : Type κ} {A : Type ℓ} (f : E → D) (r : Fallible E A) (a : A)
    → ◌≡◌ {A = Fallible D A} (map_err f r) (ok a)
    → r ≡ ok a
map_err-ok f panic a h = absurd (cc)
map_err-ok f (err failure) a h = absurd (cc)
map_err-ok f (ok value) a h = cc

abbrev pub map_ok {ℓ κ μ} :
    {E : Type μ} {A : Type ℓ} {B : Type κ} → (A → B) → Fallible E A → Fallible E B
map_ok f panic = panic
map_ok f (err failure) = err failure
map_ok f (ok value) = ok (f value)

-- The chain as a function, where another `>>=` is in use.
abbrev pub bind {ℓ κ μ} :
    {E : Type μ} {A : Type ℓ} {B : Type κ} → Fallible E A → (A → Fallible E B) → Fallible E B
bind first next = first >>= next
