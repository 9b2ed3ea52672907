-- ===== src/Prelude/Panic.antt =====
-- Code that may panic: `none` is a panic, of an index out of range, of an explicit `panic!`, or of
-- an arithmetic overflow, which the dev and test profiles check. Where the model does not panic
-- the release profile, which wraps, computes the same.
use Prim.Native.Nat.{ℕ, ◌+◌, ◌*◌, ◌^◌, ◌<◌}
use mathlib.Core.Path.{◌≡◌, refl}
use mathlib.Core.Option.{Option, none, some}
use native.Mathlib.Omega.{arith}
use embrig.Prelude.Tests.{ltb, if◌then◌else◌, lt→ltb}

abbrev pub Panic {ℓ} : Type ℓ → Type ℓ
Panic A = Option A

infixl 5 ◌>>=◌
abbrev pub ◌>>=◌ {ℓ κ} : {A : Type ℓ} {B : Type κ} → Panic A → (A → Panic B) → Panic B
none >>= f = none
some a >>= f = f a

abbrev pub u64_mod : ℕ
u64_mod = 2 ^ 64

-- u64 addition and multiplication with the overflow check.
abbrev pub add_u64 : ℕ → ℕ → Panic ℕ
add_u64 a b = if ltb (a + b) u64_mod then some (a + b) else none

abbrev pub mul_u64 : ℕ → ℕ → Panic ℕ
mul_u64 a b = if ltb (a * b) u64_mod then some (a * b) else none

pub add_u64_lem : (a b : ℕ) → a + b < u64_mod → add_u64 a b ≡ some (a + b)
add_u64_lem a b h = rw (lt→ltb _ _ h)

pub >>=-eq-some {ℓ κ} :
    {A : Type ℓ} {B : Type κ} (first : Panic A) (next : A → Panic B) {result : B}
    → (first >>= next) ≡ some result
    → (middle : A) × (first ≡ some middle) × (next middle ≡ some result)
>>=-eq-some (some middle) next returned = (middle, refl, returned)
>>=-eq-some none next returned = absurd (cc)

pub some_inj {ℓ} : {A : Type ℓ} {a b : A} → some a ≡ some b → a ≡ b
some_inj h = cc

pub add_u64_inv : (a b : ℕ) {c : ℕ} → add_u64 a b ≡ some c → (c ≡ a + b) × (c < u64_mod)
add_u64_inv a b h = ground arith

pub >>=-total {ℓ κ} :
    {A : Type ℓ} {B : Type κ} (m : Panic A) (f : A → Panic B) (a : A)
    → m ≡ some a
    → (b : B) × (f a ≡ some b)
    → (b : B) × ((m >>= f) ≡ some b)
>>=-total m f a e (b, h) = (b, rw e h)

-- The chain as a function, where another `>>=` is in use.
abbrev pub bind {ℓ κ} : {A : Type ℓ} {B : Type κ} → Panic A → (A → Panic B) → Panic B
bind m f = m >>= f
