-- ===== src/Dbc/Codec/Given.antt =====
-- The value that `encode_signals` takes for each signal: `resolve_all` of
-- crates/embrig-dbc/src/codec.rs.
use embrig.Prelude.{
  ℕ, ◌<◌, ◌≡◌, ◌≢◌, ◌⊎◌, inl, inr, refl, sym, ap, subst, ◌∙◌, Bool, true, false, not, List, [], ◌∷◌,
  some, none, arith, All, Option-cases, Bool-cases, String, find, if◌then◌else◌,
}
use embrig.Prelude.{◌-◌}
use native.Mathlib.Nat.{one-le-pow}
use embrig.Prelude.Keys.{string_key, ◌==◌, ==_iff}
use embrig.Prelude.Map.{Map, get, insert, get-insert}
use embrig.Prelude.Int.{ℤ, int_key, pos, IsI64}
use embrig.Prelude.Fallible.{Fallible, ok, err, panic, ◌>>=◌}
use embrig.Prelude.Panic.{some_inj}
use embrig.Core.Float.{Float}
use embrig.Dbc.Types.{SignalDef, MessageDef, signal}
use embrig.Dbc.Codec.{CodecError, resolve_all, physical_to_raw, fits_bits}
use embrig.Dbc.Codec.Messages.{physical_to_raw-Fits}
use embrig.Dbc.Codec.RoundTrip.{Fits}

find-All {ℓ κ} :
    {A : Type ℓ} (P : A → Type κ) (p : A → Bool) (xs : List A) {x : A}
    → All P xs
    → find p xs ≡ some x
    → P x
find-All P p [] h e = absurd (cc)
find-All P p (y ∷ xs) h e = elim (Bool-cases (p y)) [
  | inl t ↦ subst P (some_inj (rw (find, t) at e)) h.0
  | inr f ↦ find-All P p xs h.1 (rw (find, f) at e)
]

Fallible-cases {ℓ κ} :
    {E : Type κ} {A : Type ℓ} (r : Fallible E A)
    → ((a : A) × (r ≡ ok a)) ⊎ (((e : E) × (r ≡ err e)) ⊎ (r ≡ panic))
Fallible-cases (ok a) = inl (a, refl)
Fallible-cases (err e) = inr (inl (e, refl))
Fallible-cases panic = inr (inr refl)

not_panic :
    (bad : Bool) (fits : Fallible CodecError Bool) (raw : ℤ) (e e' : CodecError)
    → fits ≢ panic
    → (if bad then err e else (fits >>= λ f. if not f then err e' else ok raw)) ≢ panic
not_panic true fits raw e e' ne h = cc
not_panic false (ok true) raw e e' ne h = cc
not_panic false (ok false) raw e e' ne h = cc
not_panic false (err x) raw e e' ne h = cc
not_panic false panic raw e e' ne h = ne refl

module _ (float : Float) where
  open float use {R, is_nan, is_infinite, sub, div, round_i64, round_i64-IsI64}

  -- The raw value of a signal after a list of values: the last one given under its name that the
  -- encoder accepts.
  abbrev pub given : SignalDef float → List (String × R) → ℤ → ℤ
  given s [] last = last
  given s ((name, value) ∷ rest) last = given s rest (
      if name == s.name
      then elim (physical_to_raw float s value) [ ok raw ↦ raw | err e ↦ last | panic ↦ last ]
      else last)

  abbrev pub raw_of : Map String ℤ → SignalDef float → ℤ
  raw_of resolved s = elim (get resolved s.name) [ some raw ↦ raw | none ↦ pos 0 ]

  pub zero-Fits : (len : ℕ) (is_signed : Bool) → 0 < len → Fits (pos 0) len is_signed
  unfolding fits_bits
  zero-Fits len false h = ground (arith, one-le-pow len 2 (omega arith))
  zero-Fits len true h = ground (arith, one-le-pow (len - 1) 2 (omega arith))

  fits_bits-total :
      (v : ℤ) (len : ℕ) (is_signed : Bool) → 0 < len → fits_bits v len is_signed ≢ panic
  unfolding fits_bits
  fits_bits-total v len is_signed h = ground arith

  -- The encoder of a value returns a value or an error.
  pub physical_to_raw-total :
      (s : SignalDef float) (value : R) → 0 < s.length → physical_to_raw float s value ≢ panic
  unfolding physical_to_raw
  physical_to_raw-total s value h =
      let raw = round_i64 (div (sub value s.offset) s.factor) in
      not_panic _ (fits_bits raw s.length s.is_signed) raw _ _
        (fits_bits-total raw s.length s.is_signed h)

  pub given-HasFitting :
      (s : SignalDef float) (values : List (String × R)) (last : ℤ)
      → IsI64 last × Fits last s.length s.is_signed
      → IsI64 (given s values last) × Fits (given s values last) s.length s.is_signed
  given-HasFitting s [] last h = h
  given-HasFitting s ((name, value) ∷ rest) last h =
      given-HasFitting s rest _ (elim (Bool-cases (name == s.name)) [
        | inl t ↦ rw t (elim (Fallible-cases (physical_to_raw float s value)) [
          | inl (raw, e) ↦ rw e (physical_to_raw-Fits float s value raw e)
          | inr (inl (e, at)) ↦ rw at h
          | inr (inr at) ↦ rw at h
        ])
        | inr f ↦ rw f h
      ])

  -- A value for an unknown name, or one that is refused, leaves every signal's value.
  given-unknown :
      (m : MessageDef float) (name : String) (value : R) (s : SignalDef float) (last : ℤ)
      → signal float m name ≡ none
      → signal float m s.name ≡ some s
      → given s ((name, value) ∷ []) last ≡ last
  given-unknown m name value s last missing named = elim (Bool-cases (name == s.name)) [
    | inl t ↦
        let both = sym missing ∙ ap (signal float m) ((==_iff name s.name).0 t) ∙ named in
        absurd (cc)
    | inr f ↦ rw (given, f) refl
  ]

  given-refused :
      (m : MessageDef float) (name : String) (value : R) (s' : SignalDef float) (e : CodecError)
      (s : SignalDef float) (last : ℤ)
      → signal float m name ≡ some s'
      → physical_to_raw float s' value ≡ err e
      → signal float m s.name ≡ some s
      → given s ((name, value) ∷ []) last ≡ last
  given-refused m name value s' e s last found refused named = elim (Bool-cases (name == s.name)) [
    | inl t ↦
        let same : s' ≡ s =
          some_inj (sym found ∙ ap (signal float m) ((==_iff name s.name).0 t) ∙ named) in
        let at : physical_to_raw float s value ≡ err e =
          subst (λ r. physical_to_raw float r value ≡ err e) same refused in
        rw (given, t, at) refl
    | inr f ↦ rw (given, f) refl
  ]

  -- One value more in the map: the raw value of each signal of the message follows.
  raw_of-insert :
      (m : MessageDef float) (resolved : Map String ℤ) (name : String) (s' : SignalDef float)
      (value : R) (raw : ℤ)
      → signal float m name ≡ some s'
      → physical_to_raw float s' value ≡ ok raw
      → (s : SignalDef float) → signal float m s.name ≡ some s
      → raw_of (insert resolved name raw) s ≡ given s ((name, value) ∷ []) (raw_of resolved s)
  raw_of-insert m resolved name s' value raw found accepted s named =
      elim (Bool-cases (name == s.name)) [
        | inl t ↦
            let same : s' ≡ s =
              some_inj (sym found ∙ ap (signal float m) ((==_iff name s.name).0 t) ∙ named) in
            let at : physical_to_raw float s value ≡ ok raw =
              subst (λ r. physical_to_raw float r value ≡ ok raw) same accepted in
            rw (raw_of, get-insert resolved name s.name raw, given, t, at) refl
        | inr f ↦ rw (raw_of, get-insert resolved name s.name raw, given, f) refl
      ]

  pub resolve_all-given :
      (m : MessageDef float) (values : List (String × R)) (resolved : Map String ℤ)
      → All (λ s. 0 < s.length) m.signals
      → (out : Map String ℤ) × (resolve_all float m values resolved ≡ ok out)
        × ((s : SignalDef float)
            → signal float m s.name ≡ some s
            → raw_of out s ≡ given s values (raw_of resolved s))
  unfolding resolve_all
  resolve_all-given m [] resolved filled = (resolved, refl, λ s named. refl)
  resolve_all-given m ((name, value) ∷ rest) resolved filled =
      elim (Option-cases (signal float m name)) [
        | inl missing ↦
            let (out, e, spec) = resolve_all-given m rest resolved filled in
            (
              out,
              rw (resolve_all, missing) e,
              λ s named.
                  spec s named
                  ∙ sym (
                      ap (given s rest)
                        (given-unknown m name value s (raw_of resolved s) missing named)),
            )
        | inr (s', found) ↦ elim (Fallible-cases (physical_to_raw float s' value)) [
          | inl (raw, at) ↦
              let (out, e, spec) = resolve_all-given m rest (insert resolved name raw) filled in
              (
                out,
                rw (resolve_all, found, at) e,
                λ s named.
                    spec s named
                    ∙ ap (given s rest)
                        (raw_of-insert m resolved name s' value raw found at s named),
              )
          | inr (inl (e, at)) ↦
              let (out, e', spec) = resolve_all-given m rest resolved filled in
              (
                out,
                rw (resolve_all, found, at) e',
                λ s named.
                    spec s named
                    ∙ sym (
                        ap (given s rest)
                          (given-refused m name value s' e s (raw_of resolved s) found at named)),
              )
          | inr (inr at) ↦ absurd (
              physical_to_raw-total s' value
                (find-All (λ s. 0 < s.length) (λ s. s.name == name) m.signals {x = s'} filled
                  (unfold signal in found))
                at)
        ]
      ]
