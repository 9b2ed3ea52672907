-- ===== src/Dbc/Codec/Layout.antt =====
-- The signals of a message side by side in its data (crates/embrig-dbc/src/codec.rs): a write of
-- one leaves the others as they are.
use embrig.Prelude.{
  ℕ, ◌+◌, ◌<◌, ◌≡◌, inl, inr, refl, sym, ap, subst, ◌∙◌, List, [], ◌∷◌, arith, All, All-map, length,
}
use embrig.Prelude.Keys.{string_key}
use embrig.Prelude.Int.{ℤ, as_u64, IsI64}
use embrig.Prelude.Fallible.{ok, err, panic}
use embrig.Core.Float.{Float}
use embrig.Dbc.Types.{SignalDef}
use embrig.Dbc.Codec.{Position, positions, write_signal, read_signal}
use embrig.Dbc.Codec.Positions.{Apart, InBytes, Layout}
use Prim.Native.Nat.{bit_or}
use embrig.Prelude.{get_elem?-some, ◌^◌}
use embrig.Dbc.Codec.{read_bits}
use embrig.Dbc.Codec.Signals.{check_bounds-inside}
use embrig.Dbc.Codec.Transfer.{bit_at-byte, IsBytes, bit_at, Holds, Written}
use embrig.Dbc.Codec.RoundTrip.{Fits, from_bits-Fits}
use embrig.Dbc.Codec.Signals.{FitsIn, positions-Layout, write_signal-Written, read_signal-Holds}

Apart-sym : (p q : Position) → Apart p q → Apart q p
Apart-sym p q (inl ne) = inl (λ e. ne (sym e))
Apart-sym p q (inr ne) = inr (λ e. ne (sym e))

-- Bits none of which is a bit of the other list.
abbrev pub AllApart : List Position → List Position → Type 0
AllApart ps qs = All (λ q. All (λ p. Apart p q) ps) qs

AllApart-nil : (qs : List Position) → AllApart [] qs
AllApart-nil [] = tt
AllApart-nil (q ∷ qs) = (tt, AllApart-nil qs)

AllApart-cons :
    (p : Position) (ps qs : List Position)
    → All (λ q. Apart p q) qs
    → AllApart ps qs
    → AllApart (p ∷ ps) qs
AllApart-cons p ps [] h t = tt
AllApart-cons p ps (q ∷ qs) h t = ((h.0, t.0), AllApart-cons p ps qs h.1 t.1)

pub AllApart-sym : (ps qs : List Position) → AllApart ps qs → AllApart qs ps
AllApart-sym ps [] h = AllApart-nil ps
AllApart-sym ps (q ∷ qs) h =
    AllApart-cons q qs ps (All-map (λ p. Apart p q) (λ p. Apart q p) ps (λ p. Apart-sym p q) h.0)
      (AllApart-sym ps qs h.1)

-- A value stays where no bit changes.
Holds-kept :
    (raw i n : ℕ) (ps : List Position) (bytes out : List ℕ)
    → All (InBytes n) ps
    → All (λ p. bit_at out p ≡ bit_at bytes p) ps
    → Holds raw i ps bytes
    → Holds raw i ps out
Holds-kept raw i n [] bytes out inside same h = tt
Holds-kept raw i n (p ∷ ps) bytes out inside same h =
    (same.0 ∙ h.0, Holds-kept raw (i + 1) n ps bytes out inside.1 same.1 h.1)

kept-All :
    (n : ℕ) (written qs : List Position) (bytes out : List ℕ)
    → ((q : Position) → q.1 < 8 → All (λ p. Apart p q) written → bit_at out q ≡ bit_at bytes q)
    → All (InBytes n) qs
    → AllApart written qs
    → All (λ q. bit_at out q ≡ bit_at bytes q) qs
kept-All n written [] bytes out kept inside apart = tt
kept-All n written (q ∷ qs) bytes out kept inside apart =
    (kept q inside.0.1 apart.0, kept-All n written qs bytes out kept inside.1 apart.1)

read_bits-same :
    (i acc n : ℕ) (ps : List Position) (bytes out : List ℕ)
    → length out ≡ length bytes
    → All (InBytes (length bytes)) ps
    → All (λ p. bit_at out p ≡ bit_at bytes p) ps
    → read_bits i ps out acc ≡ read_bits i ps bytes acc
unfolding read_bits
read_bits-same i acc n [] bytes out len inside same = refl
read_bits-same i acc n (p ∷ ps) bytes out len inside same =
    let (b, at) = get_elem?-some bytes p.0 inside.0.0 in
    let (c, at') = get_elem?-some out p.0 (omega (arith, len, inside.0.0)) in
    let bits = sym (bit_at-byte out p c at') ∙ same.0 ∙ bit_at-byte bytes p b at in
    rw
      (
        at,
        at',
        bits,
        read_bits-same (i + 1) acc n ps bytes out len inside.1 same.1,
        read_bits-same (i + 1) (bit_or acc (2 ^ i)) n ps bytes out len inside.1 same.1,
      )
      refl

module _ (float : Float) where
  abbrev pub places : SignalDef float → List Position
  places s = elim (positions float s) [ ok ps ↦ ps | err e ↦ [] | panic ↦ [] ]

  -- The signals share no bit.
  abbrev pub Disjoint : SignalDef float → SignalDef float → Type 0
  Disjoint s t = AllApart (places s) (places t)

  abbrev pub AllDisjoint : List (SignalDef float) → Type 0
  AllDisjoint [] = Unit {0}
  AllDisjoint (s ∷ rest) = All (Disjoint s) rest × AllDisjoint rest

  places-positions :
      (s : SignalDef float) (n : ℕ)
      → FitsIn float s n
      → (positions float s ≡ ok (places s)) × Layout n s.length (places s)
  places-positions s n fits =
      let (ps, e, l) = positions-Layout float s n fits in
      let same : ps ≡ places s = rw (e, places) refl in
      (e ∙ ap ok same, subst (Layout n s.length) same l)

  -- The bits of the signal are those of the value.
  abbrev pub Stored : ℕ → List ℕ → SignalDef float → Type 0
  Stored raw bytes s = Holds raw 0 (places s) bytes

  pub Stored-kept :
      (n raw : ℕ) (written : List Position) (bytes out : List ℕ) (s : SignalDef float)
      → FitsIn float s n
      → ((q : Position) → q.1 < 8 → All (λ p. Apart p q) written → bit_at out q ≡ bit_at bytes q)
      → AllApart written (places s)
      → Stored raw bytes s
      → Stored raw out s
  Stored-kept n raw written bytes out s fits kept apart stored =
      let (e, l) = places-positions s n fits in
      Holds-kept raw 0 n (places s) bytes out l.inside
        (kept-All n written (places s) bytes out kept l.inside apart) stored

  -- A write stores its value and leaves every signal that shares no bit with it as it was.
  pub write_signal-Stored :
      (s : SignalDef float) (raw : ℤ) (bytes : List ℕ)
      → FitsIn float s (length bytes)
      → IsBytes bytes
      → (out : List ℕ) × (write_signal float s raw bytes ≡ ok out)
        × Written (as_u64 raw) 0 (places s) bytes out
  write_signal-Stored s raw bytes fits small =
      let (ps, out, e, l, w, written) = write_signal-Written float s raw bytes fits small in
      let same : ps ≡ places s = rw (e, places) refl in
      (out, w, subst (λ qs. Written (as_u64 raw) 0 qs bytes out) same written)

  pub read_signal-Stored :
      (s : SignalDef float) (raw : ℤ) (bytes : List ℕ)
      → FitsIn float s (length bytes)
      → IsI64 raw
      → Fits raw s.length s.is_signed
      → Stored (as_u64 raw) bytes s
      → read_signal float s bytes ≡ ok raw
  read_signal-Stored s raw bytes fits i64 range stored =
      let (e, l) = places-positions s (length bytes) fits in
      read_signal-Holds float s (as_u64 raw) bytes (places s) fits.width e l stored
      ∙ from_bits-Fits raw s.length s.is_signed fits.width i64 range

  -- Writing any value to one signal leaves what is read of another that shares no bit with it.
  pub read_signal-write_other :
      (s t : SignalDef float) (raw : ℤ) (bytes : List ℕ)
      → FitsIn float s (length bytes)
      → FitsIn float t (length bytes)
      → Disjoint s t
      → IsBytes bytes
      → (out : List ℕ) × (write_signal float s raw bytes ≡ ok out)
        × (read_signal float t out ≡ read_signal float t bytes)
  unfolding read_signal
  read_signal-write_other s t raw bytes fits fits' apart small =
      let (out, w, written) = write_signal-Stored s raw bytes fits small in
      let (e, l) = places-positions t (length bytes) fits' in
      let l' = subst (λ n. Layout n t.length (places t)) (sym written.same_length) l in
      (
        out,
        w,
        rw
            (
              e,
              check_bounds-inside float t (places t) bytes l.inside,
              check_bounds-inside float t (places t) out l'.inside,
              read_bits-same 0 0 (length bytes) (places t) bytes out written.same_length l.inside (
                  kept-All (length bytes) (places s) (places t) bytes out written.kept l.inside
                    apart),
            )
            refl,
      )
