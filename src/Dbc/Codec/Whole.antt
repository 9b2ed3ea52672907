-- ===== src/Dbc/Codec/Whole.antt =====
-- Whole messages (crates/embrig-dbc/src/codec.rs): the value that `encode_signals` takes for each
-- signal, and what it leaves in the data.
use embrig.Prelude.{
  ℕ, zero, suc, ◌+◌, ◌<◌, ◌≡◌, inl, inr, refl, sym, subst, ◌∙◌, false, List, [], ◌∷◌, some, arith,
  All, All-map, length, Option-cases, String, map, replicate, length-replicate, ltb,
}
use Prim.Native.Nat.{max}
use embrig.Prelude.Keys.{string_key}
use embrig.Prelude.Map.{Map, get}
use embrig.Prelude.Int.{ℤ, int_key, pos, as_u64}
use embrig.Prelude.Fallible.{ok}
use embrig.Prelude.Bits.{test_bit_zero}
use embrig.Core.Float.{Float}
use embrig.Dbc.Types.{SignalDef, MessageDef, Signal, signal}
use embrig.Dbc.Codec.{
  Position, read_signal, write_all, encode_signals, decode_all, decode_signals, raw_to_physical,
  blank,
}
use embrig.Dbc.Codec.Transfer.{Holds, IsBytes, bit_at, Written}
use embrig.Dbc.Codec.Messages.{blank-IsBytes}
use embrig.Dbc.Codec.Given.{given, raw_of, zero-Fits, given-HasFitting, resolve_all-given}
use embrig.Dbc.Codec.Signals.{FitsIn}
use embrig.Dbc.Codec.Layout.{
  AllApart-sym, Disjoint, AllDisjoint, Stored, places, Stored-kept, write_signal-Stored,
  read_signal-Stored,
}

long_enough : (dlc len : ℕ) → len ≡ max dlc 1 → ltb len dlc ≡ false
long_enough dlc len h = ground arith

module _ (float : Float) where
  open float use {R, is_nan, is_infinite, sub, div, round_i64, round_i64-IsI64}

  -- What is decoded of a signal that holds a raw value.
  abbrev pub decoded : SignalDef float → ℤ → Signal float
  decoded s raw = record {
    name = s.name;
    value = raw_to_physical float s raw;
    unit = s.unit;
    symbol = get s.value_table raw;
  }

  -- The definition of a message whose signals can stand side by side: each is found under its own
  -- name, is not empty and fits the data, and no two share a bit.
  pub record IsLaidOut (m : MessageDef float) : Type 0 where
    pub named : All (λ s. signal float m s.name ≡ some s) m.signals
    pub filled : All (λ s. 0 < s.length) m.signals
    pub fit : All (λ s. FitsIn float s (max m.dlc 1)) m.signals
    pub disjoint : AllDisjoint float m.signals

  Disjoint-sym : (s t : SignalDef float) → Disjoint float s t → Disjoint float t s
  Disjoint-sym s t h = AllApart-sym (places float s) (places float t) h

  -- A change that leaves every signal apart from `signals` as it was.
  abbrev Keeps : ℕ → List (SignalDef float) → List ℕ → List ℕ → Type 0
  Keeps n signals bytes out =
      (t : SignalDef float) (v : ℕ)
      → FitsIn float t n
      → All (λ s. Disjoint float s t) signals
      → Stored float v bytes t
      → Stored float v out t

  zeros-kept :
      (n raw : ℕ) (s : SignalDef float) (rest : List (SignalDef float)) (bytes mid : List ℕ)
      → Written raw 0 (places float s) bytes mid
      → All (λ t. FitsIn float t n) rest
      → All (Disjoint float s) rest
      → All (Stored float 0 bytes) rest
      → All (Stored float 0 mid) rest
  zeros-kept n raw s [] bytes mid w fit apart zeros = tt
  zeros-kept n raw s (t ∷ rest) bytes mid w fit apart zeros = (
    Stored-kept float n 0 (places float s) bytes mid t fit.0 w.kept apart.0 zeros.0,
    zeros-kept n raw s rest bytes mid w fit.1 apart.1 zeros.1,
  )

  write_all-Stored :
      (n : ℕ) (signals : List (SignalDef float)) (resolved : Map String ℤ) (bytes : List ℕ)
      → length bytes ≡ n
      → All (λ s. FitsIn float s n) signals
      → AllDisjoint float signals
      → IsBytes bytes
      → All (Stored float 0 bytes) signals
      → (out : List ℕ) × (write_all float signals resolved bytes ≡ ok out)
        × (length out ≡ n)
        × All (λ s. Stored float (as_u64 (raw_of float resolved s)) out s) signals
        × Keeps n signals bytes out
  unfolding write_all
  write_all-Stored n [] resolved bytes len fit apart small zeros =
      (bytes, refl, len, tt, λ t v f a h. h)
  write_all-Stored n (s ∷ rest) resolved bytes len fit apart small zeros =
      let others =
        All-map (Disjoint float s) (λ t. Disjoint float t s) rest (Disjoint-sym s) apart.0 in
      elim (Option-cases (get resolved s.name)) [
        | inl e ↦
            let (out, w, same, stored, keeps) =
              write_all-Stored n rest resolved bytes len fit.1 apart.1 small zeros.1 in
            let value : 0 ≡ as_u64 (raw_of float resolved s) = rw (raw_of, e) refl in
            (
              out,
              rw (write_all, e) w,
              same,
              (subst (λ v. Stored float v out s) value (keeps s 0 fit.0 others zeros.0), stored),
              λ t v f a h. keeps t v f a.1 h,
            )
        | inr (raw, e) ↦
            let (mid, w, written) =
              write_signal-Stored float s raw bytes (subst (FitsIn float s) (sym len) fit.0)
                small in
            let (out, w', same, stored, keeps) =
              write_all-Stored n rest resolved mid (written.same_length ∙ len) fit.1 apart.1
                written.bytes_only
                (zeros-kept n (as_u64 raw) s rest bytes mid written fit.1 apart.0 zeros.1) in
            let value : as_u64 raw ≡ as_u64 (raw_of float resolved s) = rw (raw_of, e) refl in
            (
              out,
              rw (write_all, e, w) w',
              same,
              (
                subst (λ v. Stored float v out s) value
                    (keeps s (as_u64 raw) fit.0 others written.holds),
                stored,
              ),
              λ t v f a h.
                  keeps t v f a.1
                    (Stored-kept float n v (places float s) bytes mid t f written.kept a.0 h),
            )
      ]

  bit_at-zeros : (n : ℕ) (p : Position) → bit_at (replicate n 0) p ≡ false
  bit_at-zeros zero p = refl
  bit_at-zeros (suc n) (zero, bit) = test_bit_zero bit
  bit_at-zeros (suc n) (suc byte, bit) = bit_at-zeros n (byte, bit)

  zeros-Holds : (n i : ℕ) (ps : List Position) → Holds 0 i ps (replicate n 0)
  zeros-Holds n i [] = tt
  zeros-Holds n i (p ∷ ps) = (bit_at-zeros n p ∙ sym (test_bit_zero i), zeros-Holds n (i + 1) ps)

  decode_all-read :
      (signals : List (SignalDef float)) (v : SignalDef float → ℤ) (bytes : List ℕ)
      → All (λ s. read_signal float s bytes ≡ ok (v s)) signals
      → decode_all float signals bytes ≡ ok (map (λ s. decoded s (v s)) signals)
  unfolding decode_all
  decode_all-read [] v bytes h = refl
  decode_all-read (s ∷ rest) v bytes h = rw (h.0, decode_all-read rest v bytes h.1) refl

  blank-Stored :
      (n : ℕ) (signals : List (SignalDef float)) → All (Stored float 0 (replicate n 0)) signals
  blank-Stored n [] = tt
  blank-Stored n (s ∷ rest) = (zeros-Holds n 0 (places float s), blank-Stored n rest)

  read-All :
      (m : MessageDef float) (n : ℕ) (signals : List (SignalDef float)) (resolved : Map String ℤ)
      (values : List (String × R)) (out : List ℕ)
      → length out ≡ n
      → All (λ s. signal float m s.name ≡ some s) signals
      → All (λ s. 0 < s.length) signals
      → All (λ s. FitsIn float s n) signals
      → ((s : SignalDef float)
          → signal float m s.name ≡ some s
          → raw_of float resolved s ≡ given float s values (pos 0))
      → All (λ s. Stored float (as_u64 (raw_of float resolved s)) out s) signals
      → All (λ s. read_signal float s out ≡ ok (given float s values (pos 0))) signals
  read-All m n [] resolved values out len named filled fit spec stored = tt
  read-All m n (s ∷ rest) resolved values out len named filled fit spec stored =
      let (i64, range) =
        given-HasFitting float s values (pos 0)
          ((omega arith, omega arith), zero-Fits float s.length s.is_signed filled.0) in
      (
        read_signal-Stored float s (given float s values (pos 0)) out
            (subst (FitsIn float s) (sym len) fit.0) i64 range
            (subst (λ v. Stored float (as_u64 v) out s) (spec s named.0) stored.0),
        read-All m n rest resolved values out len named.1 filled.1 fit.1 spec stored.1,
      )

  -- A message whose signals can stand side by side encodes any list of values, and decodes to one
  -- entry for each signal, in order: the last value given under its name that the encoder accepts,
  -- and the raw value 0 when there is none.
  pub decode_signals-encode_signals :
      (m : MessageDef float) (values : List (String × R))
      → IsLaidOut m
      → (out : List ℕ) × (encode_signals float m values ≡ ok out)
        × (decode_signals float m out
            ≡ ok (map (λ s. decoded s (given float s values (pos 0))) m.signals))
  unfolding encode_signals decode_signals blank
  decode_signals-encode_signals m values laid =
      let n = max m.dlc 1 in
      let (resolved, e, spec) = resolve_all-given float m values [] laid.filled in
      let (out, w, len, stored, keeps) =
        write_all-Stored n m.signals resolved (replicate n 0) (length-replicate n 0) laid.fit
          laid.disjoint (blank-IsBytes float n) (blank-Stored n m.signals) in
      (
        out,
        rw (encode_signals, e, blank) w,
        rw
            (
              decode_signals,
              long_enough m.dlc (length out) len,
              decode_all-read m.signals (λ s. given float s values (pos 0)) out
                  (read-All m n m.signals resolved values out len laid.named laid.filled laid.fit
                    spec stored),
            )
            refl,
      )
