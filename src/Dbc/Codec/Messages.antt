-- ===== src/Dbc/Codec/Messages.antt =====
-- Whole messages (crates/embrig-dbc/src/codec.rs): what `encode_signals` writes, `decode_signals`
-- reads.
use embrig.Prelude.{
  ℕ, zero, suc, ◌≡◌, refl, sym, subst, ◌∙◌, Bool, true, false, not, ◌||◌, List, some, arith, length,
  String, replicate, length-replicate, if◌then◌else◌,
}
use Prim.Native.Nat.{max}
use embrig.Prelude.Keys.{string_key}
use embrig.Prelude.Int.{ℤ, int_key, IsI64}
use embrig.Prelude.Fallible.{Fallible, ok, err, panic, ◌>>=◌, ok_inj}
use embrig.Core.Float.{Float}
use embrig.Dbc.Types.{SignalDef, MessageDef, signal}
use embrig.Dbc.Codec.{
  CodecError, encode_signal, decode_signal, physical_to_raw, raw_to_physical, blank, fits_bits,
}
use embrig.Dbc.Codec.Transfer.{IsBytes}
use embrig.Dbc.Codec.RoundTrip.{Fits}
use embrig.Dbc.Codec.Signals.{FitsIn, read_signal-write_signal}

accepted :
    (bad : Bool) (fits : Fallible CodecError Bool) (raw raw' : ℤ) (e e' : CodecError)
    → (if bad then err e else (fits >>= λ f. if not f then err e' else ok raw)) ≡ ok raw'
    → (fits ≡ ok true) × (raw ≡ raw')
accepted true fits raw raw' e e' h = absurd (cc)
accepted false (ok true) raw raw' e e' h = (refl, ok_inj h)
accepted false (ok false) raw raw' e e' h = absurd (cc)
accepted false (err x) raw raw' e e' h = absurd (cc)
accepted false panic raw raw' e e' h = absurd (cc)

module _ (float : Float) where
  open float use {R, is_nan, is_infinite, sub, div, round_i64, round_i64-IsI64}

  -- A value that the encoder accepts is an i64 that fits the signal.
  pub physical_to_raw-Fits :
      (s : SignalDef float) (value : R) (raw : ℤ)
      → physical_to_raw float s value ≡ ok raw
      → IsI64 raw × Fits raw s.length s.is_signed
  unfolding physical_to_raw
  physical_to_raw-Fits s value raw h =
      let raw_f = div (sub value s.offset) s.factor in
      let (range, e) =
        accepted (is_nan raw_f || is_infinite raw_f)
          (fits_bits (round_i64 raw_f) s.length s.is_signed) (round_i64 raw_f) raw _ _ h in
      subst (λ v. IsI64 v × Fits v s.length s.is_signed) e (round_i64-IsI64 raw_f, range)

  pub blank-IsBytes : (n : ℕ) → IsBytes (replicate n 0)
  blank-IsBytes zero = tt
  blank-IsBytes (suc n) = (omega arith, blank-IsBytes n)

  -- A value encoded alone into a message decodes to the physical value of what was stored.
  pub decode_signal-encode_signal :
      (m : MessageDef float) (name : String) (s : SignalDef float) (value : R) (raw : ℤ)
      → signal float m name ≡ some s
      → FitsIn float s (max m.dlc 1)
      → physical_to_raw float s value ≡ ok raw
      → (out : List ℕ) × (encode_signal float m name value ≡ ok out)
        × (decode_signal float m out name ≡ ok (raw_to_physical float s raw))
        × (length out ≡ max m.dlc 1)
  unfolding encode_signal decode_signal blank
  decode_signal-encode_signal m name s value raw found fits accepted =
      let (i64, range) = physical_to_raw-Fits s value raw accepted in
      let len = length-replicate (max m.dlc 1) 0 in
      let (out, w, r, same) =
        read_signal-write_signal float s raw (replicate (max m.dlc 1) 0)
          (subst (FitsIn float s) (sym len) fits) (blank-IsBytes (max m.dlc 1)) i64 range in
      (
        out,
        rw (encode_signal, found, accepted, blank) w,
        rw (decode_signal, found, r) refl,
        same ∙ len,
      )
