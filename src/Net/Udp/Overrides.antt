-- ===== src/Net/Udp/Overrides.antt =====
-- What the node of crates/embrig-net/src/ecu.rs sends after its fields are overridden.
use embrig.Prelude.{
  ℕ, ◌≡◌, refl, ap, subst, inl, inr, Bool-cases, String, List, [], ◌∷◌, some, if◌then◌else◌,
}
use embrig.Prelude.Keys.{◌==◌, string_key, ==_refl}
use embrig.Prelude.Map.{Map, get, get-insert}
use embrig.Prelude.Int.{ℤ, int_key}
use embrig.Prelude.Fallible.{Fallible, ok, map_err, map_err-ok}
use embrig.Prelude.Result as Result
use embrig.Core.Float.{Float}
use embrig.Core.Signal.{SignalValue}
use embrig.Core.Network.{NetEcuError}
use embrig.Net.Netmap.{
  FieldError, FieldDef, field, resolve, decode_field, encode_fields, raw_to_physical,
}
use embrig.Net.Netmap.Bytes.{Storable}
use embrig.Net.Netmap.Whole.{Ascending, Disjoint, AllInside, named, decode_field-encode_fields}
use embrig.Net.Udp.Ecu.{UdpConfigEcu, current, values, encode, set_field}

module _ (float : Float) {A : Type 0} where
  -- A field override of the node's message is accepted and changes the value that the node sends for
  -- that field alone: the last override of a field counts.
  pub current-set_field :
      (e : UdpConfigEcu float A) (name : String) (f : FieldDef float) (value : SignalValue float.R)
      → field float e.message name ≡ some f
      → (other : String)
      → ((set_field float e e.message_name name value).1 ≡ Result.ok tt)
        × (current float (set_field float e e.message_name name value).0 other
            ≡ (if name == other then value else current float e other))
  unfolding set_field current
  current-set_field e name f value known other =
      rw (set_field, ==_refl e.message_name, known)
        (
          refl,
          elim (Bool-cases (name == other)) [
            | inl same ↦ rw (current, get-insert e.overrides name other value, same) refl
            | inr apart ↦ rw (current, get-insert e.overrides name other value, apart) refl
          ],
        )

  values-named :
      (e : UdpConfigEcu float A) (fields : Map String (FieldDef float))
      → values float e fields ≡ named float e.message (current float e) fields
  unfolding values
  values-named e [] = refl
  values-named e ((name, f) ∷ fields) =
      ap (λ vs. (name, current float e name) ∷ vs) (values-named e fields)

  -- A payload that the node encodes, of a message whose fields have distinct names in ascending order,
  -- lie inside the payload and have no byte in common, decodes to the node's current value of every
  -- field, as the raw value that it resolves to, when the field's type holds it.
  pub decode_field-encode :
      (to_string : FieldError float → String) (e : UdpConfigEcu float A) (payload : List ℕ)
      → Ascending e.message.fields
      → Disjoint float e.message (current float e) e.message.fields
      → AllInside float e.message (current float e) e.message.length e.message.fields
      → encode float to_string e ≡ ok payload
      → (name : String) (f : FieldDef float) (raw : ℤ) → field float e.message name ≡ some f
      → resolve float e.message f name (current float e name) ≡ ok raw
      → Storable f.ty raw
      → decode_field float e.message payload name
        ≡ ok (record {
          name = name;
          value = raw_to_physical float f raw;
          symbol = get ⦃k = int_key⦄ f.values raw;
        })
  unfolding encode
  decode_field-encode to_string e payload asc apart inside h =
      decode_field-encode_fields float e.message (current float e) payload asc apart inside (
        map_err-ok (λ failure. NetEcuError.invalid_value (to_string failure))
          (encode_fields float e.message (named float e.message (current float e) e.message.fields))
          payload
          (subst
            (λ vs.
              ◌≡◌ {A = Fallible NetEcuError (List ℕ)}
                (map_err (λ failure. NetEcuError.invalid_value (to_string failure))
                  (encode_fields float e.message vs))
                (ok payload))
            (values-named e e.message.fields) h))
