-- ===== src/Net/Netmap/Whole.antt =====
-- Whole payloads of crates/embrig-net/src/netmap.rs: every field of a message is encoded and read back.
use Prim.Native.Nat.{Ordering}
use mathlib.Core.List.{append-nil, append_assoc}
use embrig.Prelude.{
  ℕ, ◌+◌, ◌≤◌, ◌≡◌, false, ◌⊎◌, inl, inr, refl, sym, ap, subst, subst₂, true, ◌∙◌, String, List, [],
  ◌∷◌, ◌++◌, some, All, Bool-cases, length, replicate, arith, All-append, All-map, All-both,
  length-replicate,
}
use embrig.Prelude.Keys.{string_key, ◌==◌, ==_iff, ==_refl}
use embrig.Prelude.Map.{Map, get, insert}
use embrig.Prelude.Int.{ℤ, int_key}
use embrig.Prelude.Panic.{some_inj}
use embrig.Prelude.Fallible.{ok, ◌>>=◌, ok_inj, >>=-eq-ok}
use embrig.Core.Float.{Float}
use embrig.Core.Signal.{SignalValue}
use embrig.Net.Netmap.{
  FieldDef, MessageDef, size, field, resolve, resolve_all, write_all, write_field, read_field,
  encode_fields, decode_field, raw_to_physical,
}
use embrig.Net.Netmap.Bytes.{Storable}
use embrig.Net.Netmap.RoundTrip.{
  Inside, length-write_field, read_field-write_field, read_field-write_other,
}

-- Every later key of a `BTreeMap` is greater.
abbrev pub Ascending {ℓ} : {V : Type ℓ} → Map String V → Type 0
Ascending [] = Unit
Ascending ((key, v) ∷ rest) =
    All (λ entry. string_key.cmp entry.0 key ≡ Ordering.gt) rest × Ascending rest

-- The keys of a map are less than a key.
abbrev Below {ℓ} : {V : Type ℓ} → Map String V → String → Type 0
Below m key = All (λ entry. string_key.cmp key entry.0 ≡ Ordering.gt) m

insert-Below {ℓ} :
    {V : Type ℓ} (m : Map String V) (key : String) (v : V)
    → Below m key
    → insert m key v ≡ m ++ (key, v) ∷ []
insert-Below [] key v h = refl
insert-Below ((k, w) ∷ m) key v h =
    rw (insert, h.0) (ap (λ rest. (k, w) ∷ rest) (insert-Below m key v h.1))

gt-apart : (a b : String) → string_key.cmp a b ≡ Ordering.gt → (b == a) ≡ false
gt-apart a b h = ground (arith, string_key.cmp_iff a b, string_key.cmp_iff b a)

get-here :
    {V : Type 0} (m : Map String V) (key name : String) (v : V)
    → (key == name) ≡ true
    → get ((key, v) ∷ m) name ≡ some v
get-here m key name v h = rw (get, h) refl

get-there :
    {V : Type 0} (m : Map String V) (key name : String) (v : V)
    → (key == name) ≡ false
    → get ((key, v) ∷ m) name ≡ get m name
get-there m key name v h = rw (get, h) refl

module _ (float : Float) {A : Type 0} (m : MessageDef float A)
    (v : String → SignalValue float.R) where
  abbrev Fields : Type 0
  Fields = Map String (FieldDef float)

  -- A value for each field of a list, in the list's order.
  abbrev pub named : Fields → List (String × SignalValue float.R)
  named [] = []
  named ((name, f) ∷ fields) = (name, v name) ∷ named fields

  -- The raw values that the fields' values come to.
  abbrev Resolved : Fields → Map String ℤ → Type 0
  Resolved [] raws = raws ≡ []
  Resolved ((name, f) ∷ fields) raws =
      (raw : ℤ) × (rest : Map String ℤ) × (raws ≡ (name, raw) ∷ rest)
      × (resolve float m f name (v name) ≡ ok raw)
      × Resolved fields rest

  -- The fields are found in the message by their names.
  abbrev Found : Fields → Type 0
  Found = All (λ entry. field float m entry.0 ≡ some entry.1)

  Below-snoc :
      (acc : Map String ℤ) (name : String) (raw : ℤ) (later : String)
      → Below acc later
      → string_key.cmp later name ≡ Ordering.gt
      → Below (acc ++ (name, raw) ∷ []) later
  Below-snoc acc name raw later h g =
      All-append (λ entry. string_key.cmp later entry.0 ≡ Ordering.gt) acc ((name, raw) ∷ []) h
        (g, tt)

  All-Below :
      (fields : Fields) (acc : Map String ℤ) (name : String) (raw : ℤ)
      → All (λ entry. Below acc entry.0) fields
      → All (λ entry. string_key.cmp entry.0 name ≡ Ordering.gt) fields
      → All (λ entry. Below (acc ++ (name, raw) ∷ []) entry.0) fields
  All-Below [] acc name raw h g = tt
  All-Below ((k, f) ∷ fields) acc name raw h g =
      (Below-snoc acc name raw k h.0 g.0, All-Below fields acc name raw h.1 g.1)

  resolve_all-cons :
      (name : String) (f : FieldDef float) (fields : Fields) (acc : Map String ℤ)
      → field float m name ≡ some f
      → resolve_all float m (named ((name, f) ∷ fields)) acc ≡ (
          resolve float m f name (v name) >>= λ raw.
          resolve_all float m (named fields) (insert acc name raw))
  unfolding resolve_all
  resolve_all-cons name f fields acc found = rw (resolve_all, found) refl

  resolve_all-Resolved :
      (fields : Fields) (acc out : Map String ℤ)
      → Ascending fields
      → Found fields
      → All (λ entry. Below acc entry.0) fields
      → resolve_all float m (named fields) acc ≡ ok out
      → (raws : Map String ℤ) × (out ≡ acc ++ raws) × Resolved fields raws
  unfolding resolve_all
  resolve_all-Resolved [] acc out asc found below h =
      ([], ok_inj (sym h) ∙ sym (append-nil acc), refl)
  resolve_all-Resolved ((name, f) ∷ fields) acc out asc found below h =
      let (raw, resolved, rest) =
        >>=-eq-ok (resolve float m f name (v name))
          (λ raw. resolve_all float m (named fields) (insert acc name raw))
          (sym (resolve_all-cons name f fields acc found.0) ∙ h) in
      let (raws, split, tail) =
        resolve_all-Resolved fields (acc ++ (name, raw) ∷ []) out asc.1 found.1
          (All-Below fields acc name raw below.1 asc.0)
          (subst (λ acc'. resolve_all float m (named fields) acc' ≡ ok out)
            (insert-Below acc name raw below.0) rest) in
      (
        (name, raw) ∷ raws,
        split ∙ append_assoc acc ((name, raw) ∷ []) raws,
        (raw, raws, refl, resolved, tail),
      )

  -- Two fields have no byte in common.
  abbrev pub Apart : FieldDef float → FieldDef float → Type 0
  Apart f g = (g.offset + size g.ty ≤ f.offset) ⊎ (f.offset + size f.ty ≤ g.offset)

  abbrev pub Disjoint : Fields → Type 0
  Disjoint [] = Unit
  Disjoint ((name, f) ∷ fields) =
      All (λ entry. Apart f entry.1 × Apart entry.1 f) fields × Disjoint fields

  write_all-cons :
      (name : String) (f : FieldDef float) (raw : ℤ) (raws : Map String ℤ) (payload : List ℕ)
      → field float m name ≡ some f
      → write_all float m ((name, raw) ∷ raws) payload
        ≡ (write_field float f raw payload >>= write_all float m raws)
  unfolding write_all
  write_all-cons name f raw raws payload found = rw (write_all, found) refl

  abbrev pub AllInside : ℕ → Fields → Type 0
  AllInside n = All (λ entry. Inside float entry.1 n)

  -- One write of a chain: the payload after it, of the same length, and the rest of the chain.
  write_all-next :
      (name : String) (f : FieldDef float) (fields : Fields) (raw : ℤ) (raws : Map String ℤ)
      (payload out : List ℕ)
      → Found ((name, f) ∷ fields)
      → AllInside (length payload) ((name, f) ∷ fields)
      → write_all float m ((name, raw) ∷ raws) payload ≡ ok out
      → (next : List ℕ) × (write_field float f raw payload ≡ ok next)
        × (write_all float m raws next ≡ ok out)
        × (length next ≡ length payload)
        × AllInside (length next) fields
  write_all-next name f fields raw raws payload out found inside h =
      let (next, wrote, rest) =
        >>=-eq-ok (write_field float f raw payload) (write_all float m raws)
          (sym (write_all-cons name f raw raws payload found.0) ∙ h) in
      let len = length-write_field float f raw payload next inside.0 wrote in
      (next, wrote, rest, len, subst (λ n. AllInside n fields) (sym len) inside.1)

  -- A field apart from those written keeps its value.
  write_all-keeps :
      (g : FieldDef float) (fields : Fields) (raws : Map String ℤ) (payload out : List ℕ)
      → Found fields
      → AllInside (length payload) fields
      → Inside float g (length payload)
      → All (λ entry. Apart g entry.1 × Apart entry.1 g) fields
      → Resolved fields raws
      → write_all float m raws payload ≡ ok out
      → read_field float g out ≡ read_field float g payload
  unfolding write_all
  write_all-keeps g [] raws payload out found inside inside' apart resolved h =
      ap (read_field float g) (
        ok_inj
          (sym h ∙ subst (λ rs. write_all float m rs payload ≡ ok payload) (sym resolved) refl))
  write_all-keeps g ((name, f) ∷ fields) raws payload out found inside inside' apart
        (raw, rest, split, got, resolved) h =
      let (next, wrote, tail, len, inner) =
        write_all-next name f fields raw rest payload out found inside
          (subst (λ rs. write_all float m rs payload ≡ ok out) split h) in
      let (next', wrote', kept) =
        read_field-write_other float f g raw payload inside.0 inside' apart.0.1 in
      write_all-keeps g fields rest next out found.1 inner
        (subst (Inside float g) (sym len) inside') apart.1 resolved tail
      ∙ ap (read_field float g) (ok_inj (sym wrote ∙ wrote'))
      ∙ kept

  reads_back :
      (f : FieldDef float) (raw : ℤ) (payload next : List ℕ)
      → Inside float f (length payload)
      → Storable f.ty raw
      → write_field float f raw payload ≡ ok next
      → read_field float f next ≡ ok raw
  reads_back f raw payload next inside fits wrote =
      let (next', wrote', read, len) = read_field-write_field float f raw payload inside fits in
      subst (λ p. read_field float f p ≡ ok raw) (ok_inj (sym wrote' ∙ wrote)) read

  write_all-reads :
      (fields : Fields) (raws : Map String ℤ) (payload out : List ℕ)
      → Found fields
      → AllInside (length payload) fields
      → Disjoint fields
      → Resolved fields raws
      → write_all float m raws payload ≡ ok out
      → (name : String) (f : FieldDef float) (raw : ℤ) → get fields name ≡ some f
      → resolve float m f name (v name) ≡ ok raw
      → Storable f.ty raw
      → read_field float f out ≡ ok raw
  write_all-reads [] raws payload out found inside apart resolved h name f raw at got fits =
      absurd (cc)
  write_all-reads ((k, g) ∷ fields) raws payload out found inside apart
        (raw', rest, split, got', resolved) h name f raw at got fits =
      let (next, wrote, tail, len, inner) =
        write_all-next k g fields raw' rest payload out found inside
          (subst (λ rs. write_all float m rs payload ≡ ok out) split h) in
      elim (Bool-cases (k == name)) [
        | inl same ↦
            let same_field : g ≡ f = some_inj (sym (get-here fields k name g same) ∙ at) in
            let same_name : k ≡ name = (==_iff k name).0 same in
            let same_raw : raw' ≡ raw = ok_inj (
              sym
                (subst₂ (λ g' k'. resolve float m g' k' (v k') ≡ ok raw') same_field same_name got')
              ∙ got) in
            let read : read_field float g next ≡ ok raw =
              reads_back g raw payload next inside.0
                (subst (λ g'. Storable g'.ty raw) (sym same_field) fits)
                (subst (λ r. write_field float g r payload ≡ ok next) same_raw wrote) in
            subst (λ g'. read_field float g' out ≡ ok raw) same_field
              (write_all-keeps g fields rest next out found.1 inner
                  (subst (Inside float g) (sym len) inside.0) apart.0 resolved tail
                ∙ read)
        | inr other ↦
            write_all-reads fields rest next out found.1 inner apart.1 resolved tail name f raw
              (sym (get-there fields k name g other) ∙ at) got fits
      ]

  get-Ascending :
      (fields : Fields) → Ascending fields → All (λ entry. get fields entry.0 ≡ some entry.1) fields
  get-Ascending [] asc = tt
  get-Ascending ((name, f) ∷ fields) asc = (
    get-here fields name name f (==_refl name),
    All-map
        (λ entry. (string_key.cmp entry.0 name ≡ Ordering.gt) × (get fields entry.0 ≡ some entry.1))
        (λ entry. get ((name, f) ∷ fields) entry.0 ≡ some entry.1) fields
        (λ entry both. get-there fields name entry.0 f (gt-apart entry.0 name both.0) ∙ both.1)
        (All-both (λ entry. string_key.cmp entry.0 name ≡ Ordering.gt)
          (λ entry. get fields entry.0 ≡ some entry.1) fields asc.0 (get-Ascending fields asc.1)),
  )

  Below-nil : (fields : Fields) → All (λ entry. Below {V = ℤ} [] entry.0) fields
  Below-nil [] = tt
  Below-nil (entry ∷ fields) = (tt, Below-nil fields)

  -- When `encode_fields` returns a payload for a value of every field, in a message whose fields have
  -- distinct names in ascending order, lie inside the payload and have no byte in common, each field
  -- decodes from it to the physical value and the symbol of the raw value that its value resolved to,
  -- when the field's type holds that raw value.
  pub decode_field-encode_fields :
      (payload : List ℕ)
      → Ascending m.fields
      → Disjoint m.fields
      → AllInside m.length m.fields
      → encode_fields float m (named m.fields) ≡ ok payload
      → (name : String) (f : FieldDef float) (raw : ℤ) → field float m name ≡ some f
      → resolve float m f name (v name) ≡ ok raw
      → Storable f.ty raw
      → decode_field float m payload name
        ≡ ok (record {
          name = name;
          value = raw_to_physical float f raw;
          symbol = get ⦃k = int_key⦄ f.values raw;
        })
  unfolding decode_field encode_fields field
  decode_field-encode_fields payload asc apart inside h name f raw at got fits =
      let blank = replicate m.length 0 in
      let found : Found m.fields = get-Ascending m.fields asc in
      let (out, resolved, wrote) =
        >>=-eq-ok (resolve_all float m (named m.fields) []) (λ raws. write_all float m raws blank)
          h in
      let (raws, split, all) =
        resolve_all-Resolved m.fields [] out asc found (Below-nil m.fields) resolved in
      let read =
        write_all-reads m.fields raws blank payload found
          (subst (λ n. AllInside n m.fields) (sym (length-replicate m.length 0)) inside) apart all
          (subst (λ rs. write_all float m rs blank ≡ ok payload) split wrote) name f raw at got
          fits in
      rw (decode_field, at, read) refl
