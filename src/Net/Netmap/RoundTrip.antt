-- ===== src/Net/Netmap/RoundTrip.antt =====
-- Writing and reading one field of a payload (crates/embrig-net/src/netmap.rs).
use embrig.Prelude.{
  ℕ, zero, suc, ◌+◌, ◌-◌, ◌^◌, ◌≤◌, ◌<◌, ◌≡◌, ◌⊎◌, inl, inr, refl, sym, ap, subst, ◌∙◌, false, ltb,
  List, [], ◌∷◌, arith, Option-cases, length, get_elem?, set, length-set, get_elem?-set_self,
  get_elem?-set_ne,
}
use embrig.Prelude.Int.{ℤ}
use embrig.Prelude.Fallible.{ok, ok_inj}
use embrig.Core.Float.{Float}
use embrig.Net.Netmap.{
  FieldType, u8, u16le, u16be, u32le, u32be, i16le, i32le, f32le, f64le, bool, size, raw_bytes,
  write_from, slice, end_of, FieldDef, write_field, read_field,
}
use embrig.Net.Netmap.Bytes.{Storable, raw_int-raw_bytes}

length-raw_bytes : (ty : FieldType) (raw : ℤ) → length (raw_bytes ty raw) ≡ size ty
unfolding raw_bytes size
length-raw_bytes u8 raw = refl
length-raw_bytes bool raw = refl
length-raw_bytes u16le raw = refl
length-raw_bytes u16be raw = refl
length-raw_bytes u32le raw = refl
length-raw_bytes u32be raw = refl
length-raw_bytes i16le raw = refl
length-raw_bytes i32le raw = refl
length-raw_bytes f32le raw = refl
length-raw_bytes f64le raw = refl

length-write_from :
    (i : ℕ) (bytes payload : List ℕ) → length (write_from i bytes payload) ≡ length payload
unfolding write_from
length-write_from i [] payload = refl
length-write_from i (b ∷ bytes) payload =
    length-write_from (i + 1) bytes (set payload i b) ∙ length-set payload i b

-- A byte before or after the written ones keeps its value.
get_elem?-write_from_other :
    (i : ℕ) (bytes payload : List ℕ) (k : ℕ)
    → (k < i) ⊎ (i + length bytes ≤ k)
    → get_elem? (write_from i bytes payload) k ≡ get_elem? payload k
unfolding write_from
get_elem?-write_from_other i [] payload k h = refl
get_elem?-write_from_other i (b ∷ bytes) payload k h =
    get_elem?-write_from_other (i + 1) bytes (set payload i b) k (omega (arith, h))
    ∙ get_elem?-set_ne payload i k b (λ e. omega (arith, h, e))

slice-write_from :
    (i : ℕ) (bytes payload : List ℕ)
    → i + length bytes ≤ length payload
    → slice (write_from i bytes payload) i (length bytes) ≡ bytes
unfolding write_from slice
slice-write_from i [] payload h = refl
slice-write_from i (b ∷ bytes) payload h =
    rw
      (
        slice,
        get_elem?-write_from_other (i + 1) bytes (set payload i b) i (inl (omega arith)),
        get_elem?-set_self payload i b (omega (arith, h)),
      )
      (ap (λ rest. b ∷ rest)
        (slice-write_from (i + 1) bytes (set payload i b)
          (omega (arith, h, length-set payload i b))))

slice-write_from_other :
    (n i j : ℕ) (bytes payload : List ℕ)
    → (i + n ≤ j) ⊎ (j + length bytes ≤ i)
    → slice (write_from j bytes payload) i n ≡ slice payload i n
unfolding slice
slice-write_from_other zero i j bytes payload h = refl
slice-write_from_other (suc n) i j bytes payload h =
    let kept = get_elem?-write_from_other j bytes payload i (omega (arith, h)) in
    let rest = slice-write_from_other n (i + 1) j bytes payload (omega (arith, h)) in
    elim (Option-cases (get_elem? payload i)) [
      | inl e ↦ rw (slice, kept, e) refl
      | inr (b, e) ↦ rw (slice, kept, e) (ap (λ bs. b ∷ bs) rest)
    ]

module _ (float : Float) where
  -- The field lies inside a payload of the given length.
  abbrev pub Inside : FieldDef float → ℕ → Type 0
  Inside f n = (f.offset + size f.ty ≤ n) × (n < 2 ^ 64 - 1)

  inside_test :
      (offset n len : ℕ) → offset + n ≤ len → len < 2 ^ 64 - 1 → ltb len (end_of offset n) ≡ false
  inside_test offset n len h room = ground arith

  -- A value that the type of a field holds, written into a payload that has room for the field, reads
  -- back, and the payload keeps its length.
  pub read_field-write_field :
      (f : FieldDef float) (raw : ℤ) (payload : List ℕ)
      → Inside f (length payload)
      → Storable f.ty raw
      → (out : List ℕ) × (write_field float f raw payload ≡ ok out)
        × (read_field float f out ≡ ok raw)
        × (length out ≡ length payload)
  unfolding write_field read_field
  read_field-write_field f raw payload inside fits =
      let out = write_from f.offset (raw_bytes f.ty raw) payload in
      let len = length-write_from f.offset (raw_bytes f.ty raw) payload in
      let wide = length-raw_bytes f.ty raw in
      let back : slice out f.offset (size f.ty) ≡ raw_bytes f.ty raw =
        subst (λ n. slice out f.offset n ≡ raw_bytes f.ty raw) wide
          (slice-write_from f.offset (raw_bytes f.ty raw) payload
            (omega (arith, inside.0, wide))) in
      (
        out,
        rw (inside_test f.offset (size f.ty) (length payload) inside.0 inside.1) refl,
        rw
            (
              inside_test f.offset (size f.ty) (length out) (omega (arith, inside.0, len))
                  (omega (arith, inside.1, len)),
              back,
              raw_int-raw_bytes f.ty raw fits,
            )
            refl,
        len,
      )

  pub length-write_field :
      (f : FieldDef float) (raw : ℤ) (payload out : List ℕ)
      → Inside f (length payload)
      → write_field float f raw payload ≡ ok out
      → length out ≡ length payload
  unfolding write_field
  length-write_field f raw payload out inside h =
      let written : write_field float f raw payload
          ≡ ok (write_from f.offset (raw_bytes f.ty raw) payload) =
        rw (inside_test f.offset (size f.ty) (length payload) inside.0 inside.1) refl in
      ap length (sym (ok_inj (sym written ∙ h)))
      ∙ length-write_from f.offset (raw_bytes f.ty raw) payload

  -- Writing a field leaves what is read of a field whose bytes lie before or after its bytes, when the
  -- payload has room for both.
  pub read_field-write_other :
      (f g : FieldDef float) (raw : ℤ) (payload : List ℕ)
      → Inside f (length payload)
      → Inside g (length payload)
      → (g.offset + size g.ty ≤ f.offset) ⊎ (f.offset + size f.ty ≤ g.offset)
      → (out : List ℕ) × (write_field float f raw payload ≡ ok out)
        × (read_field float g out ≡ read_field float g payload)
  unfolding write_field read_field
  read_field-write_other f g raw payload inside inside' apart =
      let out = write_from f.offset (raw_bytes f.ty raw) payload in
      let len = length-write_from f.offset (raw_bytes f.ty raw) payload in
      let wide = length-raw_bytes f.ty raw in
      (
        out,
        rw (inside_test f.offset (size f.ty) (length payload) inside.0 inside.1) refl,
        rw
            (
              len,
              slice-write_from_other (size g.ty) g.offset f.offset (raw_bytes f.ty raw) payload
                  (omega (arith, apart, wide)),
            )
            refl,
      )
