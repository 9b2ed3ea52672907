-- ===== src/Net/Netmap.antt =====
-- crates/embrig-net/src/netmap.rs: named fields at byte offsets of a payload. The endpoint type is a
-- parameter `A`, since the standard library's addresses are only stored and compared.
pub mod Bytes
pub mod RoundTrip
pub mod Whole
use Prim.Native.Nat.{min}
use embrig.Prelude.{
  ℕ, zero, suc, ◌+◌, ◌-◌, ◌*◌, ◌/◌, ◌%◌, ◌^◌, Bool, true, false, not, ◌&&◌, ◌||◌, eqb, ltb, leb,
  if◌then◌else◌, String, List, [], ◌∷◌, ◌++◌, Option, none, some, find, length, get_elem?, set,
  replicate,
}
use embrig.Prelude.Keys.{◌==◌, string_key}
use embrig.Prelude.Map.{Map, get, insert}
use embrig.Prelude.Int.{ℤ, pos, negsuc, int_key, as_u64, as_i64, leb_ℤ}
use embrig.Prelude.Fallible.{Fallible, ok, err, panic, ◌>>=◌, or_err, or_panic}
use embrig.Core.Float.{Float}
use embrig.Core.Signal.{SignalValue, num, str}

pub data FieldType : Type 0 where
  u8 u16le u16be u32le u32be i16le i32le f32le f64le bool : FieldType

unfoldable pub size : FieldType → ℕ
size u8 = 1
size bool = 1
size u16le = 2
size u16be = 2
size i16le = 2
size u32le = 4
size u32be = 4
size i32le = 4
size f32le = 4
size f64le = 8

-- `to_le_bytes` and `to_be_bytes` of an unsigned value of `n` bytes, and back.
abbrev pub to_le_bytes : ℕ → ℕ → List ℕ
to_le_bytes zero v = []
to_le_bytes (suc n) v = v % 256 ∷ to_le_bytes n (v / 256)

abbrev pub to_be_bytes : ℕ → ℕ → List ℕ
to_be_bytes zero v = []
to_be_bytes (suc n) v = to_be_bytes n (v / 256) ++ v % 256 ∷ []

abbrev pub from_le_bytes : List ℕ → ℕ
from_le_bytes [] = 0
from_le_bytes (b ∷ bytes) = b + 256 * from_le_bytes bytes

-- Each byte makes the value so far 256 times as large.
abbrev pub from_be_bytes : List ℕ → ℕ → ℕ
from_be_bytes [] acc = acc
from_be_bytes (b ∷ bytes) acc = from_be_bytes bytes (acc * 256 + b)

-- `v as i16` and `v as i32` of an unsigned value of that width, as an integer.
abbrev pub signed : ℕ → ℕ → ℤ
signed half v = if ltb v half then pos v else negsuc (half + half - 1 - v)

unfoldable pub raw_bytes : FieldType → ℤ → List ℕ
raw_bytes u8 raw = as_u64 raw % 256 ∷ []
raw_bytes bool raw = (if raw == pos 0 then 0 else 1) ∷ []
raw_bytes u16le raw = to_le_bytes 2 (as_u64 raw % 2 ^ 16)
raw_bytes u16be raw = to_be_bytes 2 (as_u64 raw % 2 ^ 16)
raw_bytes u32le raw = to_le_bytes 4 (as_u64 raw % 2 ^ 32)
raw_bytes u32be raw = to_be_bytes 4 (as_u64 raw % 2 ^ 32)
raw_bytes i16le raw = to_le_bytes 2 (as_u64 raw % 2 ^ 16)
raw_bytes i32le raw = to_le_bytes 4 (as_u64 raw % 2 ^ 32)
raw_bytes f32le raw = to_le_bytes 4 (as_u64 raw % 2 ^ 32)
raw_bytes f64le raw = to_le_bytes 8 (as_u64 raw)

-- Of a slice of the type's size.
unfoldable pub raw_int : FieldType → List ℕ → ℤ
raw_int u8 bytes = pos (from_le_bytes bytes)
raw_int bool bytes = if eqb (from_le_bytes bytes) 0 then pos 0 else pos 1
raw_int u16le bytes = pos (from_le_bytes bytes)
raw_int u16be bytes = pos (from_be_bytes bytes 0)
raw_int u32le bytes = pos (from_le_bytes bytes)
raw_int u32be bytes = pos (from_be_bytes bytes 0)
raw_int i16le bytes = signed (2 ^ 15) (from_le_bytes bytes)
raw_int i32le bytes = signed (2 ^ 31) (from_le_bytes bytes)
raw_int f32le bytes = pos (from_le_bytes bytes)
raw_int f64le bytes = as_i64 (from_le_bytes bytes)

abbrev pub between : ℤ → ℤ → ℤ → Bool
between lo hi v = leb_ℤ lo v && leb_ℤ v hi

unfoldable pub fits_type : FieldType → ℤ → Bool
fits_type u8 v = between (pos 0) (pos 255) v
fits_type bool v = (v == pos 0) || (v == pos 1)
fits_type u16le v = between (pos 0) (pos (2 ^ 16 - 1)) v
fits_type u16be v = between (pos 0) (pos (2 ^ 16 - 1)) v
fits_type u32le v = between (pos 0) (pos (2 ^ 32 - 1)) v
fits_type u32be v = between (pos 0) (pos (2 ^ 32 - 1)) v
fits_type i16le v = between (negsuc (2 ^ 15 - 1)) (pos (2 ^ 15 - 1)) v
fits_type i32le v = between (negsuc (2 ^ 31 - 1)) (pos (2 ^ 31 - 1)) v
fits_type f32le v = true
fits_type f64le v = true

-- `payload[offset + i] = *b` for each byte, and `&payload[offset..end]` of `n` bytes.
unfoldable pub write_from : ℕ → List ℕ → List ℕ → List ℕ
write_from i [] payload = payload
write_from i (b ∷ bytes) payload = write_from (i + 1) bytes (set payload i b)

unfoldable pub slice : List ℕ → ℕ → ℕ → List ℕ
slice payload i zero = []
slice payload i (suc n) = elim (get_elem? payload i) [
  | none ↦ []
  | some b ↦ b ∷ slice payload (i + 1) n
]

-- `offset.saturating_add(size)`
abbrev pub end_of : ℕ → ℕ → ℕ
end_of offset n = min (offset + n) (2 ^ 64 - 1)

module _ (float : Float) where
  open float use {
    R, add, sub, mul, div, is_nan, is_infinite, of_i64, round_i64, f32_bits, f32_is_finite,
    f32_value, f64_bits, f64_value,
  }

  -- The constructors of the source; `symbolic_value` is never built.
  pub data FieldError : Type 0 where
    out_of_bounds : String → ℕ → ℕ → FieldError
    unknown_field : String → FieldError
    symbolic_value : (name value : String) → FieldError
    unknown_symbol : (field symbol : String) → FieldError
    value_out_of_range : R → FieldType → FieldError

  pub record FieldDef : Type 0 where
    pub offset : ℕ
    pub ty : FieldType
    pub factor : R
    pub shift : R
    pub values : Map ℤ String

  pub record MessageDef (A : Type 0) : Type 0 where
    pub dst : A
    pub length : ℕ
    pub fields : Map String FieldDef

  pub record DecodedField : Type 0 where
    pub name : String
    pub value : R
    pub symbol : Option String

  -- The name in the error is always empty.
  unfoldable pub write_field : FieldDef → ℤ → List ℕ → Fallible FieldError (List ℕ)
  unfolding size raw_bytes write_from
  write_field f raw payload =
      if ltb (length payload) (end_of f.offset (size f.ty))
      then err (out_of_bounds "" f.offset (length payload))
      else ok (write_from f.offset (raw_bytes f.ty raw) payload)

  unfoldable pub read_field : FieldDef → List ℕ → Fallible FieldError ℤ
  unfolding size raw_int slice
  read_field f payload =
      if ltb (length payload) (end_of f.offset (size f.ty))
      then err (out_of_bounds "" f.offset (length payload))
      else ok (raw_int f.ty (slice payload f.offset (size f.ty)))

  unfoldable pub to_integer : FieldDef → R → R → Fallible FieldError ℤ
  unfolding fits_type
  to_integer f value scaled =
      if not (fits_type f.ty (round_i64 scaled))
      then err (value_out_of_range value f.ty)
      else ok (round_i64 scaled)

  unfoldable pub physical_to_raw : FieldDef → R → Fallible FieldError ℤ
  physical_to_raw f value =
      let scaled = div (sub value f.shift) f.factor in
      if is_nan scaled || is_infinite scaled
      then err (value_out_of_range value f.ty)
      else elim f.ty [
        | f32le ↦
            if f32_is_finite scaled
            then ok (pos (f32_bits scaled))
            else err (value_out_of_range value f.ty)
        | f64le ↦ ok (as_i64 (f64_bits scaled))
        | _ ↦ to_integer f value scaled
      ]

  unfoldable pub raw_to_physical : FieldDef → ℤ → R
  raw_to_physical f raw =
      let value = elim f.ty as (λ _. R) [
        | f32le ↦ f32_value (as_u64 raw % 2 ^ 32)
        | f64le ↦ f64_value (as_u64 raw)
        | _ ↦ of_i64 raw
      ] in
      add (mul value f.factor) f.shift

  module _ {A : Type 0} where
    unfoldable pub field : MessageDef A → String → Option FieldDef
    field m name = get m.fields name

    unfoldable pub resolve_symbol : MessageDef A → String → String → Option ℤ
    unfolding field
    resolve_symbol m name symbol = elim (field m name) [
      | none ↦ none
      | some f ↦ elim (find (λ entry. entry.1 == symbol) f.values) [
        | none ↦ none
        | some entry ↦ some entry.0
      ]
    ]

    unfoldable pub physical_for_symbol : MessageDef A → String → String → Option R
    unfolding field resolve_symbol
    physical_for_symbol m name symbol = elim (field m name) [
      | none ↦ none
      | some f ↦ elim (resolve_symbol m name symbol) [
        | none ↦ none
        | some raw ↦ some (add (mul (of_i64 raw) f.factor) f.shift)
      ]
    ]

    -- A value of a field: numbers are scaled, texts are looked up.
    unfoldable pub resolve :
        MessageDef A → FieldDef → String → SignalValue R → Fallible FieldError ℤ
    resolve m f name (num v) = physical_to_raw f v
    resolve m f name (str s) = or_err (resolve_symbol m name s) (unknown_symbol name s)

    unfoldable pub resolve_all :
        MessageDef A
        → List (String × SignalValue R)
        → Map String ℤ
        → Fallible FieldError (Map String ℤ)
    resolve_all m [] resolved = ok resolved
    resolve_all m ((name, value) ∷ rest) resolved = elim (field m name) [
      | none ↦ resolve_all m rest resolved
      | some f ↦ (resolve m f name value >>= λ raw. resolve_all m rest (insert resolved name raw))
    ]

    unfoldable pub write_all : MessageDef A → Map String ℤ → List ℕ → Fallible FieldError (List ℕ)
    write_all m [] payload = ok payload
    write_all m ((name, raw) ∷ rest) payload = do
      f ← or_panic (field m name)
      payload' ← write_field f raw payload
      write_all m rest payload'

    unfoldable pub encode_fields :
        MessageDef A → List (String × SignalValue R) → Fallible FieldError (List ℕ)
    encode_fields m values = do
      resolved ← resolve_all m values []
      write_all m resolved (replicate m.length 0)

    unfoldable pub decode_field : MessageDef A → List ℕ → String → Fallible FieldError DecodedField
    decode_field m payload name = elim (field m name) [
      | none ↦ err (unknown_field name)
      | some f ↦
          (read_field f payload >>= λ raw.
          ok (record { name = name; value = raw_to_physical f raw; symbol = get f.values raw }))
    ]

    -- `Netmap`: the messages by name.
    unfoldable pub message : Map String (MessageDef A) → String → Option (MessageDef A)
    message messages name = get messages name

    unfoldable pub message_dst : Map String (MessageDef A) → String → Option A
    unfolding message
    message_dst messages name = elim (message messages name) [ none ↦ none | some m ↦ some m.dst ]
