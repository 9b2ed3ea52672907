-- ===== src/Net/Netmap/Bytes.antt =====
-- The bytes of a field's value (crates/embrig-net/src/netmap.rs) give the value back.
use native.Mathlib.Nat.{pow-suc}
use embrig.Prelude.{
  ℕ, zero, suc, ◌+◌, ◌-◌, ◌*◌, ◌/◌, ◌%◌, ◌^◌, ◌<◌, ◌≡◌, refl, ap, ◌∙◌, true, List, [], ◌∷◌, ◌++◌,
  arith,
}
use embrig.Prelude.Int.{ℤ, pos, negsuc, as_u64, as_i64, as_i64-as_u64, IsI64}
use embrig.Net.Netmap.{
  FieldType, u8, u16le, u16be, u32le, u32be, i16le, i32le, f32le, f64le, bool, to_le_bytes,
  to_be_bytes, from_le_bytes, from_be_bytes, raw_bytes, raw_int, fits_type, between,
}

pub from_le_bytes-to_le_bytes : (n v : ℕ) → v < 256 ^ n → from_le_bytes (to_le_bytes n v) ≡ v
from_le_bytes-to_le_bytes zero v h = omega (arith, h)
from_le_bytes-to_le_bytes (suc n) v h =
    omega (arith, from_le_bytes-to_le_bytes n (v / 256) (omega (arith, h, pow-suc 256 n)))

from_be_bytes-append :
    (bytes : List ℕ) (b acc : ℕ)
    → from_be_bytes (bytes ++ b ∷ []) acc ≡ from_be_bytes bytes acc * 256 + b
from_be_bytes-append [] b acc = refl
from_be_bytes-append (c ∷ bytes) b acc = from_be_bytes-append bytes b (acc * 256 + c)

pub from_be_bytes-to_be_bytes : (n v : ℕ) → v < 256 ^ n → from_be_bytes (to_be_bytes n v) 0 ≡ v
from_be_bytes-to_be_bytes zero v h = omega (arith, h)
from_be_bytes-to_be_bytes (suc n) v h = omega (
  arith,
  from_be_bytes-append (to_be_bytes n (v / 256)) (v % 256) 0,
  from_be_bytes-to_be_bytes n (v / 256) (omega (arith, h, pow-suc 256 n)),
)

-- A value that a field of the type holds: the bits of a float, and otherwise a value in range.
abbrev pub Storable : FieldType → ℤ → Type 0
Storable f32le v = between (pos 0) (pos (2 ^ 32 - 1)) v ≡ true
Storable f64le v = IsI64 v
Storable u8 v = fits_type u8 v ≡ true
Storable bool v = fits_type bool v ≡ true
Storable u16le v = fits_type u16le v ≡ true
Storable u16be v = fits_type u16be v ≡ true
Storable u32le v = fits_type u32le v ≡ true
Storable u32be v = fits_type u32be v ≡ true
Storable i16le v = fits_type i16le v ≡ true
Storable i32le v = fits_type i32le v ≡ true

as_u64-lt : (v : ℤ) → as_u64 v < 256 ^ 8
as_u64-lt (pos n) = omega arith
as_u64-lt (negsuc n) = omega arith

-- The bytes of a value that fits give the value back, for every type of field.
pub raw_int-raw_bytes :
    (ty : FieldType) (raw : ℤ) → Storable ty raw → raw_int ty (raw_bytes ty raw) ≡ raw
unfolding raw_int raw_bytes fits_type
raw_int-raw_bytes u8 (pos n) h = ground arith
raw_int-raw_bytes u8 (negsuc n) h = absurd (ground arith)
raw_int-raw_bytes bool (pos n) h = ground arith
raw_int-raw_bytes bool (negsuc n) h = absurd (ground arith)
raw_int-raw_bytes u16le (pos n) h =
    ap pos (from_le_bytes-to_le_bytes 2 (n % 2 ^ 64 % 2 ^ 16) (omega arith) ∙ ground arith)
raw_int-raw_bytes u16le (negsuc n) h = absurd (ground arith)
raw_int-raw_bytes u16be (pos n) h =
    ap pos (from_be_bytes-to_be_bytes 2 (n % 2 ^ 64 % 2 ^ 16) (omega arith) ∙ ground arith)
raw_int-raw_bytes u16be (negsuc n) h = absurd (ground arith)
raw_int-raw_bytes u32le (pos n) h =
    ap pos (from_le_bytes-to_le_bytes 4 (n % 2 ^ 64 % 2 ^ 32) (omega arith) ∙ ground arith)
raw_int-raw_bytes u32le (negsuc n) h = absurd (ground arith)
raw_int-raw_bytes u32be (pos n) h =
    ap pos (from_be_bytes-to_be_bytes 4 (n % 2 ^ 64 % 2 ^ 32) (omega arith) ∙ ground arith)
raw_int-raw_bytes u32be (negsuc n) h = absurd (ground arith)
raw_int-raw_bytes i16le (pos n) h =
    rw (from_le_bytes-to_le_bytes 2 (n % 2 ^ 64 % 2 ^ 16) (omega arith)) (ground arith)
raw_int-raw_bytes i16le (negsuc n) h =
    rw (from_le_bytes-to_le_bytes 2 ((2 ^ 64 - 1 - n % 2 ^ 64) % 2 ^ 16) (omega arith))
      (ground arith)
raw_int-raw_bytes i32le (pos n) h =
    rw (from_le_bytes-to_le_bytes 4 (n % 2 ^ 64 % 2 ^ 32) (omega arith)) (ground arith)
raw_int-raw_bytes i32le (negsuc n) h =
    rw (from_le_bytes-to_le_bytes 4 ((2 ^ 64 - 1 - n % 2 ^ 64) % 2 ^ 32) (omega arith))
      (ground arith)
raw_int-raw_bytes f32le (pos n) h =
    ap pos (from_le_bytes-to_le_bytes 4 (n % 2 ^ 64 % 2 ^ 32) (omega arith) ∙ ground arith)
raw_int-raw_bytes f32le (negsuc n) h = absurd (ground arith)
raw_int-raw_bytes f64le raw h =
    ap as_i64 (from_le_bytes-to_le_bytes 8 (as_u64 raw) (as_u64-lt raw)) ∙ as_i64-as_u64 raw h
