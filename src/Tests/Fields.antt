-- ===== src/Tests/Fields.antt =====
-- The theorems on fields, applied to a payload of six bytes.
use embrig.Prelude.{ℕ, ◌≡◌, inr, refl, List, [], arith, length, replicate}
use embrig.Prelude.Int.{pos, negsuc}
use embrig.Prelude.Fallible.{ok}
use embrig.Net.Netmap.{FieldDef, u16be, i32le, size, write_field, read_field, fits_type}
use embrig.Net.Netmap.RoundTrip.{read_field-write_field, read_field-write_other}
use embrig.Tests.Reals.{whole}

abbrev angle : FieldDef whole
angle = record { offset = 0; ty = i32le; factor = pos 1; shift = pos 0; values = [] }

abbrev port : FieldDef whole
port = record { offset = 4; ty = u16be; factor = pos 1; shift = pos 0; values = [] }

abbrev six : List ℕ
six = replicate 6 0

read_field-write_field_example :
    (out : List ℕ) × (write_field whole angle (negsuc 1) six ≡ ok out)
    × (read_field whole angle out ≡ ok (negsuc 1))
    × (length out ≡ 6)
unfolding fits_type size
read_field-write_field_example =
    read_field-write_field whole angle (negsuc 1) six (omega arith, omega arith) refl

read_field-write_other_example :
    (out : List ℕ) × (write_field whole angle (negsuc 1) six ≡ ok out)
    × (read_field whole port out ≡ read_field whole port six)
unfolding size
read_field-write_other_example =
    read_field-write_other whole angle port (negsuc 1) six (omega arith, omega arith)
      (omega arith, omega arith) (inr (omega arith))
