-- ===== src/Core/Time.antt =====
-- crates/embrig-core/src/time.rs: timestamps are u64 microseconds.
use embrig.Prelude.{ℕ}
use embrig.Prelude.Panic.{Panic, mul_u64}

abbrev pub Timestamp : Type 0
Timestamp = ℕ

abbrev pub us_per_ms : Timestamp
us_per_ms = 1000

abbrev pub us_per_s : Timestamp
us_per_s = 1000000

unfoldable pub ms : ℕ → Panic Timestamp
ms n = mul_u64 n us_per_ms

unfoldable pub sec : ℕ → Panic Timestamp
sec n = mul_u64 n us_per_s
