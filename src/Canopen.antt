-- ===== src/Canopen.antt =====
-- crates/embrig-canopen/src/lib.rs: identifiers and state bytes of the CANopen subset.
pub mod Values
pub mod Heartbeat
pub mod Nmt
pub mod Node
use embrig.Prelude.{ℕ, ◌+◌}

abbrev pub nmt : ℕ
nmt = 0x000

-- The node is a u8, so that the sums stay far below u32.
unfoldable pub tpdo1 : ℕ → ℕ
tpdo1 node = 0x180 + node

unfoldable pub rpdo1 : ℕ → ℕ
rpdo1 node = 0x200 + node

unfoldable pub heartbeat : ℕ → ℕ
heartbeat node = 0x700 + node

abbrev pub nmt_start : ℕ
nmt_start = 0x01

abbrev pub nmt_stop : ℕ
nmt_stop = 0x02

abbrev pub nmt_pre_operational : ℕ
nmt_pre_operational = 0x80

abbrev pub hb_boot_up : ℕ
hb_boot_up = 0x00

abbrev pub hb_stopped : ℕ
hb_stopped = 0x04

abbrev pub hb_operational : ℕ
hb_operational = 0x05

abbrev pub hb_pre_operational : ℕ
hb_pre_operational = 0x7F
