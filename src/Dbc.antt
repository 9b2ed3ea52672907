-- ===== src/Dbc.antt =====
-- crates/embrig-dbc: DBC message definitions and the bit-packing signal codec.
pub mod Types
pub mod Codec
pub mod Seam
pub mod Text
pub mod SignalLine
pub mod Parser
