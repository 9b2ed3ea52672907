-- ===== src/Models.antt =====
-- crates/embrig-models/src/ecus.rs: the reference ECUs of the electric powertrain.
pub mod Sending
pub mod Charger
pub mod Vehicle
pub mod Motor
pub mod Config
pub mod Build
