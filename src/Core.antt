-- ===== src/Core.antt =====
-- crates/embrig-core: time, frames, signal values, faults, the recorder and the network simulation.
pub mod Time
pub mod Signal
pub mod Network
pub mod Recorder
pub mod Frame
pub mod Fault
pub mod Registry
pub mod Sim
pub mod Float
pub mod Codec
