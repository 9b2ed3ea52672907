-- ===== src/Tests.antt =====
-- Concrete runs of the models, and the theorems applied at them.
mod Bus
mod Reals
mod Runs
mod Routes
mod Signals
mod Fields
mod Ecus
mod Nodes
mod Stimulus
mod Suites
mod Vehicles
mod Documents
