-- ===== src/Harness.antt =====
-- crates/embrig-test: the test language, the targets it runs on, and the runner.
pub mod Duration
pub mod Dsl
pub mod Target
pub mod Assertion
pub mod Polling
pub mod Faults
pub mod Steps
pub mod Exec
pub mod Runner
