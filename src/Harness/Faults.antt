-- ===== src/Harness/Faults.antt =====
-- The faults of a test: `fault_from_kind` and `udp_fault_from_kind` of crates/embrig-test/src/runner.rs.
pub mod Validated
use embrig.Prelude.{ℕ, String, Option, none, some}
use embrig.Prelude.Fallible.{Fallible, ok, ◌>>=◌, or_panic}
use embrig.Core.Fault.{Fault, drop_frame, delay_frame, corrupt_byte}
use embrig.Net.Udp.{UdpFault}
use embrig.Net.Udp as Udp
use embrig.Harness.Duration.{DslError, parse_duration}
use embrig.Harness.Dsl.{FaultKind, UdpFaultKind}

-- The arguments that a kind requires were checked by `load_spec`; `expect` panics without them.
unfoldable pub fault_from_kind :
    FaultKind → ℕ → Option String → Option ℕ → Option ℕ → Fallible DslError Fault
unfolding parse_duration
fault_from_kind FaultKind.drop id after byte mask = ok (drop_frame id)
fault_from_kind FaultKind.delay id after byte mask = do
  text ← or_panic after
  delay_us ← parse_duration text
  ok (delay_frame id delay_us)
fault_from_kind FaultKind.corrupt id after byte mask = do
  b ← or_panic byte
  m ← or_panic mask
  ok (corrupt_byte id b m)

unfoldable pub udp_fault_from_kind :
    {A : Type 0}
    → UdpFaultKind
    → A
    → Option String
    → Option ℕ
    → Option ℕ
    → Fallible DslError (UdpFault A)
unfolding parse_duration
udp_fault_from_kind UdpFaultKind.drop dst after byte mask = ok (Udp.drop dst)
udp_fault_from_kind UdpFaultKind.delay dst after byte mask = do
  text ← or_panic after
  delay_us ← parse_duration text
  ok (Udp.delay dst delay_us)
udp_fault_from_kind UdpFaultKind.corrupt dst after byte mask = do
  b ← or_panic byte
  m ← or_panic mask
  ok (Udp.corrupt_byte dst b m)
