-- ===== src/Net/Udp.antt =====
-- crates/embrig-net/src/datagram.rs and UdpFault of crates/embrig-net/src/sim.rs: datagrams and their faults. An endpoint is
-- of a type `A` with a comparison, printed by `display`, since the standard library's addresses are
-- only compared and printed.
pub mod Sim
pub mod Ecu
pub mod Timing
pub mod Overrides
use embrig.Prelude.{ℕ, Bool, String, List, refl}
use embrig.Prelude.Keys.{Key, ◌==◌}
use embrig.Core.Time.{Timestamp}
use embrig.Core.Network.{NetMessage, NetAction, NetFault}

pub record UdpDatagram (A : Type 0) : Type 0 where
  pub src : A
  pub dst : A
  pub payload : List ℕ
  pub ts : Timestamp

pub data UdpFault (A : Type 0) : Type 0 where
  drop : (dst : A) → UdpFault A
  delay : (dst : A) (delay_us : Timestamp) → UdpFault A
  corrupt_byte : (dst : A) (byte mask : ℕ) → UdpFault A

module _ {A : Type 0} where
  unfoldable pub new : A → A → List ℕ → UdpDatagram A
  new src dst payload = record { src = src; dst = dst; payload = payload; ts = 0 }

  abbrev pub datagram_message : (A → String) → NetMessage A (UdpDatagram A)
  datagram_message display = record {
    key = λ d. d.dst;
    payload = λ d. d.payload;
    set_payload = λ d p. record d { payload = p };
    ts = λ d. d.ts;
    set_ts = λ d t. record d { ts = t };
    noun = "datagram";
    label = λ d. display d.dst;
    ts-set_ts = λ d t. refl;
    key-set_ts = λ d t. refl;
    payload-set_ts = λ d t. refl;
    key-set_payload = λ d p. refl;
    ts-set_payload = λ d p. refl;
    payload-set_payload = λ d p. refl;
  }

  unfoldable pub action : UdpFault A → NetAction
  action (drop dst) = NetAction.drop
  action (delay dst delay_us) = NetAction.delay delay_us
  action (corrupt_byte dst byte mask) = NetAction.corrupt byte mask

module _ {A : Type 0} ⦃k : Key A⦄ where
  unfoldable pub matches : UdpFault A → A → Bool
  matches (drop dst) key = dst == key
  matches (delay dst delay_us) key = dst == key
  matches (corrupt_byte dst byte mask) key = dst == key

  abbrev pub udp_fault : NetFault A (UdpFault A)
  udp_fault = record { matches = matches; action = action }
