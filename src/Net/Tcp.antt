-- ===== src/Net/Tcp.antt =====
-- TcpSegment and TcpFault of crates/embrig-net/src/tcp.rs: segments and their faults. An endpoint is
-- of a type `A` with a comparison, printed by `display`, since the standard library's addresses are
-- only compared and printed.
pub mod Sim
pub mod Ecu
use embrig.Prelude.{ℕ, Bool, String, List, refl}
use embrig.Prelude.Keys.{Key, ◌==◌}
use embrig.Core.Time.{Timestamp}
use embrig.Core.Network.{NetMessage, NetAction, NetFault}

pub record TcpSegment (A : Type 0) : Type 0 where
  pub src : A
  pub dst : A
  pub payload : List ℕ
  pub ts : Timestamp

pub data TcpFault (A : Type 0) : Type 0 where
  drop : (dst : A) → TcpFault A
  delay : (dst : A) (delay_us : Timestamp) → TcpFault A
  corrupt_byte : (dst : A) (byte mask : ℕ) → TcpFault A

module _ {A : Type 0} where
  unfoldable pub new : A → A → List ℕ → TcpSegment A
  new src dst payload = record { src = src; dst = dst; payload = payload; ts = 0 }

  abbrev pub segment_message : (A → String) → NetMessage A (TcpSegment A)
  segment_message display = record {
    key = λ d. d.dst;
    payload = λ d. d.payload;
    set_payload = λ d p. record d { payload = p };
    ts = λ d. d.ts;
    set_ts = λ d t. record d { ts = t };
    noun = "segment";
    label = λ d. display d.dst;
    ts-set_ts = λ d t. refl;
    key-set_ts = λ d t. refl;
    payload-set_ts = λ d t. refl;
    key-set_payload = λ d p. refl;
    ts-set_payload = λ d p. refl;
    payload-set_payload = λ d p. refl;
  }

  unfoldable pub action : TcpFault A → NetAction
  action (drop dst) = NetAction.drop
  action (delay dst delay_us) = NetAction.delay delay_us
  action (corrupt_byte dst byte mask) = NetAction.corrupt byte mask

module _ {A : Type 0} ⦃k : Key A⦄ where
  unfoldable pub matches : TcpFault A → A → Bool
  matches (drop dst) key = dst == key
  matches (delay dst delay_us) key = dst == key
  matches (corrupt_byte dst byte mask) key = dst == key

  abbrev pub tcp_fault : NetFault A (TcpFault A)
  tcp_fault = record { matches = matches; action = action }
