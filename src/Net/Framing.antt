-- ===== src/Net/Framing.antt =====
-- The nodes of crates/embrig-net/src/ecu.rs and crates/embrig-net/src/tcp.rs side by side, driven by
-- the same commands.
use embrig.Prelude.{
  String, List, [], ◌∷◌, ◌++◌, map, some, ◌≡◌, refl, ap, ltb, arith, Bool-cases, Option-cases, inl,
  inr,
}
use mathlib.Core.Option
use embrig.Prelude.Keys.{string_key}
use embrig.Prelude.Map.{Map}
use embrig.Prelude.Panic.{Panic, ◌>>=◌, add_u64}
use embrig.Prelude.Fallible.{Fallible-cases}
use embrig.Prelude.Result.{Result}
use embrig.Core.Time.{Timestamp}
use embrig.Core.Float.{Float}
use embrig.Core.Signal.{SignalValue}
use embrig.Core.Network.{NetEcuError}
use embrig.Net.Netmap.{FieldError}
use embrig.Net.Udp.{UdpDatagram}
use embrig.Net.Udp.Ecu.{UdpConfigEcu}
use embrig.Net.Udp.Ecu as Udp
use embrig.Net.Udp as UdpData
use embrig.Net.Tcp.{TcpSegment}
use embrig.Net.Tcp.Ecu.{TcpConfigEcu}
use embrig.Net.Tcp.Ecu as Tcp
use embrig.Net.Tcp as TcpData

-- What the simulation and the tests do to a node.
pub data Command (R : Type 0) : Type 0 where
  update : Timestamp → Command R
  set_field : (message name : String) → SignalValue R → Command R

abbrev pub Answers : Type 0
Answers = List (Result NetEcuError (Unit {0}))

module _ {A : Type 0} where
  abbrev pub frame : UdpDatagram A → TcpSegment A
  frame d = record { src = d.src; dst = d.dst; payload = d.payload; ts = d.ts }

module _ (float : Float) {A : Type 0} (to_string : FieldError float → String) where
  open float use {R}

  abbrev pub mirror : UdpConfigEcu float A → TcpConfigEcu float A
  mirror e = record {
    name = e.name;
    src = e.src;
    message_name = e.message_name;
    message = e.message;
    period_us = e.period_us;
    base = e.base;
    overrides = e.overrides;
    next = e.next;
  }

  -- The node after a list of commands, what it sent, and its answers to `set_field`.
  unfoldable pub run_udp :
      UdpConfigEcu float A
      → List (Command R)
      → List (UdpDatagram A)
      → Answers
      → Panic (UdpConfigEcu float A × List (UdpDatagram A) × Answers)
  run_udp e [] out answers = some (e, out, answers)
  run_udp e (update time ∷ rest) out answers = do
    (e', out') ← Udp.update float to_string e time out
    run_udp e' rest out' answers
  run_udp e (set_field message name value ∷ rest) out answers =
      let (e', answer) = Udp.set_field float e message name value in
      run_udp e' rest out (answers ++ answer ∷ [])

  unfoldable pub run_tcp :
      TcpConfigEcu float A
      → List (Command R)
      → List (TcpSegment A)
      → Answers
      → Panic (TcpConfigEcu float A × List (TcpSegment A) × Answers)
  run_tcp e [] out answers = some (e, out, answers)
  run_tcp e (update time ∷ rest) out answers = do
    (e', out') ← Tcp.update float to_string e time out
    run_tcp e' rest out' answers
  run_tcp e (set_field message name value ∷ rest) out answers =
      let (e', answer) = Tcp.set_field float e message name value in
      run_tcp e' rest out (answers ++ answer ∷ [])

  values-mirror :
      {V : Type 0} (e : UdpConfigEcu float A) (fields : Map String V)
      → Tcp.values float (mirror e) fields ≡ Udp.values float e fields
  unfolding Tcp.values Udp.values Tcp.current Udp.current
  values-mirror e [] = refl
  values-mirror e ((name, f) ∷ fields) =
      ap (λ vs. (name, Udp.current float e name) ∷ vs) (values-mirror e fields)

  encode-mirror :
      (e : UdpConfigEcu float A)
      → Tcp.encode float to_string (mirror e) ≡ Udp.encode float to_string e
  unfolding Tcp.encode Udp.encode
  encode-mirror e = rw (values-mirror e e.message.fields) refl

  abbrev mirror_sent :
      UdpConfigEcu float A × List (UdpDatagram A) → TcpConfigEcu float A × List (TcpSegment A)
  mirror_sent (e, out) = (mirror e, map frame out)

  map-frame-append :
      (out : List (UdpDatagram A)) (d : UdpDatagram A)
      → map frame (out ++ d ∷ []) ≡ map frame out ++ frame d ∷ []
  map-frame-append [] d = refl
  map-frame-append (o ∷ out) d = ap (λ os. frame o ∷ os) (map-frame-append out d)

  update-mirror :
      (e : UdpConfigEcu float A) (time : Timestamp) (out : List (UdpDatagram A))
      → Tcp.update float to_string (mirror e) time (map frame out)
        ≡ Option.map mirror_sent (Udp.update float to_string e time out)
  unfolding Tcp.update Udp.update TcpData.new UdpData.new
  update-mirror e time out = rw (encode-mirror e) (elim (Bool-cases (ltb time e.next)) [
    | inl waiting ↦ rw waiting refl
    | inr due ↦ elim (Fallible-cases (Udp.encode float to_string e)) [
      | inl p ↦ rw (due, p) refl
      | inr (inl (failure, p)) ↦
          rw (due, p)
            (elim (Option-cases (add_u64 time e.period_us)) [
              | inl q ↦ rw q refl
              | inr (next, q) ↦ rw q refl
            ])
      | inr (inr (payload, p)) ↦
          rw (due, p)
            (elim (Option-cases (add_u64 time e.period_us)) [
              | inl q ↦ rw q refl
              | inr (next, q) ↦
                  rw (q, map-frame-append out (UdpData.new e.src e.message.dst payload)) refl
            ])
    ]
  ])

  set_field-mirror :
      (e : UdpConfigEcu float A) (message name : String) (value : SignalValue R)
      → Tcp.set_field float (mirror e) message name value ≡ (
        mirror (Udp.set_field float e message name value).0,
        (Udp.set_field float e message name value).1,
      )
  unfolding Tcp.set_field Udp.set_field
  set_field-mirror e message name value = ground arith

  abbrev pub mirror_run :
      UdpConfigEcu float A × List (UdpDatagram A) × Answers
      → TcpConfigEcu float A × List (TcpSegment A) × Answers
  mirror_run (e, out, answers) = (mirror e, map frame out, answers)

  -- A TCP node and a UDP node of the same configuration, given the same updates and field overrides,
  -- answer alike, panic alike, end in the same state and send the same payloads: each segment is
  -- the datagram with its endpoints, payload and time.
  pub run_tcp-run_udp :
      (e : UdpConfigEcu float A) (commands : List (Command R)) (out : List (UdpDatagram A))
      (answers : Answers)
      → run_tcp (mirror e) commands (map frame out) answers
        ≡ Option.map mirror_run (run_udp e commands out answers)
  unfolding run_tcp run_udp
  run_tcp-run_udp e [] out answers = refl
  run_tcp-run_udp e (update time ∷ rest) out answers =
      elim (Option-cases (Udp.update float to_string e time out)) [
        | inl p ↦ rw (run_tcp, run_udp, update-mirror e time out, p) refl
        | inr ((e', out'), p) ↦
            rw (run_tcp, run_udp, update-mirror e time out, p)
              (run_tcp-run_udp e' rest out' answers)
      ]
  run_tcp-run_udp e (set_field message name value ∷ rest) out answers =
      rw (run_tcp, run_udp, set_field-mirror e message name value)
        (run_tcp-run_udp (Udp.set_field float e message name value).0 rest out
          (answers ++ (Udp.set_field float e message name value).1 ∷ []))
