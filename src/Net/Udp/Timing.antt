-- ===== src/Net/Udp/Timing.antt =====
-- When the node of crates/embrig-net/src/ecu.rs sends, over ticks at a fixed step.
use mathlib.Core.List.{append-nil, append_assoc}
use embrig.Prelude.{
  ℕ, zero, suc, ◌+◌, ◌-◌, ◌*◌, ◌^◌, ◌≤◌, ◌<◌, ◌≡◌, ◌⊎◌, inl, inr, refl, ap, List, [], ◌∷◌, ◌++◌,
  String, some, lt_or_le, arith, replicate, lt→ltb, le→ltb, sym, subst, ◌∙◌,
}
use embrig.Prelude.Map.{Map}
use embrig.Prelude.Panic.{Panic, ◌>>=◌, add_u64_lem}
use embrig.Prelude.Fallible.{ok}
use embrig.Core.Time.{Timestamp}
use embrig.Core.Float.{Float}
use embrig.Net.Netmap.{FieldError}
use embrig.Net.Udp.{UdpDatagram, new}
use embrig.Net.Udp.Ecu.{UdpConfigEcu, encode, update, values, current}

module _ (float : Float) {A : Type 0} (to_string : FieldError float → String) where
  -- The updates of `n` ticks from `time` on.
  unfoldable pub ticks :
      UdpConfigEcu float A
      → Timestamp
      → Timestamp
      → ℕ
      → List (UdpDatagram A)
      → Panic (UdpConfigEcu float A × List (UdpDatagram A))
  ticks e time step zero out = some (e, out)
  ticks e time step (suc n) out = do
    (e', out') ← update float to_string e time out
    ticks e' (time + step) step n out'

  abbrev pub at : UdpConfigEcu float A → Timestamp → UdpConfigEcu float A
  at e next = record e { next = next }

  abbrev pub datagram : UdpConfigEcu float A → List ℕ → UdpDatagram A
  datagram e payload = record { src = e.src; dst = e.message.dst; payload = payload; ts = 0 }

  update_waits :
      (e : UdpConfigEcu float A) (time : Timestamp) (out : List (UdpDatagram A))
      → time < e.next
      → update float to_string e time out ≡ some (e, out)
  unfolding update
  update_waits e time out h = rw (lt→ltb time e.next h) refl

  update_sends :
      (e : UdpConfigEcu float A) (payload : List ℕ) (time : Timestamp) (out : List (UdpDatagram A))
      → encode float to_string e ≡ ok payload
      → e.next ≤ time
      → time + e.period_us < 2 ^ 64
      → update float to_string e time out
        ≡ some (at e (time + e.period_us), out ++ datagram e payload ∷ [])
  unfolding update new
  update_sends e payload time out enc due room =
      rw (le→ltb time e.next due, enc, add_u64_lem time e.period_us room) refl

  values-at :
      {V : Type 0} (e : UdpConfigEcu float A) (next : Timestamp) (fields : Map String V)
      → values float (at e next) fields ≡ values float e fields
  unfolding values current
  values-at e next [] = refl
  values-at e next ((name, f) ∷ fields) =
      ap (λ vs. (name, current float e name) ∷ vs) (values-at e next fields)

  encode-at :
      (e : UdpConfigEcu float A) (next : Timestamp)
      → encode float to_string (at e next) ≡ encode float to_string e
  unfolding encode
  encode-at e next = rw (values-at e next e.message.fields) refl

  -- After `n` ticks from `time` on: how many datagrams were sent, at least one when a tick was due,
  -- and no two of them within one period.
  record IsTimed (e : UdpConfigEcu float A) (time step : Timestamp) (n sent : ℕ) : Type 0 where
    due : (n ≡ 0) ⊎ ((time + n * step < e.next + step) ⊎ (1 ≤ sent))
    since_next : (sent ≡ 0) ⊎ (sent * e.period_us + e.next + step ≤ time + n * step + e.period_us)
    since_start : (sent ≡ 0) ⊎ (sent * e.period_us + time + step ≤ time + n * step + e.period_us)

  IsTimed-wait :
      (e : UdpConfigEcu float A) (time step : Timestamp) (n sent : ℕ)
      → time < e.next
      → IsTimed e (time + step) step n sent
      → IsTimed e time step (suc n) sent
  IsTimed-wait e time step n sent waiting timed = record {
    due = elim timed.due [
      | inl z ↦ omega (arith, ap (λ k. k * step) z, waiting)
      | inr d ↦ omega (arith, d)
    ];
    since_next = omega (arith, timed.since_next, waiting);
    since_start = omega (arith, timed.since_start, waiting);
  }

  IsTimed-send :
      (e : UdpConfigEcu float A) (time step : Timestamp) (n sent : ℕ)
      → e.next ≤ time
      → IsTimed (at e (time + e.period_us)) (time + step) step n sent
      → IsTimed e time step (suc n) (suc sent)
  IsTimed-send e time step n sent due timed = record {
    due = inr (inr (omega arith));
    since_next = elim timed.since_next [
      | inl z ↦ inr (omega (arith, ap (λ k. k * e.period_us) z, due))
      | inr h ↦ inr (omega (arith, h, due))
    ];
    since_start = elim timed.since_next [
      | inl z ↦ inr (omega (arith, ap (λ k. k * e.period_us) z, due))
      | inr h ↦ inr (omega (arith, h, due))
    ];
  }

  ticks-IsTimed :
      (e : UdpConfigEcu float A) (payload : List ℕ) (time step : Timestamp) (n : ℕ)
      (out : List (UdpDatagram A))
      → encode float to_string e ≡ ok payload
      → time + n * step + e.period_us < 2 ^ 64
      → (next : Timestamp) × (sent : ℕ) × (ticks e time step n out
          ≡ some (at e next, out ++ replicate sent (datagram e payload)))
        × IsTimed e time step n sent
  unfolding ticks
  ticks-IsTimed e payload time step zero out enc room = (
    e.next,
    0,
    ap (λ os. some (e, os)) (sym (append-nil out)),
    record { due = inl refl; since_next = inl refl; since_start = inl refl },
  )
  ticks-IsTimed e payload time step (suc n) out enc room = elim (lt_or_le time e.next) [
    | inl waiting ↦
        let (next, sent, run, timed) =
          ticks-IsTimed e payload (time + step) step n out enc (omega arith) in
        (
          next,
          sent,
          rw (ticks, update_waits e time out waiting) run,
          IsTimed-wait e time step n sent waiting timed,
        )
    | inr due ↦
        let d = datagram e payload in
        let (next, sent, run, timed) =
          ticks-IsTimed (at e (time + e.period_us)) payload (time + step) step n (out ++ d ∷ [])
            (encode-at e (time + e.period_us) ∙ enc) (omega arith) in
        (
          next,
          suc sent,
          rw (ticks, update_sends e payload time out enc due (omega arith))
              (run
                ∙ ap (λ os. some (at e next, os)) (append_assoc out (d ∷ []) (replicate sent d))),
          IsTimed-send e time step n sent due timed,
        )
  ]

  -- A node whose message encodes sends at least one datagram in the `n + 1` ticks from `time` on, and
  -- does not panic, when its next send is due by the last of these ticks, at `time + n * step`, and no
  -- timestamp overflows. All that it sends are copies of one datagram.
  pub ticks-Sends :
      (e : UdpConfigEcu float A) (payload : List ℕ) (time step : Timestamp) (n : ℕ)
      (out : List (UdpDatagram A))
      → encode float to_string e ≡ ok payload
      → time + suc n * step + e.period_us < 2 ^ 64
      → e.next ≤ time + n * step
      → (e' : UdpConfigEcu float A) × (more : ℕ) × (ticks e time step (suc n) out
          ≡ some (e', out ++ replicate (suc more) (datagram e payload)))
  ticks-Sends e payload time step n out enc room due =
      let (next, sent, run, timed) = ticks-IsTimed e payload time step (suc n) out enc room in
      elim timed.due [
        | inl z ↦ absurd (omega (arith, z))
        | inr (inl late) ↦ absurd (omega (arith, late))
        | inr (inr some_sent) ↦
            let one_more : sent ≡ suc (sent - 1) = omega (arith, some_sent) in
            (
              at e next,
              sent - 1,
              subst
                  (λ k.
                    ticks e time step (suc n) out
                    ≡ some (at e next, out ++ replicate k (datagram e payload)))
                  one_more run,
            )
      ]

  -- A node whose message encodes never sends two datagrams within one period: all but one of those
  -- that it sends in the `n + 1` ticks from `time` on fill whole periods of the `n` steps between
  -- them, when no timestamp overflows.
  pub ticks-rate :
      (e : UdpConfigEcu float A) (payload : List ℕ) (time step : Timestamp) (n : ℕ)
      (out : List (UdpDatagram A))
      → encode float to_string e ≡ ok payload
      → time + suc n * step + e.period_us < 2 ^ 64
      → (e' : UdpConfigEcu float A) × (sent : ℕ) × (ticks e time step (suc n) out
          ≡ some (e', out ++ replicate sent (datagram e payload)))
        × (sent * e.period_us ≤ n * step + e.period_us)
  ticks-rate e payload time step n out enc room =
      let (next, sent, run, timed) = ticks-IsTimed e payload time step (suc n) out enc room in
      (
        at e next,
        sent,
        run,
        elim timed.since_start [
          | inl z ↦ omega (arith, ap (λ k. k * e.period_us) z)
          | inr h ↦ omega (arith, h)
        ],
      )
