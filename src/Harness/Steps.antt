-- ===== src/Harness/Steps.antt =====
-- The steps of a test: the body of the loop of `run_spec` in crates/embrig-test/src/runner.rs, with the
-- functions that evaluate expectations. The texts that a library derives for errors
-- are parameters.
use Prim.Native.String.{◌++◌}
use embrig.Prelude.{ℕ, Bool, not, String, Option, none, some, find, if◌then◌else◌}
use embrig.Prelude.Keys.{◌==◌, string_key}
use embrig.Prelude.Panic.{Panic}
use embrig.Prelude.Format.{hex3}
use embrig.Prelude.Fallible as Fallible
use embrig.Prelude.Fallible.{Fallible, or_panic, or_err, map_err}
use embrig.Prelude.Result.{Result, ok, err}
use embrig.Prelude.Result as Result
use embrig.Core.Time.{Timestamp}
use embrig.Core.Float.{Float}
use embrig.Core.Frame.{CanFrame, FrameError}
use embrig.Net.Netmap.{MessageDef, FieldError, message as netmap_message, decode_field}
use embrig.Net.Udp.{UdpDatagram}
use embrig.Harness.Duration.{DslError, parse_duration}
use embrig.Harness.Dsl.{ExpectStep, ExpectUdpStep, effective_present}
use embrig.Harness.Target.{TestTarget, TargetError, Answer}
use embrig.Harness.Assertion.{Assertion, Observed}
use embrig.Harness.Polling.{Ran, returned, panicked, ◌>>=◌, poll_until}

-- What aborts a whole run.
pub data TestError : Type 0 where
  target : TargetError → TestError
  dsl : DslError → TestError
  frame : FrameError → TestError
  message : String → TestError

-- `text.as_deref().map(parse_duration).transpose()?`
unfoldable pub optional_duration : Option String → Fallible DslError (Option Timestamp)
unfolding parse_duration
optional_duration none = Fallible.ok none
optional_duration (some text) = Fallible.map_ok some (parse_duration text)

-- `... .or(Some(now))`
abbrev pub or_some : Option Timestamp → Timestamp → Option Timestamp
or_some none now = some now
or_some (some start) now = some start

-- A target, and the answer of a step: an error that aborts the run, or the outcome of the step.
abbrev pub Outcome : Type 0 → Type 0
Outcome T = Ran (T × Result TestError (Result String (Unit {0})))

abbrev pub done : {T : Type 0} → T → Result String (Unit {0}) → Outcome T
done t outcome = returned (t, ok outcome)

abbrev pub abort : {T : Type 0} → T → TestError → Outcome T
abort t e = returned (t, err e)

-- `?` on a result of the test language, and on one with an error text.
abbrev pub dsl_or : {T B : Type 0} → T → Fallible DslError B → (B → Outcome T) → Outcome T
dsl_or t (Fallible.ok b) next = next b
dsl_or t (Fallible.err e) next = abort t (dsl e)
dsl_or t Fallible.panic next = panicked

abbrev pub text_or : {T B : Type 0} → T → Fallible String B → (B → Outcome T) → Outcome T
text_or t (Fallible.ok b) next = next b
text_or t (Fallible.err e) next = abort t (message e)
text_or t Fallible.panic next = panicked

abbrev pub frame_or :
    {T : Type 0} → T → Result FrameError CanFrame → (CanFrame → Outcome T) → Outcome T
frame_or t (ok f) next = next f
frame_or t (err e) next = abort t (frame e)

-- `.map_err(|e| e.to_string())` on the answer of a target.
abbrev pub answer_text : {T : Type 0} → (TargetError → String) → Answer T (Unit {0}) → Outcome T
answer_text to_string none = panicked
answer_text to_string (some (t, answer)) = done t (Result.map_err to_string answer)

-- An expectation's outcome, which never aborts.
abbrev pub checked : {T : Type 0} → Ran (T × Result String (Unit {0})) → Outcome T
checked ran = ran >>= λ (t, outcome). done t outcome

abbrev is_named : String → Bool
is_named name = not (name == "")

abbrev pub or_empty : Option String → String
or_empty none = ""
or_empty (some s) = s

-- The texts of errors.
pub record Texts (float : Float) : Type 0 where
  pub of_dsl : DslError → String
  pub of_target : TargetError → String
  pub of_field : FieldError float → String

module _ (float : Float) {A T : Type 0} (methods : TestTarget float A T) (texts : Texts float) where
  open float use {R}
  open methods use {codec, poll, netmap, host, send_msg, poll_msg, elapsed_us}

  -- What is observed of a frame: the value of a signal, when one is named.
  unfoldable pub decode_frame : ℕ → String → T → CanFrame → Fallible String (Observed R)
  decode_frame id name t f =
      let label = "0x" ++ hex3 id in
      let decoded : Fallible String (Observed R) =
        Fallible.bind
          (or_err ((codec t).message_by_id id)
            ("no message with id " ++ (label ++ " in the signal codec")))
          (λ m.
            Fallible.bind
              (map_err (λ e. "cannot decode " ++ (label ++ (": " ++ e)))
                (m.decode_signals f.payload))
              (λ signals.
                Fallible.bind
                  (or_err (find (λ s. s.name == name) signals)
                    ("unknown signal `" ++ (name ++ ("` on " ++ label))))
                  (λ s.
                    Fallible.ok (record {
                      value = some (record { value = s.value; symbol = s.symbol });
                    })))) in
      if is_named name then decoded else Fallible.ok (record { value = none })

  -- The answer of a poll, with what is observed of a message that was seen.
  abbrev pub observe :
      {M : Type 0}
      → Answer T (Option M)
      → (T → M → Fallible String (Observed R))
      → Panic (T × Result String (Option (Observed R)))
  observe none decode = none
  observe (some (t, err e)) decode = some (t, err (texts.of_target e))
  observe (some (t, ok none)) decode = some (t, ok none)
  observe (some (t, ok (some m))) decode = elim (decode t m) [
    | Fallible.ok o ↦ some (t, ok (some o))
    | Fallible.err e ↦ some (t, err e)
    | Fallible.panic ↦ none
  ]

  unfoldable pub evaluate_expect :
      ℕ → ExpectStep R → T → Timestamp → Ran (T × Result String (Unit {0}))
  unfolding decode_frame effective_present poll_until
  evaluate_expect fuel spec t test_deadline =
      let name = or_empty spec.signal in
      let assertion : Assertion R = record {
        kind = "frame";
        label = "0x" ++ hex3 spec.id;
        field = name;
        present = effective_present spec.absent spec.present;
        equals = spec.equals;
        greater_than = spec.greater_than;
        less_than = spec.less_than;
      } in
      poll_until float elapsed_us texts.of_dsl fuel assertion spec.within test_deadline
        (λ u. observe (poll u spec.id) (decode_frame spec.id name)) t

  unfoldable pub decode_datagram :
      String → MessageDef float A → String → UdpDatagram A → Fallible String (Observed R)
  unfolding decode_field
  decode_datagram message_name m name d =
      let decoded : Fallible String (Observed R) =
        Fallible.bind
          (map_err (λ e. "cannot decode `" ++ (message_name ++ ("`: " ++ texts.of_field e)))
            (decode_field float m d.payload name))
          (λ s.
            Fallible.ok
              (record { value = some (record { value = s.value; symbol = s.symbol }) })) in
      if is_named name then decoded else Fallible.ok (record { value = none })

  unfoldable pub evaluate_udp_expect :
      ℕ → ExpectUdpStep R → T → Timestamp → Ran (T × Result String (Unit {0}))
  unfolding decode_datagram effective_present poll_until netmap_message
  evaluate_udp_expect fuel spec t test_deadline = elim (netmap t) [
    | none ↦ returned (t, err "expect_udp requires a UDP target (interface type `udp`)")
    | some messages ↦ elim (netmap_message float messages spec.message) [
      | none ↦ returned (t, err ("no message `" ++ (spec.message ++ "` in netmap")))
      | some m ↦
          let name = or_empty spec.field in
          let assertion : Assertion R = record {
            kind = "message";
            label = "`" ++ (spec.message ++ "`");
            field = name;
            present = effective_present spec.absent spec.present;
            equals = spec.equals;
            greater_than = spec.greater_than;
            less_than = spec.less_than;
          } in
          poll_until float elapsed_us texts.of_dsl fuel assertion spec.within test_deadline
            (λ u. observe (poll_msg u m.dst) (λ v. decode_datagram spec.message m name)) t
    ]
  ]
