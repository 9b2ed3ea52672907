-- ===== src/Harness/Exec.antt =====
-- One step of a test: the `match step` of `run_spec` in crates/embrig-test/src/runner.rs.
use Prim.Native.String.{◌++◌}
use embrig.Prelude.{ℕ, String, List, [], ◌∷◌, Option, none, some}
use embrig.Prelude.Map.{Map}
use embrig.Prelude.Fallible.{map_err}
use embrig.Prelude.Result.{Result, ok, err}
use embrig.Core.Time.{Timestamp}
use embrig.Core.Float.{Float}
use embrig.Core.Signal.{SignalValue}
use embrig.Core.Frame.{new}
use embrig.Net.Netmap.{encode_fields, message_dst, message as netmap_message}
use embrig.Net.Udp as Udp
use embrig.Harness.Duration.{parse_duration}
use embrig.Harness.Dsl.{
  ExpectedValue, Step, send, set_signal, wait, expect, fault, send_udp, set_field, expect_udp,
  fault_udp, UdpFaultKind,
}
use embrig.Harness.Target.{TestTarget, TargetError}
use embrig.Harness.Assertion.{expected_to_signal}
use embrig.Harness.Faults.{fault_from_kind, udp_fault_from_kind}
use embrig.Harness.Steps.{
  Texts, Outcome, message, abort, dsl_or, text_or, frame_or, answer_text, checked,
  optional_duration, or_some, evaluate_expect, evaluate_udp_expect,
}

module _ (float : Float) {A T : Type 0} (methods : TestTarget float A T) (texts : Texts float) where
  open float use {R}
  open texts use {of_target, of_field}

  unfoldable pub field_values : Map String (ExpectedValue R) → List (String × SignalValue R)
  unfolding expected_to_signal
  field_values [] = []
  field_values ((name, v) ∷ fields) = (name, expected_to_signal float v) ∷ field_values fields

  -- `ok_or_else(...)?` and `map_err(...)?` with a text.
  abbrev required : {B : Type 0} → T → Option B → String → (B → Outcome T) → Outcome T
  required t none text next = abort t (message text)
  required t (some b) text next = next b

  abbrev host_or : T → Result TargetError A → (A → Outcome T) → Outcome T
  host_or t (err e) next = abort t (message (of_target e))
  host_or t (ok a) next = next a

  unfoldable pub send_fields : T → String → Map String (ExpectedValue R) → Outcome T
  unfolding field_values netmap_message encode_fields Udp.new
  send_fields t name fields =
      required t (methods.netmap t) "send_udp requires a UDP target (interface type `udp`)"
        (λ messages.
          required t (netmap_message float messages name)
            ("no message `" ++ (name ++ "` in netmap"))
            (λ m.
              text_or t
                (map_err (λ e. "cannot encode `" ++ (name ++ ("`: " ++ of_field e)))
                  (encode_fields float m (field_values fields)))
                (λ payload.
                  host_or t (methods.host t) (λ src.
                    answer_text of_target (methods.send_msg t (Udp.new src m.dst payload))))))

  unfoldable pub inject_udp_fault :
      T
      → UdpFaultKind
      → String
      → (after : Option String) (byte mask : Option ℕ) (start duration : Option String) → Outcome T
  unfolding message_dst udp_fault_from_kind optional_duration
  inject_udp_fault t kind name after byte mask start duration =
      required t (methods.netmap t) "fault_udp requires a UDP target (interface type `udp`)"
        (λ messages.
          required t (message_dst float messages name) ("no message `" ++ (name ++ "` in netmap"))
            (λ dst. dsl_or t (udp_fault_from_kind kind dst after byte mask) (λ f.
              dsl_or t (optional_duration start) (λ start_us.
                dsl_or t (optional_duration duration) (λ duration_us. answer_text of_target (
                  methods.add_netmap_fault t f (or_some start_us (methods.elapsed_us t))
                    duration_us))))))

  unfoldable pub exec_step : ℕ → Timestamp → T → Step R → Outcome T
  unfolding new expected_to_signal parse_duration evaluate_expect evaluate_udp_expect
      fault_from_kind optional_duration send_fields inject_udp_fault
  exec_step fuel deadline t (send id bytes) =
      frame_or t (new id bytes) (λ f. answer_text of_target (methods.send t f))
  exec_step fuel deadline t (set_signal name id signal value) =
      answer_text of_target (methods.set_signal t name id signal (expected_to_signal float value))
  exec_step fuel deadline t (wait time) =
      dsl_or t (parse_duration time) (λ d. answer_text of_target (methods.wait t d))
  exec_step fuel deadline t (expect spec) =
      checked (evaluate_expect float methods texts fuel spec t deadline)
  exec_step fuel deadline t (fault kind id after byte mask start duration) =
      dsl_or t (fault_from_kind kind id after byte mask) (λ f.
        dsl_or t (optional_duration start) (λ start_us.
          dsl_or t (optional_duration duration) (λ duration_us.
            answer_text of_target
              (methods.add_can_fault t f (or_some start_us (methods.elapsed_us t)) duration_us))))
  exec_step fuel deadline t (send_udp name fields) = send_fields t name fields
  exec_step fuel deadline t (set_field name m field value) =
      answer_text of_target (methods.set_field t name m field (expected_to_signal float value))
  exec_step fuel deadline t (expect_udp spec) =
      checked (evaluate_udp_expect float methods texts fuel spec t deadline)
  exec_step fuel deadline t (fault_udp kind name after byte mask start duration) =
      inject_udp_fault t kind name after byte mask start duration
