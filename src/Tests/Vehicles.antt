-- ===== src/Tests/Vehicles.antt =====
-- The theorems on configured vehicles, firmware registries and the virtual target, applied to small ones.
use embrig.Prelude.{ℕ, suc, ◌⊎◌, false, true, ◌≡◌, String, List, [], ◌∷◌, none, some, refl, arith}
use embrig.Prelude.Keys.{string_key}
use embrig.Prelude.Int.{pos}
use embrig.Prelude.Fallible.{Fallible}
use embrig.Prelude.Result.{Result, ok, err}
use embrig.Core.Signal.{num}
use embrig.Core.Frame.{CanFrame}
use embrig.Core.Network.{NetEcu, NetEcuError}
use embrig.Core.Codec.{SignalCodec}
use embrig.Core.Sim.{new}
use embrig.Core.Sim.Steady.{Steady}
use embrig.Core.Sim.Reach.{IsSound}
use embrig.Core.Registry.{NetEcuFactory, NetRegistry}
use embrig.Canopen.Heartbeat as Heartbeat
use embrig.Models.Config.{
  ConfigEcu, EcuConfig, EcuKind, SignalLiteral, VehicleConfig, initial_values, literal_to_physical,
  set_signal, physical,
}
use embrig.Models.Config as Config
use embrig.Models.Config.Checked.{Accepted, born, overridden, new-Lives-Accepted}
use embrig.Models.Build.{
  BuiltSimulation, attached, build_all, build_node, build_simulation_indexed_with_codec,
}
use embrig.Models.Build as Build
use embrig.Models.Build.Order.{Made, numbered, build-Ordered}
use embrig.Harness.Dsl.{ExpectStep}
use embrig.Harness.Polling.{returned, panicked}
use embrig.Harness.Steps.{evaluate_expect}
use embrig.Harness.Target.Virtual.{VirtualTarget, can_network}
use embrig.Harness.Target.Virtual.Polls.{methods, Fails, evaluate_expect-Ends}
use embrig.Tests.Reals.{whole}
use embrig.Tests.Suites.{texts, timeout_parses}

-- Firmware that counts the frames that it hears.
abbrev counter : NetEcu whole.R CanFrame ℕ
counter = record {
  name = λ e. "counter";
  update = λ e now out. some (e, out);
  on_message = λ e msg now. some (suc e);
  set_signal = λ e id name value. some (e, err NetEcuError.signal_not_supported);
  set_field = λ e message name value. some (e, err NetEcuError.signal_not_supported);
}

abbrev from : ℕ → NetEcuFactory ℕ
from start name budget_us = Fallible.ok start

abbrev lamp : String
lamp = "lamp"

abbrev door : String
door = "door"

abbrev registry : NetRegistry ℕ
registry = ("door", from 1) ∷ []

abbrev beacon : CanFrame
beacon = record { id = 256; payload = 7 ∷ []; ts = 0; extended = false }

-- A node that sends a heartbeat with the state 5, and then the state 4.
abbrev state : ℕ → ConfigEcu whole
state n = record {
  name = "node";
  codec = Heartbeat.codec whole 1793;
  values = ("state", pos n) ∷ [];
  period = 100;
  next = 0;
}

state-made :
    Config.new whole "node"
      (Heartbeat.codec whole 1793)
      100
      (("state", SignalLiteral.num (pos 5)) ∷ [])
    ≡ Fallible.ok (state 5)
unfolding Config.new initial_values literal_to_physical Heartbeat.codec Heartbeat.check_value
state-made = refl

state-overridden : set_signal whole (state 5) 1793 "state" (num (pos 4)) ≡ some (state 4, ok tt)
unfolding set_signal physical Heartbeat.codec Heartbeat.check_value
state-overridden = refl

new-Lives-Accepted_example : Accepted whole (Heartbeat.codec whole 1793) (("state", pos 4) ∷ [])
new-Lives-Accepted_example =
    new-Lives-Accepted whole "node" (Heartbeat.codec whole 1793) 100
      (("state", SignalLiteral.num (pos 5)) ∷ []) (state 5) (state 4) state-made
      (overridden 1793 "state" (num (pos 4)) (ok tt) state-overridden born)

-- Two firmware entries, of which the second listens to frame 256.
abbrev entry : String → List ℕ → EcuConfig whole.R
entry name listen = record {
  name = name;
  kind = EcuKind.sil;
  message = none;
  period_us = 100;
  signals = [];
  listen = listen;
  step_budget_us = 50;
}

abbrev fleet : VehicleConfig whole.R
fleet = record { step_us = 10; ecus = entry "door" [] ∷ entry "lamp" (256 ∷ []) ∷ [] }

abbrev silent : SignalCodec whole.R
silent = record { message_by_id = λ id. none; message_by_name = λ name. none }

abbrev rolling : BuiltSimulation whole counter
rolling = record {
  sim = record {
    time = 0;
    step_us = 10;
    ecus = Build.firmware 7 ∷ Build.firmware 7 ∷ [];
    subscriptions = (256, 1 ∷ []) ∷ [];
    outbound = [];
    delayed = [];
    recorder = record { records = [] };
    faults = [];
  };
  ecus = ("door", 0) ∷ ("lamp", 1) ∷ [];
}

fleet-built :
    build_simulation_indexed_with_codec whole counter silent (from 7) fleet ≡ Fallible.ok rolling
unfolding build_simulation_indexed_with_codec build_all build_node attached new
fleet-built = refl

build-Ordered_example :
    Made whole counter silent (from 7) fleet.ecus rolling.sim.ecus
    × (rolling.ecus ≡ numbered 0 fleet.ecus)
    × IsSound (Build.can_network whole counter) [] rolling.sim
build-Ordered_example =
    build-Ordered whole counter silent (from 7) fleet rolling (omega arith) fleet-built

abbrev bench : VirtualTarget whole counter
bench = record {
  sim = record {
    time = 0;
    step_us = 100;
    ecus = 0 ∷ [];
    subscriptions = (256, 0 ∷ []) ∷ [];
    outbound = [];
    delayed = [];
    recorder = record { records = [] };
    faults = [];
  };
  ecus = ("counter", 0) ∷ [];
  network = record { messages = [] };
}

bench-Steady : Steady (can_network whole counter) bench.sim
bench-Steady = record { positive = omega arith; scheduled = tt }

-- Frame 256 is to come within a millisecond.
abbrev wanted : ExpectStep whole.R
wanted = record {
  id = 256;
  signal = none;
  equals = none;
  greater_than = none;
  less_than = none;
  present = some true;
  absent = none;
  within = some "1ms";
}

evaluate_expect-Ends_example :
    ((u : VirtualTarget whole counter) × (r : Result String (Unit {0})) × (evaluate_expect whole
          (methods whole counter ℕ (λ e. "") (λ t. ok t) texts)
          texts
          (suc 1000)
          wanted
          bench
          5000
        ≡ returned (u, r)))
    ⊎ ((evaluate_expect whole
            (methods whole counter ℕ (λ e. "") (λ t. ok t) texts)
            texts
            (suc 1000)
            wanted
            bench
            5000
          ≡ panicked)
        × (v : VirtualTarget whole counter) × Fails whole counter ℕ
            (λ e. "")
            (λ t. ok t)
            texts
            256
            ""
            bench
            v)
evaluate_expect-Ends_example =
    evaluate_expect-Ends whole counter ℕ (λ e. "") (λ t. ok t) texts wanted bench 5000 "1ms" 1000
      bench-Steady refl timeout_parses
