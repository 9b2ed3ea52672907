-- ===== src/Lib.antt =====
-- Embrig: a model of the simulator's core, of its codecs, of the ECUs that run on it and of the
-- runner that tests them, with their correctness theorems.
--
-- The program. `NetworkSim` (crates/embrig-core/src/network.rs) steps virtual ECUs over a simulated
-- network: each tick runs every ECU, routes what they send through the fault rules, delivers each
-- message to the ECUs that subscribed to its key, delivers the delayed messages that are due, and
-- advances the clock. CAN frames (frame.rs) and CAN faults (fault.rs) are one instance of it. A DBC
-- message (crates/embrig-dbc) packs named physical values into the data of a frame and back;
-- crates/embrig-canopen does the same for the messages of a CANopen node. Both stand behind the
-- codec traits of crates/embrig-core/src/codec.rs, through which the ECUs of crates/embrig-models
-- and of firmware/ read and send frames. crates/embrig-net has the named fields of Ethernet
-- payloads and the UDP and TCP instances of the simulation. crates/embrig-test runs tests written
-- in YAML on a target, such as one of these simulations: it sends and sets, polls for what is to be
-- seen until a deadline, and reports which tests passed.
--
-- Files. Core/Network is the traits and fault rules of network.rs, Core/Recorder its log, Core/Sim
-- `NetworkSim` itself, one function for each method; Core/Frame, Core/Fault, Core/Signal and
-- Core/Time are the files of those names, Core/Codec the codec traits. Dbc/Types and Dbc/Codec are
-- types.rs and codec.rs of embrig-dbc, Dbc/Seam the adapter at the end of codec.rs; Dbc/Parser and
-- Dbc/SignalLine are parser.rs, on the string functions of Dbc/Text. Canopen has the identifiers of
-- embrig-canopen/src/lib.rs, Canopen/Heartbeat, Canopen/Nmt and Canopen/Node its codec.rs. Models
-- has the charger, the vehicle controller and the motor of embrig-models/src/ecus.rs, the
-- configured node of config.rs (Models/Config) and the simulation that lib.rs builds from a
-- configuration (Models/Build). Core/Registry is the firmware registry and the step budget of
-- network.rs. Net/Netmap is embrig-net/src/netmap.rs, Net/Udp, Net/Udp/Sim and Net/Udp/Ecu are
-- datagram.rs, sim.rs and ecu.rs, and Net/Tcp with its children tcp.rs. Harness is embrig-test:
-- Harness/Duration and Harness/Dsl are dsl.rs, Harness/Target and Harness/Target/Virtual target.rs,
-- Harness/Target/Udp and its child udp.rs, and Harness/Assertion, Harness/Polling, Harness/Faults,
-- Harness/Steps, Harness/Exec and Harness/Runner runner.rs, from a single comparison to a suite.
-- Firmware/Controller, Firmware/Robot and Firmware/CanNode are firmware/controller, firmware/robot
-- and firmware/canopen-controller. The modules under these prove what is stated of them; Prelude
-- has the types that the model needs and lemmas about them; Tests has concrete runs.
--
-- Correspondence. A method that takes `&mut self` returns the new state. A trait object is a value
-- of a type with a record of its methods: a network (`Core.Network.Network`) is a choice of types
-- for keys, messages, faults and ECUs with those records, and the laws in `NetMessage` are those of
-- field accessors. A panic is a value: `none` for code without errors of its own, `panic` for code
-- that returns a `Result`. Arithmetic on u64 and u16 that could overflow panics, as it does in a
-- build with overflow checks; a release build, which wraps, agrees wherever the model does not
-- panic. `f64` is the parameter `Core.Float.Float`: its operations are arguments, and the one law
-- about them is that a cast to `i64` gives an `i64`. The text that a library derives for a codec
-- error, and the description that a firmware parses from an embedded file, are parameters too, and
-- so are the parsing of f64, the YAML parser, the content of the files that a target reads when it
-- is reset, the time that a call takes of the wall clock, and the type of socket addresses, with a
-- comparison and a printed form. A `BTreeMap` is an association list in ascending order. An `async`
-- method is the function that it computes: a target is used by one test at a time.
--
-- Fuel. `run_until` takes a number of ticks, and tells a run that has returned from one that is
-- still running; the distance to the limit is enough, since a positive step advances the clock at
-- each tick, and the targets give their runs as many ticks as the microseconds to run for. The loop
-- of `poll_until` takes a number of polls: as many as the microseconds to its deadline, and one,
-- are enough when every poll that returns advances the clock, as those of the virtual target do
-- when the step of its bus is positive.
--
-- Not modelled: text output for people and the reports, everything that reads files, sockets or
-- arguments, the targets on hardware and on firmware, the protocol registry of the tests, and the
-- command line.
pub mod Prelude
pub mod Core
pub mod Dbc
pub mod Canopen
pub mod Firmware
pub mod Harness
pub mod Models
pub mod Net
pub mod Tests
