-- ===== src/Tests/Stimulus.antt =====
-- The theorems on the nodes that send configured messages, applied to a node that sends a speed.
use mathlib.Core.Option
use embrig.Prelude.{
  ℕ, suc, ◌+◌, ◌*◌, ◌≤◌, ◌≡◌, String, List, [], ◌∷◌, ◌++◌, some, replicate, refl, arith,
}
use embrig.Prelude.Keys.{string_key}
use embrig.Prelude.Int.{pos, int_key}
use embrig.Prelude.Fallible.{ok}
use embrig.Prelude.Map.{get}
use embrig.Core.Signal.{num}
use embrig.Net.Netmap.{
  FieldDef, MessageDef, FieldError, u8, size, field, resolve, encode_fields, decode_field,
  raw_to_physical, resolve_all, resolve_symbol, physical_to_raw, to_integer, fits_type, write_all,
  write_field, write_from, raw_bytes,
}
use embrig.Net.Udp.Ecu.{UdpConfigEcu, encode, values, current}
use embrig.Net.Udp.Timing.{ticks, datagram, ticks-Sends, ticks-rate}
use embrig.Net.Udp.Overrides.{decode_field-encode}
use embrig.Net.Framing.{Command, run_udp, run_tcp, mirror, mirror_run, run_tcp-run_udp}
use embrig.Tests.Reals.{whole}

abbrev known_name : String
known_name = "speed"

abbrev speed : FieldDef whole
speed = record { offset = 0; ty = u8; factor = pos 1; shift = pos 0; values = [] }

-- A message to endpoint 7.
abbrev wheel : MessageDef whole ℕ
wheel = record { dst = 7; length = 1; fields = ("speed", speed) ∷ [] }

abbrev text : FieldError whole → String
text e = ""

-- A node at endpoint 1 that sends the speed 5 every 100 microseconds.
abbrev node : UdpConfigEcu whole ℕ
node = record {
  name = "wheels";
  src = 1;
  message_name = "wheel";
  message = wheel;
  period_us = 100;
  base = ("speed", num (pos 5)) ∷ [];
  overrides = [];
  next = 0;
}

node-encodes : encode whole text node ≡ ok (5 ∷ [])
unfolding encode values current encode_fields resolve_all resolve field resolve_symbol
    physical_to_raw to_integer fits_type write_all write_field write_from raw_bytes size
node-encodes = refl

ticks-Sends_example :
    (e' : UdpConfigEcu whole ℕ) × (more : ℕ) × (ticks whole text node 0 10 31 []
      ≡ some (e', [] ++ replicate (suc more) (datagram whole text node (5 ∷ []))))
ticks-Sends_example =
    ticks-Sends whole text node (5 ∷ []) 0 10 30 [] node-encodes (omega arith) (omega arith)

ticks-rate_example :
    (e' : UdpConfigEcu whole ℕ) × (sent : ℕ) × (ticks whole text node 0 10 31 []
      ≡ some (e', [] ++ replicate sent (datagram whole text node (5 ∷ []))))
    × (sent * 100 ≤ 30 * 10 + 100)
ticks-rate_example = ticks-rate whole text node (5 ∷ []) 0 10 30 [] node-encodes (omega arith)

speed_known : field whole wheel "speed" ≡ some speed
unfolding field
speed_known = refl

speed_resolves : resolve whole wheel speed "speed" (current whole node "speed") ≡ ok (pos 5)
unfolding resolve current physical_to_raw to_integer fits_type
speed_resolves = refl

decode_field-encode_example :
    decode_field whole wheel (5 ∷ []) "speed"
    ≡ ok (record {
      name = "speed";
      value = raw_to_physical whole speed (pos 5);
      symbol = get ⦃k = int_key⦄ [] (pos 5);
    })
unfolding size fits_type
decode_field-encode_example =
    decode_field-encode whole text node (5 ∷ []) (tt, tt) (tt, tt) ((omega arith, omega arith), tt)
      node-encodes "speed" speed (pos 5) speed_known speed_resolves refl

-- An override between two ticks.
abbrev commands : List (Command whole.R)
commands =
    Command.update 0 ∷ Command.set_field "wheel" "speed" (num (pos 9)) ∷ Command.update 100 ∷ []

run_tcp-run_udp_example :
    run_tcp whole text (mirror whole text node) commands [] []
    ≡ Option.map (mirror_run whole text) (run_udp whole text node commands [] [])
run_tcp-run_udp_example = run_tcp-run_udp whole text node commands [] []
