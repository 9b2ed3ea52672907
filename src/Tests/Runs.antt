-- ===== src/Tests/Runs.antt =====
-- Runs of the bus, and the theorems on ticks and on the clock applied to them.
use embrig.Prelude.{ℕ, ◌+◌, ◌*◌, ◌≡◌, ◌↔◌, refl, [], ◌∷◌, some, arith}
use embrig.Core.Sim.{
  NetworkSim, finished, run_until, step, update_all, route_all, route, perform, deliver, deliver_to,
  apply_faults, flush_delayed, deliver_due, attach1, add_fault, subscribe, new,
}
use embrig.Core.Recorder.{NetRecord, push_message}
use embrig.Core.Fault.{action}
use embrig.Core.Network.{active_at}
use embrig.Core.Sim.Clock.{Returns, run_until-Returns, run_until_exact}
use embrig.Core.Sim.Total.{NeverPanics, Ready, step-total}
use embrig.Core.Sim.Punctual.{Ticks, step-Ticks}
use embrig.Core.Sim.Reach.{IsSound, created, next, faults, attaches1, subscribes, Reach-IsSound}
use embrig.Tests.Bus.{bus, rig, delay_rule, drop_rule, send, hear, sender, counter, beacon}

bus-NeverPanics : NeverPanics bus
bus-NeverPanics = record {
  updates = λ e now out. ((e, send e out), refl);
  handles = λ e msg now. (hear e, refl);
}

rig-Ready : Ready bus 50 (rig (delay_rule ∷ []))
unfolding action
rig-Ready = record { in_range = ((omega arith, tt), tt); rules = ((tt, omega arith), tt) }

rig-Ready_45 : Ready bus 45 (rig (delay_rule ∷ []))
unfolding action
rig-Ready_45 = record { in_range = ((omega arith, tt), tt); rules = ((tt, omega arith), tt) }

-- Five ticks of 10 from time 0 reach 50.
run_until-Returns_example :
    Returns bus (rig (delay_rule ∷ [])) 50 (run_until bus 50 (rig (delay_rule ∷ [])) 50)
run_until-Returns_example =
    run_until-Returns bus bus-NeverPanics 50 (rig (delay_rule ∷ [])) 50 (omega arith) tt rig-Ready
      (omega arith) (omega arith)

-- A run to 45 ends at 50: 45 is no whole number of steps of 10.
run_until_exact_example :
    (s' : NetworkSim bus) × (run_until bus 45 (rig (delay_rule ∷ [])) 45 ≡ finished s')
    × ((s'.time ≡ 45) ↔ ((m : ℕ) × (45 ≡ 0 + m * 10)))
run_until_exact_example =
    run_until_exact bus bus-NeverPanics 45 (rig (delay_rule ∷ [])) 45 (omega arith) tt rig-Ready_45
      (omega arith) (omega arith) (omega arith)

-- The bus after its first tick: the frame of the sender is logged, and counted.
abbrev after_one : NetworkSim bus
after_one = record (rig (delay_rule ∷ [])) {
  time = 10;
  ecus = sender 256 ∷ counter 1 ∷ [];
  recorder = record { records = NetRecord.message (beacon 256) ∷ [] };
}

first_tick : step bus (rig (delay_rule ∷ [])) ≡ some after_one
unfolding step update_all route_all route perform deliver deliver_to apply_faults active_at
    flush_delayed deliver_due push_message
first_tick = refl

step-Ticks_example : Ticks bus (rig (delay_rule ∷ [])) after_one
step-Ticks_example = step-Ticks bus (rig (delay_rule ∷ [])) after_one (omega arith) tt first_tick

step-total_example : (s' : NetworkSim bus) × (step bus (rig (delay_rule ∷ [])) ≡ some s')
step-total_example =
    step-total bus bus-NeverPanics 50 (rig (delay_rule ∷ [])) (omega arith) (omega arith) rig-Ready

-- A new bus of step 10 gains a rule and an ECU, and a subscription of an index that names none.
Reach-IsSound_example :
    IsSound bus
      (9 ∷ [])
      (subscribe bus (attach1 bus (add_fault bus (new bus 10) drop_rule) (counter 0) 256).0 512 9)
Reach-IsSound_example =
    Reach-IsSound bus (omega arith)
      (next (next (next created (faults drop_rule)) (attaches1 (counter 0) 256)) (subscribes 512 9))
