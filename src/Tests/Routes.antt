-- ===== src/Tests/Routes.antt =====
-- The theorems on fault rules and on routing, applied on the bus.
use embrig.Prelude.{◌≡◌, refl, [], ◌∷◌, some, arith, inl}
use Prim.Native.String.{◌++◌ as append}
use embrig.Prelude.Format.{hex3}
use embrig.Prelude.Keys.{nat_key}
use embrig.Core.Network.{NetAction}
use embrig.Core.Fault.{matches, action}
use embrig.Core.Recorder.{NetRecord, NetRecorder, push_message}
use embrig.Core.Frame.{CanFrame}
use embrig.Core.Sim.{NetworkSim, apply_faults, route, perform, deliver, deliver_to}
use embrig.Core.Sim.Routing.{apply_faults_first, route_dropped}
use embrig.Tests.Bus.{bus, rig, delay_rule, drop_rule, beacon, sender, counter}

-- The rule that delays is active from 5 on only, so the second rule decides at time 0.
apply_faults_first_example :
    apply_faults bus (delay_rule ∷ drop_rule ∷ []) 0 256 ≡ some NetAction.drop
unfolding matches action
apply_faults_first_example =
    apply_faults_first bus (delay_rule ∷ []) [] drop_rule 0 256 (tt, tt) (omega arith)
      (inl (λ w. omega (arith, w.0)), tt) (omega arith, omega arith) refl

-- The sender of frame 256 does not listen to it.
routed : NetworkSim bus
routed = record (rig []) {
  ecus = sender 256 ∷ counter 1 ∷ [];
  recorder = record { records = NetRecord.message (beacon 256) ∷ [] };
}

routes : route bus (rig []) (beacon 256) ≡ some routed
unfolding route apply_faults perform deliver deliver_to push_message routed
routes = refl

route_dropped_example :
    (s' : NetworkSim bus) × (route bus (rig (drop_rule ∷ [])) (beacon 256) ≡ some s')
    × (s'.ecus ≡ (rig []).ecus)
    × (s'.delayed ≡ [])
    × (s'.recorder.records
        ≡ NetRecord.event 0 "net"
            (append "dropped " (append "frame" (append " " (append "0x" (hex3 256)))))
          ∷ [])
unfolding matches action
route_dropped_example =
    route_dropped bus (rig (drop_rule ∷ [])) (beacon 256) [] [] drop_rule refl tt (omega arith) tt
      (omega arith, omega arith) refl refl

abbrev logged : NetRecorder CanFrame
logged = record { records = NetRecord.message (beacon 256) ∷ NetRecord.event 0 "net" "x" ∷ [] }
