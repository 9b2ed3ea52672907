-- ===== src/Models/Build/Order.antt =====
-- The order of the ECUs of a built simulation (crates/embrig-models/src/lib.rs).
use mathlib.Core.List.{append-nil, append_assoc}
use embrig.Prelude.{
  ℕ, suc, ◌<◌, ◌≡◌, refl, sym, ap, ap₂, subst, ◌∙◌, String, List, [], ◌∷◌, ◌++◌, length,
  length-append, arith,
}
use embrig.Prelude.Fallible.{ok, >>=-eq-ok, ok_inj}
use embrig.Core.Float.{Float}
use embrig.Core.Frame.{CanFrame}
use embrig.Core.Network.{NetEcu}
use embrig.Core.Codec.{SignalCodec}
use embrig.Core.Registry.{NetEcuFactory}
use embrig.Core.Sim.{attach}
use embrig.Core.Sim as Sim
use embrig.Core.Sim.Reach.{Reach, created, next, attaches, IsSound, Reach-IsSound}
use embrig.Models.Config.{EcuConfig, VehicleConfig}
use embrig.Models.Build.{
  BuiltSimulation, Node, can_network, attached, build_node, build_all,
  build_simulation_indexed_with_codec,
}

-- The names of the entries with their positions.
abbrev pub numbered : {R : Type 0} → ℕ → List (EcuConfig R) → List (String × ℕ)
numbered n [] = []
numbered n (cfg ∷ rest) = (cfg.name, n) ∷ numbered (suc n) rest

module _ (float : Float) {F : Type 0} (firmware : NetEcu float.R CanFrame F)
    (codec : SignalCodec float.R) (factories : NetEcuFactory F) where
  abbrev Built : Type 0
  Built = BuiltSimulation float firmware

  -- Node by node what building each entry makes, in the order of the entries.
  pub data Made : List (EcuConfig float.R) → List (Node float F) → Type 0 where
    no_more : Made [] []
    one_more :
        {cfg : EcuConfig float.R} {rest : List (EcuConfig float.R)} {node : Node float F}
        {nodes : List (Node float F)} {listen : List ℕ}
        → build_node float firmware codec factories cfg ≡ ok (node, listen)
        → Made rest nodes
        → Made (cfg ∷ rest) (node ∷ nodes)

  attached-ecus :
      (b : Built) (name : String) (node : Node float F) (listen : List ℕ)
      → ((attached float firmware b name node listen).sim.ecus ≡ b.sim.ecus ++ node ∷ [])
        × ((attached float firmware b name node listen).ecus
            ≡ b.ecus ++ (name, length b.sim.ecus) ∷ [])
  unfolding attached attach
  attached-ecus b name node listen = (refl, refl)

  -- The rest of the loop, after the entry that it takes first.
  build_all-cons :
      (cfg : EcuConfig float.R) (rest : List (EcuConfig float.R)) (b out : Built)
      → build_all float firmware codec factories (cfg ∷ rest) b ≡ ok out
      → (node : Node float F) × (listen : List ℕ) × (build_node float firmware codec factories cfg
          ≡ ok (node, listen))
        × (build_all float firmware codec factories rest
              (attached float firmware b cfg.name node listen)
            ≡ ok out)
  unfolding build_all
  build_all-cons cfg rest b out h =
      let ((node, listen), made, h') =
        >>=-eq-ok (build_node float firmware codec factories cfg)
          (λ (node, listen).
            build_all float firmware codec factories rest
              (attached float firmware b cfg.name node listen))
          h in
      (node, listen, made, h')

  build_all-Made :
      (cfgs : List (EcuConfig float.R)) (b out : Built)
      → build_all float firmware codec factories cfgs b ≡ ok out
      → (nodes : List (Node float F)) × (out.sim.ecus ≡ b.sim.ecus ++ nodes)
        × Made cfgs nodes
        × (out.ecus ≡ b.ecus ++ numbered (length b.sim.ecus) cfgs)
  unfolding build_all
  build_all-Made [] b out h = (
    [],
    sym (append-nil out.sim.ecus) ∙ ap (λ x. x.sim.ecus ++ []) (sym (ok_inj h)),
    no_more,
    sym (append-nil out.ecus) ∙ ap (λ x. x.ecus ++ []) (sym (ok_inj h)),
  )
  build_all-Made (cfg ∷ rest) b out h =
      let (node, listen, made, h') = build_all-cons cfg rest b out h in
      let more = attached float firmware b cfg.name node listen in
      let (order, names) = attached-ecus b cfg.name node listen in
      let (nodes, others, mades, numbers) = build_all-Made rest more out h' in
      (
        node ∷ nodes,
        others ∙ ap (λ es. es ++ nodes) order ∙ append_assoc b.sim.ecus (node ∷ []) nodes,
        one_more made mades,
        numbers
            ∙ ap₂ (λ es n. es ++ numbered n rest) names
                (ap length order ∙ length-append b.sim.ecus (node ∷ []) ∙ omega arith)
            ∙ append_assoc b.ecus ((cfg.name, length b.sim.ecus) ∷ [])
                (numbered (suc (length b.sim.ecus)) rest),
      )

  build_all-Reach :
      (step_us : ℕ) (cfgs : List (EcuConfig float.R)) (b out : Built)
      → Reach (can_network float firmware) step_us [] b.sim
      → build_all float firmware codec factories cfgs b ≡ ok out
      → Reach (can_network float firmware) step_us [] out.sim
  unfolding build_all attached
  build_all-Reach step_us [] b out r h =
      subst (λ x. Reach (can_network float firmware) step_us [] x.sim) (ok_inj h) r
  build_all-Reach step_us (cfg ∷ rest) b out r h =
      let (node, listen, made, h') = build_all-cons cfg rest b out h in
      build_all-Reach step_us rest (attached float firmware b cfg.name node listen) out
        (next r (attaches node listen)) h'

  -- The ECUs of a simulation that was built from a configuration with a positive step are the nodes that
  -- its entries make, one each and in their order; its index map gives each entry's name its
  -- position; and every subscription names an ECU.
  pub build-Ordered :
      (cfg : VehicleConfig float.R) (built : Built)
      → 0 < cfg.step_us
      → build_simulation_indexed_with_codec float firmware codec factories cfg ≡ ok built
      → Made cfg.ecus built.sim.ecus
        × (built.ecus ≡ numbered 0 cfg.ecus)
        × IsSound (can_network float firmware) [] built.sim
  unfolding build_simulation_indexed_with_codec Sim.new
  build-Ordered cfg built pos h =
      let start : Built = record {
        sim = Sim.new (can_network float firmware) cfg.step_us;
        ecus = [];
      } in
      let (nodes, order, mades, names) = build_all-Made cfg.ecus start built h in
      (
        subst (Made cfg.ecus) (sym order) mades,
        names,
        Reach-IsSound (can_network float firmware) pos
            (build_all-Reach cfg.step_us cfg.ecus start built created h),
      )
