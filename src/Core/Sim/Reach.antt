-- ===== src/Core/Sim/Reach.antt =====
-- The states that the public operations of NetworkSim (crates/embrig-core/src/network.rs) can
-- bring about, in any order, and what holds in all of them.
use embrig.Prelude.{
  ℕ, ◌<◌, ◌≡◌, ◌⊎◌, refl, ap, sym, subst, subst₂, String, List, [], ◌∷◌, ◌++◌, some, arith, length,
  length-append, get_elem?, set, length-set, All, All-append, All-map, inl, inr, Option-cases,
  Bool-cases,
}
use embrig.Prelude.Keys.{◌==◌}
use embrig.Prelude.Panic.{some_inj, >>=-eq-some}
use embrig.Prelude.Map.{Map, get, insert}
use embrig.Prelude.Result.{Result}
use embrig.Core.Signal.{SignalValue}
use embrig.Core.Network.{Network, NetFaultRule, NetEcuError}
use embrig.Core.Sim.{
  NetworkSim, new, attach, attach1, subscribe, add_fault, inject, step, add_subscription,
  subscribe_all, set_signal, set_field,
}
use embrig.Core.Sim.Extends.{inject-Extends}
use embrig.Core.Sim.Tick.{IsScheduled}
use embrig.Core.Sim.Punctual.{step-Ticks, routed-IsScheduled}

module _ (net : Network) where
  open net use {K, M, F, E, R, keys, message, fault, ecu}

  -- An index of an ECU, or one of those that were given to `subscribe`.
  abbrev pub Given : ℕ → List ℕ → Type 0
  Given i [] = ⊥
  Given i (j ∷ given) = (i ≡ j) ⊎ Given i given

  abbrev pub Known : List ℕ → ℕ → ℕ → Type 0
  Known given n i = (i < n) ⊎ Given i given

  abbrev pub AllKnown : List ℕ → ℕ → Map K (List ℕ) → Type 0
  AllKnown given n = All (λ entry. All (Known given n) entry.1)

  -- Every subscription names an ECU, unless the caller gave its index to `subscribe`; the step is
  -- positive, and the delayed messages are scheduled.
  pub record IsSound (given : List ℕ) (s : NetworkSim net) : Type 0 where
    pub known : AllKnown given (length s.ecus) s.subscriptions
    pub pos : 0 < s.step_us
    pub scheduled : IsScheduled net s

  -- An operation that returns, with the indices that it was given to subscribe: `subscribe` takes any.
  pub data Step (s : NetworkSim net) : List ℕ → NetworkSim net → Type 0 where
    attaches : (e : E) (wanted : List K) → Step s [] (attach net s e wanted).0
    attaches1 : (e : E) (key : K) → Step s [] (attach1 net s e key).0
    subscribes : (key : K) (i : ℕ) → Step s (i ∷ []) (subscribe net s key i)
    faults : (rule : NetFaultRule F) → Step s [] (add_fault net s rule)
    signals :
        (index id : ℕ) (name : String) (value : SignalValue R) (s' : NetworkSim net)
        (answer : Result NetEcuError (Unit {0}))
        → set_signal net s index id name value ≡ some (s', answer)
        → Step s [] s'
    fields :
        (index : ℕ) (name field : String) (value : SignalValue R) (s' : NetworkSim net)
        (answer : Result NetEcuError (Unit {0}))
        → set_field net s index name field value ≡ some (s', answer)
        → Step s [] s'
    injects : (msg : M) (s' : NetworkSim net) → inject net s msg ≡ some s' → Step s [] s'
    ticks : (s' : NetworkSim net) → step net s ≡ some s' → Step s [] s'

  pub data Reach (step_us : ℕ) : List ℕ → NetworkSim net → Type 0 where
    created : Reach step_us [] (new net step_us)
    next :
        {given more : List ℕ} {s s' : NetworkSim net}
        → Reach step_us given s
        → Step s more s'
        → Reach step_us (more ++ given) s'

  AllKnown-insert :
      (P : ℕ → Type 0) (m : Map K (List ℕ)) (key : K) (is : List ℕ)
      → All P is
      → All (λ entry. All P entry.1) m
      → All (λ entry. All P entry.1) (insert ⦃k = keys⦄ m key is)
  AllKnown-insert P [] key is h hs = (h, tt)
  AllKnown-insert P ((j, js) ∷ m) key is h hs = ground (arith, AllKnown-insert P m key is h hs.1)

  AllKnown-get :
      (P : ℕ → Type 0) (m : Map K (List ℕ)) (key : K) {is : List ℕ}
      → All (λ entry. All P entry.1) m
      → get ⦃k = keys⦄ m key ≡ some is
      → All P is
  AllKnown-get P [] key h e = absurd (cc)
  AllKnown-get P ((j, js) ∷ m) key h e = elim (Bool-cases (◌==◌ ⦃k = keys⦄ j key)) [
    | inl hit ↦ subst (All P) (some_inj (rw hit at e)) h.0
    | inr miss ↦ AllKnown-get P m key h.1 (rw miss at e)
  ]

  add_subscription-All :
      (P : ℕ → Type 0) (m : Map K (List ℕ)) (key : K) (i : ℕ)
      → P i
      → All (λ entry. All P entry.1) m
      → All (λ entry. All P entry.1) (add_subscription net m key i)
  unfolding add_subscription
  add_subscription-All P m key i p h = elim (Option-cases (get ⦃k = keys⦄ m key)) [
    | inl e ↦ rw (e, add_subscription) (AllKnown-insert P m key (i ∷ []) (p, tt) h)
    | inr (is, e) ↦
        rw (e, add_subscription)
          (AllKnown-insert P m key (is ++ i ∷ [])
            (All-append P is (i ∷ []) (AllKnown-get P m key h e) (p, tt)) h)
  ]

  subscribe_all-All :
      (P : ℕ → Type 0) (m : Map K (List ℕ)) (wanted : List K) (i : ℕ)
      → P i
      → All (λ entry. All P entry.1) m
      → All (λ entry. All P entry.1) (subscribe_all net m wanted i)
  unfolding subscribe_all
  subscribe_all-All P m [] i p h = h
  subscribe_all-All P m (key ∷ wanted) i p h =
      subscribe_all-All P (add_subscription net m key i) wanted i p
        (add_subscription-All P m key i p h)

  -- What holds of every index that is known still does with more ECUs and more indices given.
  AllKnown-map :
      (given given' : List ℕ) (n n' : ℕ) (m : Map K (List ℕ))
      → ((i : ℕ) → Known given n i → Known given' n' i)
      → AllKnown given n m
      → AllKnown given' n' m
  AllKnown-map given given' n n' m more h =
      All-map (λ entry. All (Known given n) entry.1) (λ entry. All (Known given' n') entry.1) m
        (λ entry. All-map (Known given n) (Known given' n') entry.1 more) h

  AllKnown-grow :
      (given : List ℕ) (es : List E) (e : E) (m : Map K (List ℕ))
      → AllKnown given (length es) m
      → Known given (length (es ++ e ∷ [])) (length es) × AllKnown given (length (es ++ e ∷ [])) m
  AllKnown-grow given es e m h = (
    inl (omega (arith, length-append es (e ∷ []))),
    AllKnown-map given given (length es) (length (es ++ e ∷ [])) m
        (λ i k. elim k [
          | inl lt ↦ inl (omega (arith, length-append es (e ∷ []), lt))
          | inr g ↦ inr g
        ])
        h,
  )

  pub new-IsSound : (step_us : ℕ) → 0 < step_us → IsSound [] (new net step_us)
  unfolding new
  new-IsSound step_us pos = record { known = tt; pos = pos; scheduled = tt }

  -- A state that differs in its ECUs, as many as before, is as sound.
  same_length-IsSound :
      (given : List ℕ) (s : NetworkSim net) (es : List E)
      → length es ≡ length s.ecus
      → IsSound given s
      → IsSound given (record s { ecus = es })
  same_length-IsSound given s es same h = record {
    known = subst (λ n. AllKnown given n s.subscriptions) (sym same) h.known;
    pos = h.pos;
    scheduled = h.scheduled;
  }

  set_signal-IsSound :
      (given : List ℕ) (s s' : NetworkSim net) (index id : ℕ) (name : String)
      (value : SignalValue R) (answer : Result NetEcuError (Unit {0}))
      → set_signal net s index id name value ≡ some (s', answer)
      → IsSound given s
      → IsSound given s'
  unfolding set_signal
  set_signal-IsSound given s s' index id name value answer h sound =
      let (e, _, h1) = >>=-eq-some (get_elem? s.ecus index) _ h in
      let ((e', r), _, h2) = >>=-eq-some (ecu.set_signal e id name value) _ h1 in
      subst (IsSound given) (ap (λ x. x.0) (some_inj h2))
        (same_length-IsSound given s (set s.ecus index e') (length-set s.ecus index e') sound)

  set_field-IsSound :
      (given : List ℕ) (s s' : NetworkSim net) (index : ℕ) (name field : String)
      (value : SignalValue R) (answer : Result NetEcuError (Unit {0}))
      → set_field net s index name field value ≡ some (s', answer)
      → IsSound given s
      → IsSound given s'
  unfolding set_field
  set_field-IsSound given s s' index name field value answer h sound =
      let (e, _, h1) = >>=-eq-some (get_elem? s.ecus index) _ h in
      let ((e', r), _, h2) = >>=-eq-some (ecu.set_field e name field value) _ h1 in
      subst (IsSound given) (ap (λ x. x.0) (some_inj h2))
        (same_length-IsSound given s (set s.ecus index e') (length-set s.ecus index e') sound)

  -- Every operation that returns keeps the simulation sound.
  pub Step-IsSound :
      {given more : List ℕ} {s s' : NetworkSim net}
      → Step s more s'
      → IsSound given s
      → IsSound (more ++ given) s'
  unfolding attach attach1 subscribe add_fault
  Step-IsSound {given} {s = s} (attaches e wanted) h =
      let (own, grown) = AllKnown-grow given s.ecus e s.subscriptions h.known in
      record {
        known =
            subscribe_all-All (Known given (length (s.ecus ++ e ∷ []))) s.subscriptions wanted
              (length s.ecus) own grown;
        pos = h.pos;
        scheduled = h.scheduled;
      }
  Step-IsSound {given} {s = s} (attaches1 e key) h =
      let (own, grown) = AllKnown-grow given s.ecus e s.subscriptions h.known in
      record {
        known =
            add_subscription-All (Known given (length (s.ecus ++ e ∷ []))) s.subscriptions key
              (length s.ecus) own grown;
        pos = h.pos;
        scheduled = h.scheduled;
      }
  Step-IsSound {given} {s = s} (subscribes key i) h = record {
    known =
        add_subscription-All (Known (i ∷ given) (length s.ecus)) s.subscriptions key i
          (inr (inl refl))
          (AllKnown-map given (i ∷ given) (length s.ecus) (length s.ecus) s.subscriptions
            (λ j k. elim k [ inl lt ↦ inl lt | inr g ↦ inr (inr g) ]) h.known);
    pos = h.pos;
    scheduled = h.scheduled;
  }
  Step-IsSound (faults rule) h = record { known = h.known; pos = h.pos; scheduled = h.scheduled }
  Step-IsSound {given} {s = s} (signals index id name value s' answer e) h =
      set_signal-IsSound given s s' index id name value answer e h
  Step-IsSound {given} {s = s} (fields index name field value s' answer e) h =
      set_field-IsSound given s s' index name field value answer e h
  Step-IsSound {given} {s = s} (injects msg s' e) h =
      let x = inject-Extends net s s' msg e in
      record {
        known = subst₂ (AllKnown given) (sym x.ecus) (sym x.subscriptions) h.known;
        pos = subst (λ w. 0 < w) (sym x.step_us) h.pos;
        scheduled = routed-IsScheduled net s s' h.pos h.scheduled x;
      }
  Step-IsSound {given} {s = s} (ticks s' e) h =
      let x = step-Ticks net s s' h.pos h.scheduled e in
      record {
        known = subst₂ (AllKnown given) (sym x.ecus) (sym x.subscriptions) h.known;
        pos = subst (λ w. 0 < w) (sym x.step_us) h.pos;
        scheduled = x.scheduled;
      }

  -- In every state that operations which return reach from a new simulation with a positive step, each
  -- subscription names an ECU or has an index that the caller gave to `subscribe`, which checks
  -- none; the step is positive, and every delayed message is due at its own timestamp, later than
  -- one step before the clock.
  pub Reach-IsSound :
      {step_us : ℕ} {given : List ℕ} {s : NetworkSim net}
      → 0 < step_us
      → Reach step_us given s
      → IsSound given s
  Reach-IsSound {step_us} pos created = new-IsSound step_us pos
  Reach-IsSound pos (next r st) = Step-IsSound st (Reach-IsSound pos r)
