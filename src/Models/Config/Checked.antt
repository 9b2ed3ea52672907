-- ===== src/Models/Config/Checked.antt =====
-- The values of a configured node (crates/embrig-models/src/config.rs) are those that its codec accepts.
use Prim.Native.Nat.{Ordering}
use embrig.Prelude.{
  ℕ, String, List, [], ◌∷◌, some, ◌≡◌, refl, subst, All, ltb, eqb, Bool-cases, inl, inr,
}
use embrig.Prelude.Keys.{string_key}
use embrig.Prelude.Map.{Map, insert}
use embrig.Prelude.Panic.{Panic, ◌>>=◌, add_u64, >>=-eq-some}
use embrig.Prelude.Fallible as Fallible
use embrig.Prelude.Fallible.{Fallible, >>=-eq-ok, ok_inj}
use embrig.Prelude.Result.{Result}
use embrig.Core.Time.{Timestamp}
use embrig.Core.Float.{Float}
use embrig.Core.Signal.{SignalValue}
use embrig.Core.Frame.{CanFrame}
use embrig.Core.Network.{NetEcuError}
use embrig.Core.Codec.{MessageCodec}
use embrig.Models.Sending.{push_frame}
use embrig.Models.Config.{
  SignalLiteral, ConfigEcu, literal_to_physical, initial_values, new, update, physical, set_signal,
  checked, stored,
}

some_pair :
    {A B : Type 0} {a a' : A} {b b' : B}
    → ◌≡◌ {A = Panic (A × B)} (some (a, b)) (some (a', b'))
    → a ≡ a'
some_pair h = cc

module _ {R : Type 0} (P : String → R → Type 0) where
  abbrev Entries : Map String R → Type 0
  Entries = All (λ entry. P entry.0 entry.1)

  by_order :
      (k name : String) (w v : R) (m : Map String R) (o : Ordering)
      → string_key.cmp name k ≡ o
      → Entries ((k, w) ∷ m)
      → P name v
      → Entries (insert m name v)
      → Entries (insert ((k, w) ∷ m) name v)
  by_order k name w v m Ordering.lt e h p rest = rw (insert, e) (p, h)
  by_order k name w v m Ordering.eq e h p rest =
      rw (insert, e) (subst (λ n. P n v) ((string_key.cmp_iff name k).0 e) p, h.1)
  by_order k name w v m Ordering.gt e h p rest = rw (insert, e) (h.0, rest)

  insert-Entries :
      (m : Map String R) (name : String) (v : R) → Entries m → P name v → Entries (insert m name v)
  insert-Entries [] name v h p = (p, tt)
  insert-Entries ((k, w) ∷ m) name v h p =
      by_order k name w v m (string_key.cmp name k) refl h p (insert-Entries m name v h.1 p)

module _ (float : Float) where
  open float use {R}

  -- Every value that the node holds is one that its codec accepts for its signal.
  abbrev pub Accepted : MessageCodec R → Map String R → Type 0
  Accepted codec = All (λ entry. codec.check_value entry.0 entry.1 ≡ Fallible.ok tt)

  checked-accepts :
      (codec : MessageCodec R) (name : String) (v v' : R)
      → checked float codec name v ≡ Fallible.ok v'
      → codec.check_value name v' ≡ Fallible.ok tt
  checked-accepts codec name v v' h =
      let (a, accepted, same) =
        >>=-eq-ok (Fallible.map_err (λ e. NetEcuError.invalid_value e) (codec.check_value name v))
          (λ a. Fallible.ok v) h in
      subst (λ w. codec.check_value name w ≡ Fallible.ok tt) (ok_inj same)
        (Fallible.map_err-ok (λ e. NetEcuError.invalid_value e) (codec.check_value name v) a
          accepted)

  initial_values-Accepted :
      (codec : MessageCodec R) (initial : Map String (SignalLiteral R)) (values out : Map String R)
      → Accepted codec values
      → initial_values float codec initial values ≡ Fallible.ok out
      → Accepted codec out
  unfolding initial_values
  initial_values-Accepted codec [] values out h e = subst (Accepted codec) (ok_inj e) h
  initial_values-Accepted codec ((name, lit) ∷ initial) values out h e =
      let (v, given, e') =
        >>=-eq-ok (literal_to_physical float codec name lit)
          (λ v.
            Fallible.bind (checked float codec name v)
              (λ v'. initial_values float codec initial (insert values name v')))
          e in
      let (v', passed, rest) =
        >>=-eq-ok (checked float codec name v)
          (λ v'. initial_values float codec initial (insert values name v')) e' in
      initial_values-Accepted codec initial (insert values name v') out
        (insert-Entries (λ n w. codec.check_value n w ≡ Fallible.ok tt) values name v' h
          (checked-accepts codec name v v' passed))
        rest

  new-Accepted :
      (name : String) (codec : MessageCodec R) (period : Timestamp)
      (initial : Map String (SignalLiteral R)) (e : ConfigEcu float)
      → new float name codec period initial ≡ Fallible.ok e
      → Accepted e.codec e.values
  unfolding new
  new-Accepted name codec period initial e h =
      let (values, made, same) =
        >>=-eq-ok (initial_values float codec initial [])
          (λ values.
            Fallible.ok
              (record { name = name; codec = codec; values = values; period = period; next = 0 }))
          h in
      subst (λ x. Accepted x.codec x.values) (ok_inj same)
        (initial_values-Accepted codec initial [] values tt made)

  stored-Accepted :
      (e e' : ConfigEcu float) (signal : String) (r : Fallible NetEcuError R)
      (answer : Result NetEcuError (Unit {0}))
      → ((v : R) → r ≡ Fallible.ok v → e.codec.check_value signal v ≡ Fallible.ok tt)
      → stored float e signal r ≡ some (e', answer)
      → Accepted e.codec e.values
      → Accepted e'.codec e'.values
  stored-Accepted e e' signal (Fallible.ok v) answer accepts h all =
      subst (λ x. Accepted x.codec x.values) (some_pair h)
        (insert-Entries (λ n w. e.codec.check_value n w ≡ Fallible.ok tt) e.values signal v all
          (accepts v refl))
  stored-Accepted e e' signal (Fallible.err failure) answer accepts h all =
      subst (λ x. Accepted x.codec x.values) (some_pair h) all
  stored-Accepted e e' signal Fallible.panic answer accepts h all = absurd (cc)

  set_signal-Accepted :
      (e e' : ConfigEcu float) (id : ℕ) (signal : String) (value : SignalValue R)
      (answer : Result NetEcuError (Unit {0}))
      → set_signal float e id signal value ≡ some (e', answer)
      → Accepted e.codec e.values
      → Accepted e'.codec e'.values
  unfolding set_signal
  set_signal-Accepted e e' id signal value answer h all = elim (Bool-cases (eqb id e.codec.id)) [
    | inl same ↦
        let given = rw (set_signal, same) at h in
        stored-Accepted e e' signal
          (Fallible.bind (physical float e.codec signal value) (checked float e.codec signal))
          answer
          (λ v passed.
            let (w, found, last) =
              >>=-eq-ok (physical float e.codec signal value) (checked float e.codec signal)
                passed in
            checked-accepts e.codec signal w v last)
          given all
    | inr other ↦
        let refused = rw (set_signal, other) at h in
        subst (λ x. Accepted x.codec x.values) (some_pair refused) all
  ]

  update-Accepted :
      (e e' : ConfigEcu float) (time : Timestamp) (out out' : List CanFrame)
      → update float e time out ≡ some (e', out')
      → Accepted e.codec e.values
      → Accepted e'.codec e'.values
  unfolding update
  update-Accepted e e' time out out' h all = elim (Bool-cases (ltb time e.next)) [
    | inl waiting ↦
        let same = rw (update, waiting) at h in
        subst (λ x. Accepted x.codec x.values) (some_pair same) all
    | inr due ↦
        let (sent, pushed, h') =
          >>=-eq-some (push_frame e.codec.id (e.codec.encode_signals e.values) out)
            (λ sent. add_u64 time e.period >>= λ next. some (record e { next = next }, sent))
            (rw (update, due) at h) in
        let (next, added, same) =
          >>=-eq-some (add_u64 time e.period) (λ next. some (record e { next = next }, sent)) h' in
        subst (λ x. Accepted x.codec x.values) (some_pair same) all
  ]

  -- A node's life: updates and overrides that do not panic, whatever they answer.
  pub data Lives : ConfigEcu float → ConfigEcu float → Type 0 where
    born : {e : ConfigEcu float} → Lives e e
    updated :
        {e e' u : ConfigEcu float} (time : Timestamp) (out out' : List CanFrame)
        → update float e time out ≡ some (e', out')
        → Lives e' u
        → Lives e u
    overridden :
        {e e' u : ConfigEcu float} (id : ℕ) (signal : String) (value : SignalValue R)
        (answer : Result NetEcuError (Unit {0}))
        → set_signal float e id signal value ≡ some (e', answer)
        → Lives e' u
        → Lives e u

  Lives-Accepted :
      {e u : ConfigEcu float} → Lives e u → Accepted e.codec e.values → Accepted u.codec u.values
  Lives-Accepted born all = all
  Lives-Accepted (updated {e = e} {e' = e'} time out out' h rest) all =
      Lives-Accepted rest (update-Accepted e e' time out out' h all)
  Lives-Accepted (overridden {e = e} {e' = e'} id signal value answer h rest) all =
      Lives-Accepted rest (set_signal-Accepted e e' id signal value answer h all)

  -- A node that was made from a configuration never holds a value that its codec refuses, whatever
  -- updates and overrides it lives through.
  pub new-Lives-Accepted :
      (name : String) (codec : MessageCodec R) (period : Timestamp)
      (initial : Map String (SignalLiteral R)) (e u : ConfigEcu float)
      → new float name codec period initial ≡ Fallible.ok e
      → Lives e u
      → Accepted u.codec u.values
  new-Lives-Accepted name codec period initial e u made life =
      Lives-Accepted life (new-Accepted name codec period initial e made)
