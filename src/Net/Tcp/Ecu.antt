-- ===== src/Net/Tcp/Ecu.antt =====
-- TcpConfigEcu of crates/embrig-net/src/tcp.rs: a node that sends one message at a fixed period. The text
-- of a field error, which a library derives, is a parameter.
use embrig.Prelude.{ℕ, String, List, [], ◌∷◌, ◌++◌, none, some, ltb, not, if◌then◌else◌}
use embrig.Prelude.Keys.{◌==◌, string_key}
use embrig.Prelude.Int.{pos}
use embrig.Prelude.Map.{Map, get, insert}
use embrig.Prelude.Panic.{Panic, ◌>>=◌, add_u64}
use embrig.Prelude.Fallible.{Fallible, map_err, if_ok}
use embrig.Prelude.Result.{Result, ok, err}
use embrig.Core.Time.{Timestamp}
use embrig.Core.Float.{Float}
use embrig.Core.Signal.{SignalValue, num}
use embrig.Core.Network.{NetEcu, NetEcuError}
use embrig.Net.Netmap.{MessageDef, FieldError, field, encode_fields}
use embrig.Net.Tcp.{TcpSegment}
use embrig.Net.Tcp

module _ (float : Float) where
  open float use {R, literal}

  pub record TcpConfigEcu (A : Type 0) : Type 0 where
    pub name : String
    pub src : A
    pub message_name : String
    pub message : MessageDef float A
    pub period_us : Timestamp
    pub base : Map String (SignalValue R)
    pub overrides : Map String (SignalValue R)
    pub next : Timestamp

  -- `base.entry(field).or_insert(SignalValue::Num(0.0))` for each key of a map.
  unfoldable pub or_zero :
      {V : Type 0} → Map String V → Map String (SignalValue R) → Map String (SignalValue R)
  or_zero [] base = base
  or_zero ((name, v) ∷ fields) base = elim (get base name) [
    | none ↦ or_zero fields (insert base name (num (literal (pos 0) 0)))
    | some value ↦ or_zero fields base
  ]

  module _ {A : Type 0} where
    unfoldable pub new :
        String
        → A
        → String
        → MessageDef float A
        → Timestamp
        → Map String (SignalValue R)
        → TcpConfigEcu A
    unfolding or_zero
    new name src message_name message period_us base = record {
      name = name;
      src = src;
      message_name = message_name;
      message = message;
      period_us = period_us;
      base = or_zero message.fields base;
      overrides = [];
      next = 0;
    }

    -- The override of a field, else its base value, else zero.
    unfoldable pub current : TcpConfigEcu A → String → SignalValue R
    current e name = elim (get e.overrides name) [
      | some value ↦ value
      | none ↦ elim (get e.base name) [ some value ↦ value | none ↦ num (literal (pos 0) 0) ]
    ]

    unfoldable pub values :
        {V : Type 0} → TcpConfigEcu A → Map String V → List (String × SignalValue R)
    unfolding current
    values e [] = []
    values e ((name, f) ∷ fields) = (name, current e name) ∷ values e fields

    unfoldable pub set_field :
        TcpConfigEcu A
        → String
        → String
        → SignalValue R
        → TcpConfigEcu A × Result NetEcuError (Unit {0})
    unfolding field
    set_field e message name value =
        if not (message == e.message_name)
        then (e, err (NetEcuError.unknown_message message))
        else elim (field float e.message name) [
          | none ↦ (e, err (NetEcuError.unknown_field name))
          | some f ↦ (record e { overrides = insert e.overrides name value }, ok tt)
        ]

    module _ (to_string : FieldError float → String) where
      unfoldable pub encode : TcpConfigEcu A → Fallible NetEcuError (List ℕ)
      unfolding values
      encode e =
          map_err (λ failure. NetEcuError.invalid_value (to_string failure))
            (encode_fields float e.message (values e e.message.fields))

      unfoldable pub update :
          TcpConfigEcu A
          → Timestamp
          → List (TcpSegment A)
          → Panic (TcpConfigEcu A × List (TcpSegment A))
      unfolding encode Tcp.new
      update e time out =
          let pushed : Panic (List (TcpSegment A)) =
            if_ok (encode e) (λ payload. some (out ++ Tcp.new e.src e.message.dst payload ∷ []))
              (some out) in
          if ltb time e.next then some (e, out) else (do
            out' ← pushed
            next ← add_u64 time e.period_us
            some (record e { next = next }, out'))

      -- The node behind the trait: messages are ignored, and it has no signals.
      abbrev pub tcp_config_ecu : NetEcu R (TcpSegment A) (TcpConfigEcu A)
      unfolding update set_field
      tcp_config_ecu = record {
        name = λ e. e.name;
        update = update;
        on_message = λ e message time. some e;
        set_signal = λ e id signal value. some (e, err NetEcuError.signal_not_supported);
        set_field = λ e message name value. some (set_field e message name value);
      }
