-- ===== src/Dbc/Types.antt =====
-- crates/embrig-dbc/src/types.rs: networks, messages and signals of a DBC file.
use embrig.Prelude.{ℕ, String, Bool, List, [], Option, some, find}
use embrig.Prelude.Keys.{◌==◌, nat_key, string_key}
use embrig.Prelude.Int.{ℤ, int_key}
use embrig.Prelude.Map.{Map, get}
use embrig.Prelude.Panic.{◌>>=◌}
use embrig.Core.Float.{Float}

pub data ByteOrder : Type 0 where
  intel motorola : ByteOrder

module _ (float : Float) where
  open float use {R, add, mul, of_i64}

  -- A decoded signal.
  pub record Signal : Type 0 where
    pub name : String
    pub value : R
    pub unit : String
    pub symbol : Option String

  pub record SignalDef : Type 0 where
    pub name : String
    pub start_bit : ℕ
    pub length : ℕ
    pub byte_order : ByteOrder
    pub is_signed : Bool
    pub factor : R
    pub offset : R
    pub unit : String
    pub min : Option R
    pub max : Option R
    pub value_table : Map ℤ String

  pub record MessageDef : Type 0 where
    pub id : ℕ
    pub name : String
    pub dlc : ℕ
    pub signals : List SignalDef

  unfoldable pub signal : MessageDef → String → Option SignalDef
  signal m name = find (λ s. s.name == name) m.signals

  unfoldable pub resolve_symbol : MessageDef → String → String → Option ℤ
  resolve_symbol m name symbol = do
    s ← signal m name
    entry ← find (λ entry. entry.1 == symbol) s.value_table
    some entry.0

  unfoldable pub physical_for_symbol : MessageDef → String → String → Option R
  physical_for_symbol m name symbol = do
    s ← signal m name
    raw ← resolve_symbol m name symbol
    some (add (mul (of_i64 raw) s.factor) s.offset)

  unfoldable pub symbol_for : MessageDef → String → ℤ → Option String
  symbol_for m name raw = do s ← signal m name; get s.value_table raw

  -- The messages of a network by CAN id.
  pub record Network : Type 0 where
    pub messages : Map ℕ MessageDef

  unfoldable pub new : Network
  new = record { messages = [] }

  unfoldable pub message : Network → ℕ → Option MessageDef
  message n id = get n.messages id
