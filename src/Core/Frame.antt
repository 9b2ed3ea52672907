-- ===== src/Core/Frame.antt =====
-- crates/embrig-core/src/frame.rs: CAN frames, as messages of a network keyed by the frame id.
pub mod Bytes
use Prim.Native.String.{◌++◌}
use embrig.Prelude.{
  ℕ, ◌+◌, ◌*◌, ◌/◌, ◌%◌, Bool, false, List, length, get_elem?, set, ltb, if◌then◌else◌, refl, some,
  none,
}
use embrig.Prelude.Panic.{Panic, ◌>>=◌}
use embrig.Prelude.Result.{Result, ok, err}
use embrig.Prelude.Format.{hex3}
use embrig.Core.Time.{Timestamp}
use embrig.Core.Network.{NetMessage}

pub record CanFrame : Type 0 where
  pub id : ℕ
  pub payload : List ℕ
  pub ts : Timestamp
  pub extended : Bool

pub data FrameError : Type 0 where
  data_too_long : ℕ → FrameError
  out_of_bounds : FrameError

unfoldable pub with_ts : ℕ → List ℕ → Timestamp → Result FrameError CanFrame
with_ts id payload ts =
    if ltb 8 (length payload)
    then err (data_too_long (length payload))
    else ok (record { id = id; payload = payload; ts = ts; extended = false })

unfoldable pub new : ℕ → List ℕ → Result FrameError CanFrame
unfolding with_ts
new id payload = with_ts id payload 0

-- `data[i] = b`, which panics out of range.
abbrev pub store : List ℕ → ℕ → ℕ → Panic (List ℕ)
store bytes i b = if ltb i (length bytes) then some (set bytes i b) else none

unfoldable pub u16_le : CanFrame → ℕ → Panic ℕ
u16_le f offset = do
  lo ← get_elem? f.payload offset
  hi ← get_elem? f.payload (offset + 1)
  some (lo + hi * 256)

unfoldable pub set_u16_le : CanFrame → ℕ → ℕ → Panic CanFrame
set_u16_le f offset value = do
  bytes ← store f.payload offset (value % 256)
  bytes' ← store bytes (offset + 1) (value / 256)
  some (record f { payload = bytes' })

abbrev pub frame_message : NetMessage ℕ CanFrame
frame_message = record {
  key = λ f. f.id;
  payload = λ f. f.payload;
  set_payload = λ f p. record f { payload = p };
  ts = λ f. f.ts;
  set_ts = λ f t. record f { ts = t };
  noun = "frame";
  label = λ f. "0x" ++ hex3 f.id;
  ts-set_ts = λ m t. refl;
  key-set_ts = λ m t. refl;
  payload-set_ts = λ m t. refl;
  key-set_payload = λ m p. refl;
  ts-set_payload = λ m p. refl;
  payload-set_payload = λ m p. refl;
}
