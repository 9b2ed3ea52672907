-- ===== src/Firmware/Sending.antt =====
-- What the firmwares under firmware/ share: a frame for a message of the description.
use embrig.Prelude.{ℕ, String, List, none, some}
use embrig.Prelude.Fallible.{Fallible, if_ok}
use embrig.Prelude.Result.{Result}
use embrig.Prelude.Panic.{Panic, ◌>>=◌}
use embrig.Core.Frame.{CanFrame, FrameError}
use embrig.Core.Frame
use embrig.Core.Float.{Float}
use embrig.Dbc.Types.{Network, message}
use embrig.Dbc.Codec.{encode_signals}

-- `expect` and `unwrap`: a value, or a panic.
abbrev pub expect : {E A : Type 0} → Fallible E A → Panic A
expect r = if_ok r (λ value. some value) none

abbrev pub expect_frame : Result FrameError CanFrame → Panic CanFrame
expect_frame (Result.ok frame) = some frame
expect_frame (Result.err e) = none

-- `CanFrame::new(id, network().message(id).unwrap().encode_signals(values).expect(..)).expect(..)`
unfoldable pub make_frame :
    (float : Float) → Network float → ℕ → List (String × float.R) → Panic CanFrame
unfolding Frame.new
make_frame float network id values = do
  m ← message float network id
  bytes ← expect (encode_signals float m values)
  expect_frame (Frame.new id bytes)
