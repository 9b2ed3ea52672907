-- ===== src/Core/Recorder.antt =====
-- NetRecord and NetRecorder of crates/embrig-core/src/network.rs. A record is appended at the end.
pub mod Queries
use mathlib.Core.List.{reverse, filter_map}
use embrig.Prelude.{
  ℕ, String, Bool, true, false, List, [], ◌∷◌, ◌++◌, Option, none, some, ◌||◌, if◌then◌else◌,
}
use embrig.Prelude.Keys.{Key, ◌==◌}
use embrig.Core.Time.{Timestamp}

pub data NetRecord (M : Type 0) : Type 0 where
  message : M → NetRecord M
  event : (ts : Timestamp) (source text : String) → NetRecord M

pub record NetRecorder (M : Type 0) : Type 0 where
  pub records : List (NetRecord M)

module _ {M : Type 0} where
  unfoldable pub new : NetRecorder M
  new = record { records = [] }

  abbrev pub push : NetRecorder M → NetRecord M → NetRecorder M
  push r x = record r { records = r.records ++ x ∷ [] }

  unfoldable pub push_message : NetRecorder M → M → NetRecorder M
  push_message r m = push r (message m)

  unfoldable pub push_event : NetRecorder M → Timestamp → String → String → NetRecorder M
  push_event r ts source text = push r (event ts source text)

  unfoldable pub clear : NetRecorder M → NetRecorder M
  clear r = record r { records = [] }

  abbrev pub as_message : NetRecord M → Option M
  as_message (message m) = some m
  as_message (event ts source text) = none

  unfoldable pub messages : NetRecorder M → List M
  messages r = filter_map as_message (reverse r.records)

  module _ {K : Type 0} ⦃k : Key K⦄ (key_of : M → K) (key : K) where
    abbrev pub has_key : NetRecord M → Bool
    has_key (message m) = key_of m == key
    has_key (event ts source text) = false

    -- `find_map` of the messages with the key.
    abbrev pub find_message : List (NetRecord M) → Option M
    find_message [] = none
    find_message (message m ∷ rs) = if key_of m == key then some m else find_message rs
    find_message (event ts source text ∷ rs) = find_message rs

    unfoldable pub last_message : NetRecorder M → Option M
    last_message r = find_message (reverse r.records)

    abbrev pub any_message : List (NetRecord M) → Bool
    any_message [] = false
    any_message (r ∷ rs) = has_key r || any_message rs

    unfoldable pub has_message : NetRecorder M → Bool
    has_message r = any_message r.records
