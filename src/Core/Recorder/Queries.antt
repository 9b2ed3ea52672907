-- ===== src/Core/Recorder/Queries.antt =====
-- The queries of NetRecorder (crates/embrig-core/src/network.rs) against the log.
use mathlib.Core.List.{reverse, filter_map, reverse-append, reverse-cons}
use embrig.Prelude.{
  ℕ, String, ◌≡◌, ◌↔◌, refl, ap, Bool, true, false, ◌||◌, List, [], ◌∷◌, ◌++◌, Option, some, none,
  arith, find, if◌then◌else◌,
}
use embrig.Prelude.Keys.{Key, ◌==◌}
use embrig.Core.Recorder.{
  NetRecord, NetRecorder, message, event, push_message, push_event, messages, as_message,
  last_message, has_message, find_message, any_message,
}

abbrev is_some : {A : Type 0} → Option A → Bool
is_some none = false
is_some (some a) = true

is_some_iff : {A : Type 0} (o : Option A) → (is_some o ≡ true) ↔ ((a : A) × (o ≡ some a))
is_some_iff none = (λ h. absurd (cc), λ (a, e). absurd (cc))
is_some_iff (some a) = (λ h. (a, refl), λ _. refl)

module _ {M : Type 0} where
  reverse_last :
      (xs : List (NetRecord M)) (x : NetRecord M) → reverse (xs ++ x ∷ []) ≡ x ∷ reverse xs
  reverse_last xs x = reverse-append xs (x ∷ [])

  -- A logged message is the first of the messages, which are listed most recent first.
  pub messages-push_message :
      (r : NetRecorder M) (m : M) → messages (push_message r m) ≡ m ∷ messages r
  unfolding messages push_message filter_map
  messages-push_message r m = ap (filter_map as_message) (reverse_last r.records (message m))

  -- An event is no message.
  pub messages-push_event :
      (r : NetRecorder M) (ts : ℕ) (source text : String)
      → messages (push_event r ts source text) ≡ messages r
  unfolding messages push_event filter_map
  messages-push_event r ts source text =
      ap (filter_map as_message) (reverse_last r.records (event ts source text))

  module _ {K : Type 0} ⦃k : Key K⦄ (key_of : M → K) (key : K) where
    find_message-filter_map :
        (rs : List (NetRecord M))
        → find_message key_of key rs ≡ find (λ m. key_of m == key) (filter_map as_message rs)
    unfolding filter_map
    find_message-filter_map [] = refl
    find_message-filter_map (message m ∷ rs) = ground (arith, find_message-filter_map rs)
    find_message-filter_map (event ts source text ∷ rs) = find_message-filter_map rs

    -- The last message with a key is the first with that key of the messages, most recent first.
    pub last_message-eq-find :
        (r : NetRecorder M) → last_message key_of key r ≡ find (λ m. key_of m == key) (messages r)
    unfolding last_message messages
    last_message-eq-find r = find_message-filter_map (reverse r.records)

    -- A new message is the last one for its key, and leaves the last one of any other key.
    pub last_message-push_message :
        (r : NetRecorder M) (m : M)
        → last_message key_of key (push_message r m)
          ≡ (if key_of m == key then some m else last_message key_of key r)
    last_message-push_message r m =
        rw
          (
            last_message-eq-find (push_message r m),
            messages-push_message r m,
            last_message-eq-find r,
          )
          (ground arith)

    any_message-append :
        (xs ys : List (NetRecord M))
        → any_message key_of key (xs ++ ys)
          ≡ (any_message key_of key ys || any_message key_of key xs)
    any_message-append [] ys = ground arith
    any_message-append (x ∷ xs) ys = ground (arith, any_message-append xs ys)

    any_message-reverse :
        (rs : List (NetRecord M)) → any_message key_of key (reverse rs) ≡ any_message key_of key rs
    any_message-reverse [] = refl
    any_message-reverse (r ∷ rs) =
        rw (reverse-cons r rs, any_message-append (reverse rs) (r ∷ []))
          (ground (arith, any_message-reverse rs))

    any_message-eq-is_some :
        (rs : List (NetRecord M)) → any_message key_of key rs ≡ is_some (find_message key_of key rs)
    any_message-eq-is_some [] = refl
    any_message-eq-is_some (message m ∷ rs) = ground (arith, any_message-eq-is_some rs)
    any_message-eq-is_some (event ts source text ∷ rs) = any_message-eq-is_some rs

    -- The recorder has a message for a key exactly when there is a last one.
    pub has_message_iff :
        (r : NetRecorder M)
        → (has_message key_of key r ≡ true) ↔ ((m : M) × (last_message key_of key r ≡ some m))
    unfolding has_message last_message
    has_message_iff r =
        rw (← any_message-reverse r.records, any_message-eq-is_some (reverse r.records))
          (is_some_iff (find_message key_of key (reverse r.records)))
