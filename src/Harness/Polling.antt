-- ===== src/Harness/Polling.antt =====
-- `poll_until` of crates/embrig-test/src/runner.rs. The loop has a number of polls to make.
pub mod Loop
pub mod Deadline
use Prim.Native.Nat.{min}
use Prim.Native.String.{◌++◌}
use embrig.Prelude.{
  ℕ, zero, suc, ◌+◌, ◌-◌, ◌^◌, Bool, true, false, ◌&&◌, ◌||◌, eqb, leb, String, Option, none, some,
}
use embrig.Prelude.Panic.{Panic}
use embrig.Prelude.Fallible.{Fallible, ok, err, panic}
use embrig.Prelude.Result as Result
use embrig.Prelude.Result.{Result}
use embrig.Core.Time.{Timestamp}
use embrig.Core.Float.{Float}
use embrig.Harness.Duration.{DslError, parse_duration}
use embrig.Harness.Assertion.{Assertion, Observed, check_assertion}

-- What code that polls comes to: it returns, panics, or has not returned within its polls.
pub data Ran (B : Type 0) : Type 0 where
  returned : B → Ran B
  panicked : Ran B
  unfinished : Ran B

infixl 5 ◌>>=◌
abbrev pub ◌>>=◌ : {B C : Type 0} → Ran B → (B → Ran C) → Ran C
returned b >>= next = next b
panicked >>= next = panicked
unfinished >>= next = unfinished

abbrev pub or_panicked : {B : Type 0} → Panic B → Ran B
or_panicked none = panicked
or_panicked (some b) = returned b

-- `saturating_add` of u64.
abbrev pub saturating_add : ℕ → ℕ → ℕ
saturating_add a b = min (a + b) (2 ^ 64 - 1)

-- An absent assertion, of which a message was seen.
abbrev pub forbids : {R : Type 0} → Option Bool → Option (Observed R) → Bool
forbids (some false) (some o) = true
forbids (some false) none = false
forbids (some true) obs = false
forbids none obs = false

pub data Verdict : Type 0 where
  decided : Result String (Unit {0}) → Verdict
  again : String → Verdict
  crashed : Verdict

module _ (float : Float) {T : Type 0} (elapsed_us : T → Timestamp) where
  open float use {R}

  abbrev pub Poll : Type 0
  Poll = T → Panic (T × Result String (Option (Observed R)))

  abbrev seen_text : Assertion R → String
  seen_text spec = "expected no " ++ (spec.kind ++ (" " ++ (spec.label ++ " but one was observed")))

  -- A round after its poll: the loop returns, tries again while there is time, or panics.
  unfoldable pub judge : Assertion R → Option (Observed R) → Verdict
  unfolding check_assertion
  judge spec obs = elim (forbids spec.present obs) [
    | true ↦ decided (Result.err (seen_text spec))
    | false ↦ elim (check_assertion float spec obs) [
      | ok a ↦ decided (Result.ok tt)
      | err message ↦ again message
      | panic ↦ crashed
    ]
  ]

  -- The `loop`: each round polls once.
  unfoldable pub poll_loop :
      ℕ
      → Assertion R
      → Poll
      → (within_us deadline : Timestamp) → T
      → Ran (T × Result String (Unit {0}))
  unfolding judge
  poll_loop zero spec poll within_us deadline t = unfinished
  poll_loop (suc fuel) spec poll within_us deadline t = elim (poll t) [
    | none ↦ panicked
    | some (t', Result.err message) ↦ returned (t', Result.err message)
    | some (t', Result.ok obs) ↦ elim (judge spec obs) [
      | decided outcome ↦ returned (t', outcome)
      | crashed ↦ panicked
      | again message ↦ elim (eqb within_us 0 || leb deadline (elapsed_us t')) [
        | true ↦ returned (t', Result.err message)
        | false ↦ poll_loop fuel spec poll within_us deadline t'
      ]
    ]
  ]

  unfoldable pub poll_until :
      (DslError → String)
      → ℕ
      → Assertion R
      → Option String
      → Timestamp
      → Poll
      → T
      → Ran (T × Result String (Unit {0}))
  unfolding poll_loop parse_duration
  poll_until to_string fuel spec within test_deadline poll t =
      let start : Timestamp → Ran (T × Result String (Unit {0})) = λ within_us.
        poll_loop fuel spec poll within_us
          (min (saturating_add (elapsed_us t) within_us) test_deadline) t in
      elim within [
        | none ↦ start 0
        | some w ↦ elim (parse_duration w) [
          | ok within_us ↦ start within_us
          | err failure ↦ returned (t, Result.err (to_string failure))
          | panic ↦ panicked
        ]
      ]
