-- ===== src/Models/Sending.antt =====
-- What the ECUs of crates/embrig-models/src/ecus.rs share: sending a frame, and freshness.
use embrig.Prelude.{
  true, ◌+◌, ◌↔◌, refl, sym, subst, ℕ, ◌-◌, ◌*◌, ◌≤◌, ◌≡◌, arith, Bool, false, leb, String, List,
  [], ◌∷◌, ◌++◌, Option, some, none, length,
}
use embrig.Prelude.Fallible.{Fallible, ok, if_ok}
use embrig.Prelude.Result.{Result}
use embrig.Prelude.Panic.{some_inj, Panic}
use embrig.Core.Time.{Timestamp, us_per_ms}
use embrig.Core.Frame.{CanFrame, new, with_ts}

-- `if let Ok(data) = ... { if let Ok(frame) = CanFrame::new(..) { out.push(frame) } }`
unfoldable pub push_frame : ℕ → Fallible String (List ℕ) → List CanFrame → Panic (List CanFrame)
push_frame id encoded out =
    if_ok encoded
      (λ bytes. elim (new id bytes) [
        | Result.ok frame ↦ some (out ++ frame ∷ [])
        | Result.err e ↦ some out
      ])
      (some out)

-- Data of at most eight bytes is sent as one frame.
pub push_frame-ok :
    (id : ℕ) (encoded : Fallible String (List ℕ)) (bytes : List ℕ) (out : List CanFrame)
    → encoded ≡ ok bytes
    → length bytes ≤ 8
    → push_frame id encoded out
      ≡ some (out ++ record { id = id; payload = bytes; ts = 0; extended = false } ∷ [])
unfolding push_frame new with_ts
push_frame-ok id encoded bytes out e fits = rw e (ground arith)

-- A time was seen, at most `limit` milliseconds before now: `time.saturating_sub(t) <= ms(limit)`.
abbrev pub fresh : Option Timestamp → ℕ → Timestamp → Bool
fresh none limit now = false
fresh (some t) limit now = leb (now - t) (limit * us_per_ms)

-- What was seen counts for `limit` milliseconds.
pub fresh_iff :
    (o : Option ℕ) (limit now : ℕ)
    → (fresh o limit now ≡ true) ↔ ((t : ℕ) × (o ≡ some t) × (now ≤ t + limit * 1000))
fresh_iff none limit now = (λ h. absurd (cc), λ (t, e, h). absurd (cc))
fresh_iff (some t) limit now = (
  λ h. (t, refl, ground arith),
  λ (t', e, h). subst (λ u. fresh (some u) limit now ≡ true) (sym (some_inj e)) (ground arith),
)
