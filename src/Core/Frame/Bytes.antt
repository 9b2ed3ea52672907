-- ===== src/Core/Frame/Bytes.antt =====
-- The data field of a CAN frame: its length limit and its two-byte values (frame.rs).
use embrig.Prelude.{
  ℕ, ◌/◌, ◌%◌, set, refl, ◌∙◌, false, ◌+◌, ◌≤◌, ◌<◌, ◌≡◌, ◌≢◌, ◌⊎◌, List, length, get_elem?,
  length-set, get_elem?-set_self, get_elem?-set_ne, some, arith,
}
use embrig.Prelude.Result.{ok, err}
use embrig.Core.Frame.{CanFrame, with_ts, data_too_long, u16_le, set_u16_le}

-- A frame is made when its data has at most eight bytes, and then holds them unchanged with the
-- given id and time; longer data is refused with an error that carries the length.
pub with_ts_cases :
    (id : ℕ) (payload : List ℕ) (ts : ℕ)
    → ((length payload ≤ 8)
        × (with_ts id payload ts
            ≡ ok (record { id = id; payload = payload; ts = ts; extended = false })))
      ⊎ ((8 < length payload) × (with_ts id payload ts ≡ err (data_too_long (length payload))))
unfolding with_ts
with_ts_cases id payload ts = ground arith

-- Where both bytes lie inside the data, a stored two-byte value reads back, and any other byte,
-- the length, the id and the time are unchanged.
pub u16_le-set_u16_le :
    (f : CanFrame) (offset value i : ℕ)
    → offset + 1 < length f.payload
    → i ≢ offset
    → i ≢ offset + 1
    → (g : CanFrame) × (set_u16_le f offset value ≡ some g)
      × (u16_le g offset ≡ some value)
      × (g.id ≡ f.id)
      × (g.ts ≡ f.ts)
      × (length g.payload ≡ length f.payload)
      × (get_elem? g.payload i ≡ get_elem? f.payload i)
unfolding set_u16_le u16_le
u16_le-set_u16_le f offset value i h a b =
    let p = set f.payload offset (value % 256) in
    let q = set p (offset + 1) (value / 256) in
    let lp = length-set f.payload offset (value % 256) in
    let lq = length-set p (offset + 1) (value / 256) in
    let lo = get_elem?-set_self f.payload offset (value % 256) (omega arith) in
    let hi = get_elem?-set_self p (offset + 1) (value / 256) (omega (arith, lp)) in
    let lo' = get_elem?-set_ne p (offset + 1) offset (value / 256) (omega arith) in
    (
      record f { payload = q },
      ground (arith, lp),
      ground (arith, lo, hi, lo'),
      refl,
      refl,
      lq ∙ lp,
      ground (
        arith,
        get_elem?-set_ne f.payload offset i (value % 256),
        get_elem?-set_ne p (offset + 1) i (value / 256),
      ),
    )
