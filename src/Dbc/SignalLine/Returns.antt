-- ===== src/Dbc/SignalLine/Returns.antt =====
-- Reading a signal line, as crates/embrig-dbc/src/parser.rs does, never panics.
use Prim.Native.Char.{Char}
use embrig.Prelude.{
  ℕ, ◌+◌, ◌^◌, ◌≡◌, refl, subst, inl, inr, Bool-cases, Option-cases, String, List, [], ◌∷◌, Option,
  none, some, length, get_elem?, get_elem?-some, arith, lt_or_le, le→ltb, lt→ltb,
}
use embrig.Prelude.Keys.{nat_key}
use embrig.Prelude.Int.{int_key}
use embrig.Prelude.Fallible.{Fallible, ok, err, panic, ◌>>=◌, or_err, or_panic}
use embrig.Core.Float.{Float}
use embrig.Dbc.Text.{
  same_char, split, trim_start_matches, trim_end_matches, contains, split_whitespace, trim,
  parse_unsigned, split_once,
}
use embrig.Dbc.SignalLine.{number, first, position, order_sign, parse_spec, parse_factor, parse_sg}

-- A result that is no panic, and whose value satisfies a predicate.
pub data Gives {E A : Type 0} (P : A → Type 0) : Fallible E A → Type 0 where
  gives : {a : A} → P a → Gives P (ok a)
  fails : {e : E} → Gives P (err e)

abbrev pub Any : {A : Type 0} → A → Type 0
Any a = Unit

pub >>=-Gives :
    {E A B : Type 0} {P : A → Type 0} {Q : B → Type 0} (first : Fallible E A)
    (next : A → Fallible E B)
    → Gives P first
    → ((a : A) → P a → Gives Q (next a))
    → Gives Q (first >>= next)
>>=-Gives (ok a) next (gives h) rest = rest a h
>>=-Gives (err e) next h rest = fails
>>=-Gives panic next h rest = elim h [ ]

pub or_err-Gives : {E A : Type 0} (o : Option A) (e : E) → Gives (λ a. o ≡ some a) (or_err o e)
or_err-Gives none e = fails
or_err-Gives (some a) e = gives refl

pub or_panic-Gives :
    {E A : Type 0} (o : Option A) (a : A)
    → o ≡ some a
    → Gives {E = E} (λ b. o ≡ some b) (or_panic o)
or_panic-Gives none a h = absurd (cc)
or_panic-Gives (some b) a h = gives refl

pub some_inj : {A : Type 0} {a b : A} → ◌≡◌ {A = Option A} (some a) (some b) → a ≡ b
some_inj h = cc

position-inside :
    (c : Char) (tokens : List String) (i : ℕ)
    → position c tokens ≡ some i
    → (s : String) × (get_elem? tokens i ≡ some s)
unfolding position
position-inside c [] i h = absurd (cc)
position-inside c (s ∷ rest) i h = elim (Bool-cases (contains c s)) [
  | inl found ↦
      let here = rw (position, found) at h in
      subst (λ j. (t : String) × (get_elem? (s ∷ rest) j ≡ some t)) (some_inj here) (s, refl)
  | inr other ↦ elim (Option-cases (position c rest)) [
    | inl nowhere ↦ let gone = rw (position, other, nowhere) at h in absurd (cc)
    | inr (j, later) ↦
        let there = rw (position, other, later) at h in
        let (t, at) = position-inside c rest j later in
        subst (λ k. (t : String) × (get_elem? (s ∷ rest) k ≡ some t)) (some_inj there) (t, at)
  ]
]

parse_spec-Gives : (spec : String) (line : ℕ) → Gives Any (parse_spec spec line)
unfolding parse_spec
parse_spec-Gives spec line =
    >>=-Gives _ _ (or_err-Gives (split_once "@" spec) _) (λ (layout, sign) a.
      >>=-Gives _ _ (or_err-Gives (split_once "|" layout) _) (λ (start_s, len_s) b.
        >>=-Gives _ _ (or_err-Gives (parse_unsigned (2 ^ 16) start_s) _) (λ start c.
          >>=-Gives _ _ (or_err-Gives (parse_unsigned (2 ^ 16) len_s) _) (λ len d.
            >>=-Gives _ _ (or_err-Gives (order_sign sign) _) (λ (order, is_signed) e. gives tt)))))

module _ (float : Float) (parse_f64 : String → Option float.R) where
  parse_factor-Gives :
      (text : String) (line : ℕ) → Gives Any (parse_factor float parse_f64 text line)
  unfolding parse_factor
  parse_factor-Gives text line =
      let inner =
        trim_end_matches (same_char ")") (trim_start_matches (same_char "(") (trim text)) in
      >>=-Gives _ _ (or_err-Gives (number float parse_f64 (first (split (same_char ",") inner))) _)
        (λ factor h. gives tt)

  pub parse_sg-Gives : (rest : String) (line : ℕ) → Gives Any (parse_sg float parse_f64 rest line)
  unfolding parse_sg
  parse_sg-Gives rest line = elim (lt_or_le (length (split_whitespace rest)) 4) [
    | inl short ↦ rw (parse_sg, lt→ltb (length (split_whitespace rest)) 4 short) fails
    | inr enough ↦
        let tokens = split_whitespace rest in
        let (name, first) = get_elem?-some tokens 0 (omega (arith, enough)) in
        rw (parse_sg, le→ltb (length (split_whitespace rest)) 4 enough)
          (>>=-Gives _ _ (or_panic-Gives (get_elem? tokens 0) name first) (λ name a.
            >>=-Gives _ _ (or_err-Gives (position "@" tokens) _) (λ i found.
              let (spec, inside) = position-inside "@" tokens i found in
              >>=-Gives _ _ (or_panic-Gives (get_elem? tokens i) spec inside) (λ spec b.
                >>=-Gives _ _ (parse_spec-Gives spec line) (λ (start, len, order, is_signed) c.
                  >>=-Gives _ _ (or_err-Gives (get_elem? tokens (i + 1)) _) (λ text d.
                    >>=-Gives _ _ (parse_factor-Gives text line)
                      (λ (factor, shift) e. gives tt)))))))
  ]
