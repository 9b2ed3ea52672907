-- ===== src/Dbc/Parser/Keyed.antt =====
-- The networks that the parser of crates/embrig-dbc/src/parser.rs returns, and that it always returns.
use mathlib.Core.Bool.{false≢true}
use embrig.Prelude.{
  ℕ, ◌+◌, ◌^◌, ◌≡◌, ◌⊎◌, refl, sym, subst, ◌∙◌, inl, inr, Bool-cases, Option-cases, String, List,
  [], ◌∷◌, Option, none, some, length, get_elem?, get_elem?-some, arith, lt_or_le, le→ltb, lt→ltb,
}
use embrig.Prelude.Keys.{◌==◌, nat_key, ==_iff}
use embrig.Prelude.Map.{Map, get, insert, get-insert}
use embrig.Prelude.Int.{ℤ, int_key}
use embrig.Core.Float.{Float}
use embrig.Prelude.Strings.{is_empty}
use embrig.Dbc.Text.{
  same_char, trim_end_matches, split_whitespace, lines, trim, strip_prefix, parse_unsigned,
  parse_signed, trim_matches,
}
use embrig.Dbc.Types.{SignalDef, MessageDef, Network, new}
use embrig.Dbc.SignalLine.{number, first}
use embrig.Dbc.Parser.{
  parse_bo, parse_val, pairs_of, push_signal, with_message, parse_line, parse_lines, parse,
  other_line, on_val, on_sg, is_skipped, named, drop_two, is_ignored,
}
use embrig.Dbc.SignalLine.Returns.{
  Gives, gives, fails, Any, >>=-Gives, or_err-Gives, or_panic-Gives, some_inj, parse_sg-Gives,
}

module _ (float : Float) (parse_f64 : String → Option float.R) where
  pairs_of-Gives :
      (line : ℕ) (tokens : List String) (table : Map ℤ String)
      → Gives Any (pairs_of float parse_f64 line tokens table)
  unfolding pairs_of
  pairs_of-Gives line [] table = gives tt
  pairs_of-Gives line (value ∷ []) table =
      elim (Bool-cases (is_empty (trim_end_matches (same_char ";") value))) [
        | inl nothing ↦ rw (pairs_of, nothing) (gives tt)
        | inr there ↦
            rw (pairs_of, there)
              (>>=-Gives {A = ℤ} _ _
                (or_err-Gives (parse_signed (2 ^ 63) (trim_end_matches (same_char ";") value)) _)
                (λ number h. fails))
      ]
  pairs_of-Gives line (value ∷ (symbol ∷ rest)) table =
      elim (Bool-cases (is_empty (trim_end_matches (same_char ";") value))) [
        | inl nothing ↦ rw (pairs_of, nothing) (gives tt)
        | inr there ↦
            elim (Option-cases (parse_signed (2 ^ 63) (trim_end_matches (same_char ";") value))) [
              | inl bad ↦ rw (pairs_of, there, bad) fails
              | inr (number, good) ↦
                  rw (pairs_of, there, good)
                    (pairs_of-Gives line rest
                      (insert table number (trim_matches (same_char "\"") symbol)))
            ]
      ]

  -- A message under an identifier.
  abbrev Held : Network float → ℕ → Type 0
  Held n id = (m : MessageDef float) × (get n.messages id ≡ some m)

  -- Every message stands under its own identifier, and the one being filled in is there.
  record Sound (state : Option ℕ × Network float) : Type 0 where
    is_open : (id : ℕ) → state.0 ≡ some id → Held state.1 id
    keyed : (id : ℕ) (m : MessageDef float) → get state.1.messages id ≡ some m → m.id ≡ id

  abbrev pub Keyed : Network float → Type 0
  Keyed n = (id : ℕ) (m : MessageDef float) → get n.messages id ≡ some m → m.id ≡ id

  with_message-Sound :
      (current : Option ℕ) (n : Network float) (id : ℕ) (m : MessageDef float)
      → ((other : ℕ) → current ≡ some other → (id ≡ other) ⊎ Held n other)
      → Keyed n
      → m.id ≡ id
      → Sound (current, with_message float parse_f64 n id m)
  with_message-Sound current n id m opened keyed own = record {
    is_open = λ other h. elim (Bool-cases (id == other)) [
      | inl same ↦ (m, get-insert n.messages id other m ∙ rw same refl)
      | inr apart ↦ elim (opened other h) [
        | inl equal ↦ absurd (false≢true (sym apart ∙ (==_iff id other).1 equal))
        | inr (k, there) ↦ (k, get-insert n.messages id other m ∙ rw apart there)
      ]
    ];
    keyed = λ other k h.
        let found = sym (get-insert n.messages id other m) ∙ h in
        elim (Bool-cases (id == other)) [
          | inl same ↦
              subst (λ k'. k'.id ≡ other) (some_inj (rw same at found))
                (own ∙ (==_iff id other).0 same)
          | inr apart ↦ keyed other k (rw apart at found)
        ];
  }

  parse_bo-Gives :
      (rest : String) (line : ℕ) (n : Network float)
      → Keyed n
      → Gives (λ (id, n'). Sound (some id, n')) (parse_bo float parse_f64 rest line n)
  unfolding parse_bo
  parse_bo-Gives rest line n keyed =
      let tokens = split_whitespace rest in
      >>=-Gives _ _ (or_err-Gives (get_elem? tokens 0) _) (λ id_s a.
        >>=-Gives _ _ (or_err-Gives (parse_unsigned (2 ^ 32) id_s) _) (λ id b.
          >>=-Gives _ _ (or_err-Gives (get_elem? tokens 1) _) (λ name c.
            >>=-Gives _ _ (or_err-Gives (get_elem? tokens 2) _) (λ dlc_s d.
              >>=-Gives _ _ (or_err-Gives (parse_unsigned (2 ^ 8) dlc_s) _) (λ dlc e.
                gives (
                  with_message-Sound (some id) n id _ (λ other h. inl (some_inj h)) keyed refl))))))

  push_signal-Gives :
      (n : Network float) (id : ℕ) (s : SignalDef float)
      → Sound (some id, n)
      → Gives (λ n'. Sound (some id, n')) (push_signal float parse_f64 n id s)
  unfolding push_signal
  push_signal-Gives n id s sound =
      let (m, there) = sound.is_open id refl in
      >>=-Gives _ _ (or_panic-Gives (get n.messages id) m there) (λ m' at. gives (
        with_message-Sound (some id) n id _ (λ other h. inl (some_inj h)) sound.keyed
          (sound.keyed id m' at)))

  parse_val-Gives :
      (rest : String) (line : ℕ) (current : Option ℕ) (n : Network float)
      → Sound (current, n)
      → Gives (λ n'. Sound (current, n')) (parse_val float parse_f64 rest line n)
  unfolding parse_val
  parse_val-Gives rest line current n sound = elim (lt_or_le (length (split_whitespace rest)) 3) [
    | inl short ↦ rw (parse_val, lt→ltb (length (split_whitespace rest)) 3 short) fails
    | inr enough ↦
        let tokens = split_whitespace rest in
        let (id_s, first) = get_elem?-some tokens 0 (omega (arith, enough)) in
        let (name, second) = get_elem?-some tokens 1 (omega (arith, enough)) in
        rw (parse_val, le→ltb (length (split_whitespace rest)) 3 enough)
          (>>=-Gives _ _ (or_panic-Gives (get_elem? tokens 0) id_s first) (λ id_s a.
            >>=-Gives _ _ (or_err-Gives (parse_unsigned (2 ^ 32) id_s) _) (λ id b.
              >>=-Gives _ _ (or_panic-Gives (get_elem? tokens 1) name second) (λ name c.
                elim (Option-cases (get n.messages id)) [
                  | inl missing ↦ rw missing (gives sound)
                  | inr (m, there) ↦
                      rw there (elim (Option-cases (named float parse_f64 name m.signals)) [
                        | inl unknown ↦ rw unknown (gives sound)
                        | inr (s, found) ↦ rw found (
                            >>=-Gives _ _
                              (pairs_of-Gives line (drop_two float parse_f64 tokens) s.value_table)
                              (λ table d. gives (
                                with_message-Sound current n id _
                                  (λ other h. inr (sound.is_open other h)) sound.keyed
                                  (sound.keyed id m there))))
                      ])
                ]))))
  ]

  other_line-Gives :
      (line : String) (line_no : ℕ) (state : Option ℕ × Network float)
      → Sound state
      → Gives Sound (other_line float parse_f64 line line_no state)
  other_line-Gives line line_no state sound = elim (Bool-cases (is_skipped float parse_f64 line)) [
    | inl skip ↦ rw (other_line, skip) (gives sound)
    | inr other ↦ rw (other_line, other) fails
  ]

  on_val-Gives :
      (line : String) (line_no : ℕ) (current : Option ℕ) (n : Network float)
      → Sound (current, n)
      → Gives Sound (on_val float parse_f64 line line_no (current, n))
  on_val-Gives line line_no current n sound = elim (Option-cases (strip_prefix "VAL_ " line)) [
    | inl none_of ↦ rw (on_val, none_of) (other_line-Gives line line_no (current, n) sound)
    | inr (rest, starts) ↦
        rw (on_val, starts)
          (>>=-Gives _ _ (parse_val-Gives rest line_no current n sound) (λ n' h. gives h))
  ]

  on_sg-Gives :
      (line : String) (line_no : ℕ) (current : Option ℕ) (n : Network float)
      → Sound (current, n)
      → Gives Sound (on_sg float parse_f64 line line_no (current, n))
  on_sg-Gives line line_no current n sound = elim (Option-cases (strip_prefix "SG_ " line)) [
    | inl none_of ↦ rw (on_sg, none_of) (on_val-Gives line line_no current n sound)
    | inr (rest, starts) ↦
        rw (on_sg, starts)
          (>>=-Gives _ _ (or_err-Gives current _) (λ id is_current.
            >>=-Gives _ _ (parse_sg-Gives float parse_f64 rest line_no) (λ s a.
              >>=-Gives _ _ (push_signal-Gives n id s (subst (λ c. Sound (c, n)) is_current sound))
                (λ n' h. gives (subst (λ c. Sound (c, n')) (sym is_current) h)))))
  ]

  parse_line-Gives :
      (line : String) (line_no : ℕ) (current : Option ℕ) (n : Network float)
      → Sound (current, n)
      → Gives Sound (parse_line float parse_f64 line line_no (current, n))
  unfolding parse_line
  parse_line-Gives line line_no current n sound =
      elim (Bool-cases (is_ignored float parse_f64 line)) [
        | inl ignored ↦ rw (parse_line, ignored) (gives sound)
        | inr given ↦ elim (Option-cases (strip_prefix "BO_ " line)) [
          | inl none_of ↦ rw (parse_line, given, none_of) (on_sg-Gives line line_no current n sound)
          | inr (rest, starts) ↦
              rw (parse_line, given, starts)
                (>>=-Gives _ _ (parse_bo-Gives rest line_no n sound.keyed) (λ (id, n') h. gives h))
        ]
      ]

  parse_lines-Gives :
      (rest : List String) (line_no : ℕ) (current : Option ℕ) (n : Network float)
      → Sound (current, n)
      → Gives Sound (parse_lines float parse_f64 rest line_no (current, n))
  unfolding parse_lines
  parse_lines-Gives [] line_no current n sound = gives sound
  parse_lines-Gives (raw_line ∷ rest) line_no current n sound =
      >>=-Gives _ _ (parse_line-Gives (trim raw_line) line_no current n sound)
        (λ (current', n') h. parse_lines-Gives rest (line_no + 1) current' n' h)

  -- The parser never panics, on any text: it returns an error, or a network in which every message stands
  -- under its own identifier.
  pub parse-Gives : (input : String) → Gives Keyed (parse float parse_f64 input)
  unfolding parse new
  parse-Gives input =
      >>=-Gives _ _
        (parse_lines-Gives (lines input) 1 none (new float)
          (record { is_open = λ id h. absurd (cc); keyed = λ id m h. absurd (cc) }))
        (λ (current, n) h. gives h.keyed)
