-- ===== src/Lexer/Safety/Strings.antt =====
-- How the readers of string literals stay inside the source.
use wrenegade.Base.{
  ℕ, zero, suc, ◌+◌, ◌≤◌, ◌<◌, ◌≡◌, refl, ap, ◌∙◌, ◌⊎◌, inl, inr, arith, true, false, ◌||◌,
  Bool-cases, some, List, List-cases, [], ◌∷◌, length, ◌==◌, ltb,
}
use mathlib.Core.Path.{subst}
use wrenegade.Lexer.{
  TokenType, string, unterminated_string, expect_paren, too_nested, Parser,
  max_interpolation_nesting, peek_char, next_char, previous_char, lex_error,
}
use wrenegade.Lexer.Strings.{
  StringRound, ended, more, match_paren, string_round, string_token, read_rounds, read_string,
}
use wrenegade.Lexer.Within.{
  IsText, Within, IsText-tail, advanced, advanced_before, retreated, within, lex_error-Within,
  make_token-Within,
}
use wrenegade.Lexer.Safety.Escapes.{if-of, Within-weaken, step-Inside, Stays, read_escape-Stays}

-- Behind a backslash or a percent sign stands a character.
special :
    (c : ℕ) (cs : List ℕ)
    → (c == b'\\' || c == b'%') ≡ true
    → IsText (c ∷ cs)
    → (d : ℕ) × (ds : List ℕ) × (cs ≡ d ∷ ds) × ((d == 0) ≡ false)
special c [] e t = absurd (ground (arith, e, t))
special c (d ∷ ds) e (z, n, t) = (
  d,
  ds,
  refl,
  elim (Bool-cases (d == 0)) [
    | inl y ↦
        let (backslash, percent) = n (ground (arith, y)) in
        elim (Bool-cases (c == b'%')) [
          | inl k ↦ absurd (percent (ground (arith, k)))
          | inr k ↦ absurd (backslash (ground (arith, e, k)))
        ]
    | inr y ↦ y
  ],
)

match_paren-Within : (n : ℕ) (p : Parser) → Within n (next_char p) → Within n (match_paren p)
unfolding match_paren
match_paren-Within n p w =
    if-of (Within n) (peek_char p == b'(') _ _ (λ e. w)
      (λ e. lex_error-Within n (next_char p) expect_paren w)

-- After the character was read.
string_round-Stays :
    (n c : ℕ) (cs : List ℕ) (p : Parser) (before s : List ℕ)
    → p.current_char ≡ cs
    → p.before ≡ c ∷ before
    → IsText (c ∷ cs)
    → length cs ≤ n
    → Stays n (string_round c p s)
unfolding string_round
string_round-Stays n c cs p before s e b t l =
    if-of (Stays n) (c == b'"') _ _
      (λ q. within (suc n) p cs e (IsText-tail c cs (ground (arith, q)) t) (omega (arith, l)))
      (λ q.
        if-of (Stays n) (c == 0) _ _
          (λ z.
            within (suc n) (previous_char (lex_error p unterminated_string)) (c ∷ cs)
              (retreated (lex_error p unterminated_string) c before b ∙ ap (λ k. c ∷ k) e) t
              (omega (arith, l)))
          (λ z.
            if-of (Stays n) (c == b'%') _ _
              (λ k.
                let (d, ds, i, y) = special c cs (ground (arith, k)) t in
                let u = IsText-tail c cs z t in
                let here = e ∙ i in
                if-of (Stays n) (ltb (length p.parens) max_interpolation_nesting) _ _
                  (λ _.
                    let w = match_paren-Within (suc n) p (
                      within (suc n) (next_char p) ds (advanced p d ds here)
                        (IsText-tail d ds y (subst IsText i u)) (omega (arith, l, ap length i))) in
                    record { text = w.text; short = w.short })
                  (λ _. lex_error-Within n p too_nested (within n p cs e u l)))
              (λ k.
                if-of (Stays n) (c == b'\\') _ _
                  (λ j.
                    let (d, ds, i, y) = special c cs (ground (arith, j)) t in
                    read_escape-Stays n (peek_char p) (next_char p) s (
                      step-Inside n p d ds (e ∙ i) y (subst IsText i (IsText-tail c cs z t))
                        (omega (arith, l, ap length i))))
                  (λ j. within n p cs e (IsText-tail c cs z t) l))))

-- The outcomes of a round.
StringRound-cases :
    (r : StringRound)
    → ((q : Parser) × (t : TokenType) × (s : List ℕ) × (r ≡ ended q t s))
      ⊎ ((q : Parser) × (s : List ℕ) × (r ≡ more q s))
StringRound-cases (ended q t s) = inl (q, t, s, refl)
StringRound-cases (more q s) = inr (q, s, refl)

rounds-ended :
    (fuel c : ℕ) (cs s t : List ℕ) (p q : Parser) (type : TokenType)
    → p.current_char ≡ c ∷ cs
    → string_round c (next_char p) s ≡ ended q type t
    → read_rounds (suc fuel) p s ≡ some (string_token q type t)
unfolding read_rounds
rounds-ended fuel c cs s t p q type e r = rw (read_rounds, e, r) refl

rounds-more :
    (fuel c : ℕ) (cs s t : List ℕ) (p q : Parser)
    → p.current_char ≡ c ∷ cs
    → string_round c (next_char p) s ≡ more q t
    → read_rounds (suc fuel) p s ≡ read_rounds fuel q t
unfolding read_rounds
rounds-more fuel c cs s t p q e r = rw (read_rounds, e, r) refl

string_token-Within :
    (n : ℕ) (p : Parser) (t : TokenType) (s : List ℕ) → Within n p → Within n (string_token p t s)
unfolding string_token
string_token-Within n p t s w =
    make_token-Within n (record p { current = record p.current { value = string s } }) t
      (record { text = w.text; short = w.short })

read_rounds-Within :
    (fuel n : ℕ) (p : Parser) (s : List ℕ)
    → Within n p
    → n < fuel
    → (q : Parser) × (read_rounds fuel p s ≡ some q) × Within n q
read_rounds-Within zero n p s w l = absurd (omega (arith, l))
read_rounds-Within (suc fuel) n p s w l = elim (List-cases p.current_char) [
  | inl e ↦ absurd (subst IsText e w.text)
  | inr (c, cs, e) ↦
      let stays : Stays (length cs) (string_round c (next_char p) s) =
        string_round-Stays (length cs) c cs (next_char p) p.before s (advanced p c cs e)
          (advanced_before p c cs e) (subst IsText e w.text) (omega arith) in
      let shorter : suc (length cs) ≤ n = omega (arith, w.short, ap length e) in
      elim (StringRound-cases (string_round c (next_char p) s)) [
        | inl (q, t, u, r) ↦ (
          string_token q t u,
          rounds-ended fuel c cs s u p q t e r,
          string_token-Within n q t u
              (Within-weaken (suc (length cs)) n q shorter (subst (Stays (length cs)) r stays)),
        )
        | inr (q, u, r) ↦
            let (o, run, v) =
              read_rounds-Within fuel (length cs) q u (subst (Stays (length cs)) r stays)
                (omega (arith, l, shorter)) in
            (
              o,
              rounds-more fuel c cs s u p q e r ∙ run,
              Within-weaken (length cs) n o (omega (arith, shorter)) v,
            )
      ]
]

pub read_string-Within :
    (n : ℕ) (p : Parser) → Within n p → (q : Parser) × (read_string p ≡ some q) × Within n q
unfolding read_string
read_string-Within n p w =
    let (q, run, v) =
      read_rounds-Within (length p.current_char + 1) (length p.current_char) p []
        (record { text = w.text; short = omega arith }) (omega arith) in
    (q, run, Within-weaken (length p.current_char) n q w.short v)
