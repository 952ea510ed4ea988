-- ===== src/Lexer/Safety/Rounds.antt =====
-- How a round of `nextToken` stays inside the source.
use wrenegade.Base.{
  ℕ, ◌≡◌, refl, sym, ap, ◌∙◌, inl, inr, true, false, ◌&&◌, Bool-cases, Option, Option-cases, none,
  some, List, [], ◌∷◌, All, ◌==◌,
}
use mathlib.Core.Path.{subst}
use wrenegade.Lexer.{
  TokenType, token_left_paren, token_right_paren, token_slash, token_ltlt, token_lteq, token_lt,
  token_gtgt, token_gteq, token_gt, Parser, is_name, is_digit, peek_char, next_char, make_token,
  two_char_token,
}
use wrenegade.Lexer.Strings.{read_string}
use wrenegade.Lexer.Scan.{
  Libc, in_comment, skip_line_comment, skip_block_comment, is_space, single_tokens, double_tokens,
  case_of, Round, made, skipped, made_string, close_paren, slash, error_token, lex_word, lex_other,
  lex_char,
}
use wrenegade.Lexer.Within.{
  Within, skip_while-Within, make_token-Within, two_char_token-Within, step-Within,
}
use wrenegade.Lexer.Skips.{skip_block-Within}
use wrenegade.Lexer.Safety.Escapes.{if-of}
use wrenegade.Lexer.Safety.Strings.{read_string-Within}
use wrenegade.Lexer.Safety.Numbers.{
  read_number-Within, read_hex_number-Within, read_name-Within, dot_token-Within,
  shift_token-Within,
}

-- What a round of `nextToken` keeps.
abbrev pub Stays : ℕ → Round → Type 0
Stays n (made p) = Within n p
Stays n (skipped p) = Within n p

line_comment-Within : (n : ℕ) (p : Parser) → Within n p → Within n (skip_line_comment p)
unfolding skip_line_comment
line_comment-Within n p w = skip_while-Within n in_comment refl p.current_char p refl w

block_comment-Within : (n : ℕ) (p : Parser) → Within n p → Within n (skip_block_comment p)
unfolding skip_block_comment
block_comment-Within n p w = skip_block-Within n 1 p.current_char p refl w

slash-Stays : (n : ℕ) (p : Parser) → Within n p → Stays n (slash p)
unfolding slash
slash-Stays n p w =
    if-of (Stays n) (peek_char p == b'/') _ _
      (λ e. line_comment-Within n (next_char p) (step-Within n b'/' p refl e w))
      (λ e.
        if-of (Stays n) (peek_char p == b'*') _ _
          (λ f. block_comment-Within n (next_char p) (step-Within n b'*' p refl f w))
          (λ f. make_token-Within n p token_slash w))

error_token-Within : (n : ℕ) (p : Parser) → Within n p → Within n (error_token p)
unfolding error_token
error_token-Within n p w = record { text = w.text; short = w.short }

lex_word-Stays :
    (n : ℕ) (libc : Libc) (c : ℕ) (p : Parser) → Within n p → Stays n (lex_word libc c p)
unfolding lex_word
lex_word-Stays n libc c p w =
    if-of (Stays n) (c == b'_') _ _ (λ e. read_name-Within n p _ w)
      (λ e.
        if-of (Stays n) (c == b'0') _ _
          (λ f.
            if-of (Within n) (peek_char p == b'x') _ _
              (λ x. read_hex_number-Within n libc p (step-Within n b'x' p refl x w))
              (λ x. read_number-Within n libc p w))
          (λ f.
            if-of (Stays n) (p.current_line == 1 && c == b'#' && peek_char p == b'!') _ _
              (λ g. line_comment-Within n p w)
              (λ g.
                if-of (Stays n) (is_name c) _ _ (λ h. read_name-Within n p _ w)
                  (λ h.
                    if-of (Stays n) (is_digit c) _ _ (λ d. read_number-Within n libc p w)
                      (λ d. error_token-Within n p w)))))

-- A round with an outcome.
abbrev pub Reads : ℕ → Option Round → Type 0
Reads n r = (o : Round) × (r ≡ some o) × Stays n o

made_string-Reads : (n : ℕ) (p : Parser) → Within n p → Reads n (made_string (read_string p))
made_string-Reads n p w = let (q, e, v) = read_string-Within n p w in (made q, ap made_string e, v)

close_paren-Reads :
    (n : ℕ) (parens : List ℕ) (p : Parser) → Within n p → Reads n (close_paren parens p)
unfolding close_paren
close_paren-Reads n [] p w = (_, refl, make_token-Within n p token_right_paren w)
close_paren-Reads n (k ∷ ks) p w =
    if-of (Reads n) (k == 1) _ _
      (λ e.
        made_string-Reads n (record p { parens = ks }) (record { text = w.text; short = w.short }))
      (λ e. (
        _,
        refl,
        make_token-Within n _ token_right_paren (record { text = w.text; short = w.short }),
      ))

lex_other-Reads :
    (n : ℕ) (libc : Libc) (c : ℕ) (p : Parser) → Within n p → Reads n (lex_other libc c p)
unfolding lex_other
lex_other-Reads n libc c p w =
    if-of (Reads n) (c == b'(') _ _
      (λ e. (
        _,
        refl,
        make_token-Within n _ token_left_paren (record { text = w.text; short = w.short }),
      ))
      (λ _.
        if-of (Reads n) (c == b')') _ _ (λ e. close_paren-Reads n p.parens p w)
          (λ _.
            if-of (Reads n) (c == b'.') _ _ (λ e. (_, refl, dot_token-Within n p w))
              (λ _.
                if-of (Reads n) (c == b'/') _ _ (λ e. (_, refl, slash-Stays n p w))
                  (λ _.
                    if-of (Reads n) (c == b'<') _ _
                      (λ e. (
                        _,
                        refl,
                        shift_token-Within n p b'<' token_ltlt token_lteq token_lt refl w,
                      ))
                      (λ _.
                        if-of (Reads n) (c == b'>') _ _
                          (λ e. (
                            _,
                            refl,
                            shift_token-Within n p b'>' token_gtgt token_gteq token_gt refl w,
                          ))
                          (λ _.
                            if-of (Reads n) (is_space c) _ _
                              (λ e. (
                                _,
                                refl,
                                skip_while-Within n is_space refl p.current_char p refl w,
                              ))
                              (λ _.
                                if-of (Reads n) (c == b'"') _ _ (λ e. made_string-Reads n p w)
                                  (λ _. (_, refl, lex_word-Stays n libc c p w)))))))))

case_of-here :
    {A : Type 0} (k : ℕ) (a : A) (table : List (ℕ × A)) (c : ℕ)
    → (c == k) ≡ true
    → case_of ((k, a) ∷ table) c ≡ some a
unfolding case_of
case_of-here k a table c e = rw e refl

case_of-there :
    {A : Type 0} (k : ℕ) (a : A) (table : List (ℕ × A)) (c : ℕ)
    → (c == k) ≡ false
    → case_of ((k, a) ∷ table) c ≡ case_of table c
unfolding case_of
case_of-there k a table c e = rw e refl

case_of-All :
    {A : Type 0} (P : A → Type 0) (table : List (ℕ × A)) (c : ℕ) (a : A)
    → All (λ k. P (k.1)) table
    → case_of table c ≡ some a
    → P a
unfolding case_of
case_of-All P [] c a h e = absurd (cc e)
case_of-All P ((k, b) ∷ table) c a (h, hs) e = elim (Bool-cases (c == k)) [
  | inl s ↦ let same : b ≡ a = cc (sym (case_of-here k b table c s) ∙ e) in subst P same h
  | inr s ↦ case_of-All P table c a hs (sym (case_of-there k b table c s) ∙ e)
]

char-single :
    (libc : Libc) (c : ℕ) (p : Parser) (t : TokenType)
    → case_of single_tokens c ≡ some t
    → lex_char libc c p ≡ some (made (make_token p t))
unfolding lex_char
char-single libc c p t e = rw (lex_char, e) refl

char-double :
    (libc : Libc) (c : ℕ) (p : Parser) (t : ℕ × TokenType × TokenType)
    → case_of single_tokens c ≡ none
    → case_of double_tokens c ≡ some t
    → lex_char libc c p ≡ some (made (two_char_token p (t.0) (t.1) (t.2)))
unfolding lex_char
char-double libc c p t e f = rw (lex_char, e, f) refl

char-other :
    (libc : Libc) (c : ℕ) (p : Parser)
    → case_of single_tokens c ≡ none
    → case_of double_tokens c ≡ none
    → lex_char libc c p ≡ lex_other libc c p
unfolding lex_char
char-other libc c p e f = rw (lex_char, e, f) refl

pub lex_char-Reads :
    (n : ℕ) (libc : Libc) (c : ℕ) (p : Parser) → Within n p → Reads n (lex_char libc c p)
lex_char-Reads n libc c p w = elim (Option-cases (case_of single_tokens c)) [
  | inr (t, e) ↦ (_, char-single libc c p t e, make_token-Within n p t w)
  | inl e ↦ elim (Option-cases (case_of double_tokens c)) [
    | inr (t, f) ↦ (
      _,
      char-double libc c p t e f,
      two_char_token-Within n p (t.0) (t.1) (t.2)
          (case_of-All (λ a. (a.0 == 0) ≡ false) double_tokens c t
            (refl, (refl, (refl, (refl, tt)))) f)
          w,
    )
    | inl f ↦ let (o, r, v) = lex_other-Reads n libc c p w in (o, char-other libc c p e f ∙ r, v)
  ]
]
