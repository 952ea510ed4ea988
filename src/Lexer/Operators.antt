-- ===== src/Lexer/Operators.antt =====
-- The lexer reads each operator up to a space or the end of the source.
use wrenegade.Base.{
  ℕ, ◌<◌, ◌≡◌, refl, arith, Bool, true, false, none, some, List, [], ◌∷◌, ◌++◌, length,
}
use wrenegade.Lexer.{
  TokenType, token_left_paren, token_right_paren, token_left_bracket, token_right_bracket,
  token_left_brace, token_right_brace, token_colon, token_dot, token_dotdot, token_dotdotdot,
  token_comma, token_star, token_slash, token_percent, token_plus, token_minus, token_ltlt,
  token_gtgt, token_pipe, token_pipepipe, token_caret, token_amp, token_ampamp, token_bang,
  token_tilde, token_question, token_eq, token_lt, token_gt, token_lteq, token_gteq, token_eqeq,
  token_bangeq, token_line, LexError, Token, make_token, two_char_token,
}
use wrenegade.Lexer.Scan.{
  Libc, made, case_of, open_paren, close_paren, dot_token, slash, shift_token, lex_other, lex_char,
}
use wrenegade.Lexer.Spelling.{operator_text, reading, break_char, make_token-Made, Lexes, Starts}

module _ (libc : Libc) where
  -- The switch passes the rest of the text, and the characters read are `over`.
  made_of :
      (c : ℕ) (cs over : List ℕ) (t : TokenType) (rest : List ℕ)
      → ((before : List ℕ) (line : ℕ) (current previous : Token) (errors : List LexError)
          → lex_char libc c
              (reading before (c ∷ cs ++ rest) (cs ++ rest) line current previous errors)
            ≡ some (
                made (
                  make_token
                    (reading (over ++ before) (c ∷ cs ++ rest) rest line current previous errors)
                    t)))
      → Lexes libc (c ∷ cs) rest t none
  made_of c cs over t rest e = λ before line current previous errors. (
    _,
    e before line current previous errors,
    make_token-Made (over ++ before) line current previous errors (c ∷ cs) rest t,
  )

  pub operator-Lexes :
      (t : TokenType) (b : Bool) (r : List ℕ)
      → 0 < length (operator_text t)
      → Lexes libc (operator_text t) (break_char b ∷ r) t none
  unfolding lex_char lex_other case_of make_token two_char_token open_paren close_paren dot_token
      slash shift_token
  operator-Lexes token_left_paren b r h =
      made_of b'(' [] [] token_left_paren (break_char b ∷ r)
        (λ before line current previous errors. refl)
  operator-Lexes token_right_paren b r h =
      made_of b')' [] [] token_right_paren (break_char b ∷ r)
        (λ before line current previous errors. refl)
  operator-Lexes token_left_bracket b r h =
      made_of b'[' [] [] token_left_bracket (break_char b ∷ r)
        (λ before line current previous errors. refl)
  operator-Lexes token_right_bracket b r h =
      made_of b']' [] [] token_right_bracket (break_char b ∷ r)
        (λ before line current previous errors. refl)
  operator-Lexes token_left_brace b r h =
      made_of b'{' [] [] token_left_brace (break_char b ∷ r)
        (λ before line current previous errors. refl)
  operator-Lexes token_right_brace b r h =
      made_of b'}' [] [] token_right_brace (break_char b ∷ r)
        (λ before line current previous errors. refl)
  operator-Lexes token_colon b r h =
      made_of b':' [] [] token_colon (break_char b ∷ r)
        (λ before line current previous errors. refl)
  operator-Lexes token_dot true r h =
      made_of b'.' [] [] token_dot (break_char true ∷ r)
        (λ before line current previous errors. refl)
  operator-Lexes token_dot false r h =
      made_of b'.' [] [] token_dot (break_char false ∷ r)
        (λ before line current previous errors. refl)
  operator-Lexes token_dotdot true r h =
      made_of b'.' (b'.' ∷ []) (b'.' ∷ []) token_dotdot (break_char true ∷ r)
        (λ before line current previous errors. refl)
  operator-Lexes token_dotdot false r h =
      made_of b'.' (b'.' ∷ []) (b'.' ∷ []) token_dotdot (break_char false ∷ r)
        (λ before line current previous errors. refl)
  operator-Lexes token_dotdotdot b r h =
      made_of b'.' (b'.' ∷ b'.' ∷ []) (b'.' ∷ b'.' ∷ []) token_dotdotdot (break_char b ∷ r)
        (λ before line current previous errors. refl)
  operator-Lexes token_comma b r h =
      made_of b',' [] [] token_comma (break_char b ∷ r)
        (λ before line current previous errors. refl)
  operator-Lexes token_star b r h =
      made_of b'*' [] [] token_star (break_char b ∷ r) (λ before line current previous errors. refl)
  operator-Lexes token_slash true r h =
      made_of b'/' [] [] token_slash (break_char true ∷ r)
        (λ before line current previous errors. refl)
  operator-Lexes token_slash false r h =
      made_of b'/' [] [] token_slash (break_char false ∷ r)
        (λ before line current previous errors. refl)
  operator-Lexes token_percent b r h =
      made_of b'%' [] [] token_percent (break_char b ∷ r)
        (λ before line current previous errors. refl)
  operator-Lexes token_plus b r h =
      made_of b'+' [] [] token_plus (break_char b ∷ r) (λ before line current previous errors. refl)
  operator-Lexes token_minus b r h =
      made_of b'-' [] [] token_minus (break_char b ∷ r)
        (λ before line current previous errors. refl)
  operator-Lexes token_ltlt b r h =
      made_of b'<' (b'<' ∷ []) (b'<' ∷ []) token_ltlt (break_char b ∷ r)
        (λ before line current previous errors. refl)
  operator-Lexes token_gtgt b r h =
      made_of b'>' (b'>' ∷ []) (b'>' ∷ []) token_gtgt (break_char b ∷ r)
        (λ before line current previous errors. refl)
  operator-Lexes token_pipe true r h =
      made_of b'|' [] [] token_pipe (break_char true ∷ r)
        (λ before line current previous errors. refl)
  operator-Lexes token_pipe false r h =
      made_of b'|' [] [] token_pipe (break_char false ∷ r)
        (λ before line current previous errors. refl)
  operator-Lexes token_pipepipe b r h =
      made_of b'|' (b'|' ∷ []) (b'|' ∷ []) token_pipepipe (break_char b ∷ r)
        (λ before line current previous errors. refl)
  operator-Lexes token_caret b r h =
      made_of b'^' [] [] token_caret (break_char b ∷ r)
        (λ before line current previous errors. refl)
  operator-Lexes token_amp true r h =
      made_of b'&' [] [] token_amp (break_char true ∷ r)
        (λ before line current previous errors. refl)
  operator-Lexes token_amp false r h =
      made_of b'&' [] [] token_amp (break_char false ∷ r)
        (λ before line current previous errors. refl)
  operator-Lexes token_ampamp b r h =
      made_of b'&' (b'&' ∷ []) (b'&' ∷ []) token_ampamp (break_char b ∷ r)
        (λ before line current previous errors. refl)
  operator-Lexes token_bang true r h =
      made_of b'!' [] [] token_bang (break_char true ∷ r)
        (λ before line current previous errors. refl)
  operator-Lexes token_bang false r h =
      made_of b'!' [] [] token_bang (break_char false ∷ r)
        (λ before line current previous errors. refl)
  operator-Lexes token_tilde b r h =
      made_of b'~' [] [] token_tilde (break_char b ∷ r)
        (λ before line current previous errors. refl)
  operator-Lexes token_question b r h =
      made_of b'?' [] [] token_question (break_char b ∷ r)
        (λ before line current previous errors. refl)
  operator-Lexes token_eq true r h =
      made_of b'=' [] [] token_eq (break_char true ∷ r)
        (λ before line current previous errors. refl)
  operator-Lexes token_eq false r h =
      made_of b'=' [] [] token_eq (break_char false ∷ r)
        (λ before line current previous errors. refl)
  operator-Lexes token_lt true r h =
      made_of b'<' [] [] token_lt (break_char true ∷ r)
        (λ before line current previous errors. refl)
  operator-Lexes token_lt false r h =
      made_of b'<' [] [] token_lt (break_char false ∷ r)
        (λ before line current previous errors. refl)
  operator-Lexes token_gt true r h =
      made_of b'>' [] [] token_gt (break_char true ∷ r)
        (λ before line current previous errors. refl)
  operator-Lexes token_gt false r h =
      made_of b'>' [] [] token_gt (break_char false ∷ r)
        (λ before line current previous errors. refl)
  operator-Lexes token_lteq b r h =
      made_of b'<' (b'=' ∷ []) (b'=' ∷ []) token_lteq (break_char b ∷ r)
        (λ before line current previous errors. refl)
  operator-Lexes token_gteq b r h =
      made_of b'>' (b'=' ∷ []) (b'=' ∷ []) token_gteq (break_char b ∷ r)
        (λ before line current previous errors. refl)
  operator-Lexes token_eqeq b r h =
      made_of b'=' (b'=' ∷ []) (b'=' ∷ []) token_eqeq (break_char b ∷ r)
        (λ before line current previous errors. refl)
  operator-Lexes token_bangeq b r h =
      made_of b'!' (b'=' ∷ []) (b'=' ∷ []) token_bangeq (break_char b ∷ r)
        (λ before line current previous errors. refl)
  operator-Lexes token_line b r h =
      made_of b'\n' [] [] token_line (break_char b ∷ r)
        (λ before line current previous errors. refl)
  operator-Lexes t b r h = absurd (omega (arith, h))

pub operator_start : (t : TokenType) → 0 < length (operator_text t) → Starts (operator_text t)
operator_start token_left_paren h = record { character = refl; visible = refl; present = h }
operator_start token_right_paren h = record { character = refl; visible = refl; present = h }
operator_start token_left_bracket h = record { character = refl; visible = refl; present = h }
operator_start token_right_bracket h = record { character = refl; visible = refl; present = h }
operator_start token_left_brace h = record { character = refl; visible = refl; present = h }
operator_start token_right_brace h = record { character = refl; visible = refl; present = h }
operator_start token_colon h = record { character = refl; visible = refl; present = h }
operator_start token_dot h = record { character = refl; visible = refl; present = h }
operator_start token_dotdot h = record { character = refl; visible = refl; present = h }
operator_start token_dotdotdot h = record { character = refl; visible = refl; present = h }
operator_start token_comma h = record { character = refl; visible = refl; present = h }
operator_start token_star h = record { character = refl; visible = refl; present = h }
operator_start token_slash h = record { character = refl; visible = refl; present = h }
operator_start token_percent h = record { character = refl; visible = refl; present = h }
operator_start token_plus h = record { character = refl; visible = refl; present = h }
operator_start token_minus h = record { character = refl; visible = refl; present = h }
operator_start token_ltlt h = record { character = refl; visible = refl; present = h }
operator_start token_gtgt h = record { character = refl; visible = refl; present = h }
operator_start token_pipe h = record { character = refl; visible = refl; present = h }
operator_start token_pipepipe h = record { character = refl; visible = refl; present = h }
operator_start token_caret h = record { character = refl; visible = refl; present = h }
operator_start token_amp h = record { character = refl; visible = refl; present = h }
operator_start token_ampamp h = record { character = refl; visible = refl; present = h }
operator_start token_bang h = record { character = refl; visible = refl; present = h }
operator_start token_tilde h = record { character = refl; visible = refl; present = h }
operator_start token_question h = record { character = refl; visible = refl; present = h }
operator_start token_eq h = record { character = refl; visible = refl; present = h }
operator_start token_lt h = record { character = refl; visible = refl; present = h }
operator_start token_gt h = record { character = refl; visible = refl; present = h }
operator_start token_lteq h = record { character = refl; visible = refl; present = h }
operator_start token_gteq h = record { character = refl; visible = refl; present = h }
operator_start token_eqeq h = record { character = refl; visible = refl; present = h }
operator_start token_bangeq h = record { character = refl; visible = refl; present = h }
operator_start token_line h = record { character = refl; visible = refl; present = h }
operator_start t h = absurd (omega (arith, h))
