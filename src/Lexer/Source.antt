-- ===== src/Lexer/Source.antt =====
-- A source that is written from tokens, and how `nextToken` passes the space before one.
use wrenegade.Base.{
  ℕ, suc, ◌+◌, ◌≡◌, refl, ap, ◌∙◌, arith, false, Option, some, List, [], ◌∷◌, ◌++◌, length, ◌==◌,
  if◌then◌else◌,
}
use wrenegade.Lexer.{
  TokenType, token_eof, Literal, LexError, Token, Parser, is_eof, make_token, skip_while,
}
use wrenegade.Lexer.Scan.{
  Libc, case_of, made, skipped, is_space, lex_other, lex_char, lex_rounds, next_token,
}
use wrenegade.Lexer.Spelling.{reading, Made, Lexes, Starts}

skip_round :
    (libc : Libc) (c : ℕ) (cs : List ℕ)
    → is_space c ≡ false
    → (before start : List ℕ) (line : ℕ) (current previous : Token) (errors : List LexError)
    → lex_char libc b' ' (reading before start (c ∷ cs) line current previous errors)
      ≡ some (skipped (reading before start (c ∷ cs) line current previous errors))
unfolding lex_char case_of lex_other skip_while
skip_round libc c cs s before start line current previous errors = rw s refl

space_round :
    (libc : Libc) (fuel c : ℕ) (cs : List ℕ)
    → is_space c ≡ false
    → (before start : List ℕ) (line : ℕ) (current previous : Token) (errors : List LexError)
    → lex_rounds libc (suc fuel) (reading before start (b' ' ∷ c ∷ cs) line current previous errors)
      ≡ lex_rounds libc fuel
          (reading (b' ' ∷ before) (b' ' ∷ c ∷ cs) (c ∷ cs) line current previous errors)
unfolding lex_rounds
space_round libc fuel c cs s before start line current previous errors =
    rw
      (
        lex_rounds,
        skip_round libc c cs s (b' ' ∷ before) (b' ' ∷ c ∷ cs) line current previous errors,
      )
      refl

-- The line count in a token.
abbrev pub line_after : ℕ → ℕ → ℕ
line_after line c = if c == b'\n' then line + 1 else line

token_round :
    (libc : Libc) (fuel c : ℕ) (cs : List ℕ)
    → (c == 0) ≡ false
    → (before start : List ℕ) (line : ℕ) (current previous : Token) (errors : List LexError)
      (m : Parser)
    → lex_char libc c (reading (c ∷ before) (c ∷ cs) cs (line_after line c) current previous errors)
      ≡ some (made m)
    → lex_rounds libc (suc fuel) (reading before start (c ∷ cs) line current previous errors)
      ≡ some m
unfolding lex_rounds
token_round libc fuel c cs z before start line current previous errors m e =
    rw (lex_rounds, z, e) refl

next_token-rounds :
    (libc : Libc) (p : Parser)
    → is_eof p.current.type ≡ false
    → next_token libc p
      ≡ lex_rounds libc (length p.current_char + 1) (record p { previous = p.current })
unfolding next_token
next_token-rounds libc p e = rw (next_token, e) refl

-- `nextToken` before a space and a token.
next_token-token :
    (libc : Libc) (c : ℕ) (cs : List ℕ)
    → (c == 0) ≡ false
    → is_space c ≡ false
    → (before start : List ℕ) (line : ℕ) (current previous : Token) (errors : List LexError)
      (m : Parser)
    → is_eof current.type ≡ false
    → lex_char libc c
        (reading (c ∷ b' ' ∷ before) (c ∷ cs) cs (line_after line c) current current errors)
      ≡ some (made m)
    → next_token libc (reading before start (b' ' ∷ c ∷ cs) line current previous errors) ≡ some m
next_token-token libc c cs z s before start line current previous errors m f e =
    let fuel : length (b' ' ∷ c ∷ cs) + 1 ≡ suc (suc (length cs + 1)) = omega arith in
    next_token-rounds libc (reading before start (b' ' ∷ c ∷ cs) line current previous errors) f
    ∙ ap (λ n. lex_rounds libc n (reading before start (b' ' ∷ c ∷ cs) line current current errors))
        fuel
    ∙ space_round libc (suc (length cs + 1)) c cs s before start line current current errors
    ∙ token_round libc (length cs + 1) c cs z (b' ' ∷ before) (b' ' ∷ c ∷ cs) line current current
        errors m e

-- A text that the switch makes a token of is read behind a space.
pub next_token-Lexes :
    (libc : Libc) (text rest : List ℕ) (t : TokenType) (v : Option Literal)
    → Starts text
    → Lexes libc text rest t v
    → (before start : List ℕ) (line : ℕ) (current previous : Token) (errors : List LexError)
    → is_eof current.type ≡ false
    → (q : Parser) × (next_token libc
          (reading before start (b' ' ∷ (text ++ rest)) line current previous errors)
        ≡ some q)
      × Made errors text rest t v q
next_token-Lexes libc [] rest t v s l before start line current previous errors f =
    absurd (omega (arith, s.present))
next_token-Lexes libc (c ∷ cs) rest t v s l before start line current previous errors f =
    let (m, e, k) = l (c ∷ b' ' ∷ before) (line_after line c) current current errors in
    (
      m,
      next_token-token libc c (cs ++ rest) s.character s.visible before start line current previous
          errors m f e,
      k,
    )

pub next_token-eof :
    (libc : Libc) (before start : List ℕ) (line : ℕ) (current previous : Token)
    (errors : List LexError)
    → is_eof current.type ≡ false
    → (q : Parser) × (next_token libc (reading before start (0 ∷ []) line current previous errors)
        ≡ some q)
      × (q.current.type ≡ token_eof)
unfolding next_token lex_rounds make_token
next_token-eof libc before start line current previous errors f = (
  make_token (reading before (0 ∷ []) (0 ∷ []) line current current errors) token_eof,
  rw f refl,
  refl,
)
