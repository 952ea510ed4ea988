-- ===== src/Lexer/Numerals.antt =====
-- The lexer reads back each number.
use wrenegade.Base.{
  ℕ, ◌≡◌, refl, ap, ◌∙◌, arith, Bool, true, false, none, some, List, [], ◌∷◌, ◌++◌, ◌==◌,
}
use wrenegade.Lexer.{
  TokenType, token_number, Literal, number, LexError, Token, Parser, is_digit, first_char,
  make_token,
}
use wrenegade.Lexer.Scan.{
  Libc, case_of, made, number_token, make_number, skip_fraction, skip_exponent, read_number,
  lex_other, lex_word, lex_char,
}
use wrenegade.Lexer.Spelling.{reading, break_char, Made, make_token-Made, Lexes}
use wrenegade.Lexer.Names.{AllPass, rev_onto, skip_while-AllPass}

pub with_value :
    {errors : List LexError} {text rest : List ℕ} {t : TokenType} (p : Parser) (v : Literal)
    → Made errors text rest t none p
    → p.current.value ≡ v
    → Made errors text rest t (some v) p
with_value p v m e = record {
  has_type = m.has_type;
  has_text = m.has_text;
  has_value = e;
  left = m.left;
  same_errors = m.same_errors;
  no_parens = m.no_parens;
}

lex_char-digit :
    (libc : Libc) (c : ℕ) (p : Parser)
    → is_digit c ≡ true
    → (first_char p.current_char == b'x') ≡ false
    → lex_char libc c p ≡ some (made (read_number libc p))
unfolding lex_char case_of lex_other lex_word
lex_char-digit libc c p n u = ground (arith, n, u)

break_digit : (b : Bool) → is_digit (break_char b) ≡ false
break_digit true = refl
break_digit false = refl

-- `readNumber` at digits that the C library reads as a number.
read_number-digits :
    (libc : Libc) (c : ℕ) (cs : List ℕ) (b : Bool) (r : List ℕ) (bits : ℕ)
    → AllPass is_digit cs
    → libc.strtod (c ∷ cs ++ break_char b ∷ r) ≡ (bits, false)
    → (before : List ℕ) (line : ℕ) (current previous : Token) (errors : List LexError)
    → read_number libc (
        reading before
          (c ∷ cs ++ break_char b ∷ r)
          (cs ++ break_char b ∷ r)
          line
          current
          previous
          errors)
      ≡ make_token
          (reading
            (rev_onto cs before)
            (c ∷ cs ++ break_char b ∷ r)
            (break_char b ∷ r)
            line
            (record current { value = number bits })
            previous
            errors)
          token_number
unfolding read_number make_number number_token skip_fraction skip_exponent
read_number-digits libc c cs true r bits a e before line current previous errors =
    rw
      (
        skip_while-AllPass is_digit cs b' ' r a refl refl before (c ∷ cs ++ b' ' ∷ r) line current
            previous errors,
        e,
      )
      refl
read_number-digits libc c cs false r bits a e before line current previous errors =
    rw
      (
        skip_while-AllPass is_digit cs 0 r a refl refl before (c ∷ cs ++ 0 ∷ r) line current
            previous errors,
        e,
      )
      refl

not_hex :
    (cs : List ℕ) (b : Bool) (r : List ℕ)
    → AllPass is_digit cs
    → (first_char (cs ++ break_char b ∷ r) == b'x') ≡ false
not_hex [] true r a = refl
not_hex [] false r a = refl
not_hex (c ∷ cs) b r (d, a) = ground (arith, d)

pub number-Lexes :
    (libc : Libc) (c : ℕ) (cs : List ℕ) (b : Bool) (r : List ℕ) (bits : ℕ)
    → is_digit c ≡ true
    → AllPass is_digit cs
    → libc.strtod (c ∷ cs ++ break_char b ∷ r) ≡ (bits, false)
    → Lexes libc (c ∷ cs) (break_char b ∷ r) token_number (some (number bits))
unfolding make_token
number-Lexes libc c cs b r bits d a e before line current previous errors = (
  _,
  lex_char-digit libc c _ d (not_hex cs b r a)
      ∙ ap (λ m. some (made m))
          (read_number-digits libc c cs b r bits a e before line current previous errors),
  with_value _ (number bits)
      (make_token-Made (rev_onto cs before) line (record current { value = number bits }) previous
        errors (c ∷ cs) (break_char b ∷ r) token_number)
      refl,
)
