-- ===== src/Lexer/RoundTrip.antt =====
-- A source that is written from tokens is read as these tokens.
use wrenegade.Base.{
  ℕ, ◌<◌, ◌≡◌, refl, sym, ap, ◌∙◌, inl, inr, arith, Bool, true, false, ◌||◌, Bool-cases, Option,
  none, some, List, [], ◌∷◌, ◌++◌, length, All, ◌==◌,
}
use mathlib.Core.Path.{subst}
use wrenegade.Symbols.{string_equals}
use wrenegade.Symbols.Ensure.{string_equals-same}
use wrenegade.Lexer.{
  TokenType, token_break, token_class, token_construct, token_else, token_false, token_for,
  token_foreign, token_if, token_import, token_in, token_is, token_null, token_return, token_static,
  token_super, token_this, token_true, token_var, token_while, token_name, token_field,
  token_static_field, token_number, token_string, token_eof, Literal, number, string, LexError,
  Parser, is_name, is_digit, first_char, is_eof,
}
use wrenegade.Lexer.Scan.{Libc, is_name_part, keywords, keyword_type, next_token}
use wrenegade.Lexer.Spelling.{operator_text, keyword_text, reading, break_char, Made, Lexes, Starts}
use wrenegade.Lexer.Operators.{operator-Lexes, operator_start}
use wrenegade.Lexer.Names.{AllPass, name-Lexes, field-Lexes, static_field-Lexes}
use wrenegade.Lexer.Numerals.{number-Lexes}
use wrenegade.Lexer.Literals.{escape, string-Lexes}
use wrenegade.Lexer.Keywords.{keyword-Lexes, keyword_start}
use wrenegade.Lexer.Source.{next_token-Lexes, next_token-eof}

-- Tokens to write. A name is not a reserved word; the digits of a number are such that the C library
-- reads them as a number, up to a character that is no digit.
pub data Lexeme (libc : Libc) : Type 0 where
  operator : (t : TokenType) → 0 < length (operator_text t) → Lexeme libc
  keyword : (t : TokenType) → 0 < length (keyword_text t) → Lexeme libc
  name :
      (c : ℕ) (cs : List ℕ)
      → is_name c ≡ true
      → (c == b'_') ≡ false
      → AllPass is_name_part cs
      → ((t : TokenType) → keyword_text t ≡ c ∷ cs → ⊥)
      → Lexeme libc
  field : (cs : List ℕ) → (first_char cs == b'_') ≡ false → AllPass is_name_part cs → Lexeme libc
  static_field : (cs : List ℕ) → AllPass is_name_part cs → Lexeme libc
  digits :
      (c : ℕ) (cs : List ℕ) (bits : ℕ)
      → is_digit c ≡ true
      → AllPass is_digit cs
      → ((b : Bool) (r : List ℕ) → libc.strtod (c ∷ cs ++ break_char b ∷ r) ≡ (bits, false))
      → Lexeme libc
  literal : List ℕ → Lexeme libc

module _ {libc : Libc} where
  abbrev pub lexeme_text : Lexeme libc → List ℕ
  lexeme_text (operator t h) = operator_text t
  lexeme_text (keyword t h) = keyword_text t
  lexeme_text (name c cs n u a k) = c ∷ cs
  lexeme_text (field cs n a) = b'_' ∷ cs
  lexeme_text (static_field cs a) = b'_' ∷ b'_' ∷ cs
  lexeme_text (digits c cs bits d a e) = c ∷ cs
  lexeme_text (literal bytes) = b'"' ∷ escape bytes ++ b'"' ∷ []

  abbrev pub lexeme_type : Lexeme libc → TokenType
  lexeme_type (operator t h) = t
  lexeme_type (keyword t h) = t
  lexeme_type (name c cs n u a k) = token_name
  lexeme_type (field cs n a) = token_field
  lexeme_type (static_field cs a) = token_static_field
  lexeme_type (digits c cs bits d a e) = token_number
  lexeme_type (literal bytes) = token_string

  abbrev pub lexeme_value : Lexeme libc → Option Literal
  lexeme_value (digits c cs bits d a e) = some (number bits)
  lexeme_value (literal bytes) = some (string bytes)
  lexeme_value x = none

  -- Each token behind a space, up to the NUL.
  abbrev pub source : List (Lexeme libc) → List ℕ
  source [] = 0 ∷ []
  source (x ∷ xs) = b' ' ∷ (lexeme_text x ++ source xs)

keyword_type-none :
    (table : List (List ℕ × TokenType)) (text : List ℕ) (t : TokenType)
    → All (λ k. k.0 ≡ text → ⊥) table
    → keyword_type table text t ≡ t
unfolding keyword_type
keyword_type-none [] text t a = refl
keyword_type-none ((identifier, type) ∷ table) text t (n, a) =
    elim (Bool-cases (string_equals text identifier)) [
      | inl e ↦ absurd (n (sym (string_equals-same text identifier e)))
      | inr e ↦ rw e (keyword_type-none table text t a)
    ]

not_reserved :
    (text : List ℕ) (type : TokenType)
    → ((t : TokenType) → keyword_text t ≡ text → ⊥)
    → keyword_type keywords text type ≡ type
not_reserved text type k = keyword_type-none keywords text type (
  k token_break,
  (
    k token_class,
    (
      k token_construct,
      (
        k token_else,
        (
          k token_false,
          (
            k token_for,
            (
              k token_foreign,
              (
                k token_if,
                (
                  k token_import,
                  (
                    k token_in,
                    (
                      k token_is,
                      (
                        k token_null,
                        (
                          k token_return,
                          (
                            k token_static,
                            (
                              k token_super,
                              (k token_this, (k token_true, (k token_var, (k token_while, tt)))),
                            ),
                          ),
                        ),
                      ),
                    ),
                  ),
                ),
              ),
            ),
          ),
        ),
      ),
    ),
  ),
)

operator_not_eof : (t : TokenType) → 0 < length (operator_text t) → is_eof t ≡ false
operator_not_eof token_eof h = absurd (omega arith)
operator_not_eof t h = refl

keyword_not_eof : (t : TokenType) → 0 < length (keyword_text t) → is_eof t ≡ false
keyword_not_eof token_eof h = absurd (omega arith)
keyword_not_eof t h = refl

visible_start :
    (c : ℕ) (cs : List ℕ) → is_name c || is_digit c || c == b'"' ≡ true → Starts (c ∷ cs)
visible_start c cs n = record {
  character = ground (arith, n);
  visible = ground (arith, n);
  present = omega arith;
}

module _ {libc : Libc} where
  lexeme_start : (x : Lexeme libc) → Starts (lexeme_text x)
  lexeme_start (operator t h) = operator_start t h
  lexeme_start (keyword t h) = keyword_start t h
  lexeme_start (name c cs n u a k) = visible_start c cs (ground (arith, n))
  lexeme_start (field cs n a) = visible_start b'_' cs refl
  lexeme_start (static_field cs a) = visible_start b'_' (b'_' ∷ cs) refl
  lexeme_start (digits c cs bits d a e) = visible_start c cs (ground (arith, d))
  lexeme_start (literal bytes) = visible_start b'"' (escape bytes ++ b'"' ∷ []) refl

  lexeme-Lexes :
      (x : Lexeme libc) (b : Bool) (r : List ℕ)
      → Lexes libc (lexeme_text x) (break_char b ∷ r) (lexeme_type x) (lexeme_value x)
  lexeme-Lexes (operator t h) b r = operator-Lexes libc t b r h
  lexeme-Lexes (keyword t h) b r = keyword-Lexes libc t b r h
  lexeme-Lexes (name c cs n u a k) b r =
      subst (λ t. Lexes libc (c ∷ cs) (break_char b ∷ r) t none)
        (not_reserved (c ∷ cs) token_name k) (name-Lexes libc c cs b r n u a)
  lexeme-Lexes (field cs n a) b r = field-Lexes libc cs b r n a
  lexeme-Lexes (static_field cs a) b r = static_field-Lexes libc cs b r a
  lexeme-Lexes (digits c cs bits d a e) b r = number-Lexes libc c cs b r bits d a (e b r)
  lexeme-Lexes (literal bytes) b r = string-Lexes libc bytes b r

  source_break :
      (xs : List (Lexeme libc)) → (b : Bool) × (r : List ℕ) × (source xs ≡ break_char b ∷ r)
  source_break [] = (false, [], refl)
  source_break (x ∷ xs) = (true, lexeme_text x ++ source xs, refl)

  lexeme_type-eof : (x : Lexeme libc) → is_eof (lexeme_type x) ≡ false
  lexeme_type-eof (operator t h) = operator_not_eof t h
  lexeme_type-eof (keyword t h) = keyword_not_eof t h
  lexeme_type-eof (name c cs n u a k) = refl
  lexeme_type-eof (field cs n a) = refl
  lexeme_type-eof (static_field cs a) = refl
  lexeme_type-eof (digits c cs bits d a e) = refl
  lexeme_type-eof (literal bytes) = refl

  -- Calls of `nextToken` make the tokens one after the other, and then the end of the source.
  abbrev pub Tokenizes : List LexError → List (Lexeme libc) → Parser → Type 0
  Tokenizes errors [] p = (q : Parser) × (next_token libc p ≡ some q) × (q.current.type ≡ token_eof)
  Tokenizes errors (x ∷ xs) p =
      (q : Parser) × (next_token libc p ≡ some q)
      × Made errors (lexeme_text x) (source xs) (lexeme_type x) (lexeme_value x) q
      × Tokenizes errors xs q

  from_reading :
      (xs : List (Lexeme libc)) (p : Parser) (errors : List LexError)
      → p.current_char ≡ source xs
      → p.parens ≡ []
      → p.errors ≡ errors
      → Tokenizes errors xs
          (reading p.before p.token_start (source xs) p.current_line p.current p.previous errors)
      → Tokenizes errors xs p
  from_reading xs p errors e n r t =
      let same : reading p.before p.token_start (source xs) p.current_line p.current p.previous
            errors
          ≡ p =
        sym (λ i. record p { current_char = e i; parens = n i; errors = r i }) in
      subst (Tokenizes errors xs) same t

  tokenize :
      (xs : List (Lexeme libc)) (p : Parser) (errors : List LexError)
      → p.current_char ≡ source xs
      → p.parens ≡ []
      → p.errors ≡ errors
      → is_eof p.current.type ≡ false
      → Tokenizes errors xs p
  tokenize [] p errors e n r f =
      from_reading [] p errors e n r
        (next_token-eof libc p.before p.token_start p.current_line p.current p.previous errors f)
  tokenize (x ∷ xs) p errors e n r f =
      let (b, rest, s) = source_break xs in
      let l =
        subst (λ t. Lexes libc (lexeme_text x) t (lexeme_type x) (lexeme_value x)) (sym s)
          (lexeme-Lexes x b rest) in
      let (q, run, m) =
        next_token-Lexes libc (lexeme_text x) (source xs) (lexeme_type x) (lexeme_value x)
          (lexeme_start x) l p.before p.token_start p.current_line p.current p.previous errors f in
      from_reading (x ∷ xs) p errors e n r (
        q,
        run,
        m,
        tokenize xs q errors m.left m.no_parens m.same_errors
            (ap is_eof m.has_type ∙ lexeme_type-eof x),
      )

  -- A source is written from any list of operators, reserved words, names, fields, static
  -- fields, digit numbers and string literals of any bytes, quotes, backslashes and percent
  -- signs escaped, each behind a space: the calls of nextToken make a token for each of them,
  -- with its type, its text and its value and with no error, and then the end of the source,
  -- from any state that is not at the end and not in an interpolation
  pub next_token-source :
      (xs : List (Lexeme libc)) (p : Parser)
      → p.current_char ≡ source xs
      → p.parens ≡ []
      → is_eof p.current.type ≡ false
      → Tokenizes p.errors xs p
  next_token-source xs p e n f = tokenize xs p p.errors e n refl f
