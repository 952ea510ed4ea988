-- ===== src/Lexer/Tests.antt =====
-- Short sources.
use wrenegade.Base.{
  ℕ, zero, suc, ◌≡◌, refl, ap, arith, Bool, true, false, not, ◌&&◌, ◌||◌, ◌==◌, Option, none, some,
  List, [], ◌∷◌,
}
use mathlib.Core.Option
use wrenegade.Symbols.{string_equals}
use wrenegade.Strings.{same_bytes}
use wrenegade.Utf8.{encode}
use wrenegade.Lexer.{
  TokenType, token_var, token_name, token_eq, token_number, token_line, token_string,
  token_interpolation, token_eof, no_literal, Token, Parser, first_char, make_token, two_char_token,
  skip_while,
}
use wrenegade.Lexer.Strings.{
  read_hex_digit, read_hex_escape, encoded_int, read_unicode_escape, read_escape, match_paren,
  string_round, string_token, read_rounds, read_string,
}
use wrenegade.Lexer.Scan.{
  Libc, skip_line_comment, skip_block, skip_block_comment, keyword_type, read_name, number_token,
  make_number, skip_hex_digits, read_hex_number, skip_fraction, skip_exponent, read_number, case_of,
  open_paren, close_paren, dot_token, slash, shift_token, error_token, lex_word, lex_other,
  lex_char, lex_rounds, next_token,
}
use wrenegade.Lexer.Spelling.{keyword_text}
use wrenegade.Lexer.Within.{IsText}
use wrenegade.Lexer.Safety.{Advances, next_token-Advances, calls, calls-end}
use wrenegade.Lexer.RoundTrip.{
  Lexeme, operator, keyword, name, literal, source, Tokenizes, next_token-source,
}

-- A C library that reads every number as 7, within its range.
abbrev sevens : Libc
sevens = record { strtod = λ text. (7, false); strtoll = λ text. (7, false) }

abbrev no_token : Token
no_token = record { type = token_line; start = []; length = 0; line = 0; value = no_literal }

abbrev start : List ℕ → Parser
start text = record {
  before = [];
  current_char = text;
  token_start = text;
  current_line = 1;
  current = no_token;
  previous = no_token;
  parens = [];
  errors = [];
}

run : Unit {0}
unfolding make_token two_char_token skip_while read_hex_digit read_hex_escape encoded_int
    read_unicode_escape read_escape match_paren string_round string_token read_rounds read_string
    skip_line_comment skip_block skip_block_comment keyword_type read_name number_token make_number
    skip_hex_digits read_hex_number skip_fraction skip_exponent read_number case_of open_paren
    close_paren dot_token slash shift_token error_token lex_word lex_other lex_char lex_rounds
    next_token string_equals same_bytes encode Option.bind
run = tt

-- The types of the tokens, and the lines on which they stand.
abbrev tokens_from : ℕ → Option Parser → List (TokenType × ℕ)
tokens_from zero p = []
tokens_from (suc n) none = []
tokens_from (suc n) (some p) =
    (p.current.type, p.current.line) ∷ tokens_from n (next_token sevens p)

abbrev tokens : ℕ → List ℕ → List (TokenType × ℕ)
tokens n text = tokens_from n (next_token sevens (start text))

-- `a/*/**/*/=` and a newline
nested_comment :
    tokens 4 (b'a' ∷ b'/' ∷ b'*' ∷ b'/' ∷ b'*' ∷ b'*' ∷ b'/' ∷ b'*' ∷ b'/' ∷ b'=' ∷ b'\n' ∷ 0 ∷ [])
    ≡ (token_name, 1) ∷ (token_eq, 1) ∷ (token_line, 1) ∷ (token_eof, 2) ∷ []
unfolding run
nested_comment = refl

-- `"%(a)"`
interpolated :
    tokens 4 (b'"' ∷ b'%' ∷ b'(' ∷ b'a' ∷ b')' ∷ b'"' ∷ 0 ∷ [])
    ≡ (token_interpolation, 1) ∷ (token_name, 1) ∷ (token_string, 1) ∷ (token_eof, 1) ∷ []
unfolding run
interpolated = refl

-- A newline behind a hexadecimal number is counted twice, behind a decimal one it is not.
hex_line :
    tokens 3 (b'0' ∷ b'x' ∷ b'1' ∷ b'\n' ∷ b'a' ∷ 0 ∷ [])
    ≡ (token_number, 2) ∷ (token_line, 2) ∷ (token_name, 3) ∷ []
unfolding run
hex_line = refl

decimal_line :
    tokens 3 (b'0' ∷ b'1' ∷ b'1' ∷ b'\n' ∷ b'a' ∷ 0 ∷ [])
    ≡ (token_number, 1) ∷ (token_line, 1) ∷ (token_name, 2) ∷ []
unfolding run
decimal_line = refl

-- A backslash, or a percent sign, before the NUL: the string is read on behind it.
backslash_end : next_token sevens (start (b'"' ∷ b'\\' ∷ 0 ∷ [])) ≡ none
unfolding run
backslash_end = refl

percent_end :
    Option.bind (next_token sevens (start (b'"' ∷ b'%' ∷ 0 ∷ []))) (next_token sevens) ≡ none
unfolding run
percent_end = refl

not_ab : (t : TokenType) → keyword_text t ≡ b'a' ∷ b'b' ∷ [] → ⊥
not_ab token_eof e = absurd (omega (arith, ap first_char e))
not_ab t e = absurd (omega (arith, ap first_char e))

-- `var ab = "\"\\"`
abbrev lexemes : List (Lexeme sevens)
lexemes =
    keyword token_var (omega arith)
    ∷ name b'a' (b'b' ∷ []) refl refl (refl, tt) (λ t e. not_ab t e)
    ∷ operator token_eq (omega arith)
    ∷ literal (b'"' ∷ b'\\' ∷ [])
    ∷ []

next_token-source_example : Tokenizes [] lexemes (start (source lexemes))
next_token-source_example = next_token-source lexemes (start (source lexemes)) refl refl refl

-- Whether a list is a text.
abbrev is_text : List ℕ → Bool
is_text [] = false
is_text (c ∷ []) = c == 0
is_text (c ∷ d ∷ cs) = not (c == 0) && not (d == 0 && (c == b'\\' || c == b'%')) && is_text (d ∷ cs)

is_text-IsText : (cs : List ℕ) → is_text cs ≡ true → IsText cs
is_text-IsText [] e = absurd (cc e)
is_text-IsText (c ∷ []) e = ground (arith, e)
is_text-IsText (c ∷ d ∷ cs) e = (
  (λ z. ground (arith, e, z)),
  (λ z. ((λ k. ground (arith, e, z, k)), (λ k. ground (arith, e, z, k)))),
  is_text-IsText (d ∷ cs) (ground (arith, e)),
)

-- `a"\u00e9"` and a newline
abbrev short_text : List ℕ
short_text = b'a' ∷ b'"' ∷ b'\\' ∷ b'u' ∷ b'0' ∷ b'0' ∷ b'e' ∷ b'9' ∷ b'"' ∷ b'\n' ∷ 0 ∷ []

short_text-IsText : IsText short_text
short_text-IsText = is_text-IsText short_text refl

next_token-Advances_example :
    (q : Parser) × (next_token sevens (start short_text) ≡ some q) × Advances (start short_text) q
next_token-Advances_example = next_token-Advances sevens (start short_text) short_text-IsText

calls-end_example :
    (q : Parser) × (calls sevens 12 (start short_text) ≡ some q) × (q.current.type ≡ token_eof)
calls-end_example = calls-end sevens 12 (start short_text) short_text-IsText (omega arith)
