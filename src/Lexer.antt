-- ===== src/Lexer.antt =====
-- The lexer of lib/wren/src/vm/wren_compiler.c: the state of the parser that it uses, and the
-- functions on single characters. A pointer into the source is the text from there on, with the NUL
-- at its end; the characters that were read stand in reverse order.
pub mod Scan
pub mod Strings
pub mod Spelling
pub mod Operators
pub mod Names
pub mod Numerals
pub mod Literals
pub mod Keywords
pub mod Source
pub mod Within
pub mod Skips
pub mod Safety
pub mod RoundTrip
mod Tests
use wrenegade.Base.{
  ℕ, zero, suc, ◌+◌, ◌-◌, Bool, true, false, ◌&&◌, ◌||◌, Option, none, some, List, [], ◌∷◌, length,
  take, ltb, leb, ◌==◌, if◌then◌else◌,
}

pub data TokenType : Type 0 where
  token_left_paren token_right_paren token_left_bracket token_right_bracket token_left_brace :
      TokenType
  token_right_brace token_colon token_dot token_dotdot token_dotdotdot token_comma token_star :
      TokenType
  token_slash token_percent token_plus token_minus token_ltlt token_gtgt token_pipe : TokenType
  token_pipepipe token_caret token_amp token_ampamp token_bang token_tilde token_question :
      TokenType
  token_eq token_lt token_gt token_lteq token_gteq token_eqeq token_bangeq token_break : TokenType
  token_class token_construct token_else token_false token_for token_foreign token_if : TokenType
  token_import token_in token_is token_null token_return token_static token_super token_this :
      TokenType
  token_true token_var token_while token_field token_static_field token_name token_number :
      TokenType
  token_string token_interpolation token_line token_error token_eof : TokenType

-- What a literal stands for: the bits of a double, or the bytes of a string.
pub data Literal : Type 0 where
  no_literal : Literal
  number : ℕ → Literal
  string : List ℕ → Literal

pub record Token : Type 0 where
  pub type : TokenType
  pub start : List ℕ
  pub length : ℕ
  pub line : ℕ
  pub value : Literal

pub data LexError : Type 0 where
  unterminated_comment number_too_large unterminated_exponent incomplete_escape invalid_hex :
      LexError
  unterminated_string expect_paren too_nested invalid_escape invalid_character : LexError

-- `parens` has the innermost level first.
pub record Parser : Type 0 where
  pub before : List ℕ
  pub current_char : List ℕ
  pub token_start : List ℕ
  pub current_line : ℕ
  pub current : Token
  pub previous : Token
  pub parens : List ℕ
  pub errors : List LexError

abbrev pub max_interpolation_nesting : ℕ
max_interpolation_nesting = 8

abbrev pub is_name : ℕ → Bool
is_name c = leb b'a' c && leb c b'z' || leb b'A' c && leb c b'Z' || c == b'_'

abbrev pub is_digit : ℕ → Bool
is_digit c = leb b'0' c && leb c b'9'

-- The first of the characters. Behind the NUL there is none to read, and the callers see to it.
abbrev pub first_char : List ℕ → ℕ
first_char [] = 0
first_char (c ∷ cs) = c

abbrev pub peek_char : Parser → ℕ
peek_char p = first_char p.current_char

abbrev pub second_char : List ℕ → ℕ
second_char [] = 0
second_char (c ∷ cs) = if c == 0 then 0 else first_char cs

abbrev pub peek_next_char : Parser → ℕ
peek_next_char p = second_char p.current_char

-- `nextChar`, which gives the character that `peekChar` gives.
abbrev pub advance : Parser → List ℕ → Parser
advance p [] = p
advance p (c ∷ cs) = record p {
  before = c ∷ p.before;
  current_char = cs;
  current_line = if c == b'\n' then p.current_line + 1 else p.current_line;
}

abbrev pub next_char : Parser → Parser
next_char p = advance p p.current_char

-- `currentChar--`
abbrev pub retreat : Parser → List ℕ → Parser
retreat p [] = p
retreat p (c ∷ cs) = record p { before = cs; current_char = c ∷ p.current_char }

abbrev pub previous_char : Parser → Parser
previous_char p = retreat p p.before

abbrev pub lex_error : Parser → LexError → Parser
lex_error p e = record p { errors = e ∷ p.errors }

abbrev pub is_line : TokenType → Bool
is_line token_line = true
is_line t = false

abbrev pub is_eof : TokenType → Bool
is_eof token_eof = true
is_eof t = false

unfoldable pub make_token : Parser → TokenType → Parser
make_token p type = record p {
  current = record {
    type = type;
    start = p.token_start;
    length = length p.token_start - length p.current_char;
    line = if is_line type then p.current_line - 1 else p.current_line;
    value = p.current.value;
  };
}

-- `twoCharToken`
unfoldable pub two_char_token : Parser → ℕ → TokenType → TokenType → Parser
two_char_token p c two one =
    if peek_char p == c then make_token (next_char p) two else make_token p one

-- `while (test(peekChar(parser))) nextChar(parser);`, over the characters that are left.
unfoldable pub skip_while : (ℕ → Bool) → List ℕ → Parser → Parser
skip_while test [] p = p
skip_while test (c ∷ cs) p =
    let rest = skip_while test cs (next_char p) in if test c then rest else p
