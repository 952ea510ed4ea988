-- ===== src/Lexer/Spelling.antt =====
-- How each token is written, and what it means for a token to be read.
use wrenegade.Base.{
  ℕ, ◌-◌, ◌<◌, ◌≡◌, Bool, false, Option, none, some, List, [], ◌∷◌, ◌++◌, length, length-append,
  take, drop, ◌==◌, if◌then◌else◌, refl, arith,
}
use wrenegade.Lexer.{
  TokenType, token_left_paren, token_right_paren, token_left_bracket, token_right_bracket,
  token_left_brace, token_right_brace, token_colon, token_dot, token_dotdot, token_dotdotdot,
  token_comma, token_star, token_slash, token_percent, token_plus, token_minus, token_ltlt,
  token_gtgt, token_pipe, token_pipepipe, token_caret, token_amp, token_ampamp, token_bang,
  token_tilde, token_question, token_eq, token_lt, token_gt, token_lteq, token_gteq, token_eqeq,
  token_bangeq, token_break, token_class, token_construct, token_else, token_false, token_for,
  token_foreign, token_if, token_import, token_in, token_is, token_null, token_return, token_static,
  token_super, token_this, token_true, token_var, token_while, token_line, Literal, LexError, Token,
  Parser, first_char, make_token,
}
use wrenegade.Lexer.Scan.{Libc, made, is_space, lex_char}

-- The tokens that are written in one way, without a letter.
abbrev pub operator_text : TokenType → List ℕ
operator_text token_left_paren = b'(' ∷ []
operator_text token_right_paren = b')' ∷ []
operator_text token_left_bracket = b'[' ∷ []
operator_text token_right_bracket = b']' ∷ []
operator_text token_left_brace = b'{' ∷ []
operator_text token_right_brace = b'}' ∷ []
operator_text token_colon = b':' ∷ []
operator_text token_dot = b'.' ∷ []
operator_text token_dotdot = b'.' ∷ b'.' ∷ []
operator_text token_dotdotdot = b'.' ∷ b'.' ∷ b'.' ∷ []
operator_text token_comma = b',' ∷ []
operator_text token_star = b'*' ∷ []
operator_text token_slash = b'/' ∷ []
operator_text token_percent = b'%' ∷ []
operator_text token_plus = b'+' ∷ []
operator_text token_minus = b'-' ∷ []
operator_text token_ltlt = b'<' ∷ b'<' ∷ []
operator_text token_gtgt = b'>' ∷ b'>' ∷ []
operator_text token_pipe = b'|' ∷ []
operator_text token_pipepipe = b'|' ∷ b'|' ∷ []
operator_text token_caret = b'^' ∷ []
operator_text token_amp = b'&' ∷ []
operator_text token_ampamp = b'&' ∷ b'&' ∷ []
operator_text token_bang = b'!' ∷ []
operator_text token_tilde = b'~' ∷ []
operator_text token_question = b'?' ∷ []
operator_text token_eq = b'=' ∷ []
operator_text token_lt = b'<' ∷ []
operator_text token_gt = b'>' ∷ []
operator_text token_lteq = b'<' ∷ b'=' ∷ []
operator_text token_gteq = b'>' ∷ b'=' ∷ []
operator_text token_eqeq = b'=' ∷ b'=' ∷ []
operator_text token_bangeq = b'!' ∷ b'=' ∷ []
operator_text token_line = b'\n' ∷ []
operator_text t = []

-- The reserved words.
abbrev pub keyword_text : TokenType → List ℕ
keyword_text token_break = b'b' ∷ b'r' ∷ b'e' ∷ b'a' ∷ b'k' ∷ []
keyword_text token_class = b'c' ∷ b'l' ∷ b'a' ∷ b's' ∷ b's' ∷ []
keyword_text token_construct = b'c' ∷ b'o' ∷ b'n' ∷ b's' ∷ b't' ∷ b'r' ∷ b'u' ∷ b'c' ∷ b't' ∷ []
keyword_text token_else = b'e' ∷ b'l' ∷ b's' ∷ b'e' ∷ []
keyword_text token_false = b'f' ∷ b'a' ∷ b'l' ∷ b's' ∷ b'e' ∷ []
keyword_text token_for = b'f' ∷ b'o' ∷ b'r' ∷ []
keyword_text token_foreign = b'f' ∷ b'o' ∷ b'r' ∷ b'e' ∷ b'i' ∷ b'g' ∷ b'n' ∷ []
keyword_text token_if = b'i' ∷ b'f' ∷ []
keyword_text token_import = b'i' ∷ b'm' ∷ b'p' ∷ b'o' ∷ b'r' ∷ b't' ∷ []
keyword_text token_in = b'i' ∷ b'n' ∷ []
keyword_text token_is = b'i' ∷ b's' ∷ []
keyword_text token_null = b'n' ∷ b'u' ∷ b'l' ∷ b'l' ∷ []
keyword_text token_return = b'r' ∷ b'e' ∷ b't' ∷ b'u' ∷ b'r' ∷ b'n' ∷ []
keyword_text token_static = b's' ∷ b't' ∷ b'a' ∷ b't' ∷ b'i' ∷ b'c' ∷ []
keyword_text token_super = b's' ∷ b'u' ∷ b'p' ∷ b'e' ∷ b'r' ∷ []
keyword_text token_this = b't' ∷ b'h' ∷ b'i' ∷ b's' ∷ []
keyword_text token_true = b't' ∷ b'r' ∷ b'u' ∷ b'e' ∷ []
keyword_text token_var = b'v' ∷ b'a' ∷ b'r' ∷ []
keyword_text token_while = b'w' ∷ b'h' ∷ b'i' ∷ b'l' ∷ b'e' ∷ []
keyword_text t = []

-- What a token stands before: a space, or the end of the source.
abbrev pub break_char : Bool → ℕ
break_char b = if b then b' ' else 0

-- A parser in a token, outside of any interpolation.
abbrev pub reading : List ℕ → List ℕ → List ℕ → ℕ → Token → Token → List LexError → Parser
reading before start chars line current previous errors = record {
  before = before;
  current_char = chars;
  token_start = start;
  current_line = line;
  current = current;
  previous = previous;
  parens = [];
  errors = errors;
}

abbrev pub Carries : Option Literal → Literal → Type 0
Carries none w = Unit
Carries (some v) w = w ≡ v

-- A token of a type, a text and a value was made, and the rest of the source is left.
pub record Made (errors : List LexError) (text rest : List ℕ) (t : TokenType) (v : Option Literal)
    (p : Parser) : Type 0 where
  pub has_type : p.current.type ≡ t
  pub has_text : take p.current.length p.current.start ≡ text
  pub has_value : Carries v p.current.value
  pub left : p.current_char ≡ rest
  pub same_errors : p.errors ≡ errors
  pub no_parens : p.parens ≡ []

-- The switch makes the token, after its first character.
abbrev pub Lexes : Libc → List ℕ → List ℕ → TokenType → Option Literal → Type 0
Lexes libc text rest t v =
    (before : List ℕ) (line : ℕ) (current previous : Token) (errors : List LexError)
    → (m : Parser) × (lex_char libc (first_char text)
          (reading before (text ++ rest) (drop 1 text ++ rest) line current previous errors)
        ≡ some (made m))
      × Made errors text rest t v m

length-before : (text rest : List ℕ) → length (text ++ rest) - length rest ≡ length text
length-before text rest = omega (arith, length-append text rest)

take-append : (text rest : List ℕ) → take (length text) (text ++ rest) ≡ text
take-append [] rest = refl
take-append (c ∷ cs) rest = rw (take-append cs rest) refl

pub text_of :
    (text rest : List ℕ) → take (length (text ++ rest) - length rest) (text ++ rest) ≡ text
text_of text rest = rw (length-before text rest) (take-append text rest)

-- `makeToken`, when the rest of the source is left.
pub make_token-Made :
    (before : List ℕ) (line : ℕ) (current previous : Token) (errors : List LexError)
    (text rest : List ℕ) (t : TokenType)
    → Made errors text rest t none
        (make_token (reading before (text ++ rest) rest line current previous errors) t)
unfolding make_token
make_token-Made before line current previous errors text rest t = record {
  has_type = refl;
  has_text = text_of text rest;
  has_value = tt;
  left = refl;
  same_errors = refl;
  no_parens = refl;
}

-- A text that does not begin with a space or the NUL.
pub record Starts (text : List ℕ) : Type 0 where
  pub character : (first_char text == 0) ≡ false
  pub visible : is_space (first_char text) ≡ false
  pub present : 0 < length text
