-- ===== src/Lexer/Scan.antt =====
-- Comments, names and numbers of the lexer, and `nextToken` (wren_compiler.c).
use wrenegade.Base.{
  ℕ, zero, suc, ◌+◌, ◌-◌, Bool, true, false, not, ◌&&◌, ◌||◌, Option, none, some, List, [], ◌∷◌,
  length, take, ◌==◌, if◌then◌else◌,
}
use wrenegade.Symbols.{string_equals}
use wrenegade.Lexer.{
  TokenType, token_left_paren, token_right_paren, token_left_bracket, token_right_bracket,
  token_left_brace, token_right_brace, token_colon, token_dot, token_dotdot, token_dotdotdot,
  token_comma, token_star, token_slash, token_percent, token_plus, token_minus, token_ltlt,
  token_gtgt, token_pipe, token_pipepipe, token_caret, token_amp, token_ampamp, token_bang,
  token_tilde, token_question, token_eq, token_lt, token_gt, token_lteq, token_gteq, token_eqeq,
  token_bangeq, token_break, token_class, token_construct, token_else, token_false, token_for,
  token_foreign, token_if, token_import, token_in, token_is, token_null, token_return, token_static,
  token_super, token_this, token_true, token_var, token_while, token_field, token_static_field,
  token_name, token_number, token_line, token_error, token_eof, number, unterminated_comment,
  number_too_large, unterminated_exponent, invalid_character, Parser, is_name, is_digit, peek_char,
  peek_next_char, next_char, lex_error, is_eof, make_token, two_char_token, skip_while,
}
use wrenegade.Lexer.Strings.{read_hex_digit, read_string}

abbrev pub in_comment : ℕ → Bool
in_comment c = not (c == b'\n') && not (c == 0)

-- `skipLineComment`
unfoldable pub skip_line_comment : Parser → Parser
skip_line_comment p = skip_while in_comment p.current_char p

-- `skipBlockComment`, over the characters that are left.
unfoldable pub skip_block : ℕ → List ℕ → Parser → Parser
skip_block zero cs p = p
skip_block (suc nesting) [] p = lex_error p unterminated_comment
skip_block (suc nesting) (c ∷ []) p =
    if c == 0
    then lex_error p unterminated_comment
    else lex_error (next_char p) unterminated_comment
skip_block (suc nesting) (c ∷ d ∷ cs) p =
    let deeper = skip_block (suc (suc nesting)) cs (next_char (next_char p)) in
    let closed = skip_block nesting cs (next_char (next_char p)) in
    let further = skip_block (suc nesting) (d ∷ cs) (next_char p) in
    if c == 0
    then lex_error p unterminated_comment
    else if c == b'/' && d == b'*'
    then deeper
    else if c == b'*' && d == b'/'
    then closed
    else further

unfoldable pub skip_block_comment : Parser → Parser
skip_block_comment p = skip_block 1 p.current_char p

abbrev pub is_space : ℕ → Bool
is_space c = c == b' ' || c == b'\r' || c == b'\t'

-- `strtod` and `strtoll` of the C library: the bits of the double that they give, and whether they
-- report that it is out of range.
pub record Libc : Type 0 where
  pub strtod : List ℕ → ℕ × Bool
  pub strtoll : List ℕ → ℕ × Bool

abbrev pub keywords : List (List ℕ × TokenType)
keywords =
    ((b'b' ∷ b'r' ∷ b'e' ∷ b'a' ∷ b'k' ∷ []), token_break)
    ∷ ((b'c' ∷ b'l' ∷ b'a' ∷ b's' ∷ b's' ∷ []), token_class)
    ∷ ((b'c' ∷ b'o' ∷ b'n' ∷ b's' ∷ b't' ∷ b'r' ∷ b'u' ∷ b'c' ∷ b't' ∷ []), token_construct)
    ∷ ((b'e' ∷ b'l' ∷ b's' ∷ b'e' ∷ []), token_else)
    ∷ ((b'f' ∷ b'a' ∷ b'l' ∷ b's' ∷ b'e' ∷ []), token_false)
    ∷ ((b'f' ∷ b'o' ∷ b'r' ∷ []), token_for)
    ∷ ((b'f' ∷ b'o' ∷ b'r' ∷ b'e' ∷ b'i' ∷ b'g' ∷ b'n' ∷ []), token_foreign)
    ∷ ((b'i' ∷ b'f' ∷ []), token_if)
    ∷ ((b'i' ∷ b'm' ∷ b'p' ∷ b'o' ∷ b'r' ∷ b't' ∷ []), token_import)
    ∷ ((b'i' ∷ b'n' ∷ []), token_in)
    ∷ ((b'i' ∷ b's' ∷ []), token_is)
    ∷ ((b'n' ∷ b'u' ∷ b'l' ∷ b'l' ∷ []), token_null)
    ∷ ((b'r' ∷ b'e' ∷ b't' ∷ b'u' ∷ b'r' ∷ b'n' ∷ []), token_return)
    ∷ ((b's' ∷ b't' ∷ b'a' ∷ b't' ∷ b'i' ∷ b'c' ∷ []), token_static)
    ∷ ((b's' ∷ b'u' ∷ b'p' ∷ b'e' ∷ b'r' ∷ []), token_super)
    ∷ ((b't' ∷ b'h' ∷ b'i' ∷ b's' ∷ []), token_this)
    ∷ ((b't' ∷ b'r' ∷ b'u' ∷ b'e' ∷ []), token_true)
    ∷ ((b'v' ∷ b'a' ∷ b'r' ∷ []), token_var)
    ∷ ((b'w' ∷ b'h' ∷ b'i' ∷ b'l' ∷ b'e' ∷ []), token_while)
    ∷ []

-- The loop of `readName` over the keywords.
unfoldable pub keyword_type : List (List ℕ × TokenType) → List ℕ → TokenType → TokenType
keyword_type [] text type = type
keyword_type ((identifier, keyword) ∷ rest) text type =
    if string_equals text identifier then keyword else keyword_type rest text type

-- The characters from `tokenStart` to `currentChar`.
abbrev pub token_text : Parser → List ℕ
token_text p = take (length p.token_start - length p.current_char) p.token_start

abbrev pub is_name_part : ℕ → Bool
is_name_part c = is_name c || is_digit c

unfoldable pub read_name : Parser → TokenType → Parser
read_name p type =
    let q = skip_while is_name_part p.current_char p in
    make_token q (keyword_type keywords (token_text q) type)

unfoldable pub number_token : Parser → ℕ × Bool → Parser
number_token p (bits, out_of_range) =
    let valued =
      λ (q : Parser) (n : ℕ). record q { current = record q.current { value = number n } } in
    make_token (if out_of_range then valued (lex_error p number_too_large) 0 else valued p bits)
      token_number

unfoldable pub make_number : Libc → Parser → Bool → Parser
make_number libc p is_hex =
    number_token p (if is_hex then libc.strtoll p.token_start else libc.strtod p.token_start)

abbrev pub is_some {ℓ} : {A : Type ℓ} → Option A → Bool
is_some none = false
is_some (some a) = true

-- `while (readHexDigit(parser) != -1) continue;`, over the characters that are left.
unfoldable pub skip_hex_digits : List ℕ → Parser → Parser
skip_hex_digits [] p = p
skip_hex_digits (c ∷ cs) p =
    let r = read_hex_digit p in
    let rest = skip_hex_digits cs (r.1) in if is_some (r.0) then rest else r.1

unfoldable pub read_hex_number : Libc → Parser → Parser
read_hex_number libc p =
    let q = next_char p in make_number libc (skip_hex_digits q.current_char q) true

abbrev pub skip_digits : Parser → Parser
skip_digits p = skip_while is_digit p.current_char p

unfoldable pub skip_fraction : Parser → Parser
skip_fraction p =
    if peek_char p == b'.' && is_digit (peek_next_char p) then skip_digits (next_char p) else p

unfoldable pub skip_exponent : Parser → Parser
skip_exponent p =
    let after = next_char p in
    let signed = if peek_char after == b'-' then next_char after else after in
    if peek_char p == b'e' || peek_char p == b'E'
    then skip_digits
        (if is_digit (peek_char signed) then signed else lex_error signed unterminated_exponent)
    else p

unfoldable pub read_number : Libc → Parser → Parser
read_number libc p = make_number libc (skip_exponent (skip_fraction (skip_digits p))) false

-- The characters that are a token by themselves.
abbrev pub single_tokens : List (ℕ × TokenType)
single_tokens =
    (b'[', token_left_bracket)
    ∷ (b']', token_right_bracket)
    ∷ (b'{', token_left_brace)
    ∷ (b'}', token_right_brace)
    ∷ (b':', token_colon)
    ∷ (b',', token_comma)
    ∷ (b'*', token_star)
    ∷ (b'%', token_percent)
    ∷ (b'^', token_caret)
    ∷ (b'+', token_plus)
    ∷ (b'-', token_minus)
    ∷ (b'~', token_tilde)
    ∷ (b'?', token_question)
    ∷ (b'\n', token_line)
    ∷ []

-- The cases that call `twoCharToken` at once: the second character, and the two tokens.
abbrev pub double_tokens : List (ℕ × (ℕ × TokenType × TokenType))
double_tokens =
    (b'|', (b'|', token_pipepipe, token_pipe))
    ∷ (b'&', (b'&', token_ampamp, token_amp))
    ∷ (b'=', (b'=', token_eqeq, token_eq))
    ∷ (b'!', (b'=', token_bangeq, token_bang))
    ∷ []

unfoldable pub case_of : {A : Type 0} → List (ℕ × A) → ℕ → Option A
case_of [] c = none
case_of ((k, a) ∷ rest) c = if c == k then some a else case_of rest c

-- A round of `nextToken`: it made a token, or it skipped a space or a comment.
pub data Round : Type 0 where
  made skipped : Parser → Round

abbrev pub made_string : Option Parser → Option Round
made_string none = none
made_string (some p) = some (made p)

-- The cases for parentheses, which close an interpolation.
unfoldable pub open_paren : List ℕ → List ℕ
open_paren [] = []
open_paren (n ∷ ns) = (n + 1) ∷ ns

unfoldable pub close_paren : List ℕ → Parser → Option Round
close_paren [] p = some (made (make_token p token_right_paren))
close_paren (n ∷ ns) p =
    if n == 1
    then made_string (read_string (record p { parens = ns }))
    else some (made (make_token (record p { parens = (n - 1) ∷ ns }) token_right_paren))

unfoldable pub dot_token : Parser → Parser
dot_token p =
    if peek_char p == b'.'
    then two_char_token (next_char p) b'.' token_dotdotdot token_dotdot
    else make_token p token_dot

unfoldable pub slash : Parser → Round
slash p =
    if peek_char p == b'/'
    then skipped (skip_line_comment (next_char p))
    else if peek_char p == b'*'
    then skipped (skip_block_comment (next_char p))
    else made (make_token p token_slash)

-- `<` and `>`
unfoldable pub shift_token : Parser → ℕ → TokenType → TokenType → TokenType → Parser
shift_token p c twice with_eq one =
    if peek_char p == c then make_token (next_char p) twice else two_char_token p b'=' with_eq one

unfoldable pub error_token : Parser → Parser
error_token p =
    let q = lex_error p invalid_character in
    record q { current = record q.current { type = token_error; length = 0 } }

-- The last cases of the switch: names, numbers, and what is not a token.
unfoldable pub lex_word : Libc → ℕ → Parser → Round
lex_word libc c p =
    if c == b'_'
    then made (read_name p (if peek_char p == b'_' then token_static_field else token_field))
    else if c == b'0'
    then made (if peek_char p == b'x' then read_hex_number libc p else read_number libc p)
    else if p.current_line == 1 && c == b'#' && peek_char p == b'!'
    then skipped (skip_line_comment p)
    else if is_name c
    then made (read_name p token_name)
    else if is_digit c
    then made (read_number libc p)
    else made (error_token p)

-- The cases that are not in the tables.
unfoldable pub lex_other : Libc → ℕ → Parser → Option Round
lex_other libc c p =
    if c == b'('
    then some (made (make_token (record p { parens = open_paren p.parens }) token_left_paren))
    else if c == b')'
    then close_paren p.parens p
    else if c == b'.'
    then some (made (dot_token p))
    else if c == b'/'
    then some (slash p)
    else if c == b'<'
    then some (made (shift_token p b'<' token_ltlt token_lteq token_lt))
    else if c == b'>'
    then some (made (shift_token p b'>' token_gtgt token_gteq token_gt))
    else if is_space c
    then some (skipped (skip_while is_space p.current_char p))
    else if c == b'"'
    then made_string (read_string p)
    else some (lex_word libc c p)

-- The switch, after `nextChar` gave the character.
unfoldable pub lex_char : Libc → ℕ → Parser → Option Round
lex_char libc c p = elim (case_of single_tokens c) [
  | some type ↦ some (made (make_token p type))
  | none ↦ elim (case_of double_tokens c) [
    | some cases ↦ some (made (two_char_token p (cases.0) (cases.1) (cases.2)))
    | none ↦ lex_other libc c p
  ]
]

-- The loop of `nextToken`; none is a read behind the NUL, or the end of the fuel.
unfoldable pub lex_rounds : Libc → ℕ → Parser → Option Parser
lex_rounds libc zero p = none
lex_rounds libc (suc fuel) p = elim p.current_char [
  | [] ↦ none
  | c ∷ cs ↦
      let q = record p { token_start = c ∷ cs } in
      if c == 0 then some (make_token q token_eof) else elim (lex_char libc c (next_char q)) [
        | none ↦ none
        | some r ↦ elim r [ made m ↦ some m | skipped m ↦ lex_rounds libc fuel m ]
      ]
]

unfoldable pub next_token : Libc → Parser → Option Parser
next_token libc p =
    let q = record p { previous = p.current } in
    if is_eof p.current.type then some q else lex_rounds libc (length p.current_char + 1) q
