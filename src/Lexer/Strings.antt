-- ===== src/Lexer/Strings.antt =====
-- String literals of the lexer (wren_compiler.c).
use wrenegade.Base.{
  ℕ, zero, suc, ◌+◌, ◌-◌, ◌*◌, ◌%◌, ◌^◌, bit_and, bit_or, ◌&&◌, ◌||◌, Option, none, some, List, [],
  ◌∷◌, ◌++◌, length, ltb, leb, ◌==◌, if◌then◌else◌,
}
use wrenegade.Utf8.{encode}
use wrenegade.Lexer.{
  TokenType, token_string, token_interpolation, string, incomplete_escape, invalid_hex,
  unterminated_string, expect_paren, too_nested, invalid_escape, Parser, max_interpolation_nesting,
  peek_char, next_char, previous_char, lex_error, make_token,
}

-- The value of a hexadecimal digit.
abbrev pub hex_digit : ℕ → Option ℕ
hex_digit c =
    if leb b'0' c && leb c b'9'
    then some (c - b'0')
    else if leb b'a' c && leb c b'f'
    then some (c - b'a' + 10)
    else if leb b'A' c && leb c b'F'
    then some (c - b'A' + 10)
    else none

-- `readHexDigit`, where none is -1. What is given back is not taken off the line count.
unfoldable pub read_hex_digit : Parser → Option ℕ × Parser
read_hex_digit p = elim (hex_digit (peek_char p)) [
  | some d ↦ (some d, next_char p)
  | none ↦ (none, previous_char (next_char p))
]

-- `readHexEscape`, an `int` as its bits.
unfoldable pub read_hex_escape : ℕ → ℕ → Parser → ℕ × Parser
read_hex_escape zero value p = (value, p)
read_hex_escape (suc digits) value p =
    let r = read_hex_digit p in
    let rest = elim (r.0) as (λ d. ℕ × Parser) [
      | none ↦ (value, lex_error (r.1) invalid_hex)
      | some d ↦ read_hex_escape digits (bit_or (value * 16 % 2 ^ 32) d) (r.1)
    ] in
    if peek_char p == b'"' || peek_char p == 0
    then (value, previous_char (lex_error p incomplete_escape))
    else rest

-- The bytes of `wrenUtf8Encode`, of which there are none for a number without an encoding; a
-- negative number is below 0x7f.
unfoldable pub encoded_int : ℕ → List ℕ
encoded_int value =
    elim (if leb (2 ^ 31) value then some (bit_and value 0x7f ∷ []) else encode value) [
      | none ↦ []
      | some bytes ↦ bytes
    ]

-- A round of the loop of `readString`: the literal ended, or more follows.
pub data StringRound : Type 0 where
  ended : Parser → TokenType → List ℕ → StringRound
  more : Parser → List ℕ → StringRound

-- `readUnicodeEscape`
unfoldable pub read_unicode_escape : ℕ → Parser → List ℕ → StringRound
read_unicode_escape digits p s =
    let r = read_hex_escape digits 0 p in more (r.1) (s ++ encoded_int (r.0))

-- The escapes that stand for one byte.
abbrev pub simple_escape : ℕ → Option ℕ
simple_escape c =
    if c == b'"'
    then some b'"'
    else if c == b'\\'
    then some b'\\'
    else if c == b'%'
    then some b'%'
    else if c == b'0'
    then some 0
    else if c == b'a'
    then some 7
    else if c == b'b'
    then some 8
    else if c == b'f'
    then some 12
    else if c == b'n'
    then some 10
    else if c == b'r'
    then some 13
    else if c == b't'
    then some 9
    else if c == b'v'
    then some 11
    else none

-- The switch of `readString` after a backslash.
unfoldable pub read_escape : ℕ → Parser → List ℕ → StringRound
read_escape c p s = elim (simple_escape c) [
  | some byte ↦ more p (s ++ byte ∷ [])
  | none ↦
      if c == b'u'
      then read_unicode_escape 4 p s
      else if c == b'U'
      then read_unicode_escape 8 p s
      else if c == b'x'
      then (let r = read_hex_escape 2 0 p in more (r.1) (s ++ (r.0 % 2 ^ 8) ∷ []))
      else more (lex_error p invalid_escape) s
]

-- What has to follow a percent sign.
unfoldable pub match_paren : Parser → Parser
match_paren p = if peek_char p == b'(' then next_char p else lex_error (next_char p) expect_paren

-- A round, after `nextChar` gave the character.
unfoldable pub string_round : ℕ → Parser → List ℕ → StringRound
string_round c p s =
    if c == b'"'
    then ended p token_string s
    else if c == 0
    then ended (previous_char (lex_error p unterminated_string)) token_string s
    else if c == b'%'
    then if ltb (length p.parens) max_interpolation_nesting
      then ended (record (match_paren p) { parens = 1 ∷ p.parens }) token_interpolation s
      else more (lex_error p too_nested) (s ++ c ∷ [])
    else if c == b'\\'
    then read_escape (peek_char p) (next_char p) s
    else more p (s ++ c ∷ [])

unfoldable pub string_token : Parser → TokenType → List ℕ → Parser
string_token p type s =
    make_token (record p { current = record p.current { value = string s } }) type

-- The loop of `readString`; none is a read behind the NUL, or the end of the fuel.
unfoldable pub read_rounds : ℕ → Parser → List ℕ → Option Parser
read_rounds zero p s = none
read_rounds (suc fuel) p s = elim p.current_char [
  | [] ↦ none
  | c ∷ cs ↦ elim (string_round c (next_char p) s) [
    | ended q type t ↦ some (string_token q type t)
    | more q t ↦ read_rounds fuel q t
  ]
]

unfoldable pub read_string : Parser → Option Parser
read_string p = read_rounds (length p.current_char + 1) p []
