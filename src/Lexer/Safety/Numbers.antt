-- ===== src/Lexer/Safety/Numbers.antt =====
-- How the readers of names, numbers and operators stay inside the source.
use wrenegade.Base.{
  ℕ, ◌≡◌, refl, inl, inr, arith, Bool, true, false, ◌&&◌, ◌||◌, Bool-cases, ◌==◌, if◌then◌else◌,
}
use wrenegade.Lexer.{
  TokenType, token_dot, token_dotdot, token_dotdotdot, token_number, Parser, unterminated_exponent,
  is_digit, peek_char, peek_next_char, next_char, skip_while,
}
use wrenegade.Lexer.Scan.{
  Libc, is_name_part, keywords, keyword_type, token_text, read_name, number_token, make_number,
  read_hex_number, skip_digits, skip_fraction, skip_exponent, read_number, dot_token, shift_token,
}
use wrenegade.Lexer.Within.{
  Within, skip_while-Within, lex_error-Within, make_token-Within, two_char_token-Within,
  step-Within,
}
use wrenegade.Lexer.Skips.{skip_hex_digits-Within}
use wrenegade.Lexer.Safety.Escapes.{if-of}

skip_digits-Within : (n : ℕ) (p : Parser) → Within n p → Within n (skip_digits p)
skip_digits-Within n p w = skip_while-Within n is_digit refl p.current_char p refl w

number_token-Within :
    (n : ℕ) (p : Parser) (bits : ℕ) (out_of_range : Bool)
    → Within n p
    → Within n (number_token p (bits, out_of_range))
unfolding number_token
number_token-Within n p bits true w =
    make_token-Within n _ token_number (record { text = w.text; short = w.short })
number_token-Within n p bits false w =
    make_token-Within n _ token_number (record { text = w.text; short = w.short })

make_number-Within :
    (n : ℕ) (libc : Libc) (p : Parser) (is_hex : Bool)
    → Within n p
    → Within n (make_number libc p is_hex)
unfolding make_number
make_number-Within n libc p is_hex w = number_token-Within n p _ _ w

skip_fraction-Within : (n : ℕ) (p : Parser) → Within n p → Within n (skip_fraction p)
unfolding skip_fraction
skip_fraction-Within n p w =
    if-of (Within n) (peek_char p == b'.' && is_digit (peek_next_char p)) _ _
      (λ e. skip_digits-Within n (next_char p) (step-Within n b'.' p refl (ground (arith, e)) w))
      (λ e. w)

-- Past an `e`, a sign.
signed-Within :
    (n : ℕ) (p : Parser) → Within n p → Within n (if peek_char p == b'-' then next_char p else p)
signed-Within n p w =
    if-of (Within n) (peek_char p == b'-') _ _ (λ e. step-Within n b'-' p refl e w) (λ e. w)

exponent_mark :
    (n : ℕ) (p : Parser)
    → (peek_char p == b'e' || peek_char p == b'E') ≡ true
    → Within n p
    → Within n (next_char p)
exponent_mark n p e w = elim (Bool-cases (peek_char p == b'e')) [
  | inl m ↦ step-Within n b'e' p refl m w
  | inr m ↦ step-Within n b'E' p refl (ground (arith, e, m)) w
]

skip_exponent-Within : (n : ℕ) (p : Parser) → Within n p → Within n (skip_exponent p)
unfolding skip_exponent
skip_exponent-Within n p w =
    if-of (Within n) (peek_char p == b'e' || peek_char p == b'E') _ _
      (λ e.
        let v = signed-Within n (next_char p) (exponent_mark n p e w) in
        skip_digits-Within n _ (
          if-of (Within n)
            (is_digit (
              peek_char
                (if peek_char (next_char p) == b'-' then next_char (next_char p) else next_char p)))
            _ _ (λ d. v) (λ d. lex_error-Within n _ unterminated_exponent v)))
      (λ e. w)

pub read_number-Within :
    (n : ℕ) (libc : Libc) (p : Parser) → Within n p → Within n (read_number libc p)
unfolding read_number
read_number-Within n libc p w =
    make_number-Within n libc _ false
      (skip_exponent-Within n _ (skip_fraction-Within n _ (skip_digits-Within n p w)))

pub read_hex_number-Within :
    (n : ℕ) (libc : Libc) (p : Parser) → Within n (next_char p) → Within n (read_hex_number libc p)
unfolding read_hex_number
read_hex_number-Within n libc p w =
    make_number-Within n libc _ true
      (skip_hex_digits-Within n (next_char p).current_char (next_char p) refl w)

pub read_name-Within : (n : ℕ) (p : Parser) (t : TokenType) → Within n p → Within n (read_name p t)
unfolding read_name
read_name-Within n p t w =
    make_token-Within n _
      (keyword_type keywords (token_text (skip_while is_name_part p.current_char p)) t)
      (skip_while-Within n is_name_part refl p.current_char p refl w)

pub dot_token-Within : (n : ℕ) (p : Parser) → Within n p → Within n (dot_token p)
unfolding dot_token
dot_token-Within n p w =
    if-of (Within n) (peek_char p == b'.') _ _
      (λ e.
        two_char_token-Within n (next_char p) b'.' token_dotdotdot token_dotdot refl
          (step-Within n b'.' p refl e w))
      (λ e. make_token-Within n p token_dot w)

pub shift_token-Within :
    (n : ℕ) (p : Parser) (c : ℕ) (twice with_eq one : TokenType)
    → (c == 0) ≡ false
    → Within n p
    → Within n (shift_token p c twice with_eq one)
unfolding shift_token
shift_token-Within n p c twice with_eq one z w =
    if-of (Within n) (peek_char p == c) _ _
      (λ e. make_token-Within n (next_char p) twice (step-Within n c p z e w))
      (λ e. two_char_token-Within n p b'=' with_eq one refl w)
