-- ===== src/Lexer/Skips.antt =====
-- How block comments and hexadecimal digits stay inside the source.
use wrenegade.Base.{
  ℕ, zero, suc, ◌≡◌, refl, sym, ap, ◌∙◌, inl, inr, arith, true, false, ◌&&◌, Bool-cases,
  Option-cases, none, some, List, [], ◌∷◌, ◌==◌,
}
use wrenegade.Lexer.{
  unterminated_comment, Parser, first_char, peek_char, next_char, previous_char, lex_error,
}
use wrenegade.Lexer.Strings.{hex_digit, read_hex_digit}
use wrenegade.Lexer.Scan.{skip_block, skip_hex_digits}
use wrenegade.Lexer.Within.{
  Within, IsText-tail, advanced, advanced_before, retreated, within, next_char-Within,
  Within-IsText, Within-short, lex_error-Within,
}

block-slash :
    (nesting d : ℕ) (cs : List ℕ) (c : ℕ) (p : Parser)
    → (c == 0) ≡ false
    → (c == b'/' && d == b'*') ≡ true
    → skip_block (suc nesting) (c ∷ d ∷ cs) p
      ≡ skip_block (suc (suc nesting)) cs (next_char (next_char p))
unfolding skip_block
block-slash nesting d cs c p z o = rw (skip_block, z, o) refl

block-star :
    (nesting d : ℕ) (cs : List ℕ) (c : ℕ) (p : Parser)
    → (c == 0) ≡ false
    → (c == b'/' && d == b'*') ≡ false
    → (c == b'*' && d == b'/') ≡ true
    → skip_block (suc nesting) (c ∷ d ∷ cs) p ≡ skip_block nesting cs (next_char (next_char p))
unfolding skip_block
block-star nesting d cs c p z o e = rw (skip_block, z, o, e) refl

block-other :
    (nesting d : ℕ) (cs : List ℕ) (c : ℕ) (p : Parser)
    → (c == 0) ≡ false
    → (c == b'/' && d == b'*') ≡ false
    → (c == b'*' && d == b'/') ≡ false
    → skip_block (suc nesting) (c ∷ d ∷ cs) p ≡ skip_block (suc nesting) (d ∷ cs) (next_char p)
unfolding skip_block
block-other nesting d cs c p z o e = rw (skip_block, z, o, e) refl

block-nul :
    (nesting d : ℕ) (cs : List ℕ) (c : ℕ) (p : Parser)
    → (c == 0) ≡ true
    → skip_block (suc nesting) (c ∷ d ∷ cs) p ≡ lex_error p unterminated_comment
unfolding skip_block
block-nul nesting d cs c p z = rw (skip_block, z) refl

-- Two characters on, neither of which is the NUL.
next_two-Within :
    (n : ℕ) (p : Parser) (c d : ℕ) (cs : List ℕ)
    → p.current_char ≡ c ∷ d ∷ cs
    → (c == 0) ≡ false
    → (d == 0) ≡ false
    → Within n p
    → Within n (next_char (next_char p))
next_two-Within n p c d cs e z y w =
    let t = Within-IsText n p (c ∷ d ∷ cs) e w in
    let l = Within-short n p (c ∷ d ∷ cs) e w in
    next_char-Within n (next_char p) d cs (advanced p c (d ∷ cs) e) y (IsText-tail c (d ∷ cs) z t)
      (omega (arith, l))

pub skip_block-Within :
    (n nesting : ℕ) (cs : List ℕ) (p : Parser)
    → p.current_char ≡ cs
    → Within n p
    → Within n (skip_block nesting cs p)
unfolding skip_block
skip_block-Within n zero cs p e w = w
skip_block-Within n (suc nesting) [] p e w = lex_error-Within n p unterminated_comment w
skip_block-Within n (suc nesting) (c ∷ []) p e w =
    let z : (c == 0) ≡ true = ground (arith, Within-IsText n p (c ∷ []) e w) in
    rw (skip_block, z) (lex_error-Within n p unterminated_comment w)
skip_block-Within n (suc nesting) (c ∷ d ∷ cs) p e w = elim (Bool-cases (c == 0)) [
  | inl z ↦ rw (block-nul nesting d cs c p z) (lex_error-Within n p unterminated_comment w)
  | inr z ↦ elim (Bool-cases (c == b'/' && d == b'*')) [
    | inl o ↦ rw (block-slash nesting d cs c p z o) (
        skip_block-Within n (suc (suc nesting)) cs (next_char (next_char p))
          (advanced (next_char p) d cs (advanced p c (d ∷ cs) e))
          (next_two-Within n p c d cs e z (ground (arith, o)) w))
    | inr o ↦ elim (Bool-cases (c == b'*' && d == b'/')) [
      | inl s ↦ rw (block-star nesting d cs c p z o s) (
          skip_block-Within n nesting cs (next_char (next_char p))
            (advanced (next_char p) d cs (advanced p c (d ∷ cs) e))
            (next_two-Within n p c d cs e z (ground (arith, s)) w))
      | inr s ↦ rw (block-other nesting d cs c p z o s) (
          skip_block-Within n (suc nesting) (d ∷ cs) (next_char p) (advanced p c (d ∷ cs) e) (
            next_char-Within n p c (d ∷ cs) e z (Within-IsText n p (c ∷ d ∷ cs) e w)
              (omega (arith, Within-short n p (c ∷ d ∷ cs) e w))))
    ]
  ]
]

-- What comes back after a character that is no digit.
pub given_back :
    (p : Parser) (c : ℕ) (cs : List ℕ)
    → p.current_char ≡ c ∷ cs
    → (previous_char (next_char p)).current_char ≡ c ∷ cs
given_back p c cs e =
    retreated (next_char p) c p.before (advanced_before p c cs e)
    ∙ ap (λ l. c ∷ l) (advanced p c cs e)

pub digit-some :
    (p : Parser) (d : ℕ)
    → hex_digit (peek_char p) ≡ some d
    → read_hex_digit p ≡ (some d, next_char p)
unfolding read_hex_digit
digit-some p d e = rw (read_hex_digit, e) refl

pub digit-none :
    (p : Parser)
    → hex_digit (peek_char p) ≡ none
    → read_hex_digit p ≡ (none, previous_char (next_char p))
unfolding read_hex_digit
digit-none p e = rw (read_hex_digit, e) refl

pub digit_char : (c d : ℕ) → hex_digit c ≡ some d → (c == 0) ≡ false
digit_char c d e = elim (Bool-cases (c == 0)) [
  | inl z ↦ let same : c ≡ 0 = ground (arith, z) in cc (sym e ∙ ap hex_digit same)
  | inr z ↦ z
]

skip_hex-some :
    (c d : ℕ) (cs : List ℕ) (p : Parser)
    → hex_digit (peek_char p) ≡ some d
    → skip_hex_digits (c ∷ cs) p ≡ skip_hex_digits cs (next_char p)
unfolding skip_hex_digits
skip_hex-some c d cs p e = rw (skip_hex_digits, digit-some p d e) refl

skip_hex-none :
    (c : ℕ) (cs : List ℕ) (p : Parser)
    → hex_digit (peek_char p) ≡ none
    → skip_hex_digits (c ∷ cs) p ≡ previous_char (next_char p)
unfolding skip_hex_digits
skip_hex-none c cs p e = rw (skip_hex_digits, digit-none p e) refl

pub skip_hex_digits-Within :
    (n : ℕ) (cs : List ℕ) (p : Parser)
    → p.current_char ≡ cs
    → Within n p
    → Within n (skip_hex_digits cs p)
unfolding skip_hex_digits
skip_hex_digits-Within n [] p e w = w
skip_hex_digits-Within n (c ∷ cs) p e w =
    let t = Within-IsText n p (c ∷ cs) e w in
    let l = Within-short n p (c ∷ cs) e w in
    elim (Option-cases (hex_digit (peek_char p))) [
      | inl h ↦
          rw (skip_hex-none c cs p h)
            (within n (previous_char (next_char p)) (c ∷ cs) (given_back p c cs e) t l)
      | inr (d, h) ↦
          let here : hex_digit c ≡ some d = ap (λ l. hex_digit (first_char l)) (sym e) ∙ h in
          rw (skip_hex-some c d cs p h) (
            skip_hex_digits-Within n cs (next_char p) (advanced p c cs e)
              (next_char-Within n p c cs e (digit_char c d here) t (omega (arith, l))))
    ]
