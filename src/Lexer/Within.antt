-- ===== src/Lexer/Within.antt =====
-- Sources that the lexer stays inside of, and how the loops over characters stay inside.
use wrenegade.Base.{
  ℕ, ◌≤◌, ◌≡◌, sym, ap, ◌∙◌, inl, inr, arith, Bool, true, false, Bool-cases, List, List-cases, [],
  ◌∷◌, length, ◌==◌,
}
use mathlib.Core.Path.{subst}
use wrenegade.Lexer.{
  TokenType, LexError, Parser, first_char, advance, retreat, peek_char, next_char, previous_char,
  lex_error, make_token, two_char_token, skip_while,
}

-- A text with a NUL at its end and nowhere else, before which stands no backslash and no percent sign.
abbrev pub IsText : List ℕ → Type 0
IsText [] = ⊥
IsText (c ∷ []) = c ≡ 0
IsText (c ∷ d ∷ cs) = (c ≡ 0 → ⊥) × (d ≡ 0 → (c ≡ b'\\' → ⊥) × (c ≡ b'%' → ⊥)) × IsText (d ∷ cs)

-- The parser stands in such a text, with no more than some characters left.
pub record Within (n : ℕ) (p : Parser) : Type 0 where
  pub text : IsText p.current_char
  pub short : length p.current_char ≤ n

pub IsText-tail : (c : ℕ) (cs : List ℕ) → (c == 0) ≡ false → IsText (c ∷ cs) → IsText cs
IsText-tail c [] z t = absurd (ground (arith, z, t))
IsText-tail c (d ∷ cs) z (n, b, t) = t

pub advanced :
    (p : Parser) (c : ℕ) (cs : List ℕ) → p.current_char ≡ c ∷ cs → (next_char p).current_char ≡ cs
advanced p c cs e = ap (λ l. (advance p l).current_char) e

pub advanced_before :
    (p : Parser) (c : ℕ) (cs : List ℕ)
    → p.current_char ≡ c ∷ cs
    → (next_char p).before ≡ c ∷ p.before
advanced_before p c cs e = ap (λ l. (advance p l).before) e

pub retreated :
    (p : Parser) (c : ℕ) (cs : List ℕ)
    → p.before ≡ c ∷ cs
    → (previous_char p).current_char ≡ c ∷ p.current_char
retreated p c cs e = ap (λ l. (retreat p l).current_char) e

pub within :
    (n : ℕ) (p : Parser) (cs : List ℕ)
    → p.current_char ≡ cs
    → IsText cs
    → length cs ≤ n
    → Within n p
within n p cs e t l = record {
  text = subst IsText (sym e) t;
  short = omega (arith, l, ap length e);
}

pub next_char-Within :
    (n : ℕ) (p : Parser) (c : ℕ) (cs : List ℕ)
    → p.current_char ≡ c ∷ cs
    → (c == 0) ≡ false
    → IsText (c ∷ cs)
    → length cs ≤ n
    → Within n (next_char p)
next_char-Within n p c cs e z t l =
    within n (next_char p) cs (advanced p c cs e) (IsText-tail c cs z t) l

pub Within-IsText :
    (n : ℕ) (p : Parser) (cs : List ℕ) → p.current_char ≡ cs → Within n p → IsText cs
Within-IsText n p cs e w = subst IsText e w.text

pub Within-short :
    (n : ℕ) (p : Parser) (cs : List ℕ) → p.current_char ≡ cs → Within n p → length cs ≤ n
Within-short n p cs e w = omega (arith, w.short, ap length e)

-- The character before the NUL passes no test that the NUL fails.
not_nul : (test : ℕ → Bool) (c : ℕ) → test 0 ≡ false → test c ≡ true → (c == 0) ≡ false
not_nul test c n t = elim (Bool-cases (c == 0)) [
  | inl e ↦ let same : c ≡ 0 = ground (arith, e) in cc (sym t ∙ ap test same ∙ n)
  | inr e ↦ e
]

pub skip_while-Within :
    (n : ℕ) (test : ℕ → Bool)
    → test 0 ≡ false
    → (cs : List ℕ) (p : Parser) → p.current_char ≡ cs
    → Within n p
    → Within n (skip_while test cs p)
unfolding skip_while
skip_while-Within n test z [] p e w = w
skip_while-Within n test z (c ∷ cs) p e w = elim (Bool-cases (test c)) [
  | inl t ↦ rw t (
      skip_while-Within n test z cs (next_char p) (advanced p c cs e) (
        next_char-Within n p c cs e (not_nul test c z t) (Within-IsText n p (c ∷ cs) e w)
          (omega (arith, Within-short n p (c ∷ cs) e w))))
  | inr t ↦ rw t w
]

pub lex_error-Within : (n : ℕ) (p : Parser) (e : LexError) → Within n p → Within n (lex_error p e)
lex_error-Within n p e w = record { text = w.text; short = w.short }

pub make_token-Within :
    (n : ℕ) (p : Parser) (t : TokenType) → Within n p → Within n (make_token p t)
unfolding make_token
make_token-Within n p t w = record { text = w.text; short = w.short }

-- At a character that is not the NUL.
pub step-Within :
    (n c : ℕ) (p : Parser)
    → (c == 0) ≡ false
    → (peek_char p == c) ≡ true
    → Within n p
    → Within n (next_char p)
step-Within n c p z e w = elim (List-cases p.current_char) [
  | inl s ↦ absurd (subst IsText s w.text)
  | inr (d, ds, s) ↦
      let same : d ≡ c = ground (arith, ap (λ l. first_char l == c) s, e) in
      next_char-Within n p d ds s (rw same z) (Within-IsText n p (d ∷ ds) s w)
        (omega (arith, Within-short n p (d ∷ ds) s w))
]

pub two_char_token-Within :
    (n : ℕ) (p : Parser) (c : ℕ) (two one : TokenType)
    → (c == 0) ≡ false
    → Within n p
    → Within n (two_char_token p c two one)
unfolding two_char_token
two_char_token-Within n p c two one z w = elim (Bool-cases (peek_char p == c)) [
  | inl e ↦ rw e (make_token-Within n (next_char p) two (step-Within n c p z e w))
  | inr e ↦ rw e (make_token-Within n p one w)
]
