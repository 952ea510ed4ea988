-- ===== src/Lexer/Safety/Escapes.antt =====
-- How the readers of escapes stay inside the source.
use wrenegade.Base.{
  ℕ, zero, suc, ◌*◌, ◌%◌, ◌^◌, bit_or, ◌≤◌, ◌≡◌, refl, sym, ap, ◌∙◌, inl, inr, arith, Bool, true,
  false, ◌||◌, Bool-cases, Option-cases, none, some, List, List-cases, [], ◌∷◌, ◌++◌, length, ◌==◌,
  if◌then◌else◌,
}
use mathlib.Core.Path.{subst}
use wrenegade.Lexer.{
  incomplete_escape, invalid_hex, invalid_escape, Parser, first_char, peek_char, next_char,
  previous_char, lex_error,
}
use wrenegade.Lexer.Strings.{
  hex_digit, read_hex_digit, read_hex_escape, StringRound, ended, more, read_unicode_escape,
  simple_escape, read_escape,
}
use wrenegade.Lexer.Within.{
  IsText, Within, IsText-tail, advanced, advanced_before, retreated, within, lex_error-Within,
}
use wrenegade.Lexer.Skips.{given_back, digit-some, digit-none, digit_char}

pub if-of :
    {A : Type 0} (P : A → Type 0) (b : Bool) (x y : A)
    → (b ≡ true → P x)
    → (b ≡ false → P y)
    → P (if b then x else y)
if-of P true x y f g = f refl
if-of P false x y f g = g refl

pub Within-weaken : (m n : ℕ) (p : Parser) → m ≤ n → Within m p → Within n p
Within-weaken m n p l w = record { text = w.text; short = omega (arith, l, w.short) }

-- The character before can be given back.
pub record Inside (n : ℕ) (p : Parser) : Type 0 where
  last : ℕ
  earlier : List ℕ
  read_last : p.before ≡ last ∷ earlier
  back_text : IsText (last ∷ p.current_char)
  text : IsText p.current_char
  short : suc (length p.current_char) ≤ n

Inside-Within : (n : ℕ) (p : Parser) → Inside n p → Within n p
Inside-Within n p w = record { text = w.text; short = omega (arith, w.short) }

pub step-Inside :
    (n : ℕ) (p : Parser) (c : ℕ) (cs : List ℕ)
    → p.current_char ≡ c ∷ cs
    → (c == 0) ≡ false
    → IsText (c ∷ cs)
    → suc (length cs) ≤ n
    → Inside n (next_char p)
step-Inside n p c cs e z t l = record {
  last = c;
  earlier = p.before;
  read_last = advanced_before p c cs e;
  back_text = subst (λ k. IsText (c ∷ k)) (sym (advanced p c cs e)) t;
  text = subst IsText (sym (advanced p c cs e)) (IsText-tail c cs z t);
  short = omega (arith, l, ap length (advanced p c cs e));
}

escape-invalid :
    (digits value : ℕ) (p q : Parser)
    → (peek_char p == b'"' || peek_char p == 0) ≡ false
    → read_hex_digit p ≡ (none, q)
    → (read_hex_escape (suc digits) value p).1 ≡ lex_error q invalid_hex
unfolding read_hex_escape
escape-invalid digits value p q e h =
    rw (read_hex_escape, h, e) (ap (λ r. lex_error (r.1) invalid_hex) h)

escape-incomplete :
    (digits value : ℕ) (p : Parser)
    → (peek_char p == b'"' || peek_char p == 0) ≡ true
    → (read_hex_escape (suc digits) value p).1 ≡ previous_char (lex_error p incomplete_escape)
unfolding read_hex_escape
escape-incomplete digits value p e = rw (read_hex_escape, e) refl

escape-digit :
    (digits value d : ℕ) (p q : Parser)
    → (peek_char p == b'"' || peek_char p == 0) ≡ false
    → read_hex_digit p ≡ (some d, q)
    → (read_hex_escape (suc digits) value p).1
      ≡ (read_hex_escape digits (bit_or (value * 16 % 2 ^ 32) d) q).1
unfolding read_hex_escape
escape-digit digits value d p q e h =
    rw (read_hex_escape, h, e)
      (ap (λ r. (read_hex_escape digits (bit_or (value * 16 % 2 ^ 32) d) (r.1)).1) h)

given_back-Within :
    (n : ℕ) (p : Parser)
    → IsText p.current_char
    → length p.current_char ≤ n
    → Within n (previous_char (next_char p))
given_back-Within n p t l = elim (List-cases p.current_char) [
  | inl s ↦ absurd (subst IsText s t)
  | inr (c, cs, s) ↦
      within n (previous_char (next_char p)) (c ∷ cs) (given_back p c cs s) (subst IsText s t)
        (omega (arith, l, ap length s))
]

digit-Inside :
    (n d : ℕ) (p : Parser)
    → hex_digit (peek_char p) ≡ some d
    → IsText p.current_char
    → length p.current_char ≤ n
    → Inside n (next_char p)
digit-Inside n d p h t l = elim (List-cases p.current_char) [
  | inl s ↦ absurd (subst IsText s t)
  | inr (c, cs, s) ↦
      let here : hex_digit c ≡ some d = ap (λ k. hex_digit (first_char k)) (sym s) ∙ h in
      step-Inside n p c cs s (digit_char c d here) (subst IsText s t)
        (omega (arith, l, ap length s))
]

read_hex_escape-Within :
    (n digits value : ℕ) (p : Parser) → Inside n p → Within n ((read_hex_escape digits value p).1)
unfolding read_hex_escape
read_hex_escape-Within n zero value p w = Inside-Within n p w
read_hex_escape-Within n (suc digits) value p w =
    elim (Bool-cases (peek_char p == b'"' || peek_char p == 0)) [
      | inl e ↦ subst (Within n) (sym (escape-incomplete digits value p e)) (
          within n (previous_char (lex_error p incomplete_escape)) (w.last ∷ p.current_char)
            (retreated (lex_error p incomplete_escape) w.last w.earlier w.read_last) w.back_text
            (omega (arith, w.short)))
      | inr e ↦ elim (Option-cases (hex_digit (peek_char p))) [
        | inl h ↦
            subst (Within n)
              (sym (escape-invalid digits value p (previous_char (next_char p)) e (digit-none p h)))
              (lex_error-Within n (previous_char (next_char p)) invalid_hex
                (given_back-Within n p w.text (omega (arith, w.short))))
        | inr (d, h) ↦
            subst (Within n)
              (sym (escape-digit digits value d p (next_char p) e (digit-some p d h)))
              (read_hex_escape-Within n digits (bit_or (value * 16 % 2 ^ 32) d) (next_char p)
                (digit-Inside n d p h w.text (omega (arith, w.short))))
      ]
    ]

-- What a round of the loop keeps.
abbrev pub Stays : ℕ → StringRound → Type 0
Stays n (ended q type s) = Within (suc n) q
Stays n (more q s) = Within n q

read_unicode_escape-Stays :
    (n digits : ℕ) (p : Parser) (s : List ℕ) → Inside n p → Stays n (read_unicode_escape digits p s)
unfolding read_unicode_escape
read_unicode_escape-Stays n digits p s w = read_hex_escape-Within n digits 0 p w

escape-simple :
    (c b : ℕ) (p : Parser) (s : List ℕ)
    → simple_escape c ≡ some b
    → read_escape c p s ≡ more p (s ++ b ∷ [])
unfolding read_escape
escape-simple c b p s e = rw (read_escape, e) refl

escape-other :
    (c : ℕ) (p : Parser) (s : List ℕ)
    → simple_escape c ≡ none
    → read_escape c p s ≡ (
        if c == b'u'
        then read_unicode_escape 4 p s
        else if c == b'U'
        then read_unicode_escape 8 p s
        else if c == b'x'
        then more ((read_hex_escape 2 0 p).1) (s ++ ((read_hex_escape 2 0 p).0 % 2 ^ 8) ∷ [])
        else more (lex_error p invalid_escape) s)
unfolding read_escape
escape-other c p s e = rw (read_escape, e) refl

pub read_escape-Stays :
    (n c : ℕ) (p : Parser) (s : List ℕ) → Inside n p → Stays n (read_escape c p s)
read_escape-Stays n c p s w = elim (Option-cases (simple_escape c)) [
  | inl e ↦ subst (Stays n) (sym (escape-other c p s e)) (
      if-of (Stays n) (c == b'u') _ _ (λ u. read_unicode_escape-Stays n 4 p s w)
        (λ u.
          if-of (Stays n) (c == b'U') _ _ (λ v. read_unicode_escape-Stays n 8 p s w)
            (λ v.
              if-of (Stays n) (c == b'x') _ _ (λ x. read_hex_escape-Within n 2 0 p w)
                (λ x. lex_error-Within n p invalid_escape (Inside-Within n p w)))))
  | inr (b, e) ↦ subst (Stays n) (sym (escape-simple c b p s e)) (Inside-Within n p w)
]
