-- ===== src/Lexer/Safety.antt =====
-- `nextToken` (wren_compiler.c) stays inside the source, and goes through it to the end.
pub mod Escapes
pub mod Strings
pub mod Numbers
pub mod Rounds
use wrenegade.Base.{
  ℕ, zero, suc, ◌+◌, ◌<◌, ◌≤◌, ◌≡◌, refl, sym, ap, ◌∙◌, ◌⊎◌, inl, inr, arith, Bool, true, false,
  Bool-cases, Option, none, some, List, List-cases, [], ◌∷◌, length, ◌==◌, if◌then◌else◌,
}
use mathlib.Core.Option
use mathlib.Core.Path.{subst}
use wrenegade.Lexer.{TokenType, token_eof, Parser, next_char, advance, is_eof, make_token}
use wrenegade.Lexer.Scan.{Libc, Round, made, skipped, lex_char, lex_rounds, next_token}
use wrenegade.Lexer.Within.{IsText, Within, IsText-tail, within, advanced, make_token-Within}
use wrenegade.Lexer.Safety.Escapes.{Within-weaken}
use wrenegade.Lexer.Safety.Rounds.{Stays, lex_char-Reads}

-- The parser is inside a source still, and it is at the end or has taken a character.
pub record Advances (p q : Parser) : Type 0 where
  pub text : IsText q.current_char
  pub progress : (q.current.type ≡ token_eof) ⊎ (length q.current_char < length p.current_char)

round-eof :
    (libc : Libc) (fuel c : ℕ) (cs : List ℕ) (p : Parser)
    → p.current_char ≡ c ∷ cs
    → (c == 0) ≡ true
    → lex_rounds libc (suc fuel) p ≡ some (make_token (record p { token_start = c ∷ cs }) token_eof)
unfolding lex_rounds
round-eof libc fuel c cs p e z =
    rw (lex_rounds, e, z)
      (ap (λ l. some (make_token (record p { current_char = l; token_start = c ∷ cs }) token_eof))
        e)

-- After `nextChar`.
abbrev started : Parser → ℕ → List ℕ → Parser
started p c cs = advance (record p { token_start = c ∷ cs }) p.current_char

round-made :
    (libc : Libc) (fuel c : ℕ) (cs : List ℕ) (p m : Parser)
    → p.current_char ≡ c ∷ cs
    → (c == 0) ≡ false
    → lex_char libc c (started p c cs) ≡ some (made m)
    → lex_rounds libc (suc fuel) p ≡ some m
unfolding lex_rounds
round-made libc fuel c cs p m e z r = rw (lex_rounds, e, z, r) refl

round-skipped :
    (libc : Libc) (fuel c : ℕ) (cs : List ℕ) (p m : Parser)
    → p.current_char ≡ c ∷ cs
    → (c == 0) ≡ false
    → lex_char libc c (started p c cs) ≡ some (skipped m)
    → lex_rounds libc (suc fuel) p ≡ lex_rounds libc fuel m
unfolding lex_rounds
round-skipped libc fuel c cs p m e z r = rw (lex_rounds, e, z, r) refl

Round-cases : (r : Round) → ((p : Parser) × (r ≡ made p)) ⊎ ((p : Parser) × (r ≡ skipped p))
Round-cases (made p) = inl (p, refl)
Round-cases (skipped p) = inr (p, refl)

eof-Advances :
    (p q : Parser)
    → p.current_char ≡ q.current_char
    → IsText p.current_char
    → Advances p (make_token q token_eof)
unfolding make_token
eof-Advances p q e t = record { text = subst IsText e t; progress = inl refl }

lex_rounds-Advances :
    (libc : Libc) (fuel : ℕ) (p : Parser)
    → IsText p.current_char
    → length p.current_char < fuel
    → (q : Parser) × (lex_rounds libc fuel p ≡ some q) × Advances p q
lex_rounds-Advances libc zero p t l = absurd (omega (arith, l))
lex_rounds-Advances libc (suc fuel) p t l = elim (List-cases p.current_char) [
  | inl e ↦ absurd (subst IsText e t)
  | inr (c, cs, e) ↦ elim (Bool-cases (c == 0)) [
    | inl z ↦ (
      _,
      round-eof libc fuel c cs p e z,
      eof-Advances p (record p { token_start = c ∷ cs }) refl t,
    )
    | inr z ↦
        let inside : Within (length cs) (started p c cs) =
          within (length cs) (started p c cs) cs
            (advanced (record p { token_start = c ∷ cs }) c cs e)
            (IsText-tail c cs z (subst IsText e t)) (omega arith) in
        let shorter : suc (length cs) ≡ length p.current_char = sym (ap length e) in
        let (o, r, s) = lex_char-Reads (length cs) libc c (started p c cs) inside in
        elim (Round-cases o) [
          | inl (m, k) ↦
              let v : Within (length cs) m = subst (Stays (length cs)) k s in
              (
                m,
                round-made libc fuel c cs p m e z (r ∙ ap some k),
                record { text = v.text; progress = inr (omega (arith, v.short, shorter)) },
              )
          | inr (m, k) ↦
              let v : Within (length cs) m = subst (Stays (length cs)) k s in
              let (q, run, a) =
                lex_rounds-Advances libc fuel m v.text (omega (arith, v.short, shorter, l)) in
              (
                q,
                round-skipped libc fuel c cs p m e z (r ∙ ap some k) ∙ run,
                record {
                  text = a.text;
                  progress = elim a.progress [
                    | inl f ↦ inl f
                    | inr f ↦ inr (omega (arith, f, v.short, shorter))
                  ];
                },
              )
        ]
  ]
]

next_token-rounds :
    (libc : Libc) (p : Parser)
    → is_eof p.current.type ≡ false
    → next_token libc p
      ≡ lex_rounds libc (length p.current_char + 1) (record p { previous = p.current })
unfolding next_token
next_token-rounds libc p e = rw (next_token, e) refl

next_token-stays :
    (libc : Libc) (p : Parser)
    → is_eof p.current.type ≡ true
    → next_token libc p ≡ some (record p { previous = p.current })
unfolding next_token
next_token-stays libc p e = rw (next_token, e) refl

eof_type : (t : TokenType) → is_eof t ≡ true → t ≡ token_eof
eof_type token_eof e = refl
eof_type t e = absurd (cc e)

-- From any state in a source whose only NUL is at its end, with no backslash and no percent sign
-- before it, nextToken reads no character behind the NUL and comes to an end; it stays in such a
-- source, and makes the end token or leaves fewer characters than there were
pub next_token-Advances :
    (libc : Libc) (p : Parser)
    → IsText p.current_char
    → (q : Parser) × (next_token libc p ≡ some q) × Advances p q
next_token-Advances libc p t = elim (Bool-cases (is_eof p.current.type)) [
  | inl e ↦ (
    _,
    next_token-stays libc p e,
    record { text = t; progress = inl (eof_type p.current.type e) },
  )
  | inr e ↦
      let (q, run, a) =
        lex_rounds-Advances libc (length p.current_char + 1) (record p { previous = p.current }) t
          (omega arith) in
      (q, next_token-rounds libc p e ∙ run, record { text = a.text; progress = a.progress })
]

-- That many calls of `nextToken`.
abbrev pub calls : Libc → ℕ → Parser → Option Parser
calls libc zero p = some p
calls libc (suc n) p = elim (next_token libc p) [ none ↦ none | some q ↦ calls libc n q ]

calls-step :
    (libc : Libc) (n : ℕ) (p q : Parser)
    → next_token libc p ≡ some q
    → calls libc (suc n) p ≡ calls libc n q
calls-step libc n p q e = rw (calls, e) refl

calls-stay :
    (libc : Libc) (n : ℕ) (p : Parser)
    → p.current.type ≡ token_eof
    → (q : Parser) × (calls libc n p ≡ some q) × (q.current.type ≡ token_eof)
calls-stay libc zero p e = (p, refl, e)
calls-stay libc (suc n) p e =
    let (q, run, eof) = calls-stay libc n (record p { previous = p.current }) e in
    (
      q,
      calls-step libc n p (record p { previous = p.current })
            (next_token-stays libc p (ap is_eof e))
          ∙ run,
      eof,
    )

-- In a source whose only NUL is at its end, with no backslash and no percent sign before it,
-- more calls of nextToken than there are characters left end with the end token
pub calls-end :
    (libc : Libc) (n : ℕ) (p : Parser)
    → IsText p.current_char
    → length p.current_char < n
    → (q : Parser) × (calls libc n p ≡ some q) × (q.current.type ≡ token_eof)
calls-end libc zero p t l = absurd (omega (arith, l))
calls-end libc (suc n) p t l =
    let (q, run, a) = next_token-Advances libc p t in
    let (r, rest, eof) : (r : Parser) × (calls libc n q ≡ some r) × (r.current.type ≡ token_eof) =
      elim a.progress [
        | inl e ↦ calls-stay libc n q e
        | inr s ↦ calls-end libc n q a.text (omega (arith, s, l))
      ] in
    (r, calls-step libc n p q run ∙ rest, eof)
