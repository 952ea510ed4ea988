-- ===== src/Lexer/Literals.antt =====
-- The lexer reads back each string literal.
use wrenegade.Base.{
  ℕ, zero, suc, ◌+◌, ◌<◌, ◌≡◌, refl, sym, ap, ◌∙◌, inl, inr, arith, Bool, false, ◌||◌, Bool-cases,
  some, List, [], ◌∷◌, ◌++◌, length, ◌==◌, if◌then◌else◌, append_assoc, append-nil, length-append,
}
use mathlib.Core.Path.{subst}
use wrenegade.Lexer.{token_string, string, LexError, Token, Parser, make_token}
use wrenegade.Lexer.Strings.{
  more, string_round, read_escape, string_token, read_rounds, read_string,
}
use wrenegade.Lexer.Scan.{Libc, case_of, made, lex_other, lex_char}
use wrenegade.Lexer.Spelling.{reading, break_char, make_token-Made, Lexes}
use wrenegade.Lexer.Numerals.{with_value}

-- How a string is written.
abbrev pub escape_byte : ℕ → List ℕ
escape_byte c =
    if c == b'"' || c == b'\\' || c == b'%'
    then b'\\' ∷ c ∷ []
    else if c == 0
    then b'\\' ∷ b'0' ∷ []
    else c ∷ []

abbrev pub escape : List ℕ → List ℕ
escape [] = []
escape (c ∷ cs) = escape_byte c ++ escape cs

string_round-plain :
    (c : ℕ) (p : Parser) (s : List ℕ)
    → (c == b'"') ≡ false
    → (c == b'\\') ≡ false
    → (c == b'%') ≡ false
    → (c == 0) ≡ false
    → string_round c p s ≡ more p (s ++ c ∷ [])
unfolding string_round
string_round-plain c p s q b m z = rw (string_round, q, z, m, b) refl

-- The line count after a byte of a string.
abbrev counted : ℕ → ℕ → ℕ
counted line c = if c == b'\n' then line + 1 else line

-- The rounds that read one written byte of the string.
length-escape_byte : (c : ℕ) → 0 < length (escape_byte c)
length-escape_byte c = ground arith

module _ (start : List ℕ) (current previous : Token) (errors : List LexError) where
  -- From a state of the loop it comes to another, with a byte more of the string.
  abbrev Advances : ℕ → List ℕ → Type 0
  Advances c written =
      (fuel : ℕ) (before rest s : List ℕ) (line : ℕ)
      → (before' : List ℕ) × (line' : ℕ) × (read_rounds (suc fuel)
            (reading before start (written ++ rest) line current previous errors) s
          ≡ read_rounds fuel (reading before' start rest line' current previous errors)
              (s ++ c ∷ []))

  Advances-plain :
      (c : ℕ)
      → (c == b'"') ≡ false
      → (c == b'\\') ≡ false
      → (c == b'%') ≡ false
      → (c == 0) ≡ false
      → Advances c (c ∷ [])
  unfolding read_rounds
  Advances-plain c q b m z fuel before rest s line = (
    c ∷ before,
    counted line c,
    rw
        (
          read_rounds,
          string_round-plain c
              (reading (c ∷ before) start rest (counted line c) current previous errors) s q b m z,
        )
        refl,
  )

  Advances-quote : Advances b'"' (b'\\' ∷ b'"' ∷ [])
  unfolding read_rounds string_round read_escape
  Advances-quote fuel before rest s line = (_, _, refl)

  Advances-backslash : Advances b'\\' (b'\\' ∷ b'\\' ∷ [])
  unfolding read_rounds string_round read_escape
  Advances-backslash fuel before rest s line = (_, _, refl)

  Advances-percent : Advances b'%' (b'\\' ∷ b'%' ∷ [])
  unfolding read_rounds string_round read_escape
  Advances-percent fuel before rest s line = (_, _, refl)

  Advances-nul : Advances 0 (b'\\' ∷ b'0' ∷ [])
  unfolding read_rounds string_round read_escape
  Advances-nul fuel before rest s line = (_, _, refl)

  advances : (c : ℕ) → Advances c (escape_byte c)
  advances c = elim (Bool-cases (c == b'"')) [
    | inl q ↦
        let same : b'"' ≡ c = ground (arith, q) in
        subst (λ d. Advances d (escape_byte d)) same Advances-quote
    | inr q ↦ elim (Bool-cases (c == b'\\')) [
      | inl b ↦
          let same : b'\\' ≡ c = ground (arith, b) in
          subst (λ d. Advances d (escape_byte d)) same Advances-backslash
      | inr b ↦ elim (Bool-cases (c == b'%')) [
        | inl m ↦
            let same : b'%' ≡ c = ground (arith, m) in
            subst (λ d. Advances d (escape_byte d)) same Advances-percent
        | inr m ↦ elim (Bool-cases (c == 0)) [
          | inl z ↦
              let same : 0 ≡ c = ground (arith, z) in
              subst (λ d. Advances d (escape_byte d)) same Advances-nul
          | inr z ↦ rw (q, b, m, z) (Advances-plain c q b m z)
        ]
      ]
    ]
  ]

  abbrev Reads : List ℕ → Type 0
  Reads bytes =
      (fuel : ℕ) (before rest s : List ℕ) (line : ℕ)
      → length (escape bytes) < fuel
      → (before' : List ℕ) × (line' : ℕ) × (read_rounds fuel
            (reading before start (escape bytes ++ b'"' ∷ rest) line current previous errors) s
          ≡ some (
              string_token (reading before' start rest line' current previous errors) token_string
                (s ++ bytes)))

  read_rounds-Reads : (bytes : List ℕ) → Reads bytes
  unfolding read_rounds string_round
  read_rounds-Reads [] zero before rest s line h = absurd (omega arith)
  read_rounds-Reads [] (suc fuel) before rest s line h = (
    b'"' ∷ before,
    line,
    ap
        (λ t. some (
          string_token (reading (b'"' ∷ before) start rest line current previous errors)
            token_string t))
        (sym (append-nil s)),
  )
  read_rounds-Reads (c ∷ cs) zero before rest s line h = absurd (omega arith)
  read_rounds-Reads (c ∷ cs) (suc fuel) before rest s line h =
      let (before', line', step) = advances c fuel before (escape cs ++ b'"' ∷ rest) s line in
      let (before'', line'', run) =
        read_rounds-Reads cs fuel before' rest (s ++ c ∷ []) line'
          (omega (arith, length-append (escape_byte c) (escape cs), length-escape_byte c)) in
      (
        before'',
        line'',
        ap (λ t. read_rounds (suc fuel) (reading before start t line current previous errors) s)
              (append_assoc (escape_byte c) (escape cs) (b'"' ∷ rest))
            ∙ step
            ∙ run
            ∙ ap
                (λ t. some (
                  string_token (reading before'' start rest line'' current previous errors)
                    token_string t))
                (append_assoc s (c ∷ []) cs),
      )

lex_char-string :
    (libc : Libc) (p q : Parser) → read_string p ≡ some q → lex_char libc b'"' p ≡ some (made q)
unfolding lex_char case_of lex_other
lex_char-string libc p q e = rw e refl

-- A string literal, which is written with escapes.
pub string-Lexes :
    (libc : Libc) (bytes : List ℕ) (b : Bool) (r : List ℕ)
    → Lexes libc
        (b'"' ∷ escape bytes ++ b'"' ∷ [])
        (break_char b ∷ r)
        token_string
        (some (string bytes))
unfolding read_string string_token make_token
string-Lexes libc bytes b r before line current previous errors =
    let rest = break_char b ∷ r in
    let text = b'"' ∷ escape bytes ++ b'"' ∷ [] in
    let (before', line', run) =
      read_rounds-Reads (text ++ rest) current previous errors bytes
        (length (escape bytes ++ b'"' ∷ rest) + 1) before rest [] line
        (omega (arith, length-append (escape bytes) (b'"' ∷ rest))) in
    (
      _,
      lex_char-string libc _ _ (
          ap (λ t. read_string (reading before (text ++ rest) t line current previous errors))
            (append_assoc (escape bytes) (b'"' ∷ []) rest)
          ∙ run),
      with_value _ (string bytes)
          (make_token-Made before' line' (record current { value = string bytes }) previous errors
            text rest token_string)
          refl,
    )
