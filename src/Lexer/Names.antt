-- ===== src/Lexer/Names.antt =====
-- The lexer reads each reserved word, name and field up to a space or the end of the source.
use wrenegade.Base.{
  ℕ, ◌≡◌, refl, sym, ap, ◌∙◌, inl, inr, arith, Bool, true, false, Bool-cases, none, some, List, [],
  ◌∷◌, ◌++◌, All, ◌==◌,
}
use mathlib.Core.Path.{subst}
use wrenegade.Symbols.{string_equals}
use wrenegade.Symbols.Ensure.{string_equals-same}
use wrenegade.Lexer.{
  TokenType, token_name, token_field, token_static_field, LexError, Token, Parser, is_name,
  first_char, skip_while,
}
use wrenegade.Lexer.Scan.{
  Libc, case_of, made, keywords, keyword_type, is_name_part, read_name, lex_other, lex_word,
  lex_char,
}
use wrenegade.Lexer.Spelling.{reading, break_char, Made, make_token-Made, text_of, Lexes}

-- The characters of a list, put in reverse before others.
abbrev pub rev_onto : List ℕ → List ℕ → List ℕ
rev_onto [] before = before
rev_onto (c ∷ cs) before = rev_onto cs (c ∷ before)

abbrev pub AllPass : (ℕ → Bool) → List ℕ → Type 0
AllPass test cs = All (λ c. test c ≡ true) cs

not_newline : (test : ℕ → Bool) (c : ℕ) → test b'\n' ≡ false → test c ≡ true → (c == b'\n') ≡ false
not_newline test c n t = elim (Bool-cases (c == b'\n')) [
  | inl e ↦ let same : c ≡ b'\n' = ground (arith, e) in cc (sym t ∙ ap test same ∙ n)
  | inr e ↦ e
]

-- A loop over characters that pass a test, up to one that does not.
pub skip_while-AllPass :
    (test : ℕ → Bool) (xs : List ℕ) (stop : ℕ) (r : List ℕ)
    → AllPass test xs
    → test stop ≡ false
    → test b'\n' ≡ false
    → (before start : List ℕ) (line : ℕ) (current previous : Token) (errors : List LexError)
    → skip_while test
        (xs ++ stop ∷ r)
        (reading before start (xs ++ stop ∷ r) line current previous errors)
      ≡ reading (rev_onto xs before) start (stop ∷ r) line current previous errors
unfolding skip_while
skip_while-AllPass test [] stop r a s n before start line current previous errors = rw s refl
skip_while-AllPass test (x ∷ xs) stop r (t, a) s n before start line current previous errors =
    rw (t, not_newline test x n t)
      (skip_while-AllPass test xs stop r a s n (x ∷ before) start line current previous errors)

break_stops : (b : Bool) → is_name_part (break_char b) ≡ false
break_stops true = refl
break_stops false = refl

-- `readName`, after the first character.
read_name-Made :
    (c : ℕ) (cs : List ℕ) (b : Bool) (r : List ℕ) (type : TokenType)
    → AllPass is_name_part cs
    → (before : List ℕ) (line : ℕ) (current previous : Token) (errors : List LexError)
    → Made errors (c ∷ cs) (break_char b ∷ r) (keyword_type keywords (c ∷ cs) type) none (
        read_name
          (reading before
            (c ∷ cs ++ break_char b ∷ r)
            (cs ++ break_char b ∷ r)
            line
            current
            previous
            errors)
          type)
unfolding read_name
read_name-Made c cs b r type a before line current previous errors =
    rw
      (
        skip_while-AllPass is_name_part cs (break_char b) r a (break_stops b) refl before
            (c ∷ cs ++ break_char b ∷ r) line current previous errors,
        text_of (c ∷ cs) (break_char b ∷ r),
      )
      (make_token-Made (rev_onto cs before) line current previous errors (c ∷ cs) (break_char b ∷ r)
        (keyword_type keywords (c ∷ cs) type))

lex_char-letter :
    (libc : Libc) (c : ℕ) (p : Parser)
    → is_name c ≡ true
    → (c == b'_') ≡ false
    → lex_char libc c p ≡ some (made (read_name p token_name))
unfolding lex_char case_of lex_other lex_word
lex_char-letter libc c p n u = ground (arith, n, u)

pub name-Lexes :
    (libc : Libc) (c : ℕ) (cs : List ℕ) (b : Bool) (r : List ℕ)
    → is_name c ≡ true
    → (c == b'_') ≡ false
    → AllPass is_name_part cs
    → Lexes libc (c ∷ cs) (break_char b ∷ r) (keyword_type keywords (c ∷ cs) token_name) none
name-Lexes libc c cs b r n u a before line current previous errors = (
  _,
  lex_char-letter libc c _ n u,
  read_name-Made c cs b r token_name a before line current previous errors,
)

-- No reserved word begins with the character of fields.
keyword_type-field :
    (table : List (List ℕ × TokenType)) (cs : List ℕ) (type : TokenType)
    → All (λ k. (first_char (k.0) == b'_') ≡ false) table
    → keyword_type table (b'_' ∷ cs) type ≡ type
unfolding keyword_type
keyword_type-field [] cs type a = refl
keyword_type-field ((identifier, keyword) ∷ table) cs type (n, a) =
    elim (Bool-cases (string_equals (b'_' ∷ cs) identifier)) [
      | inl e ↦
          let same = string_equals-same (b'_' ∷ cs) identifier e in
          cc (ap (λ (i : List ℕ). first_char i == b'_') same ∙ n)
      | inr e ↦ rw e (keyword_type-field table cs type a)
    ]

field_type : (cs : List ℕ) (type : TokenType) → keyword_type keywords (b'_' ∷ cs) type ≡ type
field_type cs type = keyword_type-field keywords cs type (
    (
      refl,
      (
        refl,
        (
          refl,
          (
            refl,
            (
              refl,
              (
                refl,
                (
                  refl,
                  (
                    refl,
                    (
                      refl,
                      (
                        refl,
                        (refl, (refl, (refl, (refl, (refl, (refl, (refl, (refl, (refl, tt))))))))),
                      ),
                    ),
                  ),
                ),
              ),
            ),
          ),
        ),
      ),
    ))

read_field-Made :
    (cs : List ℕ) (b : Bool) (r : List ℕ) (type : TokenType)
    → AllPass is_name_part cs
    → (before : List ℕ) (line : ℕ) (current previous : Token) (errors : List LexError)
    → Made errors (b'_' ∷ cs) (break_char b ∷ r) type none (
        read_name
          (reading before
            (b'_' ∷ cs ++ break_char b ∷ r)
            (cs ++ break_char b ∷ r)
            line
            current
            previous
            errors)
          type)
read_field-Made cs b r type a before line current previous errors =
    subst
      (λ t. Made errors (b'_' ∷ cs) (break_char b ∷ r) t none (
        read_name
          (reading before (b'_' ∷ cs ++ break_char b ∷ r) (cs ++ break_char b ∷ r) line current
            previous errors)
          type))
      (field_type cs type) (read_name-Made b'_' cs b r type a before line current previous errors)

lex_char-static_field :
    (libc : Libc) (p : Parser)
    → (first_char p.current_char == b'_') ≡ true
    → lex_char libc b'_' p ≡ some (made (read_name p token_static_field))
unfolding lex_char case_of lex_other lex_word
lex_char-static_field libc p t = rw t refl

lex_char-field :
    (libc : Libc) (p : Parser)
    → (first_char p.current_char == b'_') ≡ false
    → lex_char libc b'_' p ≡ some (made (read_name p token_field))
unfolding lex_char case_of lex_other lex_word
lex_char-field libc p t = rw t refl

second_of :
    (cs : List ℕ) (b : Bool) (r : List ℕ)
    → (first_char cs == b'_') ≡ false
    → (first_char (cs ++ break_char b ∷ r) == b'_') ≡ false
second_of [] true r n = refl
second_of [] false r n = refl
second_of (c ∷ cs) b r n = n

-- A field, whose second character is not that of a static field.
pub field-Lexes :
    (libc : Libc) (cs : List ℕ) (b : Bool) (r : List ℕ)
    → (first_char cs == b'_') ≡ false
    → AllPass is_name_part cs
    → Lexes libc (b'_' ∷ cs) (break_char b ∷ r) token_field none
field-Lexes libc cs b r n a before line current previous errors = (
  _,
  lex_char-field libc _ (second_of cs b r n),
  read_field-Made cs b r token_field a before line current previous errors,
)

pub static_field-Lexes :
    (libc : Libc) (cs : List ℕ) (b : Bool) (r : List ℕ)
    → AllPass is_name_part cs
    → Lexes libc (b'_' ∷ b'_' ∷ cs) (break_char b ∷ r) token_static_field none
static_field-Lexes libc cs b r a before line current previous errors = (
  _,
  lex_char-static_field libc _ refl,
  read_field-Made (b'_' ∷ cs) b r token_static_field (refl, a) before line current previous errors,
)
