-- ===== src/Lexer/Keywords.antt =====
-- The lexer reads each reserved word as itself.
use wrenegade.Base.{ℕ, ◌<◌, refl, arith, Bool, none, List, [], ◌∷◌, length}
use wrenegade.Strings.{same_bytes}
use wrenegade.Symbols.{string_equals}
use wrenegade.Lexer.{
  TokenType, token_break, token_class, token_construct, token_else, token_false, token_for,
  token_foreign, token_if, token_import, token_in, token_is, token_null, token_return, token_static,
  token_super, token_this, token_true, token_var, token_while,
}
use wrenegade.Lexer.Scan.{Libc, keyword_type}
use wrenegade.Lexer.Spelling.{keyword_text, break_char, Lexes, Starts}
use wrenegade.Lexer.Names.{name-Lexes}

pub keyword-Lexes :
    (libc : Libc) (t : TokenType) (b : Bool) (r : List ℕ)
    → 0 < length (keyword_text t)
    → Lexes libc (keyword_text t) (break_char b ∷ r) t none
unfolding keyword_type string_equals same_bytes
keyword-Lexes libc token_break b r h =
    name-Lexes libc b'b' (b'r' ∷ b'e' ∷ b'a' ∷ b'k' ∷ []) b r refl refl
      ((refl, (refl, (refl, (refl, tt)))))
keyword-Lexes libc token_class b r h =
    name-Lexes libc b'c' (b'l' ∷ b'a' ∷ b's' ∷ b's' ∷ []) b r refl refl
      ((refl, (refl, (refl, (refl, tt)))))
keyword-Lexes libc token_construct b r h =
    name-Lexes libc b'c' (b'o' ∷ b'n' ∷ b's' ∷ b't' ∷ b'r' ∷ b'u' ∷ b'c' ∷ b't' ∷ []) b r refl refl
      ((refl, (refl, (refl, (refl, (refl, (refl, (refl, (refl, tt)))))))))
keyword-Lexes libc token_else b r h =
    name-Lexes libc b'e' (b'l' ∷ b's' ∷ b'e' ∷ []) b r refl refl ((refl, (refl, (refl, tt))))
keyword-Lexes libc token_false b r h =
    name-Lexes libc b'f' (b'a' ∷ b'l' ∷ b's' ∷ b'e' ∷ []) b r refl refl
      ((refl, (refl, (refl, (refl, tt)))))
keyword-Lexes libc token_for b r h =
    name-Lexes libc b'f' (b'o' ∷ b'r' ∷ []) b r refl refl ((refl, (refl, tt)))
keyword-Lexes libc token_foreign b r h =
    name-Lexes libc b'f' (b'o' ∷ b'r' ∷ b'e' ∷ b'i' ∷ b'g' ∷ b'n' ∷ []) b r refl refl
      ((refl, (refl, (refl, (refl, (refl, (refl, tt)))))))
keyword-Lexes libc token_if b r h = name-Lexes libc b'i' (b'f' ∷ []) b r refl refl ((refl, tt))
keyword-Lexes libc token_import b r h =
    name-Lexes libc b'i' (b'm' ∷ b'p' ∷ b'o' ∷ b'r' ∷ b't' ∷ []) b r refl refl
      ((refl, (refl, (refl, (refl, (refl, tt))))))
keyword-Lexes libc token_in b r h = name-Lexes libc b'i' (b'n' ∷ []) b r refl refl ((refl, tt))
keyword-Lexes libc token_is b r h = name-Lexes libc b'i' (b's' ∷ []) b r refl refl ((refl, tt))
keyword-Lexes libc token_null b r h =
    name-Lexes libc b'n' (b'u' ∷ b'l' ∷ b'l' ∷ []) b r refl refl ((refl, (refl, (refl, tt))))
keyword-Lexes libc token_return b r h =
    name-Lexes libc b'r' (b'e' ∷ b't' ∷ b'u' ∷ b'r' ∷ b'n' ∷ []) b r refl refl
      ((refl, (refl, (refl, (refl, (refl, tt))))))
keyword-Lexes libc token_static b r h =
    name-Lexes libc b's' (b't' ∷ b'a' ∷ b't' ∷ b'i' ∷ b'c' ∷ []) b r refl refl
      ((refl, (refl, (refl, (refl, (refl, tt))))))
keyword-Lexes libc token_super b r h =
    name-Lexes libc b's' (b'u' ∷ b'p' ∷ b'e' ∷ b'r' ∷ []) b r refl refl
      ((refl, (refl, (refl, (refl, tt)))))
keyword-Lexes libc token_this b r h =
    name-Lexes libc b't' (b'h' ∷ b'i' ∷ b's' ∷ []) b r refl refl ((refl, (refl, (refl, tt))))
keyword-Lexes libc token_true b r h =
    name-Lexes libc b't' (b'r' ∷ b'u' ∷ b'e' ∷ []) b r refl refl ((refl, (refl, (refl, tt))))
keyword-Lexes libc token_var b r h =
    name-Lexes libc b'v' (b'a' ∷ b'r' ∷ []) b r refl refl ((refl, (refl, tt)))
keyword-Lexes libc token_while b r h =
    name-Lexes libc b'w' (b'h' ∷ b'i' ∷ b'l' ∷ b'e' ∷ []) b r refl refl
      ((refl, (refl, (refl, (refl, tt)))))
keyword-Lexes libc t b r h = absurd (omega (arith, h))

pub keyword_start : (t : TokenType) → 0 < length (keyword_text t) → Starts (keyword_text t)
keyword_start token_break h = record { character = refl; visible = refl; present = h }
keyword_start token_class h = record { character = refl; visible = refl; present = h }
keyword_start token_construct h = record { character = refl; visible = refl; present = h }
keyword_start token_else h = record { character = refl; visible = refl; present = h }
keyword_start token_false h = record { character = refl; visible = refl; present = h }
keyword_start token_for h = record { character = refl; visible = refl; present = h }
keyword_start token_foreign h = record { character = refl; visible = refl; present = h }
keyword_start token_if h = record { character = refl; visible = refl; present = h }
keyword_start token_import h = record { character = refl; visible = refl; present = h }
keyword_start token_in h = record { character = refl; visible = refl; present = h }
keyword_start token_is h = record { character = refl; visible = refl; present = h }
keyword_start token_null h = record { character = refl; visible = refl; present = h }
keyword_start token_return h = record { character = refl; visible = refl; present = h }
keyword_start token_static h = record { character = refl; visible = refl; present = h }
keyword_start token_super h = record { character = refl; visible = refl; present = h }
keyword_start token_this h = record { character = refl; visible = refl; present = h }
keyword_start token_true h = record { character = refl; visible = refl; present = h }
keyword_start token_var h = record { character = refl; visible = refl; present = h }
keyword_start token_while h = record { character = refl; visible = refl; present = h }
keyword_start t h = absurd (omega (arith, h))
