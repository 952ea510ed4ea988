-- ===== src/Strings/Tests.antt =====
-- The search at a short text.
use wrenegade.Base.{ℕ, ◌≡◌, ◌++◌, length, refl, some, none, List, [], ◌∷◌, arith}
use mathlib.Core.Option
use wrenegade.Strings.{
  enter_shifts, shift_table, same_bytes, slide, string_find, hash_from, hash_string,
  new_string_length, string_from_byte, string_code_point_at,
}
use wrenegade.Strings.CodePoints.{string_code_point_at-encode}
use wrenegade.Utf8.{decode, decode_sequence, decode_rest, encode}
use wrenegade.Strings.Find.{Finds, string_find-Finds}

run : Unit {0}
unfolding enter_shifts shift_table same_bytes slide string_find hash_from hash_string
run = tt

-- "abcabd"
abbrev haystack : List ℕ
haystack = 97 ∷ 98 ∷ 99 ∷ 97 ∷ 98 ∷ 100 ∷ []

-- "abd"
abbrev needle : List ℕ
needle = 97 ∷ 98 ∷ 100 ∷ []

found : string_find haystack needle 0 ≡ some 3
unfolding run Option.bind
found = refl

-- The byte 0xff is an access behind the table of shifts.
beyond_table : string_find (97 ∷ 255 ∷ []) (97 ∷ []) 1 ≡ none
unfolding run Option.bind
beyond_table = refl

-- The FNV-1a hash of "a".
hash_of_a : hash_string (97 ∷ []) ≡ 0xe40c292c
unfolding run
hash_of_a = refl

string_find-Finds_example :
    (r : ℕ) × (string_find haystack needle 0 ≡ some r) × Finds haystack needle 0 r
string_find-Finds_example =
    string_find-Finds haystack needle (omega arith) (omega arith) (omega arith) 0 (omega arith)
      (omega arith)

-- A byte that starts no sequence stands for itself.
raw_byte : string_code_point_at (97 ∷ 0x80 ∷ []) 1 ≡ some (new_string_length (0x80 ∷ []))
unfolding run decode decode_sequence decode_rest string_from_byte string_code_point_at
    new_string_length
raw_byte = refl

string_code_point_at-encode_example :
    (bytes : List ℕ) × (encode 0x20ac ≡ some bytes)
    × (string_code_point_at (haystack ++ (bytes ++ needle)) (length haystack)
        ≡ some (new_string_length bytes))
string_code_point_at-encode_example =
    string_code_point_at-encode haystack needle 0x20ac (omega arith)
