-- ===== src/Strings/CodePoints.antt =====
-- The code point at an index of a string, as a string.
use wrenegade.Base.{
  ℕ, ◌≤◌, ◌<◌, ◌≡◌, refl, ap, ◌∙◌, arith, true, false, some, List, [], ◌∷◌, ◌++◌, length, drop,
  length-append, ltb, ◌==◌,
}
use wrenegade.Utf8.{encode, encode_num_bytes, decode}
use wrenegade.Utf8.RoundTrip.{Encodes, encode-Encodes}
use wrenegade.Strings.{new_string_length, string_from_code_point, string_code_point_at}

drop-append : (xs ys : List ℕ) → drop (length xs) (xs ++ ys) ≡ ys
drop-append [] ys = refl
drop-append (x ∷ xs) ys = drop-append xs ys

encode_num_bytes-positive : (v : ℕ) → v ≤ 0x10ffff → 0 < encode_num_bytes v
unfolding encode_num_bytes
encode_num_bytes-positive v h = ground arith

string_from_code_point_lem :
    (v : ℕ) (bytes : List ℕ)
    → v ≤ 0x10ffff
    → Encodes v bytes
    → string_from_code_point v ≡ some (new_string_length bytes)
unfolding string_from_code_point
string_from_code_point_lem v bytes h e =
    let positive = encode_num_bytes-positive v h in
    let t : (encode_num_bytes v == 0) ≡ false = ground (arith, positive) in
    rw (string_from_code_point, t, e.written) refl

code_point_there :
    (string : List ℕ) (index v : ℕ)
    → ltb index (length string) ≡ true
    → decode (drop index string) ≡ some v
    → string_code_point_at string index ≡ string_from_code_point v
unfolding string_code_point_at
code_point_there string index v t d = rw (string_code_point_at, t, d) refl

inside_text :
    (before bytes behind : List ℕ)
    → 0 < length bytes
    → ltb (length before) (length (before ++ (bytes ++ behind))) ≡ true
inside_text before bytes behind h =
    ground (arith, length-append before (bytes ++ behind), length-append bytes behind)

-- For every code point up to 0x10ffff, in any text that holds its encoding, the string that is
-- made of the code point at the index of the encoding is the encoding, with its hash.
pub string_code_point_at-encode :
    (before behind : List ℕ) (v : ℕ)
    → v ≤ 0x10ffff
    → (bytes : List ℕ) × (encode v ≡ some bytes)
      × (string_code_point_at (before ++ (bytes ++ behind)) (length before)
          ≡ some (new_string_length bytes))
string_code_point_at-encode before behind v h =
    let (bytes, e) = encode-Encodes v h in
    let inside =
      inside_text before bytes behind (omega (arith, encode_num_bytes-positive v h, e.counted)) in
    (
      bytes,
      e.written,
      code_point_there (before ++ (bytes ++ behind)) (length before) v inside
            (ap decode (drop-append before (bytes ++ behind)) ∙ e.read behind)
          ∙ string_from_code_point_lem v bytes h e,
    )
