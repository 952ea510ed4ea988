-- ===== src/Utf8/Tests.antt =====
-- The encoder and the decoder on the code points of the repository's string tests.
use wrenegade.Base.{ℕ, ◌<◌, All, ◌≡◌, refl, some, none, List, [], ◌∷◌, arith, length}
use wrenegade.Utf8.{encode, decode}
use wrenegade.Utf8.RoundTrip.{Encodes, encode-Encodes, decode_beyond}

-- U+1F603 takes four bytes.
encode_smiley : encode 0x1f603 ≡ some (0xf0 ∷ 0x9f ∷ 0x98 ∷ 0x83 ∷ [])
unfolding encode
encode_smiley = refl

decode_smiley : decode (0xf0 ∷ 0x9f ∷ 0x98 ∷ 0x83 ∷ 0x21 ∷ []) ≡ some 0x1f603
unfolding decode
decode_smiley = refl

-- A text that ends inside a sequence, and one that starts inside one.
decode_truncated : decode (0xe0 ∷ 0xb2 ∷ []) ≡ none
unfolding decode
decode_truncated = refl

decode_inside : decode (0x9f ∷ 0x98 ∷ []) ≡ none
unfolding decode
decode_inside = refl

-- An overlong sequence is accepted.
decode_overlong : decode (0xc1 ∷ 0xa1 ∷ []) ≡ some b'a'
unfolding decode
decode_overlong = refl

encode-Encodes_example : (bytes : List ℕ) × Encodes 0x20ac bytes
encode-Encodes_example = encode-Encodes 0x20ac (omega arith)

decode_beyond_example :
    (bytes : List ℕ) × (length bytes ≡ 4)
    × All (λ b. b < 256) bytes
    × (decode bytes ≡ some 0x1fffff)
    × (encode 0x1fffff ≡ none)
decode_beyond_example = decode_beyond 0x1fffff (omega arith) (omega arith)
