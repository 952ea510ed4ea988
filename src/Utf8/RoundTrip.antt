-- ===== src/Utf8/RoundTrip.antt =====
-- The encoder and the decoder against each other.
use wrenegade.Base.{
  ℕ, ◌+◌, ◌/◌, ◌≤◌, ◌<◌, bit_and, ◌≡◌, refl, inl, inr, some, none, List, [], ◌∷◌, ◌++◌, append-nil,
  arith, length, All, Bool-cases, ltb,
}
use wrenegade.Base.Bits.{agree_below, agree_below→eq, bit_and_7, bit_and_15, bit_and_31}
use wrenegade.Utf8.{encode, encode_num_bytes, decode, decode_rest, decode_sequence}
use wrenegade.Utf8.Encoding.{
  continuation, encode_1, encode_2, encode_3, encode_4, decode_rest-continuation,
}

lead_2_e0 : (x : ℕ) → x < 32 → bit_and (192 + x) 0xe0 ≡ 192
unfolding agree_below
lead_2_e0 = agree_below→eq _ _ 32 refl

lead_3_e0 : (x : ℕ) → x < 16 → bit_and (224 + x) 0xe0 ≡ 224
unfolding agree_below
lead_3_e0 = agree_below→eq _ _ 16 refl

lead_3_f0 : (x : ℕ) → x < 16 → bit_and (224 + x) 0xf0 ≡ 224
unfolding agree_below
lead_3_f0 = agree_below→eq _ _ 16 refl

lead_4_e0 : (x : ℕ) → x < 8 → bit_and (240 + x) 0xe0 ≡ 224
unfolding agree_below
lead_4_e0 = agree_below→eq _ _ 8 refl

lead_4_f0 : (x : ℕ) → x < 8 → bit_and (240 + x) 0xf0 ≡ 240
unfolding agree_below
lead_4_f0 = agree_below→eq _ _ 8 refl

lead_4_f8 : (x : ℕ) → x < 8 → bit_and (240 + x) 0xf8 ≡ 240
unfolding agree_below
lead_4_f8 = agree_below→eq _ _ 8 refl

decode_sequence-enough :
    (value remaining : ℕ) (bytes : List ℕ)
    → remaining ≤ length bytes
    → decode_sequence value remaining bytes ≡ decode_rest remaining bytes value
unfolding decode_sequence
decode_sequence-enough value remaining bytes h = ground arith

module _ (x : ℕ) (bytes : List ℕ) where
  decode_2 : x < 32 → 1 ≤ length bytes → decode ((192 + x) ∷ bytes) ≡ decode_rest 1 bytes x
  unfolding decode
  decode_2 h n =
      let low : bit_and (192 + x) 31 ≡ x = omega (arith, bit_and_31 (192 + x)) in
      rw (← decode_sequence-enough x 1 bytes n) (ground (arith, lead_2_e0 x h, low))

  decode_3 : x < 16 → 2 ≤ length bytes → decode ((224 + x) ∷ bytes) ≡ decode_rest 2 bytes x
  unfolding decode
  decode_3 h n =
      let low : bit_and (224 + x) 15 ≡ x = omega (arith, bit_and_15 (224 + x)) in
      rw (← decode_sequence-enough x 2 bytes n) (ground (arith, lead_3_e0 x h, lead_3_f0 x h, low))

  decode_4 : x < 8 → 3 ≤ length bytes → decode ((240 + x) ∷ bytes) ≡ decode_rest 3 bytes x
  unfolding decode
  decode_4 h n =
      let low : bit_and (240 + x) 7 ≡ x = omega (arith, bit_and_7 (240 + x)) in
      rw (← decode_sequence-enough x 3 bytes n)
        (ground (arith, lead_4_e0 x h, lead_4_f0 x h, lead_4_f8 x h, low))

decode_rest_done : (bytes : List ℕ) (v w : ℕ) → v ≡ w → decode_rest 0 bytes v ≡ some w
unfolding decode_rest
decode_rest_done bytes v w e = rw e

-- The four-byte layout of a number that fits 21 bits is read back whole.
four_bytes : ℕ → List ℕ
four_bytes v =
    (240 + v / 262144) ∷ continuation (v / 4096) ∷ continuation (v / 64) ∷ continuation v ∷ []

decode-four_bytes : (v : ℕ) (rest : List ℕ) → v < 2097152 → decode (four_bytes v ++ rest) ≡ some v
unfolding four_bytes
decode-four_bytes v rest h =
    let bytes = continuation (v / 4096) ∷ continuation (v / 64) ∷ continuation v ∷ rest in
    rw
      (
        decode_4 (v / 262144) bytes (omega arith) (omega arith),
        decode_rest-continuation,
        decode_rest-continuation,
        decode_rest-continuation,
      )
      (decode_rest_done rest _ v (omega arith))

-- The case of a code point by the number of its bytes.
pub data Width (v : ℕ) : Type 0 where
  one : v < 128 → Width v
  two : 128 ≤ v → v < 2048 → Width v
  three : 2048 ≤ v → v < 65536 → Width v
  four : 65536 ≤ v → v < 1114112 → Width v

pub width : (v : ℕ) → v ≤ 0x10ffff → Width v
width v h = elim (Bool-cases (ltb v 128)) [
  | inl a ↦ one (ground arith)
  | inr a ↦ elim (Bool-cases (ltb v 2048)) [
    | inl b ↦ two (ground arith) (ground arith)
    | inr b ↦ elim (Bool-cases (ltb v 65536)) [
      | inl c ↦ three (ground arith) (ground arith)
      | inr c ↦ four (ground arith) (ground arith)
    ]
  ]
]

-- What a successful encoding is: bytes that decode to the code point whatever follows them, as
-- many as announced, and each of them a byte.
pub record Encodes (v : ℕ) (bytes : List ℕ) : Type 0 where
  pub written : encode v ≡ some bytes
  pub read : (rest : List ℕ) → decode (bytes ++ rest) ≡ some v
  pub counted : length bytes ≡ encode_num_bytes v
  pub small : All (λ b. b < 256) bytes

encodes : (v : ℕ) → Width v → (bytes : List ℕ) × Encodes v bytes
unfolding encode_num_bytes
encodes v (one h) = (
  v ∷ [],
  record {
    written = encode_1 v h;
    read = λ rest. unfold decode in ground arith;
    counted = ground arith;
    small = omega arith;
  },
)
encodes v (two l h) = (
  (192 + v / 64) ∷ continuation v ∷ [],
  record {
    written = encode_2 v l h;
    read = λ rest.
        rw
          (
            decode_2 (v / 64) (continuation v ∷ rest) (omega arith) (omega arith),
            decode_rest-continuation,
          )
          (decode_rest_done rest _ v (omega arith));
    counted = ground arith;
    small = omega arith;
  },
)
encodes v (three l h) = (
  (224 + v / 4096) ∷ continuation (v / 64) ∷ continuation v ∷ [],
  record {
    written = encode_3 v l h;
    read = λ rest.
        let bytes = continuation (v / 64) ∷ continuation v ∷ rest in
        rw
          (
            decode_3 (v / 4096) bytes (omega arith) (omega arith),
            decode_rest-continuation,
            decode_rest-continuation,
          )
          (decode_rest_done rest _ v (omega arith));
    counted = ground arith;
    small = omega arith;
  },
)
encodes v (four l h) = (
  four_bytes v,
  record {
    written = unfold four_bytes in encode_4 v l h;
    read = λ rest. decode-four_bytes v rest (omega arith);
    counted = unfold four_bytes in ground arith;
    small = unfold four_bytes in omega arith;
  },
)

-- Every code point up to 0x10ffff is encoded, in as many bytes as the byte count announces, each
-- below 256, and the decoder reads it back from the start of any text that begins with them.
pub encode-Encodes : (v : ℕ) → v ≤ 0x10ffff → (bytes : List ℕ) × Encodes v bytes
encode-Encodes v h = encodes v (width v h)

-- The encoder and its byte count refuse the same numbers: those above 0x10ffff.
pub encode-none : (v : ℕ) → 0x10ffff < v → (encode v ≡ none) × (encode_num_bytes v ≡ 0)
unfolding encode encode_num_bytes
encode-none v h = ground arith

-- For every number above 0x10ffff and below 0x200000 there are four bytes, each below 256, that
-- the decoder accepts and reads as that number, though it has no encoding.
pub decode_beyond :
    (v : ℕ)
    → 0x10ffff < v
    → v < 0x200000
    → (bytes : List ℕ) × (length bytes ≡ 4)
      × All (λ b. b < 256) bytes
      × (decode bytes ≡ some v)
      × (encode v ≡ none)
decode_beyond v l h = (
  four_bytes v,
  unfold four_bytes in refl,
  unfold four_bytes in omega arith,
  rw (append-nil (four_bytes v)) at (decode-four_bytes v [] (omega arith)),
  (encode-none v l).0,
)
