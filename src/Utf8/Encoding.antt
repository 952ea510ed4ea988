-- ===== src/Utf8/Encoding.antt =====
-- The bytes of a code point as sums, and what the masks of the decoder read from a byte.
use wrenegade.Base.{
  ℕ, suc, ◌+◌, ◌*◌, ◌/◌, ◌%◌, ◌^◌, ◌≤◌, ◌<◌, bit_and, bit_or, ◌≡◌, refl, some, List, [], ◌∷◌, arith,
}
use wrenegade.Base.Bits.{
  agree_below, agree_below→eq, bit_and_shifted, bit_or_disjoint, bit_and_7, bit_and_15, bit_and_31,
  bit_and_63, bit_and_127,
}
use wrenegade.Utf8.{encode, decode_rest}

-- A continuation byte, from the six bits that it carries.
abbrev pub continuation : ℕ → ℕ
continuation x = 128 + x % 64

tail_byte : (x : ℕ) → x < 64 → bit_or 0x80 x ≡ 128 + x
unfolding agree_below
tail_byte = agree_below→eq _ _ 64 refl

lead_2 : (x : ℕ) → x < 32 → bit_or 0xc0 x ≡ 192 + x
unfolding agree_below
lead_2 = agree_below→eq _ _ 32 refl

lead_3 : (x : ℕ) → x < 16 → bit_or 0xe0 x ≡ 224 + x
unfolding agree_below
lead_3 = agree_below→eq _ _ 16 refl

lead_4 : (x : ℕ) → x < 8 → bit_or 0xf0 x ≡ 240 + x
unfolding agree_below
lead_4 = agree_below→eq _ _ 8 refl

tail_0 : (v : ℕ) → bit_or 0x80 (bit_and v 0x3f) ≡ continuation v
tail_0 v = omega (arith, bit_and_63 v, tail_byte (bit_and v 0x3f) (omega (arith, bit_and_63 v)))

tail_6 : (v : ℕ) → bit_or 0x80 (bit_and v 0xfc0 / 2 ^ 6) ≡ continuation (v / 64)
tail_6 v =
    let e : bit_and v 0xfc0 / 64 ≡ v / 64 % 64 =
      omega (arith, bit_and_shifted 6 v 63, bit_and_63 (v / 64)) in
    rw e (tail_byte (v / 64 % 64) (omega arith))

tail_12 : (v : ℕ) → bit_or 0x80 (bit_and v 0x3f000 / 2 ^ 12) ≡ continuation (v / 4096)
tail_12 v =
    let e : bit_and v 0x3f000 / 4096 ≡ v / 4096 % 64 =
      omega (arith, bit_and_shifted 12 v 63, bit_and_63 (v / 4096)) in
    rw e (tail_byte (v / 4096 % 64) (omega arith))

head_2 : (v : ℕ) → v < 2048 → bit_or 0xc0 (bit_and v 0x7c0 / 2 ^ 6) ≡ 192 + v / 64
head_2 v h =
    let e : bit_and v 0x7c0 / 64 ≡ v / 64 =
      omega (arith, bit_and_shifted 6 v 31, bit_and_31 (v / 64)) in
    rw e (lead_2 (v / 64) (omega arith))

head_3 : (v : ℕ) → v < 65536 → bit_or 0xe0 (bit_and v 0xf000 / 2 ^ 12) ≡ 224 + v / 4096
head_3 v h =
    let e : bit_and v 0xf000 / 4096 ≡ v / 4096 =
      omega (arith, bit_and_shifted 12 v 15, bit_and_15 (v / 4096)) in
    rw e (lead_3 (v / 4096) (omega arith))

head_4 : (v : ℕ) → v < 2097152 → bit_or 0xf0 (bit_and v 0x1c0000 / 2 ^ 18) ≡ 240 + v / 262144
head_4 v h =
    let e : bit_and v 0x1c0000 / 262144 ≡ v / 262144 =
      omega (arith, bit_and_shifted 18 v 7, bit_and_7 (v / 262144)) in
    rw e (lead_4 (v / 262144) (omega arith))

-- The four layouts.
pub encode_1 : (v : ℕ) → v < 128 → encode v ≡ some (v ∷ [])
unfolding encode
encode_1 v h = let e : bit_and v 127 ≡ v = omega (arith, bit_and_127 v) in ground (arith, e)

pub encode_2 : (v : ℕ) → 128 ≤ v → v < 2048 → encode v ≡ some ((192 + v / 64) ∷ continuation v ∷ [])
unfolding encode
encode_2 v l h = ground (arith, head_2 v h, tail_0 v)

pub encode_3 :
    (v : ℕ)
    → 2048 ≤ v
    → v < 65536
    → encode v ≡ some ((224 + v / 4096) ∷ continuation (v / 64) ∷ continuation v ∷ [])
unfolding encode
encode_3 v l h = ground (arith, head_3 v h, tail_6 v, tail_0 v)

pub encode_4 :
    (v : ℕ)
    → 65536 ≤ v
    → v < 1114112
    → encode v
      ≡ some (
          (240 + v / 262144)
          ∷ continuation (v / 4096)
          ∷ continuation (v / 64)
          ∷ continuation v
          ∷ [])
unfolding encode
encode_4 v l h = ground (arith, head_4 v (omega arith), tail_12 v, tail_6 v, tail_0 v)

-- What the decoder reads back.
tail_mark : (y : ℕ) → y < 64 → bit_and (128 + y) 0xc0 ≡ 128
unfolding agree_below
tail_mark = agree_below→eq _ _ 64 refl

pub decode_rest-continuation :
    (n v : ℕ) (bytes : List ℕ)
    → (w : ℕ)
    → decode_rest (suc n) (continuation v ∷ bytes) w ≡ decode_rest n bytes (w * 64 + v % 64)
unfolding decode_rest
decode_rest-continuation n v bytes w =
    let low : bit_and (128 + v % 64) 63 ≡ v % 64 = omega (arith, bit_and_63 (128 + v % 64)) in
    rw (tail_mark (v % 64) (omega arith), low, bit_or_disjoint 6 w (v % 64) (omega arith))
