-- ===== src/Utf8.antt =====
-- lib/wren/src/vm/wren_utils.c: the UTF-8 encoder and decoder. A byte pointer with its length is a
-- list of bytes; an `int` code point is not negative, which the code asserts.
pub mod Encoding
pub mod RoundTrip
pub mod Tests
use wrenegade.Base.{
  ℕ, zero, suc, ◌*◌, ◌/◌, ◌^◌, bit_and, bit_or, Bool, Option, none, some, List, [], ◌∷◌, length,
  ltb, leb, ◌==◌, if◌then◌else◌,
}

-- `wrenUtf8EncodeNumBytes`
unfoldable pub encode_num_bytes : ℕ → ℕ
encode_num_bytes value =
    if leb value 0x7f
    then 1
    else if leb value 0x7ff
    then 2
    else if leb value 0xffff
    then 3
    else if leb value 0x10ffff
    then 4
    else 0

-- `wrenUtf8Encode`: the bytes written. `none` is the `UNREACHABLE()` at the end.
unfoldable pub encode : ℕ → Option (List ℕ)
encode value =
    if leb value 0x7f
    then some (bit_and value 0x7f ∷ [])
    else if leb value 0x7ff
    then some (bit_or 0xc0 (bit_and value 0x7c0 / 2 ^ 6) ∷ bit_or 0x80 (bit_and value 0x3f) ∷ [])
    else if leb value 0xffff
    then some (
        bit_or 0xe0 (bit_and value 0xf000 / 2 ^ 12)
        ∷ bit_or 0x80 (bit_and value 0xfc0 / 2 ^ 6)
        ∷ bit_or 0x80 (bit_and value 0x3f)
        ∷ [])
    else if leb value 0x10ffff
    then some (
        bit_or 0xf0 (bit_and value 0x1c0000 / 2 ^ 18)
        ∷ bit_or 0x80 (bit_and value 0x3f000 / 2 ^ 12)
        ∷ bit_or 0x80 (bit_and value 0xfc0 / 2 ^ 6)
        ∷ bit_or 0x80 (bit_and value 0x3f)
        ∷ [])
    else none

-- The `while (remainingBytes > 0)` loop. The test on `length` has seen to it that the bytes are
-- there, so the list does not run out.
unfoldable pub decode_rest : ℕ → List ℕ → ℕ → Option ℕ
decode_rest zero bytes value = some value
decode_rest (suc remaining) [] value = none
decode_rest (suc remaining) (byte ∷ bytes) value =
    let rest = decode_rest remaining bytes (bit_or (value * 2 ^ 6) (bit_and byte 0x3f)) in
    if bit_and byte 0xc0 == 0x80 then rest else none

-- From the test on `remainingBytes` on.
unfoldable pub decode_sequence : ℕ → ℕ → List ℕ → Option ℕ
unfolding decode_rest
decode_sequence value remaining bytes =
    if ltb (length bytes) remaining then none else decode_rest remaining bytes value

-- `wrenUtf8Decode`; `none` is the -1. A call has at least one byte.
unfoldable pub decode : List ℕ → Option ℕ
unfolding decode_sequence
decode [] = none
decode (byte ∷ bytes) =
    if leb byte 0x7f
    then some byte
    else if bit_and byte 0xe0 == 0xc0
    then decode_sequence (bit_and byte 0x1f) 1 bytes
    else if bit_and byte 0xf0 == 0xe0
    then decode_sequence (bit_and byte 0x0f) 2 bytes
    else if bit_and byte 0xf8 == 0xf0
    then decode_sequence (bit_and byte 0x07) 3 bytes
    else none

-- `wrenUtf8DecodeNumBytes`
unfoldable pub decode_num_bytes : ℕ → ℕ
decode_num_bytes byte =
    if bit_and byte 0xc0 == 0x80
    then 0
    else if bit_and byte 0xf8 == 0xf0
    then 4
    else if bit_and byte 0xf0 == 0xe0
    then 3
    else if bit_and byte 0xe0 == 0xc0
    then 2
    else 1
