-- ===== src/Strings.antt =====
-- Strings of lib/wren/src/vm/wren_value.c: hashing, search and code points. The
-- characters of a string are numbers below 256, without the NUL at the end.
pub mod Shift
pub mod Find
pub mod CodePoints
mod Tests
use wrenegade.Base.{
  ℕ, zero, suc, ◌+◌, ◌-◌, ◌*◌, ◌%◌, ◌^◌, bit_xor, Bool, true, false, ◌&&◌, Option, none, some, List,
  [], ◌∷◌, ◌++◌, length, take, drop, get_or, get_elem?, set, replicate, ◌==◌, ltb, leb,
  if◌then◌else◌,
}
use mathlib.Core.Option
use wrenegade.Utf8.{encode, encode_num_bytes, decode}

pub record ObjString : Type 0 where
  pub value : List ℕ
  pub hash : ℕ

-- A `char`, which is signed, as an operand of 32 bits.
abbrev pub sign_extended : ℕ → ℕ
sign_extended c = if ltb c 128 then c else c + 2 ^ 32 - 2 ^ 8

-- The loop of `hashString`.
unfoldable pub hash_from : ℕ → List ℕ → ℕ
hash_from hash [] = hash
hash_from hash (c ∷ cs) = hash_from (bit_xor hash (sign_extended c) * 16777619 % 2 ^ 32) cs

unfoldable pub hash_string : List ℕ → ℕ
unfolding hash_from
hash_string value = hash_from 2166136261 value

unfoldable pub new_string_length : List ℕ → ObjString
new_string_length text = record { value = text; hash = hash_string text }

-- `UINT32_MAX`
abbrev pub uint32_max : ℕ
uint32_max = 2 ^ 32 - 1

-- `shift[c]`, of the `UINT8_MAX` entries that the array has; none is an access behind it.
abbrev pub shift_size : ℕ
shift_size = 255

-- The loop that enters the distances of the characters of the needle from its end. It runs over
-- the characters before the last one.
unfoldable pub enter_shifts : ℕ → List ℕ → ℕ → List ℕ → Option (List ℕ)
enter_shifts needle_end [] index shift = some shift
enter_shifts needle_end (c ∷ cs) index shift =
    if ltb c shift_size
    then enter_shifts needle_end cs (index + 1) (set shift c (needle_end - index))
    else none

unfoldable pub shift_table : List ℕ → Option (List ℕ)
shift_table needle =
    let needle_end = length needle - 1 in
    enter_shifts needle_end (take needle_end needle) 0 (replicate shift_size (length needle))

-- `memcmp` of the first bytes at an index of the haystack.
unfoldable pub same_bytes : List ℕ → List ℕ → ℕ → ℕ → Bool
same_bytes haystack needle index zero = true
same_bytes haystack needle index (suc n) =
    get_or haystack (index + n) 0 == get_or needle n 0 && same_bytes haystack needle index n

-- The loop that slides the needle, with fuel; none is an access behind the table of shifts, or the
-- end of the fuel.
unfoldable pub slide : List ℕ → List ℕ → List ℕ → ℕ → ℕ → Option ℕ
slide haystack needle shift zero index = none
slide haystack needle shift (suc fuel) index =
    let needle_end = length needle - 1 in
    let c = get_or haystack (index + needle_end) 0 in
    let further =
      Option.bind (get_elem? shift c)
        λ distance. slide haystack needle shift fuel ((index + distance) % 2 ^ 32) in
    if leb index (length haystack - length needle)
    then if get_or needle needle_end 0 == c && same_bytes haystack needle index needle_end
      then some index
      else further
    else some uint32_max

unfoldable pub string_find : List ℕ → List ℕ → ℕ → Option ℕ
string_find haystack needle start =
    if length needle == 0
    then some start
    else if ltb (length haystack) ((start + length needle) % 2 ^ 32)
    then some uint32_max
    else if leb (length haystack) start
    then some uint32_max
    else Option.bind (shift_table needle)
        λ shift. slide haystack needle shift (length haystack + 1) start

-- `wrenStringFromCodePoint`; none is the failed assertion, for a number without an encoding.
unfoldable pub string_from_code_point : ℕ → Option ObjString
string_from_code_point value =
    let encoded = Option.map new_string_length (encode value) in
    if encode_num_bytes value == 0 then none else encoded

-- `wrenStringFromByte`
unfoldable pub string_from_byte : ℕ → ObjString
string_from_byte value = new_string_length (value ∷ [])

-- `wrenStringCodePointAt`; none is the failed assertion on the index, or that of the code point.
unfoldable pub string_code_point_at : List ℕ → ℕ → Option ObjString
string_code_point_at string index =
    let found : Option ObjString = elim (decode (drop index string)) [
      | none ↦ Option.map string_from_byte (get_elem? string index)
      | some value ↦ string_from_code_point value
    ] in
    if ltb index (length string) then found else none
