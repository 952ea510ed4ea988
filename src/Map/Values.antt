-- ===== src/Map/Values.antt =====
-- The values that programs take for the keys of a map (lib/wren/src/vm/wren_value.c): wrenValuesSame,
-- wrenValuesEqual, hashValue and what they call, with NaN tagging. A value is the bits of a number or
-- of a singleton, or the address of an object, and the heap is a function of addresses.
use wrenegade.Base.{ℕ, ◌/◌, ◌%◌, ◌^◌, ◌≡◌, bit_xor, Bool, true, false, not, ◌&&◌, ◌||◌, ltb, ◌==◌}
use wrenegade.Strings.{ObjString}
use wrenegade.Symbols.{string_equals}

-- The objects that hashObject takes. Arity and length of the code of a function are bits of doubles.
pub data KeyObject : Type 0 where
  class_named : ObjString → KeyObject
  fn_with : ℕ → ℕ → KeyObject
  range_of : ℕ → ℕ → Bool → KeyObject
  string_of : ObjString → KeyObject

pub data KeyValue : Type 0 where
  unboxed object_at : ℕ → KeyValue

-- `==` on the bits of doubles: a NaN is equal to nothing, and the two zeros to each other.
abbrev pub is_nan : ℕ → Bool
is_nan a = ltb 0x7ff0000000000000 (a % 2 ^ 63)

abbrev pub is_zero : ℕ → Bool
is_zero a = a == 0 || a == 2 ^ 63

unfoldable pub double_equal : ℕ → ℕ → Bool
double_equal a b = not (is_nan a) && not (is_nan b) && (a == b || is_zero a && is_zero b)

-- `hashBits`, on 32 bits.
unfoldable pub hash_bits : ℕ → ℕ
hash_bits bits =
    let r = bit_xor (bits % 2 ^ 32) (bits / 2 ^ 32 % 2 ^ 32) in
    let s = bit_xor r (bit_xor (r / 2 ^ 20) (r / 2 ^ 12)) in
    bit_xor s (bit_xor (s / 2 ^ 7) (s / 2 ^ 4))

-- `hashObject`, where a class has the hash of its name.
unfoldable pub hash_object : KeyObject → ℕ
hash_object (class_named name) = name.hash
hash_object (fn_with arity count) = bit_xor (hash_bits arity) (hash_bits count)
hash_object (range_of from to is_inclusive) = bit_xor (hash_bits from) (hash_bits to)
hash_object (string_of s) = s.hash

abbrev pub same_bool : Bool → Bool → Bool
same_bool true b = b
same_bool false b = not b

-- The switch of `wrenValuesEqual`, behind the test of the types.
unfoldable pub objects_equal : KeyObject → KeyObject → Bool
objects_equal (range_of from to inclusive) (range_of from' to' inclusive') =
    double_equal from from' && double_equal to to' && same_bool inclusive inclusive'
objects_equal (string_of s) (string_of t) = s.hash == t.hash && string_equals s.value t.value
objects_equal o p = false

module _ (heap : ℕ → KeyObject) where
  -- `hashValue`
  unfoldable pub hash_value : KeyValue → ℕ
  hash_value (unboxed bits) = hash_bits bits
  hash_value (object_at a) = hash_object (heap a)

  -- `wrenValuesEqual`, with `wrenValuesSame` at its head.
  unfoldable pub values_equal : KeyValue → KeyValue → Bool
  values_equal (unboxed a) (unboxed b) = a == b
  values_equal (unboxed a) (object_at b) = false
  values_equal (object_at a) (unboxed b) = false
  values_equal (object_at a) (object_at b) = a == b || objects_equal (heap a) (heap b)

-- No range with an end -0.0, which is equal to 0.0 and has another hash.
abbrev pub IsHashed : KeyObject → Type 0
IsHashed (range_of from to is_inclusive) = ((from == 2 ^ 63) ≡ false) × ((to == 2 ^ 63) ≡ false)
IsHashed o = Unit

abbrev pub IsKey : (ℕ → KeyObject) → KeyValue → Type 0
IsKey heap (unboxed bits) = Unit
IsKey heap (object_at a) = IsHashed (heap a)

pub record MapKey (heap : ℕ → KeyObject) : Type 0 where
  pub value : KeyValue
  pub is_key : IsKey heap value
