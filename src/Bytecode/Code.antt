-- ===== src/Bytecode/Code.antt =====
-- lib/wren/src/vm/wren_opcodes.h and the `Code` of wren_value.h: the instructions of the bytecode,
-- in the order of their numbers, with the effect of each on the stack.
use wrenegade.Base.{ℕ, ◌≡◌, refl, Option, some, List, [], ◌∷◌, get_elem?}
use wrenegade.Base.Int.{ℤ, pos, negsuc}

-- `CODE_NULL` is `null`, and so on.
pub data Code : Type 0 where
  constant null false true load_local_0 load_local_1 load_local_2 load_local_3 : Code
  load_local_4 load_local_5 load_local_6 load_local_7 load_local_8 load_local : Code
  store_local load_upvalue store_upvalue load_module_var store_module_var : Code
  load_field_this store_field_this load_field store_field pop call_0 call_1 call_2 : Code
  call_3 call_4 call_5 call_6 call_7 call_8 call_9 call_10 call_11 call_12 call_13 : Code
  call_14 call_15 call_16 super_0 super_1 super_2 super_3 super_4 super_5 super_6 : Code
  super_7 super_8 super_9 super_10 super_11 super_12 super_13 super_14 super_15 : Code
  super_16 jump loop jump_if and or close_upvalue return closure construct : Code
  foreign_construct class foreign_class method_instance method_static end_module : Code
  import_module import_variable end : Code

-- The enumeration, in order.
abbrev pub all_codes : List Code
all_codes =
    constant ∷ null ∷ false ∷ true ∷ load_local_0 ∷ load_local_1 ∷ load_local_2 ∷ load_local_3
    ∷ load_local_4 ∷ load_local_5 ∷ load_local_6 ∷ load_local_7 ∷ load_local_8 ∷ load_local
    ∷ store_local ∷ load_upvalue ∷ store_upvalue ∷ load_module_var ∷ store_module_var
    ∷ load_field_this ∷ store_field_this ∷ load_field ∷ store_field ∷ pop ∷ call_0 ∷ call_1 ∷ call_2
    ∷ call_3 ∷ call_4 ∷ call_5 ∷ call_6 ∷ call_7 ∷ call_8 ∷ call_9 ∷ call_10 ∷ call_11 ∷ call_12
    ∷ call_13 ∷ call_14 ∷ call_15 ∷ call_16 ∷ super_0 ∷ super_1 ∷ super_2 ∷ super_3 ∷ super_4
    ∷ super_5 ∷ super_6 ∷ super_7 ∷ super_8 ∷ super_9 ∷ super_10 ∷ super_11 ∷ super_12 ∷ super_13
    ∷ super_14 ∷ super_15 ∷ super_16 ∷ jump ∷ loop ∷ jump_if ∷ and ∷ or ∷ close_upvalue ∷ return
    ∷ closure ∷ construct ∷ foreign_construct ∷ class ∷ foreign_class ∷ method_instance
    ∷ method_static ∷ end_module ∷ import_module ∷ import_variable ∷ end ∷ []

-- The number of an instruction in the bytecode.
unfoldable pub to_byte : Code → ℕ
to_byte constant = 0
to_byte null = 1
to_byte false = 2
to_byte true = 3
to_byte load_local_0 = 4
to_byte load_local_1 = 5
to_byte load_local_2 = 6
to_byte load_local_3 = 7
to_byte load_local_4 = 8
to_byte load_local_5 = 9
to_byte load_local_6 = 10
to_byte load_local_7 = 11
to_byte load_local_8 = 12
to_byte load_local = 13
to_byte store_local = 14
to_byte load_upvalue = 15
to_byte store_upvalue = 16
to_byte load_module_var = 17
to_byte store_module_var = 18
to_byte load_field_this = 19
to_byte store_field_this = 20
to_byte load_field = 21
to_byte store_field = 22
to_byte pop = 23
to_byte call_0 = 24
to_byte call_1 = 25
to_byte call_2 = 26
to_byte call_3 = 27
to_byte call_4 = 28
to_byte call_5 = 29
to_byte call_6 = 30
to_byte call_7 = 31
to_byte call_8 = 32
to_byte call_9 = 33
to_byte call_10 = 34
to_byte call_11 = 35
to_byte call_12 = 36
to_byte call_13 = 37
to_byte call_14 = 38
to_byte call_15 = 39
to_byte call_16 = 40
to_byte super_0 = 41
to_byte super_1 = 42
to_byte super_2 = 43
to_byte super_3 = 44
to_byte super_4 = 45
to_byte super_5 = 46
to_byte super_6 = 47
to_byte super_7 = 48
to_byte super_8 = 49
to_byte super_9 = 50
to_byte super_10 = 51
to_byte super_11 = 52
to_byte super_12 = 53
to_byte super_13 = 54
to_byte super_14 = 55
to_byte super_15 = 56
to_byte super_16 = 57
to_byte jump = 58
to_byte loop = 59
to_byte jump_if = 60
to_byte and = 61
to_byte or = 62
to_byte close_upvalue = 63
to_byte return = 64
to_byte closure = 65
to_byte construct = 66
to_byte foreign_construct = 67
to_byte class = 68
to_byte foreign_class = 69
to_byte method_instance = 70
to_byte method_static = 71
to_byte end_module = 72
to_byte import_module = 73
to_byte import_variable = 74
to_byte end = 75

-- The cast `(Code)bytecode[ip]`; `none` for a byte that is no instruction.
unfoldable pub of_byte : ℕ → Option Code
of_byte byte = get_elem? all_codes byte

-- `stackEffects`
unfoldable pub stack_effect : Code → ℤ
stack_effect constant = pos 1
stack_effect null = pos 1
stack_effect false = pos 1
stack_effect true = pos 1
stack_effect load_local_0 = pos 1
stack_effect load_local_1 = pos 1
stack_effect load_local_2 = pos 1
stack_effect load_local_3 = pos 1
stack_effect load_local_4 = pos 1
stack_effect load_local_5 = pos 1
stack_effect load_local_6 = pos 1
stack_effect load_local_7 = pos 1
stack_effect load_local_8 = pos 1
stack_effect load_local = pos 1
stack_effect store_local = pos 0
stack_effect load_upvalue = pos 1
stack_effect store_upvalue = pos 0
stack_effect load_module_var = pos 1
stack_effect store_module_var = pos 0
stack_effect load_field_this = pos 1
stack_effect store_field_this = pos 0
stack_effect load_field = pos 0
stack_effect store_field = negsuc 0
stack_effect pop = negsuc 0
stack_effect call_0 = pos 0
stack_effect call_1 = negsuc 0
stack_effect call_2 = negsuc 1
stack_effect call_3 = negsuc 2
stack_effect call_4 = negsuc 3
stack_effect call_5 = negsuc 4
stack_effect call_6 = negsuc 5
stack_effect call_7 = negsuc 6
stack_effect call_8 = negsuc 7
stack_effect call_9 = negsuc 8
stack_effect call_10 = negsuc 9
stack_effect call_11 = negsuc 10
stack_effect call_12 = negsuc 11
stack_effect call_13 = negsuc 12
stack_effect call_14 = negsuc 13
stack_effect call_15 = negsuc 14
stack_effect call_16 = negsuc 15
stack_effect super_0 = pos 0
stack_effect super_1 = negsuc 0
stack_effect super_2 = negsuc 1
stack_effect super_3 = negsuc 2
stack_effect super_4 = negsuc 3
stack_effect super_5 = negsuc 4
stack_effect super_6 = negsuc 5
stack_effect super_7 = negsuc 6
stack_effect super_8 = negsuc 7
stack_effect super_9 = negsuc 8
stack_effect super_10 = negsuc 9
stack_effect super_11 = negsuc 10
stack_effect super_12 = negsuc 11
stack_effect super_13 = negsuc 12
stack_effect super_14 = negsuc 13
stack_effect super_15 = negsuc 14
stack_effect super_16 = negsuc 15
stack_effect jump = pos 0
stack_effect loop = pos 0
stack_effect jump_if = negsuc 0
stack_effect and = negsuc 0
stack_effect or = negsuc 0
stack_effect close_upvalue = negsuc 0
stack_effect return = pos 0
stack_effect closure = pos 1
stack_effect construct = pos 0
stack_effect foreign_construct = pos 0
stack_effect class = negsuc 0
stack_effect foreign_class = negsuc 0
stack_effect method_instance = negsuc 1
stack_effect method_static = negsuc 1
stack_effect end_module = pos 1
stack_effect import_module = pos 1
stack_effect import_variable = pos 1
stack_effect end = pos 0

-- Reading an instruction's number back gives the instruction, so the numbers are distinct.
pub of_byte-to_byte : (c : Code) → of_byte (to_byte c) ≡ some c
unfolding of_byte to_byte
of_byte-to_byte constant = refl
of_byte-to_byte _ = refl
