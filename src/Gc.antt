-- ===== src/Gc.antt =====
-- Garbage collection: lib/wren/src/vm/wren_value.c from `wrenGrayObj` to `wrenBlackenObjects`, and
-- `wrenCollectGarbage` of wren_vm.c. An address is a number, and NULL is none. The linked list of the
-- open upvalues of a fiber is a list. The count of bytes in use is left out.
pub mod Marking
pub mod Grays
pub mod Loop
pub mod Sweep
pub mod Collect
mod Tests
use wrenegade.Base.{
  ℕ, zero, suc, ◌+◌, ◌*◌, Bool, true, false, Option, none, some, List, [], ◌∷◌, ◌++◌, length, leb,
  ◌==◌, if◌then◌else◌, update,
}
use mathlib.Core.Option

-- A value, as far as the collector looks at it.
pub data Value : Type 0 where
  undefined plain : Value
  object : ℕ → Value

pub data Method : Type 0 where
  block : Option ℕ → Method
  other_method : Method

-- `ObjType`, with what each kind of object refers to; but the class of an object is there only for
-- those that are not of a class of the core library, or for a class, its metaclass.
pub data Object : Type 0 where
  -- the metaclass, the superclass, the methods and the name
  class : Option ℕ → Option ℕ → List Method → Option ℕ → Object
  -- the function and the upvalues
  closure : Option ℕ → List (Option ℕ) → Object
  -- the closures of the frames, the stack, the open upvalues, the caller and the error
  fiber : List (Option ℕ) → List Value → List (Option ℕ) → Option ℕ → Value → Object
  -- the constants, and the module
  fn : List Value → Option ℕ → Object
  -- the class
  foreign : Option ℕ → Object
  -- the class and its fields
  instance_of : Option ℕ → List Value → Object
  list : List Value → Object
  map : List (Value × Value) → Object
  -- the variables, their names, and the name of the module
  module_object : List Value → List (Option ℕ) → Option ℕ → Object
  range string : Object
  -- the value of a closed upvalue
  upvalue : Value → Object

-- `isDark` of every object, and the gray stack with its top first.
pub record Marks : Type 0 where
  pub is_dark : ℕ → Bool
  pub gray : List ℕ
  pub gray_capacity : ℕ

unfoldable pub gray_obj : Marks → Option ℕ → Marks
gray_obj m none = m
gray_obj m (some obj) = if m.is_dark obj then m else record {
  is_dark = update m.is_dark obj true;
  gray = obj ∷ m.gray;
  gray_capacity =
      if leb m.gray_capacity (length m.gray) then length m.gray * 2 else m.gray_capacity;
}

unfoldable pub gray_value : Marks → Value → Marks
gray_value m undefined = m
gray_value m plain = m
gray_value m (object obj) = gray_obj m (some obj)

unfoldable pub gray_buffer : Marks → List Value → Marks
gray_buffer m [] = m
gray_buffer m (v ∷ vs) = gray_buffer (gray_value m v) vs

-- The loops over upvalues, frames and symbol tables.
unfoldable pub gray_objs : Marks → List (Option ℕ) → Marks
gray_objs m [] = m
gray_objs m (p ∷ ps) = gray_objs (gray_obj m p) ps

unfoldable pub gray_method : Marks → Method → Marks
gray_method m (block c) = gray_obj m c
gray_method m other_method = m

unfoldable pub gray_methods : Marks → List Method → Marks
gray_methods m [] = m
gray_methods m (x ∷ xs) = gray_methods (gray_method m x) xs

unfoldable pub gray_entry : Marks → Value × Value → Marks
gray_entry m (undefined, v) = m
gray_entry m (plain, v) = gray_value (gray_value m plain) v
gray_entry m (object k, v) = gray_value (gray_value m (object k)) v

unfoldable pub gray_entries : Marks → List (Value × Value) → Marks
gray_entries m [] = m
gray_entries m (e ∷ es) = gray_entries (gray_entry m e) es

unfoldable pub blacken_object : Marks → Object → Marks
blacken_object m (class metaclass superclass methods name) =
    gray_obj (gray_methods (gray_obj (gray_obj m metaclass) superclass) methods) name
blacken_object m (closure f upvalues) = gray_objs (gray_obj m f) upvalues
blacken_object m (fiber frames stack open_upvalues caller error) =
    gray_value (gray_obj (gray_objs (gray_buffer (gray_objs m frames) stack) open_upvalues) caller)
      error
blacken_object m (fn constants fn_module) = gray_buffer m constants
blacken_object m (foreign foreign_class) = m
blacken_object m (instance_of c fields) = gray_buffer (gray_obj m c) fields
blacken_object m (list elements) = gray_buffer m elements
blacken_object m (map entries) = gray_entries m entries
blacken_object m (module_object variables names name) =
    gray_obj (gray_objs (gray_buffer m variables) names) name
blacken_object m range = m
blacken_object m string = m
blacken_object m (upvalue closed) = gray_value m closed

-- The loop of `wrenBlackenObjects`; none is a dangling pointer, or the end of the fuel.
unfoldable pub blacken_objects : (ℕ → Option Object) → ℕ → Marks → Option Marks
blacken_objects memory zero m = none
blacken_objects memory (suc fuel) m = elim m.gray [
  | [] ↦ some m
  | obj ∷ rest ↦
      Option.bind (memory obj)
        λ o. blacken_objects memory fuel (blacken_object (record m { gray = rest }) o)
]

-- A compiler in the chain: its function and constants, and the fields of its class.
pub record CompilerRoots : Type 0 where
  pub fn : Option ℕ
  pub constants : Option ℕ
  pub enclosing_class : Option (List (Option ℕ))

unfoldable pub mark_class : Marks → Option (List (Option ℕ)) → Marks
mark_class m none = m
mark_class m (some fields) = gray_objs m fields

unfoldable pub mark_compilers : Marks → List CompilerRoots → Marks
mark_compilers m [] = m
mark_compilers m (c ∷ cs) =
    mark_compilers (mark_class (gray_obj (gray_obj m c.fn) c.constants) c.enclosing_class) cs

-- The compiler in use: the values of its two tokens, and the chain from the innermost out.
unfoldable pub mark_compiler : Marks → Option (Value × Value × List CompilerRoots) → Marks
mark_compiler m none = m
mark_compiler m (some (current, previous, chain)) =
    mark_compilers (gray_value (gray_value m current) previous) chain

-- What the collector uses of a `WrenVM`: the list of all objects, what stands at an address, the
-- marks, and the roots.
pub record Vm : Type 0 where
  pub first : List ℕ
  pub memory : ℕ → Option Object
  pub marks : Marks
  pub modules : Option ℕ
  pub temp_roots : List (Option ℕ)
  pub fiber : Option ℕ
  pub handles : List Value
  pub compiler : Option (Value × Value × List CompilerRoots)
  pub method_names : List (Option ℕ)

unfoldable pub mark_roots : Vm → Marks
mark_roots vm =
    gray_objs
      (mark_compiler
        (gray_buffer (gray_obj (gray_objs (gray_obj vm.marks vm.modules) vm.temp_roots) vm.fiber)
          vm.handles)
        vm.compiler)
      vm.method_names

-- The loop that frees the objects that are not dark, and unmarks the others.
unfoldable pub sweep :
    List ℕ → (ℕ → Option Object) → (ℕ → Bool) → List ℕ × (ℕ → Option Object) × (ℕ → Bool)
sweep [] memory is_dark = ([], memory, is_dark)
sweep (obj ∷ next) memory is_dark =
    let freed = sweep next (update memory obj none) is_dark in
    let (kept, memory', is_dark') = sweep next memory (update is_dark obj false) in
    if is_dark obj then (obj ∷ kept, memory', is_dark') else freed

unfoldable pub collect_garbage : Vm → Option Vm
collect_garbage vm =
    Option.bind (blacken_objects vm.memory (length vm.first + 1) (mark_roots vm)) λ m.
      let (first, memory, is_dark) = sweep vm.first vm.memory m.is_dark in
      some (record vm { first = first; memory = memory; marks = record m { is_dark = is_dark } })
