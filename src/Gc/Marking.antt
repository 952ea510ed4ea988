-- ===== src/Gc/Marking.antt =====
-- Graying any references at once: the order of the calls does not matter for what is dark.
use wrenegade.Base.{ℕ, ◌≡◌, refl, ◌∙◌, Option, none, some, List, [], ◌∷◌, ◌++◌}
use wrenegade.Gc.{
  Value, undefined, plain, object, Method, block, other_method, Object, class, closure, fiber, fn,
  foreign, instance_of, list, map, module_object, range, string, upvalue, Marks, gray_obj,
  gray_value, gray_buffer, gray_objs, gray_method, gray_methods, gray_entry, gray_entries,
  blacken_object, CompilerRoots, mark_class, mark_compilers, mark_compiler, Vm, mark_roots,
}

abbrev pub pointer : Option ℕ → List ℕ
pointer none = []
pointer (some p) = p ∷ []

abbrev pub refers : Value → List ℕ
refers undefined = []
refers plain = []
refers (object p) = p ∷ []

abbrev pub pointers : List (Option ℕ) → List ℕ
pointers [] = []
pointers (p ∷ ps) = pointer p ++ pointers ps

abbrev pub refer : List Value → List ℕ
refer [] = []
refer (v ∷ vs) = refers v ++ refer vs

abbrev pub method_refers : List Method → List ℕ
method_refers [] = []
method_refers (block c ∷ xs) = pointer c ++ method_refers xs
method_refers (other_method ∷ xs) = method_refers xs

-- An entry whose key is undefined is not in use.
abbrev pub entry_refers : List (Value × Value) → List ℕ
entry_refers [] = []
entry_refers ((undefined, v) ∷ es) = entry_refers es
entry_refers ((plain, v) ∷ es) = refers v ++ entry_refers es
entry_refers ((object k, v) ∷ es) = k ∷ (refers v ++ entry_refers es)

-- All that the collector follows from an object, which leaves out the class of a foreign object and
-- the module of a function.
unfoldable pub children : Object → List ℕ
children (class metaclass superclass methods name) =
    pointer metaclass ++ (pointer superclass ++ (method_refers methods ++ pointer name))
children (closure f upvalues) = pointer f ++ pointers upvalues
children (fiber frames stack open_upvalues caller error) =
    pointers frames ++ (refer stack ++ (pointers open_upvalues ++ (pointer caller ++ refers error)))
children (fn constants fn_module) = refer constants
children (foreign foreign_class) = []
children (instance_of c fields) = pointer c ++ refer fields
children (list elements) = refer elements
children (map entries) = entry_refers entries
children (module_object variables names name) = refer variables ++ (pointers names ++ pointer name)
children range = []
children string = []
children (upvalue closed) = refers closed

unfoldable pub gray_all : Marks → List ℕ → Marks
gray_all m [] = m
gray_all m (r ∷ rs) = gray_all (gray_obj m (some r)) rs

gray_all-append : (m : Marks) (xs ys : List ℕ) → gray_all m (xs ++ ys) ≡ gray_all (gray_all m xs) ys
unfolding gray_all
gray_all-append m [] ys = refl
gray_all-append m (x ∷ xs) ys = gray_all-append (gray_obj m (some x)) xs ys

gray_obj-gray_all : (m : Marks) (p : Option ℕ) → gray_obj m p ≡ gray_all m (pointer p)
unfolding gray_all gray_obj
gray_obj-gray_all m none = refl
gray_obj-gray_all m (some p) = refl

gray_value-gray_all : (m : Marks) (v : Value) → gray_value m v ≡ gray_all m (refers v)
unfolding gray_all gray_value
gray_value-gray_all m undefined = refl
gray_value-gray_all m plain = refl
gray_value-gray_all m (object p) = refl

gray_objs-gray_all : (m : Marks) (ps : List (Option ℕ)) → gray_objs m ps ≡ gray_all m (pointers ps)
unfolding gray_all gray_objs
gray_objs-gray_all m [] = refl
gray_objs-gray_all m (p ∷ ps) =
    rw (gray_all-append m (pointer p) (pointers ps), ← gray_obj-gray_all m p)
      (gray_objs-gray_all (gray_obj m p) ps)

gray_buffer-gray_all : (m : Marks) (vs : List Value) → gray_buffer m vs ≡ gray_all m (refer vs)
unfolding gray_all gray_buffer
gray_buffer-gray_all m [] = refl
gray_buffer-gray_all m (v ∷ vs) =
    rw (gray_all-append m (refers v) (refer vs), ← gray_value-gray_all m v)
      (gray_buffer-gray_all (gray_value m v) vs)

gray_methods-gray_all :
    (m : Marks) (xs : List Method) → gray_methods m xs ≡ gray_all m (method_refers xs)
unfolding gray_all gray_methods gray_method
gray_methods-gray_all m [] = refl
gray_methods-gray_all m (block c ∷ xs) =
    rw (gray_all-append m (pointer c) (method_refers xs), ← gray_obj-gray_all m c)
      (gray_methods-gray_all (gray_obj m c) xs)
gray_methods-gray_all m (other_method ∷ xs) = gray_methods-gray_all m xs

gray_entries-gray_all :
    (m : Marks) (es : List (Value × Value)) → gray_entries m es ≡ gray_all m (entry_refers es)
unfolding gray_all gray_entries gray_entry gray_value
gray_entries-gray_all m [] = refl
gray_entries-gray_all m ((undefined, v) ∷ es) = gray_entries-gray_all m es
gray_entries-gray_all m ((plain, v) ∷ es) =
    rw (gray_all-append m (refers v) (entry_refers es), ← gray_value-gray_all m v)
      (gray_entries-gray_all (gray_value m v) es)
gray_entries-gray_all m ((object k, v) ∷ es) =
    rw
      (
        gray_all-append (gray_obj m (some k)) (refers v) (entry_refers es),
        ← gray_value-gray_all (gray_obj m (some k)) v,
      )
      (gray_entries-gray_all (gray_value (gray_obj m (some k)) v) es)

ruleset graying = (
  gray_obj-gray_all, gray_value-gray_all, gray_objs-gray_all, gray_buffer-gray_all,
  gray_methods-gray_all, gray_entries-gray_all, gray_all-append,
)

-- Blackening an object of any kind marks and queues exactly what graying the references of that
-- object one after the other does.
pub blacken_object-children :
    (m : Marks) (o : Object) → blacken_object m o ≡ gray_all m (children o)
unfolding blacken_object children
blacken_object-children m (class metaclass superclass methods name) = simp graying
blacken_object-children m (closure f upvalues) = simp graying
blacken_object-children m (fiber frames stack open_upvalues caller error) = simp graying
blacken_object-children m (fn constants fn_module) = simp graying
blacken_object-children m (foreign foreign_class) = unfold gray_all in refl
blacken_object-children m (instance_of c fields) = simp graying
blacken_object-children m (list elements) = simp graying
blacken_object-children m (map entries) = simp graying
blacken_object-children m (module_object variables names name) = simp graying
blacken_object-children m range = unfold gray_all in refl
blacken_object-children m string = unfold gray_all in refl
blacken_object-children m (upvalue closed) = simp graying

abbrev class_refers : Option (List (Option ℕ)) → List ℕ
class_refers none = []
class_refers (some fields) = pointers fields

abbrev chain_refers : List CompilerRoots → List ℕ
chain_refers [] = []
chain_refers (c ∷ cs) =
    pointer c.fn ++ (pointer c.constants ++ (class_refers c.enclosing_class ++ chain_refers cs))

abbrev compiler_refers : Option (Value × Value × List CompilerRoots) → List ℕ
compiler_refers none = []
compiler_refers (some (current, previous, chain)) =
    refers current ++ (refers previous ++ chain_refers chain)

-- What the collector starts from.
unfoldable pub roots : Vm → List ℕ
roots vm =
    pointer vm.modules
    ++ (pointers vm.temp_roots
        ++ (pointer vm.fiber
            ++ (refer vm.handles ++ (compiler_refers vm.compiler ++ pointers vm.method_names))))

mark_class-gray_all :
    (m : Marks) (c : Option (List (Option ℕ))) → mark_class m c ≡ gray_all m (class_refers c)
unfolding gray_all mark_class
mark_class-gray_all m none = refl
mark_class-gray_all m (some fields) = gray_objs-gray_all m fields

mark_compilers-gray_all :
    (m : Marks) (cs : List CompilerRoots) → mark_compilers m cs ≡ gray_all m (chain_refers cs)
unfolding gray_all mark_compilers
mark_compilers-gray_all m [] = refl
mark_compilers-gray_all m (c ∷ cs) =
    mark_compilers-gray_all (mark_class (gray_obj (gray_obj m c.fn) c.constants) c.enclosing_class)
      cs
    ∙ simp (mark_class-gray_all, gray_obj-gray_all, gray_all-append)

mark_compiler-gray_all :
    (m : Marks) (c : Option (Value × Value × List CompilerRoots))
    → mark_compiler m c ≡ gray_all m (compiler_refers c)
unfolding gray_all mark_compiler
mark_compiler-gray_all m none = refl
mark_compiler-gray_all m (some (current, previous, chain)) =
    simp (mark_compilers-gray_all, gray_value-gray_all, gray_all-append)

pub mark_roots-roots : (vm : Vm) → mark_roots vm ≡ gray_all vm.marks (roots vm)
unfolding mark_roots roots
mark_roots-roots vm = simp (mark_compiler-gray_all, graying)
