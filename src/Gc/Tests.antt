-- ===== src/Gc/Tests.antt =====
-- A collection with a cycle that is reached and one that is not.
use wrenegade.Base.{ℕ, ◌≡◌, refl, inl, inr, false, Option, none, some, [], ◌∷◌, In, arith, update}
use mathlib.Core.Option
use mathlib.Core.Path.{subst}
use wrenegade.Gc.{
  plain, object, Object, list, module_object, gray_obj, gray_value, gray_buffer, gray_objs,
  blacken_object, blacken_objects, mark_compiler, Vm, mark_roots, sweep, collect_garbage,
}
use wrenegade.Gc.Marking.{children, roots}
use wrenegade.Gc.Loop.{Holds, holds}
use wrenegade.Gc.Collect.{IsHeap, Collects, collect_garbage-Collects}

-- 1 is the map of modules, 2 refers to itself, 3 and 4 refer to one another.
abbrev memory : ℕ → Option Object
memory =
    update
      (update
        (update (update (λ r. none) 4 (some (list (object 3 ∷ [])))) 3
          (some (list (object 4 ∷ []))))
        2 (some (list (plain ∷ object 2 ∷ []))))
      1 (some (module_object (object 2 ∷ []) [] none))

abbrev machine : Vm
machine = record {
  first = 4 ∷ 3 ∷ 2 ∷ 1 ∷ [];
  memory = memory;
  marks = record { is_dark = λ r. false; gray = []; gray_capacity = 4 };
  modules = some 1;
  temp_roots = [];
  fiber = none;
  handles = plain ∷ object 1 ∷ [];
  compiler = none;
  method_names = [];
}

run : Unit {0}
unfolding gray_obj gray_value gray_buffer gray_objs blacken_object blacken_objects mark_compiler
    mark_roots sweep collect_garbage children roots
run = tt

collected : Option.map (λ (vm : Vm). vm.first) (collect_garbage machine) ≡ some (2 ∷ 1 ∷ [])
unfolding run Option.bind
collected = refl

machine-Holds : (r : ℕ) → In r machine.first → Holds machine.memory machine.first r
unfolding run
machine-Holds r (inl e) =
    subst (Holds memory machine.first) e
      (holds _ refl (λ q i. elim i [ inl p ↦ inr (inl p) | inr n ↦ absurd n ]))
machine-Holds r (inr (inl e)) =
    subst (Holds memory machine.first) e
      (holds _ refl (λ q i. elim i [ inl p ↦ inl p | inr n ↦ absurd n ]))
machine-Holds r (inr (inr (inl e))) =
    subst (Holds memory machine.first) e
      (holds _ refl (λ q i. elim i [ inl p ↦ inr (inr (inl p)) | inr n ↦ absurd n ]))
machine-Holds r (inr (inr (inr (inl e)))) =
    subst (Holds memory machine.first) e
      (holds _ refl (λ q i. elim i [ inl p ↦ inr (inr (inl p)) | inr n ↦ absurd n ]))
machine-Holds r (inr (inr (inr (inr i)))) = absurd i

machine-IsHeap : IsHeap machine
unfolding run
machine-IsHeap = record {
  closed = machine-Holds;
  started = λ r i. elim i [
    | inl p ↦ inr (inr (inr (inl p)))
    | inr i' ↦ elim i' [ inl p ↦ inr (inr (inr (inl p))) | inr n ↦ absurd n ]
  ];
  distinct = ground arith;
  white = λ r. refl;
  none_gray = refl;
  capacity = omega arith;
}

collect_garbage-Collects_example :
    (vm' : Vm) × (collect_garbage machine ≡ some vm') × Collects machine vm'
collect_garbage-Collects_example = collect_garbage-Collects machine machine-IsHeap
