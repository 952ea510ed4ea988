-- ===== src/Gc/Collect.antt =====
-- A whole collection.
use wrenegade.Base.{
  ℕ, ◌+◌, ◌≤◌, ◌<◌, ◌≡◌, refl, sym, ap, ◌∙◌, inl, inr, Bool, true, false, Bool-cases, Option, none,
  some, List, [], ◌∷◌, length, arith, In, In-cases, IsDistinct,
}
use mathlib.Core.Option
use mathlib.Core.Path.{subst}
use wrenegade.Gc.{Object, Marks, blacken_objects, Vm, mark_roots, sweep, collect_garbage}
use wrenegade.Gc.Marking.{gray_all, roots, mark_roots-roots}
use wrenegade.Gc.Grays.{whites, gray_all-Grays}
use wrenegade.Gc.Loop.{
  Reaches, root, child, Holds, holds, IsMarking, Reaches-first, blacken_objects-IsMarking,
  IsMarking-done,
}
use wrenegade.Gc.Sweep.{dark_of, Sweeps, sweep-Sweeps}

-- Every reference is to an object on the list of all objects, and no object is marked.
pub record IsHeap (vm : Vm) : Type 0 where
  pub closed : (r : ℕ) → In r vm.first → Holds vm.memory vm.first r
  pub started : (r : ℕ) → In r (roots vm) → In r vm.first
  pub distinct : IsDistinct vm.first
  pub white : (r : ℕ) → vm.marks.is_dark r ≡ false
  pub none_gray : vm.marks.gray ≡ []
  pub capacity : 0 < vm.marks.gray_capacity

pub record Collects (vm vm' : Vm) : Type 0 where
  pub heap : IsHeap vm'
  pub kept :
      (r : ℕ) → Reaches vm.memory (roots vm) r → In r vm'.first × (vm'.memory r ≡ vm.memory r)
  pub only : (r : ℕ) → In r vm'.first → Reaches vm.memory (roots vm) r
  pub freed : (r : ℕ) → In r vm.first → (Reaches vm.memory (roots vm) r → ⊥) → vm'.memory r ≡ none
  pub same_roots : roots vm' ≡ roots vm

dark_of-In : (d : ℕ → Bool) (r : ℕ) (xs : List ℕ) → In r (dark_of d xs) → In r xs × (d r ≡ true)
dark_of-In d r [] i = absurd i
dark_of-In d r (x ∷ xs) i = elim (Bool-cases (d x)) [
  | inl e ↦
      let i' : In r (x ∷ dark_of d xs) = rw e at i in
      elim i' [
        | inl p ↦ (inl p, ap d (sym p) ∙ e)
        | inr p ↦ let (a, b) = dark_of-In d r xs p in (inr a, b)
      ]
  | inr e ↦
      let i' : In r (dark_of d xs) = rw e at i in let (a, b) = dark_of-In d r xs i' in (inr a, b)
]

In-dark_of : (d : ℕ → Bool) (r : ℕ) (xs : List ℕ) → In r xs → d r ≡ true → In r (dark_of d xs)
In-dark_of d r [] i e = absurd i
In-dark_of d r (x ∷ xs) (inl p) e = rw (ap d p ∙ e) (inl p)
In-dark_of d r (x ∷ xs) (inr p) e = elim (Bool-cases (d x)) [
  | inl t ↦ rw t (inr (In-dark_of d r xs p e))
  | inr f ↦ rw f (In-dark_of d r xs p e)
]

IsDistinct-dark_of : (d : ℕ → Bool) (xs : List ℕ) → IsDistinct xs → IsDistinct (dark_of d xs)
IsDistinct-dark_of d [] h = tt
IsDistinct-dark_of d (x ∷ xs) (n, h) = elim (Bool-cases (d x)) [
  | inl e ↦ rw e (λ i. n (dark_of-In d x xs i).0, IsDistinct-dark_of d xs h)
  | inr e ↦ rw e (IsDistinct-dark_of d xs h)
]

whites-le_length : (first : List ℕ) (d : ℕ → Bool) → whites first d ≤ length first
whites-le_length [] d = omega arith
whites-le_length (x ∷ xs) d = ground (arith, whites-le_length xs d)

-- The marks of a whole collection, before the sweep.
data Marked (vm : Vm) : Type 0 where
  marked :
      (m : Marks)
      → blacken_objects vm.memory (length vm.first + 1) (mark_roots vm) ≡ some m
      → ((r : ℕ) → m.is_dark r ≡ true → Reaches vm.memory (roots vm) r)
      → ((r : ℕ) → Reaches vm.memory (roots vm) r → m.is_dark r ≡ true)
      → m.gray ≡ []
      → 0 < m.gray_capacity
      → Marked vm

start-IsMarking :
    (vm : Vm) → IsHeap vm → IsMarking vm.memory vm.first (roots vm) (gray_all vm.marks (roots vm))
start-IsMarking vm h =
    let g = gray_all-Grays vm.first vm.marks (roots vm) h.started in
    let not_dark = λ (r : ℕ) (d : vm.marks.is_dark r ≡ true). ◌∙◌ {A = Bool} (sym (h.white r)) d in
    record {
      sound = λ r d. elim (g.only r d) [ inl p ↦ absurd (cc (not_dark r p)) | inr p ↦ root r p ];
      black = λ r d. elim (g.stacks r d) [ inl p ↦ absurd (cc (not_dark r p)) | inr p ↦ inl p ];
      gray_dark =
          λ r i. elim (g.gray_dark r i) [ inl p ↦ absurd (subst (In r) h.none_gray p) | inr p ↦ p ];
      room = (g.capacity (omega (arith, ap length h.none_gray)) h.capacity).0;
      room_pos = (g.capacity (omega (arith, ap length h.none_gray)) h.capacity).1;
    }

marking : (vm : Vm) → IsHeap vm → Marked vm
marking vm h =
    let g = gray_all-Grays vm.first vm.marks (roots vm) h.started in
    let (m, run, i, none_left, keeps) =
      blacken_objects-IsMarking vm.memory vm.first (roots vm) h.closed h.started
        (length vm.first + 1) (gray_all vm.marks (roots vm))
        (omega
          (arith, g.measure, whites-le_length vm.first vm.marks.is_dark, ap length h.none_gray))
        (start-IsMarking vm h) in
    marked m (rw (mark_roots-roots vm) run) i.sound
      (IsMarking-done vm.memory vm.first (roots vm) h.closed h.started m i none_left
        (λ r s. keeps r (g.darkens r s)))
      none_left i.room_pos

swept : Vm → Marks → List ℕ × (ℕ → Option Object) × (ℕ → Bool) → Vm
swept vm m s = record vm { first = s.0; memory = s.1; marks = record m { is_dark = s.2 } }

swept-Collects :
    (vm : Vm) (m : Marks)
    → IsHeap vm
    → ((r : ℕ) → m.is_dark r ≡ true → Reaches vm.memory (roots vm) r)
    → ((r : ℕ) → Reaches vm.memory (roots vm) r → m.is_dark r ≡ true)
    → m.gray ≡ []
    → 0 < m.gray_capacity
    → (s : List ℕ × (ℕ → Option Object) × (ℕ → Bool)) → Sweeps vm.first vm.memory m.is_dark s
    → Collects vm (swept vm m s)
unfolding swept roots
swept-Collects vm m h sound complete none_left room s w =
    let first = Reaches-first vm.memory vm.first (roots vm) h.closed h.started in
    let same = λ (r : ℕ) (p : Reaches vm.memory (roots vm) r). w.stays r (inl (complete r p)) in
    let dark = λ (r : ℕ) (i : In r s.0). dark_of-In m.is_dark r vm.first (subst (In r) w.kept i) in
    let keep = λ (r : ℕ) (p : Reaches vm.memory (roots vm) r).
      subst (In r) (sym w.kept) (In-dark_of m.is_dark r vm.first (first r p) (complete r p)) in
    record {
      heap = record {
        closed = λ r i.
            let reached = sound r (dark r i).1 in
            elim (h.closed r (first r reached)) [
              | holds o e c ↦ holds o (same r reached ∙ e) (λ q x. keep q (child q r o reached e x))
            ];
        started = λ r i. keep r (root r i);
        distinct = subst IsDistinct (sym w.kept) (IsDistinct-dark_of m.is_dark vm.first h.distinct);
        white = λ r. elim (In-cases r vm.first) [
          | inl i ↦ w.unmarked r i
          | inr n ↦ w.other_marks r n ∙ elim (Bool-cases (m.is_dark r)) [
            | inl d ↦ absurd (n (first r (sound r d)))
            | inr d ↦ d
          ]
        ];
        none_gray = none_left;
        capacity = room;
      };
      kept = λ r p. (keep r p, same r p);
      only = λ r i. sound r (dark r i).1;
      freed = λ r i n.
          w.freed r i
            (elim (Bool-cases (m.is_dark r)) [ inl d ↦ absurd (n (sound r d)) | inr d ↦ d ]);
      same_roots = refl;
    }

-- On a heap whose objects are listed once, unmarked and refer only to one another by the
-- references that the collector follows (which leave out the class of a foreign object and the
-- module of a function), whose roots are among them, and whose gray stack has a capacity above
-- 0, the collection ends; it keeps exactly the objects that these references reach from the
-- roots, unchanged, frees the others, leaves the roots as they were, and leaves such a heap
-- again, ready for the next collection
pub collect_garbage-Collects :
    (vm : Vm) → IsHeap vm → (vm' : Vm) × (collect_garbage vm ≡ some vm') × Collects vm vm'
unfolding collect_garbage Option.bind swept
collect_garbage-Collects vm h = elim (marking vm h) [
  | marked m run sound complete none_left room ↦
      let w = sweep-Sweeps vm.first vm.memory m.is_dark h.distinct in
      (
        swept vm m (sweep vm.first vm.memory m.is_dark),
        rw (run, collect_garbage) refl,
        swept-Collects vm m h sound complete none_left room _ w,
      )
]
