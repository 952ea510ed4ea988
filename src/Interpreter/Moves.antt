-- ===== src/Interpreter/Moves.antt =====
-- Where the parts of the instructions leave the instruction pointer and the top of the stack.
use wrenegade.Base.{
  ℕ, zero, suc, ◌+◌, ◌-◌, ◌*◌, ◌<◌, ◌≤◌, ◌≡◌, refl, ap, ◌∙◌, inl, inr, arith, true, false,
  Bool-cases, Option, some, List, [], ◌∷◌, ◌++◌, length, length-append, length-set, length-take,
  get_elem?, get_elem?-in, get_or, set, take, ltb, ◌==◌, if◌then◌else◌,
}
use mathlib.Core.Option
use wrenegade.Closures.{open_at, closed, Variables, capture_upvalue, load_upvalue, store_upvalue}
use wrenegade.Closures.Lists.{IsDescending-above, IsValid}
use wrenegade.Closures.Capture.{capture_upvalue-Captures}
use wrenegade.Closures.Close.{discard_from-Keeps}
use wrenegade.Interpreter.{
  Value, instance, function, closure_object, CallFrame, Running, height, push, drop_top, skip, peek,
  push_elem, store_slot, push_upvalue, write_upvalue, store_module_variable, push_field,
  write_field, loop_back, close_top, capture_all, make_closure,
}

-- A step that succeeds, with the pointer and the height that it leaves.
abbrev pub Goes : Option Running → ℕ → ℕ → Type 0
Goes o ip h = (q : Running) × (o ≡ some q) × (q.ip ≡ ip) × (height q ≡ h)

one_more : (xs : List Value) (v : Value) → length (xs ++ v ∷ []) ≡ suc (length xs)
one_more xs v = simp length-append (omega arith)

one_less : (xs : List Value) → 0 < length xs → suc (length (take (length xs - 1) xs)) ≡ length xs
one_less xs l = rw length-take (omega (arith, l))

pub peek-in : (r : Running) → 0 < height r → (v : Value) × (peek r ≡ some v)
peek-in r l = get_elem?-in r.vars.stack (height r - 1) (omega (arith, l))

pub push-Goes : (v : Value) (r : Running) → Goes (some (push v r)) r.ip (suc (height r))
push-Goes v r = (push v r, refl, refl, one_more r.vars.stack v)

pub drop_top-height : (r : Running) → 0 < height r → suc (height (drop_top r)) ≡ height r
drop_top-height r l = one_less r.vars.stack l

pub push_elem-Goes :
    (values : List Value) (i : ℕ) (r : Running)
    → i < length values
    → Goes (push_elem values i r) r.ip (suc (height r))
push_elem-Goes values i r l =
    let (v, e) = get_elem?-in values i l in (push v r, rw e refl, refl, one_more r.vars.stack v)

pub store_slot-Goes :
    (f : CallFrame) (k : ℕ) (r : Running)
    → f.stack_start + k < height r
    → Goes (store_slot f k r) r.ip (height r)
unfolding store_slot Option.bind
store_slot-Goes f k r l =
    let (v, e) = peek-in r (omega (arith, l)) in
    let (old, o) = get_elem?-in r.vars.stack (f.stack_start + k) l in
    (
      record r { vars = record r.vars { stack = set r.vars.stack (f.stack_start + k) v } },
      rw (store_slot, e, o) refl,
      refl,
      length-set r.vars.stack (f.stack_start + k) v,
    )

pub push_upvalue-Goes :
    (f : CallFrame) (b u : ℕ) (v : Value) (r : Running)
    → get_elem? f.captured b ≡ some u
    → load_upvalue r.vars u ≡ some v
    → Goes (push_upvalue f b r) r.ip (suc (height r))
unfolding push_upvalue Option.bind
push_upvalue-Goes f b u v r e l =
    (push v r, rw (push_upvalue, e, l) refl, refl, one_more r.vars.stack v)

pub store_module_variable-Goes :
    (i : ℕ) (r : Running)
    → 0 < height r
    → i < length r.module_variables
    → Goes (store_module_variable i r) r.ip (height r)
unfolding store_module_variable Option.bind
store_module_variable-Goes i r h l =
    let (v, e) = peek-in r h in
    let (old, o) = get_elem?-in r.module_variables i l in
    (
      record r { module_variables = set r.module_variables i v },
      rw (store_module_variable, e, o) refl,
      refl,
      refl,
    )

store_upvalue-height :
    (m : Variables Value) (u : ℕ) (v : Value)
    → u < length m.upvalues
    → (m' : Variables Value) × (store_upvalue m u v ≡ some m') × (length m'.stack ≡ length m.stack)
unfolding store_upvalue Option.bind
store_upvalue-height m u v l =
    let (up, e) = get_elem?-in m.upvalues u l in
    elim up
        as (λ up.
          get_elem? m.upvalues u ≡ some up
          → (m' : Variables Value) × (store_upvalue m u v ≡ some m')
            × (length m'.stack ≡ length m.stack)) [
              | open_at slot ↦ λ e. (
                record m { stack = set m.stack slot v },
                rw (store_upvalue, e) refl,
                length-set m.stack slot v,
              )
              | closed b ↦ λ e. (
                record m { upvalues = set m.upvalues u (closed v) },
                rw (store_upvalue, e) refl,
                refl,
              )
            ]
      e

pub write_upvalue-Goes :
    (f : CallFrame) (b u : ℕ) (r : Running)
    → 0 < height r
    → get_elem? f.captured b ≡ some u
    → u < length r.vars.upvalues
    → Goes (write_upvalue f b r) r.ip (height r)
unfolding write_upvalue Option.bind
write_upvalue-Goes f b u r h e l =
    let (v, o) = peek-in r h in
    let (m, run, same) = store_upvalue-height r.vars u v l in
    (record r { vars = m }, rw (write_upvalue, o, e, run) refl, refl, same)

-- An instance with a field.
abbrev pub HasField : Running → Option Value → ℕ → Type 0
HasField r receiver field =
    (k : ℕ) × (fields : List Value) × (receiver ≡ some (instance k))
    × (get_elem? r.instances k ≡ some fields)
    × (field < length fields)

pub push_field-Goes :
    (k field : ℕ) (fields : List Value) (r : Running)
    → get_elem? r.instances k ≡ some fields
    → field < length fields
    → Goes (push_field (instance k) field r) r.ip (suc (height r))
unfolding push_field Option.bind
push_field-Goes k field fields r e l =
    let (v, o) = get_elem?-in fields field l in
    (push v r, rw (push_field, e, o) refl, refl, one_more r.vars.stack v)

pub write_field-Goes :
    (k field : ℕ) (fields : List Value) (r : Running)
    → 0 < height r
    → get_elem? r.instances k ≡ some fields
    → field < length fields
    → Goes (write_field (instance k) field r) r.ip (height r)
unfolding write_field Option.bind
write_field-Goes k field fields r h e l =
    let (v, o) = peek-in r h in
    let (old, w) = get_elem?-in fields field l in
    (
      record r { instances = set r.instances k (set fields field v) },
      rw (write_field, o, e, w) refl,
      refl,
      refl,
    )

pub loop_back-Goes :
    (offset : ℕ) (r : Running)
    → offset ≤ r.ip
    → Goes (loop_back offset r) (r.ip - offset) (height r)
unfolding loop_back
loop_back-Goes offset r l =
    let near : ltb r.ip offset ≡ false = ground (arith, l) in
    (record r { ip = r.ip - offset }, rw near refl, refl, refl)

pub close_top-Goes :
    (r : Running) (h : ℕ) → IsValid r.vars → suc h ≡ height r → Goes (close_top r) r.ip h
unfolding close_top Option.bind
close_top-Goes r h k e =
    let (v, o) = peek-in r (omega (arith, e)) in
    let (m, run, s, valid, keeps) = discard_from-Keeps r.vars (height r - 1) k (omega arith) in
    (
      record r { vars = m },
      rw (close_top, o, run) refl,
      refl,
      ap length s ∙ rw length-take (omega (arith, e)),
    )

-- The pairs behind a closure's constant name upvalues of the frame and slots below a height.
abbrev pub Pairs : CallFrame → ℕ → ℕ → ℕ → Type 0
Pairs f ip h zero = Unit
Pairs f ip h (suc n) =
    ((get_or f.code ip 0 == 0) ≡ true → get_or f.code (ip + 1) 0 < length f.captured)
    × ((get_or f.code ip 0 == 0) ≡ false → f.stack_start + get_or f.code (ip + 1) 0 < h)
    × Pairs f (ip + 2) h n

pushed-IsValid :
    (m : Variables Value) (v : Value) → IsValid m → IsValid (record m { stack = m.stack ++ v ∷ [] })
pushed-IsValid m v k = record {
  descending =
      IsDescending-above m.upvalues (length m.stack) (length (m.stack ++ v ∷ [])) m.open_upvalues
        (omega (arith, one_more m.stack v)) k.descending;
  complete = k.complete;
}

capture-step :
    (f : CallFrame) (n u : ℕ) (r : Running) (m : Variables Value) (upvalues : List ℕ)
    → (if get_or f.code r.ip 0 == 0
        then Option.map (λ u. (r.vars, u)) (get_elem? f.captured (get_or f.code (r.ip + 1) 0))
        else capture_upvalue r.vars (f.stack_start + get_or f.code (r.ip + 1) 0))
      ≡ some (m, u)
    → capture_all f (suc n) r upvalues
      ≡ capture_all f n (skip 2 (record r { vars = m })) (upvalues ++ u ∷ [])
unfolding capture_all Option.bind
capture-step f n u r m upvalues e = rw (capture_all, e) refl

capture_one :
    (f : CallFrame) (r : Running)
    → IsValid r.vars
    → ((get_or f.code r.ip 0 == 0) ≡ true → get_or f.code (r.ip + 1) 0 < length f.captured)
    → ((get_or f.code r.ip 0 == 0) ≡ false → f.stack_start + get_or f.code (r.ip + 1) 0 < height r)
    → (m : Variables Value) × (u : ℕ) × ((if get_or f.code r.ip 0 == 0
          then Option.map (λ u. (r.vars, u)) (get_elem? f.captured (get_or f.code (r.ip + 1) 0))
          else capture_upvalue r.vars (f.stack_start + get_or f.code (r.ip + 1) 0))
        ≡ some (m, u))
      × IsValid m
      × (m.stack ≡ r.vars.stack)
capture_one f r k old new = elim (Bool-cases (get_or f.code r.ip 0 == 0)) [
  | inl e ↦
      let (u, at) = get_elem?-in f.captured (get_or f.code (r.ip + 1) 0) (old e) in
      (r.vars, u, rw (e, at) refl, k, refl)
  | inr e ↦
      let (m, u, run, c) =
        capture_upvalue-Captures r.vars (f.stack_start + get_or f.code (r.ip + 1) 0) k (new e) in
      (m, u, rw (e, run) refl, c.is_valid, c.stack)
]

capture_all-Goes :
    (f : CallFrame) (n : ℕ) (r : Running) (upvalues : List ℕ) (h : ℕ)
    → IsValid r.vars
    → height r ≡ h
    → Pairs f r.ip h n
    → (q : Running) × (us : List ℕ) × (capture_all f n r upvalues ≡ some (q, us))
      × (q.ip ≡ r.ip + n * 2)
      × (height q ≡ h)
unfolding capture_all
capture_all-Goes f zero r upvalues h k e p = (r, upvalues, refl, omega arith, e)
capture_all-Goes f (suc n) r upvalues h k e (old, new, p) =
    let (m, u, one, valid, same) = capture_one f r k old (λ z. omega (arith, new z, e)) in
    let (q, us, run, i, t) =
      capture_all-Goes f n (skip 2 (record r { vars = m })) (upvalues ++ u ∷ []) h valid
        (ap length same ∙ e) p in
    (q, us, capture-step f n u r m upvalues one ∙ run, omega (arith, i), t)

pub make_closure-Goes :
    (f : CallFrame) (address n : ℕ) (r : Running)
    → IsValid r.vars
    → Pairs f r.ip (suc (height r)) n
    → Goes (make_closure f (function address n) r) (r.ip + n * 2) (suc (height r))
unfolding make_closure
make_closure-Goes f address n r k p =
    let v = closure_object (length r.closures) in
    let (q, us, run, i, t) =
      capture_all-Goes f n (push v r) [] (suc (height r)) (pushed-IsValid r.vars v k)
        (one_more r.vars.stack v) p in
    (record q { closures = q.closures ++ us ∷ [] }, rw run refl, i, t)
