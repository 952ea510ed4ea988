-- ===== src/Map/Equality.antt =====
-- The laws of equality and hash on the keys of programs: an equivalence, and one hash for equal keys.
use wrenegade.Base.{
  ℕ, ◌^◌, ◌≡◌, refl, sym, ap, ◌∙◌, ◌⊎◌, inl, inr, arith, Bool, true, false, ◌&&◌, ◌||◌, Bool-cases,
  List, ◌==◌,
}
use mathlib.Core.Path.{subst}
use wrenegade.Symbols.{string_equals}
use wrenegade.Symbols.Ensure.{string_equals-same, string_equals_self}
use wrenegade.Map.Keys.{Key}
use wrenegade.Map.Values.{
  KeyObject, class_named, fn_with, range_of, string_of, KeyValue, unboxed, object_at, double_equal,
  hash_bits, hash_object, same_bool, objects_equal, hash_value, values_equal, IsHashed, IsKey,
  MapKey,
}

double_equal_symm : (a b : ℕ) → double_equal a b ≡ true → double_equal b a ≡ true
unfolding double_equal
double_equal_symm a b e = ground (arith, e)

double_equal-chain :
    (a b c : ℕ) → double_equal a b ≡ true → double_equal b c ≡ true → double_equal a c ≡ true
unfolding double_equal
double_equal-chain a b c e f = ground (arith, e, f)

double_equal-same :
    (a b : ℕ) → double_equal a b ≡ true → (a == 2 ^ 63) ≡ false → (b == 2 ^ 63) ≡ false → a ≡ b
unfolding double_equal
double_equal-same a b e n m = ground (arith, e, n, m)

same_bool_symm : (a b : Bool) → same_bool a b ≡ true → same_bool b a ≡ true
same_bool_symm true true e = refl
same_bool_symm true false e = e
same_bool_symm false true e = e
same_bool_symm false false e = refl

same_bool-chain :
    (a b c : Bool) → same_bool a b ≡ true → same_bool b c ≡ true → same_bool a c ≡ true
same_bool-chain true true c e f = f
same_bool-chain true false c e f = absurd (cc e)
same_bool-chain false true c e f = absurd (cc e)
same_bool-chain false false c e f = f

string_equals_symm : (a b : List ℕ) → string_equals a b ≡ true → string_equals b a ≡ true
string_equals_symm a b e =
    subst (λ c. string_equals c a ≡ true) (string_equals-same a b e) (string_equals_self a)

string_equals-chain :
    (a b c : List ℕ)
    → string_equals a b ≡ true
    → string_equals b c ≡ true
    → string_equals a c ≡ true
string_equals-chain a b c e f = subst (λ d. string_equals a d ≡ true) (string_equals-same b c f) e

both : (a b : Bool) → a && b ≡ true → (a ≡ true) × (b ≡ true)
both true b e = (refl, e)
both false b e = absurd (cc e)

and_true : (a b : Bool) → a ≡ true → b ≡ true → a && b ≡ true
and_true a b e f = rw (e, f) refl

objects_equal_symm : (o p : KeyObject) → objects_equal o p ≡ true → objects_equal p o ≡ true
unfolding objects_equal
objects_equal_symm (range_of a b i) (range_of c d j) e =
    let (x, z) = both (double_equal a c && double_equal b d) (same_bool i j) e in
    let (x, y) = both (double_equal a c) (double_equal b d) x in
    and_true _ _ (and_true _ _ (double_equal_symm a c x) (double_equal_symm b d y))
      (same_bool_symm i j z)
objects_equal_symm (string_of s) (string_of t) e =
    let (x, y) = both (s.hash == t.hash) (string_equals s.value t.value) e in
    and_true _ _ (ground (arith, x)) (string_equals_symm s.value t.value y)
objects_equal_symm o p e = absurd (cc e)

objects_equal-chain :
    (o p q : KeyObject)
    → objects_equal o p ≡ true
    → objects_equal p q ≡ true
    → objects_equal o q ≡ true
unfolding objects_equal
objects_equal-chain (range_of a b i) (range_of c d j) (range_of g h k) e f =
    let (x, z) = both (double_equal a c && double_equal b d) (same_bool i j) e in
    let (x, y) = both (double_equal a c) (double_equal b d) x in
    let (u, w) = both (double_equal c g && double_equal d h) (same_bool j k) f in
    let (u, v) = both (double_equal c g) (double_equal d h) u in
    and_true _ _ (and_true _ _ (double_equal-chain a c g x u) (double_equal-chain b d h y v))
      (same_bool-chain i j k z w)
objects_equal-chain (string_of s) (string_of t) (string_of u) e f =
    let (x, y) = both (s.hash == t.hash) (string_equals s.value t.value) e in
    let (v, w) = both (t.hash == u.hash) (string_equals t.value u.value) f in
    and_true _ _ (ground (arith, x, v)) (string_equals-chain s.value t.value u.value y w)
objects_equal-chain (range_of a b i) (range_of c d j) (class_named _) e f = absurd (cc f)
objects_equal-chain (range_of a b i) (range_of c d j) (fn_with _ _) e f = absurd (cc f)
objects_equal-chain (range_of a b i) (range_of c d j) (string_of _) e f = absurd (cc f)
objects_equal-chain (string_of s) (string_of t) (class_named _) e f = absurd (cc f)
objects_equal-chain (string_of s) (string_of t) (fn_with _ _) e f = absurd (cc f)
objects_equal-chain (string_of s) (string_of t) (range_of _ _ _) e f = absurd (cc f)
objects_equal-chain o p q e f = absurd (cc e)

objects_equal-hash :
    (o p : KeyObject)
    → IsHashed o
    → IsHashed p
    → objects_equal o p ≡ true
    → hash_object o ≡ hash_object p
unfolding objects_equal hash_object
objects_equal-hash (range_of a b i) (range_of c d j) (n, m) (n', m') e =
    let (x, z) = both (double_equal a c && double_equal b d) (same_bool i j) e in
    let (x, y) = both (double_equal a c) (double_equal b d) x in
    let from : a ≡ c = double_equal-same a c x n n' in
    let to : b ≡ d = double_equal-same b d y m m' in rw (from, to) refl
objects_equal-hash (string_of s) (string_of t) h k e =
    let (x, y) = both (s.hash == t.hash) (string_equals s.value t.value) e in ground (arith, x)
objects_equal-hash o p h k e = absurd (cc e)

or_cases : (a b : Bool) → a || b ≡ true → (a ≡ true) ⊎ (b ≡ true)
or_cases true b e = inl refl
or_cases false b e = inr e

-- One of the two addresses is as good as the other, or their objects are equal.
same_or_equal :
    (heap : ℕ → KeyObject) (a b : ℕ)
    → (a == b || objects_equal (heap a) (heap b)) ≡ true
    → (a ≡ b) ⊎ (objects_equal (heap a) (heap b) ≡ true)
same_or_equal heap a b e = elim (or_cases (a == b) (objects_equal (heap a) (heap b)) e) [
  | inl s ↦ inl (ground (arith, s))
  | inr s ↦ inr s
]

or_right : (a b : Bool) → b ≡ true → a || b ≡ true
or_right true b e = refl
or_right false b e = e

itself : (a : ℕ) → (a == a) ≡ true
itself a = ground arith

module _ (heap : ℕ → KeyObject) where
  pub values_equal_self : (v : KeyValue) → values_equal heap v v ≡ true
  unfolding values_equal
  values_equal_self (unboxed a) = itself a
  values_equal_self (object_at a) = rw (itself a) refl

  values_equal_symm : (v w : KeyValue) → values_equal heap v w ≡ true → values_equal heap w v ≡ true
  unfolding values_equal
  values_equal_symm (unboxed a) (unboxed b) e = ground (arith, e)
  values_equal_symm (unboxed a) (object_at b) e = e
  values_equal_symm (object_at a) (unboxed b) e = e
  values_equal_symm (object_at a) (object_at b) e = elim (same_or_equal heap a b e) [
    | inl s ↦
        subst (λ c. values_equal heap (object_at c) (object_at a) ≡ true) s
          (values_equal_self (object_at a))
    | inr s ↦ or_right (b == a) _ (objects_equal_symm (heap a) (heap b) s)
  ]

  values_equal-chain :
      (u v w : KeyValue)
      → values_equal heap u v ≡ true
      → values_equal heap v w ≡ true
      → values_equal heap u w ≡ true
  unfolding values_equal
  values_equal-chain (unboxed a) (unboxed b) (unboxed c) e f = ground (arith, e, f)
  values_equal-chain (unboxed a) (unboxed b) (object_at c) e f = f
  values_equal-chain (unboxed a) (object_at b) w e f = absurd (cc e)
  values_equal-chain (object_at a) (unboxed b) w e f = absurd (cc e)
  values_equal-chain (object_at a) (object_at b) (unboxed c) e f = f
  values_equal-chain (object_at a) (object_at b) (object_at c) e f =
      elim (same_or_equal heap a b e) [
        | inl s ↦ subst (λ d. values_equal heap (object_at d) (object_at c) ≡ true) (sym s) f
        | inr s ↦ elim (same_or_equal heap b c f) [
          | inl t ↦ subst (λ d. values_equal heap (object_at a) (object_at d) ≡ true) t e
          | inr t ↦ or_right (a == c) _ (objects_equal-chain (heap a) (heap b) (heap c) s t)
        ]
      ]

  pub values_equal-hash :
      (v w : KeyValue)
      → IsKey heap v
      → IsKey heap w
      → values_equal heap v w ≡ true
      → hash_value heap v ≡ hash_value heap w
  unfolding values_equal hash_value
  values_equal-hash (unboxed a) (unboxed b) h k e =
      let same : a ≡ b = ground (arith, e) in ap hash_bits same
  values_equal-hash (unboxed a) (object_at b) h k e = absurd (cc e)
  values_equal-hash (object_at a) (unboxed b) h k e = absurd (cc e)
  values_equal-hash (object_at a) (object_at b) h k e = elim (same_or_equal heap a b e) [
    | inl s ↦ ap (λ c. hash_object (heap c)) s
    | inr s ↦ objects_equal-hash (heap a) (heap b) h k s
  ]

  pub values_equal_congr :
      (u v w : KeyValue)
      → values_equal heap u v ≡ true
      → values_equal heap u w ≡ values_equal heap v w
  values_equal_congr u v w e = elim (Bool-cases (values_equal heap u w)) [
    | inl f ↦ f ∙ sym (values_equal-chain v u w (values_equal_symm u v e) f)
    | inr f ↦ elim (Bool-cases (values_equal heap v w)) [
      | inl g ↦ absurd (cc (sym f ∙ values_equal-chain u v w e g))
      | inr g ↦ f ∙ sym g
    ]
  ]

-- The keys of programs.
instance abbrev pub map_key : {heap : ℕ → KeyObject} → Key (MapKey heap)
map_key {heap = heap} = record {
  hash = λ k. hash_value heap k.value;
  equal = λ j k. values_equal heap j.value k.value;
  hash_congr = λ j k e. values_equal-hash heap j.value k.value j.is_key k.is_key e;
  equal_congr = λ i j k e. values_equal_congr heap i.value j.value k.value e;
  equal_self = λ k. values_equal_self heap k.value;
}
