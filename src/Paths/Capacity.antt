-- ===== src/Paths/Capacity.antt =====
-- The buffer of a path has room for the NUL at its end, and normalising ends.
use wrenegade.Base.{
  ℕ, zero, suc, ◌+◌, ◌*◌, ◌≤◌, ◌<◌, ◌≡◌, refl, inl, inr, Bool, true, false, Bool-cases, ◌&&◌,
  Option, Option-cases, none, some, List, [], ◌∷◌, length, length-append, length-take, get_or, take,
  arith, leb, ltb, ◌==◌, if◌then◌else◌,
}
use mathlib.Core.Option
use wrenegade.Paths.{
  FilePath, doubled, ensure_capacity, append_slice, append_char, append_string, path_new,
  is_separator, last_separator, dir_name, remove_extension_below, remove_extension, join, Split,
  add_doubles, add_components, prefix, rebuilt, normalize, absolute_prefix_length, reverse_onto,
}

-- `chars[length]` is inside the buffer.
abbrev pub HasRoom : FilePath → Type 0
HasRoom path = length path.chars < path.capacity

doubled-enough :
    (fuel new capacity : ℕ) → 0 < new → capacity ≤ new + fuel → capacity ≤ doubled fuel new capacity
unfolding doubled
doubled-enough zero new capacity p h = omega arith
doubled-enough (suc fuel) new capacity p h = elim (Bool-cases (ltb new capacity)) [
  | inl e ↦ rw e (doubled-enough fuel (new * 2) capacity (omega arith) (omega arith))
  | inr e ↦ rw e (ground arith)
]

ensure_capacity_lem :
    (path : FilePath) (n : ℕ)
    → (n < (ensure_capacity path n).capacity) × ((ensure_capacity path n).chars ≡ path.chars)
unfolding ensure_capacity
ensure_capacity_lem path n = elim (Bool-cases (leb (n + 1) path.capacity)) [
  | inl e ↦ rw (e, ensure_capacity) (ground arith, refl)
  | inr e ↦
      rw (e, ensure_capacity)
        (omega (arith, doubled-enough (n + 1) 16 (n + 1) (omega arith) (omega arith)), refl)
]

append_slice-HasRoom : (path : FilePath) (slice : List ℕ) → HasRoom (append_slice path slice)
unfolding append_slice
append_slice-HasRoom path slice =
    let (room, chars) = ensure_capacity_lem path (length path.chars + length slice) in
    rw (length-append, chars) room

append_char-HasRoom : (path : FilePath) (c : ℕ) → HasRoom (append_char path c)
unfolding append_char
append_char-HasRoom path c =
    let (room, chars) = ensure_capacity_lem path (length path.chars + 1) in
    rw (length-append, chars) room

add_doubles-HasRoom :
    (n : ℕ) (path : FilePath) (due : Bool) → HasRoom path → HasRoom (add_doubles path due n)
unfolding add_doubles append_string
add_doubles-HasRoom zero path due h = h
add_doubles-HasRoom (suc n) path due h =
    add_doubles-HasRoom n _ true
      (append_slice-HasRoom (if due then append_char path 47 else path) (46 ∷ 46 ∷ []))

add_components-HasRoom :
    (parts : List (List ℕ)) (path : FilePath) (due : Bool)
    → HasRoom path
    → HasRoom (add_components path due parts)
unfolding add_components
add_components-HasRoom [] path due h = h
add_components-HasRoom (part ∷ parts) path due h =
    add_components-HasRoom parts _ true
      (append_slice-HasRoom (if due then append_char path 47 else path) part)

prefix-HasRoom : (chars : List ℕ) (n : ℕ) → HasRoom (prefix chars n).0
unfolding prefix path_new append_string
prefix-HasRoom chars n =
    let new = append_slice-HasRoom (record { chars = []; capacity = 0 }) [] in
    elim (Bool-cases (ltb 0 (absolute_prefix_length chars))) [
      | inl e ↦ rw e (append_slice-HasRoom _ _)
      | inr e ↦ elim (Bool-cases (ltb 0 n)) [
        | inl f ↦ rw (e, f) (add_doubles-HasRoom n _ false new)
        | inr f ↦ elim (Bool-cases (get_or chars 0 0 == 46 && is_separator (get_or chars 1 0))) [
          | inl g ↦ rw (e, f, g) (append_char-HasRoom _ 46)
          | inr g ↦ rw (e, f, g) new
        ]
      ]
    ]

length-remove_extension_below :
    (i : ℕ) (chars : List ℕ) → length (remove_extension_below chars i) ≤ length chars
unfolding remove_extension_below
length-remove_extension_below zero chars = omega arith
length-remove_extension_below (suc i) chars = elim (Bool-cases (is_separator (get_or chars i 0))) [
  | inl e ↦ rw e (omega arith)
  | inr e ↦ elim (Bool-cases (get_or chars i 0 == 46)) [
    | inl f ↦
        rw (e, f)
          (omega (arith, length-remove_extension_below i (take i chars), length-take i chars))
    | inr f ↦ rw (e, f) (length-remove_extension_below i chars)
  ]
]

-- The operations that a client of a path calls.
pub data Operation : Type 0 where
  directory extension normal : Operation
  joined appended : List ℕ → Operation
  character : ℕ → Operation

unfoldable pub perform : FilePath → Operation → Option FilePath
perform path directory = some (dir_name path)
perform path extension = some (remove_extension path)
perform path normal = normalize path
perform path (joined string) = some (join path string)
perform path (appended string) = some (append_string path string)
perform path (character c) = some (append_char path c)

unfoldable pub perform_all : FilePath → List Operation → Option FilePath
perform_all path [] = some path
perform_all path (o ∷ os) = Option.bind (perform path o) λ path'. perform_all path' os

dir_name-HasRoom : (path : FilePath) → HasRoom path → HasRoom (dir_name path)
unfolding dir_name
dir_name-HasRoom path h = elim (Option-cases (last_separator path.chars (length path.chars))) [
  | inl e ↦ rw (dir_name, e) (omega arith)
  | inr (i, e) ↦ rw (dir_name, e) (omega (arith, length-take i path.chars))
]

rebuilt-HasRoom : (chars : List ℕ) (s : Split) → HasRoom (rebuilt chars s)
unfolding rebuilt
rebuilt-HasRoom chars s =
    let start = prefix chars s.leading_doubles in
    let result = add_components start.0 start.1 (reverse_onto s.components []) in
    elim (Bool-cases (length result.chars == 0)) [
      | inl e ↦ rw e (append_char-HasRoom result 46)
      | inr e ↦
          rw e (add_components-HasRoom _ start.0 start.1 (prefix-HasRoom chars s.leading_doubles))
    ]

HasRoom-bind :
    {A : Type 0} (o : Option A) (f : A → Option FilePath) (path' : FilePath)
    → ((a : A) → o ≡ some a → f a ≡ some path' → HasRoom path')
    → Option.bind o f ≡ some path'
    → HasRoom path'
unfolding Option.bind
HasRoom-bind none f path' h e = ground (arith, e)
HasRoom-bind (some a) f path' h e = h a refl e

HasRoom-some : (path path' : FilePath) → HasRoom path → some path ≡ some path' → HasRoom path'
HasRoom-some path path' h e = let p : path ≡ path' = cc e in rw (← p) h

normalize-HasRoom : (path path' : FilePath) → normalize path ≡ some path' → HasRoom path'
unfolding normalize
normalize-HasRoom path path' e =
    HasRoom-bind _ _ path' (λ s n. HasRoom-some _ path' (rebuilt-HasRoom path.chars s)) e

perform-HasRoom :
    (path path' : FilePath) (o : Operation)
    → HasRoom path
    → perform path o ≡ some path'
    → HasRoom path'
unfolding perform remove_extension join append_string
perform-HasRoom path path' directory h e = HasRoom-some _ path' (dir_name-HasRoom path h) e
perform-HasRoom path path' extension h e =
    HasRoom-some _ path'
      (omega (arith, length-remove_extension_below (length path.chars) path.chars)) e
perform-HasRoom path path' normal h e = normalize-HasRoom path path' e
perform-HasRoom path path' (joined string) h e =
    HasRoom-some _ path' (append_slice-HasRoom _ string) e
perform-HasRoom path path' (appended string) h e =
    HasRoom-some _ path' (append_slice-HasRoom path string) e
perform-HasRoom path path' (character c) h e = HasRoom-some _ path' (append_char-HasRoom path c) e

-- A path that the operations make from one whose buffer has room for its characters and the NUL
-- behind them, one after the other, has such room again: directory name, removal of the
-- extension, normalising where it does not exit, joining, and appending a string or a character.
pub perform_all-HasRoom :
    (os : List Operation) (path path' : FilePath)
    → HasRoom path
    → perform_all path os ≡ some path'
    → HasRoom path'
unfolding perform_all
perform_all-HasRoom [] path path' h e = HasRoom-some path path' h e
perform_all-HasRoom (o ∷ os) path path' h e =
    HasRoom-bind (perform path o) _ path'
      (λ p n. perform_all-HasRoom os p path' (perform-HasRoom path p o h n)) e
