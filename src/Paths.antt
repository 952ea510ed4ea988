-- ===== src/Paths.antt =====
-- lib/wren/src/cli/path.c as it compiles without _WIN32. The characters of a path stand without the
-- NUL at their end, which `capacity` counts. A size of a buffer does not wrap around.
pub mod Capacity
pub mod Normalize
mod Tests
use wrenegade.Base.{
  ℕ, zero, suc, ◌+◌, ◌-◌, ◌*◌, Bool, true, false, not, ◌&&◌, ◌||◌, Option, none, some, List, [],
  ◌∷◌, ◌++◌, length, get_or, take, ◌==◌, ltb, leb, if◌then◌else◌,
}
use mathlib.Core.Option

pub record FilePath : Type 0 where
  pub chars : List ℕ
  pub capacity : ℕ

pub data PathType : Type 0 where
  absolute relative simple : PathType

-- `MAX_COMPONENTS`
abbrev pub max_components : ℕ
max_components = 2048

-- `while (newCapacity < capacity) newCapacity *= 2`
unfoldable pub doubled : ℕ → ℕ → ℕ → ℕ
doubled zero new_capacity capacity = new_capacity
doubled (suc fuel) new_capacity capacity =
    let more = doubled fuel (new_capacity * 2) capacity in
    if ltb new_capacity capacity then more else new_capacity

unfoldable pub ensure_capacity : FilePath → ℕ → FilePath
ensure_capacity path capacity =
    if leb (capacity + 1) path.capacity
    then path
    else record path { capacity = doubled (capacity + 1) 16 (capacity + 1) }

unfoldable pub append_slice : FilePath → List ℕ → FilePath
append_slice path slice =
    let grown = ensure_capacity path (length path.chars + length slice) in
    record grown { chars = grown.chars ++ slice }

unfoldable pub append_char : FilePath → ℕ → FilePath
append_char path c =
    let grown = ensure_capacity path (length path.chars + 1) in
    record grown { chars = grown.chars ++ (c ∷ []) }

unfoldable pub append_string : FilePath → List ℕ → FilePath
append_string path string = append_slice path string

unfoldable pub path_new : List ℕ → FilePath
path_new string = append_string (record { chars = []; capacity = 0 }) string

abbrev pub is_separator : ℕ → Bool
is_separator c = c == 47

unfoldable pub absolute_prefix_length : List ℕ → ℕ
absolute_prefix_length path = if is_separator (get_or path 0 0) then 1 else 0

unfoldable pub path_type : List ℕ → PathType
path_type path =
    if ltb 0 (absolute_prefix_length path)
    then absolute
    else if get_or path 0 0 == 46 && is_separator (get_or path 1 0)
        || get_or path 0 0 == 46 && get_or path 1 0 == 46 && is_separator (get_or path 2 0)
    then relative
    else simple

-- The loop of `pathDirName`, below an index.
unfoldable pub last_separator : List ℕ → ℕ → Option ℕ
last_separator chars zero = none
last_separator chars (suc i) =
    let rest = last_separator chars i in if is_separator (get_or chars i 0) then some i else rest

unfoldable pub dir_name : FilePath → FilePath
dir_name path = elim (last_separator path.chars (length path.chars)) [
  | none ↦ record path { chars = [] }
  | some i ↦ record path { chars = take i path.chars }
]

-- The loop of `pathRemoveExtension`, below an index. It goes on after it has cut at a dot.
unfoldable pub remove_extension_below : List ℕ → ℕ → List ℕ
remove_extension_below chars zero = chars
remove_extension_below chars (suc i) =
    let rest = remove_extension_below (if get_or chars i 0 == 46 then take i chars else chars) i in
    if is_separator (get_or chars i 0) then chars else rest

unfoldable pub remove_extension : FilePath → FilePath
remove_extension path = record path {
  chars = remove_extension_below path.chars (length path.chars);
}

unfoldable pub join : FilePath → List ℕ → FilePath
join path string =
    let separated =
      if ltb 0 (length path.chars)
        && not (is_separator (get_or path.chars (length path.chars - 1) 0))
      then append_char path 47
      else path in
    append_string separated string

-- The components that stand, newest first, and the count of ".." before them.
pub record Split : Type 0 where
  pub components : List (List ℕ)
  pub leading_doubles : ℕ

abbrev pub is_dot : List ℕ → Bool
is_dot part = length part == 1 && get_or part 0 0 == 46

abbrev pub is_double : List ℕ → Bool
is_double part = length part == 2 && get_or part 0 0 == 46 && get_or part 1 0 == 46

-- `..` discards the component before it, if there is one.
unfoldable pub walk_out : ℕ → List (List ℕ) → Split
walk_out leading_doubles [] = record { components = []; leading_doubles = leading_doubles + 1 }
walk_out leading_doubles (c ∷ cs) = record { components = cs; leading_doubles = leading_doubles }

-- "Add the current component"; none where the process exits.
unfoldable pub add_component : Split → List ℕ → Option Split
add_component s part =
    if length part == 0
    then some s
    else if is_dot part
    then some s
    else if is_double part
    then some (walk_out s.leading_doubles s.components)
    else if leb max_components (length s.components)
    then none
    else some (record s { components = part ∷ s.components })

-- The characters before the next separator or the end, and those from it on.
unfoldable pub component : List ℕ → List ℕ × List ℕ
component [] = ([], [])
component (c ∷ cs) =
    let (part, rest) = component cs in if is_separator c then ([], c ∷ cs) else (c ∷ part, rest)

unfoldable pub skip_separators : List ℕ → List ℕ
skip_separators [] = []
skip_separators (c ∷ cs) = let rest = skip_separators cs in if is_separator c then rest else c ∷ cs

-- Each round takes a component and the separators behind it, to the end of the string.
unfoldable pub split : ℕ → Split → List ℕ → Option Split
split fuel s [] = some s
split zero s (c ∷ cs) = none
split (suc fuel) s (c ∷ cs) =
    let (part, rest) = component (c ∷ cs) in
    Option.bind (add_component s part) λ s'. split fuel s' (skip_separators rest)

-- "Add any leading `..`": how many are left, and whether a separator is due.
unfoldable pub add_doubles : FilePath → Bool → ℕ → FilePath
add_doubles result needs_separator zero = result
add_doubles result needs_separator (suc n) =
    let separated = if needs_separator then append_char result 47 else result in
    add_doubles (append_string separated (46 ∷ 46 ∷ [])) true n

unfoldable pub add_components : FilePath → Bool → List (List ℕ) → FilePath
add_components result needs_separator [] = result
add_components result needs_separator (c ∷ cs) =
    let separated = if needs_separator then append_char result 47 else result in
    add_components (append_slice separated c) true cs

abbrev pub reverse_onto : List (List ℕ) → List (List ℕ) → List (List ℕ)
reverse_onto [] ys = ys
reverse_onto (x ∷ xs) ys = reverse_onto xs (x ∷ ys)

-- What goes before the components, and whether a separator is due after it.
unfoldable pub prefix : List ℕ → ℕ → FilePath × Bool
prefix chars leading_doubles =
    let result = path_new [] in
    let prefix_length = absolute_prefix_length chars in
    if ltb 0 prefix_length
    then (append_slice result (take prefix_length chars), false)
    else if ltb 0 leading_doubles
    then (add_doubles result false leading_doubles, true)
    else if get_or chars 0 0 == 46 && is_separator (get_or chars 1 0)
    then (append_char result 46, true)
    else (result, false)

-- The path that the split is put together to.
unfoldable pub rebuilt : List ℕ → Split → FilePath
rebuilt chars s =
    let (start, needs_separator) = prefix chars s.leading_doubles in
    let result = add_components start needs_separator (reverse_onto s.components []) in
    if length result.chars == 0 then append_char result 46 else result

unfoldable pub normalize : FilePath → Option FilePath
normalize path =
    Option.bind
      (split (length path.chars + 1) (record { components = []; leading_doubles = 0 }) path.chars)
      λ s. some (rebuilt path.chars s)
