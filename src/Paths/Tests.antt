-- ===== src/Paths/Tests.antt =====
-- The theorems on paths at small paths.
use wrenegade.Base.{◌≡◌, refl, some, List, [], ◌∷◌, arith}
use mathlib.Core.Option
use wrenegade.Paths.{
  FilePath, doubled, ensure_capacity, append_slice, append_char, append_string, path_new,
  absolute_prefix_length, last_separator, dir_name, remove_extension_below, remove_extension, join,
  walk_out, add_component, component, skip_separators, split, add_doubles, add_components, prefix,
  rebuilt, normalize,
}
use wrenegade.Paths.Capacity.{
  HasRoom, Operation, directory, extension, normal, joined, character, perform, perform_all,
  perform_all-HasRoom,
}
use wrenegade.Paths.Normalize.{normalize-ends}

run : Unit {0}
unfolding doubled ensure_capacity append_slice append_char append_string path_new
    absolute_prefix_length last_separator dir_name remove_extension_below remove_extension join
    walk_out add_component component skip_separators split add_doubles add_components prefix rebuilt
    normalize perform perform_all Option.bind
run = tt

-- "../a//./b/../c"
abbrev long_path : FilePath
long_path = record {
  chars = 46 ∷ 46 ∷ 47 ∷ 97 ∷ 47 ∷ 47 ∷ 46 ∷ 47 ∷ 98 ∷ 47 ∷ 46 ∷ 46 ∷ 47 ∷ 99 ∷ [];
  capacity = 16;
}

-- "../a/c"
long_path_normalized :
    normalize long_path ≡ some (record { chars = 46 ∷ 46 ∷ 47 ∷ 97 ∷ 47 ∷ 99 ∷ []; capacity = 16 })
unfolding run
long_path_normalized = refl

abbrev operations : List Operation
operations = normal ∷ joined (100 ∷ 46 ∷ 101 ∷ []) ∷ extension ∷ directory ∷ character 47 ∷ []

-- "../a/c/"
abbrev final_path : FilePath
final_path = record { chars = 46 ∷ 46 ∷ 47 ∷ 97 ∷ 47 ∷ 99 ∷ 47 ∷ []; capacity = 16 }

performed : perform_all long_path operations ≡ some final_path
unfolding run
performed = refl

-- Every extension goes, as in "a.b.c".
all_extensions :
    (remove_extension (record { chars = 97 ∷ 46 ∷ 98 ∷ 46 ∷ 99 ∷ []; capacity = 16 })).chars
    ≡ 97 ∷ []
unfolding run
all_extensions = refl

perform_all-HasRoom_example : HasRoom final_path
perform_all-HasRoom_example =
    perform_all-HasRoom operations long_path final_path (omega arith) performed

normalize-ends_example : (path' : FilePath) × (normalize long_path ≡ some path')
normalize-ends_example = normalize-ends long_path (omega arith)
