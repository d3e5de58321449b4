-- ===== src/Rca/Common.antt =====
-- What the parts of rca_engine share: sets of texts, and their sorted lists.
use oracle_diagnostic_estack.Prelude.{String, List, [], ◌∷◌, ◌++◌, if◌then◌else◌}
use oracle_diagnostic_estack.Prelude.Dict.{contains}
use oracle_diagnostic_estack.Prelude.Sort.{sort_by}
use oracle_diagnostic_estack.Text.{str_lt}

-- `if x not in xs: xs.append(x)`, and adding to a set
abbrev pub add_new : String → List String → List String
add_new x xs = if contains xs x then xs else xs ++ x ∷ []

-- a set of the elements of a list
unfoldable pub as_set : List String → List String
unfolding contains
as_set [] = []
as_set (x ∷ xs) = add_new x (as_set xs)

-- `sorted` of a set
abbrev pub sorted_set : List String → List String
sorted_set xs = sort_by str_lt (as_set xs)
