-- ===== src/Handler/Validator.antt =====
-- internal/handler/validator.go. The map of errors is an association list with one entry for a key.
use equilibra.Common.{String, Bool, true, false, List, [], ◌∷◌, ◌++◌, str_eq, exists, if◌then◌else◌}

pub record Validator : Type 0 where
  pub errors : List (String × String)

abbrev pub new_validator : Validator
new_validator = record { errors = [] }

abbrev is_empty : List (String × String) → Bool
is_empty [] = true
is_empty (x ∷ xs) = false

abbrev pub valid : Validator → Bool
valid v = is_empty v.errors

unfoldable pub add_error : String → String → Validator → Validator
add_error key message v =
    if exists (λ e. str_eq key e.0) v.errors
    then v
    else record { errors = v.errors ++ (key, message) ∷ [] }

abbrev pub check : Bool → String → String → Validator → Validator
check true key message v = v
check false key message v = add_error key message v
