-- ===== src/Gate.antt =====
-- internal/gate/gate.go: the admission policy, as pure predicates over footprints. A footprint is
-- the list of the modules that a Go set holds.
use suctl.Prelude.{
  String, Bool, true, ◌&&◌, not, List, [], ◌∷◌, Option, none, some, contains, if◌then◌else◌,
}
use suctl.Messages.Jobs.{Job}

-- Admissible
unfoldable pub admissible : List String → List String → Bool
admissible [] busy = true
admissible (m ∷ ms) busy = not (contains busy m) && admissible ms busy

-- Busy, over the footprints of the modules store: the token of a running job that covers the module.
unfoldable pub busy : (String → List String) → String → List Job → Option String
busy footprint module_name [] = none
busy footprint module_name (j ∷ js) =
    if contains (footprint j.module_name) module_name
    then some j.token
    else busy footprint module_name js
