-- ===== src/Startup/Missing.antt =====
-- internal/startup/requirements.go: the hook for missing requirements, fired until none is missing.
-- What the machine and the module's configuration look like after the hook ran for a list of requirements, the last one first, is
-- an argument, and so is how the hook ends.
use suctl.Prelude.{
  ℕ, zero, suc, String, Bool, false, ◌&&◌, List, [], ◌∷◌, Option, none, some, if◌then◌else◌, ◌==◌,
}
use suctl.Protocol.{Message, sprintf, sprint_error}
use suctl.Hooks.{Plan}
use suctl.Modules.{Record, State, set_status, no_reason}
use suctl.Modules.Requirements.{Environment, first_missing_requirement}

-- The type and the value of a requirement.
abbrev pub Requirement : Type 0
Requirement = String × String

pub record Repairs : Type 0 where
  pub env_after : List Requirement → Environment
  -- the keys that are set in the module's configuration, which each check reads again
  pub set_after : List Requirement → String → Bool
  pub hook_after : List Requirement → Option Message

abbrev pub same : Requirement → Option Requirement → Bool
same (type, value) none = false
same (type, value) (some (other_type, other_value)) = other_type == type && other_value == value

-- The error of firing the hook.
abbrev pub fired : Repairs → List Requirement → Plan → Option Message
fired o tried Plan.skip = none
fired o tried (Plan.reject m) = some m
fired o tried (Plan.run_exec exec timeout) = o.hook_after tried
fired o tried (Plan.run_capability capability wire timeout) = o.hook_after tried

abbrev pub missing_after : Repairs → Record → List String → List Requirement → Option Requirement
missing_after o r surface tried =
    first_missing_requirement (o.env_after tried) r surface (some (o.set_after tried))

-- runRequirementMissingHooks: the record it leaves, or none while it still runs after the given
-- number of rounds.
unfoldable pub run_requirement_missing_hooks :
    ℕ → Repairs → Plan → Record → List String → List Requirement → Option Record
unfolding first_missing_requirement
run_requirement_missing_hooks zero o plan r surface tried = none
run_requirement_missing_hooks (suc fuel) o plan r surface tried =
    elim (missing_after o r surface tried) [
      | none ↦ some (set_status State.ready no_reason r)
      | some (type, value) ↦
          let now : List Requirement = (type, value) ∷ tried in
          let rest = run_requirement_missing_hooks fuel o plan r surface now in
          elim (fired o now plan) [
            | some e ↦ some (
                set_status State.unavailable
                  (sprint_error "requires %s %q (on-requirement-missing hook failed: %v)"
                    (type ∷ value ∷ []) e)
                  r)
            | none ↦
                if same (type, value) (missing_after o r surface now)
                then some (
                    set_status State.unavailable
                      (sprintf "requires %s %q which is not available" (type ∷ value ∷ [])) r)
                else rest
          ]
    ]
