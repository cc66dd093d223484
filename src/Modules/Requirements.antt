-- ===== src/Modules/Requirements.antt =====
-- internal/module/requirements.go: capability surfaces, requirement checks, and the evaluation that
-- marks modules unavailable. Which binaries and paths exist is the environment's answer.
pub mod Passes
pub mod Marking
pub mod Fixpoint
use suctl.Prelude.{
  ℕ, zero, suc, String, Bool, true, false, not, ◌&&◌, ◌||◌, List, [], ◌∷◌, ◌++◌, map, Option, none,
  some, Dict, lookup, insert, keys, contains, is_some, length, ◌==◌, if◌then◌else◌,
}
use suctl.Protocol.{Message, sprintf}
use suctl.Manifest.{Manifest, Requires, Capability, ConfigEntry}
use suctl.Modules.{
  Record, Store, State, is_active, is_unavailable, is_inert, state_name, set_status,
}
use suctl.Modules.Route.{declared}

pub record Environment : Type 0 where
  -- exec.LookPath finds the binary
  pub on_path : String → Bool
  -- os.Stat finds the path
  pub exists : String → Bool

abbrev capability_names : List Capability → List String
capability_names = map (λ c. c.name)

abbrev pub manifest_names : Option Manifest → List String
manifest_names none = []
manifest_names (some m) = capability_names m.capabilities

-- pendingSurface
unfoldable pub pending_surface : Store → List String
pending_surface [] = []
pending_surface ((name, r) ∷ s) = manifest_names r.manifest ++ pending_surface s

-- readySurface
unfoldable pub ready_surface : Store → List String
ready_surface [] = []
ready_surface ((name, r) ∷ s) =
    let rest = ready_surface s in if is_inert r then rest else manifest_names r.manifest ++ rest

-- findProvider: the empty text where no module declares the capability.
unfoldable pub find_provider : String → Store → String
find_provider cap [] = ""
find_provider cap ((name, r) ∷ s) = if is_some (declared cap r) then name else find_provider cap s

abbrev pub no_requirements : List String
no_requirements = []

-- The capabilities that a module requires.
abbrev pub required_of : Record → List String
required_of r = elim r.manifest [ none ↦ [] | some m ↦ m.requires.capabilities ]

pub record RequirementCheck : Type 0 where
  pub type : String
  pub value : String
  pub met : Bool
  pub provider : String

abbrev pub checks : String → (String → Bool) → List String → List RequirementCheck
checks type probe [] = []
checks type probe (v ∷ vs) =
    record { type = type; value = v; met = probe v; provider = "" } ∷ checks type probe vs

-- checkSystemResources
unfoldable pub check_system_resources : Environment → Requires → List RequirementCheck
check_system_resources env req =
    checks "binary" env.on_path req.binaries
    ++ (checks "path" env.exists req.paths ++ checks "socket" env.exists req.sockets)

-- systemReqReason
unfoldable pub system_req_reason : RequirementCheck → Message
system_req_reason c =
    if c.type == "binary"
    then sprintf "requires binary %q which was not found in PATH" (c.value ∷ [])
    else if c.type == "path"
    then sprintf "requires path %q which does not exist" (c.value ∷ [])
    else if c.type == "socket"
    then sprintf "requires socket %q which does not exist" (c.value ∷ [])
    else sprintf "" []

-- The first check that is not met.
unfoldable pub first_unmet : List RequirementCheck → Option RequirementCheck
first_unmet [] = none
first_unmet (c ∷ cs) = if c.met then first_unmet cs else some c

-- evaluateSystemReqs, on a record with its manifest.
unfoldable pub evaluate_system_reqs : Environment → Manifest → Record → Record
evaluate_system_reqs env m r = elim (first_unmet (check_system_resources env m.requires)) [
  | none ↦ r
  | some c ↦ set_status State.unavailable (system_req_reason c) r
]

-- The guard of both phases of EvaluateRequirements, without its test of the manifest.
abbrev pub settled : Record → Bool
settled r = is_active r.state || is_unavailable r.state

unfoldable pub check_manifest : Environment → Option Manifest → Record → Record
check_manifest env none r = r
check_manifest env (some m) r = evaluate_system_reqs env m r

-- The body of the first phase's loop.
unfoldable pub system_record : Environment → Record → Record
system_record env r = if settled r then r else check_manifest env r.manifest r

-- The first phase.
unfoldable pub system_phase : Environment → Store → Store
system_phase env [] = []
system_phase env ((name, r) ∷ s) = (name, system_record env r) ∷ system_phase env s

-- The first required capability that the surface lacks.
unfoldable pub first_lacking : List String → List String → Option String
first_lacking surface [] = none
first_lacking surface (cap ∷ caps) =
    if contains surface cap then first_lacking surface caps else some cap

abbrev provider_state : Option Record → String
provider_state none = ""
provider_state (some r) = state_name r.state

-- The reason that the second phase gives, from the states of that moment.
unfoldable pub lacking_reason : String → Store → Message
lacking_reason cap s =
    let provider = find_provider cap s in
    if provider == ""
    then sprintf "requires capability %q which is not provided by any installed module" (cap ∷ [])
    else sprintf "requires capability %q — provider %q is %s"
        (cap ∷ provider ∷ provider_state (lookup provider s) ∷ [])

-- One record of a pass of the second phase: the store, and whether its state changed.
unfoldable pub pass_record : List String → String → Store → Store × Bool
pass_record surface name s = elim (lookup name s) [
  | none ↦ (s, false)
  | some r ↦ if settled r then (s, false) else elim (first_lacking surface (required_of r)) [
    | none ↦ (s, false)
    | some cap ↦ (insert name (set_status State.unavailable (lacking_reason cap s) r) s, true)
  ]
]

-- One pass over the names, against the surface of its start.
unfoldable pub pass : List String → List String → Store → Store × Bool
pass surface [] s = (s, false)
pass surface (name ∷ names) s =
    let (one, changed) = pass_record surface name s in
    let (rest, later) = pass surface names one in (rest, changed || later)

-- The second phase: passes until one changes nothing.
unfoldable pub capability_phase : ℕ → Store → Store
capability_phase zero s = s
capability_phase (suc fuel) s =
    let (next, changed) = pass (ready_surface s) (keys s) s in
    elim changed [ true ↦ capability_phase fuel next | false ↦ next ]

-- EvaluateRequirements. Each pass but the last marks a record, so a pass for each record, and one
-- more, are enough.
unfoldable pub evaluate_requirements : Environment → Store → Store
evaluate_requirements env s = capability_phase (suc (length s)) (system_phase env s)

-- The config entries that are required, checked against the keys of the module's file.
unfoldable pub check_config : (String → Bool) → List ConfigEntry → List RequirementCheck
check_config is_set [] = []
check_config is_set (ce ∷ ces) =
    let rest = check_config is_set ces in
    if ce.required
    then record { type = "config"; value = ce.key; met = is_set ce.key; provider = "" } ∷ rest
    else rest

-- EvaluateConfigRequirements: `conf name` says which keys ReadModuleConf finds for a module.
unfoldable pub evaluate_config : (String → String → Bool) → String → Store → Store
evaluate_config conf conf_dir [] = []
evaluate_config conf conf_dir ((name, r) ∷ s) =
    let rest = evaluate_config conf conf_dir s in
    let entries : List ConfigEntry = elim r.manifest [ none ↦ [] | some m ↦ m.requires.config ] in
    let marked : Record = elim (first_unmet (check_config (conf name) entries)) [
      | none ↦ r
      | some c ↦
          set_status State.unavailable
            (sprintf "requires config key %q which is not set in %s/%s.conf"
              (c.value ∷ conf_dir ∷ name ∷ []))
            r
    ] in
    (name, if is_active r.state || is_inert r then r else marked) ∷ rest

abbrev provider_in : Option Store → String → String
provider_in none cap = ""
provider_in (some s) cap = find_provider cap s

unfoldable pub check_capabilities : List String → Option Store → List String → List RequirementCheck
check_capabilities surface s [] = []
check_capabilities surface s (cap ∷ caps) =
    record {
      type = "capability";
      value = cap;
      met = contains surface cap;
      provider = provider_in s cap;
    }
    ∷ check_capabilities surface s caps

-- CheckAllRequirements: `is_set` is none where the directory of the config files is empty.
unfoldable pub check_all_requirements :
    Environment
    → Record
    → List String
    → Option Store
    → Option (String → Bool)
    → List RequirementCheck
check_all_requirements env r surface s is_set = elim r.manifest [
  | none ↦ []
  | some m ↦
      check_capabilities surface s m.requires.capabilities
      ++ (check_system_resources env m.requires
          ++ elim is_set [ none ↦ [] | some f ↦ check_config f m.requires.config ])
]

-- FirstMissingRequirement: the type and the value of the failure.
unfoldable pub first_missing_requirement :
    Environment → Record → List String → Option (String → Bool) → Option (String × String)
first_missing_requirement env r surface is_set =
    elim (first_unmet (check_all_requirements env r surface none is_set)) [
      | none ↦ none
      | some c ↦ some (c.type, c.value)
    ]
