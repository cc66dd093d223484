-- ===== src/System/Views.antt =====
-- internal/system/handlers.go: the projections of the modules store. Whether a field takes the full
-- width is left out.
use suctl.Prelude.{
  ℕ, suc, String, Bool, false, not, List, [], ◌∷◌, ◌++◌, Option, none, some, lookup, length, ltb,
  if◌then◌else◌, ◌==◌,
}
use suctl.Protocol.{Message, sprintf, sprint_number}
use suctl.Manifest.{Manifest}
use suctl.Modules.{Record, Store, State, state_name, sorted_keys}
use suctl.Modules.Requirements.{
  Environment, RequirementCheck, ready_surface, check_all_requirements,
}
use suctl.Surface.{Action, Subject, SurveyResponse, Field, Section, FocusResponse, col, plain}
use suctl.System.{short_name}

-- statusColor, of the state that it is called with.
unfoldable pub status_color : State → Option String
status_color State.active = some "ok"
status_color State.ready = some "blue"
status_color State.unavailable = some "alert"
status_color State.missing = some "ghost"
status_color State.failed = some "err"

-- The counters of BuildSurveyResponse.
pub record Counts : Type 0 where
  pub ready : ℕ
  pub unavail : ℕ
  pub missing : ℕ
  pub failed : ℕ
  pub total : ℕ

abbrev no_counts : Counts
no_counts = record { ready = 0; unavail = 0; missing = 0; failed = 0; total = 0 }

unfoldable pub count_state : State → Counts → Counts
count_state State.ready c = record c { ready = suc c.ready; total = suc c.total }
count_state State.unavailable c = record c { unavail = suc c.unavail; total = suc c.total }
count_state State.missing c = record c { missing = suc c.missing; total = suc c.total }
count_state State.failed c = record c { failed = suc c.failed; total = suc c.total }
count_state State.active c = record c { total = suc c.total }

abbrev part : String → ℕ → List Message
part format n = if ltb 0 n then sprint_number format n ∷ [] else []

-- buildSummary
unfoldable pub build_summary : Counts → List Message
build_summary c =
    part "%d ready" c.ready
    ++ (part "%d unavailable" c.unavail
        ++ (part "%d missing" c.missing ++ part "%d failed" c.failed))

abbrev version_of : Option Manifest → String
version_of none = "0.0.0"
version_of (some m) = m.version

abbrev caps_of : Option Manifest → ℕ
caps_of none = 0
caps_of (some m) = length m.capabilities

abbrev pub subject_row : String → Record → Subject
subject_row name r = record {
  id = name;
  name = name;
  columns =
      ("status", col (state_name r.state) (status_color r.state))
      ∷ ("version", col (version_of r.manifest) none)
      ∷ ("caps", record { value = sprint_number "%d" (caps_of r.manifest); color = some "blue" })
      ∷ [];
  facets = state_name r.state ∷ [];
}

-- The modules that a view lists: all but the control plane itself.
unfoldable pub listed : List String → Store → List (String × Record)
listed [] s = []
listed (name ∷ names) s =
    let rest = listed names s in
    if name == short_name
    then rest
    else elim (lookup name s) [ none ↦ rest | some r ↦ (name, r) ∷ rest ]

unfoldable pub count_all : List (String × Record) → Counts → Counts
unfolding count_state
count_all [] c = c
count_all ((name, r) ∷ rs) c = count_all rs (count_state r.state c)

unfoldable pub rows : List (String × Record) → List Subject
unfolding status_color
rows [] = []
rows ((name, r) ∷ rs) = subject_row name r ∷ rows rs

-- BuildSurveyResponse
unfoldable pub build_survey_response : Store → SurveyResponse
unfolding listed count_all build_summary rows
build_survey_response s =
    let shown = listed (sorted_keys s) s in
    let counts = count_all shown no_counts in
    record { total = counts.total; status_summary = build_summary counts; subjects = rows shown }

-- focusActions
unfoldable pub focus_actions : State → List Action
focus_actions State.ready =
    record { capability = "system.module.activate"; label = "activate" } ∷ []
focus_actions State.active =
    record { capability = "system.module.deactivate"; label = "deactivate" } ∷ []
focus_actions State.failed =
    record { capability = "system.module.deactivate"; label = "deactivate" } ∷ []
focus_actions _ = []

-- decorateRequirement
unfoldable pub decorate_requirement : Store → RequirementCheck → List String
decorate_requirement s c =
    if not (c.type == "capability")
    then c.value ∷ []
    else if c.provider == ""
    then c.value ∷ []
    else elim (lookup c.provider s) [
      | none ↦ c.value ∷ []
      | some prov ↦ c.value ∷ c.provider ∷ state_name prov.state ∷ []
    ]

-- A field of buildRequirementsSection, with requirementGlyph and requirementColor.
abbrev requirement_field : Store → RequirementCheck → Field
requirement_field s c = record {
  label = c.type;
  value = sprintf (if c.met then "✓  %s" else "✗  %s") (decorate_requirement s c);
  color = some (if c.met then "ok" else "alert");
}

unfoldable pub requirement_fields : Store → List RequirementCheck → List Field
unfolding decorate_requirement
requirement_fields s [] = []
requirement_fields s (c ∷ cs) = requirement_field s c ∷ requirement_fields s cs

-- buildRequirementsSection: none where there are no checks.
unfoldable pub build_requirements_section : Environment → Record → Store → List Section
unfolding requirement_fields
build_requirements_section env r s =
    let checks = check_all_requirements env r (ready_surface s) (some s) none in
    elim checks [
      | [] ↦ []
      | c ∷ cs ↦ record { title = "requirements"; fields = requirement_fields s (c ∷ cs) } ∷ []
    ]

abbrev is_blank : Message → Bool
is_blank (sprintf s []) = s == ""
is_blank _ = false

abbrev reason_field : Message → List Field
reason_field reason =
    if is_blank reason
    then []
    else record { label = "reason"; value = reason; color = some "alert" } ∷ []

abbrev description_of : Option Manifest → String
description_of none = "no description"
description_of (some m) = m.description

abbrev identity_fields : String → Record → List Field
identity_fields name r =
    record { label = "module"; value = sprintf "suctl-mod-%s" (name ∷ []); color = none }
    ∷ plain "version" (version_of r.manifest)
    ∷ record {
      label = "status";
      value = sprintf (state_name r.state) [];
      color = status_color r.state;
    }
    ∷ (reason_field r.reason
        ++ record {
          label = "capabilities";
          value = sprint_number "%d" (caps_of r.manifest);
          color = some "blue";
        }
          ∷ plain "directory" r.dir
          ∷ [])

-- BuildFocusResponse: none for a module that is not in the store.
unfoldable pub build_focus_response : Environment → String → Store → Option FocusResponse
unfolding status_color build_requirements_section focus_actions
build_focus_response env name s = elim (lookup name s) [
  | none ↦ none
  | some r ↦ some (record {
    id = name;
    name = name;
    sections =
        record { title = "identity"; fields = identity_fields name r }
        ∷ record {
          title = "description";
          fields = plain "description" (description_of r.manifest) ∷ [];
        }
        ∷ build_requirements_section env r s;
    actions = focus_actions r.state;
  })
]

pub record InventoryEntry : Type 0 where
  pub short_name : String
  pub description : String
  pub state : String
  pub reason : Message

pub record InventoryResponse : Type 0 where
  pub entries : List InventoryEntry
  pub active_count : ℕ
  pub ready_count : ℕ

abbrev inventory_description : Option Manifest → String
inventory_description none = ""
inventory_description (some m) = m.description

unfoldable pub count_inventory : State → InventoryResponse → InventoryResponse
count_inventory State.active resp = record resp { active_count = suc resp.active_count }
count_inventory State.ready resp = record resp { ready_count = suc resp.ready_count }
count_inventory _ resp = resp

unfoldable pub inventory_from : List (String × Record) → InventoryResponse → InventoryResponse
unfolding count_inventory
inventory_from [] resp = resp
inventory_from ((name, r) ∷ rs) resp =
    let entry : InventoryEntry = record {
      short_name = name;
      description = inventory_description r.manifest;
      state = state_name r.state;
      reason = r.reason;
    } in
    inventory_from rs
      (count_inventory r.state (record resp { entries = resp.entries ++ entry ∷ [] }))

-- BuildInventoryResponse; the configuration of the surfaces is left out.
unfoldable pub build_inventory_response : Store → InventoryResponse
unfolding listed inventory_from
build_inventory_response s =
    inventory_from (listed (sorted_keys s) s)
      (record { entries = []; active_count = 0; ready_count = 0 })
