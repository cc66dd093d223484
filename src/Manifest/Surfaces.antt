-- ===== src/Manifest/Surfaces.antt =====
-- sdk/manifest/manifest.go: surface.json and its validation.
use suctl.Prelude.{ℕ, ◌+◌, ℤ, String, Bool, List, [], ◌∷◌, contains, ◌==◌, if◌then◌else◌}
use suctl.Protocol.{Message, sprintf, sprint_number}

pub record Column : Type 0 where
  pub id : String
  pub label : String
  pub width : ℤ
  pub align : String
  pub from : String

pub record Facet : Type 0 where
  pub label : String
  pub value : String

pub record SurveyAction : Type 0 where
  pub capability : String
  pub label : String
  pub destructive : Bool

pub record Survey : Type 0 where
  pub entry : String
  pub columns : List Column
  pub facets : List Facet
  pub actions : List SurveyAction

-- The fields of a SurfaceConfig but its drills.
pub record Header : Type 0 where
  pub subject : String
  pub name : String
  pub desc : String
  pub label : String
  pub survey : Survey
  pub focus_entry : String

-- []SurfaceConfig, each surface with its drills.
pub data Surfaces : Type 0 where
  nil : Surfaces
  surface : Header → Surfaces → Surfaces → Surfaces

-- An error, or the subjects that have been seen: the map is shared by the whole walk.
pub data Checked : Type 0 where
  failed : Message → Checked
  passed : List String → Checked

abbrev pub andthen : Checked → (List String → Checked) → Checked
andthen (failed e) f = failed e
andthen (passed seen) f = f seen

-- validateSurfaces; `i` is printed in the first error only.
unfoldable pub validate_surfaces : ℕ → Surfaces → List String → Checked
validate_surfaces i nil seen = passed seen
validate_surfaces i (surface s drills rest) seen =
    let below = validate_surfaces 0 drills (s.subject ∷ seen) in
    let next = andthen below (λ later. validate_surfaces (i + 1) rest later) in
    if s.subject == ""
    then failed (sprint_number "surface %d: subject is required" i)
    else if s.survey.entry == ""
    then failed (sprintf "surface %q: survey.entry is required" (s.subject ∷ []))
    else if s.focus_entry == ""
    then failed (sprintf "surface %q: focus.entry is required" (s.subject ∷ []))
    else if contains seen s.subject
    then failed (sprintf "duplicate subject %q" (s.subject ∷ []))
    else next
