-- ===== src/Tests/Manifests.antt =====
-- The theorems on manifests and surface declarations.
use suctl.Prelude.{◌≡◌, [], List, String, ◌↔◌, Distinct}
use suctl.Manifest.Surfaces.{Surfaces, nil, surface, Header, passed, validate_surfaces}
use suctl.Manifest.Subjects.{subjects, HasEntries, validate_surfaces_iff}

abbrev header_of : String → Header
header_of subject = record {
  subject = subject;
  name = subject;
  desc = "";
  label = "";
  survey = record { entry = "list"; columns = []; facets = []; actions = [] };
  focus_entry = "show";
}

-- Domains, each with its certificates, and services beside them.
abbrev two_surfaces : Surfaces
two_surfaces =
    surface (header_of "domain") (surface (header_of "cert") nil nil)
      (surface (header_of "service") nil nil)

validate_surfaces_iff_example :
    ((out : List String) × (validate_surfaces 0 two_surfaces [] ≡ passed out))
    ↔ HasEntries two_surfaces × Distinct (subjects two_surfaces)
validate_surfaces_iff_example = validate_surfaces_iff 0 two_surfaces
