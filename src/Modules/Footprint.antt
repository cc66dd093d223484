-- ===== src/Modules/Footprint.antt =====
-- internal/module/requirements.go: the transitive folds over requires.capabilities.
pub mod Closure
use suctl.Prelude.{
  ℕ, zero, suc, String, Bool, true, false, not, ◌||◌, List, [], ◌∷◌, ◌++◌, Option, none, some,
  lookup, contains, length, ◌==◌, if◌then◌else◌,
}
use suctl.Modules.{Record, Store, is_ready}
use suctl.Modules.Requirements.{find_provider, required_of}

-- The capabilities that the named module requires; none for a module that is not in the store.
abbrev pub required : String → Store → List String
required name s = elim (lookup name s) [ none ↦ [] | some r ↦ required_of r ]

-- The loop of collectFootprint over the required capabilities; `visit` is its recursive call.
unfoldable pub visit_providers :
    (String → List String → List String) → Store → List String → List String → List String
visit_providers visit s [] out = out
visit_providers visit s (cap ∷ caps) out =
    let prov = find_provider cap s in
    let next : List String = elim (prov == "" || contains out prov) [
      | true ↦ out
      | false ↦ visit prov (prov ∷ out)
    ] in
    visit_providers visit s caps next

-- collectFootprint. Each level adds a module of the store, so more levels than modules are never
-- reached.
unfoldable pub collect_footprint : ℕ → Store → String → List String → List String
collect_footprint zero s name out = out
collect_footprint (suc fuel) s name out =
    visit_providers (collect_footprint fuel s) s (required name s) out

-- Footprint
unfoldable pub footprint : Store → String → List String
footprint s target = collect_footprint (suc (length s)) s target (target ∷ [])

abbrev ready_record : Option Record → Bool
ready_record none = false
ready_record (some r) = is_ready r.state

-- The loop of collectInactiveProviders over `visited` and `out`.
unfoldable pub visit_inactive :
    (String → List String × List String → List String × List String)
    → Store
    → List String
    → List String × List String
    → List String × List String
visit_inactive visit s [] acc = acc
visit_inactive visit s (cap ∷ caps) (visited, out) =
    let prov = find_provider cap s in
    let next : List String × List String =
      elim (prov == "" || contains visited prov || not (ready_record (lookup prov s))) [
        | true ↦ (visited, out)
        | false ↦ let (v, o) = visit prov (prov ∷ visited, out) in (v, o ++ prov ∷ [])
      ] in
    visit_inactive visit s caps next

-- collectInactiveProviders
unfoldable pub collect_inactive :
    ℕ → Store → String → List String × List String → List String × List String
collect_inactive zero s name acc = acc
collect_inactive (suc fuel) s name acc =
    visit_inactive (collect_inactive fuel s) s (required name s) acc

-- RequiredInactiveProviders
unfoldable pub required_inactive_providers : Store → String → List String
required_inactive_providers s target =
    (collect_inactive (suc (length s)) s target (target ∷ [], [])).1
