-- ===== src/Modules/Route.antt =====
-- internal/module/route.go: capability resolution and the requires gate.
use suctl.Prelude.{
  ℕ, String, Bool, false, List, [], ◌∷◌, Option, none, some, lookup, contains, ◌==◌, if◌then◌else◌,
}
use suctl.Manifest.{Capability}
use suctl.Modules.{Record, Store, is_active}

pub record Route : Type 0 where
  pub module_name : String
  pub mux : Option ℕ
  pub handler : Option ℕ
  pub async : Bool

-- The first capability of that name.
unfoldable pub find_capability : String → List Capability → Option Capability
find_capability cap [] = none
find_capability cap (c ∷ cs) = if c.name == cap then some c else find_capability cap cs

-- The capability of that name that a record declares.
unfoldable pub declared : String → Record → Option Capability
unfolding find_capability
declared cap r = elim r.manifest [ none ↦ none | some m ↦ find_capability cap m.capabilities ]

-- capAsync
unfoldable pub cap_async : Record → String → Bool
cap_async r cap = elim (declared cap r) [ none ↦ false | some c ↦ c.async ]

-- The first loop of Resolve: in-process handlers.
unfoldable pub resolve_handler : String → Store → Option Route
resolve_handler cap [] = none
resolve_handler cap ((name, r) ∷ s) =
    let rest = resolve_handler cap s in
    elim (lookup cap r.handlers) [
      | none ↦ rest
      | some h ↦
          some
            (record { module_name = name; mux = none; handler = some h; async = cap_async r cap })
    ]

abbrev wire_route : String → Record → Option Capability → Option Route → Option Route
wire_route name r none rest = rest
wire_route name r (some c) rest =
    some (record { module_name = name; mux = r.mux; handler = none; async = c.async })

-- The second loop of Resolve: active modules that declare the capability.
unfoldable pub resolve_wire : String → Store → Option Route
resolve_wire cap [] = none
resolve_wire cap ((name, r) ∷ s) =
    let rest = resolve_wire cap s in
    if is_active r.state then wire_route name r (declared cap r) rest else rest

-- Store.Resolve
unfoldable pub resolve : String → Store → Option Route
resolve cap s = elim (resolve_handler cap s) [ none ↦ resolve_wire cap s | some r ↦ some r ]

-- Store.CapabilityAsync: none where the pair is not present.
unfoldable pub capability_async : String → String → Store → Option Bool
capability_async module_name cap s = elim (lookup module_name s) [
  | none ↦ none
  | some r ↦ elim (declared cap r) [ none ↦ none | some c ↦ some c.async ]
]

-- Store.Allows
unfoldable pub allows : String → String → Store → Bool
allows module_name cap s = elim (lookup module_name s) [
  | none ↦ false
  | some r ↦ elim r.manifest [ none ↦ false | some m ↦ contains m.requires.capabilities cap ]
]
