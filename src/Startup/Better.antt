-- ===== src/Startup/Better.antt =====
-- internal/startup/requirements.go with internal/module/requirements.go: requirements of which one is
-- met after the other.
use suctl.Prelude.{
  ℕ, suc, ◌≤◌, ◌<◌, String, Bool, true, false, List, [], ◌∷◌, ◌++◌, Option, none, some, ◌≡◌, refl,
  inl, inr, Bool-cases, if◌then◌else◌, length, arith, eq_iff, ap,
}
use suctl.Manifest.{Manifest, Requires, ConfigEntry}
use suctl.Modules.{Record}
use suctl.Modules.Requirements.{
  Environment, RequirementCheck, check_all_requirements, first_unmet, check_capabilities,
  check_system_resources, check_config, checks,
}
use suctl.Startup.Missing.{Requirement, same}

-- The checks from the first that is not met on.
pub left : List RequirementCheck → ℕ
left [] = 0
left (c ∷ cs) = if c.met then left cs else suc (length cs)

-- The same requirements, of which none was met and now is not.
abbrev Better : List RequirementCheck → List RequirementCheck → Type 0
Better [] [] = Unit
Better [] (d ∷ ds) = ⊥
Better (c ∷ cs) [] = ⊥
Better (c ∷ cs) (d ∷ ds) =
    (c.type ≡ d.type) × (c.value ≡ d.value) × (c.met ≡ true → d.met ≡ true) × Better cs ds

abbrev pub named : Option RequirementCheck → Option Requirement
named none = none
named (some c) = some (c.type, c.value)

Better-length : (cs ds : List RequirementCheck) → Better cs ds → length cs ≡ length ds
Better-length [] [] b = refl
Better-length [] (d ∷ ds) b = absurd b
Better-length (c ∷ cs) [] b = absurd b
Better-length (c ∷ cs) (d ∷ ds) b = ap suc (Better-length cs ds b.3)

pub left-le : (cs : List RequirementCheck) → left cs ≤ length cs
unfolding left
left-le [] = omega arith
left-le (c ∷ cs) = ground (arith, left-le cs)

-- Where the same requirement is not the first to be missing, fewer are left.
pub left-lt :
    (cs ds : List RequirementCheck) (type value : String)
    → Better cs ds
    → named (first_unmet cs) ≡ some (type, value)
    → same (type, value) (named (first_unmet ds)) ≡ false
    → left ds < left cs
unfolding left first_unmet
left-lt [] ds type value b first differs = cc
left-lt (c ∷ cs) [] type value b first differs = absurd b
left-lt (c ∷ cs) (d ∷ ds) type value (t, v, m, rest) first differs = ground (
  arith,
  m,
  t,
  v,
  first,
  differs,
  left-lt cs ds type value rest,
  left-le ds,
  Better-length cs ds rest,
  eq_iff d.type type,
  eq_iff d.value value,
)

Better-refl : (cs : List RequirementCheck) → Better cs cs
Better-refl [] = tt
Better-refl (c ∷ cs) = (refl, refl, λ e. e, Better-refl cs)

Better-append :
    (cs ds es fs : List RequirementCheck)
    → Better cs ds
    → Better es fs
    → Better (cs ++ es) (ds ++ fs)
Better-append [] [] es fs b c = c
Better-append [] (d ∷ ds) es fs b c = absurd b
Better-append (x ∷ cs) [] es fs b c = absurd b
Better-append (x ∷ cs) (d ∷ ds) es fs (t, v, m, b) c = (t, v, m, Better-append cs ds es fs b c)

-- What CheckAllRequirements sees to for a manifest.
abbrev checks_of :
    Environment → List String → (String → Bool) → Option Manifest → List RequirementCheck
checks_of e surface is_set none = []
checks_of e surface is_set (some m) =
    check_capabilities surface none m.requires.capabilities
    ++ (check_system_resources e m.requires ++ check_config is_set m.requires.config)

module _ (e f : Environment) (path : (x : String) → e.on_path x ≡ true → f.on_path x ≡ true)
    (file : (x : String) → e.exists x ≡ true → f.exists x ≡ true) (is_set set_now : String → Bool)
    (key : (x : String) → is_set x ≡ true → set_now x ≡ true) where
  checks-Better :
      (type : String) (probe test : String → Bool)
      → ((x : String) → probe x ≡ true → test x ≡ true)
      → (xs : List String) → Better (checks type probe xs) (checks type test xs)
  checks-Better type probe test h [] = tt
  checks-Better type probe test h (x ∷ xs) = (refl, refl, h x, checks-Better type probe test h xs)

  resources-Better :
      (req : Requires) → Better (check_system_resources e req) (check_system_resources f req)
  unfolding check_system_resources
  resources-Better req =
      Better-append (checks "binary" e.on_path req.binaries)
        (checks "binary" f.on_path req.binaries) _ _
        (checks-Better "binary" e.on_path f.on_path path req.binaries)
        (Better-append (checks "path" e.exists req.paths) (checks "path" f.exists req.paths) _ _
          (checks-Better "path" e.exists f.exists file req.paths)
          (checks-Better "socket" e.exists f.exists file req.sockets))

  config-Better :
      (entries : List ConfigEntry)
      → Better (check_config is_set entries) (check_config set_now entries)
  unfolding check_config
  config-Better [] = tt
  config-Better (ce ∷ ces) = elim (Bool-cases ce.required) [
    | inl required ↦ rw (required, check_config) (refl, refl, key ce.key, config-Better ces)
    | inr optional ↦ rw (optional, check_config) (config-Better ces)
  ]

  manifest-Better :
      (m : Option Manifest) (surface : List String)
      → Better (checks_of e surface is_set m) (checks_of f surface set_now m)
  manifest-Better none surface = tt
  manifest-Better (some m) surface =
      let needed = check_capabilities surface none m.requires.capabilities in
      Better-append needed needed _ _ (Better-refl needed) (
        Better-append (check_system_resources e m.requires) (check_system_resources f m.requires)
          (check_config is_set m.requires.config) (check_config set_now m.requires.config)
          (resources-Better m.requires) (config-Better m.requires.config))

pub all-Better :
    (e f : Environment)
    → ((x : String) → e.on_path x ≡ true → f.on_path x ≡ true)
    → ((x : String) → e.exists x ≡ true → f.exists x ≡ true)
    → (is_set set_now : String → Bool) → ((x : String) → is_set x ≡ true → set_now x ≡ true)
    → (r : Record) (surface : List String)
    → Better
        (check_all_requirements e r surface none (some is_set))
        (check_all_requirements f r surface none (some set_now))
unfolding check_all_requirements
all-Better e f path file is_set set_now key r surface =
    manifest-Better e f path file is_set set_now key r.manifest surface
