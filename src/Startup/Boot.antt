-- ===== src/Startup/Boot.antt =====
-- internal/startup/startup.go, requirements.go and activate.go: what happens to the discovered modules
-- when suctl starts, and when an operator activates one.
use suctl.Prelude.{
  length, ℕ, suc, String, Bool, true, false, not, ◌&&◌, ◌||◌, List, [], ◌∷◌, ◌++◌, Option, none,
  some, inl, inr, lookup, contains, if◌then◌else◌, ◌==◌, is_some,
}
use suctl.Protocol.{Message, sprintf, sprint_error}
use suctl.Activation.{Fault, get_checksum}
use suctl.Hooks.{run_requirement_missing}
use suctl.Manifest.{HookDecl}
use suctl.Modules.{Record, State, sorted_keys, is_active, is_unavailable, is_inert, set_status}
use suctl.Modules.Requirements.{
  Environment, ready_surface, pending_surface, first_missing_requirement, check_all_requirements,
}
use suctl.Startup.Missing.{Repairs, run_requirement_missing_hooks}
use suctl.Startup.{Runtime, Effect, warn}
use suctl.Startup.Activate.{Attempt, Host, put, activate_with, warn_if}

-- The world around the modules: their environment, the keys that are set in each module's
-- configuration, and what an attempt to activate each of them meets.
pub record Outside : Type 0 where
  pub env : Environment
  pub is_set : String → String → Bool
  pub attempt : String → Attempt
  -- what the hook for missing requirements does for each module
  pub repairs : String → Repairs
  -- the fault of reading a flag file
  pub unread : String → Fault

-- Coordinator.Activate and Coordinator.BootActivate
abbrev pub activate : Attempt → String → Record → Host → Host × List Effect
activate a name r h = activate_with a name r "pre-activate" h

abbrev pub boot_activate : Attempt → String → Record → Host → Host × List Effect
boot_activate a name r h = activate_with a name r "on-start" h

-- driftedSinceActivation: the verdict, and the runtime with its warning.
unfoldable pub drifted_since_activation : Outside → String → Host → Bool × Runtime
unfolding get_checksum
drifted_since_activation o name h =
    let (stored, err) = get_checksum (o.unread name) h.flags name in
    elim err [
      | some e ↦ (
        false,
        warn_if (λ e. sprintf "module %q: cannot read activation checksum: %v" (name ∷ e ∷ []))
            (some e) h.runtime,
      )
      | none ↦ if stored == "" then (false, h.runtime) else elim (o.attempt name).checksum [
        | inl e ↦ (
          false,
          warn (sprint_error "module %q: cannot compute installed checksum: %v" (name ∷ []) e)
              h.runtime,
        )
        | inr current ↦ (not (stored == current), h.runtime)
      ]
    ]

abbrev is_failed : State → Bool
is_failed State.failed = true
is_failed _ = false

-- The requirement of a module that is not met, against the capabilities of a surface.
abbrev pub missing_of : Outside → String → Record → List String → Option (String × String)
missing_of o name r surface = first_missing_requirement o.env r surface (some (o.is_set name))

-- ActivateModule for a module of the store.
unfoldable pub activate_record : Outside → String → Record → Host → Host × List Effect
unfolding activate_with
activate_record o name r h =
    if is_inert r || (is_active r.state || is_failed r.state)
    then (h, [])
    else elim (missing_of o name r (ready_surface h.runtime.modules)) [
      | none ↦ activate (o.attempt name) name r h
      | some (type, value) ↦
          let reason = sprintf "requires %s %q which is not available" (type ∷ value ∷ []) in
          (
            record h {
              runtime =
                  warn (sprint_error "module %q cannot activate: %s" (name ∷ []) reason)
                    (put name (set_status State.unavailable reason r) h.runtime);
            },
            [],
          )
    ]

-- ActivateModule
unfoldable pub activate_module : Outside → String → Host → Host × List Effect
activate_module o name h = elim (lookup name h.runtime.modules) [
  | none ↦ (h, [])
  | some r ↦ activate_record o name r h
]

-- A skipped module: the operator hears of it if it was activated.
abbrev pub skip : Bool → Message → Host → Host × List Effect
skip listed m h = if listed then (record h { runtime = warn m h.runtime }, []) else (h, [])

-- The host with the warning of an upgrade.
abbrev pub upgrading : String → Runtime → Host → Host
upgrading name noted h = record h {
  runtime =
      warn
        (sprintf
          "module %q installed content changed since activation; running upgrade (pre-activate)"
          (name ∷ []))
        noted;
}

-- An activated module: the setup hook of an upgrade runs where the installed content changed.
unfoldable pub boot_listed : Outside → String → Record → Host → Host × List Effect
boot_listed o name r h =
    let (drifted, noted) = drifted_since_activation o name h in
    if drifted
    then activate (o.attempt name) name r (upgrading name noted h)
    else boot_activate (o.attempt name) name r (record h { runtime = noted })

-- One module of phase 3b, by its state.
unfoldable pub boot_by : State → Outside → Bool → String → Record → Host → Host × List Effect
boot_by State.missing o listed name r h =
    skip listed (sprintf "module %q is missing from disk; skipping activation" (name ∷ [])) h
boot_by State.unavailable o listed name r h =
    skip listed
      (sprint_error "module %q is unavailable (%s); skipping activation" (name ∷ []) r.reason) h
boot_by State.active o listed name r h = (h, [])
boot_by _ o listed name r h = if listed then boot_listed o name r h else (h, [])

unfoldable pub boot_named : Outside → List String → String → Host → Host × List Effect
boot_named o activated name h = elim (lookup name h.runtime.modules) [
  | none ↦ (h, [])
  | some r ↦ boot_by r.state o (contains activated name) name r h
]

-- The loop of phase 3b over the sorted names.
unfoldable pub boot_all : Outside → List String → List String → Host → Host × List Effect
boot_all o activated [] h = (h, [])
boot_all o activated (name ∷ names) h =
    let (after, effects) = boot_named o activated name h in
    let (last, others) = boot_all o activated names after in (last, effects ++ others)

-- The rounds that are enough where the hook mends what it is fired for.
abbrev rounds : Outside → String → Record → List String → ℕ
rounds o name r surface = suc (
    length (
      check_all_requirements ((o.repairs name).env_after []) r surface none
        (some ((o.repairs name).set_after []))))

-- What is written back.
unfoldable pub settle_mended : String → Option Record → Runtime → Runtime
settle_mended name none rt = rt
settle_mended name (some after) rt = put name after rt

abbrev missing_hook : Record → Option HookDecl
missing_hook r = elim r.manifest [ none ↦ none | some m ↦ lookup "on-requirement-missing" m.hooks ]

abbrev pub mend_outcome : Outside → List String → String → Record → Runtime → Option Record
mend_outcome o surface name r rt =
    run_requirement_missing_hooks (rounds o name r surface) (o.repairs name)
      (run_requirement_missing rt.hook_timeout (missing_hook r)) r surface []

-- One module of the pass before phase 3b.
unfoldable pub mend_record :
    Outside → List String → List String → String → Record → Runtime → Runtime
mend_record o surface activated name r rt =
    if contains activated name && is_unavailable r.state && is_some (missing_hook r)
    then settle_mended name (mend_outcome o surface name r rt) rt
    else rt

unfoldable pub mend_named : Outside → List String → List String → String → Runtime → Runtime
mend_named o surface activated name rt = elim (lookup name rt.modules) [
  | none ↦ rt
  | some r ↦ mend_record o surface activated name r rt
]

-- The pass before phase 3b over the sorted names.
unfoldable pub mend_all : Outside → List String → List String → List String → Runtime → Runtime
mend_all o surface activated [] rt = rt
mend_all o surface activated (name ∷ names) rt =
    mend_all o surface activated names (mend_named o surface activated name rt)

-- Run, from the stores and the names of the flag files on, once the self test of core has passed.
unfoldable pub run : Outside → List String → Host → Host × List Effect
run o activated h =
    let names = sorted_keys h.runtime.modules in
    let mended = mend_all o (pending_surface h.runtime.modules) activated names h.runtime in
    boot_all o activated names (record h { runtime = mended })
