-- ===== src/Startup.antt =====
-- internal/startup: the lifecycle coordinator (lifecycle.go, deactivate.go, stop.go). What it does
-- to monitors, supervisors and hooks is the list of its effects, in order. The blocking drain hook
-- only delays what follows it, since its error is logged and no more.
pub mod Teardown
pub mod Episodes
pub mod Activate
pub mod Checks
pub mod Rollback
pub mod Reachable
pub mod Boot
pub mod Missing
pub mod Better
pub mod Mending
pub mod Booted
pub mod Booting
pub mod Undisturbed
pub mod Attempted
pub mod Drift
use suctl.Prelude.{
  ℕ, zero, suc, String, ℤ, Bool, true, false, List, [], ◌∷◌, ◌++◌, Option, none, some, Dict, lookup,
  insert, delete, leb, ◌||◌, if◌then◌else◌, ◌==◌, keys,
}
use suctl.Protocol.{Message, sprintf, sprint_number, sprint_numbers}
use suctl.Messages
use suctl.Messages.Jobs.{running}
use suctl.Gate.{busy}
use suctl.Hooks.{Plan, run_hook}
use suctl.Modules
use suctl.Modules.{Record, State, is_active, is_inert, set_status, no_reason, sorted_keys}
use suctl.Modules.Footprint.{footprint}

-- The stores, the restart budget and the attempts of the current unhealthy episodes. The budget is
-- positive, since the configuration falls back to a default otherwise.
pub record Runtime : Type 0 where
  pub modules : Modules.Store
  pub messages : Messages.Store
  pub health_max_restarts : ℕ
  pub hook_timeout : ℤ
  pub health_restarts : Dict ℕ
  pub warns : List Message

pub data Effect : Type 0 where
  stop_monitor stop_supervisor restart_supervisor start_supervisor start_monitor : ℕ → Effect
  -- a hook of a module: the event, and what its declaration makes of it
  hook : String → String → Plan → Effect

abbrev pub to_handle : (ℕ → Effect) → Option ℕ → List Effect
to_handle f none = []
to_handle f (some h) = f h ∷ []

-- fire and fireAsync, over the wire that the record holds at the moment.
abbrev pub fire : Runtime → String → Record → String → Effect
fire rt name r event = hook name event (run_hook rt.hook_timeout r.manifest event r.mux)

-- deregister: the record after it, and what it stops.
unfoldable pub deregister : Record → Record × List Effect
deregister r = (
  set_status State.ready no_reason (record r { monitor = none }),
  to_handle stop_monitor r.monitor,
)

-- stopProcess, on the record.
unfoldable pub stop_process : Record → Record × List Effect
stop_process r =
    (record r { supervisor = none; mux = none }, to_handle stop_supervisor r.supervisor)

-- The runtime with a new record, and without the module's attempts.
abbrev pub settle : String → Record → Runtime → Runtime
settle name r rt = record rt {
  modules = insert name r rt.modules;
  health_restarts = delete name rt.health_restarts;
}

abbrev pub warn : Message → Runtime → Runtime
warn m rt = record rt { warns = rt.warns ++ m ∷ [] }

-- failHealth, with its teardown.
unfoldable pub fail_health : String → Record → Runtime → Runtime × List Effect
unfolding deregister stop_process
fail_health name r rt =
    let (idle, first) = deregister r in
    let (stopped, second) = stop_process idle in
    let reason =
      sprint_number "health checks failing; %d restart attempts exhausted" rt.health_max_restarts in
    (
      warn
          (sprint_numbers
            "module %q marked failed: health checks failing; %d restart attempts exhausted" name
            (rt.health_max_restarts ∷ []))
          (settle name (set_status State.failed reason stopped) rt),
      first ++ second,
    )

abbrev pub attempts_of : Option ℕ → ℕ
attempts_of none = 0
attempts_of (some n) = n

abbrev restart_warning : Option ℕ → String → ℕ → ℕ → Message
restart_warning none name attempt budget =
    sprint_numbers "module %q health failing; no supervisor, cannot restart (attempt %d/%d)" name
      (attempt ∷ budget ∷ [])
restart_warning (some h) name attempt budget =
    sprint_numbers "module %q health failing; restarting (attempt %d/%d)" name
      (attempt ∷ budget ∷ [])

-- onHealthFail for the record that the module has.
unfoldable pub on_health_fail_of : String → Record → Runtime → Runtime × List Effect
on_health_fail_of name r rt =
    let attempts = attempts_of (lookup name rt.health_restarts) in
    let (failed, stops) = fail_health name r rt in
    if leb rt.health_max_restarts attempts
    then (failed, fire rt name r "on-health-fail" ∷ stops)
    else (
      warn (restart_warning r.supervisor name (suc attempts) rt.health_max_restarts)
          (record rt { health_restarts = insert name (suc attempts) rt.health_restarts }),
      fire rt name r "on-health-fail" ∷ to_handle restart_supervisor r.supervisor,
    )

-- onHealthFail: a callback for a module that is not active is stale.
unfoldable pub on_health_fail : String → Runtime → Runtime × List Effect
on_health_fail name rt = elim (lookup name rt.modules) [
  | none ↦ (rt, [])
  | some r ↦ elim (is_active r.state) [ true ↦ on_health_fail_of name r rt | false ↦ (rt, []) ]
]

-- onHealthRecover, for a module of the store.
unfoldable pub on_health_recover : String → Runtime → Runtime × List Effect
on_health_recover name rt = elim (lookup name rt.modules) [
  | none ↦ (rt, [])
  | some r ↦ (
    record rt { health_restarts = delete name rt.health_restarts },
    fire rt name r "on-health-recover" ∷ [],
  )
]

-- Deactivate below the gate.
unfoldable pub unload : String → Record → Runtime → Runtime × List Effect
unfolding deregister stop_process
unload name r rt =
    let (idle, first) = deregister r in
    let (stopped, second) = stop_process idle in
    let reset = set_status State.ready no_reason stopped in
    (
      settle name reset rt,
      first
          ++ (fire rt name idle "pre-deactivate"
              ∷ (second ++ fire rt name reset "post-deactivate" ∷ [])),
    )

-- Deactivate: the error, if a running job holds the module.
unfoldable pub deactivate : String → Record → Runtime → (Runtime × List Effect) × Option Message
deactivate name r rt = elim (busy (footprint rt.modules) name (running rt.messages)) [
  | none ↦ (unload name r rt, none)
  | some token ↦ (
    (rt, []),
    some (
        sprintf "module %q is busy (job %s holds its footprint); deactivation refused"
          (name ∷ token ∷ [])),
  )
]

abbrev is_failed : State → Bool
is_failed State.failed = true
is_failed _ = false

abbrev pub after_deactivate : (Runtime × List Effect) × Option Message → Runtime × List Effect
after_deactivate (out, none) = out
after_deactivate ((rt, effects), some err) = (warn err rt, effects)

-- DeactivateModule for a module of the store.
unfoldable pub deactivate_record : String → Record → Runtime → Runtime × List Effect
deactivate_record name r rt =
    let out = after_deactivate (deactivate name r rt) in
    if is_inert r
    then (rt, [])
    else if is_failed r.state
    then (record rt { modules = insert name (set_status State.ready no_reason r) rt.modules }, [])
    else if is_active r.state
    then out
    else (rt, [])

-- DeactivateModule
unfoldable pub deactivate_module : String → Runtime → Runtime × List Effect
deactivate_module name rt = elim (lookup name rt.modules) [
  | none ↦ (rt, [])
  | some r ↦ deactivate_record name r rt
]

-- The first loop of Shutdown: every monitor is stopped, in the order of the names.
unfoldable pub stop_monitors : List String → Modules.Store → Modules.Store × List Effect
stop_monitors [] s = (s, [])
stop_monitors (name ∷ names) s = elim (lookup name s) [
  | none ↦ stop_monitors names s
  | some r ↦
      let (last, effects) = stop_monitors names (insert name (record r { monitor = none }) s) in
      (last, to_handle stop_monitor r.monitor ++ effects)
]

abbrev on_stop : Runtime → String → Record → Option ℕ → List Effect
on_stop rt name r none = []
on_stop rt name r (some h) = stop_supervisor h ∷ fire rt name r "on-stop" ∷ []

-- The second loop: every supervised process is stopped, and its hook fires.
unfoldable pub stop_supervisors :
    Runtime → List String → Modules.Store → Modules.Store × List Effect
stop_supervisors rt [] s = (s, [])
stop_supervisors rt (name ∷ names) s = elim (lookup name s) [
  | none ↦ stop_supervisors rt names s
  | some r ↦
      let left = record r { supervisor = none } in
      let (last, effects) = stop_supervisors rt names (insert name left s) in
      (last, on_stop rt name left r.supervisor ++ effects)
]

-- Shutdown
unfoldable pub shutdown : Runtime → Runtime × List Effect
shutdown rt =
    let (calm, first) = stop_monitors (sorted_keys rt.modules) rt.modules in
    let (still, second) = stop_supervisors rt (sorted_keys calm) calm in
    (record rt { modules = still }, first ++ second)
