-- ===== src/Startup/Teardown.antt =====
-- internal/startup/deactivate.go: unloading one module beside the jobs that run.
use suctl.Prelude.{
  String, ◌≡◌, refl, true, false, ◌==◌, List, [], ◌∷◌, ◌++◌, some, none, ◌⊎◌, inl, inr, arith,
  eq_iff, lookup, lookup-insert, lookup-delete, contains, In, Bool-cases, if◌then◌else◌,
}
use suctl.Messages.Jobs.{Job, running}
use suctl.Gate.{busy}
use suctl.Modules.{Record, State, no_reason}
use suctl.Modules.Footprint.{footprint}
use suctl.Startup.{
  Runtime, Effect, stop_monitor, stop_supervisor, to_handle, fire, deregister, stop_process, unload,
  deactivate, deactivate_record, deactivate_module, after_deactivate,
}

-- A running job that covers the module, or none that does.
pub busy_cases :
    (fp : String → List String) (name : String) (js : List Job)
    → ((j : Job) × In j js
        × (busy fp name js ≡ some j.token)
        × (contains (fp j.module_name) name ≡ true))
      ⊎ (busy fp name js ≡ none) × ((j : Job) → In j js → contains (fp j.module_name) name ≡ false)
unfolding busy
busy_cases fp name [] = inr (refl, λ j h. absurd h)
busy_cases fp name (x ∷ js) = elim (Bool-cases (contains (fp x.module_name) name)) [
  | inl covers ↦ inl (x, inl refl, rw covers refl, covers)
  | inr free ↦ elim (busy_cases fp name js) [
    | inl (j, l, is, covers) ↦ inl (j, inr l, rw free is, covers)
    | inr (is, others) ↦ inr (rw free is, frees free others)
  ]
]
  where
    frees :
        contains (fp x.module_name) name ≡ false
        → ((j : Job) → In j js → contains (fp j.module_name) name ≡ false)
        → (j : Job) → In j (x ∷ js)
        → contains (fp j.module_name) name ≡ false
    frees free others j (inl e) = rw e free
    frees free others j (inr l) = others j l

-- What is left of a record that was unloaded.
abbrev pub emptied : Record → Record
emptied r = record r {
  state = State.ready;
  reason = no_reason;
  supervisor = none;
  monitor = none;
  mux = none;
}

-- The module is ready and holds nothing; no other record is touched; its attempts are forgotten; and
-- the drain hook lies between the stop of its monitor and the stop of its process.
pub record Unloaded (name : String) (r : Record) (rt : Runtime) (out : Runtime × List Effect)
    : Type 0 where
  pub modules :
      (other : String)
      → lookup other out.0.modules
        ≡ (if name == other then some (emptied r) else lookup other rt.modules)
  pub attempts : lookup name out.0.health_restarts ≡ none
  pub effects :
      out.1
      ≡ to_handle stop_monitor r.monitor
        ++ (fire rt name r "pre-deactivate"
            ∷ (to_handle stop_supervisor r.supervisor
                ++ fire rt name (emptied r) "post-deactivate" ∷ []))

pub unload-Unloaded :
    (name : String) (r : Record) (rt : Runtime) → Unloaded name r rt (unload name r rt)
unfolding unload
unload-Unloaded name r rt = record {
  modules = λ other. lookup-insert name other (emptied r) rt.modules;
  attempts = rw lookup-delete (rw ((eq_iff name name).1 refl) refl);
  effects = unfold deregister stop_process in refl;
}

-- Where an unload leads: it is refused for a running job whose footprint covers the module, and then
-- all that changes is a warning, or no running job covers the module and it is unloaded.
abbrev pub Verdict : String → Record → Runtime → Runtime × List Effect → Type 0
Verdict name r rt out =
    ((j : Job) × In j (running rt.messages)
      × (contains (footprint rt.modules j.module_name) name ≡ true)
      × (out.0.modules ≡ rt.modules)
      × (out.0.health_restarts ≡ rt.health_restarts)
      × (out.1 ≡ []))
    ⊎ ((j : Job)
        → In j (running rt.messages)
        → contains (footprint rt.modules j.module_name) name ≡ false)
      × Unloaded name r rt out

deactivate-Verdict :
    (name : String) (r : Record) (rt : Runtime)
    → Verdict name r rt (after_deactivate (deactivate name r rt))
unfolding deactivate
deactivate-Verdict name r rt = elim (busy_cases (footprint rt.modules) name (running rt.messages)) [
  | inl (j, l, is, covers) ↦ rw (is, deactivate) (inl (j, l, covers, refl, refl, refl))
  | inr (is, free) ↦ rw (is, deactivate) (inr (free, unload-Unloaded name r rt))
]

pub deactivate_record_active :
    (name : String) (r : Record) (rt : Runtime)
    → r.state ≡ State.active
    → deactivate_record name r rt ≡ after_deactivate (deactivate name r rt)
unfolding deactivate_record
deactivate_record_active name r rt active = ground arith

-- DeactivateModule of an active module: if the footprint of a running job covers it, no record
-- changes and nothing is stopped; otherwise the module is ready and holds no process, monitor or
-- wire, every other record is as before, its restart attempts are forgotten, and the drain hook
-- runs after the monitor is stopped and before the process is.
pub deactivate_module-Verdict :
    (name : String) (r : Record) (rt : Runtime)
    → lookup name rt.modules ≡ some r
    → r.state ≡ State.active
    → Verdict name r rt (deactivate_module name rt)
unfolding deactivate_module
deactivate_module-Verdict name r rt e active =
    rw (e, deactivate_module)
      (rw (deactivate_record_active name r rt active) (deactivate-Verdict name r rt))
