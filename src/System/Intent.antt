-- ===== src/System/Intent.antt =====
-- internal/system/handlers.go with internal/activation and internal/startup: the flag on disk and the
-- state of the module change together.
use suctl.Prelude.{
  String, false, ◌||◌, List, [], ◌∷◌, none, some, lookup, is_some, if◌then◌else◌, ◌==◌, ◌≡◌, ◌≢◌,
  refl, ◌⊎◌, inl, inr, contains, arith, eq_iff, ap, sym, ◌∙◌, Bool-cases, Option-cases,
  lookup-insert,
}
use suctl.Protocol.{Message, ErrorDetail}
use suctl.Protocol.Values.{Json}
use suctl.Activation
use suctl.Activation.{StateDir, Entry, Fault, Creation, entries, flag_path, activate}
use suctl.Activation.Flags.{flag, lookup-flag}
use suctl.Activation.Sequences.{flagged, lookup_removed, lookup_nothing}
use suctl.Gate.{busy}
use suctl.Messages.Jobs.{running}
use suctl.Modules.{Record, State, set_status, no_reason}
use suctl.Modules.Footprint.{footprint}
use suctl.Startup.Teardown.{unload-Unloaded, emptied, deactivate_record_active}
use suctl.Startup.{
  Runtime, deactivate, unload, after_deactivate, deactivate_module, deactivate_record,
}
use suctl.Startup.Activate.{Host}
use suctl.System.{
  answered, refused, Faults, Outcome, subject_of, activate_flags, drop_intent, module_deactivate,
}

activate_done :
    (made : Fault) (opened : Creation) (name m : String) (dir : StateDir)
    → (activate made opened name dir).1 ≡ none
    → flagged (activate made opened name dir).0 m ≡ (name == m || flagged dir m)
unfolding activate flag_path
activate_done (some e) opened name m dir h = ground (arith, h)
activate_done none (Creation.denied e) name m dir h = ground (arith, h)
activate_done none (Creation.unclosed e) name m dir h =
    ground (arith, h, lookup-flag name m (Entry.file "") (entries dir), eq_iff name m)
activate_done none Creation.clean name m dir h =
    ground (arith, h, lookup-flag name m (Entry.file "") (entries dir), eq_iff name m)

activate_flags_done :
    (f : Faults) (name : String) (names : List String) (dir : StateDir)
    → (activate_flags f (name ∷ names) dir).1 ≡ none
    → ((activate (f.made name) (f.opened name) name dir).1 ≡ none)
      × (activate_flags f (name ∷ names) dir
          ≡ activate_flags f names (activate (f.made name) (f.opened name) name dir).0)
unfolding activate_flags
activate_flags_done f name names dir h =
    elim (Option-cases (activate (f.made name) (f.opened name) name dir).1) [
      | inr (e, fails) ↦ absurd (lemma e fails)
      | inl done ↦ (done, rw (done, activate_flags) refl)
    ]
  where
    lemma :
        (e : Activation.Failure) → (activate (f.made name) (f.opened name) name dir).1 ≡ some e → ⊥
    lemma e fails = ground (arith, h, fails)

pub activate_flags-flagged :
    (f : Faults) (names : List String) (dir : StateDir) (m : String)
    → (activate_flags f names dir).1 ≡ none
    → flagged (activate_flags f names dir).0 m ≡ (contains names m || flagged dir m)
unfolding activate_flags
activate_flags-flagged f [] dir m h = refl
activate_flags-flagged f (name ∷ names) dir m h =
    let (done, rest) = activate_flags_done f name names dir h in
    let next = (activate (f.made name) (f.opened name) name dir).0 in
    let others = activate_flags-flagged f names next m (sym (ap (λ x. x.1) rest) ∙ h) in
    ap (λ x. flagged x.0 m) rest
    ∙ ground (arith, others, activate_done (f.made name) (f.opened name) name m dir done)

deactivate_done :
    (e : Fault) (name m : String) (dir : StateDir)
    → (Activation.deactivate e name dir).1 ≡ none
    → flagged (Activation.deactivate e name dir).0 m ≡ (if name == m then false else flagged dir m)
unfolding Activation.deactivate flag_path
deactivate_done (some e) name m dir h = ground (arith, h)
deactivate_done none name m none h = ground (arith, h, lookup_nothing (flag m))
deactivate_done none name m (some es) h = ground (arith, h, lookup_removed name m es, eq_iff name m)

-- A module that is not reachable.
abbrev pub NotActive : String → Host → Type 0
NotActive name h = (r : Record) → lookup name h.runtime.modules ≡ some r → r.state ≢ State.active

-- Either nothing changes, and the answer is an error; or the flag is gone and the module is not
-- reachable, and every other flag is as it was.
abbrev pub Dropped : String → Host → Outcome → Type 0
Dropped name h out =
    ((e : ErrorDetail) × (out.0 ≡ refused e) × (out.1 ≡ (h, [])))
    ⊎ ((m : Message) × (out.0 ≡ answered "ok" m)
        × ((other : String)
            → flagged out.1.0.flags other
              ≡ (if name == other then false else flagged h.flags other))
        × NotActive name out.1.0)

is_active_cases : (st : State) → (st ≡ State.active) ⊎ (st ≢ State.active)
is_active_cases State.active = inl refl
is_active_cases State.ready = inr (λ e. cc e)
is_active_cases State.unavailable = inr (λ e. cc e)
is_active_cases State.missing = inr (λ e. cc e)
is_active_cases State.failed = inr (λ e. cc e)

-- An active module that no running job covers is unloaded.
unloaded_state :
    (name : String) (r now : Record) (rt : Runtime)
    → busy (footprint rt.modules) name (running rt.messages) ≡ none
    → lookup name (after_deactivate (deactivate name r rt)).0.modules ≡ some now
    → now.state ≡ State.ready
unfolding deactivate
unloaded_state name r now rt free here =
    let done = unload-Unloaded name r rt in
    let left : (after_deactivate (deactivate name r rt)) ≡ unload name r rt =
      rw (free, deactivate) refl in
    let found : some (emptied r) ≡ some now =
      sym (done.modules name ∙ ground (arith, eq_iff name name))
      ∙ ap (λ x. lookup name x.0.modules) (sym left)
      ∙ here in
    let same : emptied r ≡ now = cc found in sym (ap (λ x. x.state) same)

-- A module that was not active stays so.
idle_state :
    (name : String) (r now : Record) (rt : Runtime)
    → lookup name rt.modules ≡ some r
    → r.state ≢ State.active
    → lookup name (deactivate_record name r rt).0.modules ≡ some now
    → now.state ≢ State.active
unfolding deactivate_record
idle_state name r now rt stands idle here = ground (
  arith,
  stands,
  idle,
  here,
  lookup-insert name name (set_status State.ready no_reason r) rt.modules,
  eq_iff name name,
)

deactivate_module-NotActive :
    (name : String) (h : Host) (flags : StateDir)
    → busy (footprint h.runtime.modules) name (running h.runtime.messages) ≡ none
    → NotActive name (record { runtime = (deactivate_module name h.runtime).0; flags = flags })
unfolding deactivate_module
deactivate_module-NotActive name h flags free now here =
    elim (Option-cases (lookup name h.runtime.modules)) [
      | inl nothing ↦ ground (arith, nothing, here)
      | inr (r, stands) ↦
          let same : deactivate_module name h.runtime ≡ deactivate_record name r h.runtime =
            rw (stands, deactivate_module) refl in
          let left = sym (ap (λ x. lookup name x.0.modules) same) ∙ here in
          elim (is_active_cases r.state) [
            | inr idle ↦ idle_state name r now h.runtime stands idle left
            | inl active ↦
                let unloads = deactivate_record_active name r h.runtime active in
                let ready =
                  unloaded_state name r now h.runtime free
                    (sym (ap (λ x. lookup name x.0.modules) unloads) ∙ left) in
                λ e. cc (ready, e)
          ]
    ]

drop_intent-Dropped :
    (f : Faults) (name : String) (h : Host)
    → busy (footprint h.runtime.modules) name (running h.runtime.messages) ≡ none
    → Dropped name h (drop_intent f name h)
unfolding drop_intent
drop_intent-Dropped f name h free =
    elim (Option-cases (Activation.deactivate (f.removed name) name h.flags).1) [
      | inr (e, fails) ↦ rw (fails, drop_intent) (inl (_, refl, refl))
      | inl done ↦
          rw (done, drop_intent)
            (inr (
              _,
              refl,
              λ other. deactivate_done (f.removed name) name other h.flags done,
              deactivate_module-NotActive name h
                  (Activation.deactivate (f.removed name) name h.flags).0 free,
            ))
    ]

-- Module.deactivate either answers with an error and changes neither the runtime nor the flag
-- files, or answers ok, and then the flag file of the module is gone, all other flag files are as
-- before, and the module is not active.
pub module_deactivate-Dropped :
    (f : Faults) (params : Json) (h : Host)
    → Dropped (subject_of params) h (module_deactivate f params h)
unfolding module_deactivate
module_deactivate-Dropped f params h = elim (Bool-cases (subject_of params == "")) [
  | inl blank ↦ rw (blank, module_deactivate) (inl (_, refl, refl))
  | inr named ↦ elim (Bool-cases (is_some (lookup (subject_of params) h.runtime.modules))) [
    | inr unknown ↦ rw (named, unknown, module_deactivate) (inl (_, refl, refl))
    | inl known ↦
        elim (Option-cases
          (busy (footprint h.runtime.modules) (subject_of params) (running h.runtime.messages))) [
            | inr (token, held) ↦ rw (named, known, held, module_deactivate) (inl (_, refl, refl))
            | inl free ↦
                rw (named, known, free, module_deactivate)
                  (drop_intent-Dropped f (subject_of params) h free)
          ]
  ]
]
