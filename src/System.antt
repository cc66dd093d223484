-- ===== src/System.antt =====
-- internal/system/handlers.go: the in-process capabilities of the control plane that change state, over
-- the modules, the flag files and the lifecycle coordinator.
pub mod Cascade
pub mod Intent
pub mod Consent
pub mod Views
pub mod Jobs
pub mod Exchanges
pub mod Visibility
use Cascade.{CascadeDetail, new_cascade_error}
use suctl.Prelude.{
  String, Bool, true, false, not, ◌&&◌, List, [], ◌∷◌, ◌++◌, Option, none, some, lookup, is_some,
  if◌then◌else◌, ◌==◌,
}
use suctl.Protocol.{Message, sprintf, ErrorDetail}
use suctl.Protocol.Code
use suctl.Protocol.Values.{Json, get}
use suctl.Activation
use suctl.Activation.{StateDir, Fault, Creation, Failure}
use suctl.Gate.{busy}
use suctl.Manifest.{is_empty}
use suctl.Messages.Jobs.{running}
use suctl.Modules.{Record, is_active, is_inert, state_name}
use suctl.Modules.Footprint.{footprint, required_inactive_providers}
use suctl.Startup.{Effect, deactivate_module}
use suctl.Startup.Activate.{Host}
use suctl.Startup.Boot.{Outside, activate_module}

-- system.ShortName
abbrev pub short_name : String
short_name = "system"

-- A response: its result and message, or its error.
pub data Answer : Type 0 where
  answered : String → Message → Answer
  refused : ErrorDetail → Answer

-- errorResponse
abbrev pub error_answer : String → Message → Answer
error_answer code m = refused (record { code = code; message = m; detail = none })

-- invokeArgs: the arguments of the capability, none where there is no map.
unfoldable pub invoke_args : Json → Option Json
unfolding get
invoke_args (Json.obj params) = elim (get "args" params) [
  | none ↦ some (Json.obj params)
  | some (Json.obj args) ↦ some (Json.obj args)
  | some _ ↦ none
]
invoke_args _ = none

abbrev text_in : Option Json → String → String
text_in (some (Json.obj args)) key = elim (get key args) [ some (Json.str s) ↦ s | _ ↦ "" ]
text_in _ key = ""

abbrev flag_in : Option Json → String → Bool
flag_in (some (Json.obj args)) key = elim (get key args) [ some (Json.bool b) ↦ b | _ ↦ false ]
flag_in _ key = false

-- params["subject"] and params[protocol.ConfirmParam]
unfoldable pub subject_of : Json → String
unfolding invoke_args get
subject_of params = text_in (invoke_args params) "subject"

unfoldable pub confirmed : Json → Bool
unfolding invoke_args get
confirmed params = flag_in (invoke_args params) "confirm"

-- How the calls on the flag file of each module end.
pub record Faults : Type 0 where
  pub made : String → Fault
  pub opened : String → Creation
  pub removed : String → Fault

-- A handler's outcome.
abbrev pub Outcome : Type 0
Outcome = Answer × (Host × List Effect)

abbrev pub failure_message : Failure → Message
failure_message Failure.empty_name = sprintf "activation: module short name must not be empty" []
failure_message Failure.core_capability =
    sprintf "activation: %q is a core capability, not a module — it cannot be deactivated"
      (short_name ∷ [])
failure_message (Failure.fault e) = sprintf e []

-- The flags of the named modules, up to the first error.
unfoldable pub activate_flags : Faults → List String → StateDir → Activation.Outcome StateDir
activate_flags f [] dir = (dir, none)
activate_flags f (name ∷ names) dir =
    let (after, err) = Activation.activate (f.made name) (f.opened name) name dir in
    let rest = activate_flags f names after in elim err [ some e ↦ (after, some e) | none ↦ rest ]

-- activateFn on each of the named modules.
unfoldable pub activate_each : Outside → List String → Host → Host × List Effect
activate_each o [] h = (h, [])
activate_each o (name ∷ names) h =
    let (after, effects) = activate_module o name h in
    let (last, others) = activate_each o names after in (last, effects ++ others)

-- confirmationRequiredResponse
abbrev pub confirmation_required : String → List String → Answer
confirmation_required target providers = refused (
    new_cascade_error (sprintf "activating %q also requires activating: %s" (target ∷ providers))
      (record { target = target; providers = providers }))

-- The end of moduleActivate: the flags of the providers and of the target, then their lifecycles.
unfoldable pub activate_confirmed : Outside → Faults → String → List String → Host → Outcome
unfolding activate_flags activate_each
activate_confirmed o f name providers h =
    let all = providers ++ name ∷ [] in
    let (flags, err) = activate_flags f all h.flags in
    let flagged : Host = record h { flags = flags } in
    elim err [
      | some e ↦ (error_answer Code.internal_error (failure_message e), (flagged, []))
      | none ↦
          (answered "ok" (sprintf "module %q activated" (name ∷ [])), activate_each o all flagged)
    ]

-- moduleActivate for a module of the store.
unfoldable pub module_activate_record : Outside → Faults → Bool → String → Record → Host → Outcome
unfolding activate_confirmed
module_activate_record o f confirm name r h =
    let providers = required_inactive_providers h.runtime.modules name in
    if is_inert r
    then (
      error_answer "NOT_INSTALLABLE" (
          sprintf "module %q is not fully installed (status: %s)" (name ∷ state_name r.state ∷ [])),
      (h, []),
    )
    else if is_active r.state
    then (answered "already_active" (sprintf "module %q is already active" (name ∷ [])), (h, []))
    else if not (is_empty providers) && not confirm
    then (confirmation_required name providers, (h, []))
    else activate_confirmed o f name providers h

abbrev pub not_found : String → Answer
not_found name = error_answer "NOT_FOUND" (sprintf "module %q not found" (name ∷ []))

abbrev pub no_subject : Answer
no_subject = error_answer Code.invalid_params (sprintf "subject is required" [])

-- moduleActivate
unfoldable pub module_activate : Outside → Faults → Json → Host → Outcome
unfolding subject_of confirmed module_activate_record
module_activate o f params h =
    let name = subject_of params in
    if name == "" then (no_subject, (h, [])) else elim (lookup name h.runtime.modules) [
      | none ↦ (not_found name, (h, []))
      | some r ↦ module_activate_record o f (confirmed params) name r h
    ]

-- moduleDeactivate below the gate: the flag goes, then the lifecycle follows.
unfoldable pub drop_intent : Faults → String → Host → Outcome
unfolding deactivate_module
drop_intent f name h =
    let (flags, err) = Activation.deactivate (f.removed name) name h.flags in
    let (after, effects) = deactivate_module name h.runtime in
    elim err [
      | some e ↦ (error_answer Code.internal_error (failure_message e), (h, []))
      | none ↦ (
        answered "ok" (sprintf "module %q deactivated" (name ∷ [])),
        (record { runtime = after; flags = flags }, effects),
      )
    ]

-- moduleDeactivate
unfoldable pub module_deactivate : Faults → Json → Host → Outcome
unfolding subject_of drop_intent
module_deactivate f params h =
    let name = subject_of params in
    if name == ""
    then (no_subject, (h, []))
    else if not (is_some (lookup name h.runtime.modules))
    then (not_found name, (h, []))
    else elim (busy (footprint h.runtime.modules) name (running h.runtime.messages)) [
      | some token ↦ (
        error_answer Code.internal_error (
            sprintf "module %q is busy (job %s holds its footprint); deactivation refused"
              (name ∷ token ∷ [])),
        (h, []),
      )
      | none ↦ drop_intent f name h
    ]
