-- ===== src/Startup/Activate.antt =====
-- internal/startup/activate.go: the activation of a module. What a process, a hook, the handshake and
-- the self test answer is an argument, and so is the checksum of the installed module.
use suctl.Prelude.{
  ℕ, String, List, [], ◌∷◌, ◌++◌, Option, none, some, ◌⊎◌, inl, inr, lookup, insert, if◌then◌else◌,
  ◌==◌,
}
use suctl.Protocol.{Message, sprintf, sprint_error, Response, ErrorDetail}
use suctl.Protocol.Values.{Json}
use suctl.Manifest.{Manifest}
use suctl.Activation.{StateDir, Fault, Writing, Failure, set_checksum}
use suctl.Hooks.{Plan, run_hook}
use suctl.Modules.{Record, State, set_status, no_reason}
use suctl.Startup.{Runtime, Effect, fire, warn, deactivate}

-- What one attempt meets: the error of each hook, by event; the error of the launch, or its
-- supervisor; the wire that the launch bound; the reply to the handshake, and how the protocol of the
-- manifest in it is decoded; the error of the self test; the monitor; the checksum of the installed
-- module, or an error; and how the recording of it ends.
pub record Attempt : Type 0 where
  pub hooks : String → Option Message
  pub started : Message ⊎ ℕ
  pub bound : Option ℕ
  pub reply : Message ⊎ Response
  pub live_protocol : Option Json → Message ⊎ String
  pub bist : Option Message
  pub monitor : ℕ
  pub checksum : Message ⊎ String
  pub made : Fault
  pub written : Writing

-- The runtime and the directory of the flag files.
pub record Host : Type 0 where
  pub runtime : Runtime
  pub flags : StateDir

-- The error of a hook that was run as planned.
abbrev pub hook_error : Attempt → String → Plan → Option Message
hook_error a event Plan.skip = none
hook_error a event (Plan.reject m) = some m
hook_error a event (Plan.run_exec exec timeout) = a.hooks event
hook_error a event (Plan.run_capability capability wire timeout) = a.hooks event

abbrev pub put : String → Record → Runtime → Runtime
put name r rt = record rt { modules = insert name r rt.modules }

-- failActivation
unfoldable pub fail_activation : String → Record → Message → Runtime → Runtime × List Effect
fail_activation name r reason rt = (
  warn (sprint_error "module %q activation failed: %s" (name ∷ []) reason)
      (put name (set_status State.unavailable reason r) rt),
  fire rt name r "on-activate-fail" ∷ [],
)

abbrev pub protocol_of : Option Manifest → String
protocol_of none = ""
protocol_of (some m) = m.protocol

abbrev pub rejected : String → Option ErrorDetail → Message
rejected status none = sprintf "handshake rejected: status %q" (status ∷ [])
rejected status (some d) = sprint_error "handshake rejected: %s: %s" (d.code ∷ []) d.message

-- handshake: the error, if the module on the wire does not speak the protocol of the manifest.
unfoldable pub handshake :
    Message ⊎ Response → (Option Json → Message ⊎ String) → Option Manifest → Option Message
handshake (inl e) decode m = some (sprint_error "handshake: " [] e)
handshake (inr resp) decode m =
    if resp.status == "ok"
    then elim (decode resp.result) [
      | inl e ↦ some (sprint_error "handshake: decode: " [] e)
      | inr live ↦
          if live == protocol_of m
          then none
          else some (
              sprintf "handshake: manifest mismatch: protocol %q vs %q" (live ∷ protocol_of m ∷ []))
    ]
    else some (rejected resp.status resp.error)

-- The record after the launch: OnChannel binds the wire.
abbrev pub launched : Attempt → Record → Record
launched a r = record r { mux = elim a.bound [ none ↦ r.mux | some wire ↦ some wire ] }

-- The checks between the launch and the post-activate hook: the first that fails.
unfoldable pub first_failure : Attempt → Record → Option Message
unfolding handshake
first_failure a r = elim r.mux [
  | none ↦ some (sprintf "broker wire not bound after launch" [])
  | some wire ↦ elim (handshake a.reply a.live_protocol r.manifest) [
    | some e ↦ some e
    | none ↦ a.bist
  ]
]

abbrev failure_text : Failure → String
failure_text Failure.empty_name = "activation: module short name must not be empty"
failure_text Failure.core_capability = ""
failure_text (Failure.fault e) = e

abbrev pub warn_if : (String → Message) → Option Failure → Runtime → Runtime
warn_if f none rt = rt
warn_if f (some e) rt = warn (f (failure_text e)) rt

-- The checksum that marks the installed content as activated.
unfoldable pub record_checksum : Attempt → String → Host → Host
unfolding set_checksum
record_checksum a name h = elim a.checksum [
  | inl e ↦ record h {
    runtime =
        warn (sprint_error "module %q: cannot compute installed checksum: %v" (name ∷ []) e)
          h.runtime;
  }
  | inr checksum ↦
      let (flags, err) = set_checksum a.made a.written name checksum h.flags in
      record {
        runtime =
            warn_if
              (λ e. sprintf "module %q: cannot record activation checksum: %v" (name ∷ e ∷ [])) err
              h.runtime;
        flags = flags;
      }
]

-- The last steps: the module becomes reachable, and its monitor starts.
unfoldable pub go_live : Attempt → String → Record → Host → Host × List Effect
unfolding record_checksum
go_live a name r h =
    let live = record (set_status State.active no_reason r) { monitor = some a.monitor } in
    (
      record_checksum a name (record h { runtime = put name live h.runtime }),
      Effect.start_monitor a.monitor ∷ [],
    )

-- The record of the module as it is at the moment.
abbrev pub current : String → Record → Runtime → Record
current name r rt = elim (lookup name rt.modules) [ none ↦ r | some now ↦ now ]

-- The record of a module whose post-activate hook failed.
abbrev pub given_up : Message → Record → Record
given_up e r = set_status State.unavailable (sprint_error "post-activate hook failed: " [] e) r

abbrev pub announced : String → Message → Runtime → Runtime
announced name e rt =
    warn (sprint_error "module %q post-activate hook failed: %v — rolling back" (name ∷ []) e) rt

-- What follows Deactivate in a rollback: its error is dropped, and the module is marked.
unfoldable pub mark_failed :
    String → Record → Message → Runtime × List Effect → Runtime × List Effect
mark_failed name r e (after, effects) =
    let failed = given_up e (current name r after) in
    (put name failed after, effects ++ fire after name failed "on-activate-fail" ∷ [])

-- A failed post-activate hook: the module goes through Deactivate.
unfoldable pub roll_back : String → Record → Message → Runtime → Runtime × List Effect
roll_back name r e rt = mark_failed name r e (deactivate name r (announced name e rt)).0

-- After the checks: the supervisor is stored, and the post-activate hook decides.
unfoldable pub finish : Attempt → String → Record → Host → Host × List Effect
unfolding go_live roll_back
finish a name r h =
    let hook = run_hook h.runtime.hook_timeout r.manifest "post-activate" r.mux in
    let stored = record h { runtime = put name r h.runtime } in
    let rest : Host × List Effect = elim (hook_error a "post-activate" hook) [
      | none ↦ go_live a name r stored
      | some e ↦
          let (after, effects) = roll_back name r e stored.runtime in
          (record h { runtime = after }, effects)
    ] in
    (rest.0, Effect.hook name "post-activate" hook ∷ rest.1)

-- A failed activation, in the host.
unfoldable pub refuse : String → Record → Message → Host → Host × List Effect
unfolding fail_activation
refuse name r reason h =
    let (after, effects) = fail_activation name r reason h.runtime in
    (record h { runtime = after }, effects)

-- After the launch: a failed check leaves the supervisor to nobody.
unfoldable pub after_launch : Attempt → ℕ → String → Record → Host → Host × List Effect
unfolding first_failure
after_launch a sup name r h =
    let wired = launched a r in
    elim (first_failure a wired) [
      | none ↦ finish a name (record wired { supervisor = some sup }) h
      | some e ↦ refuse name wired e h
    ]

-- After the setup hook: the launch of the process.
unfoldable pub launch : Attempt → Message ⊎ ℕ → String → Record → Host → Host × List Effect
launch a (inl e) name r h = refuse name r (sprint_error "start module process: " [] e) h
launch a (inr sup) name r h =
    let (after, effects) = after_launch a sup name r h in
    (after, Effect.start_supervisor sup ∷ effects)

-- activateWith
unfoldable pub activate_with : Attempt → String → Record → String → Host → Host × List Effect
activate_with a name r event h =
    let hook = run_hook h.runtime.hook_timeout r.manifest event r.mux in
    let rest : Host × List Effect = elim (hook_error a event hook) [
      | some e ↦ refuse name r (sprint_error "%s hook failed: " (event ∷ []) e) h
      | none ↦ launch a a.started name r h
    ] in
    (rest.0, Effect.hook name event hook ∷ rest.1)
