-- ===== src/Broker/Invoke.antt =====
-- internal/broker/broker.go: handleInvoke, cut where the calling goroutine parks. `begin_invoke` runs
-- up to waitStarted, `poll` is one turn of waitStarted's loop, and `finish_invoke` runs from the
-- routing to the deferred calls.
use suctl.Prelude.{
  ℕ, String, Bool, not, ◌&&◌, [], ◌∷◌, Option, none, some, leb, is_some, ◌==◌, if◌then◌else◌,
}
use suctl.Protocol.Code
use suctl.Protocol.{Message, sprintf, sprint_number, Request, Response, decode_invoke}
use suctl.Protocol.Values.{Json, get}
use suctl.Messages
use suctl.Modules.Route.{Route, resolve, allows}
use suctl.Modules.Footprint.{footprint}
use suctl.Broker.Core.{Core, Trip, replied, broken, Outside, Clock, error_response}
use suctl.Broker.Queue.{advance}

abbrev text_of : Option Json → String
text_of (some (Json.str s)) = s
text_of _ = ""

-- params["name"].(string), which is empty for any other value.
unfoldable pub param_text : String → Json → Option String
unfolding get
param_text key (Json.obj m) = some (text_of (get key m))
param_text key _ = none

-- The checks of handleInvoke above the opening of the exchange.
pub data Admission : Type 0 where
  refused : Response → Admission
  admitted : Route → String → Admission

abbrev not_object : Message
not_object = sprintf "broker: params must be an object with a \"name\" field" []

abbrev name_required : Message
name_required = sprintf "broker: invoke params.name is required" []

abbrev not_active : String → Message
not_active cap = sprintf "%s is not in the active capability surface" (cap ∷ [])

abbrev no_token : String → Message
no_token caller =
    if caller == ""
    then sprintf "broker: the face sent an invoke without a job_token" []
    else sprintf "broker: module %q sent an invoke without a job_token" (caller ∷ [])

-- The gates of a resolved capability.
unfoldable pub check_route : Core → Request → String → Clock → String → Route → Admission
check_route c req caller clock cap route =
    if not (caller == "")
      && (not (route.module_name == caller) && not (allows caller cap c.modules))
    then refused (
        error_response req.id req.job_token Code.capability_not_declared
          (sprintf "module %q has not declared %q in requires.capabilities" (caller ∷ cap ∷ []))
          clock)
    else if req.job_token == ""
    then refused (error_response req.id "" Code.invalid_params (no_token caller) clock)
    else admitted route cap

unfoldable pub check_name : Core → Request → String → Clock → String → Admission
check_name c req caller clock cap =
    if cap == ""
    then refused (error_response req.id req.job_token Code.invalid_params name_required clock)
    else elim (resolve cap c.modules) [
      | none ↦
          refused
            (error_response req.id req.job_token Code.capability_not_active (not_active cap) clock)
      | some route ↦ check_route c req caller clock cap route
    ]

unfoldable pub check_invoke : Core → Request → String → Clock → Admission
check_invoke c req caller clock = elim (param_text "name" req.params) [
  | none ↦ refused (error_response req.id req.job_token Code.invalid_params not_object clock)
  | some cap ↦ check_name c req caller clock cap
]

-- advance, on the broker's stores.
unfoldable pub advance_core : Clock → Core → Core
advance_core clock c = record c { messages = advance (footprint c.modules) clock.now c.messages }

abbrev pub is_originator : String → Bool
is_originator caller = caller == ""

-- The exchange is open; an originator also goes into the queue, and waits.
unfoldable pub open_invoke : Core → Request → String → Clock → Route → String → Core
open_invoke c req caller clock route cap =
    let opened = record c {
      messages = Messages.open_exchange req route.module_name cap caller clock.now c.messages;
    } in
    if is_originator caller then advance_core clock opened else opened

-- handleInvoke up to the wait: the state, and the reply or the route of the exchange.
unfoldable pub begin_invoke : Core → Request → String → Clock → Core × Admission
begin_invoke c req caller clock = elim (check_invoke c req caller clock) [
  | refused resp ↦ (c, refused resp)
  | admitted route cap ↦ (open_invoke c req caller clock route cap, admitted route cap)
]

-- One turn of waitStarted: go on, give up, or wait for the next broadcast.
pub data Poll : Type 0 where
  go give_up sleep : Poll

unfoldable pub poll : String → ℕ → ℕ → Messages.Store → Poll
poll token now deadline s =
    if is_some (Messages.started_at token s)
    then Poll.go
    else if leb deadline now
    then Poll.give_up
    else Poll.sleep

abbrev trip_response : Request → Clock → Trip → Response
trip_response req clock (replied resp) = resp
trip_response req clock (broken err) =
    error_response req.id req.job_token Code.internal_error
      (sprintf "broker: route to module: %s" (err ∷ [])) clock

-- The routing of an admitted exchange.
unfoldable pub route_response : Outside → Request → String → Clock → Route → Response
route_response out req caller clock route = elim route.handler [
  | some h ↦ out.handle h req caller
  | none ↦ elim route.mux [
    | none ↦
        error_response req.id req.job_token Code.internal_error
          (sprintf "broker: module %q has no live wire" (route.module_name ∷ [])) clock
    | some mux ↦ trip_response req clock (out.round_trip mux req)
  ]
]

-- The async admission contract.
unfoldable pub accept_async : Request → String → Clock → Route → Response → Response
accept_async req caller clock route resp =
    let (ir, ok) = decode_invoke resp.result in
    if is_originator caller && (route.async && resp.status == "ok") && not (ok && ir.accepted)
    then error_response req.id req.job_token Code.callable_failed
        (sprintf "module did not accept async job" []) clock
    else resp

-- The deferred completion: the response that is returned.
unfoldable pub stamp_response : Request → Clock → Response → Response
stamp_response req clock resp = record resp {
  id = req.id;
  ts_sent = if resp.ts_sent == "" then clock.text else resp.ts_sent;
}

-- The deferred calls of handleInvoke on a response.
unfoldable pub close_invoke : Core → Request → String → Clock → Response → Core × Response
close_invoke c req caller clock resp =
    let stamped = stamp_response req clock resp in
    let closed = record c {
      messages = (Messages.complete req.id stamped clock.now c.messages).0;
    } in
    (if is_originator caller then advance_core clock closed else closed, stamped)

-- The rest of handleInvoke once the wait is over, for an exchange that was started or is a hop.
unfoldable pub finish_invoke : Core → Outside → Request → String → Clock → Route → Core × Response
finish_invoke c out req caller clock route =
    close_invoke c req caller clock
      (accept_async req caller clock route (route_response out req caller clock route))

-- The same for an originator that was not started in time.
unfoldable pub abandon_invoke : Core → Request → Clock → Core × Response
abandon_invoke c req clock = close_invoke c req "" clock (
    error_response req.id req.job_token Code.internal_error
      (sprint_number "broker: admission timed out after %v" c.admit_timeout) clock)

-- probeDispatch
unfoldable pub probe_dispatch : Core → Outside → Request → Clock → Response
probe_dispatch c out req clock = elim (param_text "name" req.params) [
  | none ↦ error_response req.id req.job_token Code.invalid_params not_object clock
  | some cap ↦
      if cap == ""
      then error_response req.id req.job_token Code.invalid_params name_required clock
      else elim (resolve cap c.modules) [
        | none ↦
            error_response req.id req.job_token Code.capability_not_active (not_active cap) clock
        | some route ↦ route_response out req "" clock route
      ]
]
