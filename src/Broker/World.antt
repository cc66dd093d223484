-- ===== src/Broker/World.antt =====
-- internal/broker as a whole: dispatch, the in-process entry, and the goroutines of the invokes that
-- are under way. An event is one step of one goroutine; a sequence of events is an interleaving.
use suctl.Prelude.{ℕ, ◌+◌, String, List, [], ◌∷◌, ◌++◌, Option, none, ◌==◌, if◌then◌else◌}
use suctl.Protocol.Code
use suctl.Protocol.{sprintf, Request, Response, ErrorDetail}
use suctl.Modules.Route.{Route}
use suctl.Broker.Core.{Core, Outside, Clock, error_response}
use suctl.Broker.Invoke.{
  Admission, refused, admitted, Poll, begin_invoke, poll, finish_invoke, abandon_invoke,
  is_originator,
}
use suctl.Broker.Updates.{
  JobStatus, StatusReply, status, refusal, handle_job_update, handle_job_status,
}

-- What dispatch hands back at once: a response, a job's status under the id of its request, or an invoke that goes on.
pub data Dispatched : Type 0 where
  answered : Response → Dispatched
  reported : String → JobStatus → Dispatched
  begun : Route → Dispatched

abbrev pub of_admission : Core × Admission → Core × Dispatched
of_admission (c, refused resp) = (c, answered resp)
of_admission (c, admitted route cap) = (c, begun route)

abbrev pub of_status : Core → StatusReply → Core × Dispatched
of_status c (status id js) = (c, reported id js)
of_status c (refusal resp) = (c, answered resp)

-- dispatch
unfoldable pub dispatch : Core → Request → String → Clock → Core × Dispatched
dispatch c req caller clock =
    let updated : Core × Response = handle_job_update c req caller clock in
    if req.cmd == "invoke"
    then of_admission (begin_invoke c req caller clock)
    else if req.cmd == "job_update"
    then (updated.0, answered updated.1)
    else if req.cmd == "job_status"
    then of_status c (handle_job_status c req clock)
    else (
      c,
      answered (
          error_response req.id req.job_token Code.unknown_command
            (sprintf "broker: command %q not supported" (req.cmd ∷ [])) clock),
    )

-- InvokeEnvelope: the error that it returns in place of the response.
unfoldable pub envelope_error : Response → Option ErrorDetail
envelope_error resp = if resp.status == "error" then resp.error else none

-- An invoke under way: parked in the queue until its deadline, or being routed.
pub record Pending : Type 0 where
  pub request : Request
  pub caller : String
  pub route : Route
  pub deadline : ℕ

pub record World : Type 0 where
  pub core : Core
  pub parked : List Pending
  pub routing : List Pending
  pub replies : List Dispatched

pub data Event : Type 0 where
  -- a request arrives
  arrive : Request → String → Clock → Event
  -- the first parked invoke looks at its stamp, and goes to the end if it still waits
  wake : Clock → Event
  -- the routed invokes take turns, since their modules answer in any order
  turn : Event
  -- the first invoke that is being routed gets its answer
  reply : Outside → Clock → Event

abbrev pub enter : Pending → World → World
enter p w =
    if is_originator p.caller
    then record w { parked = w.parked ++ p ∷ [] }
    else record w { routing = w.routing ++ p ∷ [] }

abbrev pub after_dispatch : Request → String → Clock → World → Core × Dispatched → World
after_dispatch req caller clock w (c, answered resp) = record w {
  core = c;
  replies = w.replies ++ answered resp ∷ [];
}
after_dispatch req caller clock w (c, reported id js) = record w {
  core = c;
  replies = w.replies ++ reported id js ∷ [];
}
after_dispatch req caller clock w (c, begun route) =
    enter
      (record {
        request = req;
        caller = caller;
        route = route;
        deadline = clock.now + c.admit_timeout;
      })
      (record w { core = c })

unfoldable pub wake_first : Clock → List Pending → World → World
wake_first clock [] w = w
wake_first clock (p ∷ ps) w =
    let (c, resp) = abandon_invoke w.core p.request clock in
    elim (poll p.request.job_token clock.now p.deadline w.core.messages) [
      | Poll.go ↦ record w { parked = ps; routing = w.routing ++ p ∷ [] }
      | Poll.give_up ↦ record w { core = c; parked = ps; replies = w.replies ++ answered resp ∷ [] }
      | Poll.sleep ↦ record w { parked = ps ++ p ∷ [] }
    ]

unfoldable pub reply_first : Outside → Clock → List Pending → World → World
reply_first out clock [] w = w
reply_first out clock (p ∷ ps) w =
    let (c, resp) = finish_invoke w.core out p.request p.caller clock p.route in
    record w { core = c; routing = ps; replies = w.replies ++ answered resp ∷ [] }

abbrev pub rotate : List Pending → List Pending
rotate [] = []
rotate (p ∷ ps) = ps ++ p ∷ []

unfoldable pub step : Event → World → World
unfolding wake_first reply_first
step (arrive req caller clock) w =
    after_dispatch req caller clock w (dispatch w.core req caller clock)
step (wake clock) w = wake_first clock w.parked w
step turn w = record w { routing = rotate w.routing }
step (reply out clock) w = reply_first out clock w.routing w

-- A history of events, and the world that it leaves.
unfoldable pub run : List Event → World → World
run [] w = w
run (e ∷ es) w = run es (step e w)
