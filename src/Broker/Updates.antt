-- ===== src/Broker/Updates.antt =====
-- internal/broker/broker.go: handleJobUpdate, handleJobStatus and the surface sink.
use suctl.Prelude.{
  ℕ, String, Bool, true, false, not, ◌&&◌, List, [], ◌∷◌, ◌++◌, Option, none, some, nat_eq, ◌==◌,
  if◌then◌else◌,
}
use suctl.Protocol.Code
use suctl.Protocol.{
  sprintf, Request, Response, ErrorDetail, JobUpdateParams, decode_update, version,
}
use suctl.Protocol.Values.{Json}
use suctl.Messages
use suctl.Messages.Jobs.{Job, job, is_terminal}
use suctl.Broker.Core.{Core, Clock, error_response}
use suctl.Broker.Invoke.{advance_core, param_text}

-- surfaceOriginated, over the records of the token.
unfoldable pub surface_originated : List Messages.Record → Bool
surface_originated [] = false
surface_originated (r ∷ rs) =
    if r.request.cmd == "invoke" && r.caller == "" then true else surface_originated rs

abbrev pub ok_response : String → String → Option Json → Clock → Response
ok_response id job_token result clock = record {
  v = version;
  id = id;
  ts_sent = clock.text;
  status = "ok";
  job_token = job_token;
  result = result;
  error = none;
}

abbrev pub is_nil : List Messages.Record → Bool
is_nil [] = true
is_nil (r ∷ rs) = false

-- The report is recorded as an exchange of its own, and answered.
unfoldable pub record_report : Core → Request → String → Clock → Core
record_report c req caller clock =
    let opened = Messages.open_exchange req caller "" caller clock.now c.messages in
    record c {
      messages = (Messages.complete req.id (ok_response req.id "" none clock) clock.now opened).0;
    }

-- The report goes on to the surface if the face originated the job.
unfoldable pub deliver : String → JobUpdateParams → Core → Core
deliver token params c =
    if c.sink && surface_originated (Messages.by_token token c.messages)
    then record c { delivered = c.delivered ++ (token, params) ∷ [] }
    else c

-- handleJobUpdate
unfoldable pub handle_job_update : Core → Request → String → Clock → Core × Response
handle_job_update c req caller clock =
    let (params, ok) = decode_update req.params in
    let routed = deliver req.job_token params (record_report c req caller clock) in
    if req.job_token == ""
    then (
      c,
      error_response req.id "" Code.invalid_params
          (sprintf "broker: job_token is required for job_update" []) clock,
    )
    else if not ok
    then (
      c,
      error_response req.id req.job_token Code.invalid_params
          (sprintf "broker: invalid params: %s" []) clock,
    )
    else if is_nil (Messages.by_token req.job_token c.messages)
    then (
      c,
      error_response req.id req.job_token Code.job_not_found (sprintf "broker: job not found" [])
          clock,
    )
    else (
      if is_terminal params.state then advance_core clock routed else routed,
      ok_response req.id "" none clock,
    )

-- What handleJobStatus reports of a job; a time is none while it is zero.
pub record JobStatus : Type 0 where
  pub job_token : String
  pub state : String
  pub started_at : Option ℕ
  pub finished_at : Option ℕ
  pub output : Option Json
  pub error : Option ErrorDetail

abbrev some_time : ℕ → Option ℕ
some_time t = if nat_eq t 0 then none else some t

abbrev pub status_of : Job → JobStatus
status_of j = record {
  job_token = j.token;
  state = j.state;
  started_at = some_time j.started_at;
  finished_at = some_time j.finished_at;
  output = j.output;
  error = j.error;
}

-- The token that a job_status names, in its params or in its envelope.
unfoldable pub status_token : Request → String
unfolding param_text
status_token req = elim (param_text "job_token" req.params) [
  | none ↦ req.job_token
  | some t ↦ if t == "" then req.job_token else t
]

-- A job's status goes back under the id of the request.
pub data StatusReply : Type 0 where
  status : String → JobStatus → StatusReply
  refusal : Response → StatusReply

-- handleJobStatus; the result is left decoded.
unfoldable pub handle_job_status : Core → Request → Clock → StatusReply
handle_job_status c req clock =
    let token = status_token req in
    if token == ""
    then refusal (
        error_response req.id "" Code.invalid_params
          (sprintf "broker: job_token is required for job_status" []) clock)
    else elim (job token c.messages) [
      | none ↦ refusal (
          error_response req.id token Code.job_not_found (sprintf "broker: job not found" []) clock)
      | some j ↦ status req.id (status_of j)
    ]
