-- ===== src/Client.antt =====
-- sdk/brokerclient/brokerclient.go: the module's end of its wire, as steps under its mutex, and the
-- calls over it. A waiting call is a number, and what its channel receives is an entry of `received`: a
-- response, or the nil sentinel. Ids, times and tokens that are minted are arguments; the wire that a
-- process inherits is one that it may lack.
pub mod Hops
pub mod Mirror
use suctl.Prelude.{
  ℕ, String, Bool, true, false, ◌&&◌, List, [], ◌∷◌, ◌++◌, Option, none, some, ◌⊎◌, inl, inr, Dict,
  lookup, insert, delete, is_some, ◌==◌, if◌then◌else◌,
}
use suctl.Protocol.Code
use suctl.Protocol.{
  Message, sprintf, sprint_number, Request, Response, ErrorDetail, InvokeResponse, decode_invoke,
  version,
}
use suctl.Protocol.Values.{Json, Fields}

pub record BrokerWire : Type 0 where
  pub pending : Dict ℕ
  pub err : Option Message
  pub received : List (ℕ × Option Response)
  pub handler : Option (Request → Response)

-- newWire
abbrev pub new_wire : BrokerWire
new_wire = record { pending = []; err = none; received = []; handler = none }

abbrev pub no_wire : Message
no_wire = sprintf "brokerclient: no inherited broker wire (not a core-managed module)" []

-- SetRequestHandler: an error, or the wire with the handler.
unfoldable pub set_request_handler : (Request → Response) → Option BrokerWire → Message ⊎ BrokerWire
set_request_handler h none = inl no_wire
set_request_handler h (some w) = inr (record w { handler = some h })

-- serveInbound: the response that is written.
unfoldable pub serve_inbound : String → Request → BrokerWire → Response
serve_inbound stamp req w = elim w.handler [
  | some h ↦ h req
  | none ↦ record {
    v = version;
    id = req.id;
    ts_sent = stamp;
    status = "error";
    job_token = req.job_token;
    result = none;
    error = some (record {
      code = Code.unknown_command;
      message = sprintf "brokerclient: no request handler installed" [];
      detail = none;
    });
  }
]

-- deliver
unfoldable pub deliver : Response → BrokerWire → BrokerWire
deliver resp w = elim (lookup resp.id w.pending) [
  | none ↦ w
  | some call ↦ record w {
    pending = delete resp.id w.pending;
    received = w.received ++ (call, some resp) ∷ [];
  }
]

abbrev pub released : Dict ℕ → List (ℕ × Option Response)
released [] = []
released ((id, call) ∷ p) = (call, none) ∷ released p

abbrev first_error : Option Message → Message → Message
first_error none e = e
first_error (some old) e = old

-- fail
unfoldable pub fail : Message → BrokerWire → BrokerWire
fail e w = record w {
  err = some (first_error w.err e);
  pending = [];
  received = w.received ++ released w.pending;
}

-- roundTrip up to its write: the sticky error, or the wire on which the call waits.
unfoldable pub begin_round_trip : ℕ → Request → BrokerWire → Message ⊎ BrokerWire
begin_round_trip call req w = elim w.err [
  | some e ↦ inl e
  | none ↦ inr (record w { pending = insert req.id call w.pending })
]

-- roundTrip after a failed write, or after its timeout.
unfoldable pub forget : String → BrokerWire → BrokerWire
forget id w = record w { pending = delete id w.pending }

-- roundTrip on what its channel receives.
unfoldable pub outcome : Option Response → BrokerWire → Message ⊎ Response
outcome (some resp) w = inr resp
outcome none w = elim w.err [ none ↦ inl (sprintf "brokerclient: wire closed" []) | some e ↦ inl e ]

-- A Go error that a call returns.
pub data Failure : Type 0 where
  transport : Message → Failure
  refusal : ErrorDetail → Failure

-- jobTokenFor, on the token that the context carries, or the empty text.
unfoldable pub job_token_for : String → String → String
job_token_for carried minted = if carried == "" then minted else carried

-- The envelope of invoke.
unfoldable pub invoke_request : String → String → String → String → Json → Request
invoke_request id stamp token name args = record {
  v = version;
  id = id;
  ts_sent = stamp;
  cmd = "invoke";
  job_token = token;
  params = Json.obj (Fields.field "name" (Json.str name) (Fields.field "args" args Fields.end));
}

-- The envelope of JobUpdate; its params are encoded already.
unfoldable pub update_request : String → String → String → Json → Request
update_request id stamp token params = record {
  v = version;
  id = id;
  ts_sent = stamp;
  cmd = "job_update";
  job_token = token;
  params = params;
}

abbrev refusal_of : Response → Option Failure
refusal_of resp =
    if resp.status == "error"
    then elim resp.error [ none ↦ none | some e ↦ some (Failure.refusal e) ]
    else none

-- invoke, on the end of its round trip: the response is returned beside a protocol error.
unfoldable pub invoke : Message ⊎ Response → Option Response × Option Failure
invoke (inl e) = (none, some (Failure.transport e))
invoke (inr resp) = (some resp, refusal_of resp)

-- JobUpdate, on the end of its round trip.
unfoldable pub job_update : Message ⊎ Response → Option Failure
job_update (inl e) = some (Failure.transport e)
job_update (inr resp) = refusal_of resp

-- invokeAndWait, on the end of its round trip.
unfoldable pub invoke_and_wait : Message ⊎ Response → Failure ⊎ InvokeResponse
unfolding decode_invoke
invoke_and_wait (inl e) = inl (Failure.transport e)
invoke_and_wait (inr resp) = elim (refusal_of resp) [
  | some e ↦ inl e
  | none ↦
      let (ir, ok) = decode_invoke resp.result in
      if ok
      then inr ir
      else inl (Failure.transport (sprintf "brokerclient: unmarshal invoke result: %w" []))
]

-- InvokeContext: its envelope joins the job of the context.
abbrev pub context_request : String → String → String → String → String → Json → Request
context_request id stamp carried minted name args =
    invoke_request id stamp (job_token_for carried minted) name args
