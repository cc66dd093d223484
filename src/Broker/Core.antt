-- ===== src/Broker/Core.antt =====
-- internal/broker/broker.go: the state that the broker works on, and what lies outside it.
use suctl.Prelude.{ℕ, String, Bool, List, none, some}
use suctl.Protocol.{Message, Request, Response, JobUpdateParams, version}
use suctl.Messages
use suctl.Modules

-- The stores, the admission timeout, and the reports that the surface sink has received, oldest
-- first; `sink` says whether one is registered.
pub record Core : Type 0 where
  pub modules : Modules.Store
  pub messages : Messages.Store
  pub admit_timeout : ℕ
  pub sink : Bool
  pub delivered : List (String × JobUpdateParams)

-- What a round trip over a wire comes back with.
pub data Trip : Type 0 where
  replied : Response → Trip
  broken : String → Trip

-- In-process handlers and wires, by their handles: the answers that they give.
pub record Outside : Type 0 where
  pub handle : ℕ → Request → String → Response
  pub round_trip : ℕ → Request → Trip

-- One reading of the clock: the instant, and its RFC 3339 text.
pub record Clock : Type 0 where
  pub now : ℕ
  pub text : String

-- errorResponse
abbrev pub error_response : String → String → String → Message → Clock → Response
error_response id job_token code message clock = record {
  v = version;
  id = id;
  ts_sent = clock.text;
  status = "error";
  job_token = job_token;
  result = none;
  error = some (record { code = code; message = message; detail = none });
}
