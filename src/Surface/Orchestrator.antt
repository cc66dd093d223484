-- ===== src/Surface/Orchestrator.antt =====
-- internal/surface/orchestrator.go: the face's door to the broker. The broker is an argument, which
-- answers with a response or a protocol error; so are the identities that are minted, and what
-- encoding/json makes of a payload.
use suctl.Prelude.{
  ℕ, String, Bool, true, false, List, [], ◌∷◌, ◌++◌, Option, none, some, ◌⊎◌, inl, inr, length, ltb,
  Dict, if◌then◌else◌,
}
use suctl.Protocol.{
  Request, Response, ErrorDetail, InvokeResponse, JobUpdateParams, decode_invoke, version,
}
use suctl.Protocol.Values.{Json, Fields}
use suctl.Surface.{Action, Column, SurveyResponse, FocusResponse}

abbrev pub Broker : Type 0
Broker = Request → ErrorDetail ⊎ Response

pub record JobUpdate : Type 0 where
  pub token : String
  pub params : JobUpdateParams

abbrev pub updates_buffer : ℕ
updates_buffer = 64

-- Deliver, on the stream that the face has not drained: a full buffer drops the report.
unfoldable pub deliver : JobUpdate → List JobUpdate → List JobUpdate
deliver u updates = if ltb (length updates) updates_buffer then updates ++ u ∷ [] else updates

-- invoke: the envelope under a token; the id and the time are minted by the caller of the model.
unfoldable pub envelope : String → String → String → String → Json → Request
envelope id ts token name args = record {
  v = version;
  id = id;
  ts_sent = ts;
  cmd = "invoke";
  job_token = token;
  params = Json.obj (Fields.field "name" (Json.str name) (Fields.field "args" args Fields.end));
}

abbrev output_or : Option Json → InvokeResponse × Bool → Option Json
output_or raw (ir, false) = raw
output_or raw (ir, true) = elim ir.output [ none ↦ raw | some out ↦ some out ]

-- unwrapInvokeOutput
unfoldable pub unwrap_invoke_output : Option Json → Option Json
unfolding decode_invoke
unwrap_invoke_output raw = output_or raw (decode_invoke raw)

-- What the decoders read in a payload: none where encoding/json reports an error.
pub record Decoders : Type 0 where
  pub survey : Option Json → Option (Option SurveyResponse × List Action)
  pub focus : Option Json → FocusResponse
  pub cells : Option Json → Option (Dict (Dict Column))

abbrev pub no_survey : SurveyResponse
no_survey = record { total = 0; status_summary = []; subjects = [] }

-- DecodeSurveyOutput: the first part is none where the payload has no subjects.
unfoldable pub decode_survey_output : Decoders → Option Json → SurveyResponse × List Action
decode_survey_output d raw = elim (d.survey raw) [
  | some (some sr, actions) ↦ (sr, actions)
  | _ ↦ (no_survey, [])
]

-- DecodeCellOutput
unfoldable pub decode_cell_output : Decoders → Option Json → Dict (Dict Column)
decode_cell_output d raw = elim (d.cells raw) [ none ↦ [] | some rows ↦ rows ]

pub record SurveyLoad : Type 0 where
  pub token : String
  pub accepted : Bool
  pub survey : SurveyResponse
  pub actions : List Action

pub record CellLoad : Type 0 where
  pub token : String
  pub accepted : Bool
  pub rows : Dict (Dict Column)

abbrev accepts : InvokeResponse × Bool → Bool
accepts (ir, ok) = if ok then ir.accepted else false

-- LoadSurvey: the load, and the error. `fresh` is the minted id, time and token.
unfoldable pub load_survey :
    Broker → Decoders → String × String × String → String → Json → SurveyLoad × Option ErrorDetail
unfolding envelope decode_invoke decode_survey_output unwrap_invoke_output
load_survey broker d (id, ts, token) name args = elim (broker (envelope id ts token name args)) [
  | inl e ↦ (record { token = token; accepted = false; survey = no_survey; actions = [] }, some e)
  | inr resp ↦
      let (survey, actions) = decode_survey_output d (unwrap_invoke_output resp.result) in
      if accepts (decode_invoke resp.result)
      then (record { token = token; accepted = true; survey = no_survey; actions = [] }, none)
      else (record { token = token; accepted = false; survey = survey; actions = actions }, none)
]

-- FillCells
unfoldable pub fill_cells :
    Broker → Decoders → String × String × String → String → Json → CellLoad × Option ErrorDetail
unfolding envelope decode_invoke decode_cell_output unwrap_invoke_output
fill_cells broker d (id, ts, token) name args = elim (broker (envelope id ts token name args)) [
  | inl e ↦ (record { token = token; accepted = false; rows = [] }, some e)
  | inr resp ↦
      if accepts (decode_invoke resp.result)
      then (record { token = token; accepted = true; rows = [] }, none)
      else (
        record {
          token = token;
          accepted = false;
          rows = decode_cell_output d (unwrap_invoke_output resp.result);
        },
        none,
      )
]

-- LoadFocus
unfoldable pub load_focus :
    Broker → Decoders → String × String × String → String → String → ErrorDetail ⊎ FocusResponse
unfolding envelope unwrap_invoke_output
load_focus broker d (id, ts, token) name subject =
    let args = Json.obj (Fields.field "subject" (Json.str subject) Fields.end) in
    elim (broker (envelope id ts token name args)) [
      | inl e ↦ inl e
      | inr resp ↦ inr (d.focus (unwrap_invoke_output resp.result))
    ]

-- InvokeAction
unfoldable pub invoke_action :
    Broker → String × String × String → String → Json → Option ErrorDetail
unfolding envelope
invoke_action broker (id, ts, token) name args = elim (broker (envelope id ts token name args)) [
  | inl e ↦ some e
  | inr resp ↦ none
]
