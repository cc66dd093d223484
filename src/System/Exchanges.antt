-- ===== src/System/Exchanges.antt =====
-- internal/system/messages.go: the recorded exchanges that a caller may see. `pretty` renders a payload.
use suctl.Prelude.{
  ℕ, String, Bool, not, ◌&&◌, ◌||◌, List, [], ◌∷◌, ◌++◌, Option, none, some, length, keep_if,
  if◌then◌else◌, ◌==◌, inr,
}
use suctl.Protocol.{sprintf, sprint_number, sprint_error, ErrorDetail}
use suctl.Protocol.Code
use suctl.Protocol.Values.{Json}
use suctl.Messages
use suctl.Messages.{Record, done, list, by_token, find_record}
use suctl.Messages.Jobs.{job}
use suctl.Surface.{Subject, SurveyResponse, Field, Section, FocusResponse, col, plain, tinted}
use suctl.System.Jobs.{short_token, relative_age, Page, no_page}

-- jobOwner
unfoldable pub job_owner : String → Messages.Store → String
job_owner token s = elim (job token s) [ none ↦ "" | some j ↦ j.module_name ]

-- ownsExchange
unfoldable pub owns_exchange : String → Record → Messages.Store → Bool
unfolding job_owner
owns_exchange caller m s =
    let token = m.request.job_token in
    caller == "" || not (token == "") && caller == job_owner token s

-- messageState
unfoldable pub message_state : Record → String
message_state m =
    if not (done m) then "pending" else if m.response.status == "error" then "error" else "ok"

-- messageStateColor
unfoldable pub message_state_color : String → Option String
message_state_color state =
    if state == "pending"
    then some "info"
    else if state == "ok"
    then some "ok"
    else if state == "error"
    then some "alert"
    else none

-- messageCapability and messageCaller
unfoldable pub message_capability : String → String
message_capability cap = if cap == "" then "—" else cap

unfoldable pub message_caller : String → String
message_caller caller = if caller == "" then "system" else caller

-- The exchanges that a survey lists, for a scope or for all.
unfoldable pub visible_exchanges : String → String → Messages.Store → List Record
unfolding owns_exchange job_owner list
visible_exchanges caller scope s =
    if scope == ""
    then keep_if (λ m. owns_exchange caller m s) (list 0 s)
    else if not (caller == "") && not (caller == job_owner scope s)
    then []
    else by_token scope s

unfoldable pub exchange_row : ℕ → Record → Subject
unfolding message_state message_state_color message_caller message_capability short_token
    relative_age
exchange_row now m = record {
  id = m.request.id;
  name = short_token m.request.id;
  columns =
      ("cmd", col m.request.cmd (some "blue"))
      ∷ ("caller", col (message_caller m.caller) (some "code"))
      ∷ ("module", col m.module_name (some "code"))
      ∷ ("capability", col (message_capability m.capability) (some "code"))
      ∷ ("state", col (message_state m) (message_state_color (message_state m)))
      ∷ ("age", record { value = relative_age now m.req_received; color = some "dim" })
      ∷ [];
  facets = message_state m ∷ [];
}

unfoldable pub exchange_rows : ℕ → List Record → List Subject
exchange_rows now [] = []
exchange_rows now (m ∷ ms) = exchange_row now m ∷ exchange_rows now ms

-- replMessagesSurvey; a scope that the caller does not own has no summary.
unfoldable pub repl_messages_survey : ℕ → String → String → Messages.Store → SurveyResponse
unfolding visible_exchanges exchange_rows
repl_messages_survey now caller scope s =
    let all = visible_exchanges caller scope s in
    if not (scope == "") && not (caller == "") && not (caller == job_owner scope s)
    then record { total = 0; status_summary = []; subjects = [] }
    else record {
      total = length all;
      status_summary = sprint_number "%d messages recorded" (length all) ∷ [];
      subjects = exchange_rows now all;
    }

abbrev responded_field : Record → List Field
responded_field m =
    if done m
    then record { label = "responded"; value = sprint_number "%d" m.resp_received; color = none }
      ∷ []
    else []

abbrev result_field : (Json → String) → Option Json → List Field
result_field pretty none = []
result_field pretty (some v) = tinted "result" (pretty v) "code" ∷ []

abbrev error_field : Option ErrorDetail → List Field
error_field none = []
error_field (some e) =
    record {
      label = "error";
      value = sprint_error "%s: %s" (e.code ∷ []) e.message;
      color = some "alert";
    }
    ∷ []

abbrev response_section : (Json → String) → Record → List Section
response_section pretty m =
    if done m
    then record {
      title = "response";
      fields =
          tinted "status" m.response.status "blue"
          ∷ (result_field pretty m.response.result ++ error_field m.response.error);
    }
      ∷ []
    else []

-- The page of an exchange.
unfoldable pub exchange_focus : (Json → String) → Record → FocusResponse
unfolding message_caller short_token
exchange_focus pretty m = record {
  id = m.request.id;
  name = short_token m.request.id;
  sections =
      record {
        title = "exchange";
        fields =
            plain "id" m.request.id
            ∷ tinted "cmd" m.request.cmd "blue"
            ∷ tinted "caller" (message_caller m.caller) "code"
            ∷ tinted "module" m.module_name "code"
            ∷ tinted "capability" m.capability "code"
            ∷ plain "token" m.request.job_token
            ∷ record { label = "received"; value = sprint_number "%d" m.req_received; color = none }
            ∷ responded_field m;
      }
      ∷ record { title = "request"; fields = tinted "params" (pretty m.request.params) "code" ∷ [] }
      ∷ response_section pretty m;
  actions = [];
}

abbrev message_not_found : String → Page
message_not_found id = no_page "NOT_FOUND" (sprintf "message %q not found" (short_token id ∷ []))

-- replMessagesFocus
unfoldable pub repl_messages_focus : (Json → String) → String → String → Messages.Store → Page
unfolding owns_exchange exchange_focus short_token
repl_messages_focus pretty id caller s =
    if id == ""
    then no_page Code.invalid_params (sprintf "subject (message id) is required" [])
    else elim (find_record id s) [
      | none ↦ message_not_found id
      | some m ↦
          if owns_exchange caller m s then inr (exchange_focus pretty m) else message_not_found id
    ]
