-- ===== src/System/Jobs.antt =====
-- internal/system/jobs.go and jobs_helpers.go: the jobs that a caller may see. The caller is a module,
-- or the face, whose name is empty. Times are in nanoseconds.
use Prim.Native.Nat.{◌/◌}
use Prim.Native.String.{slice, len}
use text.Mathlib.Text.{starts_with}
use suctl.Prelude.{
  ℕ, suc, ◌-◌, ◌*◌, String, Bool, not, ◌&&◌, ◌||◌, List, [], ◌∷◌, ◌++◌, Option, none, some, ltb,
  leb, nat_eq, if◌then◌else◌, ◌==◌, ◌⊎◌, inl, inr, ℤ, pos,
}
use suctl.Protocol.{Message, sprintf, sprint_number, ErrorDetail}
use suctl.Protocol.Code
use suctl.Protocol.Values.{Json}
use suctl.Messages
use suctl.Messages.Jobs.{Job, job, jobs}
use suctl.Modules
use suctl.Modules.Route.{capability_async}
use suctl.Surface.{Subject, SurveyResponse, Field, Section, FocusResponse, col, plain, tinted}

-- jobStateColor
unfoldable pub job_state_color : String → Option String
job_state_color state =
    if state == "queued"
    then some "info"
    else if state == "running"
    then some "warn"
    else if state == "done"
    then some "ok"
    else if state == "failed"
    then some "alert"
    else none

-- callType
abbrev call_type : Bool → String
call_type async = if async then "async" else "sync"

abbrev pub second : ℕ
second = 1000000000

-- relativeAge, for a reading of the clock.
unfoldable pub relative_age : ℕ → ℕ → Message
relative_age now t =
    let d = now - t in
    if nat_eq t 0
    then sprintf "—" []
    else if ltb d second
    then sprintf "just now" []
    else if ltb d (60 * second)
    then sprint_number "%ds ago" (d / second)
    else if ltb d (3600 * second)
    then sprint_number "%dm ago" (d / (60 * second))
    else if ltb d (86400 * second)
    then sprint_number "%dh ago" (d / (3600 * second))
    else sprint_number "%dd ago" (d / (86400 * second))

-- shortToken
unfoldable pub short_token : String → String
short_token token = if leb (len token) 8 then token else slice token 0 8

pub record JobCounts : Type 0 where
  pub queued : ℕ
  pub running : ℕ
  pub done : ℕ
  pub failed : ℕ
  pub total : ℕ

abbrev pub no_jobs : JobCounts
no_jobs = record { queued = 0; running = 0; done = 0; failed = 0; total = 0 }

unfoldable pub count_job : String → JobCounts → JobCounts
count_job state c =
    let more : JobCounts = record c { total = suc c.total } in
    if state == "queued"
    then record more { queued = suc c.queued }
    else if state == "running"
    then record more { running = suc c.running }
    else if state == "done"
    then record more { done = suc c.done }
    else if state == "failed"
    then record more { failed = suc c.failed }
    else more

abbrev part : String → ℕ → List Message
part format n = if ltb 0 n then sprint_number format n ∷ [] else []

abbrev or_no_jobs : List Message → List Message
or_no_jobs [] = sprintf "no jobs" [] ∷ []
or_no_jobs (m ∷ ms) = m ∷ ms

-- jobsSummary
unfoldable pub jobs_summary : JobCounts → List Message
jobs_summary c = or_no_jobs (
    part "%d queued" c.queued
    ++ (part "%d running" c.running ++ (part "%d done" c.done ++ part "%d failed" c.failed)))

-- Whether a job is on the page.
abbrev pub shown : Bool → Job → Bool
shown show_system j = show_system || not (starts_with j.capability "system.")

unfoldable pub job_row : ℕ → Job → Subject
unfolding short_token job_state_color relative_age
job_row now j = record {
  id = j.token;
  name = short_token j.token;
  columns =
      ("module", col j.module_name (some "blue"))
      ∷ ("capability", col j.capability (some "code"))
      ∷ ("state", col j.state (job_state_color j.state))
      ∷ ("started", record { value = relative_age now j.started_at; color = some "dim" })
      ∷ [];
  facets = j.state ∷ [];
}

-- The loop of replJobsSurvey.
unfoldable pub survey_jobs : ℕ → Bool → List Job → JobCounts → JobCounts × List Subject
unfolding count_job job_row
survey_jobs now show_system [] c = (c, [])
survey_jobs now show_system (j ∷ js) c =
    let visible = shown show_system j in
    let (counts, rows) =
      survey_jobs now show_system js (if visible then count_job j.state c else c) in
    (counts, if visible then job_row now j ∷ rows else rows)

-- replJobsSurvey
unfoldable pub repl_jobs_survey : ℕ → Bool → String → Messages.Store → SurveyResponse
unfolding survey_jobs jobs_summary
repl_jobs_survey now show_system caller s =
    let (counts, rows) = survey_jobs now show_system (jobs caller s) no_jobs in
    record { total = counts.total; status_summary = jobs_summary counts; subjects = rows }

abbrev time_field : String → ℕ → List Field
time_field label t =
    if nat_eq t 0
    then []
    else record { label = label; value = sprint_number "%d" t; color = none } ∷ []

abbrev call_field : Option Bool → List Field
call_field none = []
call_field (some async) = tinted "call" (call_type async) "code" ∷ []

-- The fields that appear once a job is finished; without a start it is timed from its queuing.
abbrev finished_fields : Job → List Field
finished_fields j =
    let from = if nat_eq j.started_at 0 then j.queued_at else j.started_at in
    if nat_eq j.finished_at 0
    then []
    else record { label = "finished"; value = sprint_number "%d" j.finished_at; color = none }
      ∷ record {
        label = "duration";
        value = sprint_number "%d" (j.finished_at - from);
        color = none;
      }
      ∷ []

abbrev progress_field : ℤ → List Field
progress_field (pos n) =
    if ltb 0 n
    then record { label = "progress"; value = sprint_number "%d%%" n; color = none } ∷ []
    else []
progress_field _ = []

-- `pretty` is prettyJSONString of the bytes.
abbrev output_section : (Json → String) → Option Json → List Section
output_section pretty none = []
output_section pretty (some v) =
    record { title = "output"; fields = plain "value" (pretty v) ∷ [] } ∷ []

abbrev error_section : Option ErrorDetail → List Section
error_section none = []
error_section (some e) =
    record {
      title = "error";
      fields =
          tinted "code" e.code "alert"
          ∷ record { label = "message"; value = e.message; color = some "alert" }
          ∷ [];
    }
    ∷ []

-- The page of a job.
unfoldable pub job_focus : (Json → String) → Modules.Store → Job → FocusResponse
unfolding capability_async job_state_color short_token
job_focus pretty modules j = record {
  id = j.token;
  name = short_token j.token;
  sections =
      record {
        title = "identity";
        fields =
            plain "token" j.token
            ∷ tinted "module" j.module_name "blue"
            ∷ tinted "capability" j.capability "code"
            ∷ (call_field (capability_async j.module_name j.capability modules)
                ++ (record {
                  label = "state";
                  value = sprintf j.state [];
                  color = job_state_color j.state;
                }
                    ∷ record {
                      label = "queued";
                      value = sprint_number "%d" j.queued_at;
                      color = none;
                    }
                    ∷ (time_field "started" j.started_at
                        ++ (finished_fields j ++ progress_field j.progress))));
      }
      ∷ (output_section pretty j.output ++ error_section j.error);
  actions = [];
}

-- What a handler answers: an error, or a page.
abbrev pub Page : Type 0
Page = ErrorDetail ⊎ FocusResponse

abbrev pub no_page : String → Message → Page
no_page code m = inl (record { code = code; message = m; detail = none })

abbrev job_not_found : String → Page
job_not_found token = no_page "NOT_FOUND" (sprintf "job %q not found" (short_token token ∷ []))

-- replJobsFocus
unfoldable pub repl_jobs_focus :
    (Json → String) → Modules.Store → String → String → Messages.Store → Page
unfolding job_focus short_token
repl_jobs_focus pretty modules token caller s =
    if token == ""
    then no_page Code.invalid_params (sprintf "subject (job token) is required" [])
    else elim (job token s) [
      | none ↦ job_not_found token
      | some j ↦
          if not (caller == "") && not (caller == j.module_name)
          then job_not_found token
          else inr (job_focus pretty modules j)
    ]
