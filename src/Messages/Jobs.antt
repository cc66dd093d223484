-- ===== src/Messages/Jobs.antt =====
-- internal/messages/jobs.go: a job is derived from the records that share its token.
use suctl.Prelude.{
  ℕ, String, Bool, true, false, not, ◌&&◌, ◌||◌, ◌==◌, List, [], ◌∷◌, ◌++◌, Option, none, some, ltb,
  nat_eq, contains, ℤ, pos, is_positive, sort, if◌then◌else◌,
}
use suctl.Protocol.Values.{Json}
use suctl.Protocol.{ErrorDetail, Request, JobUpdateParams, decode_update, decode_invoke}
use suctl.Messages.{Record, Store, done, started_at, list, by_token}

pub record Job : Type 0 where
  pub token : String
  pub module_name : String
  pub capability : String
  pub state : String
  pub queued_at : ℕ
  pub started_at : ℕ
  pub finished_at : ℕ
  pub output : Option Json
  pub error : Option ErrorDetail
  pub message : String
  pub messages : List String
  pub progress : ℤ

-- state == "done" || state == "failed"
abbrev pub is_terminal : String → Bool
is_terminal state = state == "done" || state == "failed"

abbrev or_else : Option Json → Option Json → Option Json
or_else none old = old
or_else (some x) old = some x

abbrev or_else_error : Option ErrorDetail → Option ErrorDetail → Option ErrorDetail
or_else_error none old = old
or_else_error (some x) old = some x

-- Job.foldUpdate
unfoldable pub fold_update : JobUpdateParams → ℕ → Job → Job
fold_update u at j =
    let state = if u.state == "" then j.state else u.state in
    record j {
      state = state;
      message = if u.message == "" then j.message else u.message;
      messages = if u.message == "" then j.messages else j.messages ++ u.message ∷ [];
      progress = if is_positive u.progress then u.progress else j.progress;
      output = or_else u.output j.output;
      error = or_else_error u.error j.error;
      finished_at = if is_terminal state then at else j.finished_at;
    }

-- updateParams: a decoding error is ignored, and what was decoded before it is kept.
abbrev pub update_params : Request → JobUpdateParams
update_params req = (decode_update req.params).0

-- The loop of Job over the records, which folds the reports among them.
unfoldable pub fold_records : List Record → Job → Job
unfolding fold_update
fold_records [] j = j
fold_records (r ∷ rs) j = fold_records rs (
    if r.request.cmd == "job_update"
    then fold_update (update_params r.request) r.req_received j
    else j)

-- The first invoke among the records, or else the first record, `orig`.
unfoldable pub originating : Record → List Record → Record
originating orig [] = orig
originating orig (r ∷ rs) = if r.request.cmd == "invoke" then r else originating orig rs

abbrev pub queued_or_running : Option ℕ → String
queued_or_running none = "queued"
queued_or_running (some t) = "running"

abbrev pub zero_or : Option ℕ → ℕ
zero_or none = 0
zero_or (some t) = t

-- The part of Job below the fold: the response of the originating exchange, then the stamp.
unfoldable pub settle : Record → Option ℕ → Job → Job
settle orig stamp j =
    let (ir, ok) = decode_invoke orig.response.result in
    if is_terminal j.state
    then j
    else if done orig && orig.response.status == "error"
    then record j {
      state = "failed";
      finished_at = orig.resp_received;
      error = orig.response.error;
    }
    else if done orig && orig.response.status == "ok" && not ir.accepted
    then record j {
      state = "done";
      finished_at = orig.resp_received;
      output = if ir.name == "" then orig.response.result else ir.output;
    }
    else record j { state = queued_or_running stamp }

-- The job before its reports are folded.
abbrev pub fresh_job : String → Record → Option ℕ → Job
fresh_job token orig stamp = record {
  token = token;
  module_name = orig.module_name;
  capability = orig.capability;
  state = "";
  queued_at = orig.req_received;
  started_at = zero_or stamp;
  finished_at = 0;
  output = none;
  error = none;
  message = "";
  messages = [];
  progress = pos 0;
}

-- Job, once the records of the token and its stamp are at hand.
unfoldable pub job_of : String → List Record → Option ℕ → Option Job
job_of token [] stamp = none
job_of token (r ∷ rs) stamp =
    let orig = originating r (r ∷ rs) in
    some (settle orig stamp (fold_records (r ∷ rs) (fresh_job token orig stamp)))

-- Store.Job
unfoldable pub job : String → Store → Option Job
job token s = job_of token (by_token token s) (started_at token s)

-- The loop of jobTokens.
unfoldable pub distinct_tokens : List String → List Record → List String
distinct_tokens seen [] = []
distinct_tokens seen (r ∷ rs) =
    let t = r.request.job_token in
    let skip = t == "" || contains seen t in
    let rest = distinct_tokens (if skip then seen else t ∷ seen) rs in
    if skip then rest else t ∷ rest

-- Store.jobTokens
unfoldable pub job_tokens : Store → List String
unfolding list distinct_tokens
job_tokens s = distinct_tokens [] (list 0 s)

-- The jobs of the tokens that pass a test.
unfoldable pub select_jobs : (Job → Bool) → Store → List String → List Job
unfolding job
select_jobs p s [] = []
select_jobs p s (t ∷ ts) =
    let rest = select_jobs p s ts in
    elim (job t s) [ none ↦ rest | some j ↦ if p j then j ∷ rest else rest ]

-- Store.Running
unfoldable pub running : Store → List Job
unfolding job_tokens select_jobs
running s = select_jobs (λ j. j.state == "running") s (job_tokens s)

-- Store.Queued. Jobs that were queued at one instant keep the order of their tokens.
unfoldable pub queued : Store → List Job
unfolding job_tokens select_jobs
queued s =
    sort (λ i k. ltb i.queued_at k.queued_at)
      (select_jobs (λ j. j.state == "queued") s (job_tokens s))

-- The order of Jobs: promoted jobs first, the newest start first; then queued ones, oldest first.
abbrev pub listed_before : Job → Job → Bool
listed_before i k =
    let i_zero = nat_eq i.started_at 0 in
    let k_zero = nat_eq k.started_at 0 in
    if i_zero
    then (if k_zero then ltb i.queued_at k.queued_at else false)
    else if k_zero
    then true
    else ltb k.started_at i.started_at

-- Store.Jobs: the empty filter takes every module.
unfoldable pub jobs : String → Store → List Job
unfolding job_tokens select_jobs
jobs module_filter s =
    sort listed_before
      (select_jobs (λ j. module_filter == "" || j.module_name == module_filter) s (job_tokens s))
