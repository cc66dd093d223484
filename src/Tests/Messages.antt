-- ===== src/Tests/Messages.antt =====
-- The theorems on the messages store, at stores with three jobs.
use suctl.Prelude.{
  ◌≤◌, ◌*◌, ◌==◌, String, true, false, none, eq_iff, inr, contains, Bool-cases, arith, insert, ℕ,
  ◌≡◌, refl, true, false, [], ◌∷◌, ◌++◌, some, none, ◌⊎◌, ◌↔◌, length, lookup, In, pos, inl,
}
use suctl.Messages.{
  with_token, started_at, Record, Store, empty, opened, done, open_record, open_exchange, complete,
  start, sweep, trim_at, evictable,
}
use suctl.Messages.Jobs.{Job, job, job_of, queued_or_running, running, queued}
use suctl.Messages.Lifecycle.{Derived, Promoted, job_of-Derived, job_cases}
use suctl.Messages.Reports.{late_report_revives}
use suctl.Messages.Invariant.{Inv, open_exchange_keeps, trim_size, Trimmed}
use suctl.Messages.Eviction.{trim_forgets}
use suctl.Messages.History.{Reach, fresh, opens, completes, starts, Reach-Inv}
use suctl.Tests.Data.{invoke_of, report_of, ok_of, acceptance, queue_of_three, first_runs, differs}

queue_of_three-Reach : Reach queue_of_three
queue_of_three-Reach = opens _ _ _ _ _ (opens _ _ _ _ _ (opens _ _ _ _ _ fresh))

first_runs-Reach : Reach first_runs
first_runs-Reach = starts "t1" 40 queue_of_three-Reach

Reach-Inv_example : Inv first_runs
Reach-Inv_example = Reach-Inv first_runs first_runs-Reach

abbrev first_record : Record
first_record = opened (invoke_of "r1" "t1" "nginx.site.add") "nginx" "nginx.site.add" "" 10

open_exchange_keeps_example :
    (lookup "r4"
        (open_exchange (report_of "r4" "t1" "done") "nginx" "" "nginx" 60 first_runs).records
      ≡ some (opened (report_of "r4" "t1" "done") "nginx" "" "nginx" 60))
    × (lookup "r1"
          (open_exchange (report_of "r4" "t1" "done") "nginx" "" "nginx" 60 first_runs).records
        ≡ some first_record)
unfolding open_exchange open_record trim_at start lookup insert
open_exchange_keeps_example =
    open_exchange_keeps (report_of "r4" "t1" "done") "nginx" "" "nginx" 60 first_runs "r1"
      first_record (differs "r1" "r4" refl) refl refl

-- The first exchange is closed, and its job has reported in between.
abbrev reported_record : Record
reported_record = opened (report_of "r4" "t1" "done") "nginx" "" "nginx" 60

abbrev late_record : Record
late_record = opened (report_of "r5" "t1" "running") "nginx" "" "nginx" 70

abbrev one_closed : Store
one_closed = (complete "r1" (ok_of "r1" (some acceptance)) 50 first_runs).0

one_closed-Inv : Inv one_closed
one_closed-Inv =
    Reach-Inv one_closed (completes "r1" (ok_of "r1" (some acceptance)) 50 first_runs-Reach)

trim_size_example : Trimmed 1 one_closed (trim_at 1 one_closed)
unfolding complete start open_exchange open_record trim_at lookup insert
trim_size_example = trim_size 1 one_closed one_closed-Inv (ground arith)

job_of-Derived_example :
    (j : Job) × (job_of "t1" (first_record ∷ reported_record ∷ []) (some 40) ≡ some j)
    × Derived "t1" first_record (reported_record ∷ []) (some 40) j
job_of-Derived_example = job_of-Derived "t1" first_record (reported_record ∷ []) (some 40)

abbrev first_job : Job
first_job = record {
  token = "t1";
  module_name = "nginx";
  capability = "nginx.site.add";
  state = "running";
  queued_at = 10;
  started_at = 40;
  finished_at = 0;
  output = none;
  error = none;
  message = "";
  messages = [];
  progress = pos 0;
}

abbrev second_job : Job
second_job = record first_job {
  token = "t2";
  module_name = "certbot";
  capability = "certbot.cert.provision";
  state = "queued";
  queued_at = 20;
  started_at = 0;
}

first_job_lem : job "t1" first_runs ≡ some first_job
unfolding job job_of suctl.Messages.with_token start lookup open_exchange trim_at open_record insert
    suctl.Messages.Jobs.settle suctl.Messages.Jobs.fold_records suctl.Messages.Jobs.originating
first_job_lem = refl

second_job_lem : job "t2" first_runs ≡ some second_job
unfolding job job_of suctl.Messages.with_token start lookup open_exchange trim_at open_record insert
    suctl.Messages.Jobs.settle suctl.Messages.Jobs.fold_records suctl.Messages.Jobs.originating
second_job_lem = refl

second_queued : In second_job (queued first_runs)
unfolding queued suctl.Prelude.sort start lookup open_exchange trim_at open_record insert job_of
    suctl.Messages.with_token suctl.Messages.Jobs.settle suctl.Messages.Jobs.fold_records
    suctl.Messages.Jobs.originating
second_queued = inl refl

job_cases_example : (first_job.token ≡ "t1") × Promoted (started_at "t1" first_runs) first_job.state
job_cases_example = job_cases "t1" first_runs first_job first_job_lem

late_report_revives_example :
    (j : Job) × (job_of "t1" ((first_record ∷ reported_record ∷ []) ++ late_record ∷ []) (some 40)
      ≡ some j)
    × (j.state ≡ queued_or_running (some 40))
unfolding suctl.Protocol.decode_update suctl.Messages.Jobs.originating
late_report_revives_example =
    late_report_revives "t1" first_record (reported_record ∷ []) late_record (some 40)
      (record { is_report = refl; names_state = refl; not_terminal = refl }) refl

-- nginx has accepted the job t1, which runs.
accepted_runs : (j : Job) × (job "t1" one_closed ≡ some j) × (j.state ≡ "running")
unfolding job job_of suctl.Messages.with_token complete lookup start open_exchange trim_at
    open_record insert suctl.Messages.Jobs.settle suctl.Messages.Jobs.fold_records
    suctl.Messages.Jobs.originating suctl.Protocol.decode_invoke
accepted_runs = (first_job, refl, refl)

one_closed-order : one_closed.order ≡ "r1" ∷ "r2" ∷ "r3" ∷ []
unfolding complete lookup start open_exchange trim_at open_record insert
one_closed-order = refl

one_closed_evictable : evictable "r1" one_closed.records ≡ true
unfolding lookup complete start open_exchange trim_at open_record insert
one_closed_evictable = refl

alone_on_token : with_token "t1" one_closed.records ("r2" ∷ "r3" ∷ []) ≡ []
unfolding with_token lookup complete start open_exchange trim_at open_record insert
alone_on_token = refl

one_closed_large : 1 * 2 ≤ length one_closed.order
one_closed_large = rw one_closed-order (omega arith)

trim_forgets_example : job "t1" (trim_at 1 one_closed) ≡ none
trim_forgets_example =
    trim_forgets 1 one_closed "r1" ("r2" ∷ "r3" ∷ []) "t1" one_closed-order one_closed_evictable
      alone_on_token one_closed_large
