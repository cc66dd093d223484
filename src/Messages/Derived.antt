-- ===== src/Messages/Derived.antt =====
-- internal/messages/jobs.go, Running and Queued: the lists of jobs that are derived.
use suctl.Prelude.{◌↔◌, String, ◌≡◌, subst, sym, false, ◌==◌, some, eq_iff, In, in-sort}
use suctl.Messages.{Store}
use suctl.Messages.Jobs.{Job, job, job_tokens, running, queued}
use suctl.Messages.Lifecycle.{job_cases}
use suctl.Messages.Tokens.{in-select_jobs, select_jobs-in, in-job_tokens}

pub own_token : (t : String) (s : Store) (j : Job) → job t s ≡ some j → job j.token s ≡ some j
own_token t s j e = subst (λ u. job u s ≡ some j) (sym (job_cases t s j e).0) e

-- The derived running list holds exactly the jobs in that state.
in-running :
    (j : Job) (s : Store) → In j (running s) → (job j.token s ≡ some j) × (j.state ≡ "running")
unfolding running
in-running j s h =
    let (t, l, e, q) = in-select_jobs (λ k. k.state == "running") s (job_tokens s) j h in
    (own_token t s j e, (eq_iff _ _).0 q)

pub running-in :
    (t : String) (j : Job) (s : Store)
    → (t == "") ≡ false
    → job t s ≡ some j
    → j.state ≡ "running"
    → In j (running s)
unfolding running
running-in t j s ne e st =
    select_jobs-in (λ k. k.state == "running") s (job_tokens s) t j (in-job_tokens t s j ne e) e
      ((eq_iff _ _).1 st)

-- A job with a token stands in Running exactly if the store gives it for its token and it is
-- running.
pub running_iff :
    (j : Job) (s : Store)
    → (j.token == "") ≡ false
    → In j (running s) ↔ (job j.token s ≡ some j) × (j.state ≡ "running")
running_iff j s named = (in-running j s, λ h. running-in j.token j s named h.0 h.1)

-- Every job of Queued is one that the store gives for its token, and it is queued.
pub in-queued :
    (j : Job) (s : Store) → In j (queued s) → (job j.token s ≡ some j) × (j.state ≡ "queued")
unfolding queued
in-queued j s h =
    let (t, l, e, q) =
      in-select_jobs (λ k. k.state == "queued") s (job_tokens s) j (in-sort _ j _ h) in
    (own_token t s j e, (eq_iff _ _).0 q)
