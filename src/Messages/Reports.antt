-- ===== src/Messages/Reports.antt =====
-- internal/messages/jobs.go, foldUpdate: a report that comes after the terminal one.
use suctl.Prelude.{ℕ, String, ◌≡◌, refl, ◌∙◌, false, ◌==◌, List, [], ◌∷◌, ◌++◌, Option, some, arith}
use suctl.Messages.{Record, done}
use suctl.Messages.Jobs.{Job, is_terminal, originating, update_params, job_of, queued_or_running}
use suctl.Messages.Lifecycle.{last_or, reported, job_of-Derived}

-- A report of a state that is not terminal.
pub record IsProgress (u : Record) : Type 0 where
  pub is_report : u.request.cmd ≡ "job_update"
  pub names_state : ((update_params u.request).state == "") ≡ false
  pub not_terminal : is_terminal (update_params u.request).state ≡ false

reported-append :
    (rs : List Record) (u : Record)
    → IsProgress u
    → reported (rs ++ u ∷ []) ≡ reported rs ++ (update_params u.request).state ∷ []
unfolding reported
reported-append [] u p = rw (p.is_report, p.names_state)
reported-append (r ∷ rs) u p = ground (arith, reported-append rs u p)

last_or-append : (d x : String) (xs : List String) → last_or d (xs ++ x ∷ []) ≡ x
last_or-append d x [] = refl
last_or-append d x (y ∷ ys) = last_or-append y x ys

originating-append :
    (d : Record) (rs : List Record) (u : Record)
    → IsProgress u
    → originating d (rs ++ u ∷ []) ≡ originating d rs
unfolding originating
originating-append d [] u p = rw p.is_report
originating-append d (r ∷ rs) u p = ground (arith, originating-append d rs u p)

-- After any reports of a job, done and failed among them, one more report of a state that is not
-- terminal makes it queued or running again, while the originating exchange has no response.
pub late_report_revives :
    (token : String) (r : Record) (rs : List Record) (u : Record) (stamp : Option ℕ)
    → IsProgress u
    → done (originating r (r ∷ rs)) ≡ false
    → (j : Job) × (job_of token ((r ∷ rs) ++ u ∷ []) stamp ≡ some j)
      × (j.state ≡ queued_or_running stamp)
late_report_revives token r rs u stamp p waiting =
    let (j, is, d) = job_of-Derived token r (rs ++ u ∷ []) stamp in
    (
      j,
      is,
      d.state_of
          ∙ rw
              (
                reported-append (r ∷ rs) u p,
                originating-append r (r ∷ rs) u p,
                last_or-append,
                p.not_terminal,
                waiting,
              )
              refl,
    )
