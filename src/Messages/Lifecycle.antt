-- ===== src/Messages/Lifecycle.antt =====
-- internal/messages/jobs.go, Store.Job: a job from its records and its stamp.
use suctl.Prelude.{
  ℕ, String, ◌≡◌, refl, subst, ap, ◌∙◌, Bool, true, false, not, ◌&&◌, ◌==◌, List, [], ◌∷◌, Option,
  some, none, ◌⊎◌, inl, inr, arith, is_some, if◌then◌else◌,
}
use suctl.Protocol.{decode_invoke}
use suctl.Messages.{Record, Store, done, by_token, started_at}
use suctl.Messages.Jobs.{
  Job, is_terminal, fold_update, update_params, fold_records, originating, queued_or_running,
  zero_or, fresh_job, settle, job_of, job,
}

-- The states that the reports of a job name, in order.
unfoldable pub reported : List Record → List String
reported [] = []
reported (r ∷ rs) =
    let rest = reported rs in
    if r.request.cmd == "job_update" && not ((update_params r.request).state == "")
    then (update_params r.request).state ∷ rest
    else rest

abbrev pub last_or : String → List String → String
last_or d [] = d
last_or d (x ∷ xs) = last_or x xs

fold_records-state :
    (rs : List Record) (j : Job) → (fold_records rs j).state ≡ last_or j.state (reported rs)
unfolding fold_records reported
fold_records-state [] j = refl
fold_records-state (r ∷ rs) j = ground (
  arith,
  fold_records-state rs j,
  fold_records-state rs (fold_update (update_params r.request) r.req_received j),
)

-- The attribution of a job is that of its originating exchange.
abbrev pub SameOrigin : Job → Job → Type 0
SameOrigin i j =
    (i.token ≡ j.token)
    × (i.module_name ≡ j.module_name)
    × (i.capability ≡ j.capability)
    × (i.queued_at ≡ j.queued_at)
    × (i.started_at ≡ j.started_at)

fold_records-SameOrigin : (rs : List Record) (j : Job) → SameOrigin (fold_records rs j) j
unfolding fold_records
fold_records-SameOrigin [] j = (refl, refl, refl, refl, refl)
fold_records-SameOrigin (r ∷ rs) j = ground (
  arith,
  fold_records-SameOrigin rs j,
  fold_records-SameOrigin rs (fold_update (update_params r.request) r.req_received j),
)

-- What decides the state: the last report if it is terminal, else the response of the originating
-- exchange if it is terminal, else the stamp.
abbrev pub verdict : String → Record → Option ℕ → String
verdict last orig stamp =
    if is_terminal last
    then last
    else if done orig && orig.response.status == "error"
    then "failed"
    else if done orig
        && orig.response.status == "ok"
        && not (decode_invoke orig.response.result).0.accepted
    then "done"
    else queued_or_running stamp

settle-state :
    (orig : Record) (stamp : Option ℕ) (j : Job)
    → (settle orig stamp j).state ≡ verdict j.state orig stamp
unfolding settle
settle-state orig stamp j = ground arith

settle-SameOrigin :
    (orig : Record) (stamp : Option ℕ) (j : Job) → SameOrigin (settle orig stamp j) j
unfolding settle
settle-SameOrigin orig stamp j = ground arith

pub record Derived (token : String) (r : Record) (rs : List Record) (stamp : Option ℕ) (j : Job)
    : Type 0 where
  pub token_of : j.token ≡ token
  pub module_of : j.module_name ≡ (originating r (r ∷ rs)).module_name
  pub queued_of : j.queued_at ≡ (originating r (r ∷ rs)).req_received
  pub stamp_of : j.started_at ≡ zero_or stamp
  pub state_of : j.state ≡ verdict (last_or "" (reported (r ∷ rs))) (originating r (r ∷ rs)) stamp

-- Records that share a token give one job: its module and enqueue time are those of the
-- originating exchange, its start is the stamp, and its state is the last reported one if that is
-- terminal, else what a terminal response of the originating exchange says, else queued or running
-- by the stamp.
pub job_of-Derived :
    (token : String) (r : Record) (rs : List Record) (stamp : Option ℕ)
    → (j : Job) × (job_of token (r ∷ rs) stamp ≡ some j) × Derived token r rs stamp j
unfolding job_of
job_of-Derived token r rs stamp = (
  _,
  refl,
  record {
    token_of = ground (arith, settled, folded);
    module_of = ground (arith, settled, folded);
    queued_of = ground (arith, settled, folded);
    stamp_of = ground (arith, settled, folded);
    state_of =
        settle-state orig stamp _
        ∙ ap (λ st. verdict st orig stamp)
            (fold_records-state (r ∷ rs) (fresh_job token orig stamp));
  },
)
  where
    orig : Record
    orig = originating r (r ∷ rs)

    folded :
        SameOrigin (fold_records (r ∷ rs) (fresh_job token orig stamp)) (fresh_job token orig stamp)
    folded = fold_records-SameOrigin (r ∷ rs) (fresh_job token orig stamp)

    settled :
        SameOrigin
          (settle orig stamp (fold_records (r ∷ rs) (fresh_job token orig stamp)))
          (fold_records (r ∷ rs) (fresh_job token orig stamp))
    settled = settle-SameOrigin orig stamp (fold_records (r ∷ rs) (fresh_job token orig stamp))

unfoldable pub pick : Bool → Bool → Bool → String → Option ℕ → String
pick reports fails finishes last stamp =
    if reports
    then last
    else if fails
    then "failed"
    else if finishes
    then "done"
    else queued_or_running stamp

-- A state that is terminal, or that says whether the job has been promoted.
abbrev pub Promoted : Option ℕ → String → Type 0
Promoted stamp state =
    (is_terminal state ≡ true)
    ⊎ ((state ≡ "queued") × (is_some stamp ≡ false) ⊎ (state ≡ "running") × (is_some stamp ≡ true))

pick-Promoted :
    (reports fails finishes : Bool) (last : String) (stamp : Option ℕ)
    → (reports ≡ true → is_terminal last ≡ true)
    → Promoted stamp (pick reports fails finishes last stamp)
unfolding pick
pick-Promoted true b c last stamp h = inl (h refl)
pick-Promoted false true c last stamp h = inl refl
pick-Promoted false false true last stamp h = inl refl
pick-Promoted false false false last none h = inr (inl (refl, refl))
pick-Promoted false false false last (some t) h = inr (inr (refl, refl))

verdict-Promoted :
    (last : String) (orig : Record) (stamp : Option ℕ) → Promoted stamp (verdict last orig stamp)
unfolding pick
verdict-Promoted last orig stamp = pick-Promoted (is_terminal last) _ _ last stamp (λ h. h)

-- The job of a token, from the records at hand.
pub Derived-unique :
    (token : String) (r : Record) (rs : List Record) (stamp : Option ℕ) (j : Job)
    → job_of token (r ∷ rs) stamp ≡ some j
    → Derived token r rs stamp j
Derived-unique token r rs stamp j e =
    let (k, is, d) = job_of-Derived token r rs stamp in
    let same : k ≡ j = cc in subst (Derived token r rs stamp) same d

job_of-token :
    (token : String) (rs : List Record) (stamp : Option ℕ) (j : Job)
    → job_of token rs stamp ≡ some j
    → j.token ≡ token
unfolding job_of
job_of-token token [] stamp j e = cc
job_of-token token (r ∷ rs) stamp j e =
    (Derived-unique token r rs stamp j (unfold job_of in e)).token_of

job_of-Promoted :
    (token : String) (rs : List Record) (stamp : Option ℕ) (j : Job)
    → job_of token rs stamp ≡ some j
    → Promoted stamp j.state
unfolding job_of
job_of-Promoted token [] stamp j e = cc
job_of-Promoted token (r ∷ rs) stamp j e =
    let d = Derived-unique token r rs stamp j e in
    rw d.state_of (verdict-Promoted (last_or "" (reported (r ∷ rs))) (originating r (r ∷ rs)) stamp)

-- Every job of the store carries the token that it was looked up by; its state is done or failed,
-- or queued and not promoted, or running and promoted.
pub job_cases :
    (token : String) (s : Store) (j : Job)
    → job token s ≡ some j
    → (j.token ≡ token) × Promoted (started_at token s) j.state
unfolding job
job_cases token s j e = (
  job_of-token token (by_token token s) (started_at token s) j e,
  job_of-Promoted token (by_token token s) (started_at token s) j e,
)
