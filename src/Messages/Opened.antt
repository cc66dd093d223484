-- ===== src/Messages/Opened.antt =====
-- internal/messages/jobs.go: the job of a token before and after one more exchange is opened.
use suctl.Prelude.{
  ℕ, String, ◌≡◌, ◌≢◌, refl, sym, ap, ◌∙◌, true, false, not, ◌&&◌, ◌==◌, List, [], ◌∷◌, ◌++◌,
  Option, some, none, inl, inr, arith, eq_iff, Bool-cases,
}
use suctl.Protocol.{Request}
use suctl.Messages.{Record}
use suctl.Messages.Jobs.{Job, is_terminal, originating, queued_or_running, update_params, job_of}
use suctl.Messages.Lifecycle.{reported, last_or, verdict, Derived-unique, job_of-Derived}
use suctl.Messages.Filled.{Headed, Ran, verdict_running, head_originating}

-- A report that takes back no terminal state: one of a job that has ended says so again, or names
-- no state.
abbrev pub Honest : Request → Job → Type 0
Honest req i =
    is_terminal i.state ≡ true
    → req.cmd ≡ "job_update"
    → ((update_params req).state == "") ≡ false
    → is_terminal (update_params req).state ≡ true

pub reported_one :
    (rs : List Record) (u : Record) → reported (rs ++ u ∷ []) ≡ reported rs ++ reported (u ∷ [])
unfolding reported
reported_one [] u = refl
reported_one (r ∷ rs) u = ground (arith, reported_one rs u)

last_or_append :
    (d : String) (xs ys : List String) → last_or d (xs ++ ys) ≡ last_or (last_or d xs) ys
last_or_append d [] ys = refl
last_or_append d (x ∷ xs) ys = last_or_append x xs ys

-- The last report, where the first of them was terminal.
last_Honest :
    (last : String) (u : Record)
    → is_terminal last ≡ true
    → (u.request.cmd ≡ "job_update"
        → ((update_params u.request).state == "") ≡ false
        → is_terminal (update_params u.request).state ≡ true)
    → is_terminal (last_or last (reported (u ∷ []))) ≡ true
unfolding reported
last_Honest last u ends honest =
    elim (Bool-cases
      (u.request.cmd == "job_update" && not ((update_params u.request).state == ""))) [
        | inl names ↦
            rw (names, reported)
              (honest (ground (arith, names, eq_iff u.request.cmd "job_update"))
                (ground (arith, names)))
        | inr silent ↦ rw (silent, reported) ends
      ]

-- What the response of the originating exchange says, where no report is terminal.
verdict_same :
    (a b : String) (orig : Record) (stamp : Option ℕ)
    → is_terminal a ≡ false
    → is_terminal b ≡ false
    → verdict a orig stamp ≡ verdict b orig stamp
verdict_same a b orig stamp p q = rw (p, q) refl

queued_ne_running : ◌≢◌ {A = String} "queued" "running"
queued_ne_running e =
    let no : ("queued" == "running") ≡ true = (eq_iff "queued" "running").1 e in cc

-- A new exchange starts no job, if it is no report that takes back a terminal state.
pub append-Ran :
    (t : String) (rs : List Record) (u : Record) (stamp : Option ℕ) (j : Job)
    → Headed rs
    → (rs ≡ [] → stamp ≡ none)
    → ((i : Job) → job_of t rs stamp ≡ some i → Honest u.request i)
    → job_of t (rs ++ u ∷ []) stamp ≡ some j
    → j.state ≡ "running"
    → Ran t rs stamp j
append-Ran t [] u stamp j h fresh honest e run =
    let now = Derived-unique t u [] stamp j e in
    let waits : queued_or_running stamp ≡ "queued" = rw (fresh refl) refl in
    absurd (
      queued_ne_running (
        sym waits
        ∙ (verdict_running (last_or "" (reported (u ∷ []))) (originating u (u ∷ [])) stamp
            (sym now.state_of ∙ run)).1))
append-Ran t (r ∷ rs) u stamp j h fresh honest e run =
    let now = Derived-unique t r (rs ++ u ∷ []) stamp j e in
    let (i, is, before) = job_of-Derived t r rs stamp in
    let last = last_or "" (reported (r ∷ rs)) in
    let next = last_or last (reported (u ∷ [])) in
    let head = head_originating r rs h in
    let new_head = head_originating r (rs ++ u ∷ []) h in
    let next_is : last_or "" (reported ((r ∷ rs) ++ u ∷ [])) ≡ next =
      ap (last_or "") (reported_one (r ∷ rs) u)
      ∙ last_or_append "" (reported (r ∷ rs)) (reported (u ∷ [])) in
    let runs : verdict next r stamp ≡ "running" =
      ap (λ a. verdict a r stamp) (sym next_is)
      ∙ ap (λ o. verdict (last_or "" (reported ((r ∷ rs) ++ u ∷ []))) o stamp) (sym new_head)
      ∙ sym now.state_of
      ∙ run in
    let state : i.state ≡ verdict last r stamp =
      before.state_of ∙ ap (λ o. verdict last o stamp) head in
    elim (Bool-cases (is_terminal last)) [
      | inl ended ↦
          let ends : is_terminal i.state ≡ true = rw (state, ended) ended in
          absurd (
            cc ((verdict_running next r stamp runs).0, last_Honest last u ended (honest i is ends)))
      | inr goes_on ↦ (
        i,
        is,
        state ∙ verdict_same last next r stamp goes_on (verdict_running next r stamp runs).0 ∙ runs,
        now.module_of
            ∙ ap (λ o. o.module_name) new_head
            ∙ sym (before.module_of ∙ ap (λ o. o.module_name) head),
      )
    ]
