-- ===== src/Client/Hops.antt =====
-- sdk/brokerclient/brokerclient.go with internal/broker and internal/messages: the call that a module
-- makes while it serves a job.
use suctl.Prelude.{
  String, ◌≡◌, ◌≢◌, refl, sym, ap, ◌∙◌, subst, false, ◌==◌, List, [], ◌∷◌, ◌++◌, Option, some, inl,
  inr, arith, eq_iff, ℕ,
}
use suctl.Protocol.Values.{Json}
use suctl.Protocol.{Request}
use suctl.Messages.{Record, Store, opened, by_token, started_at, open_exchange}
use suctl.Messages.Jobs.{Job, job, job_of, originating}
use suctl.Messages.Lifecycle.{reported, last_or, verdict, Derived-unique, job_of-Derived}
use suctl.Messages.Filled.{Headed, head_originating}
use suctl.Messages.Calm.{Sound, Fresh, by_token-open, open_exchange-untrimmed, added}
use suctl.Messages.Opened.{reported_one}
use suctl.Broker.Handled.{admission_cases}
use mathlib.Core.List.{append-nil}
use suctl.Broker.Core.{Core, Clock}
use suctl.Broker.Invoke.{begin_invoke, check_invoke, open_invoke}
use suctl.Client.{job_token_for, invoke_request, context_request}

-- The job as it was, but for the reports that it collects.
abbrev pub SameJob : Job → Job → Type 0
SameJob i j = (j.token ≡ i.token) × (j.module_name ≡ i.module_name) × (j.state ≡ i.state)

-- A further invoke changes nothing of the job.
append-SameJob :
    (t : String) (rs : List Record) (u : Record) (stamp : Option ℕ) (i : Job)
    → Headed rs
    → u.request.cmd ≡ "invoke"
    → job_of t rs stamp ≡ some i
    → (j : Job) × (job_of t (rs ++ u ∷ []) stamp ≡ some j) × SameJob i j
append-SameJob t [] u stamp i h calls e = unfold job_of in cc e
append-SameJob t (r ∷ rs) u stamp i h calls e =
    let before = Derived-unique t r rs stamp i e in
    let (j, is, now) = job_of-Derived t r (rs ++ u ∷ []) stamp in
    let same_head = head_originating r (rs ++ u ∷ []) h ∙ sym (head_originating r rs h) in
    (
      j,
      is,
      (
        now.token_of ∙ sym before.token_of,
        now.module_of ∙ ap (λ o. o.module_name) same_head ∙ sym before.module_of,
        now.state_of
            ∙ ap (λ l. verdict (last_or "" l) (originating r (r ∷ rs ++ u ∷ [])) stamp)
                (unreported (r ∷ rs) u calls)
            ∙ ap (λ o. verdict (last_or "" (reported (r ∷ rs))) o stamp) same_head
            ∙ sym before.state_of,
      ),
    )
  where
    unreported :
        (rs : List Record) (u : Record)
        → u.request.cmd ≡ "invoke"
        → reported (rs ++ u ∷ []) ≡ reported rs
    unreported rs u calls =
        reported_one rs u ∙ ap (λ l. reported rs ++ l) (silent u calls) ∙ append-nil (reported rs)
      where
        silent : (u : Record) → u.request.cmd ≡ "invoke" → reported (u ∷ []) ≡ []
        silent u calls = unfold reported in rw calls refl

-- What an exchange that is opened under the token of a job does to the jobs.
abbrev pub Joins : String → Job → Store → Store → Type 0
Joins token i before after =
    ((j : Job) × (job token after ≡ some j) × SameJob i j)
    × ((t : String) → t ≢ token → job t after ≡ job t before)

open_exchange-Joins :
    (req : Request) (m c w : String) (now : ℕ) (s : Store) (i : Job)
    → Sound s
    → Fresh req s
    → req.cmd ≡ "invoke"
    → job req.job_token s ≡ some i
    → Joins req.job_token i s (open_exchange req m c w now s)
unfolding job
open_exchange-Joins req m c w now s i v fresh calls e = (
  subst (λ o. (j : Job) × (o ≡ some j) × SameJob i j) (sym (job_then req.job_token))
      (subst
        (λ xs.
          (j : Job) × (job_of req.job_token xs (started_at req.job_token s) ≡ some j) × SameJob i j)
        (sym own)
        (append-SameJob req.job_token (by_token req.job_token s) u (started_at req.job_token s) i
          (v.headed req.job_token) calls e)),
  λ t differs. job_then t ∙ ap (λ xs. job_of t xs (started_at t s)) (other t differs),
)
  where
    u : Record
    u = opened req m c w now

    own : added req.job_token u (by_token req.job_token s) ≡ by_token req.job_token s ++ u ∷ []
    own = rw ((eq_iff req.job_token req.job_token).1 refl) refl

    other : (t : String) → t ≢ req.job_token → added t u (by_token t s) ≡ by_token t s
    other t differs = ground (arith, differs, eq_iff req.job_token t)

    job_then :
        (t : String)
        → job_of t
            (by_token t (open_exchange req m c w now s))
            (started_at t (open_exchange req m c w now s))
          ≡ job_of t (added t u (by_token t s)) (started_at t s)
    job_then t =
        ap (λ xs. job_of t xs (started_at t (open_exchange req m c w now s)))
          (by_token-open req m c w now s t v.inv fresh)
        ∙ ap (λ a. job_of t (added t u (by_token t s)) (started_at t a))
            (open_exchange-untrimmed req m c w now s fresh)

begin_invoke-Joins :
    (c : Core) (clock : Clock) (caller : String) (req : Request) (i : Job)
    → Sound c.messages
    → caller ≢ ""
    → Fresh req c.messages
    → req.cmd ≡ "invoke"
    → job req.job_token c.messages ≡ some i
    → Joins req.job_token i c.messages (begin_invoke c req caller clock).0.messages
unfolding begin_invoke open_invoke
begin_invoke-Joins c clock caller req i v hop fresh calls e =
    elim (admission_cases (check_invoke c req caller clock)) [
      | inl (resp, stops) ↦ rw (stops, begin_invoke) ((i, e, (refl, refl, refl)), λ t differs. refl)
      | inr (route, name, goes_on) ↦
          rw (goes_on, begin_invoke)
            (rw (no_face, open_invoke)
              (open_exchange-Joins req route.module_name name caller clock.now c.messages i v fresh
                calls e))
    ]
  where
    no_face : (caller == "") ≡ false
    no_face = ground (arith, hop, eq_iff caller "")

-- Let a module, while it serves a job whose token its context carries, send the invoke that
-- InvokeContext builds, with a new id and room in an untrimmed store whose tokens all begin with
-- an invoke. Whether the broker admits it or refuses it, the job of the token keeps its module and
-- its state, and no other job changes or is added.
pub context_request-Joins :
    (c : Core) (clock : Clock) (caller id stamp carried minted name : String) (args : Json)
    (i : Job)
    → Sound c.messages
    → caller ≢ ""
    → carried ≢ ""
    → job carried c.messages ≡ some i
    → Fresh (context_request id stamp carried minted name args) c.messages
    → Joins carried i c.messages
        (begin_invoke c (context_request id stamp carried minted name args) caller clock).0.messages
unfolding invoke_request
context_request-Joins c clock caller id stamp carried minted name args i v hop tied e fresh =
    let req = context_request id stamp carried minted name args in
    subst (λ t. Joins t i c.messages (begin_invoke c req caller clock).0.messages) kept
      (begin_invoke-Joins c clock caller req i v hop fresh refl
        (ap (λ t. job t c.messages) kept ∙ e))
  where
    kept : job_token_for carried minted ≡ carried
    kept = unfold job_token_for in ground (arith, tied, eq_iff carried "")
