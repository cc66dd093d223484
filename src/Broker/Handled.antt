-- ===== src/Broker/Handled.antt =====
-- internal/broker/broker.go: the states that the handlers reach, one after the other in any order.
use suctl.Prelude.{
  String, ◌≡◌, refl, sym, ap, ◌∙◌, subst, Bool, true, false, ◌==◌, ◌&&◌, some, none, ◌⊎◌, inl, inr,
  eq_iff, lookup, Bool-cases, if◌then◌else◌,
}
use suctl.Protocol.{Request, Response, decode_update, JobUpdateParams}
use suctl.Messages.{Record, Store, done, empty, by_token, opened, open_exchange, complete}
use suctl.Messages.Jobs.{Job, job, is_terminal}
use suctl.Messages.Invariant.{open_exchange-own}
use suctl.Messages.Opened.{Honest}
use suctl.Messages.Calm.{empty-Sound, Fresh, Admitted}
use suctl.Modules.Route.{Route}
use suctl.Modules.Footprint.{footprint}
use suctl.Broker.Core.{Core, Clock, Outside}
use suctl.Broker.Exclusive.{IsExclusive, unstarted-IsExclusive}
use suctl.Broker.Isolation.{Isolated, advance-Isolated, open_exchange-Isolated, complete-Isolated}
use suctl.Broker.Invoke.{
  begin_invoke, open_invoke, check_invoke, refused, admitted, Admission, advance_core, close_invoke,
  stamp_response, finish_invoke, abandon_invoke,
}
use suctl.Broker.Updates.{
  record_report, ok_response, is_nil, handle_job_update, deliver, surface_originated,
}
use suctl.Broker.Reports.{job_update_taken, job_update_refused}

-- The exchange of a request waits for its response.
abbrev pub Waits : Request → Core → Type 0
Waits req c = (r : Record) × (lookup req.id c.messages.records ≡ some r) × (done r ≡ false)

-- One call of a handler, or one part of handleInvoke. A request that is recorded has a new id, and the
-- store has room for it; an exchange is completed once; and no report takes back a terminal state.
pub data Step : Core → Core → Type 0 where
  begins :
      (req : Request) (caller : String) (clock : Clock) {c : Core}
      → req.cmd ≡ "invoke"
      → Fresh req c.messages
      → Step c (begin_invoke c req caller clock).0
  finishes :
      (out : Outside) (req : Request) (caller : String) (clock : Clock) (route : Route) {c : Core}
      → Waits req c
      → Step c (finish_invoke c out req caller clock route).0
  gives_up :
      (req : Request) (clock : Clock) {c : Core}
      → Waits req c
      → Step c (abandon_invoke c req clock).0
  reports :
      (req : Request) (caller : String) (clock : Clock) {c : Core}
      → req.cmd ≡ "job_update"
      → Fresh req c.messages
      → ((i : Job) → job req.job_token c.messages ≡ some i → Honest req i)
      → Step c (handle_job_update c req caller clock).0

-- The states reached from an empty messages store.
pub data Reach : Core → Type 0 where
  starts : (c : Core) → c.messages ≡ empty → Reach c
  goes : {c d : Core} → Reach c → Step c d → Reach d

abbrev pub Fine : Core → Type 0
Fine c = Isolated (footprint c.modules) c.messages

advance_core-Fine : (clock : Clock) (c : Core) → Fine c → Fine (advance_core clock c)
unfolding advance_core
advance_core-Fine clock c v = advance-Isolated (footprint c.modules) clock.now c.messages v

advance_if :
    (b : Bool) (clock : Clock) (c : Core) → Fine c → Fine (if b then advance_core clock c else c)
advance_if true clock c v = advance_core-Fine clock c v
advance_if false clock c v = v

-- A new invoke is admitted to the store: it is no report.
invoke-Admitted : (req : Request) (s : Store) → req.cmd ≡ "invoke" → Fresh req s → Admitted req s
invoke-Admitted req s is fresh = record {
  fresh = fresh;
  first = λ e. is;
  honest = λ i e ends report names.
      let no : ("invoke" == "job_update") ≡ true =
        (eq_iff "invoke" "job_update").1 (sym is ∙ report) in
      cc;
}

pub admission_cases :
    (a : Admission)
    → ((resp : Response) × (a ≡ refused resp))
      ⊎ ((route : Route) × (name : String) × (a ≡ admitted route name))
admission_cases (refused resp) = inl (resp, refl)
admission_cases (admitted route name) = inr (route, name, refl)

begin_invoke-Fine :
    (req : Request) (caller : String) (clock : Clock) (c : Core)
    → req.cmd ≡ "invoke"
    → Fresh req c.messages
    → Fine c
    → Fine (begin_invoke c req caller clock).0
unfolding begin_invoke open_invoke
begin_invoke-Fine req caller clock c is fresh v =
    elim (admission_cases (check_invoke c req caller clock)) [
      | inl (resp, stops) ↦ rw (stops, begin_invoke) v
      | inr (route, name, goes_on) ↦
          rw (goes_on, begin_invoke)
            (advance_if (caller == "") clock
              (record c {
                messages = open_exchange req route.module_name name caller clock.now c.messages;
              })
              (open_exchange-Isolated _ req route.module_name name caller clock.now c.messages v
                (invoke-Admitted req c.messages is fresh)))
    ]

close_invoke-Fine :
    (req : Request) (caller : String) (clock : Clock) (resp : Response) (c : Core)
    → Waits req c
    → Fine c
    → Fine (close_invoke c req caller clock resp).0
unfolding close_invoke
close_invoke-Fine req caller clock resp c (r, here, waits) v =
    advance_if (caller == "") clock
      (record c {
        messages = (complete req.id (stamp_response req clock resp) clock.now c.messages).0;
      })
      (complete-Isolated _ req.id _ clock.now c.messages r v here waits)

record_report-Fine :
    (req : Request) (caller : String) (clock : Clock) (c : Core)
    → Admitted req c.messages
    → Fine c
    → Fine (record_report c req caller clock)
unfolding record_report
record_report-Fine req caller clock c a v =
    let s = open_exchange req caller "" caller clock.now c.messages in
    complete-Isolated _ req.id (ok_response req.id "" none clock) clock.now s
      (opened req caller "" caller clock.now)
      (open_exchange-Isolated _ req caller "" caller clock.now c.messages v a)
      (open_exchange-own req caller "" caller clock.now c.messages) refl

deliver-Fine :
    (token : String) (params : JobUpdateParams) (c : Core) → Fine c → Fine (deliver token params c)
unfolding deliver
deliver-Fine token params c v =
    elim (Bool-cases (c.sink && surface_originated (by_token token c.messages))) [
      | inl shown ↦ rw (shown, deliver) v
      | inr kept ↦ rw (kept, deliver) v
    ]

handle_job_update-Fine :
    (req : Request) (caller : String) (clock : Clock) (c : Core)
    → req.cmd ≡ "job_update"
    → Fresh req c.messages
    → ((i : Job) → job req.job_token c.messages ≡ some i → Honest req i)
    → Fine c
    → Fine (handle_job_update c req caller clock).0
handle_job_update-Fine req caller clock c is fresh honest v =
    elim (Bool-cases (req.job_token == "")) [
      | inl blank ↦ unchanged (inl blank)
      | inr named ↦ elim (Bool-cases (decode_update req.params).1) [
        | inr garbled ↦ unchanged (inr (inl garbled))
        | inl typed ↦ elim (Bool-cases (is_nil (by_token req.job_token c.messages))) [
          | inl unknown ↦ unchanged (inr (inr unknown))
          | inr known ↦ rw (job_update_taken c req caller clock named typed known) (
              advance_if (is_terminal (decode_update req.params).0.state) clock _ (
                deliver-Fine req.job_token (decode_update req.params).0
                  (record_report c req caller clock)
                  (record_report-Fine req caller clock c (admits known) v)))
        ]
      ]
    ]
  where
    unchanged :
        ((req.job_token == "") ≡ true)
          ⊎ (((decode_update req.params).1 ≡ false)
              ⊎ (is_nil (by_token req.job_token c.messages) ≡ true))
        → Fine (handle_job_update c req caller clock).0
    unchanged why = subst Fine (sym (job_update_refused c req caller clock why).0) v

    admits : is_nil (by_token req.job_token c.messages) ≡ false → Admitted req c.messages
    admits known = record {
      fresh = fresh;
      first = λ none_yet. cc (ap is_nil none_yet, known);
      honest = honest;
    }

Step-Fine : {c d : Core} → Step c d → Fine c → Fine d
unfolding finish_invoke abandon_invoke
Step-Fine (begins req caller clock {c} is fresh) v = begin_invoke-Fine req caller clock c is fresh v
Step-Fine (finishes out req caller clock route {c} waits) v =
    close_invoke-Fine req caller clock _ c waits v
Step-Fine (gives_up req clock {c} waits) v = close_invoke-Fine req "" clock _ c waits v
Step-Fine (reports req caller clock {c} is fresh honest) v =
    handle_job_update-Fine req caller clock c is fresh honest v

pub Reach-Fine : (c : Core) → Reach c → Fine c
Reach-Fine _ (starts c nothing) = rw nothing (record {
  sound = empty-Sound;
  exclusive = unstarted-IsExclusive (footprint c.modules) empty refl;
})
Reach-Fine _ (goes h s) = Step-Fine s (Reach-Fine _ h)

-- In every state that the handlers of the broker reach from an empty messages store, whatever
-- requests and responses come in and in whatever order, no module lies in the footprints of two
-- jobs that run. The conditions are that a recorded request has a new id, the store has room for
-- it without trimming, an exchange is completed once, and a report of a job that has ended names
-- no state that is not terminal; the modules store stays as it is.
pub Reach-IsExclusive : (c : Core) → Reach c → IsExclusive (footprint c.modules) c.messages
Reach-IsExclusive c h = (Reach-Fine c h).exclusive
