-- ===== src/Broker/Replies.antt =====
-- internal/broker: what becomes of the requests, over any interleaving of their goroutines.
use suctl.Prelude.{
  ap, ◌≤◌, ◌++◌, true, false, is_some, ◌⊎◌, inl, inr, String, ℕ, ◌+◌, String, ◌≡◌, refl, List, [],
  ◌∷◌, arith, ◌==◌, if◌then◌else◌, Bool-cases, Option-cases,
}
use suctl.Protocol.{Request, Response}
use suctl.Broker.Core.{Core, Clock, Outside}
use suctl.Messages.Jobs.{job}
use suctl.Broker.Updates.{handle_job_update, handle_job_status, status_token}
use suctl.Broker.Invoke.{
  Admission, refused, admitted, begin_invoke, check_invoke, abandon_invoke, finish_invoke,
  close_invoke, stamp_response, poll, Poll,
}
use suctl.Messages.{started_at}
use suctl.Broker.Exchange.{poll_lem, check_invoke-IsRefusal}
use suctl.Broker.World.{
  of_admission, of_status, Dispatched, answered, reported, begun, Pending, World, Event, arrive,
  wake, turn, reply, enter, after_dispatch, rotate, dispatch, wake_first, reply_first, step, run,
}

-- How often the id is the name of an entry.
pub tally : {A : Type 0} → (A → String) → String → List A → ℕ
tally name id [] = 0
tally name id (x ∷ xs) = (if name x == id then 1 else 0) + tally name id xs

abbrev pub pending_id : Pending → String
pending_id p = p.request.id

-- The id under which a reply goes out.
abbrev pub reply_id : Dispatched → String
reply_id (answered resp) = resp.id
reply_id (reported id js) = id
reply_id (begun route) = ""

-- The requests with the id that are parked, being routed, or replied to.
abbrev pub total : String → World → ℕ
total id w =
    tally pending_id id w.parked + tally pending_id id w.routing + tally reply_id id w.replies

-- The requests with the id that arrive.
abbrev pub arrivals : String → List Event → ℕ
arrivals id [] = 0
arrivals id (arrive req caller clock ∷ es) = (if req.id == id then 1 else 0) + arrivals id es
arrivals id (_ ∷ es) = arrivals id es

tally-append :
    {A : Type 0} (name : A → String) (id : String) (xs : List A) (y : A)
    → tally name id (xs ++ y ∷ []) ≡ (if name y == id then 1 else 0) + tally name id xs
unfolding tally
tally-append name id [] y = refl
tally-append name id (x ∷ xs) y = ground (arith, tally-append name id xs y)

-- What dispatch hands back of a request goes out under its id.
abbrev Stamped : String → Dispatched → Type 0
Stamped id (answered resp) = resp.id ≡ id
Stamped id (reported own js) = own ≡ id
Stamped id (begun route) = Unit

begin_invoke-Stamped :
    (c : Core) (req : Request) (caller : String) (clock : Clock)
    → Stamped req.id (of_admission (begin_invoke c req caller clock)).1
unfolding begin_invoke
begin_invoke-Stamped c req caller clock = go (check_invoke c req caller clock) refl
  where
    go :
        (a : Admission)
        → check_invoke c req caller clock ≡ a
        → Stamped req.id (of_admission (begin_invoke c req caller clock)).1
    go (refused resp) e = rw (e, begin_invoke) (check_invoke-IsRefusal c req caller clock resp e).1
    go (admitted route cap) e = rw (e, begin_invoke) tt

handle_job_update-Stamped :
    (c : Core) (req : Request) (caller : String) (clock : Clock)
    → (handle_job_update c req caller clock).1.id ≡ req.id
unfolding handle_job_update
handle_job_update-Stamped c req caller clock = ground arith

handle_job_status-Stamped :
    (c : Core) (req : Request) (clock : Clock)
    → Stamped req.id (of_status c (handle_job_status c req clock)).1
unfolding handle_job_status
handle_job_status-Stamped c req clock = elim (Bool-cases (status_token req == "")) [
  | inl blank ↦ rw (blank, handle_job_status) refl
  | inr named ↦ elim (Option-cases (job (status_token req) c.messages)) [
    | inl nothing ↦ rw (named, nothing, handle_job_status) refl
    | inr (j, found) ↦ rw (named, found, handle_job_status) refl
  ]
]

dispatch-Stamped :
    (c : Core) (req : Request) (caller : String) (clock : Clock)
    → Stamped req.id (dispatch c req caller clock).1
unfolding dispatch
dispatch-Stamped c req caller clock = elim (Bool-cases (req.cmd == "invoke")) [
  | inl calls ↦ rw (calls, dispatch) (begin_invoke-Stamped c req caller clock)
  | inr other ↦ elim (Bool-cases (req.cmd == "job_update")) [
    | inl reports ↦ rw (other, reports, dispatch) (handle_job_update-Stamped c req caller clock)
    | inr another ↦ elim (Bool-cases (req.cmd == "job_status")) [
      | inl asks ↦ rw (other, another, asks, dispatch) (handle_job_status-Stamped c req clock)
      | inr unknown ↦ rw (other, another, unknown, dispatch) refl
    ]
  ]
]

total-enter :
    (id : String) (p : Pending) (w : World)
    → total id (enter p w) ≡ (if p.request.id == id then 1 else 0) + total id w
total-enter id p w =
    ground (arith, tally-append pending_id id w.parked p, tally-append pending_id id w.routing p)

total-after_dispatch :
    (id : String) (req : Request) (caller : String) (clock : Clock) (w : World)
    (out : Core × Dispatched)
    → Stamped req.id out.1
    → total id (after_dispatch req caller clock w out)
      ≡ (if req.id == id then 1 else 0) + total id w
total-after_dispatch id req caller clock w (c, answered resp) own =
    ground (arith, own, tally-append reply_id id w.replies (answered resp))
total-after_dispatch id req caller clock w (c, reported name js) own =
    ground (arith, own, tally-append reply_id id w.replies (reported name js))
total-after_dispatch id req caller clock w (c, begun route) own =
    total-enter id _ (record w { core = c })

total-wake :
    (id : String) (clock : Clock) (ps : List Pending) (w : World)
    → w.parked ≡ ps
    → total id (wake_first clock ps w) ≡ total id w
unfolding wake_first tally
total-wake id clock [] w e = refl
total-wake id clock (p ∷ ps) w e =
    let resp : Response = (abandon_invoke w.core p.request clock).1 in
    let own : resp.id ≡ p.request.id = unfold abandon_invoke close_invoke stamp_response in refl in
    ground (
      arith,
      own,
      ap (tally pending_id id) e,
      tally-append pending_id id ps p,
      tally-append pending_id id w.routing p,
      tally-append reply_id id w.replies (answered resp),
    )

total-reply :
    (id : String) (out : Outside) (clock : Clock) (ps : List Pending) (w : World)
    → w.routing ≡ ps
    → total id (reply_first out clock ps w) ≡ total id w
unfolding reply_first tally
total-reply id out clock [] w e = refl
total-reply id out clock (p ∷ ps) w e =
    let resp : Response = (finish_invoke w.core out p.request p.caller clock p.route).1 in
    let own : resp.id ≡ p.request.id = unfold finish_invoke close_invoke stamp_response in refl in
    ground
      (arith, own, ap (tally pending_id id) e, tally-append reply_id id w.replies (answered resp))

tally-rotate :
    (id : String) (ps : List Pending) → tally pending_id id (rotate ps) ≡ tally pending_id id ps
unfolding tally
tally-rotate id [] = refl
tally-rotate id (p ∷ ps) = tally-append pending_id id ps p

total-step :
    (id : String) (e : Event) (w : World) → total id (step e w) ≡ arrivals id (e ∷ []) + total id w
unfolding step
total-step id (arrive req caller clock) w = ground (
  arith,
  total-after_dispatch id req caller clock w (dispatch w.core req caller clock)
      (dispatch-Stamped w.core req caller clock),
)
total-step id (wake clock) w = omega (arith, total-wake id clock w.parked w refl)
total-step id (reply out clock) w = omega (arith, total-reply id out clock w.routing w refl)
total-step id turn w = omega (arith, tally-rotate id w.routing)

arrivals-cons :
    (id : String) (e : Event) (es : List Event)
    → arrivals id (e ∷ es) ≡ arrivals id (e ∷ []) + arrivals id es
arrivals-cons id (arrive req caller clock) es = omega arith
arrivals-cons id (wake clock) es = omega arith
arrivals-cons id (reply out clock) es = omega arith
arrivals-cons id turn es = omega arith

-- Over any interleaving of the steps of the invokes, and for every request id, as many entries
-- under the id are parked, being routed or replied to as there were before and have arrived since:
-- a request that arrives under an id of its own is in one of the three places, once, so it is
-- neither lost nor answered twice.
pub total-run :
    (id : String) (es : List Event) (w : World) → total id (run es w) ≡ arrivals id es + total id w
unfolding run
total-run id [] w = omega arith
total-run id (e ∷ es) w =
    omega (arith, total-run id es (step e w), total-step id e w, arrivals-cons id e es)

step_wake :
    (clock : Clock) (p : Pending) (ps : List Pending) (w : World)
    → w.parked ≡ p ∷ ps
    → step (wake clock) w ≡ wake_first clock (p ∷ ps) w
unfolding step
step_wake clock p ps w parked = ap (λ qs. wake_first clock qs w) parked

wake_go :
    (clock : Clock) (p : Pending) (ps : List Pending) (w : World)
    → poll p.request.job_token clock.now p.deadline w.core.messages ≡ Poll.go
    → wake_first clock (p ∷ ps) w ≡ record w { parked = ps; routing = w.routing ++ p ∷ [] }
unfolding wake_first
wake_go clock p ps w go = rw (go, wake_first) refl

wake_give_up :
    (clock : Clock) (p : Pending) (ps : List Pending) (w : World)
    → poll p.request.job_token clock.now p.deadline w.core.messages ≡ Poll.give_up
    → let (after, resp) = abandon_invoke w.core p.request clock in
      wake_first clock (p ∷ ps) w
      ≡ record w { core = after; parked = ps; replies = w.replies ++ answered resp ∷ [] }
unfolding wake_first
wake_give_up clock p ps w over = rw (over, wake_first) refl

-- A parked invoke that looks at its stamp at its deadline or later leaves the queue: if its job
-- was promoted it goes on to be routed, and otherwise it is answered with an error.
pub wake_deadline :
    (clock : Clock) (p : Pending) (ps : List Pending) (w : World)
    → w.parked ≡ p ∷ ps
    → p.deadline ≤ clock.now
    → let out = step (wake clock) w in
      let (after, resp) = abandon_invoke w.core p.request clock in
      let promoted = is_some (started_at p.request.job_token w.core.messages) in
      (out.parked ≡ ps)
      × ((promoted ≡ true) × (out.routing ≡ w.routing ++ p ∷ []) × (out.core ≡ w.core)
          ⊎ (promoted ≡ false)
            × (out.replies ≡ w.replies ++ answered resp ∷ [])
            × (resp.status ≡ "error")
            × (out.core ≡ after))
wake_deadline clock p ps w parked late =
    elim (poll_lem p.request.job_token clock.now p.deadline w.core.messages) [
      | inl (stamped, go) ↦
          rw (step_wake clock p ps w parked, wake_go clock p ps w go)
            (refl, inl (stamped, refl, refl))
      | inr (inl (unstamped, due, over)) ↦
          rw (step_wake clock p ps w parked, wake_give_up clock p ps w over)
            (refl, inr (unstamped, refl, failed, refl))
      | inr (inr (unstamped, early, sleeps)) ↦ absurd (omega (arith, late, early))
    ]
  where
    failed : (abandon_invoke w.core p.request clock).1.status ≡ "error"
    failed = unfold abandon_invoke close_invoke stamp_response in refl
