-- ===== src/Broker/Exchange.antt =====
-- internal/broker/broker.go, handleInvoke: what is recorded of an exchange and what is answered.
use suctl.Prelude.{
  ℕ, ◌≤◌, ◌<◌, String, ◌≡◌, ◌≢◌, refl, ◌∙◌, true, false, not, ◌&&◌, ◌==◌, List, [], ◌∷◌, some, ◌⊎◌,
  inl, inr, arith, eq_iff, Bool-cases, lookup, is_some,
}
use suctl.Protocol.{Request, Response, decode_invoke}
use suctl.Messages
use suctl.Messages.{start, by_token, open_exchange, complete, opened, done}
use suctl.Messages.Invariant.{lookup-complete}
use suctl.Modules.Route.{Route}
use suctl.Modules.Footprint.{footprint}
use suctl.Broker.Core.{Core, Clock, Outside}
use suctl.Broker.Queue.{start_all, advance}
use suctl.Broker.Invoke.{
  refused, check_route, check_name, check_invoke, begin_invoke, advance_core, accept_async,
  stamp_response, close_invoke, finish_invoke, abandon_invoke, Poll, poll,
}

-- Promotion touches no record.
records-start : (t : String) (now : ℕ) (s : Messages.Store) → (start t now s).records ≡ s.records
unfolding start
records-start t now s = ground arith

records-start_all :
    (ts : List String) (now : ℕ) (s : Messages.Store) → (start_all ts now s).records ≡ s.records
unfolding start_all
records-start_all [] now s = refl
records-start_all (t ∷ ts) now s = records-start_all ts now (start t now s) ∙ records-start t now s

pub records-advance :
    (fp : String → List String) (now : ℕ) (s : Messages.Store)
    → (advance fp now s).records ≡ s.records
unfolding advance
records-advance fp now s = records-start_all _ now s

pub records-advance_core :
    (clock : Clock) (c : Core) → (advance_core clock c).messages.records ≡ c.messages.records
unfolding advance_core
records-advance_core clock c = records-advance (footprint c.modules) clock.now c.messages

records-close_invoke :
    (c : Core) (req : Request) (caller : String) (clock : Clock) (resp : Response)
    → (close_invoke c req caller clock resp).0.messages.records
      ≡ (complete req.id (stamp_response req clock resp) clock.now c.messages).0.records
unfolding close_invoke
records-close_invoke c req caller clock resp = elim (Bool-cases (caller == "")) [
  | inl face ↦ rw face (records-advance_core clock _)
  | inr hop ↦ rw hop refl
]

-- A closed exchange is recorded with the response, and no other exchange is touched.
abbrev pub Closes : Core → Request → ℕ → Messages.Record → Core × Response → Type 0
Closes c req now r (after, resp) =
    (resp.id ≡ req.id)
    × (lookup req.id after.messages.records
        ≡ some (record r { response = resp; resp_received = now }))
    × ((j : String) → j ≢ req.id → lookup j after.messages.records ≡ lookup j c.messages.records)

close_invoke-Closes :
    (c : Core) (req : Request) (caller : String) (clock : Clock) (resp : Response)
    {r : Messages.Record}
    → lookup req.id c.messages.records ≡ some r
    → Closes c req clock.now r (close_invoke c req caller clock resp)
close_invoke-Closes c req caller clock resp {r} e = (id_of, own, other)
  where
    id_of : (close_invoke c req caller clock resp).1.id ≡ req.id
    id_of = unfold close_invoke stamp_response in refl

    own :
        lookup req.id (close_invoke c req caller clock resp).0.messages.records
        ≡ some (record r {
          response = (close_invoke c req caller clock resp).1;
          resp_received = clock.now;
        })
    own =
        rw (records-close_invoke c req caller clock resp)
          (rw lookup-complete (unfold close_invoke in rw ((eq_iff req.id req.id).1 refl, e) refl))

    other :
        (j : String)
        → j ≢ req.id
        → lookup j (close_invoke c req caller clock resp).0.messages.records
          ≡ lookup j c.messages.records
    other j ne =
        rw (records-close_invoke c req caller clock resp)
          (rw lookup-complete (ground (arith, ne, eq_iff req.id j)))

-- Of the invokes whose exchange is recorded, one that is routed, whatever comes back, and one that
-- is given up in the queue are both closed: the exchange is recorded with the very response that
-- the caller gets, under the id of the request, and no other exchange changes.
pub finish_invoke-Closes :
    (c : Core) (out : Outside) (req : Request) (caller : String) (clock : Clock) (route : Route)
    (r : Messages.Record)
    → lookup req.id c.messages.records ≡ some r
    → Closes c req clock.now r (finish_invoke c out req caller clock route)
      × Closes c req clock.now r (abandon_invoke c req clock)
unfolding finish_invoke abandon_invoke
finish_invoke-Closes c out req caller clock route r e =
    (close_invoke-Closes c req caller clock _ e, close_invoke-Closes c req "" clock _ e)

error_ne_ok : ◌≢◌ {A = String} "error" "ok"
error_ne_ok e = let same : ("error" == "ok") ≡ true = (eq_iff "error" "ok").1 e in cc

accept_async_accepted :
    (req : Request) (clock : Clock) (route : Route) (resp : Response)
    → route.async ≡ true
    → (accept_async req "" clock route resp).status ≡ "ok"
    → (decode_invoke (accept_async req "" clock route resp).result).0.accepted ≡ true
unfolding accept_async
accept_async_accepted req clock route resp async e =
    elim (Bool-cases (
      resp.status == "ok"
      && not ((decode_invoke resp.result).1 && (decode_invoke resp.result).0.accepted))) [
        | inl refuse ↦ absurd (error_ne_ok (ground (arith, refuse)))
        | inr accept ↦ ground (arith, accept, eq_iff resp.status "ok")
      ]

-- An originating invoke of an async capability comes back as ok only if the module accepted the
-- job.
pub finish_invoke_accepted :
    (c : Core) (out : Outside) (req : Request) (clock : Clock) (route : Route)
    → route.async ≡ true
    → (finish_invoke c out req "" clock route).1.status ≡ "ok"
    → (decode_invoke (finish_invoke c out req "" clock route).1.result).0.accepted ≡ true
unfolding finish_invoke close_invoke stamp_response
finish_invoke_accepted c out req clock route async e =
    accept_async_accepted req clock route _ async e

-- A waiting invoke goes on exactly if its job has been promoted, and otherwise waits exactly until
-- its deadline: it never sleeps past it.
pub poll_lem :
    (token : String) (now deadline : ℕ) (s : Messages.Store)
    → ((is_some (Messages.started_at token s) ≡ true) × (poll token now deadline s ≡ Poll.go))
      ⊎ ((is_some (Messages.started_at token s) ≡ false)
            × (deadline ≤ now)
            × (poll token now deadline s ≡ Poll.give_up)
          ⊎ (is_some (Messages.started_at token s) ≡ false)
            × (now < deadline)
            × (poll token now deadline s ≡ Poll.sleep))
unfolding poll
poll_lem token now deadline s = ground arith

-- An error under the id of the request.
abbrev pub IsRefusal : String → Response → Type 0
IsRefusal id resp = (resp.status ≡ "error") × (resp.id ≡ id) × (is_some resp.error ≡ true)

pub check_invoke-IsRefusal :
    (c : Core) (req : Request) (caller : String) (clock : Clock) (resp : Response)
    → check_invoke c req caller clock ≡ refused resp
    → IsRefusal req.id resp
unfolding check_invoke check_name check_route
check_invoke-IsRefusal c req caller clock resp e = ground arith

-- An invoke that is refused leaves the broker as it was, and the refusal is an error under the id
-- of the request.
pub begin_invoke_refused :
    (c : Core) (req : Request) (caller : String) (clock : Clock) (resp : Response)
    → (begin_invoke c req caller clock).1 ≡ refused resp
    → ((begin_invoke c req caller clock).0 ≡ c) × IsRefusal req.id resp
unfolding begin_invoke
begin_invoke_refused c req caller clock resp e =
    ground (arith, check_invoke-IsRefusal c req caller clock resp)
