-- ===== src/Broker/Reports.antt =====
-- internal/broker/broker.go, handleJobUpdate: what a report does to the broker.
use suctl.Prelude.{
  ℕ, ◌∙◌, List, In, Dict, Option-cases, String, ◌≡◌, refl, true, false, ◌&&◌, ◌==◌, [], ◌∷◌, ◌++◌,
  none, some, ◌⊎◌, inl, inr, arith, eq_iff, Bool-cases, if◌then◌else◌, lookup,
}
use suctl.Protocol.{Request, Response, JobUpdateParams, decode_update}
use suctl.Messages
use suctl.Messages.{by_token, with_token, opened, start}
use suctl.Messages.Jobs.{is_terminal}
use suctl.Messages.Invariant.{lookup-complete, open_exchange-own}
use suctl.Broker.Core.{Core, Clock}
use suctl.Broker.Queue.{start_all, advance}
use suctl.Broker.Invoke.{advance_core}
use suctl.Broker.Exchange.{IsRefusal, records-advance_core}
use suctl.Broker.Updates.{
  surface_originated, ok_response, is_nil, record_report, deliver, handle_job_update,
}

-- A report without a token, with ill-typed params or for an unknown job is refused under its id,
-- and changes nothing.
pub job_update_refused :
    (c : Core) (req : Request) (caller : String) (clock : Clock)
    → ((req.job_token == "") ≡ true)
      ⊎ (((decode_update req.params).1 ≡ false)
          ⊎ (is_nil (by_token req.job_token c.messages) ≡ true))
    → ((handle_job_update c req caller clock).0 ≡ c)
      × IsRefusal req.id (handle_job_update c req caller clock).1
unfolding handle_job_update
job_update_refused c req caller clock why = ground arith

-- The store holds an invoke of the token that came from the face.
abbrev pub FromFace : String → Messages.Store → Type 0
FromFace token s =
    (id : String) × (m : Messages.Record) × In id s.order
    × (lookup id s.records ≡ some m)
    × (m.request.job_token ≡ token)
    × (m.request.cmd ≡ "invoke")
    × (m.caller ≡ "")

FromFace-surface_originated :
    (token : String) (records : Dict Messages.Record) (ids : List String)
    → FromFace token (record { order = ids; records = records; started = [] })
    → surface_originated (with_token token records ids) ≡ true
unfolding surface_originated with_token
FromFace-surface_originated token records [] (id, m, at, found, named, calls, face) = absurd at
FromFace-surface_originated token records (x ∷ ids) (id, m, inl own, found, named, calls, face) =
    rw (← own) (
      rw (found, with_token)
        (ground (
          arith,
          eq_iff m.request.job_token token,
          eq_iff m.request.cmd "invoke",
          eq_iff m.caller "",
          named,
          calls,
          face,
        )))
FromFace-surface_originated token records (x ∷ ids) (id, m, inr at, found, named, calls, face) =
    ground
      (arith, FromFace-surface_originated token records ids (id, m, at, found, named, calls, face))

surface_originated-FromFace :
    (token : String) (records : Dict Messages.Record) (ids : List String)
    → surface_originated (with_token token records ids) ≡ true
    → FromFace token (record { order = ids; records = records; started = [] })
unfolding surface_originated with_token
surface_originated-FromFace token records [] h = cc h
surface_originated-FromFace token records (x ∷ ids) h = elim (Option-cases (lookup x records)) [
  | inl nothing ↦
      let (id, m, at, found_it, named, calls, face) =
        surface_originated-FromFace token records ids (rw (nothing, with_token) at h) in
      (id, m, inr at, found_it, named, calls, face)
  | inr (m, found) ↦ elim (Bool-cases (m.request.job_token == token)) [
    | inr other ↦
        let (id, n, at, found_it, named, calls, face) =
          surface_originated-FromFace token records ids (rw (found, other, with_token) at h) in
        (id, n, inr at, found_it, named, calls, face)
    | inl own ↦ elim (Bool-cases (m.request.cmd == "invoke" && m.caller == "")) [
      | inl face ↦ (
        x,
        m,
        inl refl,
        found,
        (eq_iff m.request.job_token token).0 own,
        ground (arith, face, eq_iff m.request.cmd "invoke"),
        ground (arith, face, eq_iff m.caller ""),
      )
      | inr other ↦
          let (id, n, at, found_it, named, calls, face) =
            surface_originated-FromFace token records ids
              (rw (found, own, with_token, other, surface_originated) at h) in
          (id, n, inr at, found_it, named, calls, face)
    ]
  ]
]

-- What the surface gets of a report: all of it where a sink is there and the job is the face's.
abbrev pub Delivers : Core → Request → Messages.Store → List (String × JobUpdateParams) → Type 0
Delivers c req s delivered =
    ((c.sink ≡ true)
      × FromFace req.job_token s
      × (delivered ≡ c.delivered ++ (req.job_token, (decode_update req.params).0) ∷ []))
    ⊎ (¬ ((c.sink ≡ true) × FromFace req.job_token s)) × (delivered ≡ c.delivered)

-- What an accepted report leaves behind.
pub record Recorded (c : Core) (req : Request) (caller : String) (clock : Clock)
    (out : Core × Response) : Type 0 where
  pub answer : out.1 ≡ ok_response req.id "" none clock
  pub exchange :
      lookup req.id out.0.messages.records
      ≡ some (record (opened req caller "" caller clock.now) {
        response = out.1;
        resp_received = clock.now;
      })
  pub delivery : Delivers c req out.0.messages out.0.delivered

record_report_exchange :
    (c : Core) (req : Request) (caller : String) (clock : Clock)
    → lookup req.id (record_report c req caller clock).messages.records
      ≡ some (record (opened req caller "" caller clock.now) {
        response = ok_response req.id "" none clock;
        resp_received = clock.now;
      })
unfolding record_report
record_report_exchange c req caller clock = rw lookup-complete (
    rw ((eq_iff req.id req.id).1 refl, open_exchange-own req caller "" caller clock.now c.messages)
      refl)

messages-deliver :
    (token : String) (params : JobUpdateParams) (c : Core)
    → (deliver token params c).messages ≡ c.messages
unfolding deliver
messages-deliver token params c = ground arith

delivered-advance_core : (clock : Clock) (c : Core) → (advance_core clock c).delivered ≡ c.delivered
unfolding advance_core
delivered-advance_core clock c = refl

delivered-record_report :
    (c : Core) (req : Request) (caller : String) (clock : Clock)
    → ((record_report c req caller clock).delivered ≡ c.delivered)
      × ((record_report c req caller clock).sink ≡ c.sink)
unfolding record_report
delivered-record_report c req caller clock = (refl, refl)

order-start_all :
    (ts : List String) (now : ℕ) (s : Messages.Store) → (start_all ts now s).order ≡ s.order
unfolding start_all
order-start_all [] now s = refl
order-start_all (t ∷ ts) now s =
    order-start_all ts now (start t now s) ∙ (unfold start in ground arith)

order-advance_core :
    (clock : Clock) (c : Core) → (advance_core clock c).messages.order ≡ c.messages.order
unfolding advance_core advance
order-advance_core clock c = order-start_all _ clock.now c.messages

pub job_update_taken :
    (c : Core) (req : Request) (caller : String) (clock : Clock)
    → (req.job_token == "") ≡ false
    → (decode_update req.params).1 ≡ true
    → is_nil (by_token req.job_token c.messages) ≡ false
    → let routed =
        deliver req.job_token (decode_update req.params).0 (record_report c req caller clock) in
      handle_job_update c req caller clock ≡ (
        if is_terminal (decode_update req.params).0.state
            then advance_core clock routed
            else routed,
        ok_response req.id "" none clock,
      )
unfolding handle_job_update
job_update_taken c req caller clock named typed known = rw (named, typed, known) refl

-- A report with a token, well-typed params and a known job is answered ok, is recorded as a
-- completed exchange of its own, and goes to the surface exactly if a sink is there and the store
-- then holds an invoke of the token that came from the face, whether or not the report is
-- terminal.
pub job_update-Recorded :
    (c : Core) (req : Request) (caller : String) (clock : Clock)
    → (req.job_token == "") ≡ false
    → (decode_update req.params).1 ≡ true
    → is_nil (by_token req.job_token c.messages) ≡ false
    → Recorded c req caller clock (handle_job_update c req caller clock)
job_update-Recorded c req caller clock named typed known =
    rw (job_update_taken c req caller clock named typed known)
      (elim (Bool-cases (is_terminal (decode_update req.params).0.state)) [
        | inl ends ↦ rw ends (record {
          answer = refl;
          exchange = rw records-advance_core routed_exchange;
          delivery =
              rw (delivered-advance_core, records-advance_core, order-advance_core) routed_delivery;
        })
        | inr goes_on ↦
            rw goes_on
              (record { answer = refl; exchange = routed_exchange; delivery = routed_delivery })
      ])
  where
    routed : Core
    routed = deliver req.job_token (decode_update req.params).0 (record_report c req caller clock)

    routed_exchange :
        lookup req.id routed.messages.records
        ≡ some (record (opened req caller "" caller clock.now) {
          response = ok_response req.id "" none clock;
          resp_received = clock.now;
        })
    routed_exchange = rw messages-deliver (record_report_exchange c req caller clock)

    routed_delivery : Delivers c req routed.messages routed.delivered
    routed_delivery =
        let reports : Core = record_report c req caller clock in
        let order : List String = reports.messages.order in
        let records : Dict Messages.Record = reports.messages.records in
        rw messages-deliver
          (elim (Bool-cases
            (c.sink && surface_originated (by_token req.job_token reports.messages))) [
              | inl goes ↦ inl (
                ground (arith, goes),
                surface_originated-FromFace req.job_token records order (ground (arith, goes)),
                unfold deliver in ground (arith, goes, delivered-record_report c req caller clock),
              )
              | inr stays ↦ inr (
                λ (on, face). ground (
                  arith,
                  stays,
                  on,
                  FromFace-surface_originated req.job_token records order face,
                ),
                unfold deliver in ground (arith, stays, delivered-record_report c req caller clock),
              )
            ])
