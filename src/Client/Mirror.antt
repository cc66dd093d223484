-- ===== src/Client/Mirror.antt =====
-- sdk/brokerclient/brokerclient.go and internal/wire: the two ends of a wire keep the same books.
use mathlib.Core.List.{Perm}
use mathlib.Core.List.Perm
use suctl.Prelude.{
  ℕ, String, true, List, [], ◌∷◌, none, some, ◌⊎◌, inl, inr, ◌≡◌, ◌≢◌, false, ◌==◌, eq_iff, subst,
  refl, ap, ◌∙◌, arith, Dict, lookup, delete, insert, is_some, Option-cases,
}
use suctl.Protocol.{Message, Request, Response}
use suctl.Wire
use suctl.Wire.{Mux, new_mux}
use suctl.Client
use suctl.Client.{BrokerWire, new_wire, deliver, fail, begin_round_trip, forget}

-- A step of one end: a call begins, a response comes in, the wire breaks, or a call gives up.
pub data Event : Type 0 where
  -- a call with the id that core would mint for it if it had none
  begins : ℕ → String → Request → Event
  delivers : Response → Event
  breaks : Message → String → Event
  forgets : String → Event

abbrev begun : BrokerWire → Message ⊎ BrokerWire → BrokerWire
begun w (inl e) = w
begun w (inr after) = after

pub client_step : Event → BrokerWire → BrokerWire
client_step (Event.begins call fresh req) w = begun w (begin_round_trip call req w)
client_step (Event.delivers resp) w = deliver resp w
client_step (Event.breaks e text) w = fail e w
client_step (Event.forgets id) w = forget id w

pub core_step : Event → Mux → Mux
core_step (Event.begins call fresh req) m = (Wire.begin_round_trip call fresh req.ts_sent req m).0
core_step (Event.delivers resp) m = Wire.deliver resp m
core_step (Event.breaks e text) m = Wire.fail text m
core_step (Event.forgets id) m = Wire.forget id m

pub client_run : List Event → BrokerWire → BrokerWire
client_run [] w = w
client_run (e ∷ es) w = client_run es (client_step e w)

pub core_run : List Event → Mux → Mux
core_run [] m = m
core_run (e ∷ es) m = core_run es (core_step e m)

-- Each call has an id that is not empty, as those that the client mints are.
abbrev pub AllNamed : List Event → Type 0
AllNamed [] = Unit
AllNamed (Event.begins call fresh req ∷ es) = (req.id ≢ "") × AllNamed es
AllNamed (_ ∷ es) = AllNamed es

-- The same calls wait, the same have received, and both are broken or neither, with no call waiting
-- on a broken wire.
pub record Mirrors (w : BrokerWire) (m : Mux) : Type 0 where
  pub waiting : w.pending ≡ m.pending
  pub answered : Perm w.received m.received
  pub broken : is_some w.err ≡ is_some m.err
  pub released : is_some w.err ≡ true → w.pending ≡ []

same_released : (p : Dict ℕ) → Client.released p ≡ Wire.released p
same_released [] = refl
same_released ((id, call) ∷ p) = ap (λ l. (call, none) ∷ l) (same_released p)

-- On a broken wire no call begins.
begun_broken :
    (call : ℕ) (req : Request) (w : BrokerWire) (e : Message)
    → w.err ≡ some e
    → begun w (begin_round_trip call req w) ≡ w
unfolding begin_round_trip
begun_broken call req w e closed =
    ap
      (λ x. begun w (elim x [
        | some e ↦ inl e
        | none ↦ inr (record w { pending = insert req.id call w.pending })
      ]))
      closed

core_broken :
    (call : ℕ) (fresh stamp : String) (req : Request) (m : Mux) (e : String)
    → m.err ≡ some e
    → (Wire.begin_round_trip call fresh stamp req m).0 ≡ m
unfolding Wire.begin_round_trip
core_broken call fresh stamp req m e broken = ground (arith, broken)

begin-Mirrors :
    (call : ℕ) (fresh : String) (req : Request) (w : BrokerWire) (m : Mux)
    → req.id ≢ ""
    → Mirrors w m
    → Mirrors
        (begun w (begin_round_trip call req w))
        (Wire.begin_round_trip call fresh req.ts_sent req m).0
unfolding begin_round_trip Wire.begin_round_trip
begin-Mirrors call fresh req w m named v = elim (Option-cases w.err) [
  | inl well ↦ elim (Option-cases m.err) [
    | inl sound ↦
        let unnamed : (req.id == "") ≡ false = ground (arith, named, eq_iff req.id "") in
        rw (sound, well, unnamed, begin_round_trip, Wire.begin_round_trip)
          (record {
            waiting = rw v.waiting refl;
            answered = v.answered;
            broken = v.broken;
            released = λ b. absurd (ground (arith, b, well));
          })
    | inr (e, broken) ↦ absurd (ground (arith, v.broken, well, broken))
  ]
  | inr (d, closed) ↦ elim (Option-cases m.err) [
    | inl sound ↦ absurd (ground (arith, v.broken, closed, sound))
    | inr (e, broken) ↦
        rw (begun_broken call req w d closed, core_broken call fresh req.ts_sent req m e broken) v
  ]
]

deliver-Mirrors :
    (resp : Response) (w : BrokerWire) (m : Mux)
    → Mirrors w m
    → Mirrors (deliver resp w) (Wire.deliver resp m)
unfolding deliver Wire.deliver
deliver-Mirrors resp w m v = record {
  waiting = ground (arith, v.waiting);
  answered = elim (Option-cases (lookup resp.id w.pending)) [
    | inl nothing ↦
        rw (nothing, subst (λ p. lookup resp.id p ≡ none) v.waiting nothing, deliver, Wire.deliver)
          v.answered
    | inr (call, found) ↦
        rw (found, subst (λ p. lookup resp.id p ≡ some call) v.waiting found, deliver, Wire.deliver)
          (Perm.append_right ((call, some resp) ∷ []) v.answered)
  ];
  broken = ground (arith, v.broken, v.waiting);
  released = elim (Option-cases (lookup resp.id w.pending)) [
    | inl e ↦ rw (e, deliver) v.released
    | inr (x, e) ↦
        rw (e, deliver) (λ b. ap (delete resp.id) (v.released b) ∙ (unfold delete in refl))
  ];
}

fail-Mirrors :
    (e : Message) (text : String) (w : BrokerWire) (m : Mux)
    → Mirrors w m
    → Mirrors (fail e w) (Wire.fail text m)
unfolding fail Wire.fail
fail-Mirrors e text w m v = record {
  waiting = refl;
  answered =
      rw (same_released w.pending, v.waiting)
        (Perm.append_right (Wire.released m.pending) v.answered);
  broken = ground arith;
  released = λ b. refl;
}

forget-Mirrors :
    (id : String) (w : BrokerWire) (m : Mux)
    → Mirrors w m
    → Mirrors (forget id w) (Wire.forget id m)
unfolding forget Wire.forget
forget-Mirrors id w m v = record {
  waiting = ap (delete id) v.waiting;
  answered = v.answered;
  broken = v.broken;
  released = λ b. ap (delete id) (v.released b) ∙ (unfold delete in refl);
}

step-Mirrors :
    (e : Event) (w : BrokerWire) (m : Mux)
    → AllNamed (e ∷ [])
    → Mirrors w m
    → Mirrors (client_step e w) (core_step e m)
unfolding client_step core_step
step-Mirrors (Event.begins call fresh req) w m named v = begin-Mirrors call fresh req w m named.0 v
step-Mirrors (Event.delivers resp) w m named v = deliver-Mirrors resp w m v
step-Mirrors (Event.breaks e text) w m named v = fail-Mirrors e text w m v
step-Mirrors (Event.forgets id) w m named v = forget-Mirrors id w m v

AllNamed-cons : (e : Event) (es : List Event) → AllNamed (e ∷ es) → AllNamed (e ∷ []) × AllNamed es
AllNamed-cons (Event.begins call fresh req) es h = ((h.0, tt), h.1)
AllNamed-cons (Event.delivers resp) es h = (tt, h)
AllNamed-cons (Event.breaks e text) es h = (tt, h)
AllNamed-cons (Event.forgets id) es h = (tt, h)

run-Mirrors :
    (es : List Event) (w : BrokerWire) (m : Mux)
    → AllNamed es
    → Mirrors w m
    → Mirrors (client_run es w) (core_run es m)
unfolding client_run core_run
run-Mirrors [] w m named v = v
run-Mirrors (e ∷ es) w m named v =
    let (first, rest) = AllNamed-cons e es named in
    run-Mirrors es (client_step e w) (core_step e m) rest (step-Mirrors e w m first v)

-- Whatever calls, each with an id that is not empty, responses, breaks and timeouts the client of
-- a module and the mux of core take alike from a new wire, the same calls wait under the same ids,
-- the same calls have received the same responses and sentinels, up to the order, both are broken
-- or neither is, and no call waits on a broken one.
pub client_run-Mirrors :
    (es : List Event) → AllNamed es → Mirrors (client_run es new_wire) (core_run es new_mux)
client_run-Mirrors es named =
    run-Mirrors es new_wire new_mux named
      (record { waiting = refl; answered = Perm.refl []; broken = refl; released = λ e. refl })
