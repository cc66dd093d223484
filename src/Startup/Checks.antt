-- ===== src/Startup/Checks.antt =====
-- internal/startup/activate.go and handshake.go: what the checks between the launch of a module and its
-- post-activate hook ask for.
use suctl.Prelude.{
  ℕ, String, Option, none, some, ◌⊎◌, inl, inr, ◌≡◌, refl, ◌∙◌, ap, arith, eq_iff, Option-cases,
  Bool-cases, ◌==◌,
}
use suctl.Protocol.{Message, Response}
use suctl.Modules.{Record}
use suctl.Manifest.{Manifest}
use suctl.Protocol.Values.{Json}
use suctl.Startup.Activate.{Attempt, first_failure, handshake, protocol_of}

pub sum_cases : {A B : Type 0} (x : A ⊎ B) → ((a : A) × (x ≡ inl a)) ⊎ ((b : B) × (x ≡ inr b))
sum_cases (inl a) = inl (a, refl)
sum_cases (inr b) = inr (b, refl)

-- A wire is bound, the module answers the handshake with ok and the protocol of the manifest, and the
-- self test finds no error.
pub record Checked (a : Attempt) (r : Record) : Type 0 where
  pub wire : ℕ
  pub bound : r.mux ≡ some wire
  pub resp : Response
  pub replied : a.reply ≡ inr resp
  pub accepted : resp.status ≡ "ok"
  pub speaks : a.live_protocol resp.result ≡ inr (protocol_of r.manifest)
  pub tested : a.bist ≡ none

-- A reply that the handshake takes.
abbrev Speaks : Message ⊎ Response → (Option Json → Message ⊎ String) → Option Manifest → Type 0
Speaks reply decode m =
    (resp : Response) × (reply ≡ inr resp)
    × (resp.status ≡ "ok")
    × (decode resp.result ≡ inr (protocol_of m))

handshake-Speaks :
    (reply : Message ⊎ Response) (decode : Option Json → Message ⊎ String) (m : Option Manifest)
    → handshake reply decode m ≡ none
    → Speaks reply decode m
unfolding handshake
handshake-Speaks (inl e) decode m h = cc h
handshake-Speaks (inr resp) decode m h = elim (Bool-cases (resp.status == "ok")) [
  | inr odd ↦ cc (rw (odd, handshake) at h)
  | inl fine ↦ elim (sum_cases (decode resp.result)) [
    | inl (e, garbled) ↦ cc (rw (fine, garbled, handshake) at h)
    | inr (live, decoded) ↦ elim (Bool-cases (live == protocol_of m)) [
      | inr other ↦ cc (rw (fine, decoded, other, handshake) at h)
      | inl agrees ↦ (
        resp,
        refl,
        (eq_iff resp.status "ok").0 fine,
        decoded ∙ ap inr ((eq_iff live (protocol_of m)).0 agrees),
      )
    ]
  ]
]

pub first_failure_sound : (a : Attempt) (r : Record) → first_failure a r ≡ none → Checked a r
unfolding first_failure
first_failure_sound a r h = elim (Option-cases r.mux) [
  | inl unbound ↦ cc (rw (unbound, first_failure) at h)
  | inr (wire, bound) ↦ elim (Option-cases (handshake a.reply a.live_protocol r.manifest)) [
    | inr (e, mute) ↦ cc (rw (bound, mute, first_failure) at h)
    | inl shaken ↦
        let (resp, replied, accepted, speaks) =
          handshake-Speaks a.reply a.live_protocol r.manifest shaken in
        record {
          wire = wire;
          bound = bound;
          resp = resp;
          replied = replied;
          accepted = accepted;
          speaks = speaks;
          tested = rw (bound, shaken, first_failure) at h;
        }
  ]
]

pub first_failure_complete : (a : Attempt) (r : Record) → Checked a r → first_failure a r ≡ none
unfolding first_failure handshake
first_failure_complete a r c = ground (
  arith,
  c.bound,
  c.replied,
  c.accepted,
  c.speaks,
  c.tested,
  eq_iff c.resp.status "ok",
  eq_iff (protocol_of r.manifest) (protocol_of r.manifest),
)
