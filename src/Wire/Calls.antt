-- ===== src/Wire/Calls.antt =====
-- internal/wire: the calls of one wire, as sequences of steps under its mutex.
use suctl.Prelude.{
  ◌==◌, ℕ, String, ◌≡◌, refl, [], ◌∷◌, ◌++◌, none, some, inl, inr, arith, eq_iff, In,
  in-append_left, in-append_right, Dict, lookup, lookup-delete, if◌then◌else◌, Bool-cases,
}
use suctl.Protocol.{Request, Response}
use suctl.Wire.{Mux, refused, begin_round_trip, deliver, released, fail, result, error}

-- A response on whose id a call waits goes to that call and to no other; that call waits no more,
-- every other one does as before, and a second response with the id is dropped.
pub deliver_once :
    (resp again : Response) (m : Mux) (call : ℕ)
    → lookup resp.id m.pending ≡ some call
    → again.id ≡ resp.id
    → ((deliver resp m).received ≡ m.received ++ (call, some resp) ∷ [])
      × ((id : String)
          → lookup id (deliver resp m).pending
            ≡ (if resp.id == id then none else lookup id m.pending))
      × (deliver again (deliver resp m) ≡ deliver resp m)
deliver_once resp again m call waits same = (
  (unfold deliver in rw (waits, deliver) refl),
  (λ id. unfold deliver in rw (waits, deliver) (lookup-delete resp.id id m.pending)),
  dropped again (deliver resp m) (
      unfold deliver in
      rw (waits, deliver) (rw same (rw lookup-delete (rw ((eq_iff resp.id resp.id).1 refl) refl)))),
)
  where
    dropped : (r : Response) (n : Mux) → lookup r.id n.pending ≡ none → deliver r n ≡ n
    dropped r n e = unfold deliver in rw (e, deliver) refl

released-in :
    (id : String) (p : Dict ℕ) (call : ℕ) → lookup id p ≡ some call → In (call, none) (released p)
unfolding lookup
released-in id [] call e = cc
released-in id ((j, c) ∷ p) call e = elim (Bool-cases (j == id)) [
  | inl hit ↦ let same : c ≡ call = ground (arith, hit) in inl (rw same refl)
  | inr miss ↦ inr (released-in id p call (rw miss at e))
]

-- When an unbroken wire breaks, a call that waits gets the sentinel, which resolves to the first
-- error; that error stays, whatever fails later, and a call that starts afterwards is refused with
-- it.
pub fail_releases :
    (e later : String) (m : Mux) (id : String) (call : ℕ) (fresh stamp : String) (req : Request)
    → m.err ≡ none
    → lookup id m.pending ≡ some call
    → let broken = fail later (fail e m) in
      (broken.err ≡ some e)
      × In (call, none) broken.received
      × (begin_round_trip call fresh stamp req broken ≡ (broken, refused e))
      × (result none broken ≡ error e)
unfolding fail begin_round_trip result
fail_releases e later m id call fresh stamp req h waits = rw h (
  refl,
  in-append_left (call, none) (m.received ++ released m.pending) []
      (in-append_right (call, none) m.received (released m.pending)
        (released-in id m.pending call waits)),
  refl,
  refl,
)
