-- ===== src/Broker/Isolation.antt =====
-- internal/broker: the jobs that run in the states that the broker's handlers can reach.
use suctl.Prelude.{
  ℕ, String, ◌≡◌, ◌≢◌, refl, sym, ap, ◌∙◌, subst, false, List, [], ◌∷◌, some, none, inl, inr, arith,
  eq_iff, lookup, lookup-insert, In,
}
use suctl.Protocol.{Request, Response}
use suctl.Messages.{Record, Store, done, start, started_at, by_token, open_exchange, complete}
use suctl.Messages.Jobs.{Job, job, job_of, queued, running}
use suctl.Messages.Invariant.{Inv, start-Inv}
use suctl.Messages.Promotion.{by_token-start}
use suctl.Messages.Derived.{in-queued}
use suctl.Messages.Filled.{Headed}
use suctl.Messages.Calm.{Sound, Calm, complete-Calm, Admitted, open_exchange-Calm}
use suctl.Broker.Queue.{start_all, plan_promotions, advance}
use suctl.Broker.Plan.{plan_exclusive, Sub-in}
use suctl.Broker.Exclusive.{IsExclusive, running-Apart, in-map_token, advance-IsExclusive}

Calm-IsExclusive :
    (fp : String → List String) (s after : Store)
    → Calm s after
    → IsExclusive fp s
    → IsExclusive fp after
Calm-IsExclusive fp s after calm ex t u j k ne rt ru =
    let (i, it, irun, imod) = calm t j rt.is_job rt.is_running in
    let (l, lt, lrun, lmod) = calm u k ru.is_job ru.is_running in
    rw (imod, lmod)
      (ex t u i l ne (record { named = rt.named; is_job = it; is_running = irun })
        (record { named = ru.named; is_job = lt; is_running = lrun }))

by_token-start_all :
    (ts : List String) (now : ℕ) (t : String) (s : Store)
    → by_token t (start_all ts now s) ≡ by_token t s
unfolding start_all
by_token-start_all [] now t s = refl
by_token-start_all (x ∷ ts) now t s =
    by_token-start_all ts now t (start x now s) ∙ by_token-start x t now s

start_all-Inv : (ts : List String) (now : ℕ) (s : Store) → Inv s → Inv (start_all ts now s)
unfolding start_all
start_all-Inv [] now s v = v
start_all-Inv (x ∷ ts) now s v = start_all-Inv ts now (start x now s) (start-Inv x now s v)

started_at-start :
    (x : String) (now : ℕ) (t : String) (s : Store)
    → x ≢ t
    → started_at t s ≡ none
    → started_at t (start x now s) ≡ none
unfolding start
started_at-start x now t s ne e = ground (arith, e, ne, eq_iff x t, lookup-insert x t now s.started)

-- Only the tokens of the list get a stamp.
started_at-start_all :
    (ts : List String) (now : ℕ) (t : String) (s : Store)
    → (In t ts → ⊥)
    → started_at t s ≡ none
    → started_at t (start_all ts now s) ≡ none
unfolding start_all
started_at-start_all [] now t s out e = e
started_at-start_all (x ∷ ts) now t s out e =
    started_at-start_all ts now t (start x now s) (λ l. out (inr l))
      (started_at-start x now t s (λ same. out (inl (sym same))) e)

-- What the broker's messages keep to, whatever the handlers do.
pub record Isolated (fp : String → List String) (s : Store) : Type 0 where
  pub sound : Sound s
  pub exclusive : IsExclusive fp s

no_job : (t : String) (s : Store) (j : Job) → job t s ≡ some j → by_token t s ≡ [] → ⊥
unfolding job job_of
no_job t s j e nothing = cc (ap (λ rs. job_of t rs (started_at t s)) (sym nothing) ∙ e)

pub advance-Isolated :
    (fp : String → List String) (now : ℕ) (s : Store)
    → Isolated fp s
    → Isolated fp (advance fp now s)
unfolding advance
advance-Isolated fp now s v = record {
  sound = record {
    inv = start_all-Inv ts now s v.sound.inv;
    headed = λ t. subst Headed (sym (by_token-start_all ts now t s)) (v.sound.headed t);
    stamped = λ t nothing.
        let before : by_token t s ≡ [] = sym (by_token-start_all ts now t s) ∙ nothing in
        started_at-start_all ts now t s (unqueued t before) (v.sound.stamped t before);
  };
  exclusive = advance-IsExclusive fp now s v.exclusive;
}
  where
    ts : List String
    ts = plan_promotions (queued s) (running s) fp

    unqueued : (t : String) → by_token t s ≡ [] → In t ts → ⊥
    unqueued t nothing listed =
        let (js, plan, from, apart) =
          plan_exclusive fp (queued s) (running s) (running-Apart fp s v.exclusive) in
        let (x, lx, tx) = in-map_token t js (rw plan at listed) in
        no_job x.token s x (in-queued x s (Sub-in from x lx)).0
          (ap (λ a. by_token a s) tx ∙ nothing)

pub open_exchange-Isolated :
    (fp : String → List String) (req : Request) (m c w : String) (now : ℕ) (s : Store)
    → Isolated fp s
    → Admitted req s
    → Isolated fp (open_exchange req m c w now s)
open_exchange-Isolated fp req m c w now s v a =
    let (sound, calm) = open_exchange-Calm req m c w now s v.sound a in
    record { sound = sound; exclusive = Calm-IsExclusive fp s _ calm v.exclusive }

pub complete-Isolated :
    (fp : String → List String) (id : String) (resp : Response) (now : ℕ) (s : Store) (r : Record)
    → Isolated fp s
    → lookup id s.records ≡ some r
    → done r ≡ false
    → Isolated fp (complete id resp now s).0
complete-Isolated fp id resp now s r v e waits =
    let (sound, calm) = complete-Calm id resp now s r v.sound e waits in
    record { sound = sound; exclusive = Calm-IsExclusive fp s _ calm v.exclusive }
