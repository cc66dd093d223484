-- ===== src/Messages/Calm.antt =====
-- internal/messages: operations of the store that start no job.
use suctl.Prelude.{
  ℕ, ◌*◌, ◌<◌, suc, String, ◌≡◌, ◌≢◌, refl, sym, ap, ◌∙◌, subst, Bool, true, false, ◌==◌, List, [],
  ◌∷◌, ◌++◌, some, none, ◌⊎◌, inl, inr, arith, eq_iff, Dict, lookup, insert, lookup-insert,
  contains, is_some, length, length-append, Bool-cases, if◌then◌else◌,
}
use mathlib.Core.List.{append-nil}
use suctl.Protocol.{Request, Response}
use suctl.Messages.{
  Record, Store, done, empty, max_records, opened, by_token, with_token, started_at, open_record,
  open_exchange, complete, trim_at,
}
use suctl.Messages.Jobs.{Job, job, job_of}
use suctl.Messages.Invariant.{Inv, empty-Inv, open_exchange-Inv, complete-Inv, started-complete}
use suctl.Messages.Filled.{
  AllFilled, Headed, Ran, with_token-AllFilled, with_token-absent, with_token-append,
  AllFilled-Headed, AllFilled-Ran,
}
use suctl.Messages.Opened.{Honest, append-Ran}

-- A store that has not been trimmed: the records of each token begin with an invoke, and only a token
-- with records has a stamp.
pub record Sound (s : Store) : Type 0 where
  pub inv : Inv s
  pub headed : (t : String) → Headed (by_token t s)
  pub stamped : (t : String) → by_token t s ≡ [] → started_at t s ≡ none

pub empty-Sound : Sound empty
empty-Sound = record {
  inv = empty-Inv;
  headed = λ t. unfold with_token in tt;
  stamped = λ t e. unfold lookup in refl;
}

-- Every job that runs afterwards ran before, for the same module.
abbrev pub Calm : Store → Store → Type 0
Calm before after =
    (t : String) (j : Job)
    → job t after ≡ some j
    → j.state ≡ "running"
    → (i : Job) × (job t before ≡ some i) × (i.state ≡ "running") × (j.module_name ≡ i.module_name)

by_token-complete :
    (id : String) (resp : Response) (now : ℕ) (s : Store) (r : Record) (t : String)
    → lookup id s.records ≡ some r
    → done r ≡ false
    → AllFilled (by_token t s) (by_token t (complete id resp now s).0)
unfolding complete
by_token-complete id resp now s r t e waits =
    rw (e, complete)
      (with_token-AllFilled t id s.records r (record r { response = resp; resp_received = now })
        s.order e (refl, refl, inr waits))

AllFilled-nil : (rs : List Record) → AllFilled rs [] → rs ≡ []
AllFilled-nil [] f = refl
AllFilled-nil (r ∷ rs) f = absurd f

-- The response to an open exchange starts no job.
pub complete-Calm :
    (id : String) (resp : Response) (now : ℕ) (s : Store) (r : Record)
    → Sound s
    → lookup id s.records ≡ some r
    → done r ≡ false
    → Sound (complete id resp now s).0 × Calm s (complete id resp now s).0
unfolding job
complete-Calm id resp now s r v e waits = (
  record {
    inv = complete-Inv id resp now s v.inv;
    headed = λ t. AllFilled-Headed _ _ (filled t) (v.headed t);
    stamped = λ t none_now.
        rw started-complete
          (v.stamped t (AllFilled-nil _ (subst (AllFilled (by_token t s)) none_now (filled t))));
  },
  λ t j is run.
      AllFilled-Ran t (by_token t s) _ (started_at t s) j (filled t) (v.headed t)
        (rw started-complete at is) run,
)
  where
    filled : (t : String) → AllFilled (by_token t s) (by_token t (complete id resp now s).0)
    filled t = by_token-complete id resp now s r t e waits

-- The exchange is new, and the store has room for it without trimming.
pub record Fresh (req : Request) (s : Store) : Type 0 where
  pub unknown : lookup req.id s.records ≡ none
  pub room : suc (length s.order) < max_records * 2

pub open_exchange-untrimmed :
    (req : Request) (m c w : String) (now : ℕ) (s : Store)
    → Fresh req s
    → open_exchange req m c w now s ≡ record s {
      records = insert req.id (opened req m c w now) s.records;
      order = s.order ++ req.id ∷ [];
    }
unfolding open_exchange open_record trim_at
open_exchange-untrimmed req m c w now s f =
    ground (arith, f.unknown, f.room, length-append s.order (req.id ∷ []))

-- The records of a token after another exchange is opened.
abbrev pub added : String → Record → List Record → List Record
added t u rs = if u.request.job_token == t then rs ++ u ∷ [] else rs

with_token-one :
    (t id : String) (m : Dict Record) (u : Record)
    → with_token t (insert id u m) (id ∷ []) ≡ (if u.request.job_token == t then u ∷ [] else [])
unfolding with_token
with_token-one t id m u = ground (arith, lookup-insert id id u m, eq_iff id id)

pub by_token-open :
    (req : Request) (m c w : String) (now : ℕ) (s : Store) (t : String)
    → Inv s
    → Fresh req s
    → by_token t (open_exchange req m c w now s) ≡ added t (opened req m c w now) (by_token t s)
unfolding with_token
by_token-open req m c w now s t v f =
    let u = opened req m c w now in
    let ms = insert req.id u s.records in
    let unlisted : contains s.order req.id ≡ false = v.listed req.id ∙ ap is_some f.unknown in
    ap (by_token t) (open_exchange-untrimmed req m c w now s f)
    ∙ with_token-append t ms s.order (req.id ∷ [])
    ∙ ap (λ xs. xs ++ with_token t ms (req.id ∷ []))
        (with_token-absent t req.id s.records u s.order unlisted)
    ∙ ap (λ xs. by_token t s ++ xs) (with_token-one t req.id s.records u)
    ∙ added_if (req.job_token == t) (by_token t s) u
  where
    added_if :
        (b : Bool) (rs : List Record) (u : Record)
        → rs ++ (if b then u ∷ [] else []) ≡ (if b then rs ++ u ∷ [] else rs)
    added_if true rs u = refl
    added_if false rs u = append-nil rs

append-Headed :
    (rs : List Record) (u : Record)
    → Headed rs
    → (rs ≡ [] → u.request.cmd ≡ "invoke")
    → Headed (rs ++ u ∷ [])
append-Headed [] u h first = first refl
append-Headed (r ∷ rs) u h first = h

append_one-ne : (rs : List Record) (u : Record) → rs ++ u ∷ [] ≢ []
append_one-ne [] u e = cc e
append_one-ne (r ∷ rs) u e = cc e

-- The exchange is an invoke, or a report for a known job that takes back no terminal state.
pub record Admitted (req : Request) (s : Store) : Type 0 where
  pub fresh : Fresh req s
  pub first : by_token req.job_token s ≡ [] → req.cmd ≡ "invoke"
  pub honest : (i : Job) → job req.job_token s ≡ some i → Honest req i

-- The opening of an exchange starts no job.
pub open_exchange-Calm :
    (req : Request) (m c w : String) (now : ℕ) (s : Store)
    → Sound s
    → Admitted req s
    → Sound (open_exchange req m c w now s) × Calm s (open_exchange req m c w now s)
unfolding job
open_exchange-Calm req m c w now s v a = (
  record {
    inv = open_exchange-Inv req m c w now s v.inv;
    headed = λ t. subst Headed (sym (records t)) (heads t (Bool-cases (req.job_token == t)));
    stamped = λ t none_now.
        stamps t
        ∙ v.stamped t (was_empty t (Bool-cases (req.job_token == t)) (sym (records t) ∙ none_now));
  },
  λ t j is run. runs t j (Bool-cases (req.job_token == t)) is run,
)
  where
    u : Record
    u = opened req m c w now

    records : (t : String) → by_token t (open_exchange req m c w now s) ≡ added t u (by_token t s)
    records t = by_token-open req m c w now s t v.inv a.fresh

    stamps : (t : String) → started_at t (open_exchange req m c w now s) ≡ started_at t s
    stamps t = ap (started_at t) (open_exchange-untrimmed req m c w now s a.fresh)

    heads :
        (t : String)
        → ((req.job_token == t) ≡ true) ⊎ ((req.job_token == t) ≡ false)
        → Headed (added t u (by_token t s))
    heads t (inl own) = rw own (
        append-Headed (by_token t s) u (v.headed t)
          (λ e. a.first (subst (λ x. by_token x s ≡ []) (sym ((eq_iff req.job_token t).0 own)) e)))
    heads t (inr other) = rw other (v.headed t)

    was_empty :
        (t : String)
        → ((req.job_token == t) ≡ true) ⊎ ((req.job_token == t) ≡ false)
        → added t u (by_token t s) ≡ []
        → by_token t s ≡ []
    was_empty t (inl own) e = absurd (append_one-ne (by_token t s) u (rw own at e))
    was_empty t (inr other) e = rw other at e

    added_own :
        (t : String)
        → (req.job_token == t) ≡ true
        → added t u (by_token t s) ≡ by_token t s ++ u ∷ []
    added_own t own = rw own refl

    added_other :
        (t : String) → (req.job_token == t) ≡ false → added t u (by_token t s) ≡ by_token t s
    added_other t other = rw other refl

    job_then :
        (t : String) (rs : List Record)
        → by_token t (open_exchange req m c w now s) ≡ rs
        → job_of t
            (by_token t (open_exchange req m c w now s))
            (started_at t (open_exchange req m c w now s))
          ≡ job_of t rs (started_at t s)
    job_then t rs e =
        ap (λ xs. job_of t xs (started_at t (open_exchange req m c w now s))) e
        ∙ ap (job_of t rs) (stamps t)

    runs :
        (t : String) (j : Job)
        → ((req.job_token == t) ≡ true) ⊎ ((req.job_token == t) ≡ false)
        → job_of t
            (by_token t (open_exchange req m c w now s))
            (started_at t (open_exchange req m c w now s))
          ≡ some j
        → j.state ≡ "running"
        → Ran t (by_token t s) (started_at t s) j
    runs t j (inl own) is run =
        append-Ran t (by_token t s) u (started_at t s) j (v.headed t) (v.stamped t)
          (λ i.
            subst (λ x. job x s ≡ some i → Honest req i) ((eq_iff req.job_token t).0 own)
              (a.honest i))
          (sym (job_then t (by_token t s ++ u ∷ []) (records t ∙ added_own t own)) ∙ is) run
    runs t j (inr other) is run =
        (j, sym (job_then t (by_token t s) (records t ∙ added_other t other)) ∙ is, run, refl)
