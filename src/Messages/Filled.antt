-- ===== src/Messages/Filled.antt =====
-- internal/messages/store.go and jobs.go: the records of a token when an exchange is opened or
-- completed, and the job that they give.
use suctl.Prelude.{
  ℕ, String, ◌≡◌, refl, sym, ap, ◌∙◌, subst, Bool, true, false, ◌==◌, List, [], ◌∷◌, ◌++◌, Option,
  some, none, ◌⊎◌, inl, inr, arith, eq_iff, Dict, lookup, insert, lookup-insert, contains,
  Bool-cases, Option-cases,
}
use suctl.Messages.{Record, done, with_token}
use suctl.Messages.Jobs.{Job, is_terminal, originating, queued_or_running, job_of}
use suctl.Messages.Lifecycle.{reported, last_or, verdict, pick, Derived-unique, job_of-Derived}

-- The same exchange, whose response may have come in.
abbrev pub Filled : Record → Record → Type 0
Filled r q =
    (q.request ≡ r.request) × (q.module_name ≡ r.module_name) × ((q ≡ r) ⊎ (done r ≡ false))

abbrev pub AllFilled : List Record → List Record → Type 0
AllFilled [] [] = Unit
AllFilled [] (q ∷ qs) = ⊥
AllFilled (r ∷ rs) [] = ⊥
AllFilled (r ∷ rs) (q ∷ qs) = Filled r q × AllFilled rs qs

Filled-refl : (r : Record) → Filled r r
Filled-refl r = (refl, refl, inl refl)

-- What an id has after the exchange of another, or of itself, is filled.
lookup-Filled :
    (id x : String) (m : Dict Record) (r q k : Record)
    → lookup id m ≡ some r
    → Filled r q
    → lookup x m ≡ some k
    → (n : Record) × (lookup x (insert id q m) ≡ some n) × Filled k n
lookup-Filled id x m r q k e f here = elim (Bool-cases (id == x)) [
  | inl own ↦
      let same : r ≡ k = cc (e, ap (λ i. lookup i m) ((eq_iff id x).0 own), here) in
      (q, rw (lookup-insert id x q m, own) refl, subst (λ a. Filled a q) same f)
  | inr other ↦ (k, rw (lookup-insert id x q m, other) here, Filled-refl k)
]

lookup-unfilled :
    (id x : String) (m : Dict Record) (r q : Record)
    → lookup id m ≡ some r
    → lookup x m ≡ none
    → lookup x (insert id q m) ≡ none
lookup-unfilled id x m r q e absent = ground (arith, lookup-insert id x q m, eq_iff id x, e, absent)

pub with_token-AllFilled :
    (t id : String) (m : Dict Record) (r q : Record) (ids : List String)
    → lookup id m ≡ some r
    → Filled r q
    → AllFilled (with_token t m ids) (with_token t (insert id q m) ids)
unfolding with_token
with_token-AllFilled t id m r q [] e f = tt
with_token-AllFilled t id m r q (x ∷ ids) e f = elim (Option-cases (lookup x m)) [
  | inl absent ↦
      rw (absent, lookup-unfilled id x m r q e absent, with_token)
        (with_token-AllFilled t id m r q ids e f)
  | inr (k, here) ↦
      let (n, there, fills) = lookup-Filled id x m r q k e f here in
      rw (here, there, with_token, fills.0)
        (elim (Bool-cases (k.request.job_token == t)) [
          | inl met ↦ rw met (fills, with_token-AllFilled t id m r q ids e f)
          | inr unmet ↦ rw unmet (with_token-AllFilled t id m r q ids e f)
        ])
]

-- An id that is not listed does not count.
pub with_token-absent :
    (t id : String) (m : Dict Record) (q : Record) (ids : List String)
    → contains ids id ≡ false
    → with_token t (insert id q m) ids ≡ with_token t m ids
unfolding with_token
with_token-absent t id m q [] h = refl
with_token-absent t id m q (x ∷ ids) h =
    ground
      (arith, h, lookup-insert id x q m, eq_iff id x, eq_iff x id, with_token-absent t id m q ids)

pub with_token-append :
    (t : String) (m : Dict Record) (ids others : List String)
    → with_token t m (ids ++ others) ≡ with_token t m ids ++ with_token t m others
unfolding with_token
with_token-append t m [] others = refl
with_token-append t m (x ∷ ids) others = ground (arith, with_token-append t m ids others)

AllFilled-reported : (rs qs : List Record) → AllFilled rs qs → reported qs ≡ reported rs
unfolding reported
AllFilled-reported [] [] f = refl
AllFilled-reported [] (q ∷ qs) f = absurd f
AllFilled-reported (r ∷ rs) [] f = absurd f
AllFilled-reported (r ∷ rs) (q ∷ qs) (f, fs) = rw (f.0, AllFilled-reported rs qs fs) refl

pick_running :
    (a b c : Bool) (last : String) (stamp : Option ℕ)
    → (a ≡ true → is_terminal last ≡ true)
    → pick a b c last stamp ≡ "running"
    → (a ≡ false) × (queued_or_running stamp ≡ "running")
unfolding pick
pick_running true b c last stamp h e =
    let no : is_terminal "running" ≡ true = subst (λ st. is_terminal st ≡ true) e (h refl) in cc
pick_running false true c last stamp h e =
    let no : ("failed" == "running") ≡ true = (eq_iff "failed" "running").1 e in cc
pick_running false false true last stamp h e =
    let no : ("done" == "running") ≡ true = (eq_iff "done" "running").1 e in cc
pick_running false false false last stamp h e = (refl, e)

-- A running job has no terminal report, and was promoted.
pub verdict_running :
    (last : String) (orig : Record) (stamp : Option ℕ)
    → verdict last orig stamp ≡ "running"
    → (is_terminal last ≡ false) × (queued_or_running stamp ≡ "running")
unfolding pick
verdict_running last orig stamp e = pick_running (is_terminal last) _ _ last stamp (λ h. h) e

verdict-Filled :
    (last : String) (r q : Record) (stamp : Option ℕ)
    → Filled r q
    → verdict last q stamp ≡ "running"
    → verdict last r stamp ≡ "running"
verdict-Filled last r q stamp (req, name, inl same) e = rw (← same) e
verdict-Filled last r q stamp (req, name, inr open_yet) e =
    let (goes_on, promoted) = verdict_running last q stamp e in rw (goes_on, open_yet) promoted

-- The records of a token begin with an invoke.
abbrev pub Headed : List Record → Type 0
Headed [] = Unit
Headed (r ∷ rs) = r.request.cmd ≡ "invoke"

-- A job that runs by the new records ran by the old ones, for the same module.
abbrev pub Ran : String → List Record → Option ℕ → Job → Type 0
Ran t rs stamp j =
    (i : Job) × (job_of t rs stamp ≡ some i)
    × (i.state ≡ "running")
    × (j.module_name ≡ i.module_name)

pub head_originating :
    (r : Record) (rs : List Record) → r.request.cmd ≡ "invoke" → originating r (r ∷ rs) ≡ r
unfolding originating
head_originating r rs h = rw h refl

pub AllFilled-Headed : (rs qs : List Record) → AllFilled rs qs → Headed rs → Headed qs
AllFilled-Headed [] [] f h = tt
AllFilled-Headed [] (q ∷ qs) f h = absurd f
AllFilled-Headed (r ∷ rs) [] f h = absurd f
AllFilled-Headed (r ∷ rs) (q ∷ qs) (f, fs) h = ap (λ a. a.cmd) f.0 ∙ h

-- A response that comes in starts no job.
pub AllFilled-Ran :
    (t : String) (rs qs : List Record) (stamp : Option ℕ) (j : Job)
    → AllFilled rs qs
    → Headed rs
    → job_of t qs stamp ≡ some j
    → j.state ≡ "running"
    → Ran t rs stamp j
AllFilled-Ran t [] [] stamp j f h e run = unfold job_of in cc e
AllFilled-Ran t [] (q ∷ qs) stamp j f h e run = absurd f
AllFilled-Ran t (r ∷ rs) [] stamp j f h e run = absurd f
AllFilled-Ran t (r ∷ rs) (q ∷ qs) stamp j (f, fs) h e run =
    let now = Derived-unique t q qs stamp j e in
    let (i, is, before) = job_of-Derived t r rs stamp in
    let head = head_originating r rs h in
    let new_head = head_originating q qs (ap (λ a. a.cmd) f.0 ∙ h) in
    let last = last_or "" (reported (r ∷ rs)) in
    let runs : verdict last q stamp ≡ "running" =
      ap (λ a. verdict (last_or "" a) q stamp) (sym (AllFilled-reported (r ∷ rs) (q ∷ qs) (f, fs)))
      ∙ ap (λ o. verdict (last_or "" (reported (q ∷ qs))) o stamp) (sym new_head)
      ∙ sym now.state_of
      ∙ run in
    (
      i,
      is,
      before.state_of ∙ ap (λ o. verdict last o stamp) head ∙ verdict-Filled last r q stamp f runs,
      now.module_of
          ∙ ap (λ o. o.module_name) new_head
          ∙ f.1
          ∙ sym (before.module_of ∙ ap (λ o. o.module_name) head),
    )
