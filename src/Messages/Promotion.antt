-- ===== src/Messages/Promotion.antt =====
-- internal/messages/store.go, Store.Start: what it does to the jobs.
use suctl.Prelude.{
  ℕ, String, ◌≡◌, ◌≢◌, refl, sym, ap, ◌∙◌, Bool, true, false, ◌==◌, List, [], ◌∷◌, Option, some,
  none, arith, eq_iff, lookup, lookup-insert, if◌then◌else◌, is_some, Option-cases, inl, inr,
  Bool-cases,
}
use suctl.Messages.{Record, Store, start, by_token, started_at}
use suctl.Messages.Jobs.{Job, is_terminal, originating, job_of, job}
use suctl.Messages.Lifecycle.{
  verdict, last_or, reported, job_of-Derived, Derived-unique, pick, Promoted, job_cases,
}

-- The state of a queued job once it is promoted; any other state stays.
abbrev pub promoted : String → String
promoted state = if state == "queued" then "running" else state

terminal-ne-queued : (state : String) → is_terminal state ≡ true → (state == "queued") ≡ false
terminal-ne-queued state h = elim (Bool-cases (state == "done")) [
  | inl e ↦ rw ((eq_iff state "done").0 e)
  | inr n ↦ rw ((eq_iff state "failed").0 (rw n at h))
]

pick-promoted :
    (reports fails finishes : Bool) (last : String) (now : ℕ)
    → (reports ≡ true → is_terminal last ≡ true)
    → pick reports fails finishes last (some now) ≡ promoted (pick reports fails finishes last none)
unfolding pick
pick-promoted true b c last now h = rw (terminal-ne-queued last (h refl))
pick-promoted false true c last now h = refl
pick-promoted false false true last now h = refl
pick-promoted false false false last now h = refl

verdict-promoted :
    (last : String) (orig : Record) (now : ℕ)
    → verdict last orig (some now) ≡ promoted (verdict last orig none)
unfolding pick
verdict-promoted last orig now = pick-promoted (is_terminal last) _ _ last now (λ h. h)

-- One job after promotion, beside the job before.
pub record Promotes (i j : Job) : Type 0 where
  pub same_token : j.token ≡ i.token
  pub same_module : j.module_name ≡ i.module_name
  pub new_state : j.state ≡ promoted i.state

job_of-Promotes :
    (token : String) (rs : List Record) (now : ℕ) (i : Job)
    → job_of token rs none ≡ some i
    → (j : Job) × (job_of token rs (some now) ≡ some j) × Promotes i j
job_of-Promotes token [] now i e = unfold job_of in absurd (cc e)
job_of-Promotes token (r ∷ rs) now i e =
    let (j, is, d) = job_of-Derived token r rs (some now) in
    let old = Derived-unique token r rs none i e in
    (
      j,
      is,
      record {
        same_token = d.token_of ∙ sym old.token_of;
        same_module = d.module_of ∙ sym old.module_of;
        new_state =
            d.state_of
            ∙ verdict-promoted (last_or "" (reported (r ∷ rs))) (originating r (r ∷ rs)) now
            ∙ ap promoted (sym old.state_of);
      },
    )

job-start_ne :
    (token t : String) (now : ℕ) (s : Store) → token ≢ t → job t (start token now s) ≡ job t s
unfolding job start
job-start_ne token t now s ne = elim (Option-cases (lookup token s.started)) [
  | inl e ↦ rw (e, start) (rw (lookup-insert, ne_test) refl)
  | inr (n, e) ↦ rw (e, start)
]
  where
    ne_test : (token == t) ≡ false
    ne_test = ground (arith, ne, eq_iff token t)

start_stamped :
    (token : String) (n now : ℕ) (s : Store)
    → lookup token s.started ≡ some n
    → start token now s ≡ s
unfolding start
start_stamped token n now s e = rw (e, start)

job-start_self :
    (token t : String) (now : ℕ) (s : Store) (i : Job)
    → token ≡ t
    → started_at token s ≡ none
    → job t s ≡ some i
    → (j : Job) × (job t (start token now s) ≡ some j)
      × (j.module_name ≡ i.module_name)
      × (j.state ≡ promoted i.state)
unfolding job start
job-start_self token t now s i same fresh e =
    let before : job_of token (by_token token s) none ≡ some i = rw fresh at (rw (← same) at e) in
    let (j, is, p) = job_of-Promotes token (by_token token s) now i before in
    (
      j,
      rw (← same) (rw (fresh, start) (rw (lookup-insert, (eq_iff token token).1 refl) is)),
      p.same_module,
      p.new_state,
    )

-- Promoting a token once turns its queued job into a running one and leaves the state of every other
-- job, and the state of a job that is not queued.
job-start :
    (token t : String) (now : ℕ) (s : Store) (i : Job)
    → started_at token s ≡ none
    → job t s ≡ some i
    → (j : Job) × (job t (start token now s) ≡ some j)
      × (j.module_name ≡ i.module_name)
      × (j.state ≡ (if token == t then promoted i.state else i.state))
job-start token t now s i fresh e = elim (Bool-cases (token == t)) [
  | inl hit ↦ rw hit (job-start_self token t now s i ((eq_iff token t).0 hit) fresh e)
  | inr miss ↦
      rw miss (i, job-start_ne token t now s (λ p. cc ((eq_iff token t).1 p)) ∙ e, refl, refl)
]

-- A stamped job is not queued, so a promotion leaves its state.
promoted_stamped :
    (token t : String) (s : Store) (i : Job) (n : ℕ)
    → lookup token s.started ≡ some n
    → job t s ≡ some i
    → (if token == t then promoted i.state else i.state) ≡ i.state
promoted_stamped token t s i n f e = elim (Bool-cases (token == t)) [
  | inr miss ↦ rw miss
  | inl hit ↦ rw hit (not_queued ((eq_iff token t).0 hit) (job_cases t s i e).1)
]
  where
    not_queued : token ≡ t → Promoted (started_at t s) i.state → promoted i.state ≡ i.state
    not_queued same (inl ends) = rw (terminal-ne-queued i.state ends)
    not_queued same (inr (inl (q, unstamped))) =
        let stamped : is_some (lookup t s.started) ≡ true = rw (← same) (rw f) in cc
    not_queued same (inr (inr (r, stamped))) = rw r

-- Promoting a token, however often, makes its queued job running, and leaves the module of every
-- job and the state of every other.
pub job-start_any :
    (token t : String) (now : ℕ) (s : Store) (i : Job)
    → job t s ≡ some i
    → (j : Job) × (job t (start token now s) ≡ some j)
      × (j.module_name ≡ i.module_name)
      × (j.state ≡ (if token == t then promoted i.state else i.state))
job-start_any token t now s i e = elim (Option-cases (lookup token s.started)) [
  | inl fresh ↦ job-start token t now s i fresh e
  | inr (n, f) ↦
      (i, rw (start_stamped token n now s f) e, refl, sym (promoted_stamped token t s i n f e))
]

job_of-none :
    (t : String) (rs : List Record) (a b : Option ℕ) → job_of t rs a ≡ none → job_of t rs b ≡ none
unfolding job_of
job_of-none t [] a b e = refl
job_of-none t (r ∷ rs) a b e = cc

pub by_token-start :
    (token t : String) (now : ℕ) (s : Store) → by_token t (start token now s) ≡ by_token t s
unfolding start
by_token-start token t now s = ground arith

pub job-start-none :
    (token t : String) (now : ℕ) (s : Store) → job t s ≡ none → job t (start token now s) ≡ none
unfolding job
job-start-none token t now s e = rw by_token-start (job_of-none t (by_token t s) _ _ e)
