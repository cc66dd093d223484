-- ===== src/Broker/Exclusive.antt =====
-- internal/broker/queue.go, advance: the jobs that run side by side, and their footprints.
use suctl.Prelude.{
  true, lookup, ℕ, String, ◌≡◌, ◌≢◌, refl, sym, ap, ◌∙◌, false, ◌==◌, List, [], ◌∷◌, ◌++◌, map,
  some, none, ◌⊎◌, inl, inr, arith, eq_iff, contains, In, in-append_left, in-append_right,
  in_of_contains, contains_of_in, Distinct, Option-cases, Bool-cases, if◌then◌else◌,
}
use suctl.Messages.{Store, start, started_at}
use suctl.Messages.Jobs.{is_terminal, Job, job, job_tokens, select_jobs, running, queued}
use suctl.Messages.Lifecycle.{job_cases, Promoted}
use suctl.Messages.Promotion.{promoted, job-start_any, job-start-none}
use suctl.Messages.Tokens.{job_tokens-Distinct, job_tokens-named, in-select_jobs}
use suctl.Messages.Derived.{running-in, in-queued}
use suctl.Broker.Queue.{start_all, plan_promotions, advance}
use suctl.Broker.Plan.{Disjoint, Apart, Apart-ne, plan_exclusive, Sub, Sub-in}

pub record Runs (t : String) (j : Job) (s : Store) : Type 0 where
  pub named : (t == "") ≡ false
  pub is_job : job t s ≡ some j
  pub is_running : j.state ≡ "running"

-- Two running jobs have no module in common.
abbrev pub IsExclusive : (String → List String) → Store → Type 0
IsExclusive fp s =
    (t u : String) (j k : Job)
    → t ≢ u
    → Runs t j s
    → Runs u k s
    → Disjoint (fp j.module_name) (fp k.module_name)

promoted_twice : (state : String) → promoted (promoted state) ≡ promoted state
promoted_twice state = elim (Bool-cases (state == "queued")) [
  | inl q ↦ rw q refl
  | inr n ↦ rw (n, n)
]

-- Starting every token of a list runs their queued jobs, and leaves the others.
job-start_all :
    (ts : List String) (now : ℕ) (t : String) (s : Store) (i : Job)
    → job t s ≡ some i
    → (j : Job) × (job t (start_all ts now s) ≡ some j)
      × (j.module_name ≡ i.module_name)
      × (j.state ≡ (if contains ts t then promoted i.state else i.state))
unfolding start_all
job-start_all [] now t s i e = (i, e, refl, refl)
job-start_all (x ∷ ts) now t s i e =
    let (a, at, same, st) = job-start_any x t now s i e in
    let (b, bt, bsame, bst) = job-start_all ts now t (start x now s) a at in
    (b, bt, bsame ∙ same, bst ∙ rw st (ground (arith, promoted_twice i.state)))

job-start_all-none :
    (ts : List String) (now : ℕ) (t : String) (s : Store)
    → job t s ≡ none
    → job t (start_all ts now s) ≡ none
unfolding start_all
job-start_all-none [] now t s e = e
job-start_all-none (x ∷ ts) now t s e =
    job-start_all-none ts now t (start x now s) (job-start-none x t now s e)

-- A job that runs after the starts ran before, or was queued and is in the list.
Runs-start_all :
    (ts : List String) (now : ℕ) (t : String) (s : Store) (j : Job)
    → Runs t j (start_all ts now s)
    → (i : Job) × (job t s ≡ some i)
      × (j.module_name ≡ i.module_name)
      × ((i.state ≡ "running") ⊎ (i.state ≡ "queued") × In t ts)
Runs-start_all ts now t s j r = elim (Option-cases (job t s)) [
  | inl e ↦ absurd (cc (job-start_all-none ts now t s e, r.is_job))
  | inr (i, e) ↦
      let (k, kt, same, st) = job-start_all ts now t s i e in
      let jk : j ≡ k = cc (kt, r.is_job) in
      (i, e, rw jk same, source i k (rw jk at r.is_running) st)
]
  where
    source :
        (i k : Job)
        → k.state ≡ "running"
        → k.state ≡ (if contains ts t then promoted i.state else i.state)
        → (i.state ≡ "running") ⊎ (i.state ≡ "queued") × In t ts
    source i k run st = elim (Bool-cases (contains ts t)) [
      | inl listed ↦ elim (Bool-cases (i.state == "queued")) [
        | inl q ↦ inr ((eq_iff _ _).0 q, in_of_contains t ts listed)
        | inr n ↦ inl (ground (arith, listed, n))
      ]
      | inr not_listed ↦ inl (ground (arith, not_listed))
    ]

pub in-map_token :
    (t : String) (js : List Job)
    → In t (map (λ j. j.token) js)
    → (j : Job) × In j js × (j.token ≡ t)
in-map_token t [] h = absurd h
in-map_token t (j ∷ js) (inl e) = (j, inl refl, sym e)
in-map_token t (j ∷ js) (inr h) = let (k, l, e) = in-map_token t js h in (k, inr l, e)

module _ (fp : String → List String) (s : Store) (ex : IsExclusive fp s) where
  select-Apart :
      (ts : List String)
      → Distinct ts
      → ((t : String) → In t ts → (t == "") ≡ false)
      → Apart fp (select_jobs (λ j. j.state == "running") s ts)
  unfolding select_jobs
  select-Apart [] d named = tt
  select-Apart (t ∷ ts) d named = elim (Option-cases (job t s)) [
    | inl e ↦ rw (e, select_jobs) (select-Apart ts d.1 (λ u l. named u (inr l)))
    | inr (j, e) ↦ elim (Bool-cases (j.state == "running")) [
      | inl run ↦
          rw (e, select_jobs)
            (rw run (apart j e ((eq_iff _ _).0 run), select-Apart ts d.1 (λ u l. named u (inr l))))
      | inr idle ↦ rw (e, select_jobs) (rw idle (select-Apart ts d.1 (λ u l. named u (inr l))))
    ]
  ]
    where
      apart :
          (j : Job)
          → job t s ≡ some j
          → j.state ≡ "running"
          → (k : Job) → In k (select_jobs (λ j. j.state == "running") s ts)
          → Disjoint (fp j.module_name) (fp k.module_name)
      apart j e run k h =
          let (u, l, is, st) = in-select_jobs (λ j. j.state == "running") s ts k h in
          ex t u j k (λ same. cc (d.0, contains_of_in u ts l, same))
            (record { named = named t (inl refl); is_job = e; is_running = run })
            (record { named = named u (inr l); is_job = is; is_running = (eq_iff _ _).0 st })

  pub running-Apart : Apart fp (running s)
  unfolding running
  running-Apart =
      select-Apart (job_tokens s) (job_tokens-Distinct s) (λ t l. job_tokens-named t s l)

-- If no module lies in the footprints of two jobs that run, none does after the queue manager has
-- promoted what its plan admits.
pub advance-IsExclusive :
    (fp : String → List String) (now : ℕ) (s : Store)
    → IsExclusive fp s
    → IsExclusive fp (advance fp now s)
unfolding advance
advance-IsExclusive fp now s ex t u j k ne rt ru =
    let (js, plan, from, apart) =
      plan_exclusive fp (queued s) (running s) (running-Apart fp s ex) in
    let (i, it, isame, icase) = Runs-start_all ts now t s j rt in
    let (l, lu, lsame, lcase) = Runs-start_all ts now u s k ru in
    rw (isame, lsame)
      (Apart-ne fp (js ++ running s) i l apart (listed js plan from t i rt.named it icase)
        (listed js plan from u l ru.named lu lcase)
        (λ same. ne (sym (job_cases t s i it).0 ∙ same ∙ (job_cases u s l lu).0)))
  where
    ts : List String
    ts = plan_promotions (queued s) (running s) fp

    listed :
        (js : List Job)
        → ts ≡ map (λ j. j.token) js
        → Sub js (queued s)
        → (t : String) (i : Job) → (t == "") ≡ false
        → job t s ≡ some i
        → (i.state ≡ "running") ⊎ (i.state ≡ "queued") × In t ts
        → In i (js ++ running s)
    listed js plan from t i named it (inl run) =
        in-append_right i js (running s) (running-in t i s named it run)
    listed js plan from t i named it (inr (q, l)) =
        let (x, lx, tx) = in-map_token t js (rw plan at l) in
        let same : x ≡ i = cc ((in-queued x s (Sub-in from x lx)).0, it, ap (λ v. job v s) tx) in
        in-append_left i js (running s) (rw same at lx)

-- Nothing runs in a store that has promoted nothing.
pub unstarted-IsExclusive :
    (fp : String → List String) (s : Store) → s.started ≡ [] → IsExclusive fp s
unfolding lookup
unstarted-IsExclusive fp s fresh t u j k ne rt ru =
    absurd (idle (job_cases t s j rt.is_job).1 rt.is_running)
  where
    idle : Promoted (started_at t s) j.state → j.state ≡ "running" → ⊥
    idle (inl ends) run = let stays : is_terminal "running" ≡ true = rw run at ends in cc
    idle (inr (inl (q, _))) run =
        let same : ("queued" == "running") ≡ true = (eq_iff _ _).1 (sym q ∙ run) in cc
    idle (inr (inr (_, stamped))) run = let no_stamp : false ≡ true = rw fresh at stamped in cc
