-- ===== src/Broker/Plan.antt =====
-- internal/broker/queue.go, planPromotions: which jobs the queue manager promotes.
use suctl.Prelude.{
  String, ◌≡◌, ◌≢◌, refl, true, false, List, [], ◌∷◌, ◌++◌, map, ◌⊎◌, inl, inr, arith, eq_iff,
  contains, contains-append, In, in-append, if◌then◌else◌, Bool-cases,
}
use suctl.Gate.{admissible}
use suctl.Messages.Jobs.{Job}
use suctl.Broker.Queue.{fold_busy, promote, plan_promotions}

-- No module lies in both footprints.
abbrev pub Disjoint : List String → List String → Type 0
Disjoint f g = (m : String) → contains f m ≡ true → contains g m ≡ false

Disjoint-sym : (f g : List String) → Disjoint f g → Disjoint g f
Disjoint-sym f g h m c = ground (arith, h m)

-- The gate admits a footprint exactly when it meets nothing busy.
admissible-Disjoint : (f busy : List String) → admissible f busy ≡ true → Disjoint f busy
unfolding admissible
admissible-Disjoint [] busy h m c = cc
admissible-Disjoint (x ∷ f) busy h m c =
    ground (arith, eq_iff x m, admissible-Disjoint f busy (ground arith) m)

-- A footprint that the gate refuses shares a module with the busy set.
pub shared_module :
    (f busy : List String)
    → admissible f busy ≡ false
    → (m : String) × (contains f m ≡ true) × (contains busy m ≡ true)
unfolding admissible
shared_module [] busy h = cc
shared_module (x ∷ f) busy h = elim (Bool-cases (contains busy x)) [
  | inl c ↦ (x, ground (arith, eq_iff x x), c)
  | inr c ↦ let (m, inside, met) = shared_module f busy (ground arith) in (m, ground arith, met)
]

-- Some of the jobs of a list, in its order.
pub data Sub : List Job → List Job → Type 0 where
  none_of : Sub [] []
  skip : {j : Job} {js ks : List Job} → Sub js ks → Sub js (j ∷ ks)
  take : {j : Job} {js ks : List Job} → Sub js ks → Sub (j ∷ js) (j ∷ ks)

pub Sub-in : {js ks : List Job} → Sub js ks → (j : Job) → In j js → In j ks
Sub-in none_of j h = absurd h
Sub-in (skip r) j h = inr (Sub-in r j h)
Sub-in (take r) j (inl e) = inl e
Sub-in (take r) j (inr h) = inr (Sub-in r j h)

module _ (fp : String → List String) where
  -- The jobs whose tokens are promoted.
  unfoldable pub admitted : List String → List Job → List Job
  admitted busy [] = []
  admitted busy (q ∷ qs) =
      let f = fp q.module_name in
      let fits = admissible f busy in
      let rest = admitted (if fits then f ++ busy else busy) qs in if fits then q ∷ rest else rest

  -- The footprints of the listed jobs are pairwise disjoint.
  abbrev pub Apart : List Job → Type 0
  Apart [] = Unit
  Apart (j ∷ js) = ((k : Job) → In k js → Disjoint (fp j.module_name) (fp k.module_name)) × Apart js

  pub promote-admitted :
      (busy : List String) (qs : List Job)
      → promote fp busy qs ≡ map (λ j. j.token) (admitted busy qs)
  unfolding promote admitted
  promote-admitted busy [] = refl
  promote-admitted busy (q ∷ qs) =
      ground (arith, promote-admitted busy qs, promote-admitted (fp q.module_name ++ busy) qs)

  admitted-Sub : (busy : List String) (qs : List Job) → Sub (admitted busy qs) qs
  unfolding admitted
  admitted-Sub busy [] = Sub.none_of
  admitted-Sub busy (q ∷ qs) = elim (Bool-cases (admissible (fp q.module_name) busy)) [
    | inl fits ↦ rw fits (Sub.take (admitted-Sub (fp q.module_name ++ busy) qs))
    | inr blocked ↦ rw blocked (Sub.skip (admitted-Sub busy qs))
  ]

  pub in-admitted :
      (busy : List String) (qs : List Job) (j : Job) → In j (admitted busy qs) → In j qs
  in-admitted busy qs j h = Sub-in (admitted-Sub busy qs) j h

  Disjoint-append_right :
      (f g busy : List String) → Disjoint f (g ++ busy) → Disjoint f g × Disjoint f busy
  Disjoint-append_right f g busy h = (
    λ m c. ground (arith, h m c, contains-append m g busy),
    λ m c. ground (arith, h m c, contains-append m g busy),
  )

  admitted-Disjoint :
      (busy : List String) (qs : List Job) (j : Job)
      → In j (admitted busy qs)
      → Disjoint (fp j.module_name) busy
  unfolding admitted
  admitted-Disjoint busy [] j h = absurd h
  admitted-Disjoint busy (q ∷ qs) j h = elim (Bool-cases (admissible (fp q.module_name) busy)) [
    | inl fits ↦
        admitted-Disjoint_cons busy q qs j fits
          (λ k r.
            (Disjoint-append_right _ (fp q.module_name) busy
              (admitted-Disjoint (fp q.module_name ++ busy) qs k r)).1)
          (rw fits at h)
    | inr blocked ↦ admitted-Disjoint busy qs j (rw blocked at h)
  ]
    where
      admitted-Disjoint_cons :
          (busy : List String) (q : Job) (qs : List Job) (j : Job)
          → admissible (fp q.module_name) busy ≡ true
          → ((k : Job)
              → In k (admitted (fp q.module_name ++ busy) qs)
              → Disjoint (fp k.module_name) busy)
          → In j (q ∷ admitted (fp q.module_name ++ busy) qs)
          → Disjoint (fp j.module_name) busy
      admitted-Disjoint_cons busy q qs j fits later (inl e) = rw e (admissible-Disjoint _ busy fits)
      admitted-Disjoint_cons busy q qs j fits later (inr r) = later j r

  admitted-Apart : (busy : List String) (qs : List Job) → Apart (admitted busy qs)
  unfolding admitted
  admitted-Apart busy [] = tt
  admitted-Apart busy (q ∷ qs) = elim (Bool-cases (admissible (fp q.module_name) busy)) [
    | inl fits ↦ rw fits (
      (λ k r.
          Disjoint-sym _ _
            (Disjoint-append_right _ (fp q.module_name) busy
              (admitted-Disjoint (fp q.module_name ++ busy) qs k r)).0),
      admitted-Apart (fp q.module_name ++ busy) qs,
    )
    | inr blocked ↦ rw blocked (admitted-Apart busy qs)
  ]

  -- The busy set covers every folded footprint.
  contains-fold_busy :
      (busy : List String) (js : List Job) (m : String)
      → contains busy m ≡ true
      → contains (fold_busy fp busy js) m ≡ true
  unfolding fold_busy
  contains-fold_busy busy [] m c = c
  contains-fold_busy busy (j ∷ js) m c =
      contains-fold_busy (fp j.module_name ++ busy) js m
        (ground (arith, contains-append m (fp j.module_name) busy))

  fold_busy_covers :
      (busy : List String) (js : List Job) (j : Job) (m : String)
      → In j js
      → contains (fp j.module_name) m ≡ true
      → contains (fold_busy fp busy js) m ≡ true
  unfolding fold_busy
  fold_busy_covers busy [] j m h c = absurd h
  fold_busy_covers busy (x ∷ js) j m (inl e) c =
      contains-fold_busy (fp x.module_name ++ busy) js m
        (ground (arith, contains-append m (fp x.module_name) busy, e))
  fold_busy_covers busy (x ∷ js) j m (inr h) c =
      fold_busy_covers (fp x.module_name ++ busy) js j m h c

  -- What is busy was busy before, or lies in a folded footprint.
  pub fold_busy-source :
      (busy : List String) (js : List Job) (m : String)
      → contains (fold_busy fp busy js) m ≡ true
      → (contains busy m ≡ true) ⊎ ((j : Job) × In j js × (contains (fp j.module_name) m ≡ true))
  unfolding fold_busy
  fold_busy-source busy [] m c = inl c
  fold_busy-source busy (x ∷ js) m c = elim (fold_busy-source (fp x.module_name ++ busy) js m c) [
    | inl old ↦ elim (Bool-cases (contains (fp x.module_name) m)) [
      | inl here ↦ inr (x, inl refl, here)
      | inr elsewhere ↦ inl (ground (arith, contains-append m (fp x.module_name) busy))
    ]
    | inr (j, listed, covers) ↦ inr (j, inr listed, covers)
  ]

  Apart-append :
      (js ks : List Job)
      → Apart js
      → Apart ks
      → ((j k : Job) → In j js → In k ks → Disjoint (fp j.module_name) (fp k.module_name))
      → Apart (js ++ ks)
  Apart-append [] ks a b h = b
  Apart-append (j ∷ js) ks a b h = (
    (λ k i. elim (in-append k js ks i) [ inl l ↦ a.0 k l | inr r ↦ h j k (inl refl) r ]),
    Apart-append js ks a.1 b (λ x k l r. h x k (inr l) r),
  )

  -- Of a list of jobs with disjoint footprints, any two with different tokens are disjoint.
  pub Apart-ne :
      (js : List Job) (j k : Job)
      → Apart js
      → In j js
      → In k js
      → j.token ≢ k.token
      → Disjoint (fp j.module_name) (fp k.module_name)
  Apart-ne [] j k a h i ne = absurd h
  Apart-ne (x ∷ js) j k a (inl e) (inl f) ne = absurd (ne (cc))
  Apart-ne (x ∷ js) j k a (inl e) (inr i) ne = rw e (a.0 k i)
  Apart-ne (x ∷ js) j k a (inr h) (inl f) ne = rw f (Disjoint-sym _ _ (a.0 j h))
  Apart-ne (x ∷ js) j k a (inr h) (inr i) ne = Apart-ne js j k a.1 h i ne

  -- Over running jobs with disjoint footprints, the tokens that planPromotions returns are those
  -- of jobs of the queue, in its order, whose footprints are disjoint from each other and from
  -- those of the running jobs.
  pub plan_exclusive :
      (waiting busy_jobs : List Job)
      → Apart busy_jobs
      → (js : List Job) × (plan_promotions waiting busy_jobs fp ≡ map (λ j. j.token) js)
        × Sub js waiting
        × Apart (js ++ busy_jobs)
  unfolding plan_promotions
  plan_exclusive waiting busy_jobs a =
      let busy = fold_busy fp [] busy_jobs in
      (
        admitted busy waiting,
        promote-admitted busy waiting,
        admitted-Sub busy waiting,
        Apart-append (admitted busy waiting) busy_jobs (admitted-Apart busy waiting) a
            (λ j k l r m c. elim (Bool-cases (contains (fp k.module_name) m)) [
              | inl met ↦ absurd (
                  cc (
                    fold_busy_covers [] busy_jobs k m r met,
                    admitted-Disjoint busy waiting j l m c,
                  ))
              | inr free ↦ free
            ]),
      )
