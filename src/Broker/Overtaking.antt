-- ===== src/Broker/Overtaking.antt =====
-- internal/broker/queue.go, planPromotions: which jobs pass others in the queue.
use suctl.Prelude.{
  ap, String, ◌≡◌, refl, true, false, List, [], ◌∷◌, ◌++◌, map, ◌⊎◌, inl, inr, arith, contains, In,
  in-append_right, if◌then◌else◌, Bool-cases,
}
use suctl.Gate.{admissible}
use suctl.Messages.Jobs.{Job}
use suctl.Broker.Queue.{fold_busy, promote, plan_promotions}
use suctl.Broker.Plan.{shared_module, admitted, promote-admitted, in-admitted, fold_busy-source}

module _ (fp : String → List String) where
  -- The busy set once the first jobs of the queue have been considered.
  busy_after : List String → List Job → List String
  busy_after busy [] = busy
  busy_after busy (q ∷ qs) =
      let f = fp q.module_name in busy_after (if admissible f busy then f ++ busy else busy) qs

  promote-append :
      (busy : List String) (front back : List Job)
      → promote fp busy (front ++ back)
        ≡ promote fp busy front ++ promote fp (busy_after busy front) back
  unfolding promote busy_after
  promote-append busy [] back = refl
  promote-append busy (q ∷ qs) back =
      ground (arith, promote-append busy qs back, promote-append (fp q.module_name ++ busy) qs back)

  busy_after-admitted :
      (busy : List String) (front : List Job)
      → busy_after busy front ≡ fold_busy fp busy (admitted fp busy front)
  unfolding busy_after fold_busy admitted
  busy_after-admitted busy [] = refl
  busy_after-admitted busy (q ∷ qs) =
      ground (arith, busy_after-admitted busy qs, busy_after-admitted (fp q.module_name ++ busy) qs)

  promote_blocked :
      (busy : List String) (q : Job) (back : List Job)
      → In q.token (promote fp busy (q ∷ back)) ⊎ (admissible (fp q.module_name) busy ≡ false)
  unfolding promote
  promote_blocked busy q back = elim (Bool-cases (admissible (fp q.module_name) busy)) [
    | inl fits ↦ inl (rw fits (inl refl))
    | inr blocked ↦ inr blocked
  ]

  in-token_of : (j : Job) (js : List Job) → In j js → In j.token (map (λ k. k.token) js)
  in-token_of j [] h = absurd h
  in-token_of j (x ∷ js) (inl e) = inl (ap (λ (k : Job). k.token) e)
  in-token_of j (x ∷ js) (inr h) = inr (in-token_of j js h)

  -- A queued job is promoted unless it shares a module with a running job or with a job ahead of
  -- it in the queue that is promoted now.
  pub plan_blocked :
      (front : List Job) (q : Job) (back busy_jobs : List Job)
      → In q.token (plan_promotions (front ++ q ∷ back) busy_jobs fp)
        ⊎ ((b : Job) × (m : String) × (In b busy_jobs
              ⊎ In b front × In b.token (plan_promotions front busy_jobs fp))
            × (contains (fp q.module_name) m ≡ true)
            × (contains (fp b.module_name) m ≡ true))
  unfolding plan_promotions
  plan_blocked front q back busy_jobs = elim (promote_blocked (busy_after busy front) q back) [
    | inl fits ↦ inl (rw promote-append (in-append_right _ (promote fp busy front) _ fits))
    | inr blocked ↦
        let (m, inside, met) = shared_module _ _ blocked in
        elim (fold_busy-source fp busy (admitted fp busy front) m (rw busy_after-admitted at met)) [
          | inl held ↦ elim (fold_busy-source fp [] busy_jobs m held) [
            | inl no_one ↦ cc
            | inr (b, listed, covers) ↦ inr (b, m, inl listed, inside, covers)
          ]
          | inr (b, listed, covers) ↦ inr (
            b,
            m,
            inr (in-admitted fp busy front b listed, rw promote-admitted (in-token_of b _ listed)),
            inside,
            covers,
          )
        ]
  ]
    where
      busy : List String
      busy = fold_busy fp [] busy_jobs
