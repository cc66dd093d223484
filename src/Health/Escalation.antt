-- ===== src/Health/Escalation.antt =====
-- internal/health/health.go: when the monitor escalates and when it reports a recovery.
use suctl.Prelude.{
  ℕ, zero, suc, ◌+◌, ◌<◌, ◌≡◌, refl, Bool, true, false, List, [], ◌∷◌, inl, inr, arith, leb,
  Bool-cases, ℤ, pos,
}
use suctl.Health.{
  Monitor, Callback, on_fail, on_recover, Outcome, healthy, unhealthy, check, run_checks,
  new_monitor,
}

-- The count of failures stays below a threshold that is positive.
pub record Inv (m : Monitor) : Type 0 where
  pub positive : 0 < m.fail_threshold
  pub below : m.failures < m.fail_threshold

new_monitor-Inv : (t : ℤ) → Inv (new_monitor t)
unfolding new_monitor
new_monitor-Inv (pos zero) = ground arith
new_monitor-Inv (pos (suc n)) = ground arith
new_monitor-Inv _ = ground arith

check-Inv : (o : Outcome) (m : Monitor) → Inv m → Inv (check o m).0
unfolding check
check-Inv healthy m v = ground arith
check-Inv unhealthy m v = ground arith

run_checks-Inv : (os : List Outcome) (m : Monitor) → Inv m → Inv (run_checks os m).0
unfolding run_checks
run_checks-Inv [] m v = v
run_checks-Inv (o ∷ os) m v = run_checks-Inv os (check o m).0 (check-Inv o m v)

-- After any checks the count of failures is below the threshold, which is positive, whatever
-- threshold the monitor was made with.
pub run_checks-new_monitor : (t : ℤ) (os : List Outcome) → Inv (run_checks os (new_monitor t)).0
run_checks-new_monitor t os = run_checks-Inv os (new_monitor t) (new_monitor-Inv t)

abbrev pub all_unhealthy : ℕ → List Outcome
all_unhealthy zero = []
all_unhealthy (suc n) = unhealthy ∷ all_unhealthy n

-- Failures one after another escalate exactly when the count reaches the threshold: `k` more of
-- them with `failures + k < fail_threshold` fire nothing, and the one that reaches it fires once.
quiet :
    (k : ℕ) (m : Monitor)
    → m.failures + k < m.fail_threshold
    → run_checks (all_unhealthy k) m ≡ (record m { failures = m.failures + k }, [])
unfolding run_checks check
quiet zero m h = ground arith
quiet (suc k) m h =
    let low : leb m.fail_threshold (suc m.failures) ≡ false = ground arith in
    rw low (ground (arith, quiet k (record m { failures = suc m.failures })))

-- A monitor whose failures are below its threshold escalates on the check that brings its failures
-- in a row to the threshold, not before, and counts anew from there.
pub escalates :
    (k : ℕ) (m : Monitor)
    → m.failures + suc k ≡ m.fail_threshold
    → (run_checks (all_unhealthy k) m ≡ (record m { failures = m.failures + k }, []))
      × (check unhealthy (record m { failures = m.failures + k })
          ≡ (record m { failures = 0; fail_fired = true }, on_fail ∷ []))
unfolding check
escalates k m h = (quiet k m (omega arith), ground arith)

-- The callbacks in the order that the checks can give: recoveries only after an escalation, and
-- never two of them without one between.
abbrev pub Alternates : Bool → List Callback → Type 0
Alternates fired [] = Unit
Alternates fired (on_fail ∷ cs) = Alternates true cs
Alternates fired (on_recover ∷ cs) = (fired ≡ true) × Alternates false cs

-- A recovery is reported only after an escalation, and once for it.
pub run_checks-Alternates :
    (os : List Outcome) (m : Monitor) → Alternates m.fail_fired (run_checks os m).1
unfolding run_checks check
run_checks-Alternates [] m = tt
run_checks-Alternates (healthy ∷ os) m = elim (Bool-cases m.fail_fired) [
  | inl fired ↦
      rw fired (refl, run_checks-Alternates os (record m { failures = 0; fail_fired = false }))
  | inr calm ↦ rw calm (rw calm at (run_checks-Alternates os (record m { failures = 0 })))
]
run_checks-Alternates (unhealthy ∷ os) m =
    elim (Bool-cases (leb m.fail_threshold (suc m.failures))) [
      | inl at ↦ rw at (run_checks-Alternates os (record m { failures = 0; fail_fired = true }))
      | inr under ↦ rw under (run_checks-Alternates os (record m { failures = suc m.failures }))
    ]
