-- ===== src/Health.antt =====
-- internal/health/health.go: the health monitor. The callbacks that a check starts are its result;
-- `check` holds the mutex while it counts, so checks of one monitor do not interleave.
pub mod Escalation
use suctl.Prelude.{
  ℕ, zero, suc, ◌+◌, Bool, true, false, List, [], ◌∷◌, ◌++◌, ℤ, is_positive, pos, leb,
  if◌then◌else◌,
}

abbrev pub default_fail_threshold : ℕ
default_fail_threshold = 3

pub record Monitor : Type 0 where
  pub fail_threshold : ℕ
  pub failures : ℕ
  pub fail_fired : Bool

abbrev pub magnitude : ℤ → ℕ
magnitude (pos n) = n
magnitude _ = 0

-- New, without the interval: a threshold that is not positive takes the default.
unfoldable pub new_monitor : ℤ → Monitor
new_monitor fail_threshold = record {
  fail_threshold =
      if is_positive fail_threshold then magnitude fail_threshold else default_fail_threshold;
  failures = 0;
  fail_fired = false;
}

pub data Callback : Type 0 where
  on_fail on_recover : Callback

-- One health check: the wire answered, or it gave an error or was not bound.
pub data Outcome : Type 0 where
  healthy unhealthy : Outcome

-- check, from the outcome on.
unfoldable pub check : Outcome → Monitor → Monitor × List Callback
check unhealthy m =
    let counted = record m { failures = suc m.failures } in
    if leb m.fail_threshold counted.failures
    then (record counted { failures = 0; fail_fired = true }, on_fail ∷ [])
    else (counted, [])
check healthy m =
    let cleared = record m { failures = 0 } in
    if m.fail_fired then (record cleared { fail_fired = false }, on_recover ∷ []) else (cleared, [])

-- The loop over the ticks: the monitor and the callbacks so far.
unfoldable pub run_checks : List Outcome → Monitor → Monitor × List Callback
run_checks [] m = (m, [])
run_checks (o ∷ os) m =
    let (next, fired) = check o m in
    let (last, later) = run_checks os next in (last, fired ++ later)
