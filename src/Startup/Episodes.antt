-- ===== src/Startup/Episodes.antt =====
-- internal/startup/lifecycle.go: the restarts of one unhealthy episode.
use suctl.Prelude.{
  ℕ, zero, suc, ◌+◌, ◌<◌, ◌≤◌, String, ◌≡◌, refl, sym, subst, ◌∙◌, true, false, ◌∷◌, some, none,
  arith, eq_iff, lookup, lookup-insert, lookup-delete, leb,
}
use suctl.Protocol.{sprint_number}
use suctl.Modules.{Record, State, is_active}
use suctl.Startup.{
  Runtime, restart_supervisor, to_handle, fire, attempts_of, fail_health, deregister, stop_process,
  on_health_fail_of, on_health_fail,
}

-- The callbacks of an episode, one after another.
abbrev pub fail_times : ℕ → String → Runtime → Runtime
fail_times zero name rt = rt
fail_times (suc n) name rt = fail_times n name (on_health_fail name rt).0

-- An active module, with so many attempts counted.
pub record Counts (name : String) (r : Record) (n : ℕ) (rt : Runtime) : Type 0 where
  pub listed : lookup name rt.modules ≡ some r
  pub active : r.state ≡ State.active
  pub counted : attempts_of (lookup name rt.health_restarts) ≡ n

-- A failure within the budget costs one attempt and asks for a restart.
on_health_fail-Counts :
    (name : String) (r : Record) (n : ℕ) (rt : Runtime)
    → Counts name r n rt
    → n < rt.health_max_restarts
    → Counts name r (suc n) (on_health_fail name rt).0
      × ((on_health_fail name rt).0.health_max_restarts ≡ rt.health_max_restarts)
unfolding on_health_fail on_health_fail_of
on_health_fail-Counts name r n rt c low =
    let act : is_active r.state ≡ true = rw c.active refl in
    let under : leb rt.health_max_restarts n ≡ false = ground arith in
    rw (c.listed, on_health_fail)
      (rw (act, c.counted, under)
        (
          record {
            listed = c.listed;
            active = c.active;
            counted = rw lookup-insert (rw ((eq_iff name name).1 refl) refl);
          },
          refl,
        ))

-- A failure beyond the budget tears the module down.
on_health_fail-spent :
    (name : String) (r : Record) (n : ℕ) (rt : Runtime)
    → Counts name r n rt
    → rt.health_max_restarts ≤ n
    → (on_health_fail name rt).0 ≡ (fail_health name r rt).0
unfolding on_health_fail on_health_fail_of
on_health_fail-spent name r n rt c le =
    let act : is_active r.state ≡ true = rw c.active refl in
    let over : leb rt.health_max_restarts n ≡ true = ground arith in
    rw (c.listed, on_health_fail) (rw (act, c.counted, over) refl)

fail_times-Counts :
    (k n : ℕ) (name : String) (r : Record) (rt : Runtime)
    → Counts name r n rt
    → n + k ≤ rt.health_max_restarts
    → Counts name r (n + k) (fail_times k name rt)
      × ((fail_times k name rt).health_max_restarts ≡ rt.health_max_restarts)
fail_times-Counts zero n name r rt c le = (subst (λ m. Counts name r m rt) (omega arith) c, refl)
fail_times-Counts (suc k) n name r rt c le =
    let (next, same) = on_health_fail-Counts name r n rt c (omega arith) in
    let (last, kept) =
      fail_times-Counts k (suc n) name r (on_health_fail name rt).0 next (rw same (omega arith)) in
    (subst (λ m. Counts name r m (fail_times (suc k) name rt)) (omega arith) last, kept ∙ same)

fail_times-Counts_fresh :
    (k : ℕ) (name : String) (r : Record) (rt : Runtime)
    → Counts name r 0 rt
    → k ≤ rt.health_max_restarts
    → Counts name r k (fail_times k name rt)
      × ((fail_times k name rt).health_max_restarts ≡ rt.health_max_restarts)
fail_times-Counts_fresh k name r rt c le =
    let (last, kept) = fail_times-Counts k 0 name r rt c (omega arith) in
    (subst (λ m. Counts name r m (fail_times k name rt)) (omega arith) last, kept)

-- A module that is given up: failed, with nothing that runs, and with no attempts counted.
pub record GivenUp (name : String) (rt : Runtime) : Type 0 where
  pub final : Record
  pub listed : lookup name rt.modules ≡ some final
  pub failed : final.state ≡ State.failed
  pub no_process : final.supervisor ≡ none
  pub no_monitor : final.monitor ≡ none
  pub no_wire : final.mux ≡ none
  pub forgotten : lookup name rt.health_restarts ≡ none

fail_health-GivenUp :
    (name : String) (r : Record) (rt : Runtime) → GivenUp name (fail_health name r rt).0
unfolding fail_health deregister stop_process
fail_health-GivenUp name r rt = record {
  final = record r {
    state = State.failed;
    reason =
        sprint_number "health checks failing; %d restart attempts exhausted" rt.health_max_restarts;
    supervisor = none;
    monitor = none;
    mux = none;
  };
  listed = rw lookup-insert (rw ((eq_iff name name).1 refl) refl);
  failed = refl;
  no_process = refl;
  no_monitor = refl;
  no_wire = refl;
  forgotten = rw lookup-delete (rw ((eq_iff name name).1 refl) refl);
}

restart_effects :
    (name : String) (r : Record) (n : ℕ) (rt : Runtime)
    → Counts name r n rt
    → n < rt.health_max_restarts
    → (on_health_fail name rt).1
      ≡ fire rt name r "on-health-fail" ∷ to_handle restart_supervisor r.supervisor
unfolding on_health_fail on_health_fail_of
restart_effects name r n rt c low =
    let act : is_active r.state ≡ true = rw c.active refl in
    let under : leb rt.health_max_restarts n ≡ false = ground arith in
    rw (c.listed, on_health_fail) (rw (act, c.counted, under) refl)

-- In an unhealthy episode of an active module with no attempts counted, each of the first
-- health_max_restarts failures fires the hook and asks the supervisor for a restart; they leave
-- the record as it was; and the next one gives the module up as failed, with its process, monitor
-- and wire gone.
pub episode-GivenUp :
    (name : String) (r : Record) (rt : Runtime) (k : ℕ)
    → lookup name rt.modules ≡ some r
    → r.state ≡ State.active
    → lookup name rt.health_restarts ≡ none
    → k < rt.health_max_restarts
    → ((on_health_fail name (fail_times k name rt)).1
        ≡ fire (fail_times k name rt) name r "on-health-fail"
          ∷ to_handle restart_supervisor r.supervisor)
      × (lookup name (fail_times rt.health_max_restarts name rt).modules ≡ some r)
      × GivenUp name (on_health_fail name (fail_times rt.health_max_restarts name rt)).0
episode-GivenUp name r rt k e active fresh low =
    let (at, kept) = fail_times-Counts_fresh k name r rt start (omega arith) in
    let (spent, same) =
      fail_times-Counts_fresh rt.health_max_restarts name r rt start (omega arith) in
    (
      restart_effects name r k (fail_times k name rt) at (rw kept low),
      spent.listed,
      subst (GivenUp name)
          (sym (
            on_health_fail-spent name r rt.health_max_restarts
              (fail_times rt.health_max_restarts name rt) spent (rw same (omega arith))))
          (fail_health-GivenUp name r (fail_times rt.health_max_restarts name rt)),
    )
  where
    start : Counts name r 0 rt
    start = record { listed = e; active = active; counted = rw fresh refl }
