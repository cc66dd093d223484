-- ===== src/Startup/Reachable.antt =====
-- internal/startup/activate.go: a module becomes reachable just where every step of its activation
-- succeeds.
use suctl.Prelude.{
  In, ℕ, String, List, [], ◌∷◌, Option, none, some, ◌⊎◌, inl, inr, lookup, ◌≡◌, refl, ◌∙◌, ap,
  Option-cases,
}
use suctl.Protocol.{Message, sprint_error}
use suctl.Hooks.{run_hook}
use suctl.Modules.{Record, State, set_status, no_reason}
use suctl.Startup.{Effect}
use suctl.Startup.Activate.{
  Attempt, Host, hook_error, put, fail_activation, first_failure, roll_back, launched, finish,
  refuse, launch, after_launch, activate_with,
}
use suctl.Startup.Checks.{sum_cases, Checked, first_failure_sound, first_failure_complete}
use suctl.Startup.Rollback.{
  Leaves, Fails, fail_activation-Fails, put-Leaves, go_live-Leaves, Leaves-then,
  roll_back-RolledBack,
}

-- The record of a module that was activated.
abbrev pub live : Attempt → ℕ → Record → Record
live a sup r = record (set_status State.active no_reason (launched a r)) {
  supervisor = some sup;
  monitor = some a.monitor;
}

-- The error of a hook of the module, as an attempt meets it.
abbrev pub hook_fails : Attempt → Host → String → Record → Option Message
hook_fails a h event r = hook_error a event (run_hook h.runtime.hook_timeout r.manifest event r.mux)

-- Every step succeeds, with the given supervisor.
pub record Passes (a : Attempt) (h : Host) (event : String) (r : Record) (sup : ℕ) : Type 0 where
  pub set_up : hook_fails a h event r ≡ none
  pub launches : a.started ≡ inr sup
  pub checks : Checked a (launched a r)
  pub settles : hook_fails a h "post-activate" (launched a r) ≡ none

roll_back-Fails :
    (name : String) (r : Record) (e : Message) (h : Host)
    → Fails name h (record h { runtime = (roll_back name r e (put name r h.runtime)).0 })
roll_back-Fails name r e h =
    let stored = put name r h.runtime in
    let first = put-Leaves name r h.runtime in
    elim (roll_back-RolledBack name r e stored first.own) [
      | inl (free, kept, stops) ↦
          (_, refl, Leaves-then name r _ h.runtime.modules stored.modules _ first kept, refl)
      | inr (j, l, covers, kept, stops) ↦
          (_, refl, Leaves-then name r _ h.runtime.modules stored.modules _ first kept, refl)
    ]

finish-Leaves :
    (a : Attempt) (name : String) (r : Record) (h : Host)
    → hook_fails a h "post-activate" r ≡ none
    → Leaves name
        (record (set_status State.active no_reason r) { monitor = some a.monitor })
        h.runtime.modules
        (finish a name r h).0.runtime.modules
unfolding finish
finish-Leaves a name r h fine =
    let stored = record h { runtime = put name r h.runtime } in
    rw (fine, finish)
      (Leaves-then name r
        (record (set_status State.active no_reason r) { monitor = some a.monitor })
        h.runtime.modules stored.runtime.modules _ (put-Leaves name r h.runtime)
        (go_live-Leaves a name r stored))

finish-Fails :
    (a : Attempt) (name : String) (r : Record) (h : Host) (e : Message)
    → hook_fails a h "post-activate" r ≡ some e
    → Fails name h (finish a name r h).0
unfolding finish
finish-Fails a name r h e fails = rw (fails, finish) (roll_back-Fails name r e h)

-- A launched module with its supervisor.
abbrev supervised : Attempt → ℕ → Record → Record
supervised a sup r = record (launched a r) { supervisor = some sup }

after_launch_checked :
    (a : Attempt) (sup : ℕ) (name : String) (r : Record) (h : Host)
    → first_failure a (launched a r) ≡ none
    → after_launch a sup name r h ≡ finish a name (supervised a sup r) h
unfolding after_launch
after_launch_checked a sup name r h passes = rw (passes, after_launch) refl

after_launch_failed :
    (a : Attempt) (sup : ℕ) (name : String) (r : Record) (h : Host) (e : Message)
    → first_failure a (launched a r) ≡ some e
    → after_launch a sup name r h ≡ refuse name (launched a r) e h
unfolding after_launch
after_launch_failed a sup name r h e fails = rw (fails, after_launch) refl

refuse-Fails :
    (name : String) (r : Record) (e : Message) (h : Host) → Fails name h (refuse name r e h).0
unfolding refuse
refuse-Fails name r e h = fail_activation-Fails name r e h

-- An activation that passes every step leaves the module active; any other leaves it unavailable.
abbrev pub Reached : Attempt → String → Record → String → Host → Host → Type 0
Reached a name r event h after =
    ((sup : ℕ) × Passes a h event r sup
      × Leaves name (live a sup r) h.runtime.modules after.runtime.modules)
    ⊎ ((sup : ℕ) → Passes a h event r sup → ⊥) × Fails name h after

after_launch-Reached :
    (a : Attempt) (sup : ℕ) (name : String) (r : Record) (event : String) (h : Host)
    → hook_fails a h event r ≡ none
    → a.started ≡ inr sup
    → Reached a name r event h (after_launch a sup name r h).0
after_launch-Reached a sup name r event h ready starts =
    elim (Option-cases (first_failure a (launched a r))) [
      | inr (e, fails) ↦ rw (after_launch_failed a sup name r h e fails) (
          inr (
            λ other all. cc (fails, first_failure_complete a (launched a r) all.checks),
            refuse-Fails name (launched a r) e h,
          ))
      | inl passes ↦
          rw (after_launch_checked a sup name r h passes)
            (elim (Option-cases (hook_fails a h "post-activate" (launched a r))) [
              | inr (e, fails) ↦ inr (
                λ other all. cc (fails, all.settles),
                finish-Fails a name (supervised a sup r) h e fails,
              )
              | inl settles ↦ inl (
                sup,
                record {
                  set_up = ready;
                  launches = starts;
                  checks = first_failure_sound a (launched a r) passes;
                  settles = settles;
                },
                finish-Leaves a name (supervised a sup r) h settles,
              )
            ])
    ]

activate_with_refused :
    (a : Attempt) (name : String) (r : Record) (event : String) (h : Host) (e : Message)
    → hook_fails a h event r ≡ some e
    → (activate_with a name r event h).0
      ≡ (refuse name r (sprint_error "%s hook failed: " (event ∷ []) e) h).0
unfolding activate_with
activate_with_refused a name r event h e fails = rw (fails, activate_with) refl

activate_with_ready :
    (a : Attempt) (name : String) (r : Record) (event : String) (h : Host) (outcome : Message ⊎ ℕ)
    → hook_fails a h event r ≡ none
    → a.started ≡ outcome
    → activate_with a name r event h ≡ (
      (launch a outcome name r h).0,
      Effect.hook name event (run_hook h.runtime.hook_timeout r.manifest event r.mux)
          ∷ (launch a outcome name r h).1,
    )
unfolding activate_with
activate_with_ready a name r event h outcome ready starts =
    let run = run_hook h.runtime.hook_timeout r.manifest event r.mux in
    let first : activate_with a name r event h ≡ (
      (launch a a.started name r h).0,
      Effect.hook name event run ∷ (launch a a.started name r h).1,
    ) =
      rw (ready, activate_with) refl in
    first
    ∙ ap (λ x. ((launch a x name r h).0, Effect.hook name event run ∷ (launch a x name r h).1))
        starts

-- After an activation attempt the module is active, under the started supervisor, the bound wire
-- and the started monitor, exactly if the first hook, the launch and the post-activate hook
-- succeed, a wire is bound, the module answers the handshake with ok and the protocol of the
-- manifest, and its self test finds no error; otherwise it is unavailable and the flag files are
-- as before. The record of every other module stays as it was.
pub activate_with-Reached :
    (a : Attempt) (name : String) (r : Record) (event : String) (h : Host)
    → Reached a name r event h (activate_with a name r event h).0
activate_with-Reached a name r event h = elim (Option-cases (hook_fails a h event r)) [
  | inr (e, fails) ↦
      rw (activate_with_refused a name r event h e fails)
        (inr (λ sup all. cc (fails, all.set_up), refuse-Fails name r _ h))
  | inl ready ↦ elim (sum_cases a.started) [
    | inl (e, fails) ↦
        rw (activate_with_ready a name r event h (inl e) ready fails)
          (inr (λ sup all. cc (fails, all.launches), unfold launch in refuse-Fails name r _ h))
    | inr (sup, starts) ↦
        rw (activate_with_ready a name r event h (inr sup) ready starts)
          (unfold launch in after_launch-Reached a sup name r event h ready starts)
  ]
]

-- A process that was launched and then failed a check: no record holds it, and nothing stops it.
abbrev pub Abandoned : ℕ → String → Record → Host × List Effect → Type 0
Abandoned sup name r out =
    In (Effect.start_supervisor sup) out.1
    × ((h : ℕ) → In (Effect.stop_supervisor h) out.1 → ⊥)
    × ((now : Record) × (lookup name out.0.runtime.modules ≡ some now)
        × (now.supervisor ≡ r.supervisor)
        × (now.state ≡ State.unavailable))

-- If the hook before the launch passes, the process starts, and a check after the launch fails,
-- the attempt starts the supervisor and stops none, and the record, now unavailable, holds the
-- supervisor that it held before the attempt and not the started one.
pub activate_with-Abandoned :
    (a : Attempt) (sup : ℕ) (name : String) (r : Record) (event : String) (h : Host) (e : Message)
    → hook_fails a h event r ≡ none
    → a.started ≡ inr sup
    → first_failure a (launched a r) ≡ some e
    → Abandoned sup name r (activate_with a name r event h)
activate_with-Abandoned a sup name r event h e ready starts fails =
    rw (activate_with_ready a name r event h (inr sup) ready starts) (
      unfold launch in
      rw (after_launch_failed a sup name r h e fails) (
        unfold refuse fail_activation in
        (
          inr (inl refl),
          λ other stops. elim stops [
            | inl odd ↦ cc
            | inr (inl odd) ↦ cc
            | inr (inr (inl odd)) ↦ cc
            | inr (inr (inr nowhere)) ↦ absurd nowhere
          ],
          (
            set_status State.unavailable e (launched a r),
            (put-Leaves name (set_status State.unavailable e (launched a r)) h.runtime).own,
            refl,
            refl,
          ),
        )))
