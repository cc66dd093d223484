-- ===== src/Supervisor/Restarts.antt =====
-- internal/supervisor/supervisor.go: the crash-loop guard, intentional restarts, and stopping.
use suctl.Prelude.{
  ℕ, ◌≤◌, ◌≡◌, ◌≢◌, refl, true, false, [], ◌∷◌, ◌++◌, Option, none, some, ◌⊎◌, inl, inr, arith,
  length, In, in-append_right,
}
use suctl.Supervisor.{
  State, Config, Supervisor, Effect, on_crash, max_restarts, signal_stop, restart, launch,
  begin_stop, stop_fresh_child, relaunch, on_exit_crash, on_exit, start, new_supervisor, to_process,
}

-- A supervisor between two steps: supervision has ended exactly in the states `stopped` and
-- `failed`, and a module that is supervised has crashed at most `max_restarts` times in the window.
pub record Inv (s : Supervisor) : Type 0 where
  pub ended : s.exited ≡ true → (s.state ≡ State.stopped) ⊎ (s.state ≡ State.failed)
  pub going : s.exited ≡ false → (s.state ≡ State.idle) ⊎ (s.state ≡ State.running)
  pub guarded : s.exited ≡ false → length s.restarts ≤ max_restarts s.cfg

new_supervisor-Inv : (cfg : Config) → Inv (new_supervisor cfg)
new_supervisor-Inv cfg = record {
  ended = λ h. cc;
  going = λ h. inl refl;
  guarded = λ h. omega arith;
}

restart-Inv : (s : Supervisor) → Inv s → Inv (restart s).0
unfolding restart
restart-Inv s v = ground arith

begin_stop-Inv : (s : Supervisor) → Inv s → Inv (begin_stop s).0
unfolding begin_stop
begin_stop-Inv s v = ground arith

start-Inv :
    (next : Option (ℕ × ℕ)) (s : Supervisor) → s.exited ≡ false → Inv s → Inv (start next s).0.0
unfolding start launch
start-Inv none s e v = v
start-Inv (some l) s e v = ground arith

-- If it was so before an exit then it is so after it, whatever the cause and whether or not a new
-- launch succeeds: the supervision has ended exactly in the states stopped and failed, and a
-- module still supervised has at most the limit of crashes counted.
pub on_exit-Inv :
    (now : ℕ) (next : Option (ℕ × ℕ)) (s : Supervisor)
    → s.exited ≡ false
    → Inv s
    → Inv (on_exit now next s).0
unfolding on_exit on_exit_crash relaunch launch
on_exit-Inv now none s e v = ground arith
on_exit-Inv now (some l) s e v = ground arith

-- The supervisor holds the process and the wire of the new launch.
abbrev pub Relaunched : Option (ℕ × ℕ) → Supervisor → Type 0
Relaunched none t = ⊥
Relaunched (some (process, wire)) t = (t.cmd ≡ some process) × (t.channel ≡ some wire)

restart-running :
    (s : Supervisor) → s.state ≡ State.running → (restart s).0 ≡ record s { intentional = true }
unfolding restart
restart-running s r = ground arith

quiet_launch :
    (o : Option ℕ) (wire : ℕ)
    → ¬ In on_crash ((to_process Effect.close_channel o ++ Effect.on_channel wire ∷ []) ++ [])
quiet_launch none wire (inl e) = cc
quiet_launch none wire (inr h) = h
quiet_launch (some w) wire (inl e) = cc
quiet_launch (some w) wire (inr (inl e)) = cc
quiet_launch (some w) wire (inr (inr h)) = h

-- After Restart of a running module that is not being stopped, the next exit, if a new launch
-- succeeds, has the module running as the new process, fires no hook, counts no crash and spends
-- the flag, so that the exit after it counts again.
pub intentional_restart :
    (now : ℕ) (process wire : ℕ) (s : Supervisor)
    → s.state ≡ State.running
    → s.stopping ≡ false
    → let asked = (restart s).0 in
      let (t, effects) = on_exit now (some (process, wire)) asked in
      (t.state ≡ State.running)
      × (t.cmd ≡ some process)
      × (t.restarts ≡ s.restarts)
      × (t.intentional ≡ false)
      × ¬ In on_crash effects
unfolding on_exit relaunch launch stop_fresh_child
intentional_restart now process wire s r a =
    rw (restart-running s r) (rw a (refl, refl, refl, refl, quiet_launch s.channel wire))

-- Once Stop has begun on a supervisor that was started, the next exit ends the supervision as
-- stopped, with no crash counted, no hook and no launch, also if a restart was asked for.
pub stop_wins :
    (now : ℕ) (next : Option (ℕ × ℕ)) (s : Supervisor)
    → s.state ≢ State.idle
    → let asked = (begin_stop s).0 in
      on_exit now next asked ≡ (record asked { state = State.stopped; exited = true }, [])
unfolding begin_stop on_exit
stop_wins now next s ne = ground arith

-- A Stop that raced a relaunch is signalled to the fresh process.
pub relaunch_delivers_stop :
    (process wire : ℕ) (s : Supervisor)
    → s.stopping ≡ true
    → In (Effect.signal process) (relaunch (some (process, wire)) s).1
unfolding relaunch launch stop_fresh_child signal_stop
relaunch_delivers_stop process wire s h = rw h (
    in-append_right (Effect.signal process)
      (to_process Effect.close_channel s.channel ++ Effect.on_channel wire ∷ []) _ (inl refl))
