-- ===== src/Supervisor.antt =====
-- internal/supervisor/supervisor.go: one module process. A step is what runs under the supervisor's
-- mutex or between two waits; what it does outside is the list of its effects. A process and a wire
-- are numbers; a launch that fails is the answer none of the environment.
pub mod Restarts
use suctl.Prelude.{
  ℕ, ◌+◌, Bool, true, false, not, List, [], ◌∷◌, ◌++◌, Option, none, some, ℤ, pos, is_positive,
  length, ltb, keep_if, if◌then◌else◌,
}

-- Nanoseconds, as time.Duration.
abbrev pub default_max_restarts : ℕ
default_max_restarts = 3

abbrev pub default_restart_window : ℕ
default_restart_window = 60_000_000_000

pub data State : Type 0 where
  idle running stopped failed : State

-- The limits of the Config; a value that is not positive stands for its default.
pub record Config : Type 0 where
  pub max_restarts_set : ℤ
  pub restart_window_set : ℤ

abbrev pub or_default : ℤ → ℕ → ℕ
or_default (pos n) d = if ltb 0 n then n else d
or_default _ d = d

-- maxRestarts and restartWindow
abbrev pub max_restarts : Config → ℕ
max_restarts cfg = or_default cfg.max_restarts_set default_max_restarts

abbrev pub restart_window : Config → ℕ
restart_window cfg = or_default cfg.restart_window_set default_restart_window

-- `exited` and `stopping` say that exitCh and stopCh are closed.
pub record Supervisor : Type 0 where
  pub cfg : Config
  pub state : State
  pub cmd : Option ℕ
  pub restarts : List ℕ
  pub intentional : Bool
  pub channel : Option ℕ
  pub exited : Bool
  pub stopping : Bool

-- New
abbrev pub new_supervisor : Config → Supervisor
new_supervisor cfg = record {
  cfg = cfg;
  state = State.idle;
  cmd = none;
  restarts = [];
  intentional = false;
  channel = none;
  exited = false;
  stopping = false;
}

pub data Effect : Type 0 where
  -- lifecycle.Stop and Process.Kill
  signal : ℕ → Effect
  kill : ℕ → Effect
  -- OnCrash, and OnChannel with core's end of the new wire
  on_crash : Effect
  on_channel : ℕ → Effect
  close_channel : ℕ → Effect

abbrev pub to_process : (ℕ → Effect) → Option ℕ → List Effect
to_process f none = []
to_process f (some p) = f p ∷ []

-- signalStop
unfoldable pub signal_stop : Supervisor → List Effect
signal_stop s = to_process signal s.cmd

-- Restart
unfoldable pub restart : Supervisor → Supervisor × List Effect
restart s = elim s.state [
  | State.running ↦ (record s { intentional = true }, signal_stop s)
  | _ ↦ (s, [])
]

-- launch: the environment starts a process over a new wire, or the launch fails and changes nothing.
unfoldable pub launch : Option (ℕ × ℕ) → Supervisor → Supervisor × List Effect
launch none s = (s, [])
launch (some (process, wire)) s = (
  record s { state = State.running; cmd = some process; channel = some wire },
  to_process close_channel s.channel ++ on_channel wire ∷ [],
)

-- Start: whether it succeeded, and with it whether the monitor runs.
unfoldable pub start : Option (ℕ × ℕ) → Supervisor → (Supervisor × List Effect) × Bool
start none s = ((s, []), false)
start (some l) s = (launch (some l) s, true)

-- Stop up to its wait.
unfoldable pub begin_stop : Supervisor → Supervisor × List Effect
begin_stop s = elim s.state [
  | State.idle ↦ (s, [])
  | _ ↦ (record s { stopping = true }, signal_stop s)
]

-- Stop from its wait on: the process has exited, or the grace period is over.
unfoldable pub end_stop : Bool → Supervisor → Supervisor × List Effect
end_stop timed_out s = (
  record s { channel = none },
  (if timed_out then to_process kill s.cmd else []) ++ to_process close_channel s.channel,
)

-- stopFreshChildIfStopping
unfoldable pub stop_fresh_child : Supervisor → List Effect
stop_fresh_child s = if s.stopping then signal_stop s else []

-- The relaunch of the monitor: a launch that fails ends the supervision.
unfoldable pub relaunch : Option (ℕ × ℕ) → Supervisor → Supervisor × List Effect
relaunch none s = (record s { state = State.failed; exited = true }, [])
relaunch (some l) s =
    let (launched, effects) = launch (some l) s in (launched, effects ++ stop_fresh_child launched)

-- The crash timestamps that lie within the window, with the new one. `rt.After(now - window)` is
-- written without the subtraction.
unfoldable pub recent : ℕ → ℕ → List ℕ → List ℕ
recent window now restarts = keep_if (λ rt. ltb now (rt + window)) restarts ++ now ∷ []

-- The branch of monitor for a crash.
unfoldable pub on_exit_crash : ℕ → Option (ℕ × ℕ) → Supervisor → Supervisor × List Effect
on_exit_crash now next s =
    let counted = record s { restarts = recent (restart_window s.cfg) now s.restarts } in
    let (again, effects) = relaunch next counted in
    if ltb (max_restarts s.cfg) (length counted.restarts)
    then (record counted { state = State.failed; exited = true }, on_crash ∷ [])
    else (again, on_crash ∷ effects)

-- The body of monitor's loop, once the process has exited.
unfoldable pub on_exit : ℕ → Option (ℕ × ℕ) → Supervisor → Supervisor × List Effect
on_exit now next s =
    if s.stopping
    then (record s { state = State.stopped; exited = true }, [])
    else if s.intentional
    then relaunch next (record s { intentional = false })
    else on_exit_crash now next s
