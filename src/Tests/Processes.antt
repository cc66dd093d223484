-- ===== src/Tests/Processes.antt =====
-- The theorems on one module's process, its health monitor and its wire.
use suctl.Prelude.{
  List, String, ◌≡◌, refl, true, false, [], ◌∷◌, ◌++◌, some, none, inr, arith, pos, In, lookup,
  insert, ◌==◌, if◌then◌else◌,
}
use suctl.Health.{Monitor, on_fail, unhealthy, check, run_checks}
use suctl.Health.Escalation.{all_unhealthy, escalates}
use suctl.Supervisor.{State, Supervisor, on_exit}
use suctl.Supervisor.Restarts
use suctl.Supervisor.Restarts.{on_exit-Inv, intentional_restart, stop_wins, relaunch_delivers_stop}
use suctl.Wire.{Mux, new_mux, begin_round_trip, deliver, fail, result, refused, error}
use suctl.Protocol.{sprintf}
use suctl.Client.{new_wire}
use suctl.Client.Mirror.{Event, AllNamed, Mirrors, client_run, core_run, client_run-Mirrors}
use suctl.Wire.Calls.{deliver_once, fail_releases}
use suctl.Tests.Data.{invoke_of, ok_of}

-- A module that runs and has crashed once, 10 before.
abbrev supervised : Supervisor
supervised = record {
  cfg = record { max_restarts_set = pos 0; restart_window_set = pos 0 };
  state = State.running;
  cmd = some 7;
  restarts = 90 ∷ [];
  intentional = false;
  channel = some 3;
  exited = false;
  stopping = false;
}

supervised-Inv : Restarts.Inv supervised
supervised-Inv = record { ended = λ h. cc; going = λ h. inr refl; guarded = λ h. omega arith }

on_exit-Inv_example : Restarts.Inv (on_exit 100 (some (8, 4)) supervised).0
on_exit-Inv_example = on_exit-Inv 100 (some (8, 4)) supervised refl supervised-Inv

abbrev calm : Monitor
calm = record { fail_threshold = 3; failures = 0; fail_fired = false }

escalates_example :
    (run_checks (all_unhealthy 2) calm ≡ (record calm { failures = 2 }, []))
    × (check unhealthy (record calm { failures = 2 })
        ≡ (record calm { failures = 0; fail_fired = true }, on_fail ∷ []))
escalates_example = escalates 2 calm refl

-- One call waits on its response.
abbrev one_call : Mux
one_call =
    (begin_round_trip 5 "" "2026-01-01T00:00:00Z" (invoke_of "r1" "t1" "os.svc.list") new_mux).0

-- A call that is answered, one that is given up, and one that the broken wire releases.
abbrev both_ends : List Event
both_ends =
    Event.begins 1 "n1" (invoke_of "r1" "t1" "os.svc.list")
    ∷ Event.begins 2 "n2" (invoke_of "r2" "t1" "os.svc.list")
    ∷ Event.begins 3 "n3" (invoke_of "r3" "t1" "os.svc.list")
    ∷ Event.delivers (ok_of "r1" none)
    ∷ Event.forgets "r2"
    ∷ Event.breaks (sprintf "EOF" []) "EOF"
    ∷ []

both_ends-AllNamed : AllNamed both_ends
both_ends-AllNamed = (λ e. cc e, (λ e. cc e, (λ e. cc e, tt)))

client_run-Mirrors_example : Mirrors (client_run both_ends new_wire) (core_run both_ends new_mux)
client_run-Mirrors_example = client_run-Mirrors both_ends both_ends-AllNamed

one_call_waits : lookup "r1" one_call.pending ≡ some 5
unfolding lookup begin_round_trip insert
one_call_waits = refl

deliver_once_example :
    ((deliver (ok_of "r1" none) one_call).received
      ≡ one_call.received ++ (5, some (ok_of "r1" none)) ∷ [])
    × ((id : String)
        → lookup id (deliver (ok_of "r1" none) one_call).pending
          ≡ (if "r1" == id then none else lookup id one_call.pending))
    × (deliver (ok_of "r1" none) (deliver (ok_of "r1" none) one_call)
        ≡ deliver (ok_of "r1" none) one_call)
deliver_once_example =
    deliver_once (ok_of "r1" none) (ok_of "r1" none) one_call 5 one_call_waits refl

one_call_unbroken : one_call.err ≡ none
unfolding begin_round_trip
one_call_unbroken = refl

fail_releases_example :
    let broken = fail "late" (fail "EOF" one_call) in
    (broken.err ≡ some "EOF")
    × In (5, none) broken.received
    × (begin_round_trip 6 "r9" "" (invoke_of "r2" "t2" "os.svc.list") broken
        ≡ (broken, refused "EOF"))
    × (result none broken ≡ error "EOF")
unfolding begin_round_trip insert fail result
fail_releases_example =
    fail_releases "EOF" "late" one_call "r1" 5 "r9" "" (invoke_of "r2" "t2" "os.svc.list")
      one_call_unbroken one_call_waits
