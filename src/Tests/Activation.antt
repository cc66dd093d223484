-- ===== src/Tests/Activation.antt =====
-- The theorems on flag files, on activation and on the start of suctl, with a module that is ready while
-- a job of another runs.
use suctl.Prelude.{
  suc, length, String, true, false, ◌≡◌, ◌≢◌, refl, List, [], ◌∷◌, some, none, Option, lookup, ◌⊎◌,
  inr, not, ◌==◌, any, arith, pos, contains,
}
use suctl.Protocol.{Message, sprintf}
use suctl.Protocol.Values.{Json}
use suctl.Activation.{
  StateDir, Entry, Creation, Writing, set_checksum, is_activated, list, flag_path,
}
use suctl.Activation.Names.{trim_space, trim_right, trim_left, is_space}
use suctl.Activation.Sequences.{Operation, apply_all, apply_names_all, no_names, list-apply_all}
use suctl.Hooks
use suctl.Hooks.{Plan, run_hook}
use suctl.Modules.{State, Record}
use suctl.Modules.Requirements.{Environment, check_all_requirements}
use suctl.Startup.{Runtime}
use suctl.Startup.Activate.{
  Attempt, Host, activate_with, first_failure, launched, roll_back, record_checksum,
}
use suctl.Startup.Rollback.{RolledBack, roll_back-RolledBack}
use suctl.Startup.Reachable.{Reached, activate_with-Reached, Abandoned, activate_with-Abandoned}
use suctl.Startup.Missing.{Requirement, Repairs, run_requirement_missing_hooks}
use suctl.Startup.Mending.{Mends, Ends, run_requirement_missing_hooks-Ends}
use suctl.Startup.Boot.{Outside, run, drifted_since_activation}
use suctl.Startup.Booted.{run-Keeps}
use suctl.Startup.Attempted.{Boots}
use suctl.Startup.Booting.{run-Boots}
use suctl.Startup.Drift.{record_checksum-drifted_since_activation}
use suctl.Tests.Data.{module_of, nginx, certbot, os, first_runs, ok_of, differs}

abbrev one_flag : StateDir
one_flag = some (("os.flag", Entry.file "0f\n") ∷ [])

abbrev operations : List Operation
operations =
    Operation.activating none Creation.clean "nginx"
    ∷ Operation.recording none Writing.clean "os" "0f"
    ∷ Operation.recording none (Writing.torn "no space left" "0") "odoo" "0f"
    ∷ Operation.activating none (Creation.denied "no space left") "certbot"
    ∷ Operation.deactivating none "nginx"
    ∷ Operation.deactivating none "system"
    ∷ []

list-apply_all_example :
    (contains (list none (apply_all operations none)).0 "os"
      ≡ apply_names_all operations no_names "os")
    × (◌≢◌ {A = String} "os" ""
        → is_activated none (apply_all operations none) "os"
          ≡ (apply_names_all operations no_names "os", none))
list-apply_all_example = list-apply_all operations "os"

-- An attempt in which all goes well, and one in which the module is too old.
abbrev decode : Option Json → Message ⊎ String
decode json = inr "1"

abbrev smooth : Attempt
smooth = record {
  hooks = λ event. none;
  started = inr 7;
  bound = some 8;
  reply = inr (ok_of "h" none);
  live_protocol = decode;
  bist = none;
  monitor = 9;
  checksum = inr "a1b2";
  made = none;
  written = Writing.clean;
}

abbrev old : Attempt
old = record smooth { live_protocol = λ json. inr "0" }

-- certbot is ready, and a job of nginx, which needs it, runs.
abbrev idle : Record
idle = record (module_of State.ready 2 certbot) { supervisor = none; monitor = none; mux = none }

abbrev runtime : Runtime
runtime = record {
  modules =
      ("nginx", module_of State.active 1 nginx)
      ∷ ("certbot", idle)
      ∷ ("os", module_of State.active 3 os)
      ∷ [];
  messages = first_runs;
  health_max_restarts = 3;
  hook_timeout = pos 30;
  health_restarts = [];
  warns = [];
}

abbrev pub host : Host
host = record { runtime = runtime; flags = one_flag }

activate_with-Reached_example :
    Reached smooth "certbot" idle "pre-activate" host
      (activate_with smooth "certbot" idle "pre-activate" host).0
activate_with-Reached_example = activate_with-Reached smooth "certbot" idle "pre-activate" host

too_old :
    first_failure old (launched old idle)
    ≡ some (sprintf "handshake: manifest mismatch: protocol %q vs %q" ("0" ∷ "1" ∷ []))
unfolding first_failure
too_old = refl

activate_with-Abandoned_example :
    Abandoned 7 "certbot" idle (activate_with old "certbot" idle "pre-activate" host)
unfolding run_hook Hooks.run lookup
activate_with-Abandoned_example =
    activate_with-Abandoned old 7 "certbot" idle "pre-activate" host
      (sprintf "handshake: manifest mismatch: protocol %q vs %q" ("0" ∷ "1" ∷ [])) refl refl too_old

abbrev hook_error_text : Message
hook_error_text = sprintf "exit status 1" []

-- certbot was launched, and its post-activate hook fails.
abbrev launched_certbot : Record
launched_certbot = record idle { supervisor = some 7; mux = some 8 }

abbrev rolling : Runtime
rolling = record runtime {
  modules = ("nginx", module_of State.active 1 nginx) ∷ ("certbot", launched_certbot) ∷ [];
}

certbot_listed : lookup "certbot" rolling.modules ≡ some launched_certbot
unfolding lookup
certbot_listed = refl

roll_back-RolledBack_example :
    RolledBack "certbot" launched_certbot hook_error_text rolling
      (roll_back "certbot" launched_certbot hook_error_text rolling)
roll_back-RolledBack_example =
    roll_back-RolledBack "certbot" launched_certbot hook_error_text rolling certbot_listed

-- A hook that installs the binary that it is fired for.
abbrev repaired : List Requirement → Environment
repaired tried = record { on_path = λ x. any (λ q. q.1 == x) tried; exists = λ x. false }

abbrev repairs : Repairs
repairs = record { env_after = repaired; set_after = λ tried key. true; hook_after = λ tried. none }

repairs-Mends : Mends repairs
repairs-Mends tried now = (λ x h. ground (arith, h), λ x h. h, λ x h. h)

run_requirement_missing_hooks-Ends_example : Ends idle (
    run_requirement_missing_hooks
      (suc (
        length (
          check_all_requirements
            (repaired [])
            idle
            ("nginx.site.add" ∷ [])
            none
            (some (λ key. true)))))
      repairs
      (Plan.run_exec "install" (pos 30))
      idle
      ("nginx.site.add" ∷ [])
      [])
run_requirement_missing_hooks-Ends_example =
    run_requirement_missing_hooks-Ends repairs (Plan.run_exec "install" (pos 30)) idle
      ("nginx.site.add" ∷ []) repairs-Mends

abbrev pub outside : Outside
outside = record {
  env = record { on_path = λ x. true; exists = λ x. true };
  is_set = λ name key. true;
  attempt = λ name. smooth;
  repairs = λ name. repairs;
  unread = λ name. none;
}

run-Keeps_example :
    lookup "certbot" (run outside ("os" ∷ []) host).0.runtime.modules
    ≡ lookup "certbot" host.runtime.modules
run-Keeps_example = run-Keeps outside ("os" ∷ []) "certbot" host refl

idle_listed : lookup "certbot" host.runtime.modules ≡ some idle
unfolding lookup
idle_listed = refl

run-Boots_example :
    Boots outside "certbot" idle host
      (lookup "certbot" (run outside ("certbot" ∷ []) host).0.runtime.modules)
run-Boots_example = run-Boots outside ("certbot" ∷ []) "certbot" host idle refl idle_listed refl

-- The next start, after an upgrade of the installed module.
abbrev upgraded : Outside
upgraded = record outside { attempt = λ name. record smooth { checksum = inr "c3d4" } }

smooth_recorded : (set_checksum none Writing.clean "certbot" "a1b2" one_flag).1 ≡ none
unfolding set_checksum flag_path lookup
smooth_recorded = refl

trimmed : trim_space "a1b2" ≡ "a1b2"
unfolding trim_right trim_left is_space
trimmed = refl

record_checksum-drifted_since_activation_example :
    (drifted_since_activation upgraded "certbot" (record_checksum smooth "certbot" host)).0
    ≡ not ("a1b2" == "c3d4")
record_checksum-drifted_since_activation_example =
    record_checksum-drifted_since_activation smooth upgraded "certbot" "a1b2" "c3d4" host
      (record_checksum smooth "certbot" host) refl smooth_recorded trimmed (differs "a1b2" "" refl)
      refl refl refl
