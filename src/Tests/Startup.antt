-- ===== src/Tests/Startup.antt =====
-- The theorems on the lifecycle coordinator, with three modules active and a job on nginx.
use suctl.Prelude.{◌≡◌, refl, [], ◌∷◌, some, none, lookup, arith, pos}
use suctl.Modules
use suctl.Modules.{State}
use suctl.Startup.{Runtime, fire, to_handle, restart_supervisor, on_health_fail, deactivate_module}
use suctl.Startup.Teardown.{Verdict, deactivate_module-Verdict}
use suctl.Startup.Episodes.{fail_times, GivenUp, episode-GivenUp}
use suctl.Tests.Data.{installed, module_of, os, first_runs}

abbrev runtime : Runtime
runtime = record {
  modules = installed State.active;
  messages = first_runs;
  health_max_restarts = 3;
  hook_timeout = pos 30;
  health_restarts = [];
  warns = [];
}

abbrev os_record : Modules.Record
os_record = module_of State.active 3 os

os_listed : lookup "os" runtime.modules ≡ some os_record
unfolding lookup
os_listed = refl

deactivate_module-Verdict_example : Verdict "os" os_record runtime (deactivate_module "os" runtime)
deactivate_module-Verdict_example = deactivate_module-Verdict "os" os_record runtime os_listed refl

no_attempts : lookup "os" runtime.health_restarts ≡ none
unfolding lookup
no_attempts = refl

episode-GivenUp_example :
    ((on_health_fail "os" (fail_times 2 "os" runtime)).1
      ≡ fire (fail_times 2 "os" runtime) "os" os_record "on-health-fail"
        ∷ to_handle restart_supervisor (some 3))
    × (lookup "os" (fail_times 3 "os" runtime).modules ≡ some os_record)
    × GivenUp "os" (on_health_fail "os" (fail_times 3 "os" runtime)).0
episode-GivenUp_example =
    episode-GivenUp "os" os_record runtime 2 os_listed refl no_attempts (omega arith)
