-- ===== src/Tests/System.antt =====
-- The theorems on the control plane, on the scan and on the face's stream.
use suctl.Prelude.{
  String, Bool, true, false, ◌≡◌, ◌≢◌, refl, List, [], ◌∷◌, some, none, lookup, inr, ◌≤◌, length,
  pos, subst, sym, ap, ◌∙◌,
}
use suctl.Protocol.{ErrorDetail}
use suctl.Protocol.Values.{Json, Fields, get}
use suctl.Messages
use suctl.Modules.{State}
use suctl.Modules.Footprint.{required_inactive_providers, collect_inactive, visit_inactive}
use suctl.Modules.Requirements.{find_provider}
use suctl.Modules.Route.{declared, find_capability}
use suctl.Modules.Scan.{DirEntry, Disk, scan_paths}
use suctl.Modules.Scan.Walk.{all_candidates}
use suctl.Modules.Scan.Conflicts.{Verdict, found, scan_paths-Verdict}
use suctl.Startup.Activate.{Host}
use suctl.Surface.Orchestrator.{JobUpdate}
use suctl.Surface.Stream.{
  Event, happen_all, nothing_yet, delivered, kept, IsSublist, deliver-IsSublist,
}
use suctl.Activation.{Creation}
use suctl.System.{
  Faults, Answer, subject_of, confirmed, module_activate, module_deactivate, invoke_args,
}
use suctl.System.Cascade.{as_cascade}
use suctl.System.Intent.{Dropped, module_deactivate-Dropped}
use suctl.System.Consent.{Activates, module_activate-Activates, module_activate_held}
use suctl.Tests.Data.{installed, module_of, nginx, differs}
use suctl.Tests.Activation.{host, outside}

-- {"args": {"subject": name, "confirm": confirm}}
abbrev asking : String → Bool → Json
asking name confirm = Json.obj (
    Fields.field "args"
      (Json.obj (
        Fields.field "subject" (Json.str name)
          (Fields.field "confirm" (Json.bool confirm) Fields.end)))
      Fields.end)

abbrev faults : Faults
faults = record { made = λ name. none; opened = λ name. Creation.clean; removed = λ name. none }

module_deactivate-Dropped_example :
    Dropped
      (subject_of (asking "os" false))
      host
      (module_deactivate faults (asking "os" false) host)
module_deactivate-Dropped_example = module_deactivate-Dropped faults (asking "os" false) host

module_activate-Activates_example :
    Activates outside
      (subject_of (asking "certbot" true))
      (confirmed (asking "certbot" true))
      host
      (module_activate outside faults (asking "certbot" true) host)
module_activate-Activates_example =
    module_activate-Activates outside faults (asking "certbot" true) host

-- All modules are ready: nginx brings up certbot.
abbrev calm : Host
calm = record host { runtime = record host.runtime { modules = installed State.ready } }

names_nginx : subject_of (asking "nginx" false) ≡ "nginx"
unfolding subject_of invoke_args get
names_nginx = refl

brings_up : required_inactive_providers calm.runtime.modules "nginx" ≡ "certbot" ∷ []
unfolding required_inactive_providers collect_inactive visit_inactive find_provider lookup declared
    find_capability
brings_up = refl

more_than_one :
    required_inactive_providers calm.runtime.modules (subject_of (asking "nginx" false)) ≢ []
more_than_one =
    subst (λ ps. ps ≢ [])
      (sym (ap (required_inactive_providers calm.runtime.modules) names_nginx ∙ brings_up))
      (λ e. cc e)

module_activate_held_example :
    (e : ErrorDetail) × (module_activate outside faults (asking "nginx" false) calm
      ≡ (Answer.refused e, (calm, [])))
    × (as_cascade e
        ≡ some (record {
          target = subject_of (asking "nginx" false);
          providers =
              required_inactive_providers calm.runtime.modules (subject_of (asking "nginx" false));
        }))
unfolding subject_of confirmed invoke_args get lookup
module_activate_held_example =
    module_activate_held outside faults (asking "nginx" false) calm (module_of State.ready 1 nginx)
      (differs "nginx" "" refl) refl refl refl more_than_one refl

-- nginx lies under two roots, and one more directory has no manifest.
abbrev entry_of : String → DirEntry
entry_of name = record { name = name; is_dir = true; parsed = inr nginx; surface_error = none }

abbrev disk : Disk
disk = record {
  goos = "linux";
  system_path = "/usr/lib/suctl";
  third_party_path = "/opt/suctl";
  read_dir = λ root. some (entry_of "suctl-mod-nginx" ∷ []);
  exists = λ path. true;
  on_path = λ name. true;
}

scan_paths-Verdict_example :
    Verdict disk
      (found "nginx" (all_candidates disk ("/usr/lib/suctl" ∷ "/opt/suctl" ∷ [])))
      (lookup "nginx" (scan_paths disk ("/usr/lib/suctl" ∷ "/opt/suctl" ∷ [])).0)
scan_paths-Verdict_example = scan_paths-Verdict disk ("/usr/lib/suctl" ∷ "/opt/suctl" ∷ []) "nginx"

abbrev pretty : Json → String
pretty json = "{}"

abbrev tick : String → JobUpdate
tick state = record {
  token = "t1";
  params = record { state = state; message = ""; progress = pos 0; output = none; error = none };
}

abbrev traffic : List Event
traffic = Event.delivering (tick "running") ∷ Event.draining ∷ Event.delivering (tick "done") ∷ []

deliver-IsSublist_example :
    (length (happen_all traffic nothing_yet).waiting ≤ 64)
    × IsSublist (kept (happen_all traffic nothing_yet)) (delivered traffic)
    × (length (delivered traffic) ≤ 64 → kept (happen_all traffic nothing_yet) ≡ delivered traffic)
deliver-IsSublist_example = deliver-IsSublist traffic
