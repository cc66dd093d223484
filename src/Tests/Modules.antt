-- ===== src/Tests/Modules.antt =====
-- The theorems on the modules store, with nginx and certbot needing each other.
use suctl.Prelude.{◌≡◌, true, ◌==◌, ◌↔◌, contains}
use suctl.Modules.{State}
use suctl.Modules.Requirements.{Environment, ready_surface, evaluate_requirements}
use suctl.Modules.Requirements.Fixpoint.{AllMet, Cause, evaluate_requirements_lem}
use suctl.Modules.Requirements.Passes.{IsStable, AllMarks}
use suctl.Modules.Footprint.{footprint}
use suctl.Modules.Footprint.Closure.{Reaches, footprint_iff}
use suctl.Tests.Data.{installed}

-- certbot is not installed on the host.
abbrev without_certbot : Environment
without_certbot = record { on_path = λ binary. binary == "nginx"; exists = λ path. true }

evaluate_requirements_lem_example :
    let t = evaluate_requirements without_certbot (installed State.ready) in
    IsStable t
    × AllMet without_certbot t
    × AllMarks (Cause without_certbot (ready_surface t)) (installed State.ready) t
evaluate_requirements_lem_example =
    evaluate_requirements_lem without_certbot (installed State.ready)

footprint_iff_example :
    (contains (footprint (installed State.active) "nginx") "certbot" ≡ true)
    ↔ Reaches (installed State.active) "nginx" "certbot"
footprint_iff_example = footprint_iff (installed State.active) "nginx" "certbot"
