-- ===== src/System/Visibility.antt =====
-- internal/system/jobs.go and messages.go: what a module may see of the work of others.
use suctl.Prelude.{ℕ, String, List, some, ◌≡◌, ◌≢◌, ◌⊎◌}
use suctl.Messages.{Record, Store, find_record}
use suctl.Messages.Jobs.{Job}
use suctl.Modules
use suctl.Surface.{Subject}
use suctl.System.Exchanges.{job_owner, exchange_row}

-- A job that the caller may see.
abbrev pub MaySee : String → Job → Type 0
MaySee caller j = (caller ≡ "") ⊎ (j.module_name ≡ caller)

-- An exchange that the caller may see: the face sees all, a module those of its own jobs.
abbrev pub MayRead : String → Store → Record → Type 0
MayRead caller s m = (caller ≡ "") ⊎ (job_owner m.request.job_token s ≡ caller)

-- A row of the survey of exchanges is of one that the store has, of the asked token if one is asked
-- for, and the caller may read it.
abbrev pub Listed : ℕ → String → String → Store → Subject → Type 0
Listed now caller scope s row =
    (m : Record) × (row ≡ exchange_row now m)
    × ((id : String) × (find_record id s ≡ some m))
    × (scope ≢ "" → m.request.job_token ≡ scope)
    × MayRead caller s m
