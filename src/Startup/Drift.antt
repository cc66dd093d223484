-- ===== src/Startup/Drift.antt =====
-- internal/startup/activate.go with internal/activation/activation.go: the checksum that an activation
-- records is what the next start compares with.
use suctl.Prelude.{
  String, Bool, false, not, none, ◌≡◌, ◌≢◌, ◌⊎◌, inl, inr, ◌==◌, ap, ◌∙◌, if◌then◌else◌, eq_iff,
  arith,
}
use suctl.Protocol.{Message}
use suctl.Activation.{set_checksum, get_checksum}
use suctl.Activation.Names.{trim_space}
use suctl.Activation.Flags.{set_checksum-get_checksum}
use suctl.Startup.Activate.{Attempt, Host, record_checksum}
use suctl.Startup.Boot.{Outside, drifted_since_activation}

-- The verdict by what is stored and what is installed.
abbrev drift_by : String → Message ⊎ String → Bool
drift_by stored (inl e) = false
drift_by stored (inr current) = if stored == "" then false else not (stored == current)

drifted_since_activation_read :
    (o : Outside) (name stored : String) (h : Host)
    → get_checksum (o.unread name) h.flags name ≡ (stored, none)
    → (drifted_since_activation o name h).0 ≡ drift_by stored (o.attempt name).checksum
unfolding drifted_since_activation
drifted_since_activation_read o name stored h reads =
    rw (reads, drifted_since_activation) (ground arith)

-- The flag files after an activation that computed a checksum.
record_checksum_flags :
    (a : Attempt) (name checksum : String) (h : Host)
    → a.checksum ≡ inr checksum
    → (record_checksum a name h).flags ≡ (set_checksum a.made a.written name checksum h.flags).0
unfolding record_checksum
record_checksum_flags a name checksum h computed = ground (arith, computed)

-- If an activation computes and records a checksum that is not empty and has no space around it,
-- and the flag files are the same at a later start, where the flag can be read and the installed
-- checksum computed, then the module counts as drifted exactly if the two checksums differ.
pub record_checksum-drifted_since_activation :
    (a : Attempt) (o : Outside) (name checksum current : String) (h later : Host)
    → a.checksum ≡ inr checksum
    → (set_checksum a.made a.written name checksum h.flags).1 ≡ none
    → trim_space checksum ≡ checksum
    → checksum ≢ ""
    → later.flags ≡ (record_checksum a name h).flags
    → o.unread name ≡ none
    → (o.attempt name).checksum ≡ inr current
    → (drifted_since_activation o name later).0 ≡ not (checksum == current)
record_checksum-drifted_since_activation a o name checksum current h later computed stored trimmed
      filled kept readable installed =
    let written = record_checksum_flags a name checksum h computed in
    let stored_as : get_checksum none later.flags name ≡ (checksum, none) =
      ap (λ d. get_checksum none d name) (kept ∙ written)
      ∙ (set_checksum-get_checksum a.made a.written name checksum h.flags stored).0
      ∙ ap (λ c. (c, none)) trimmed in
    let reads : get_checksum (o.unread name) later.flags name ≡ (checksum, none) =
      ap (λ e. get_checksum e later.flags name) readable ∙ stored_as in
    drifted_since_activation_read o name checksum later reads
    ∙ ap (drift_by checksum) installed
    ∙ ground (arith, eq_iff checksum "", filled)
