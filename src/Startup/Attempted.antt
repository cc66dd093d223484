-- ===== src/Startup/Attempted.antt =====
-- internal/startup/startup.go: what becomes of one activated module at its turn.
use suctl.Prelude.{
  if◌then◌else◌, String, Option, some, ◌≡◌, ◌⊎◌, inl, inr, lookup, Bool-cases, ◌∙◌, ℕ, subst,
}
use suctl.Modules.{Record, State}
use suctl.Startup.{Runtime}
use suctl.Startup.Undisturbed.{SameFlag, drifted_since_activation-SameFlag, hook_error-timeout}
use suctl.Startup.Activate.{Host, Attempt, launched, activate_with}
use suctl.Startup.Reachable.{Passes, Reached, live, activate_with-Reached}
use suctl.Startup.Boot.{Outside, drifted_since_activation, boot_listed, upgrading}

-- The hook that a start runs first: the one of an upgrade if the installed content has drifted.
abbrev pub first_hook : Outside → String → Host → String
first_hook o name h = if (drifted_since_activation o name h).0 then "pre-activate" else "on-start"

-- The module is live if each step of the attempt passed, and unavailable otherwise.
abbrev pub Tried : Outside → String → String → Record → Host → Option Record → Type 0
Tried o name event r h out =
    ((sup : ℕ) × Passes (o.attempt name) h event r sup × (out ≡ some (live (o.attempt name) sup r)))
    ⊎ ((sup : ℕ) → Passes (o.attempt name) h event r sup → ⊥)
      × ((n : Record) × (out ≡ some n) × (n.state ≡ State.unavailable))

-- The attempt starts with the hook that the flags in the given host ask for.
abbrev pub Boots : Outside → String → Record → Host → Option Record → Type 0
Boots o name r h out = Tried o name (first_hook o name h) r h out

Passes-host :
    (a : Attempt) (event : String) (r : Record) (sup : ℕ) (h k : Host)
    → Passes a h event r sup
    → Passes a k event r sup
Passes-host a event r sup h k p =
    let t = h.runtime.hook_timeout in
    let u = k.runtime.hook_timeout in
    record {
      set_up = hook_error-timeout a event u t r.manifest r.mux ∙ p.set_up;
      launches = p.launches;
      checks = p.checks;
      settles =
          hook_error-timeout a "post-activate" u t (launched a r).manifest (launched a r).mux
          ∙ p.settles;
    }

-- Whether the attempt succeeds depends on nothing in the host.
Tried-host :
    (o : Outside) (name event : String) (r : Record) (h k : Host) (out : Option Record)
    → Tried o name event r h out
    → Tried o name event r k out
Tried-host o name event r h k out (inl (sup, passes, is)) =
    inl (sup, Passes-host (o.attempt name) event r sup h k passes, is)
Tried-host o name event r h k out (inr (stops, down)) =
    inr (λ sup passes. stops sup (Passes-host (o.attempt name) event r sup k h passes), down)

pub Boots-host :
    (o : Outside) (name : String) (r : Record) (h k : Host) (out : Option Record)
    → SameFlag name h k
    → Boots o name r k out
    → Boots o name r h out
Boots-host o name r h k out same boots = Tried-host o name (first_hook o name h) r k h out (
    subst (λ drifted. Tried o name (if drifted then "pre-activate" else "on-start") r k out)
      (drifted_since_activation-SameFlag o name h k same) boots)

Reached-Tried :
    (o : Outside) (name event : String) (r : Record) (h after : Host)
    → Reached (o.attempt name) name r event h after
    → Tried o name event r h (lookup name after.runtime.modules)
Reached-Tried o name event r h after (inl (sup, passes, kept)) = inl (sup, passes, kept.own)
Reached-Tried o name event r h after (inr (stops, (n, down, kept, flags))) =
    inr (stops, (n, kept.own, down))

pub boot_listed-Boots :
    (o : Outside) (name : String) (r : Record) (h : Host)
    → Boots o name r h (lookup name (boot_listed o name r h).0.runtime.modules)
unfolding boot_listed
boot_listed-Boots o name r h = elim (Bool-cases (drifted_since_activation o name h).0) [
  | inl upgrade ↦ rw (upgrade, boot_listed) (attempted "pre-activate" (upgrading name noted h))
  | inr plain ↦ rw (plain, boot_listed) (attempted "on-start" (record h { runtime = noted }))
]
  where
    noted : Runtime
    noted = (drifted_since_activation o name h).1

    attempted :
        (event : String) (k : Host)
        → Tried o name event r h
            (lookup name (activate_with (o.attempt name) name r event k).0.runtime.modules)
    attempted event k =
        let after : Host = (activate_with (o.attempt name) name r event k).0 in
        Tried-host o name event r k h (lookup name after.runtime.modules) (
          Reached-Tried o name event r k after
            (activate_with-Reached (o.attempt name) name r event k))
