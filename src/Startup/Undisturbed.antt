-- ===== src/Startup/Undisturbed.antt =====
-- internal/startup/activate.go and startup.go: what the activation of one module leaves alone of what
-- decides how the next ones start: their flags, and how their hooks end.
use suctl.Prelude.{
  String, Bool, false, not, List, Option, none, some, ◌≡◌, refl, ◌∙◌, sym, ap, ◌⊎◌, inl, inr,
  lookup, ◌==◌, arith, Option-cases, Bool-cases, ℤ, ℕ, if◌then◌else◌,
}
use suctl.Protocol.{Message}
use suctl.Activation
use suctl.Activation.{StateDir, entries, get_checksum}
use suctl.Activation.Flags.{flag, get_checksum-eq, set_checksum-other}
use suctl.Hooks
use suctl.Hooks.{run_hook}
use suctl.Manifest.{Manifest, HookDecl}
use suctl.Modules.{Record, State}
use suctl.Startup.Activate.{
  Attempt, Host, hook_error, record_checksum, first_failure, launched, go_live, finish, refuse,
  after_launch, launch, activate_with,
}
use suctl.Startup.Boot.{Outside, drifted_since_activation, boot_listed, boot_by, boot_named}

-- The flag of a module is the same in both hosts.
abbrev pub SameFlag : String → Host → Host → Type 0
SameFlag name before after =
    lookup (flag name) (entries after.flags) ≡ lookup (flag name) (entries before.flags)

-- The verdict by what is read of the flag and what is installed.
abbrev verdict : Activation.Outcome String → Message ⊎ String → Bool
verdict (stored, some e) installed = false
verdict (stored, none) (inl e) = false
verdict (stored, none) (inr current) = if stored == "" then false else not (stored == current)

drifted_since_activation-verdict :
    (o : Outside) (name : String) (h : Host)
    → (drifted_since_activation o name h).0
      ≡ verdict (get_checksum (o.unread name) h.flags name) (o.attempt name).checksum
unfolding drifted_since_activation
drifted_since_activation-verdict o name h = ground arith

-- Whether a module counts as drifted depends on its own flag alone.
pub drifted_since_activation-SameFlag :
    (o : Outside) (name : String) (before after : Host)
    → SameFlag name before after
    → (drifted_since_activation o name after).0 ≡ (drifted_since_activation o name before).0
drifted_since_activation-SameFlag o name before after same =
    drifted_since_activation-verdict o name after
    ∙ ap (λ x. verdict x (o.attempt name).checksum)
        (get_checksum-eq (o.unread name) name after.flags before.flags same)
    ∙ sym (drifted_since_activation-verdict o name before)

record_checksum-SameFlag :
    (a : Attempt) (name other : String) (h : Host)
    → (name == other) ≡ false
    → SameFlag other h (record_checksum a name h)
unfolding record_checksum
record_checksum-SameFlag a name other h differs =
    elim a.checksum as (λ c. a.checksum ≡ c → SameFlag other h (record_checksum a name h)) [
      | inl e ↦ λ fails. rw (fails, record_checksum) refl
      | inr checksum ↦ λ computed.
          rw (computed, record_checksum)
            (set_checksum-other a.made a.written name checksum other h.flags differs)
    ]
      refl

finish-SameFlag :
    (a : Attempt) (name other : String) (r : Record) (h : Host)
    → (name == other) ≡ false
    → SameFlag other h (finish a name r h).0
unfolding finish go_live
finish-SameFlag a name other r h differs =
    elim (Option-cases (
      hook_error a "post-activate"
        (run_hook h.runtime.hook_timeout r.manifest "post-activate" r.mux))) [
          | inl fine ↦ rw (fine, finish) (record_checksum-SameFlag a name other _ differs)
          | inr (e, fails) ↦ rw (fails, finish) refl
        ]

after_launch-SameFlag :
    (a : Attempt) (sup : ℕ) (name other : String) (r : Record) (h : Host)
    → (name == other) ≡ false
    → SameFlag other h (after_launch a sup name r h).0
unfolding after_launch refuse
after_launch-SameFlag a sup name other r h differs =
    elim (Option-cases (first_failure a (launched a r))) [
      | inl passes ↦ rw (passes, after_launch) (finish-SameFlag a name other _ h differs)
      | inr (e, fails) ↦ rw (fails, after_launch) refl
    ]

launch-SameFlag :
    (a : Attempt) (started : Message ⊎ ℕ) (name other : String) (r : Record) (h : Host)
    → (name == other) ≡ false
    → SameFlag other h (launch a started name r h).0
unfolding launch refuse
launch-SameFlag a (inl e) name other r h differs = refl
launch-SameFlag a (inr sup) name other r h differs =
    after_launch-SameFlag a sup name other r h differs

activate_with-SameFlag :
    (a : Attempt) (name other : String) (r : Record) (event : String) (h : Host)
    → (name == other) ≡ false
    → SameFlag other h (activate_with a name r event h).0
unfolding activate_with refuse
activate_with-SameFlag a name other r event h differs =
    elim (Option-cases
      (hook_error a event (run_hook h.runtime.hook_timeout r.manifest event r.mux))) [
        | inl fine ↦ rw (fine, activate_with) (launch-SameFlag a a.started name other r h differs)
        | inr (e, fails) ↦ rw (fails, activate_with) refl
      ]

boot_listed-SameFlag :
    (o : Outside) (name other : String) (r : Record) (h : Host)
    → (name == other) ≡ false
    → SameFlag other h (boot_listed o name r h).0
unfolding boot_listed
boot_listed-SameFlag o name other r h differs =
    elim (Bool-cases (drifted_since_activation o name h).0) [
      | inl upgrade ↦
          rw (upgrade, boot_listed)
            (activate_with-SameFlag (o.attempt name) name other r "pre-activate" _ differs)
      | inr plain ↦
          rw (plain, boot_listed)
            (activate_with-SameFlag (o.attempt name) name other r "on-start" _ differs)
    ]

boot_by-SameFlag :
    (st : State) (o : Outside) (listed : Bool) (name other : String) (r : Record) (h : Host)
    → (name == other) ≡ false
    → SameFlag other h (boot_by st o listed name r h).0
unfolding boot_by
boot_by-SameFlag State.missing o listed name other r h differs = ground arith
boot_by-SameFlag State.unavailable o listed name other r h differs = ground arith
boot_by-SameFlag State.active o listed name other r h differs = refl
boot_by-SameFlag State.ready o listed name other r h differs =
    ground (arith, boot_listed-SameFlag o name other r h differs)
boot_by-SameFlag State.failed o listed name other r h differs =
    ground (arith, boot_listed-SameFlag o name other r h differs)

-- The turn of a module leaves the flags of the others alone.
pub boot_named-SameFlag :
    (o : Outside) (activated : List String) (name other : String) (h : Host)
    → (name == other) ≡ false
    → SameFlag other h (boot_named o activated name h).0
unfolding boot_named
boot_named-SameFlag o activated name other h differs =
    elim (Option-cases (lookup name h.runtime.modules)) [
      | inl nothing ↦ rw (nothing, boot_named) refl
      | inr (r, found) ↦
          rw (found, boot_named) (boot_by-SameFlag r.state o _ name other r h differs)
    ]

run-timeout :
    (a : Attempt) (event : String) (t u : ℤ) (decl : Option HookDecl) (client : Option ℕ)
    → hook_error a event (Hooks.run t event decl client)
      ≡ hook_error a event (Hooks.run u event decl client)
unfolding Hooks.run
run-timeout a event t u none client = refl
run-timeout a event t u (some decl) none = ground arith
run-timeout a event t u (some decl) (some wire) = ground arith

-- How a hook ends does not depend on the timeout that it is given.
pub hook_error-timeout :
    (a : Attempt) (event : String) (t u : ℤ) (m : Option Manifest) (client : Option ℕ)
    → hook_error a event (run_hook t m event client)
      ≡ hook_error a event (run_hook u m event client)
unfolding run_hook
hook_error-timeout a event t u none client = refl
hook_error-timeout a event t u (some m) client =
    run-timeout a event t u (lookup event m.hooks) client
