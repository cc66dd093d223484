-- ===== src/Startup/Booted.antt =====
-- internal/startup/startup.go: which modules the start of suctl touches.
use suctl.Prelude.{
  String, false, List, [], ◌∷◌, Option, none, some, ◌≡◌, refl, inl, inr, lookup, ◌==◌, contains,
  arith, eq_iff, lookup-insert, Option-cases, Bool-cases, ap, ◌∙◌,
}
use suctl.Modules.{Record, Store, State}
use suctl.Startup.{Runtime}
use suctl.Startup.Activate.{Attempt, Host, activate_with}
use suctl.Startup.Reachable.{activate_with-Reached}
use suctl.Startup.Boot.{
  Outside, drifted_since_activation, boot_listed, boot_by, boot_named, mend_named, boot_all,
  settle_mended, mend_outcome, upgrading, mend_record, mend_all, run,
}

-- A module has the record that it had.
abbrev pub Keeps : String → Store → Store → Type 0
Keeps other before after = lookup other after ≡ lookup other before

activate_with-Keeps :
    (a : Attempt) (name other : String) (r : Record) (event : String) (h : Host)
    → (name == other) ≡ false
    → Keeps other h.runtime.modules (activate_with a name r event h).0.runtime.modules
activate_with-Keeps a name other r event h differs = elim (activate_with-Reached a name r event h) [
  | inl (sup, passes, kept) ↦ kept.others other differs
  | inr (stops, (now, down, kept, flags)) ↦ kept.others other differs
]

pub drifted_since_activation-modules :
    (o : Outside) (name : String) (h : Host)
    → (drifted_since_activation o name h).1.modules ≡ h.runtime.modules
unfolding drifted_since_activation
drifted_since_activation-modules o name h = ground arith

pub boot_listed-Keeps :
    (o : Outside) (name other : String) (r : Record) (h : Host)
    → (name == other) ≡ false
    → Keeps other h.runtime.modules (boot_listed o name r h).0.runtime.modules
unfolding boot_listed
boot_listed-Keeps o name other r h differs =
    let (drifted, noted) = drifted_since_activation o name h in
    let same_modules = ap (lookup other) (drifted_since_activation-modules o name h) in
    elim (Bool-cases (drifted_since_activation o name h).0) [
      | inl upgrade ↦
          rw (upgrade, boot_listed)
            (activate_with-Keeps (o.attempt name) name other r "pre-activate"
                (upgrading name noted h) differs
              ∙ same_modules)
      | inr plain ↦
          rw (plain, boot_listed)
            (activate_with-Keeps (o.attempt name) name other r "on-start"
                (record h { runtime = noted }) differs
              ∙ same_modules)
    ]

boot_by-Keeps :
    (st : State) (o : Outside) (activated : List String) (name other : String) (r : Record)
    (h : Host)
    → contains activated other ≡ false
    → Keeps other h.runtime.modules
        (boot_by st o (contains activated name) name r h).0.runtime.modules
unfolding boot_by
boot_by-Keeps State.missing o activated name other r h absent = ground arith
boot_by-Keeps State.unavailable o activated name other r h absent = ground arith
boot_by-Keeps State.active o activated name other r h absent = refl
boot_by-Keeps State.ready o activated name other r h absent =
    ground (arith, absent, boot_listed-Keeps o name other r h, eq_iff name other)
boot_by-Keeps State.failed o activated name other r h absent =
    ground (arith, absent, boot_listed-Keeps o name other r h, eq_iff name other)

pub settle_mended-Keeps :
    (name other : String) (outcome : Option Record) (rt : Runtime)
    → (name == other) ≡ false
    → Keeps other rt.modules (settle_mended name outcome rt).modules
unfolding settle_mended
settle_mended-Keeps name other none rt differs = refl
settle_mended-Keeps name other (some after) rt differs =
    ground (arith, lookup-insert name other after rt.modules, differs)

mend_record-Keeps :
    (o : Outside) (surface activated : List String) (name other : String) (r : Record)
    (rt : Runtime)
    → contains activated other ≡ false
    → Keeps other rt.modules (mend_record o surface activated name r rt).modules
unfolding mend_record
mend_record-Keeps o surface activated name other r rt absent = elim (Bool-cases (name == other)) [
  | inl own ↦
      let unlisted : contains activated name ≡ false =
        ground (arith, absent, own, eq_iff name other) in
      rw unlisted refl
  | inr differs ↦
      ground (arith, settle_mended-Keeps name other (mend_outcome o surface name r rt) rt differs)
]

boot_named-Keeps :
    (o : Outside) (activated : List String) (name other : String) (h : Host)
    → contains activated other ≡ false
    → Keeps other h.runtime.modules (boot_named o activated name h).0.runtime.modules
unfolding boot_named
boot_named-Keeps o activated name other h absent =
    elim (Option-cases (lookup name h.runtime.modules)) [
      | inl nothing ↦ rw (nothing, boot_named) refl
      | inr (r, found) ↦
          rw (found, boot_named) (boot_by-Keeps r.state o activated name other r h absent)
    ]

mend_named-Keeps :
    (o : Outside) (surface activated : List String) (name other : String) (rt : Runtime)
    → contains activated other ≡ false
    → Keeps other rt.modules (mend_named o surface activated name rt).modules
unfolding mend_named
mend_named-Keeps o surface activated name other rt absent =
    elim (Option-cases (lookup name rt.modules)) [
      | inl nothing ↦ rw (nothing, mend_named) refl
      | inr (r, found) ↦
          rw (found, mend_named) (mend_record-Keeps o surface activated name other r rt absent)
    ]

boot_all-Keeps :
    (o : Outside) (activated names : List String) (other : String) (h : Host)
    → contains activated other ≡ false
    → Keeps other h.runtime.modules (boot_all o activated names h).0.runtime.modules
unfolding boot_all
boot_all-Keeps o activated [] other h absent = refl
boot_all-Keeps o activated (name ∷ names) other h absent =
    boot_all-Keeps o activated names other (boot_named o activated name h).0 absent
    ∙ boot_named-Keeps o activated name other h absent

mend_all-Keeps :
    (o : Outside) (surface activated names : List String) (other : String) (rt : Runtime)
    → contains activated other ≡ false
    → Keeps other rt.modules (mend_all o surface activated names rt).modules
unfolding mend_all
mend_all-Keeps o surface activated [] other rt absent = refl
mend_all-Keeps o surface activated (name ∷ names) other rt absent =
    mend_all-Keeps o surface activated names other (mend_named o surface activated name rt) absent
    ∙ mend_named-Keeps o surface activated name other rt absent

-- The start of suctl leaves the record of every module that is not in the list of activated names
-- as it was: no such module is mended, activated or marked, whatever happens to the others.
pub run-Keeps :
    (o : Outside) (activated : List String) (other : String) (h : Host)
    → contains activated other ≡ false
    → Keeps other h.runtime.modules (run o activated h).0.runtime.modules
unfolding run
run-Keeps o activated other h absent =
    boot_all-Keeps o activated _ other _ absent
    ∙ mend_all-Keeps o _ activated _ other h.runtime absent
