-- ===== src/Startup/Booting.antt =====
-- internal/startup/startup.go: what becomes of an activated module when suctl starts.
use suctl.Prelude.{
  String, Bool, true, false, List, [], ◌∷◌, Option, some, ◌≡◌, refl, ◌⊎◌, inl, inr, lookup, ◌==◌,
  contains, keys, contains_of_in, sort-in, in-keys, arith, eq_iff, Option-cases, Bool-cases, ap,
  ◌∙◌, sym, subst,
}
use suctl.Modules.{Record, State, is_unavailable, sorted_keys}
use suctl.Startup.{Runtime}
use suctl.Modules.Requirements.{pending_surface}
use suctl.Startup.Undisturbed.{boot_named-SameFlag}
use suctl.Startup.Activate.{Host}
use suctl.Startup.Reachable.{live}
use suctl.Startup.Boot.{
  Outside, boot_listed, boot_by, boot_named, mend_named, boot_all, mend_outcome, mend_record,
  mend_all, run,
}
use suctl.Startup.Attempted.{Boots, boot_listed-Boots, Boots-host}
use suctl.Startup.Booted.{Keeps, boot_listed-Keeps, settle_mended-Keeps}

-- A module that is up or unavailable is passed over.
abbrev Stays : State → Type 0
Stays st = (st ≡ State.active) ⊎ (st ≡ State.unavailable)

abbrev Settled : Record → Type 0
Settled r = Stays r.state

boot_by-Stays :
    (st : State) (o : Outside) (listed : Bool) (name : String) (r : Record) (h : Host)
    → Stays st
    → Keeps name h.runtime.modules (boot_by st o listed name r h).0.runtime.modules
unfolding boot_by
boot_by-Stays State.missing o listed name r h (inl e) = cc
boot_by-Stays State.missing o listed name r h (inr e) = cc
boot_by-Stays State.unavailable o listed name r h stays = ground arith
boot_by-Stays State.active o listed name r h stays = refl
boot_by-Stays State.ready o listed name r h (inl e) = cc
boot_by-Stays State.ready o listed name r h (inr e) = cc
boot_by-Stays State.failed o listed name r h (inl e) = cc
boot_by-Stays State.failed o listed name r h (inr e) = cc

boot_by_ready :
    (st : State) (o : Outside) (listed : Bool) (name : String) (r : Record) (h : Host)
    → st ≡ State.ready
    → listed ≡ true
    → boot_by st o listed name r h ≡ boot_listed o name r h
unfolding boot_by
boot_by_ready State.ready o listed name r h is on = rw on refl
boot_by_ready State.missing o listed name r h is on = cc
boot_by_ready State.unavailable o listed name r h is on = cc
boot_by_ready State.active o listed name r h is on = cc
boot_by_ready State.failed o listed name r h is on = cc

ready_up : (st : State) → st ≡ State.ready → is_unavailable st ≡ false
ready_up st is = ap is_unavailable is

Boots-Settled :
    (o : Outside) (name : String) (r : Record) (h : Host) (out : Option Record)
    → Boots o name r h out
    → (n : Record) × (out ≡ some n) × Settled n
Boots-Settled o name r h out (inl (sup, passes, is)) = (live (o.attempt name) sup r, is, inl refl)
Boots-Settled o name r h out (inr (stops, (n, is, down))) = (n, is, inr down)

boot_by-other :
    (st : State) (o : Outside) (listed : Bool) (name other : String) (r : Record) (h : Host)
    → (name == other) ≡ false
    → Keeps other h.runtime.modules (boot_by st o listed name r h).0.runtime.modules
unfolding boot_by
boot_by-other State.missing o listed name other r h differs = ground arith
boot_by-other State.unavailable o listed name other r h differs = ground arith
boot_by-other State.active o listed name other r h differs = refl
boot_by-other State.ready o listed name other r h differs =
    ground (arith, boot_listed-Keeps o name other r h differs)
boot_by-other State.failed o listed name other r h differs =
    ground (arith, boot_listed-Keeps o name other r h differs)

boot_named-other :
    (o : Outside) (activated : List String) (name other : String) (h : Host)
    → (name == other) ≡ false
    → Keeps other h.runtime.modules (boot_named o activated name h).0.runtime.modules
unfolding boot_named
boot_named-other o activated name other h differs =
    elim (Option-cases (lookup name h.runtime.modules)) [
      | inl nothing ↦ rw (nothing, boot_named) refl
      | inr (r, found) ↦
          rw (found, boot_named)
            (boot_by-other r.state o (contains activated name) name other r h differs)
    ]

boot_named-Settled :
    (o : Outside) (activated : List String) (name : String) (h : Host) (r : Record)
    → lookup name h.runtime.modules ≡ some r
    → Settled r
    → Keeps name h.runtime.modules (boot_named o activated name h).0.runtime.modules
unfolding boot_named
boot_named-Settled o activated name h r found settled =
    rw (found, boot_named)
      (boot_by-Stays r.state o (contains activated name) name r h settled ∙ found)

boot_all-Settled :
    (o : Outside) (activated names : List String) (name : String) (h : Host) (r : Record)
    → lookup name h.runtime.modules ≡ some r
    → Settled r
    → Keeps name h.runtime.modules (boot_all o activated names h).0.runtime.modules
unfolding boot_all
boot_all-Settled o activated [] name h r found settled = refl
boot_all-Settled o activated (x ∷ names) name h r found settled =
    boot_all-Settled o activated names name (boot_named o activated x h).0 r (same ∙ found) settled
    ∙ same
  where
    same : Keeps name h.runtime.modules (boot_named o activated x h).0.runtime.modules
    same = elim (Bool-cases (x == name)) [
      | inl own ↦
          subst (λ y. Keeps name h.runtime.modules (boot_named o activated y h).0.runtime.modules)
            (sym ((eq_iff x name).0 own)) (boot_named-Settled o activated name h r found settled)
      | inr differs ↦ boot_named-other o activated x name h differs
    ]

boot_named-Boots :
    (o : Outside) (activated : List String) (name : String) (h : Host) (r : Record)
    → contains activated name ≡ true
    → lookup name h.runtime.modules ≡ some r
    → r.state ≡ State.ready
    → Boots o name r h (lookup name (boot_named o activated name h).0.runtime.modules)
unfolding boot_named
boot_named-Boots o activated name h r listed found ready =
    rw (found, boot_named)
      (subst (λ out. Boots o name r h (lookup name out.0.runtime.modules))
        (sym (boot_by_ready r.state o (contains activated name) name r h ready listed))
        (boot_listed-Boots o name r h))

-- The turn of an activated module that is ready comes.
boot_all-Boots :
    (o : Outside) (activated names : List String) (name : String) (h : Host) (r : Record)
    → contains activated name ≡ true
    → contains names name ≡ true
    → lookup name h.runtime.modules ≡ some r
    → r.state ≡ State.ready
    → Boots o name r h (lookup name (boot_all o activated names h).0.runtime.modules)
unfolding boot_all
boot_all-Boots o activated [] name h r listed here found ready = cc here
boot_all-Boots o activated (x ∷ names) name h r listed here found ready =
    elim (Bool-cases (x == name)) [
      | inl own ↦
          let first : Boots o name r h
              (lookup name (boot_named o activated x h).0.runtime.modules) =
            subst
              (λ y. Boots o name r h (lookup name (boot_named o activated y h).0.runtime.modules))
              (sym ((eq_iff x name).0 own))
              (boot_named-Boots o activated name h r listed found ready) in
          let (n, is, settled) = Boots-Settled o name r h _ first in
          subst (Boots o name r h)
            (sym
              (boot_all-Settled o activated names name (boot_named o activated x h).0 n is settled))
            first
      | inr differs ↦
          Boots-host o name r h (boot_named o activated x h).0 _
            (boot_named-SameFlag o activated x name h differs)
            (boot_all-Boots o activated names name (boot_named o activated x h).0 r listed
              (ground (arith, here, differs))
              (boot_named-other o activated x name h differs ∙ found) ready)
    ]

-- A module that is ready is not mended.
mend_named-ready :
    (o : Outside) (surface activated : List String) (x name : String) (r : Record) (rt : Runtime)
    → lookup name rt.modules ≡ some r
    → r.state ≡ State.ready
    → Keeps name rt.modules (mend_named o surface activated x rt).modules
unfolding mend_named mend_record
mend_named-ready o surface activated x name r rt found ready = elim (Bool-cases (x == name)) [
  | inl own ↦
      subst (λ y. Keeps name rt.modules (mend_named o surface activated y rt).modules)
        (sym ((eq_iff x name).0 own))
        (rw (found, mend_named) (ground (arith, ready_up r.state ready)))
  | inr differs ↦ elim (Option-cases (lookup x rt.modules)) [
    | inl nothing ↦ rw (nothing, mend_named) refl
    | inr (q, other) ↦
        rw (other, mend_named)
          (ground (arith, settle_mended-Keeps x name (mend_outcome o surface x q rt) rt differs))
  ]
]

mend_all-ready :
    (o : Outside) (surface activated names : List String) (name : String) (r : Record)
    (rt : Runtime)
    → lookup name rt.modules ≡ some r
    → r.state ≡ State.ready
    → lookup name (mend_all o surface activated names rt).modules ≡ some r
unfolding mend_all
mend_all-ready o surface activated [] name r rt found ready = found
mend_all-ready o surface activated (x ∷ names) name r rt found ready =
    mend_all-ready o surface activated names name r (mend_named o surface activated x rt)
      (mend_named-ready o surface activated x name r rt found ready ∙ found) ready

-- At the start of suctl each activated module that the scan left ready is attempted: the attempt
-- starts with the hook of an upgrade if the flag files as they are before the start tell that the
-- installed content has drifted, and with the one of an ordinary start if not; after the start the
-- module is active, with its supervisor, wire and monitor, exactly if every step of the attempt
-- passes, and otherwise it is unavailable.
pub run-Boots :
    (o : Outside) (activated : List String) (name : String) (h : Host) (r : Record)
    → contains activated name ≡ true
    → lookup name h.runtime.modules ≡ some r
    → r.state ≡ State.ready
    → Boots o name r h (lookup name (run o activated h).0.runtime.modules)
unfolding run
run-Boots o activated name h r listed found ready =
    let surface = pending_surface h.runtime.modules in
    let names = sorted_keys h.runtime.modules in
    let mended : Host = record h { runtime = mend_all o surface activated names h.runtime } in
    Boots-host o name r h mended _ refl (
      boot_all-Boots o activated names name mended r listed
        (contains_of_in name names
          (sort-in _ name (keys h.runtime.modules) (in-keys name h.runtime.modules r found)))
        (mend_all-ready o surface activated names name r h.runtime found ready) ready)
