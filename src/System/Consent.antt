-- ===== src/System/Consent.antt =====
-- internal/system/handlers.go: what the activation of a module asks for before it changes anything.
use suctl.Prelude.{
  String, Bool, true, false, not, ◌&&◌, ◌||◌, List, [], ◌∷◌, ◌++◌, some, lookup, ◌==◌, ◌≡◌, ◌≢◌,
  refl, ◌⊎◌, inl, inr, contains, arith, eq_iff, ◌∙◌, Bool-cases, Option-cases,
}
use suctl.Protocol.{ErrorDetail, sprintf}
use suctl.Protocol.Values.{Json}
use suctl.Activation.{StateDir}
use suctl.Activation.Sequences.{flagged}
use suctl.Manifest.{is_empty}
use suctl.Modules.{Record, is_active, is_inert}
use suctl.Modules.Footprint.{required_inactive_providers}
use suctl.Startup.Activate.{Host}
use suctl.Startup.{Effect}
use suctl.Startup.Boot.{Outside, activate_module}
use suctl.System.{
  refused, Faults, Outcome, subject_of, confirmed, activate_flags, activate_each,
  confirmation_required, activate_confirmed, module_activate_record, module_activate,
}
use suctl.System.Cascade.{
  CascadeDetail, new_cascade_error, as_cascade, as_cascade-new_cascade_error,
}
use suctl.System.Intent.{activate_flags-flagged}

-- The modules that the activation of a module brings up, in order.
abbrev pub cascade : String → Host → List String
cascade name h = required_inactive_providers h.runtime.modules name ++ name ∷ []

-- The named modules go through their lifecycles one after the other, each in the host that the one
-- before has left, and nothing else happens.
pub data BroughtUp (o : Outside) : List String → Host → Host → List Effect → Type 0 where
  none_left : (h : Host) → BroughtUp o [] h h []
  next :
      (name : String) (names : List String) (h after last : Host) (effects others : List Effect)
      → activate_module o name h ≡ (after, effects)
      → BroughtUp o names after last others
      → BroughtUp o (name ∷ names) h last (effects ++ others)

activate_each-BroughtUp :
    (o : Outside) (names : List String) (h : Host)
    → BroughtUp o names h (activate_each o names h).0 (activate_each o names h).1
unfolding activate_each
activate_each-BroughtUp o [] h = BroughtUp.none_left h
activate_each-BroughtUp o (name ∷ names) h =
    let after : Host = (activate_module o name h).0 in
    BroughtUp.next name names h after (activate_each o names after).0 (activate_module o name h).1
      (activate_each o names after).1 refl (activate_each-BroughtUp o names after)

-- The operator has seen every module that comes up: there is no other, or they were confirmed.
abbrev pub Permitted : String → Bool → Host → Type 0
Permitted name confirm h =
    (required_inactive_providers h.runtime.modules name ≡ []) ⊎ (confirm ≡ true)

-- Nothing changes; or, if the operator has seen all, a flag could not be set and no module is
-- touched, or all flags are set and then each module is brought up in order.
abbrev pub Activates : Outside → String → Bool → Host → Outcome → Type 0
Activates o name confirm h out =
    (out.1 ≡ (h, []))
    ⊎ (Permitted name confirm h
        × ((e : ErrorDetail) × (out.0 ≡ refused e))
        × (out.1.0.runtime ≡ h.runtime)
        × (out.1.1 ≡ []))
    ⊎ (Permitted name confirm h
        × ((flags : StateDir) × ((m : String)
              → flagged flags m ≡ (contains (cascade name h) m || flagged h.flags m))
            × BroughtUp o (cascade name h) (record h { flags = flags }) out.1.0 out.1.1))

activate_confirmed-Activates :
    (o : Outside) (f : Faults) (name : String) (confirm : Bool) (h : Host)
    → Permitted name confirm h
    → Activates o name confirm h
        (activate_confirmed o f name (required_inactive_providers h.runtime.modules name) h)
unfolding activate_confirmed
activate_confirmed-Activates o f name confirm h seen =
    elim (Option-cases (activate_flags f (cascade name h) h.flags).1) [
      | inr (e, fails) ↦ rw (fails, activate_confirmed) (inr (inl (seen, (_, refl), refl, refl)))
      | inl done ↦
          rw (done, activate_confirmed)
            (inr (
              inr (
                seen,
                (
                  (activate_flags f (cascade name h) h.flags).0,
                  λ m. activate_flags-flagged f (cascade name h) h.flags m done,
                  activate_each-BroughtUp o (cascade name h)
                      (record h { flags = (activate_flags f (cascade name h) h.flags).0 }),
                ),
              )))
    ]

is_empty-eq : (xs : List String) → is_empty xs ≡ true → xs ≡ []
is_empty-eq [] h = refl
is_empty-eq (x ∷ xs) h = cc

permitted_cases :
    (xs : List String) (confirm : Bool)
    → ((not (is_empty xs) && not confirm) ≡ true)
      ⊎ ((not (is_empty xs) && not confirm) ≡ false) × ((xs ≡ []) ⊎ (confirm ≡ true))
permitted_cases [] confirm = inr (refl, inl refl)
permitted_cases (x ∷ xs) true = inr (refl, inr refl)
permitted_cases (x ∷ xs) false = inl refl

module_activate_record-Activates :
    (o : Outside) (f : Faults) (confirm : Bool) (name : String) (r : Record) (h : Host)
    → Activates o name confirm h (module_activate_record o f confirm name r h)
unfolding module_activate_record
module_activate_record-Activates o f confirm name r h = elim (Bool-cases (is_inert r)) [
  | inl inert ↦ rw (inert, module_activate_record) (inl refl)
  | inr installed ↦ elim (Bool-cases (is_active r.state)) [
    | inl up ↦ rw (installed, up, module_activate_record) (inl refl)
    | inr down ↦
        elim (permitted_cases (required_inactive_providers h.runtime.modules name) confirm) [
          | inl held ↦ rw (installed, down, held, module_activate_record) (inl refl)
          | inr (goes, seen) ↦
              rw (installed, down, goes, module_activate_record)
                (activate_confirmed-Activates o f name confirm h seen)
        ]
  ]
]

-- Module.activate changes something only if no other module has to come up or the request confirms
-- the cascade. It then either answers with an error, the runtime being as before, or sets the
-- flags of the inactive required providers and of the module, no others, and takes each of them
-- through ActivateModule, the providers in their order and the module last, each in the host that
-- the one before has left.
pub module_activate-Activates :
    (o : Outside) (f : Faults) (params : Json) (h : Host)
    → Activates o (subject_of params) (confirmed params) h (module_activate o f params h)
unfolding module_activate
module_activate-Activates o f params h = elim (Bool-cases (subject_of params == "")) [
  | inl blank ↦ rw (blank, module_activate) (inl refl)
  | inr named ↦ elim (Option-cases (lookup (subject_of params) h.runtime.modules)) [
    | inl unknown ↦ rw (named, unknown, module_activate) (inl refl)
    | inr (r, known) ↦
        rw (named, known, module_activate)
          (module_activate_record-Activates o f (confirmed params) (subject_of params) r h)
  ]
]

held_record :
    (o : Outside) (f : Faults) (params : Json) (h : Host) (r : Record)
    → subject_of params ≢ ""
    → lookup (subject_of params) h.runtime.modules ≡ some r
    → module_activate o f params h
      ≡ module_activate_record o f (confirmed params) (subject_of params) r h
unfolding module_activate
held_record o f params h r named known =
    let filled : (subject_of params == "") ≡ false =
      ground (arith, named, eq_iff (subject_of params) "") in
    rw (filled, known, module_activate) refl

held_confirmation :
    (o : Outside) (f : Faults) (confirm : Bool) (name : String) (r : Record) (h : Host)
    → is_inert r ≡ false
    → is_active r.state ≡ false
    → (not (is_empty (required_inactive_providers h.runtime.modules name)) && not confirm) ≡ true
    → module_activate_record o f confirm name r h
      ≡ (confirmation_required name (required_inactive_providers h.runtime.modules name), (h, []))
unfolding module_activate_record
held_confirmation o f confirm name r h installed down held =
    rw (installed, down, held, module_activate_record) refl

-- Module.activate of a known module that is installed and not active, with required providers that
-- are not active and without a confirmation, changes nothing, and its error carries, in its
-- detail, the module and exactly these providers, which AsCascade reads back.
pub module_activate_held :
    (o : Outside) (f : Faults) (params : Json) (h : Host) (r : Record)
    → subject_of params ≢ ""
    → lookup (subject_of params) h.runtime.modules ≡ some r
    → is_inert r ≡ false
    → is_active r.state ≡ false
    → required_inactive_providers h.runtime.modules (subject_of params) ≢ []
    → confirmed params ≡ false
    → (e : ErrorDetail) × (module_activate o f params h ≡ (refused e, (h, [])))
      × (as_cascade e
          ≡ some (record {
            target = subject_of params;
            providers = required_inactive_providers h.runtime.modules (subject_of params);
          }))
module_activate_held o f params h r named known installed down more unseen =
    let providers = required_inactive_providers h.runtime.modules (subject_of params) in
    let detail : CascadeDetail = record { target = subject_of params; providers = providers } in
    let text =
      sprintf "activating %q also requires activating: %s" (subject_of params ∷ providers) in
    elim (permitted_cases providers (confirmed params)) [
      | inr (goes, inl alone) ↦ absurd (more alone)
      | inr (goes, inr seen) ↦ cc (unseen, seen)
      | inl held ↦ (
        new_cascade_error text detail,
        held_record o f params h r named known
            ∙ held_confirmation o f (confirmed params) (subject_of params) r h installed down held,
        as_cascade-new_cascade_error text detail named,
      )
    ]
