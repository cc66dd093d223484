-- ===== src/Modules/Requirements/Fixpoint.antt =====
-- internal/module/requirements.go, EvaluateRequirements: where its loop ends.
use suctl.Prelude.{
  List, ◌⊎◌, ap, suc, String, ◌≡◌, refl, sym, ◌∙◌, true, false, [], ◌∷◌, Option, none, some, inl,
  inr, arith, lookup, length, Bool-cases, Option-cases,
}
use suctl.Manifest.{Manifest}
use suctl.Modules.{Record, Store, State, set_status}
use suctl.Modules.Requirements.{
  Environment, RequirementCheck, settled, system_phase, system_record, check_manifest,
  evaluate_system_reqs, check_system_resources, first_unmet, evaluate_requirements,
  system_req_reason, ready_surface, capability_phase,
}
use suctl.Modules.Requirements.Passes.{
  live_count-length, IsStable, AllMarks, capability_phase-IsStable,
}
use suctl.Modules.Requirements.Marking.{Marks-map, Lacks, Marks, Marks-trans}

-- What the system checks say of a module.
abbrev pub unmet : Environment → Option Manifest → Option RequirementCheck
unmet env none = none
unmet env (some m) = first_unmet (check_system_resources env m.requires)

-- The record that a module has when its status is set to unavailable, since a system check fails.
abbrev pub Fails : Environment → Record → Record → Type 0
Fails env r q =
    (c : RequirementCheck) × (unmet env r.manifest ≡ some c)
    × (q ≡ set_status State.unavailable (system_req_reason c) r)

check_manifest-Marks :
    (env : Environment) (o : Option Manifest) (r : Record)
    → settled r ≡ false
    → r.manifest ≡ o
    → Marks (Fails env) (some r) (some (check_manifest env o r))
unfolding check_manifest evaluate_system_reqs
check_manifest-Marks env none r live is = inl refl
check_manifest-Marks env (some m) r live is =
    elim (Option-cases (first_unmet (check_system_resources env m.requires))) [
      | inl met ↦ inl (rw (met, evaluate_system_reqs))
      | inr (c, f) ↦ inr (
        set_status State.unavailable (system_req_reason c) r,
        rw (f, evaluate_system_reqs),
        live,
        refl,
        (c, ap (unmet env) is ∙ f, refl),
      )
    ]

check_manifest-met :
    (env : Environment) (o : Option Manifest) (r : Record)
    → settled (check_manifest env o r) ≡ false
    → unmet env o ≡ none
unfolding check_manifest evaluate_system_reqs
check_manifest-met env none r live = refl
check_manifest-met env (some m) r live =
    elim (Option-cases (first_unmet (check_system_resources env m.requires))) [
      | inl met ↦ met
      | inr (c, f) ↦ let gone : true ≡ false = rw (f, evaluate_system_reqs) at live in cc
    ]

manifest-check_manifest :
    (env : Environment) (o : Option Manifest) (r : Record)
    → (check_manifest env o r).manifest ≡ r.manifest
unfolding check_manifest evaluate_system_reqs
manifest-check_manifest env none r = refl
manifest-check_manifest env (some m) r = ground arith

system_record-Marks :
    (env : Environment) (r : Record) → Marks (Fails env) (some r) (some (system_record env r))
unfolding system_record
system_record-Marks env r = elim (Bool-cases (settled r)) [
  | inl done ↦ rw done (inl refl)
  | inr live ↦
      let m : Marks (Fails env) (some r) (some (check_manifest env r.manifest r)) =
        check_manifest-Marks env r.manifest r live refl in
      rw live (rw live at m)
]

system_record-met :
    (env : Environment) (r : Record)
    → settled (system_record env r) ≡ false
    → unmet env (system_record env r).manifest ≡ none
unfolding system_record
system_record-met env r live' = elim (Bool-cases (settled r)) [
  | inl done ↦ let old : settled r ≡ false = rw done at live' in cc
  | inr live ↦
      rw live (rw manifest-check_manifest (check_manifest-met env r.manifest r (rw live at live')))
]

abbrev seen_by : Environment → Option Record → Option Record
seen_by env none = none
seen_by env (some r) = some (system_record env r)

lookup-system_phase :
    (env : Environment) (name : String) (s : Store)
    → lookup name (system_phase env s) ≡ seen_by env (lookup name s)
unfolding lookup system_phase
lookup-system_phase env name [] = refl
lookup-system_phase env name ((n, r) ∷ s) = ground (arith, lookup-system_phase env name s)

length-system_phase : (env : Environment) (s : Store) → length (system_phase env s) ≡ length s
unfolding system_phase
length-system_phase env [] = refl
length-system_phase env ((n, r) ∷ s) = ground (arith, length-system_phase env s)

-- The record of a module after an evaluation that left it unmarked is the one that the system
-- checks passed.
Marks-live :
    (C : Record → Record → Type 0) (a b : Option Record) (r : Record)
    → Marks C a b
    → b ≡ some r
    → settled r ≡ false
    → a ≡ some r
Marks-live C none b r m e live = cc
Marks-live C (some q) b r (inl f) e live = cc
Marks-live C (some q) b r (inr (x, f, l, un, why)) e live =
    let same : x ≡ r = cc in absurd (final x un (rw (← same) at live))
  where
    final : (q : Record) → q.state ≡ State.unavailable → settled q ≡ false → ⊥
    final q un live = ground arith

met_record :
    (env : Environment) (o : Option Record) (r : Record)
    → seen_by env o ≡ some r
    → settled r ≡ false
    → unmet env r.manifest ≡ none
met_record env none r e live = cc
met_record env (some q) r e live =
    let same : system_record env q ≡ r = cc in rw same at (system_record-met env q (rw same live))

seen_by-Marks : (env : Environment) (o : Option Record) → Marks (Fails env) o (seen_by env o)
seen_by-Marks env none = refl
seen_by-Marks env (some r) = system_record-Marks env r

-- Every module that is neither active nor unavailable passes its system checks.
abbrev pub AllMet : Environment → Store → Type 0
AllMet env s =
    (name : String) (r : Record)
    → lookup name s ≡ some r
    → settled r ≡ false
    → unmet env r.manifest ≡ none

-- Why a module is marked: a system check fails, or the surface lacks what it requires.
abbrev pub Cause : Environment → List String → Record → Record → Type 0
Cause env surface r q = Fails env r q ⊎ Lacks surface r q

-- EvaluateRequirements ends within one pass for each module and one more; every module that it
-- leaves eligible passes its system checks and finds its required capabilities in the final ready
-- surface; and all it does to a record is to set the status of one that was neither active nor
-- unavailable to unavailable, either because a system check of it fails, the first of which the
-- reason names, or because it requires a capability that the final ready surface lacks.
pub evaluate_requirements_lem :
    (env : Environment) (s : Store)
    → let t = evaluate_requirements env s in
      IsStable t × AllMet env t × AllMarks (Cause env (ready_surface t)) s t
unfolding evaluate_requirements
evaluate_requirements_lem env s =
    let first = system_phase env s in
    let last = capability_phase (suc (length s)) first in
    let C = Cause env (ready_surface last) in
    let (stable, marks, shrinks) =
      capability_phase-IsStable (suc (length s)) first
        (omega (arith, live_count-length first, length-system_phase env s)) in
    (
      stable,
      (λ name r e live.
          met_record env (lookup name s) r
            (sym (lookup-system_phase env name s)
              ∙ Marks-live (Lacks (ready_surface last)) _ _ r (marks name) e live)
            live),
      λ name.
          Marks-trans C _ _ _
            (rw lookup-system_phase
              (Marks-map (Fails env) C (λ r q. inl) _ _ (seen_by-Marks env (lookup name s))))
            (Marks-map (Lacks (ready_surface last)) C (λ r q. inr) _ _ (marks name)),
    )
