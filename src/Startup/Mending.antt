-- ===== src/Startup/Mending.antt =====
-- internal/startup/requirements.go: the loop over missing requirements comes to an end.
use suctl.Prelude.{
  ℕ, zero, suc, ◌<◌, String, true, false, List, [], ◌∷◌, Option, none, some, ◌≡◌, refl, ◌⊎◌, inl,
  inr, length, arith, Option-cases, Bool-cases, ap, sym, ◌∙◌,
}
use suctl.Protocol.{Message}
use suctl.Hooks.{Plan}
use suctl.Modules.{Record, State, set_status, no_reason}
use suctl.Modules.Requirements.{
  RequirementCheck, first_missing_requirement, check_all_requirements, first_unmet,
}
use suctl.Startup.Better.{left, named, left-le, left-lt, all-Better}
use suctl.Startup.Missing.{
  Requirement, Repairs, same, fired, missing_after, run_requirement_missing_hooks,
}

-- A hook that runs mends, and breaks nothing that it finds in order.
abbrev pub Mends : Repairs → Type 0
Mends o =
    (tried : List Requirement) (now : Requirement)
    → ((x : String)
        → (o.env_after tried).on_path x ≡ true
        → (o.env_after (now ∷ tried)).on_path x ≡ true)
      × ((x : String)
          → (o.env_after tried).exists x ≡ true
          → (o.env_after (now ∷ tried)).exists x ≡ true)
      × ((x : String) → o.set_after tried x ≡ true → o.set_after (now ∷ tried) x ≡ true)

abbrev checks_after : Repairs → Record → List String → List Requirement → List RequirementCheck
checks_after o r surface tried =
    check_all_requirements (o.env_after tried) r surface none (some (o.set_after tried))

missing_after-named :
    (o : Repairs) (r : Record) (surface : List String) (tried : List Requirement)
    → missing_after o r surface tried ≡ named (first_unmet (checks_after o r surface tried))
unfolding first_missing_requirement
missing_after-named o r surface tried = elim (first_unmet (checks_after o r surface tried)) [
  | none ↦ refl
  | some c ↦ refl
]

-- The loop has come to an end, with the module ready or unavailable.
abbrev pub Ends : Record → Option Record → Type 0
Ends r out =
    (out ≡ some (set_status State.ready no_reason r))
    ⊎ ((reason : Message) × (out ≡ some (set_status State.unavailable reason r)))

fewer :
    (o : Repairs) (r : Record) (surface : List String) (tried : List Requirement)
    (type value : String)
    → Mends o
    → missing_after o r surface tried ≡ some (type, value)
    → same (type, value) (missing_after o r surface ((type, value) ∷ tried)) ≡ false
    → left (checks_after o r surface ((type, value) ∷ tried))
      < left (checks_after o r surface tried)
fewer o r surface tried type value mends lacks mended =
    let now : List Requirement = (type, value) ∷ tried in
    let (path, file, key) = mends tried (type, value) in
    left-lt (checks_after o r surface tried) (checks_after o r surface now) type value
      (all-Better (o.env_after tried) (o.env_after now) path file (o.set_after tried)
        (o.set_after now) key r surface)
      (sym (missing_after-named o r surface tried) ∙ lacks)
      (ap (same (type, value)) (sym (missing_after-named o r surface now)) ∙ mended)

-- Each round that does not end the loop leaves fewer requirements to see to.
run_requirement_missing_hooks_enough :
    (fuel : ℕ) (o : Repairs) (plan : Plan) (r : Record) (surface : List String)
    (tried : List Requirement)
    → Mends o
    → left (checks_after o r surface tried) < fuel
    → Ends r (run_requirement_missing_hooks fuel o plan r surface tried)
unfolding run_requirement_missing_hooks
run_requirement_missing_hooks_enough zero o plan r surface tried mends enough = absurd (omega arith)
run_requirement_missing_hooks_enough (suc fuel) o plan r surface tried mends enough =
    elim (Option-cases (missing_after o r surface tried)) [
      | inl all ↦ rw (all, run_requirement_missing_hooks) (inl refl)
      | inr ((type, value), lacks) ↦
          let now : List Requirement = (type, value) ∷ tried in
          rw (lacks, run_requirement_missing_hooks)
            (elim (Option-cases (fired o now plan)) [
              | inr (e, fails) ↦ rw fails (inr (_, refl))
              | inl done ↦
                  rw done (elim (Bool-cases (same (type, value) (missing_after o r surface now))) [
                    | inl still ↦ rw still (inr (_, refl))
                    | inr mended ↦ rw mended (
                        run_requirement_missing_hooks_enough fuel o plan r surface now mends (
                          omega
                            (arith, fewer o r surface tried type value mends lacks mended, enough)))
                  ])
            ])
    ]

-- If no run of the hook for missing requirements makes a binary or a path unavailable that was
-- there or takes away a configuration key that was set, the loop ends within one round for each
-- requirement and one more, with the module ready or unavailable and nothing else of the record
-- changed.
pub run_requirement_missing_hooks-Ends :
    (o : Repairs) (plan : Plan) (r : Record) (surface : List String)
    → Mends o
    → Ends r (
        run_requirement_missing_hooks
          (suc (
            length
              (check_all_requirements (o.env_after []) r surface none (some (o.set_after [])))))
          o
          plan
          r
          surface
          [])
run_requirement_missing_hooks-Ends o plan r surface mends =
    run_requirement_missing_hooks_enough (suc (length (checks_after o r surface []))) o plan r
      surface [] mends (omega (arith, left-le (checks_after o r surface [])))
