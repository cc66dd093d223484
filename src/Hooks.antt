-- ===== src/Hooks.antt =====
-- internal/hooks/hooks.go: which hook runs, in which form, and how long it may take. How a script or
-- a capability ends is not decided here: a run is its plan. Timeouts are in seconds.
use suctl.Prelude.{
  ℕ, String, ℤ, is_positive, [], ◌∷◌, Option, none, some, lookup, ◌==◌, if◌then◌else◌,
}
use suctl.Protocol.{Message, sprintf}
use suctl.Manifest.{HookDecl, Manifest}

-- What Run does: nothing, a script, a capability over a wire, or an error at once.
pub data Plan : Type 0 where
  skip : Plan
  run_exec : String → ℤ → Plan
  run_capability : String → ℕ → ℤ → Plan
  reject : Message → Plan

abbrev timeout_of : ℤ → HookDecl → ℤ
timeout_of default_timeout decl =
    if is_positive decl.timeout_seconds then decl.timeout_seconds else default_timeout

abbrev plan_capability : ℤ → String → HookDecl → Option ℕ → Plan
plan_capability default_timeout event decl none = reject (
    sprintf "hooks: %s: capability hook %q requires a running module process"
      (event ∷ decl.capability ∷ []))
plan_capability default_timeout event decl (some wire) =
    run_capability decl.capability wire (timeout_of default_timeout decl)

-- Runner.Run
unfoldable pub run : ℤ → String → Option HookDecl → Option ℕ → Plan
run default_timeout event none client = skip
run default_timeout event (some decl) client =
    if decl.exec == ""
    then if decl.capability == ""
      then reject
          (sprintf "hooks: %s: hook declaration has neither exec nor capability" (event ∷ []))
      else plan_capability default_timeout event decl client
    else run_exec decl.exec (timeout_of default_timeout decl)

-- Runner.RunHook, and Runner.RunHookAsync, which ignores the outcome.
unfoldable pub run_hook : ℤ → Option Manifest → String → Option ℕ → Plan
run_hook default_timeout none event client = skip
run_hook default_timeout (some m) event client =
    run default_timeout event (lookup event m.hooks) client

-- Runner.RunRequirementMissing; the failing requirement goes into the environment of the script.
unfoldable pub run_requirement_missing : ℤ → Option HookDecl → Plan
run_requirement_missing default_timeout none =
    reject (sprintf "hooks: on-requirement-missing: nil hook declaration" [])
run_requirement_missing default_timeout (some decl) =
    if decl.capability == ""
    then run_exec decl.exec (timeout_of default_timeout decl)
    else reject (
        sprintf "hooks: on-requirement-missing: capability form not allowed before process start"
          [])
