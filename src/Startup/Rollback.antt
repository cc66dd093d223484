-- ===== src/Startup/Rollback.antt =====
-- internal/startup/activate.go: where an activation leads, and what a failed one leaves behind.
use suctl.Prelude.{
  In, contains, in-append_left, in-append_right, ℕ, String, true, false, List, [], ◌∷◌, ◌++◌, none,
  some, ◌⊎◌, inl, inr, lookup, ◌==◌, ◌≡◌, refl, sym, ◌∙◌, ap, subst, arith, eq_iff, lookup-insert,
}
use suctl.Protocol.{Message}
use suctl.Modules.{Record, Store, State, set_status, no_reason}
use suctl.Gate.{busy}
use suctl.Messages.Jobs.{Job, running}
use suctl.Modules.Footprint.{footprint}
use suctl.Startup.{Runtime, Effect, fire, to_handle, deactivate, unload}
use suctl.Startup.Teardown.{busy_cases, unload-Unloaded, emptied}
use suctl.Startup.Activate.{
  Attempt, Host, put, current, fail_activation, record_checksum, go_live, given_up, announced,
  mark_failed, roll_back, launched,
}

-- The module's record, with every other as it was.
pub record Leaves (name : String) (r : Record) (before after : Store) : Type 0 where
  pub own : lookup name after ≡ some r
  pub others : (other : String) → (name == other) ≡ false → lookup other after ≡ lookup other before

pub put-Leaves :
    (name : String) (r : Record) (rt : Runtime) → Leaves name r rt.modules (put name r rt).modules
put-Leaves name r rt = record {
  own = ground (arith, lookup-insert name name r rt.modules, eq_iff name name);
  others = λ other differs. ground (arith, lookup-insert name other r rt.modules, differs);
}

-- The record of a module that was activated.
abbrev pub live : Attempt → ℕ → Record → Record
live a sup r = record (launched a r) {
  supervisor = some sup;
  state = State.active;
  reason = no_reason;
  monitor = some a.monitor;
}

record_checksum-modules :
    (a : Attempt) (name : String) (h : Host)
    → (record_checksum a name h).runtime.modules ≡ h.runtime.modules
unfolding record_checksum
record_checksum-modules a name h = ground arith

-- A step leaves the module unavailable, and the flag files as they were.
abbrev pub Fails : String → Host → Host → Type 0
Fails name before after =
    (r : Record) × (r.state ≡ State.unavailable)
    × Leaves name r before.runtime.modules after.runtime.modules
    × (after.flags ≡ before.flags)

pub fail_activation-Fails :
    (name : String) (r : Record) (reason : Message) (h : Host)
    → Fails name h (record h { runtime = (fail_activation name r reason h.runtime).0 })
unfolding fail_activation
fail_activation-Fails name r reason h = (
  set_status State.unavailable reason r,
  refl,
  put-Leaves name (set_status State.unavailable reason r) h.runtime,
  refl,
)

-- Two steps on one module, one after the other.
pub Leaves-then :
    (name : String) (r s : Record) (a b c : Store)
    → Leaves name r a b
    → Leaves name s b c
    → Leaves name s a c
Leaves-then name r s a b c first second = record {
  own = second.own;
  others = λ other differs. second.others other differs ∙ first.others other differs;
}

pub go_live-Leaves :
    (a : Attempt) (name : String) (r : Record) (h : Host)
    → Leaves name
        (record (set_status State.active no_reason r) { monitor = some a.monitor })
        h.runtime.modules
        (go_live a name r h).0.runtime.modules
unfolding go_live
go_live-Leaves a name r h =
    let up = record (set_status State.active no_reason r) { monitor = some a.monitor } in
    subst (Leaves name up h.runtime.modules)
      (sym (record_checksum-modules a name (record h { runtime = put name up h.runtime })))
      (put-Leaves name up h.runtime)

deactivate_free :
    (name : String) (r : Record) (rt : Runtime)
    → busy (footprint rt.modules) name (running rt.messages) ≡ none
    → (deactivate name r rt).0 ≡ unload name r rt
unfolding deactivate
deactivate_free name r rt free = rw (free, deactivate) refl

deactivate_refused :
    (name : String) (r : Record) (rt : Runtime) (token : String)
    → busy (footprint rt.modules) name (running rt.messages) ≡ some token
    → (deactivate name r rt).0 ≡ (rt, [])
unfolding deactivate
deactivate_refused name r rt token held = rw (held, deactivate) refl

current-eq :
    (name : String) (r now : Record) (rt : Runtime)
    → lookup name rt.modules ≡ some now
    → current name r rt ≡ now
current-eq name r now rt here = ap (λ found. elim found [ none ↦ r | some x ↦ x ]) here

-- What follows Deactivate, for the record that Deactivate left.
mark_failed-eq :
    (name : String) (r now : Record) (e : Message) (out : Runtime × List Effect)
    → lookup name out.0.modules ≡ some now
    → mark_failed name r e out ≡ (
      put name (given_up e now) out.0,
      out.1 ++ fire out.0 name (given_up e now) "on-activate-fail" ∷ [],
    )
unfolding mark_failed
mark_failed-eq name r now e (after, effects) here =
    ap
      (λ c. (
        put name (given_up e c) after,
        effects ++ fire after name (given_up e c) "on-activate-fail" ∷ [],
      ))
      (current-eq name r now after here)

given_up-Leaves :
    (name : String) (now : Record) (e : Message) (before : Store) (after : Runtime)
    → Leaves name now before after.modules
    → Leaves name (given_up e now) before (put name (given_up e now) after).modules
given_up-Leaves name now e before after kept =
    Leaves-then name now (given_up e now) before after.modules
      (put name (given_up e now) after).modules kept (put-Leaves name (given_up e now) after)

-- An unload stops the process that the record holds.
unload_stops :
    (name : String) (r : Record) (rt : Runtime) (h : ℕ)
    → r.supervisor ≡ some h
    → In (Effect.stop_supervisor h) (unload name r rt).1
unload_stops name r rt h holds =
    let done = unload-Unloaded name r rt in
    rw done.effects (
      in-append_right (Effect.stop_supervisor h) (to_handle Effect.stop_monitor r.monitor) _ (
        inr (
          in-append_left (Effect.stop_supervisor h) (to_handle Effect.stop_supervisor r.supervisor)
            _ (rw holds (inl refl)))))

Unloaded-Leaves :
    (name : String) (r : Record) (rt : Runtime)
    → Leaves name (emptied r) rt.modules (unload name r rt).0.modules
Unloaded-Leaves name r rt =
    let done = unload-Unloaded name r rt in
    record {
      own = ground (arith, done.modules name, eq_iff name name);
      others = λ other differs. ground (arith, done.modules other, differs);
    }

-- A rollback that no running job stands in the way of, and one that a job does.
abbrev pub RolledBack : String → Record → Message → Runtime → Runtime × List Effect → Type 0
RolledBack name r e rt out =
    (((j : Job)
        → In j (running rt.messages)
        → contains (footprint rt.modules j.module_name) name ≡ false)
      × Leaves name (given_up e (emptied r)) rt.modules out.0.modules
      × ((h : ℕ) → r.supervisor ≡ some h → In (Effect.stop_supervisor h) out.1))
    ⊎ ((j : Job) × In j (running rt.messages)
        × (contains (footprint rt.modules j.module_name) name ≡ true)
        × Leaves name (given_up e r) rt.modules out.0.modules
        × ((h : ℕ) → In (Effect.stop_supervisor h) out.1 → ⊥))

pub same_store :
    (name : String) (r : Record) (rt : Runtime)
    → lookup name rt.modules ≡ some r
    → Leaves name r rt.modules rt.modules
same_store name r rt here = record { own = here; others = λ other differs. refl }

-- A rollback of a module of the store marks it unavailable, every other record being as before. If
-- no running job covers the module, its process, monitor and wire are gone from the record and the
-- supervisor is stopped; if one does, the record keeps them and no supervisor is stopped.
pub roll_back-RolledBack :
    (name : String) (r : Record) (e : Message) (rt : Runtime)
    → lookup name rt.modules ≡ some r
    → RolledBack name r e rt (roll_back name r e rt)
unfolding roll_back
roll_back-RolledBack name r e rt here =
    let said = announced name e rt in
    elim (busy_cases (footprint rt.modules) name (running rt.messages)) [
      | inl (j, l, is, covers) ↦
          rw (deactivate_refused name r said j.token is, mark_failed-eq name r r e (said, []) here)
            (inr (
              j,
              l,
              covers,
              given_up-Leaves name r e rt.modules said (same_store name r said here),
              λ h stops. elim stops [ inl odd ↦ cc | inr nowhere ↦ absurd nowhere ],
            ))
      | inr (is, free) ↦
          rw
            (
              deactivate_free name r said is,
              mark_failed-eq name r (emptied r) e (unload name r said)
                  (Unloaded-Leaves name r said).own,
            )
            (inl (
              free,
              given_up-Leaves name (emptied r) e rt.modules (unload name r said).0
                  (Unloaded-Leaves name r said),
              λ h holds.
                  in-append_left (Effect.stop_supervisor h) (unload name r said).1 _
                    (unload_stops name r said h holds),
            ))
    ]
