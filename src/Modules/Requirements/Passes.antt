-- ===== src/Modules/Requirements/Passes.antt =====
-- internal/module/requirements.go, EvaluateRequirements: the passes of its second phase.
use suctl.Prelude.{
  contains, ℕ, zero, suc, ◌≤◌, ◌<◌, String, ◌≡◌, refl, sym, Bool, true, false, ◌||◌, ◌==◌, List, [],
  ◌∷◌, none, some, inl, inr, arith, eq_iff, lookup, insert, lookup-insert, keys, In, length,
  Bool-cases, Option-cases, if◌then◌else◌,
}
use suctl.Protocol.{Message}
use suctl.Modules.{Record, Store, State, set_status}
use suctl.Modules.Requirements.{
  settled, required_of, ready_surface, first_lacking, lacking_reason, pass_record, pass,
  capability_phase,
}
use suctl.Modules.Requirements.Marking.{
  Marks, Marks-refl, Marks-map, Marks-trans, Lacks, Lacks-shrink, first_lacking-in,
  ready_surface-shrinks,
}

-- The entries that an evaluation may still mark.
abbrev live_count : Store → ℕ
live_count [] = 0
live_count ((n, r) ∷ s) = let rest = live_count s in if settled r then rest else suc rest

pub live_count-length : (s : Store) → live_count s ≤ length s
live_count-length [] = omega arith
live_count-length ((n, r) ∷ s) = ground (arith, live_count-length s)

live_count-insert :
    (name : String) (why : Message) (s : Store) (r : Record)
    → lookup name s ≡ some r
    → settled r ≡ false
    → suc (live_count (insert name (set_status State.unavailable why r) s)) ≡ live_count s
unfolding lookup insert
live_count-insert name why [] r e h = cc
live_count-insert name why ((n, x) ∷ s) r e h = elim (Bool-cases (n == name)) [
  | inl hit ↦ let same : x ≡ r = (ground (arith, hit)) in rw hit (rw (same, h) refl)
  | inr miss ↦ rw miss (ground (arith, live_count-insert name why s r (ground (arith, miss)) h))
]

-- One record of a pass: it changes nothing, or it marks a live record.
data PassRecord (surface : List String) (name : String) (s : Store) : Store × Bool → Type 0 where
  kept :
      ((r : Record)
        → lookup name s ≡ some r
        → settled r ≡ false
        → first_lacking surface (required_of r) ≡ none)
      → PassRecord surface name s (s, false)
  marked :
      (r : Record) (why : Message) (cap : String)
      → lookup name s ≡ some r
      → settled r ≡ false
      → first_lacking surface (required_of r) ≡ some cap
      → PassRecord surface name s (insert name (set_status State.unavailable why r) s, true)

pass_record-PassRecord :
    (surface : List String) (name : String) (s : Store)
    → PassRecord surface name s (pass_record surface name s)
unfolding pass_record
pass_record-PassRecord surface name s = elim (Option-cases (lookup name s)) [
  | inl e ↦ rw (e, pass_record) (kept (λ r f h. cc))
  | inr (r, e) ↦ elim (Bool-cases (settled r)) [
    | inl done ↦
        rw (e, pass_record)
          (rw done (
            kept (λ q f h.
              let same : r ≡ q = cc in let old : settled q ≡ true = rw same at done in cc)))
    | inr live ↦ elim (Option-cases (first_lacking surface (required_of r))) [
      | inl fits ↦
          rw (e, pass_record)
            (rw (live, fits) (kept (λ q f h. let same : r ≡ q = cc in rw same at fits)))
      | inr (lack, lacks) ↦
          rw (e, pass_record)
            (rw (live, lacks) (marked r (lacking_reason lack s) lack e live lacks))
    ]
  ]
]

Marks-insert :
    (C : Record → Record → Type 0) (name : String) (why : Message) (s : Store) (r : Record)
    → lookup name s ≡ some r
    → settled r ≡ false
    → C r (set_status State.unavailable why r)
    → (j : String)
    → Marks C (lookup j s) (lookup j (insert name (set_status State.unavailable why r) s))
Marks-insert C name why s r e h c j = elim (Bool-cases (name == j)) [
  | inl hit ↦ rw lookup-insert (
      rw hit (
        rw (rw ((eq_iff name j).0 hit) at e)
          (inr (set_status State.unavailable why r, refl, h, refl, c))))
  | inr miss ↦ rw lookup-insert (rw miss (Marks-refl C (lookup j s)))
]

-- A pass: what it does to the records, to the number of live ones, and what no change means.
record Passes (surface names : List String) (s : Store) (out : Store × Bool) : Type 0 where
  marks : (j : String) → Marks (Lacks surface) (lookup j s) (lookup j out.0)
  shrinks :
      (cap : String)
      → contains (ready_surface out.0) cap ≡ true
      → contains (ready_surface s) cap ≡ true
  fewer : out.1 ≡ true → live_count out.0 < live_count s
  no_more : live_count out.0 ≤ live_count s
  same : out.1 ≡ false → out.0 ≡ s
  fits :
      out.1 ≡ false
      → (name : String) (r : Record) → In name names
      → lookup name s ≡ some r
      → settled r ≡ false
      → first_lacking surface (required_of r) ≡ none

pass-Passes :
    (surface names : List String) (s : Store) → Passes surface names s (pass surface names s)
unfolding pass
pass-Passes surface [] s = record {
  marks = λ j. Marks-refl (Lacks surface) (lookup j s);
  shrinks = λ cap h. h;
  fewer = λ h. cc;
  no_more = omega arith;
  same = λ h. refl;
  fits = λ h name r l e live. absurd l;
}
pass-Passes surface (name ∷ names) s =
    go (pass_record surface name s) (pass_record-PassRecord surface name s)
      (pass-Passes surface names)
  where
    go :
        (one : Store × Bool)
        → PassRecord surface name s one
        → ((t : Store) → Passes surface names t (pass surface names t))
        → Passes surface
            (name ∷ names)
            s
            ((pass surface names one.0).0, one.1 || (pass surface names one.0).1)
    go one (kept ok) ih = record {
      marks = (ih s).marks;
      shrinks = (ih s).shrinks;
      fewer = (ih s).fewer;
      no_more = (ih s).no_more;
      same = (ih s).same;
      fits = λ h x r l e live. elim l [
        | inl here ↦ ok r (rw here at e) live
        | inr there ↦ (ih s).fits h x r there e live
      ];
    }
    go one (marked r why cap e live lacks) ih =
        let t = insert name (set_status State.unavailable why r) s in
        record {
          marks = λ j.
              Marks-trans (Lacks surface) _ _ _
                (Marks-insert (Lacks surface) name why s r e live
                  (
                    cap,
                    (first_lacking-in surface (required_of r) cap lacks).0,
                    (first_lacking-in surface (required_of r) cap lacks).1,
                    (why, refl),
                  )
                  j)
                ((ih t).marks j);
          shrinks = λ c h. ready_surface-shrinks name why s r c e ((ih t).shrinks c h);
          fewer = λ h. omega (arith, live_count-insert name why s r e live, (ih t).no_more);
          no_more = omega (arith, live_count-insert name why s r e live, (ih t).no_more);
          same = λ h. cc;
          fits = λ h. cc;
        }

in-keys : (name : String) (s : Store) (r : Record) → lookup name s ≡ some r → In name (keys s)
unfolding lookup
in-keys name [] r e = cc
in-keys name ((n, x) ∷ s) r e = elim (Bool-cases (n == name)) [
  | inl hit ↦ inl (sym ((eq_iff n name).0 hit))
  | inr miss ↦ inr (in-keys name s r (rw miss at e))
]

-- Every module that may still be activated has its required capabilities in the ready surface.
abbrev pub IsStable : Store → Type 0
IsStable s =
    (name : String) (r : Record)
    → lookup name s ≡ some r
    → settled r ≡ false
    → first_lacking (ready_surface s) (required_of r) ≡ none

abbrev pub AllMarks : (Record → Record → Type 0) → Store → Store → Type 0
AllMarks C s t = (name : String) → Marks C (lookup name s) (lookup name t)

-- The second phase ends with a stable store, and marks only modules that lack in that store's ready
-- surface what they require.
pub capability_phase-IsStable :
    (fuel : ℕ) (s : Store)
    → live_count s < fuel
    → IsStable (capability_phase fuel s)
      × AllMarks (Lacks (ready_surface (capability_phase fuel s))) s (capability_phase fuel s)
      × ((cap : String)
          → contains (ready_surface (capability_phase fuel s)) cap ≡ true
          → contains (ready_surface s) cap ≡ true)
unfolding capability_phase
capability_phase-IsStable zero s le = absurd (omega arith)
capability_phase-IsStable (suc fuel) s le =
    let p = pass-Passes (ready_surface s) (keys s) s in
    let next = (pass (ready_surface s) (keys s) s).0 in
    let last = ready_surface (capability_phase fuel next) in
    elim (Bool-cases (pass (ready_surface s) (keys s) s).1) [
      | inl changed ↦
          rw (changed, capability_phase)
            (let (stable, marks, shrinks) =
                capability_phase-IsStable fuel next (omega (arith, p.fewer changed)) in
              let grows : (cap : String)
                  → contains last cap ≡ true
                  → contains (ready_surface s) cap ≡ true =
                λ cap h. p.shrinks cap (shrinks cap h) in
              (
                stable,
                (λ name.
                    Marks-trans (Lacks last) _ _ _
                      (Marks-map (Lacks (ready_surface s)) (Lacks last)
                        (Lacks-shrink (ready_surface s) last grows) _ _ (p.marks name))
                      (marks name)),
                grows,
              ))
      | inr still ↦
          rw (still, capability_phase)
            (rw (p.same still) (
              (λ name r e live. p.fits still name r (in-keys name s r e) e live),
              (λ name. Marks-refl (Lacks (ready_surface s)) (lookup name s)),
              (λ cap h. h),
            ))
    ]
