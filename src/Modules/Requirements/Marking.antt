-- ===== src/Modules/Requirements/Marking.antt =====
-- internal/module/requirements.go, EvaluateRequirements: what it does to one record, and why.
use suctl.Prelude.{
  ◌++◌, contains, contains-append, String, ◌≡◌, refl, sym, true, false, ◌==◌, List, [], ◌∷◌, Option,
  none, some, ◌⊎◌, inl, inr, arith, lookup, insert, In, Bool-cases, if◌then◌else◌,
}
use suctl.Protocol.{Message}
use suctl.Modules.{Record, Store, State, set_status, is_inert}
use suctl.Modules.Requirements.{manifest_names, settled, required_of, ready_surface, first_lacking}

-- What an evaluation does to one record: nothing, or it marks a live one unavailable for a cause.
abbrev pub Marks : (Record → Record → Type 0) → Option Record → Option Record → Type 0
Marks C none b = b ≡ none
Marks C (some r) b =
    (b ≡ some r)
    ⊎ ((q : Record) × (b ≡ some q) × (settled r ≡ false) × (q.state ≡ State.unavailable) × C r q)

pub Marks-refl : (C : Record → Record → Type 0) (a : Option Record) → Marks C a a
Marks-refl C none = refl
Marks-refl C (some r) = inl refl

pub Marks-map :
    (C D : Record → Record → Type 0)
    → ((r q : Record) → C r q → D r q)
    → (a b : Option Record) → Marks C a b
    → Marks D a b
Marks-map C D f none b m = m
Marks-map C D f (some r) b (inl e) = inl e
Marks-map C D f (some r) b (inr (q, e, live, un, c)) = inr (q, e, live, un, f r q c)

-- The record that a module has when its status is set to unavailable, since the surface lacks a
-- capability that it requires.
abbrev pub Lacks : List String → Record → Record → Type 0
Lacks surface r q =
    (cap : String) × In cap (required_of r)
    × (contains surface cap ≡ false)
    × ((why : Message) × (q ≡ set_status State.unavailable why r))

pub Lacks-shrink :
    (large small : List String)
    → ((cap : String) → contains small cap ≡ true → contains large cap ≡ true)
    → (r q : Record) → Lacks large r q
    → Lacks small r q
Lacks-shrink large small h r q (cap, l, lacks, rest) =
    (cap, l, still (Bool-cases (contains small cap)), rest)
  where
    still : (contains small cap ≡ true) ⊎ (contains small cap ≡ false) → contains small cap ≡ false
    still (inl has) = absurd (cc (h cap has, lacks))
    still (inr absent) = absent

pub first_lacking-in :
    (surface caps : List String) (cap : String)
    → first_lacking surface caps ≡ some cap
    → In cap caps × (contains surface cap ≡ false)
unfolding first_lacking
first_lacking-in surface [] cap e = cc e
first_lacking-in surface (c ∷ caps) cap e = elim (Bool-cases (contains surface c)) [
  | inl has ↦ let (l, absent) = first_lacking-in surface caps cap (rw has at e) in (inr l, absent)
  | inr lacks ↦
      let same : some c ≡ some cap = rw lacks at e in
      let here : c ≡ cap = cc same in (inl (sym here), rw (← here) lacks)
]

-- Marking a record takes its capabilities out of the ready surface and adds none.
pub ready_surface-shrinks :
    (name : String) (why : Message) (s : Store) (r : Record) (cap : String)
    → lookup name s ≡ some r
    → contains (ready_surface (insert name (set_status State.unavailable why r) s)) cap ≡ true
    → contains (ready_surface s) cap ≡ true
unfolding lookup insert ready_surface
ready_surface-shrinks name why [] r cap e h = cc
ready_surface-shrinks name why ((n, x) ∷ s) r cap e h =
    let names : List String = manifest_names x.manifest in
    let rest = insert name (set_status State.unavailable why r) s in
    elim (Bool-cases (n == name)) [
      | inl hit ↦
          let was : contains (ready_surface s) cap ≡ true = rw hit at h in
          ground (arith, was, contains-append cap names (ready_surface s))
      | inr miss ↦
          let now : contains
                (if is_inert x then ready_surface rest else names ++ ready_surface rest) cap
              ≡ true =
            rw miss at h in
          ground (
            arith,
            now,
            contains-append cap names (ready_surface s),
            contains-append cap names (ready_surface rest),
            ready_surface-shrinks name why s r cap (rw miss at e),
          )
    ]

-- A mark is final: what an evaluation marked, it does not touch again.
pub Marks-trans :
    (C : Record → Record → Type 0) (a b c : Option Record) → Marks C a b → Marks C b c → Marks C a c
Marks-trans C none b c m n = let e : b ≡ none = m in rw e at n
Marks-trans C (some r) b c (inl e) n = rw e at n
Marks-trans C (some r) b c (inr (q, e, live, un, why)) n = elim (rw e at n) [
  | inl same ↦ inr (q, same, live, un, why)
  | inr (x, f, live', un', why') ↦ absurd (final q un live')
]
  where
    final : (q : Record) → q.state ≡ State.unavailable → settled q ≡ false → ⊥
    final q un live = ground arith
