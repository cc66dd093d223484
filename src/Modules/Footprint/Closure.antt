-- ===== src/Modules/Footprint/Closure.antt =====
-- internal/module/requirements.go, Footprint: what a footprint holds.
use suctl.Prelude.{
  ◌↔◌, ℕ, zero, suc, ◌≤◌, ◌<◌, String, ◌≡◌, refl, sym, subst, true, false, ◌||◌, ◌==◌, List, [],
  ◌∷◌, inl, inr, arith, eq_iff, contains, In, length, is_some, Bool-cases, if◌then◌else◌,
}
use suctl.Modules.{Store}
use suctl.Modules.Route.{declared}
use suctl.Modules.Requirements.{find_provider}
use suctl.Modules.Footprint.{required, visit_providers, collect_footprint, footprint}

-- `m` requires a capability that `p` provides.
pub record Needs (s : Store) (m p : String) : Type 0 where
  pub cap : String
  pub is_required : In cap (required m s)
  pub provider : find_provider cap s ≡ p
  pub found : (p == "") ≡ false

pub data Reaches (s : Store) (t : String) : String → Type 0 where
  self : Reaches s t t
  via : {m p : String} → Reaches s t m → Needs s m p → Reaches s t p

-- The entries of the store whose names are not in the list.
abbrev unseen : Store → List String → ℕ
unseen [] out = 0
unseen ((name, r) ∷ s) out = let rest = unseen s out in if contains out name then rest else suc rest

unseen-cons_le : (s : Store) (p : String) (out : List String) → unseen s (p ∷ out) ≤ unseen s out
unseen-cons_le [] p out = omega arith
unseen-cons_le ((n, r) ∷ s) p out = ground (arith, unseen-cons_le s p out)

unseen_mono :
    (s : Store) (out out' : List String)
    → ((x : String) → contains out x ≡ true → contains out' x ≡ true)
    → unseen s out' ≤ unseen s out
unseen_mono [] out out' h = omega arith
unseen_mono ((n, r) ∷ s) out out' h = ground (arith, h n, unseen_mono s out out' h)

-- A provider is a module of the store, so visiting a new one leaves fewer unseen.
unseen-provider :
    (cap : String) (s : Store) (out : List String)
    → (find_provider cap s == "") ≡ false
    → contains out (find_provider cap s) ≡ false
    → unseen s (find_provider cap s ∷ out) < unseen s out
unfolding find_provider
unseen-provider cap [] out named fresh = absurd (cc named)
unseen-provider cap ((n, r) ∷ s) out named fresh = elim (Bool-cases (is_some (declared cap r))) [
  | inl here ↦ rw here (ground (arith, here, fresh, eq_iff n n, unseen-cons_le s n out))
  | inr later ↦
      rw later (
        ground
          (arith, later, unseen-provider cap s out, unseen-cons_le s (find_provider cap s) out))
]

unseen-length : (s : Store) (out : List String) → unseen s out ≤ length s
unseen-length [] out = omega arith
unseen-length ((n, r) ∷ s) out = ground (arith, unseen-length s out)

module _ (s : Store) where
  -- From `out` to `out'`: nothing is lost, and what is new has its providers in place.
  record Extends (out out' : List String) : Type 0 where
    keeps : (x : String) → contains out x ≡ true → contains out' x ≡ true
    closed :
        (x p : String)
        → contains out' x ≡ true
        → contains out x ≡ false
        → Needs s x p
        → contains out' p ≡ true

  Extends-refl : (out : List String) → Extends out out
  Extends-refl out = record { keeps = λ x c. c; closed = λ x p c d. cc }

  Extends-trans : (a b c : List String) → Extends a b → Extends b c → Extends a c
  Extends-trans a b c f g = record {
    keeps = λ x i. g.keeps x (f.keeps x i);
    closed = λ x p i o n. elim (Bool-cases (contains b x)) [
      | inl mid ↦ g.keeps p (f.closed x p mid o n)
      | inr new ↦ g.closed x p i new n
    ];
  }

  abbrev Providers : List String → List String → Type 0
  Providers caps out =
      (cap : String)
      → In cap caps
      → (find_provider cap s == "") ≡ false
      → contains out (find_provider cap s) ≡ true

  module _ (visit : String → List String → List String) (fuel : ℕ)
      (spec : (name : String) (out : List String)
        → unseen s out < fuel
        → Extends out (visit name out) × Providers (required name s) (visit name out)) where
    -- A visit of a new provider closes it too.
    step-Extends :
        (p : String) (out : List String)
        → contains out p ≡ false
        → unseen s (p ∷ out) < fuel
        → Extends out (visit p (p ∷ out)) × (contains (visit p (p ∷ out)) p ≡ true)
    step-Extends p out fresh le = (
      record {
        keeps = λ x c. done.0.keeps x (ground (arith));
        closed = λ x q i o n. elim (Bool-cases (p == x)) [
          | inl same ↦ own q (subst (λ y. Needs s y q) (sym ((eq_iff p x).0 same)) n)
          | inr other ↦ done.0.closed x q i (rw other o) n
        ];
      },
      done.0.keeps p (ground (arith, eq_iff p p)),
    )
      where
        done : Extends (p ∷ out) (visit p (p ∷ out)) × Providers (required p s) (visit p (p ∷ out))
        done = spec p (p ∷ out) le

        own : (q : String) → Needs s p q → contains (visit p (p ∷ out)) q ≡ true
        own q n = rw n.provider at (done.1 n.cap n.is_required (rw n.provider n.found))

    visit-Extends :
        (caps out : List String)
        → unseen s out < suc fuel
        → Extends out (visit_providers visit s caps out)
          × Providers caps (visit_providers visit s caps out)
    unfolding visit_providers
    visit-Extends [] out le = (Extends-refl out, λ cap h. absurd h)
    visit-Extends (cap ∷ caps) out le =
        elim (Bool-cases (find_provider cap s == "" || contains out (find_provider cap s))) [
          | inl skip ↦
              rw (skip, visit_providers)
                (together out (Extends-refl out) (λ named. ground arith)
                  (visit-Extends caps out le))
          | inr go ↦
              rw (go, visit_providers)
                (let step =
                    step-Extends (find_provider cap s) out (ground arith)
                      (omega (arith, unseen-provider cap s out (ground arith) (ground arith))) in
                  together (visit (find_provider cap s) (find_provider cap s ∷ out)) step.0
                    (λ named. step.1)
                    (visit-Extends caps (visit (find_provider cap s) (find_provider cap s ∷ out)) (
                      omega (
                        arith,
                        unseen_mono s out (visit (find_provider cap s) (find_provider cap s ∷ out))
                            step.0.keeps,
                      ))))
        ]
      where
        together :
            (next : List String)
            → Extends out next
            → ((find_provider cap s == "") ≡ false → contains next (find_provider cap s) ≡ true)
            → Extends next (visit_providers visit s caps next)
              × Providers caps (visit_providers visit s caps next)
            → Extends out (visit_providers visit s caps next)
              × Providers (cap ∷ caps) (visit_providers visit s caps next)
        together next step head rest = (Extends-trans out next _ step rest.0, both)
          where
            both : Providers (cap ∷ caps) (visit_providers visit s caps next)
            both k (inl e) named = rest.0.keeps _ (rw e (head (rw e at named)))
            both k (inr l) named = rest.1 k l named

  collect-Extends :
      (fuel : ℕ) (name : String) (out : List String)
      → unseen s out < fuel
      → Extends out (collect_footprint fuel s name out)
        × Providers (required name s) (collect_footprint fuel s name out)
  unfolding collect_footprint
  collect-Extends zero name out le = absurd (omega arith)
  collect-Extends (suc fuel) name out le =
      visit-Extends (collect_footprint fuel s) fuel (collect-Extends fuel) (required name s) out le

  -- A property that is inherited from a module by what it needs holds throughout the footprint.
  module _ (P : String → Type 0) (inherits : (m p : String) → P m → Needs s m p → P p) where
    abbrev AllHold : List String → Type 0
    AllHold out = (x : String) → contains out x ≡ true → P x

    visit-AllHold :
        (visit : String → List String → List String)
        → ((name : String) (out : List String) → P name → AllHold out → AllHold (visit name out))
        → (name : String) → P name
        → (caps out : List String) → ((cap : String) → In cap caps → In cap (required name s))
        → AllHold out
        → AllHold (visit_providers visit s caps out)
    unfolding visit_providers
    visit-AllHold visit spec name hn [] out sub h = h
    visit-AllHold visit spec name hn (cap ∷ caps) out sub h =
        elim (Bool-cases (find_provider cap s == "" || contains out (find_provider cap s))) [
          | inl skip ↦
              rw (skip, visit_providers)
                (visit-AllHold visit spec name hn caps out (λ c l. sub c (inr l)) h)
          | inr go ↦
              rw (go, visit_providers)
                (visit-AllHold visit spec name hn caps _ (λ c l. sub c (inr l))
                  (spec (find_provider cap s) (find_provider cap s ∷ out) (new go) (λ x c.
                    elim (Bool-cases (find_provider cap s == x)) [
                      | inl same ↦ subst P ((eq_iff _ x).0 same) (new go)
                      | inr other ↦ h x (rw other at c)
                    ])))
        ]
      where
        new :
            (find_provider cap s == "" || contains out (find_provider cap s)) ≡ false
            → P (find_provider cap s)
        new go = inherits name _ hn (record {
          cap = cap;
          is_required = sub cap (inl refl);
          provider = refl;
          found = ground arith;
        })

    collect-AllHold :
        (fuel : ℕ) (name : String) (out : List String)
        → P name
        → AllHold out
        → AllHold (collect_footprint fuel s name out)
    unfolding collect_footprint
    collect-AllHold zero name out hn h = h
    collect-AllHold (suc fuel) name out hn h =
        visit-AllHold (collect_footprint fuel s) (collect-AllHold fuel) name hn (required name s)
          out (λ c l. l) h

-- A module is in the footprint of a target exactly if the target reaches it by requiring
-- capabilities that the next module provides; cycles are no exception, and the fuel is enough.
pub footprint_iff : (s : Store) (t m : String) → (contains (footprint s t) m ≡ true) ↔ Reaches s t m
unfolding footprint
footprint_iff s t m = (sound, complete m)
  where
    whole : Extends s (t ∷ []) (footprint s t) × Providers s (required t s) (footprint s t)
    whole = collect-Extends s (suc (length s)) t (t ∷ []) (omega (arith, unseen-length s (t ∷ [])))

    sound : contains (footprint s t) m ≡ true → Reaches s t m
    sound =
        collect-AllHold s (Reaches s t) (λ x p r n. Reaches.via r n) (suc (length s)) t (t ∷ [])
          Reaches.self (λ x c. subst (Reaches s t) ((eq_iff t x).0 (ground arith)) Reaches.self) m

    first : (x : String) → Needs s t x → contains (footprint s t) x ≡ true
    first x n = rw n.provider at (whole.1 n.cap n.is_required (rw n.provider n.found))

    complete : (x : String) → Reaches s t x → contains (footprint s t) x ≡ true
    complete x Reaches.self = whole.0.keeps t (ground (arith, eq_iff t t))
    complete x (Reaches.via {m = y} r n) = elim (Bool-cases (t == y)) [
      | inl same ↦ first x (subst (λ z. Needs s z x) (sym ((eq_iff t y).0 same)) n)
      | inr other ↦ whole.0.closed y x (complete y r) (rw other) n
    ]
