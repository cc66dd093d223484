-- ===== src/Manifest/Subjects.antt =====
-- sdk/manifest/manifest.go, validateSurfaces: which trees of surfaces it accepts.
use suctl.Prelude.{
  ℕ, ◌+◌, String, ◌≡◌, true, false, ◌||◌, List, [], ◌∷◌, ◌++◌, ◌↔◌, ◌⊎◌, ◌∙◌, ◌==◌, arith, eq_iff,
  inl, inr, refl, contains, contains-append, Distinct,
}
use suctl.Protocol.{Message}
use suctl.Manifest.Surfaces.{
  Surfaces, nil, surface, Header, Checked, failed, passed, andthen, validate_surfaces,
}

-- The subjects of a tree of surfaces, a surface before its drills.
abbrev pub subjects : Surfaces → List String
subjects nil = []
subjects (surface s drills rest) = s.subject ∷ subjects drills ++ subjects rest

-- Every surface of the tree names its subject and its two entries.
abbrev pub HasEntries : Surfaces → Type 0
HasEntries nil = Unit
HasEntries (surface s drills rest) =
    ((s.subject == "") ≡ false)
    × ((s.survey.entry == "") ≡ false)
    × ((s.focus_entry == "") ≡ false)
    × HasEntries drills
    × HasEntries rest

abbrev push : List String → List String → List String
push [] seen = seen
push (x ∷ xs) seen = push xs (x ∷ seen)

push-append : (xs ys seen : List String) → push (xs ++ ys) seen ≡ push ys (push xs seen)
push-append [] ys seen = refl
push-append (x ∷ xs) ys seen = push-append xs ys (x ∷ seen)

contains-push :
    (xs seen : List String) (y : String)
    → contains (push xs seen) y ≡ (contains xs y || contains seen y)
contains-push [] seen y = refl
contains-push (x ∷ xs) seen y = ground (arith, contains-push xs (x ∷ seen) y)

-- None of the texts has been seen.
abbrev Fresh : List String → List String → Type 0
Fresh seen xs = (y : String) → contains xs y ≡ true → contains seen y ≡ false

Distinct-append :
    (xs ys : List String) → (Distinct xs × Distinct ys × Fresh xs ys) ↔ Distinct (xs ++ ys)
Distinct-append [] ys = (λ h. h.1, λ h. (tt, h, λ y c. cc))
Distinct-append (x ∷ xs) ys = (
  λ h. (
    ground (arith, contains-append x xs ys, h.0.0, h.2 x, eq_iff x x),
    (Distinct-append xs ys).0 (h.0.1, h.1, λ y c. ground (arith, h.2 y)),
  ),
  λ h.
      let (a, b, c) = (Distinct-append xs ys).1 h.1 in
      (
        (ground (arith, contains-append x xs ys, h.0), a),
        b,
        λ y d. ground (arith, c y, contains-append x xs ys, eq_iff x y, h.0),
      ),
)

Checked-cases :
    (c : Checked) → ((e : Message) × (c ≡ failed e)) ⊎ ((out : List String) × (c ≡ passed out))
Checked-cases (failed e) = inl (e, refl)
Checked-cases (passed out) = inr (out, refl)

-- The surfaces that are accepted after `seen`, and what has been seen then.
record Accepted (seen out : List String) (t : Surfaces) : Type 0 where
  entries : HasEntries t
  distinct : Distinct (subjects t)
  unseen : Fresh seen (subjects t)
  all_seen : out ≡ push (subjects t) seen

-- The checks of one surface, and the walk that goes on.
record Head (i : ℕ) (s : Header) (drills rest : Surfaces) (seen out : List String) : Type 0 where
  named : (s.subject == "") ≡ false
  survey : (s.survey.entry == "") ≡ false
  focus : (s.focus_entry == "") ≡ false
  new : contains seen s.subject ≡ false
  passes :
      andthen
        (validate_surfaces 0 drills (s.subject ∷ seen))
        (λ later. validate_surfaces (i + 1) rest later)
      ≡ passed out

accepted-Head :
    (i : ℕ) (s : Header) (drills rest : Surfaces) (seen out : List String)
    → validate_surfaces i (surface s drills rest) seen ≡ passed out
    → Head i s drills rest seen out
unfolding validate_surfaces
accepted-Head i s drills rest seen out e = record {
  named = ground arith;
  survey = ground arith;
  focus = ground arith;
  new = ground arith;
  passes = ground arith;
}

Accepted-surface :
    (s : Header) (drills rest : Surfaces) (seen mid out : List String)
    → (s.subject == "") ≡ false
    → (s.survey.entry == "") ≡ false
    → (s.focus_entry == "") ≡ false
    → contains seen s.subject ≡ false
    → Accepted (s.subject ∷ seen) mid drills
    → Accepted mid out rest
    → Accepted seen out (surface s drills rest)
Accepted-surface s drills rest seen mid out a b c new below beside = record {
  entries = (a, b, c, below.entries, beside.entries);
  distinct = (
    ground (
      arith,
      eq_iff s.subject s.subject,
      below.unseen s.subject,
      beside.unseen s.subject,
      mid_seen s.subject,
      contains-append s.subject (subjects drills) (subjects rest),
    ),
    (Distinct-append (subjects drills) (subjects rest)).0
        (below.distinct, beside.distinct, λ y k. ground (arith, beside.unseen y, mid_seen y)),
  );
  unseen = λ y k. ground (
    arith,
    new,
    eq_iff s.subject y,
    below.unseen y,
    beside.unseen y,
    mid_seen y,
    contains-append y (subjects drills) (subjects rest),
  );
  all_seen = beside.all_seen ∙ rw (below.all_seen, push-append) refl;
}
  where
    mid_seen :
        (y : String)
        → contains mid y ≡ (contains (subjects drills) y || contains (s.subject ∷ seen) y)
    mid_seen y = rw below.all_seen (contains-push (subjects drills) (s.subject ∷ seen) y)

validate_surfaces-Accepted :
    (i : ℕ) (t : Surfaces) (seen out : List String)
    → validate_surfaces i t seen ≡ passed out
    → Accepted seen out t
validate_surfaces-Accepted i nil seen out e =
    let same : passed seen ≡ passed out = unfold validate_surfaces in e in
    record { entries = tt; distinct = tt; unseen = λ y c. cc; all_seen = cc }
validate_surfaces-Accepted i (surface s drills rest) seen out e =
    let g = accepted-Head i s drills rest seen out e in
    elim (Checked-cases (validate_surfaces 0 drills (s.subject ∷ seen))) [
      | inl (m, f) ↦ cc (rw f at g.passes)
      | inr (mid, f) ↦
          let below = validate_surfaces-Accepted 0 drills (s.subject ∷ seen) mid f in
          let beside = validate_surfaces-Accepted (i + 1) rest mid out (rw f at g.passes) in
          Accepted-surface s drills rest seen mid out g.named g.survey g.focus g.new below beside
    ]

Accepted-validate_surfaces :
    (i : ℕ) (t : Surfaces) (seen : List String)
    → HasEntries t
    → Distinct (subjects t)
    → Fresh seen (subjects t)
    → validate_surfaces i t seen ≡ passed (push (subjects t) seen)
unfolding validate_surfaces
Accepted-validate_surfaces i nil seen h d f = refl
Accepted-validate_surfaces i (surface s drills rest) seen (a, b, c, hd, hr) d f =
    let (dd, dr, apart) = (Distinct-append (subjects drills) (subjects rest)).1 d.1 in
    let first = Accepted-validate_surfaces 0 drills (s.subject ∷ seen) hd dd (λ y k.
      ground (
        arith,
        f y,
        d.0,
        eq_iff s.subject y,
        contains-append y (subjects drills) (subjects rest),
      )) in
    let then_ =
      Accepted-validate_surfaces (i + 1) rest (push (subjects drills) (s.subject ∷ seen)) hr dr
        (λ y k. ground (
          arith,
          f y,
          d.0,
          eq_iff s.subject y,
          apart y,
          contains-push (subjects drills) (s.subject ∷ seen) y,
          contains-append y (subjects drills) (subjects rest),
        )) in
    let new : contains seen s.subject ≡ false =
      ground (arith, f s.subject, eq_iff s.subject s.subject) in
    rw (a, b, c, new, first) (rw push-append then_)

-- A tree of surfaces is accepted exactly if every surface, drills included, names its subject and
-- its two entries, and no subject occurs twice in the whole tree.
pub validate_surfaces_iff :
    (i : ℕ) (t : Surfaces)
    → ((out : List String) × (validate_surfaces i t [] ≡ passed out))
      ↔ HasEntries t × Distinct (subjects t)
validate_surfaces_iff i t = (
  λ (out, e). let a = validate_surfaces-Accepted i t [] out e in (a.entries, a.distinct),
  λ (h, d). (push (subjects t) [], Accepted-validate_surfaces i t [] h d (λ y c. refl)),
)
