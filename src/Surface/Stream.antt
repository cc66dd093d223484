-- ===== src/Surface/Stream.antt =====
-- internal/surface/orchestrator.go: the stream of reports between the broker and the face.
use suctl.Prelude.{
  ◌≤◌, ◌+◌, suc, List, [], ◌∷◌, ◌++◌, ◌⊎◌, inl, inr, length, length-append, ltb, ◌≡◌, refl, sym, ap,
  ◌∙◌, subst, arith, Bool-cases,
}
use mathlib.Core.List.{append_assoc, append-nil}
use suctl.Surface.Orchestrator.{JobUpdate, updates_buffer, deliver}

pub data Event : Type 0 where
  delivering : JobUpdate → Event
  draining : Event

-- The reports that the face has read, and those that wait.
pub record Face : Type 0 where
  pub seen : List JobUpdate
  pub waiting : List JobUpdate

-- A read by the face; it blocks where nothing waits.
abbrev drain : List JobUpdate → List JobUpdate → Face
drain seen [] = record { seen = seen; waiting = [] }
drain seen (u ∷ us) = record { seen = seen ++ u ∷ []; waiting = us }

pub happen : Event → Face → Face
unfolding deliver
happen (Event.delivering u) f = record f { waiting = deliver u f.waiting }
happen Event.draining f = drain f.seen f.waiting

pub happen_all : List Event → Face → Face
happen_all [] f = f
happen_all (e ∷ es) f = happen_all es (happen e f)

pub delivered : List Event → List JobUpdate
delivered [] = []
delivered (Event.delivering u ∷ es) = u ∷ delivered es
delivered (Event.draining ∷ es) = delivered es

-- The reports of the first list, in the order of the second, where some may be left out.
abbrev pub IsSublist : List JobUpdate → List JobUpdate → Type 0
IsSublist [] ys = Unit
IsSublist (x ∷ xs) [] = ⊥
IsSublist (x ∷ xs) (y ∷ ys) = ((x ≡ y) × IsSublist xs ys) ⊎ IsSublist (x ∷ xs) ys

skip_one : (xs ys : List JobUpdate) (y : JobUpdate) → IsSublist xs ys → IsSublist xs (y ∷ ys)
skip_one [] ys y h = tt
skip_one (x ∷ xs) ys y h = inr h

IsSublist-refl : (xs : List JobUpdate) → IsSublist xs xs
IsSublist-refl [] = tt
IsSublist-refl (x ∷ xs) = inl (refl, IsSublist-refl xs)

IsSublist-append : (xs ys zs : List JobUpdate) → IsSublist xs ys → IsSublist (xs ++ zs) (ys ++ zs)
IsSublist-append [] [] zs h = IsSublist-refl zs
IsSublist-append [] (y ∷ ys) zs h = skip_one zs (ys ++ zs) y (IsSublist-append [] ys zs tt)
IsSublist-append (x ∷ xs) [] zs h = absurd h
IsSublist-append (x ∷ xs) (y ∷ ys) zs (inl (e, h)) = inl (e, IsSublist-append xs ys zs h)
IsSublist-append (x ∷ xs) (y ∷ ys) zs (inr h) = inr (IsSublist-append (x ∷ xs) ys zs h)

IsSublist-trans : (xs ys zs : List JobUpdate) → IsSublist xs ys → IsSublist ys zs → IsSublist xs zs
IsSublist-trans [] ys zs h k = tt
IsSublist-trans (x ∷ xs) [] zs h k = absurd h
IsSublist-trans (x ∷ xs) (y ∷ ys) [] h k = absurd k
IsSublist-trans (x ∷ xs) (y ∷ ys) (z ∷ zs) (inl (e, h)) (inl (f, k)) =
    inl (e ∙ f, IsSublist-trans xs ys zs h k)
IsSublist-trans (x ∷ xs) (y ∷ ys) (z ∷ zs) (inr h) (inl (f, k)) =
    inr (IsSublist-trans (x ∷ xs) ys zs h k)
IsSublist-trans (x ∷ xs) (y ∷ ys) (z ∷ zs) h (inr k) =
    inr (IsSublist-trans (x ∷ xs) (y ∷ ys) zs h k)

IsSublist-prefix : (xs ys : List JobUpdate) → IsSublist xs (xs ++ ys)
IsSublist-prefix [] ys = tt
IsSublist-prefix (x ∷ xs) ys = inl (refl, IsSublist-prefix xs ys)

drain-kept :
    (seen waiting : List JobUpdate)
    → (drain seen waiting).seen ++ (drain seen waiting).waiting ≡ seen ++ waiting
drain-kept seen [] = refl
drain-kept seen (u ∷ us) = append_assoc seen (u ∷ []) us

drain-waiting :
    (seen waiting : List JobUpdate)
    → length waiting ≤ updates_buffer
    → length (drain seen waiting).waiting ≤ updates_buffer
drain-waiting seen [] h = h
drain-waiting seen (u ∷ us) h = omega arith

-- All reports that have not been dropped.
abbrev pub kept : Face → List JobUpdate
kept f = f.seen ++ f.waiting

happen-kept : (e : Event) (f : Face) → IsSublist (kept (happen e f)) (kept f ++ delivered (e ∷ []))
unfolding happen deliver delivered
happen-kept (Event.delivering u) f = elim (Bool-cases (ltb (length f.waiting) updates_buffer)) [
  | inl room ↦
      rw (room, deliver)
        (subst (IsSublist (f.seen ++ (f.waiting ++ u ∷ [])))
          (sym (append_assoc f.seen f.waiting (u ∷ [])))
          (IsSublist-refl (f.seen ++ (f.waiting ++ u ∷ []))))
  | inr full ↦ rw (full, deliver) (IsSublist-prefix (f.seen ++ f.waiting) (u ∷ []))
]
happen-kept Event.draining f =
    subst (λ xs. IsSublist xs (kept f ++ [])) (sym (drain-kept f.seen f.waiting))
      (IsSublist-prefix (f.seen ++ f.waiting) [])

happen-waiting :
    (e : Event) (f : Face)
    → length f.waiting ≤ updates_buffer
    → length (happen e f).waiting ≤ updates_buffer
unfolding happen deliver
happen-waiting (Event.delivering u) f h = ground (arith, h, length-append f.waiting (u ∷ []))
happen-waiting Event.draining f h = drain-waiting f.seen f.waiting h

delivered-append :
    (e : Event) (es : List Event) → delivered (e ∷ []) ++ delivered es ≡ delivered (e ∷ es)
unfolding delivered
delivered-append (Event.delivering u) es = refl
delivered-append Event.draining es = refl

happen_all-kept :
    (es : List Event) (f : Face) → IsSublist (kept (happen_all es f)) (kept f ++ delivered es)
unfolding happen_all
happen_all-kept [] f = unfold delivered in IsSublist-prefix (kept f) []
happen_all-kept (e ∷ es) f =
    IsSublist-trans (kept (happen_all es (happen e f))) (kept (happen e f) ++ delivered es)
      (kept f ++ delivered (e ∷ es)) (happen_all-kept es (happen e f))
      (subst (IsSublist (kept (happen e f) ++ delivered es))
        (append_assoc (kept f) (delivered (e ∷ [])) (delivered es)
          ∙ ap (λ xs. kept f ++ xs) (delivered-append e es))
        (IsSublist-append (kept (happen e f)) (kept f ++ delivered (e ∷ [])) (delivered es)
          (happen-kept e f)))

happen_all-waiting :
    (es : List Event) (f : Face)
    → length f.waiting ≤ updates_buffer
    → length (happen_all es f).waiting ≤ updates_buffer
unfolding happen_all
happen_all-waiting [] f h = h
happen_all-waiting (e ∷ es) f h = happen_all-waiting es (happen e f) (happen-waiting e f h)

abbrev pub nothing_yet : Face
nothing_yet = record { seen = []; waiting = [] }

-- As long as there is room for all, none is dropped.
happen_all-roomy :
    (es : List Event) (f : Face)
    → length (kept f) + length (delivered es) ≤ 64
    → kept (happen_all es f) ≡ kept f ++ delivered es
unfolding happen_all delivered
happen_all-roomy [] f h = sym (append-nil (kept f))
happen_all-roomy (Event.delivering u ∷ es) f h =
    let now : kept (happen (Event.delivering u) f) ≡ kept f ++ u ∷ [] =
      delivering-roomy u f (omega (arith, h)) in
    happen_all-roomy es (happen (Event.delivering u) f)
      (rw now (omega (arith, h, length-append (kept f) (u ∷ []))))
    ∙ ap (λ xs. xs ++ delivered es) now
    ∙ append_assoc (kept f) (u ∷ []) (delivered es)
  where
    delivering-roomy :
        (u : JobUpdate) (f : Face)
        → suc (length (kept f)) ≤ 64
        → kept (happen (Event.delivering u) f) ≡ kept f ++ u ∷ []
    delivering-roomy u f h = elim (Bool-cases (ltb (length f.waiting) updates_buffer)) [
      | inl room ↦
          unfold happen deliver in rw (room, deliver) (sym (append_assoc f.seen f.waiting (u ∷ [])))
      | inr full ↦ absurd (ground (arith, full, h, length-append f.seen f.waiting))
    ]
happen_all-roomy (Event.draining ∷ es) f h =
    let now : kept (happen Event.draining f) ≡ kept f =
      unfold happen in drain-kept f.seen f.waiting in
    happen_all-roomy es (happen Event.draining f) (rw now h) ∙ ap (λ xs. xs ++ delivered es) now

-- Over any sequence of deliveries and reads of a fresh stream, no more than 64 reports wait, and
-- those read and those waiting are, in order, among the delivered ones, each at most once; if no
-- more than 64 are delivered, they are all of them.
pub deliver-IsSublist :
    (es : List Event)
    → (length (happen_all es nothing_yet).waiting ≤ 64)
      × IsSublist (kept (happen_all es nothing_yet)) (delivered es)
      × (length (delivered es) ≤ 64 → kept (happen_all es nothing_yet) ≡ delivered es)
deliver-IsSublist es = (
  happen_all-waiting es nothing_yet (omega arith),
  happen_all-kept es nothing_yet,
  λ few. happen_all-roomy es nothing_yet (omega (arith, few)),
)
