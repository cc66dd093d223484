-- ===== src/Prelude/Sort.antt =====
-- sort.Slice, as a stable insertion sort.
use mathlib.Core.Bool.{Bool}
use mathlib.Core.Path.{◌≡◌, refl}
use mathlib.Core.Logic.{◌⊎◌, inl, inr}
use mathlib.Core.List.{List, [], ◌∷◌}
use native.Mathlib.Omega.{arith}
use suctl.Prelude.Tests.{if◌then◌else◌, Bool-cases}
use suctl.Prelude.Lists.{In}

module _ {A : Type 0} (before : A → A → Bool) where
  unfoldable pub sort_insert : A → List A → List A
  sort_insert x [] = x ∷ []
  sort_insert x (y ∷ ys) = if before y x then y ∷ sort_insert x ys else x ∷ y ∷ ys

  unfoldable pub sort : List A → List A
  unfolding sort_insert
  sort [] = []
  sort (x ∷ xs) = sort_insert x (sort xs)

  in-sort_insert : (a x : A) (ys : List A) → In a (sort_insert x ys) → (a ≡ x) ⊎ In a ys
  unfolding sort_insert
  in-sort_insert a x [] h = h
  in-sort_insert a x (y ∷ ys) h = ground (arith, in-sort_insert a x ys)

  -- Sorting makes up no element.
  pub in-sort : (a : A) (xs : List A) → In a (sort xs) → In a xs
  unfolding sort
  in-sort a [] h = h
  in-sort a (x ∷ xs) h = elim (in-sort_insert a x (sort xs) h) [
    | inl e ↦ inl e
    | inr r ↦ inr (in-sort a xs r)
  ]

  sort_insert-own : (x : A) (ys : List A) → In x (sort_insert x ys)
  unfolding sort_insert
  sort_insert-own x [] = inl refl
  sort_insert-own x (y ∷ ys) = elim (Bool-cases (before y x)) [
    | inl later ↦ rw later (inr (sort_insert-own x ys))
    | inr here ↦ rw here (inl refl)
  ]

  sort_insert-in : (a x : A) (ys : List A) → In a ys → In a (sort_insert x ys)
  unfolding sort_insert
  sort_insert-in a x [] h = absurd h
  sort_insert-in a x (y ∷ ys) h = elim (Bool-cases (before y x)) [
    | inl later ↦ rw later (elim h [ inl e ↦ inl e | inr r ↦ inr (sort_insert-in a x ys r) ])
    | inr here ↦ rw here (inr h)
  ]

  -- Sorting loses no element.
  pub sort-in : (a : A) (xs : List A) → In a xs → In a (sort xs)
  unfolding sort
  sort-in a [] h = absurd h
  sort-in a (x ∷ xs) (inl e) = rw e (sort_insert-own x (sort xs))
  sort-in a (x ∷ xs) (inr r) = sort_insert-in a x (sort xs) (sort-in a xs r)
