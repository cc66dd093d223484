-- ===== src/Prelude/Lists.antt =====
-- Lists over the native numbers, and membership as a predicate by recursion.
use Prim.Native.Nat.{ℕ, suc, ◌+◌}
use Prim.Native.String.{String}
use mathlib.Core.Path.{◌≡◌, refl, sym, ap}
use mathlib.Core.Logic.{◌⊎◌, inl, inr}
use mathlib.Core.Bool.{Bool, true, false, ◌||◌}
use mathlib.Core.List.{List, [], ◌∷◌, ◌++◌, reverse, reverse-cons}
use native.Mathlib.Omega.{arith}
use text.Mathlib.Text.{◌==◌}
use text.Mathlib.TextEquality.{eq_iff}
use suctl.Prelude.Tests.{if◌then◌else◌}

module _ {ℓ} {A : Type ℓ} where
  abbrev pub length : List A → ℕ
  length [] = 0
  length (x ∷ xs) = suc (length xs)

  pub length-append : (xs ys : List A) → length (xs ++ ys) ≡ length xs + length ys
  length-append [] ys = omega arith
  length-append (x ∷ xs) ys = omega (arith, length-append xs ys)

  -- The elements that pass a test, in order.
  abbrev pub keep_if : (A → Bool) → List A → List A
  keep_if p [] = []
  keep_if p (x ∷ xs) = let rest = keep_if p xs in if p x then x ∷ rest else rest

  abbrev pub any : (A → Bool) → List A → Bool
  any p [] = false
  any p (x ∷ xs) = p x || any p xs

-- `In a xs` computes to a sum, which the tactics take apart.
module _ {A : Type 0} where
  abbrev pub In : A → List A → Type 0
  In a [] = ⊥
  In a (x ∷ xs) = (a ≡ x) ⊎ In a xs

  pub in-append_left : (a : A) (xs ys : List A) → In a xs → In a (xs ++ ys)
  in-append_left a [] ys h = absurd h
  in-append_left a (x ∷ xs) ys (inl e) = inl e
  in-append_left a (x ∷ xs) ys (inr h) = inr (in-append_left a xs ys h)

  pub in-append_right : (a : A) (xs ys : List A) → In a ys → In a (xs ++ ys)
  in-append_right a [] ys h = h
  in-append_right a (x ∷ xs) ys h = inr (in-append_right a xs ys h)

  pub in-append : (a : A) (xs ys : List A) → In a (xs ++ ys) → In a xs ⊎ In a ys
  in-append a [] ys h = inr h
  in-append a (x ∷ xs) ys (inl e) = inl (inl e)
  in-append a (x ∷ xs) ys (inr h) = elim (in-append a xs ys h) [
    | inl l ↦ inl (inr l)
    | inr r ↦ inr r
  ]

-- The keys of a Go `map[string]bool` whose values are all true.
abbrev pub contains : List String → String → Bool
contains [] a = false
contains (x ∷ xs) a = x == a || contains xs a

pub contains_of_in : (a : String) (xs : List String) → In a xs → contains xs a ≡ true
contains_of_in a [] h = absurd h
contains_of_in a (x ∷ xs) (inl e) = ground (arith, eq_iff x a, sym e)
contains_of_in a (x ∷ xs) (inr h) = ground (arith, contains_of_in a xs h)

pub in_of_contains : (a : String) (xs : List String) → contains xs a ≡ true → In a xs
in_of_contains a [] h = cc
in_of_contains a (x ∷ xs) h = ground (arith, eq_iff x a, in_of_contains a xs)

-- No text stands twice in the list.
abbrev pub Distinct : List String → Type 0
Distinct [] = Unit
Distinct (x ∷ xs) = (contains xs x ≡ false) × Distinct xs

pub contains-append :
    (a : String) (xs ys : List String) → contains (xs ++ ys) a ≡ (contains xs a || contains ys a)
contains-append a [] ys = refl
contains-append a (x ∷ xs) ys = ground (arith, contains-append a xs ys)

pub append-Distinct :
    (x : String) (xs : List String) → Distinct xs → contains xs x ≡ false → Distinct (xs ++ x ∷ [])
append-Distinct x [] d h = (refl, tt)
append-Distinct x (y ∷ ys) d h = (
  ground (arith, contains-append y ys (x ∷ []), eq_iff x y, eq_iff y x),
  append-Distinct x ys d.1 (ground arith),
)

pub in-reverse : {A : Type 0} (a : A) (xs : List A) → In a xs → In a (reverse xs)
in-reverse a [] h = absurd h
in-reverse a (x ∷ xs) (inl e) = rw reverse-cons (in-append_right a (reverse xs) (x ∷ []) (inl e))
in-reverse a (x ∷ xs) (inr h) =
    rw reverse-cons (in-append_left a (reverse xs) (x ∷ []) (in-reverse a xs h))

pub length-reverse : {A : Type 0} (xs : List A) → length (reverse xs) ≡ length xs
length-reverse [] = refl
length-reverse (x ∷ xs) =
    omega
      (arith, ap length (reverse-cons x xs), length-append (reverse xs) (x ∷ []), length-reverse xs)
