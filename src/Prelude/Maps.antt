-- ===== src/Prelude/Maps.antt =====
-- Go maps with string keys, as association lists. The list's order stands for the order in which
-- `range` visits the entries, so a theorem about every list is one about every order.
use Prim.Native.String.{String}
use mathlib.Core.Path.{◌≡◌, refl, sym}
use mathlib.Core.Option.{Option, none, some}
use mathlib.Core.List.{List, [], ◌∷◌}
use native.Mathlib.Omega.{arith}
use text.Mathlib.Text.{◌==◌}
use text.Mathlib.TextEquality.{eq_iff}
use suctl.Prelude.Tests.{if◌then◌else◌, Bool-cases}
use suctl.Prelude.Lists.{In}
use mathlib.Core.Logic.{inl, inr}

abbrev pub Dict {ℓ} : Type ℓ → Type ℓ
Dict V = List (String × V)

module _ {ℓ} {V : Type ℓ} where
  unfoldable pub lookup : String → Dict V → Option V
  lookup key [] = none
  lookup key ((name, value) ∷ rest) = if name == key then some value else lookup key rest

  -- m[k] = v
  unfoldable pub insert : String → V → Dict V → Dict V
  insert key new [] = (key, new) ∷ []
  insert key new ((name, value) ∷ rest) =
      if name == key then (name, new) ∷ rest else (name, value) ∷ insert key new rest

  -- delete(m, k)
  unfoldable pub delete : String → Dict V → Dict V
  delete key [] = []
  delete key ((name, value) ∷ rest) =
      let kept = delete key rest in if name == key then kept else (name, value) ∷ kept

  abbrev pub keys : Dict V → List String
  keys [] = []
  keys ((j, w) ∷ m) = j ∷ keys m

  -- An insertion is seen at its own key and nowhere else; a deletion likewise.
  pub lookup-insert :
      (key other : String) (new : V) (m : Dict V)
      → lookup other (insert key new m) ≡ (if key == other then some new else lookup other m)
  unfolding lookup insert
  lookup-insert key other new [] = refl
  lookup-insert key other new ((name, value) ∷ rest) = ground (
    arith,
    lookup-insert key other new rest,
    eq_iff name key,
    eq_iff name other,
    eq_iff key other,
  )

  pub lookup-delete :
      (key other : String) (m : Dict V)
      → lookup other (delete key m) ≡ (if key == other then none else lookup other m)
  unfolding lookup delete
  lookup-delete key other [] = ground arith
  lookup-delete key other ((name, value) ∷ rest) =
      ground
        (arith, lookup-delete key other rest, eq_iff name key, eq_iff name other, eq_iff key other)

  -- A key that is looked up with success is listed.
  pub in-keys : (key : String) (m : Dict V) (v : V) → lookup key m ≡ some v → In key (keys m)
  unfolding lookup
  in-keys key [] v h = cc h
  in-keys key ((name, value) ∷ rest) v h = elim (Bool-cases (name == key)) [
    | inl own ↦ inl (sym ((eq_iff name key).0 own))
    | inr other ↦ inr (in-keys key rest v (rw other at h))
  ]
