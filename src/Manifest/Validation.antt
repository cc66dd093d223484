-- ===== src/Manifest/Validation.antt =====
-- sdk/manifest/manifest.go, Validate: which manifests it accepts.
use suctl.Prelude.{String, ◌≡◌, ◌≢◌, true, false, List, [], ◌∷◌, ◌↔◌, ◌==◌, arith, eq_iff, refl}
use suctl.Manifest.{Manifest, supported_protocol, is_empty, validate, IsComplete}

is_empty_iff : (xs : List String) → (is_empty xs ≡ false) ↔ xs ≢ []
is_empty_iff [] = (λ h. cc, λ h. absurd (h refl))
is_empty_iff (x ∷ xs) = (λ h e. cc, λ h. refl)

blank_iff : (a : String) → ((a == "") ≡ false) ↔ a ≢ ""
blank_iff a = (λ h e. cc ((eq_iff a "").1 e), λ h. ground (arith, eq_iff a ""))

-- What the checks of Validate test.
abbrev Passes : Manifest → Type 0
Passes m =
    ((m.version == "") ≡ false)
    × ((m.protocol == supported_protocol) ≡ true)
    × (is_empty m.platform ≡ false)
    × ((m.author == "") ≡ false)
    × ((m.license == "") ≡ false)
    × ((m.description == "") ≡ false)
    × (is_empty m.entrypoint ≡ false)

validate-Passes : (m : Manifest) → validate m ≡ [] → Passes m
unfolding validate
validate-Passes m h = ground (arith, eq_iff m.protocol "", eq_iff m.protocol "1")

Passes-validate : (m : Manifest) → Passes m → validate m ≡ []
unfolding validate
Passes-validate m (a, b, c, d, e, f, g) =
    let speaks : (m.protocol == "") ≡ false = rw ((eq_iff m.protocol "1").0 b) refl in
    rw (a, b, c, d, e, f, g, speaks) refl

-- A manifest is accepted exactly if it names a version, the supported protocol, a platform, an
-- author, a license, a description and an entrypoint.
pub validate_iff : (m : Manifest) → (validate m ≡ []) ↔ IsComplete m
validate_iff m = (complete, accepted)
  where
    complete : validate m ≡ [] → IsComplete m
    complete h =
        let (a, b, c, d, e, f, g) = validate-Passes m h in
        record {
          has_version = (blank_iff m.version).0 a;
          speaks = (eq_iff m.protocol "1").0 b;
          has_platform = (is_empty_iff m.platform).0 c;
          has_author = (blank_iff m.author).0 d;
          has_license = (blank_iff m.license).0 e;
          has_description = (blank_iff m.description).0 f;
          has_entrypoint = (is_empty_iff m.entrypoint).0 g;
        }

    accepted : IsComplete m → validate m ≡ []
    accepted k = Passes-validate m (
      (blank_iff m.version).1 k.has_version,
      (eq_iff m.protocol "1").1 k.speaks,
      (is_empty_iff m.platform).1 k.has_platform,
      (blank_iff m.author).1 k.has_author,
      (blank_iff m.license).1 k.has_license,
      (blank_iff m.description).1 k.has_description,
      (is_empty_iff m.entrypoint).1 k.has_entrypoint,
    )
