-- ===== src/Activation/Flags.antt =====
-- internal/activation/activation.go: what one operation leaves for the others to see.
use suctl.Prelude.{
  Bool-cases, Option-cases, inl, inr, String, true, false, none, some, Dict, lookup, insert,
  if◌then◌else◌, ◌==◌, ◌≡◌, refl, ◌≢◌, arith, eq_iff, lookup-insert,
}
use text.Mathlib.TextLemmas.{append_cancel_right}
use suctl.Activation.{
  Entry, Fault, Writing, StateDir, entries, flag_path, is_activated, get_checksum, set_checksum,
}
use suctl.Activation.Names.{◌++ₛ◌, trim_space, trim_right-append_newline}

-- Two names have one flag file only if they are one name.
pub flag-eq : (m n : String) → ((m ++ₛ ".flag") == (n ++ₛ ".flag")) ≡ (m == n)
flag-eq m n =
    ground
      (arith, eq_iff m n, eq_iff (m ++ₛ ".flag") (n ++ₛ ".flag"), append_cancel_right m n ".flag")

abbrev pub flag : String → String
flag name = name ++ₛ ".flag"

pub lookup-flag :
    (name other : String) (new : Entry) (es : Dict Entry)
    → lookup (flag other) (insert (flag name) new es)
      ≡ (if name == other then some new else lookup (flag other) es)
lookup-flag name other new es =
    rw (lookup-insert (flag name) (flag other) new es, flag-eq name other) refl

pub lookup-flag_own :
    (name : String) (new : Entry) (es : Dict Entry)
    → lookup (flag name) (insert (flag name) new es) ≡ some new
lookup-flag_own name new es = ground (arith, lookup-flag name name new es, eq_iff name name)

-- A recording that succeeds leaves the old entries with the new content.
recorded :
    (made : Fault) (written : Writing) (name checksum : String) (dir : StateDir)
    → (set_checksum made written name checksum dir).1 ≡ none
    → ((name == "") ≡ false)
      × ((set_checksum made written name checksum dir).0
          ≡ some (insert (flag name) (Entry.file (checksum ++ₛ "\n")) (entries dir)))
unfolding set_checksum flag_path
recorded (some e) written name checksum dir h = ground (arith, h)
recorded none (Writing.denied e) name checksum dir h = ground (arith, h)
recorded none (Writing.torn e left) name checksum dir h =
    elim (Option-cases (lookup (flag name) (entries dir))) [
      | inl new ↦ ground arith
      | inr (Entry.file old, found) ↦ ground arith
      | inr (Entry.directory, found) ↦ ground arith
    ]
recorded none Writing.clean name checksum dir h = elim (Bool-cases (name == "")) [
  | inl blank ↦ ground arith
  | inr named ↦ elim (Option-cases (lookup (flag name) (entries dir))) [
    | inl new ↦ (named, ground arith)
    | inr (Entry.file old, found) ↦ (named, ground arith)
    | inr (Entry.directory, found) ↦ ground arith
  ]
]

-- Reading depends on the one entry alone.
pub get_checksum-eq :
    (e : Fault) (name : String) (a b : StateDir)
    → lookup (flag name) (entries a) ≡ lookup (flag name) (entries b)
    → get_checksum e a name ≡ get_checksum e b name
unfolding get_checksum flag_path
get_checksum-eq (some e) name a b h = elim (Bool-cases (name == "")) [
  | inl blank ↦ rw (blank, get_checksum, flag_path) refl
  | inr named ↦ rw (named, get_checksum, flag_path) refl
]
get_checksum-eq none name a b h = elim (Bool-cases (name == "")) [
  | inl blank ↦ rw (blank, get_checksum, flag_path) refl
  | inr named ↦ rw (named, h, get_checksum, flag_path) refl
]

-- A recording, however it ends, leaves the flags of the other names alone.
pub set_checksum-other :
    (made : Fault) (written : Writing) (name checksum other : String) (dir : StateDir)
    → (name == other) ≡ false
    → lookup (flag other) (entries (set_checksum made written name checksum dir).0)
      ≡ lookup (flag other) (entries dir)
unfolding set_checksum flag_path
set_checksum-other (some e) written name checksum other dir differs = ground arith
set_checksum-other none (Writing.denied e) name checksum other dir differs = ground arith
set_checksum-other none (Writing.torn e left) name checksum other dir differs =
    ground (arith, differs, lookup-flag name other (Entry.file left) (entries dir))
set_checksum-other none Writing.clean name checksum other dir differs =
    ground (arith, differs, lookup-flag name other (Entry.file (checksum ++ₛ "\n")) (entries dir))

-- If a checksum is recorded without an error, then reading the flag of the name gives the checksum
-- without the space around it, the name is activated, and the checksum of every other name reads
-- as before.
pub set_checksum-get_checksum :
    (made : Fault) (written : Writing) (name checksum : String) (dir : StateDir)
    → (set_checksum made written name checksum dir).1 ≡ none
    → (get_checksum none (set_checksum made written name checksum dir).0 name
        ≡ (trim_space checksum, none))
      × (is_activated none (set_checksum made written name checksum dir).0 name ≡ (true, none))
      × ((other : String)
          → other ≢ name
          → get_checksum none (set_checksum made written name checksum dir).0 other
            ≡ get_checksum none dir other)
unfolding get_checksum is_activated flag_path
set_checksum-get_checksum made written name checksum dir h =
    let (named, result) = recorded made written name checksum dir h in
    let content = Entry.file (checksum ++ₛ "\n") in
    let at_own : lookup (flag name) (insert (flag name) content (entries dir)) ≡ some content =
      lookup-flag_own name content (entries dir) in
    let at_other : (other : String)
        → other ≢ name
        → lookup (flag other) (insert (flag name) content (entries dir))
          ≡ lookup (flag other) (entries dir) =
      λ other differs.
        ground (arith, lookup-flag name other content (entries dir), eq_iff name other, differs) in
    rw result (
      rw (named, at_own, trim_right-append_newline checksum, get_checksum, flag_path) refl,
      rw (named, at_own, is_activated, flag_path) refl,
      λ other differs.
          get_checksum-eq none other (some (insert (flag name) content (entries dir))) dir
            (at_other other differs),
    )
