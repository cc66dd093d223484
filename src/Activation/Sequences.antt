-- ===== src/Activation/Sequences.antt =====
-- internal/activation/activation.go: sequences of operations on the flag files, against a set of names.
use suctl.Prelude.{
  Bool-cases, inl, inr, String, Bool, true, false, not, ◌&&◌, none, some, List, [], ◌∷◌, Dict,
  lookup, insert, delete, is_some, if◌then◌else◌, ◌==◌, contains, ◌≡◌, refl, ◌≢◌, arith, eq_iff,
  lookup-delete, ◌∙◌,
}
use suctl.Activation.{
  Entry, StateDir, Fault, Creation, Writing, entries, flag_path, is_activated, activate, deactivate,
  core_names, set_checksum, list, flag_names,
}
use suctl.Activation.Names.{◌++ₛ◌, ext, stem, ext-append, stem-append, stem-ext}
use suctl.Activation.Flags.{flag, flag-eq, lookup-flag}

pub data Operation : Type 0 where
  activating : Fault → Creation → String → Operation
  recording : Fault → Writing → String → String → Operation
  deactivating : Fault → String → Operation

apply : Operation → StateDir → StateDir
unfolding activate deactivate set_checksum
apply (Operation.activating made opened name) dir = (activate made opened name dir).0
apply (Operation.recording made written name checksum) dir =
    (set_checksum made written name checksum dir).0
apply (Operation.deactivating e name) dir = (deactivate e name dir).0

pub apply_all : List Operation → StateDir → StateDir
apply_all [] dir = dir
apply_all (o ∷ os) dir = apply_all os (apply o dir)

-- A set of names, by the test for membership.
abbrev pub Names : Type 0
Names = String → Bool

abbrev pub no_names : Names
no_names name = false

abbrev fine : Fault → Bool
fine e = not (is_some e)

-- Whether the file is there after the creation, and after the writing.
abbrev creates : Creation → Bool
creates (Creation.denied e) = false
creates _ = true

abbrev opens : Writing → Bool
opens (Writing.denied e) = false
opens _ = true

-- The names after an operation: one that gets as far as its file adds its name or takes it out; the
-- empty name is never in, and a core name is never taken out.
pub apply_names : Operation → Names → Names
apply_names (Operation.activating made opened name) s other =
    if fine made && creates opened && not (name == "") && (name == other) then true else s other
apply_names (Operation.recording made written name checksum) s other =
    if fine made && opens written && not (name == "") && (name == other) then true else s other
apply_names (Operation.deactivating e name) s other =
    if fine e && not (name == "") && not (contains core_names name) && (name == other)
    then false
    else s other

pub apply_names_all : List Operation → Names → Names
apply_names_all [] s = s
apply_names_all (o ∷ os) s = apply_names_all os (apply_names o s)

-- Whether the module has a flag file.
abbrev pub flagged : StateDir → Names
flagged dir name = is_some (lookup (flag name) (entries dir))

pub lookup_removed :
    (name other : String) (es : Dict Entry)
    → lookup (flag other) (delete (flag name) es)
      ≡ (if name == other then none else lookup (flag other) es)
lookup_removed name other es =
    rw (lookup-delete (flag name) (flag other) es, flag-eq name other) refl

-- A file at every name: no entry is a directory.
abbrev AllFiles : Dict Entry → Type 0
AllFiles [] = Unit
AllFiles ((name, Entry.directory) ∷ es) = ⊥
AllFiles ((name, Entry.file content) ∷ es) = AllFiles es

pub lookup_nothing : (key : String) → lookup {V = Entry} key [] ≡ none
unfolding lookup
lookup_nothing key = refl

activated-flagged :
    (made : Fault) (opened : Creation) (name other : String) (dir : StateDir)
    → flagged (activate made opened name dir).0 other
      ≡ apply_names (Operation.activating made opened name) (flagged dir) other
unfolding activate apply_names flag_path
activated-flagged (some e) opened name other dir = ground arith
activated-flagged none (Creation.denied e) name other dir = ground arith
activated-flagged none (Creation.unclosed e) name other dir =
    ground (arith, lookup-flag name other (Entry.file "") (entries dir), eq_iff name other)
activated-flagged none Creation.clean name other dir =
    ground (arith, lookup-flag name other (Entry.file "") (entries dir), eq_iff name other)

recorded-flagged :
    (made : Fault) (written : Writing) (name checksum other : String) (dir : StateDir)
    → flagged (set_checksum made written name checksum dir).0 other
      ≡ apply_names (Operation.recording made written name checksum) (flagged dir) other
unfolding set_checksum apply_names flag_path
recorded-flagged (some e) written name checksum other dir = ground arith
recorded-flagged none (Writing.denied e) name checksum other dir = ground arith
recorded-flagged none (Writing.torn e left) name checksum other dir =
    ground (arith, lookup-flag name other (Entry.file left) (entries dir), eq_iff name other)
recorded-flagged none Writing.clean name checksum other dir = ground (
  arith,
  lookup-flag name other (Entry.file (checksum ++ₛ "\n")) (entries dir),
  eq_iff name other,
)

deactivated-flagged :
    (e : Fault) (name other : String) (dir : StateDir)
    → flagged (deactivate e name dir).0 other
      ≡ apply_names (Operation.deactivating e name) (flagged dir) other
unfolding deactivate apply_names flag_path
deactivated-flagged (some e) name other dir = ground arith
deactivated-flagged none name other none = ground (arith, lookup_nothing (flag other))
deactivated-flagged none name other (some es) =
    ground (arith, lookup_removed name other es, eq_iff name other)

apply-flagged :
    (o : Operation) (dir : StateDir) (other : String)
    → flagged (apply o dir) other ≡ apply_names o (flagged dir) other
unfolding apply
apply-flagged (Operation.activating made opened name) dir other =
    activated-flagged made opened name other dir
apply-flagged (Operation.recording made written name checksum) dir other =
    recorded-flagged made written name checksum other dir
apply-flagged (Operation.deactivating e name) dir other = deactivated-flagged e name other dir

-- Equal sets stay equal.
apply_names-ext :
    (o : Operation) (s t : Names)
    → ((other : String) → s other ≡ t other)
    → (other : String) → apply_names o s other ≡ apply_names o t other
unfolding apply_names
apply_names-ext (Operation.activating made opened name) s t h other = rw (h other) refl
apply_names-ext (Operation.recording made written name checksum) s t h other = rw (h other) refl
apply_names-ext (Operation.deactivating e name) s t h other = rw (h other) refl

apply_all-flagged :
    (os : List Operation) (dir : StateDir) (s : Names)
    → ((other : String) → flagged dir other ≡ s other)
    → (other : String) → flagged (apply_all os dir) other ≡ apply_names_all os s other
unfolding apply_all apply_names_all
apply_all-flagged [] dir s h other = h other
apply_all-flagged (o ∷ os) dir s h other =
    apply_all-flagged os (apply o dir) (apply_names o s)
      (λ m. apply-flagged o dir m ∙ apply_names-ext o (flagged dir) s h m) other

insert-AllFiles :
    (key content : String) (es : Dict Entry)
    → AllFiles es
    → AllFiles (insert key (Entry.file content) es)
unfolding insert
insert-AllFiles key content [] h = tt
insert-AllFiles key content ((name, Entry.directory) ∷ es) h = elim h [ ]
insert-AllFiles key content ((name, Entry.file old) ∷ es) h = elim (Bool-cases (name == key)) [
  | inl same ↦ rw same h
  | inr other ↦ rw other (insert-AllFiles key content es h)
]

delete-AllFiles : (key : String) (es : Dict Entry) → AllFiles es → AllFiles (delete key es)
unfolding delete
delete-AllFiles key [] h = tt
delete-AllFiles key ((name, Entry.directory) ∷ es) h = elim h [ ]
delete-AllFiles key ((name, Entry.file old) ∷ es) h = elim (Bool-cases (name == key)) [
  | inl same ↦ rw same (delete-AllFiles key es h)
  | inr other ↦ rw other (delete-AllFiles key es h)
]

apply-AllFiles :
    (o : Operation) (dir : StateDir) → AllFiles (entries dir) → AllFiles (entries (apply o dir))
unfolding apply activate deactivate set_checksum flag_path
apply-AllFiles (Operation.activating (some e) opened name) dir h = ground (arith, h)
apply-AllFiles (Operation.activating none (Creation.denied e) name) dir h = ground (arith, h)
apply-AllFiles (Operation.activating none (Creation.unclosed e) name) dir h =
    ground (arith, h, insert-AllFiles (flag name) "" (entries dir) h)
apply-AllFiles (Operation.activating none Creation.clean name) dir h =
    ground (arith, h, insert-AllFiles (flag name) "" (entries dir) h)
apply-AllFiles (Operation.recording (some e) written name checksum) dir h = ground (arith, h)
apply-AllFiles (Operation.recording none (Writing.denied e) name checksum) dir h = ground (arith, h)
apply-AllFiles (Operation.recording none (Writing.torn e left) name checksum) dir h =
    ground (arith, h, insert-AllFiles (flag name) left (entries dir) h)
apply-AllFiles (Operation.recording none Writing.clean name checksum) dir h =
    ground (arith, h, insert-AllFiles (flag name) (checksum ++ₛ "\n") (entries dir) h)
apply-AllFiles (Operation.deactivating (some e) name) dir h = ground (arith, h)
apply-AllFiles (Operation.deactivating none name) none h = ground (arith, h)
apply-AllFiles (Operation.deactivating none name) (some es) h =
    ground (arith, h, delete-AllFiles (flag name) es h)

-- A file is listed under a name just where it is the flag file of that name.
listed-flag : (k m : String) → ((ext k == ".flag") && (stem k == m)) ≡ (k == flag m)
listed-flag k m = ground (
  arith,
  eq_iff (ext k) ".flag",
  eq_iff (stem k) m,
  eq_iff k (flag m),
  stem-ext k,
  stem-append m,
  ext-append m,
)

flag_names-flagged :
    (es : Dict Entry)
    → AllFiles es
    → (m : String) → contains (flag_names es) m ≡ is_some (lookup (flag m) es)
unfolding flag_names lookup
flag_names-flagged [] h m = refl
flag_names-flagged ((k, Entry.directory) ∷ es) h m = elim h [ ]
flag_names-flagged ((k, Entry.file content) ∷ es) h m =
    ground (arith, flag_names-flagged es h m, listed-flag k m)

apply_all-AllFiles :
    (os : List Operation) (dir : StateDir)
    → AllFiles (entries dir)
    → AllFiles (entries (apply_all os dir))
unfolding apply_all
apply_all-AllFiles [] dir h = h
apply_all-AllFiles (o ∷ os) dir h = apply_all-AllFiles os (apply o dir) (apply-AllFiles o dir h)

flagged_nowhere : (m : String) → flagged none m ≡ no_names m
flagged_nowhere m = rw (lookup_nothing (flag m)) refl

-- Whatever operations with whatever faults follow one another from a state directory that does not
-- exist, the flag files stand for a set of names: List gives exactly the names in it, and
-- IsActivated of a name that is not empty answers whether it is in it. Activate and SetChecksum
-- add their name if the directory can be made and the file be created or opened, even if closing
-- or writing it then fails; Deactivate takes its name out if the removal meets no fault and the
-- name is not a core name; an operation with any other fault, or with the empty name, changes
-- nothing.
pub list-apply_all :
    (os : List Operation) (m : String)
    → (contains (list none (apply_all os none)).0 m ≡ apply_names_all os no_names m)
      × (m ≢ "" → is_activated none (apply_all os none) m ≡ (apply_names_all os no_names m, none))
unfolding list is_activated flag_path
list-apply_all os m =
    let tests = apply_all-flagged os none no_names flagged_nowhere m in
    let files = apply_all-AllFiles os none tt in
    (
      flag_names-flagged (entries (apply_all os none)) files m ∙ tests,
      λ named. ground (arith, named, eq_iff m "", tests),
    )
