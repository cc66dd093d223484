-- ===== src/Activation.antt =====
-- internal/activation/activation.go: the flag files of activated modules. The directory is absent, or
-- it has entries by name. A file's content is its text, and each operation is given the error that
-- the operating system answers its calls with, other than that a file exists or does not. A call that
-- fails changes nothing, but for a file that was created and then not closed, and for one that was
-- opened for writing and then not written to the end.
pub mod Names
pub mod Flags
pub mod Sequences
use Names.{◌++ₛ◌, trim_space, ext, stem}
use suctl.Prelude.{
  String, Bool, true, false, Option, none, some, List, [], ◌∷◌, Dict, lookup, insert, delete,
  is_some, if◌then◌else◌, ◌==◌, contains,
}

pub data Entry : Type 0 where
  file : String → Entry
  directory : Entry

abbrev pub StateDir : Type 0
StateDir = Option (Dict Entry)

-- An error of the operating system, if there is one.
abbrev pub Fault : Type 0
Fault = Option String

-- How the creation of a file ends: well, with an error of os.OpenFile, or with one of Close, when the
-- file is there.
pub data Creation : Type 0 where
  clean : Creation
  denied unclosed : String → Creation

-- How os.WriteFile ends: well, with an error of opening the file, or with one of writing or closing it,
-- when the file holds the second text.
pub data Writing : Type 0 where
  clean : Writing
  denied : String → Writing
  torn : String → String → Writing

pub data Failure : Type 0 where
  empty_name core_capability : Failure
  fault : String → Failure

abbrev pub Outcome : Type 0 → Type 0
Outcome A = A × Option Failure

abbrev pub entries : StateDir → Dict Entry
entries none = []
entries (some es) = es

-- flagPath: the name of the file, for a short name that is not empty.
unfoldable pub flag_path : String → Option String
flag_path name = if name == "" then none else some (name ++ₛ ".flag")

abbrev pub stat : Fault → Bool → Outcome Bool
stat none found = (found, none)
stat (some e) found = (false, some (Failure.fault e))

-- IsActivated
unfoldable pub is_activated : Fault → StateDir → String → Outcome Bool
unfolding flag_path
is_activated e dir name = elim (flag_path name) [
  | none ↦ (false, some Failure.empty_name)
  | some path ↦ stat e (is_some (lookup path (entries dir)))
]

-- os.OpenFile with O_CREATE and O_EXCL, of a directory that exists, and Close.
abbrev pub create : Creation → String → Dict Entry → Outcome StateDir
create Creation.clean path es =
    if is_some (lookup path es)
    then (some es, none)
    else (some (insert path (Entry.file "") es), none)
create (Creation.denied e) path es = (some es, some (Failure.fault e))
create (Creation.unclosed e) path es =
    if is_some (lookup path es)
    then (some es, none)
    else (some (insert path (Entry.file "") es), some (Failure.fault e))

-- Activate, with the fault of os.MkdirAll and the end of the creation.
unfoldable pub activate : Fault → Creation → String → StateDir → Outcome StateDir
unfolding flag_path
activate made opened name dir = elim (flag_path name) [
  | none ↦ (dir, some Failure.empty_name)
  | some path ↦ elim made [
    | some e ↦ (dir, some (Failure.fault e))
    | none ↦ create opened path (entries dir)
  ]
]

abbrev pub core_names : List String
core_names = "system" ∷ []

-- os.Remove; a file that does not exist is no error.
abbrev pub remove : Fault → String → StateDir → Outcome StateDir
remove (some e) path dir = (dir, some (Failure.fault e))
remove none path none = (none, none)
remove none path (some es) = (some (delete path es), none)

-- Deactivate
unfoldable pub deactivate : Fault → String → StateDir → Outcome StateDir
unfolding flag_path
deactivate e name dir =
    if contains core_names name
    then (dir, some Failure.core_capability)
    else elim (flag_path name) [
      | none ↦ (dir, some Failure.empty_name)
      | some path ↦ remove e path dir
    ]

-- The loop of List over the entries.
unfoldable pub flag_names : Dict Entry → List String
unfolding stem ext
flag_names [] = []
flag_names ((name, Entry.directory) ∷ es) = flag_names es
flag_names ((name, Entry.file content) ∷ es) =
    if ext name == ".flag" then stem name ∷ flag_names es else flag_names es

-- List
unfoldable pub list : Fault → StateDir → Outcome (List String)
list (some e) dir = ([], some (Failure.fault e))
list none dir = (flag_names (entries dir), none)

abbrev pub read : Option Entry → Outcome String
read none = ("", none)
read (some (Entry.file content)) = (trim_space content, none)
read (some Entry.directory) = ("", some (Failure.fault "is a directory"))

-- GetChecksum
unfoldable pub get_checksum : Fault → StateDir → String → Outcome String
unfolding flag_path
get_checksum e dir name = elim (flag_path name) [
  | none ↦ ("", some Failure.empty_name)
  | some path ↦ elim e [
    | some text ↦ ("", some (Failure.fault text))
    | none ↦ read (lookup path (entries dir))
  ]
]

-- What the file holds after os.WriteFile opened it, and the error.
abbrev overwrite : String → String → Dict Entry → Option Failure → Option Entry → Outcome StateDir
overwrite path content es err (some Entry.directory) =
    (some es, some (Failure.fault "is a directory"))
overwrite path content es err _ = (some (insert path (Entry.file content) es), err)

-- os.WriteFile, of a directory that exists.
abbrev pub write : Writing → String → String → Dict Entry → Option Entry → Outcome StateDir
write Writing.clean path content es old = overwrite path content es none old
write (Writing.denied e) path content es old = (some es, some (Failure.fault e))
write (Writing.torn e left) path content es old =
    overwrite path left es (some (Failure.fault e)) old

-- SetChecksum, with the fault of os.MkdirAll and the end of the writing.
unfoldable pub set_checksum : Fault → Writing → String → String → StateDir → Outcome StateDir
unfolding flag_path
set_checksum made written name checksum dir = elim (flag_path name) [
  | none ↦ (dir, some Failure.empty_name)
  | some path ↦ elim made [
    | some e ↦ (dir, some (Failure.fault e))
    | none ↦ write written path (checksum ++ₛ "\n") (entries dir) (lookup path (entries dir))
  ]
]
