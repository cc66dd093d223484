-- ===== src/Modules/Scan.antt =====
-- internal/module/scan.go and the loading of manifests in sdk/manifest/manifest.go: the modules store as
-- the directories on disk give it. What a directory holds is an argument. The surfaces of a module are
-- not in its record here; their loading is, with its warning.
pub mod Order
pub mod Walk
pub mod Conflicts
use Prim.Native.String.{slice, len}
use text.Mathlib.Text.{starts_with}
use suctl.Prelude.{
  ℕ, String, Bool, true, false, not, ◌||◌, List, [], ◌∷◌, ◌++◌, Option, none, some, ◌⊎◌, inl, inr,
  lookup, insert, contains, is_some, if◌then◌else◌, ◌==◌,
}
use suctl.Activation.Names.{◌++ₛ◌, trim_space}
use suctl.Protocol.{Message, sprintf, sprint_error}
use suctl.Manifest.{Manifest, validate}
use suctl.Modules.{Record, Store, State, set_status, no_reason}

-- A directory entry under a root: whether it is a directory; its manifest, decoded, or an error; and
-- the error of its surface.json.
pub record DirEntry : Type 0 where
  pub name : String
  pub is_dir : Bool
  pub parsed : Message ⊎ Manifest
  pub surface_error : Option Message

-- The machine: its operating system, the directories that can be read, and the files and commands.
pub record Disk : Type 0 where
  pub goos : String
  pub system_path : String
  pub third_party_path : String
  pub read_dir : String → Option (List DirEntry)
  pub exists : String → Bool
  pub on_path : String → Bool

abbrev pub join : String → String → String
join dir name = dir ++ₛ ("/" ++ₛ name)

-- ShortNameFromDir, of the last element of the directory's path.
abbrev module_prefix : String
module_prefix = "suctl-mod-"

unfoldable pub short_name_from_dir : String → String
short_name_from_dir name =
    if starts_with name module_prefix then slice name (len module_prefix) (len name) else name

abbrev invalid : String → List Message → Message ⊎ Manifest → Message ⊎ Manifest
invalid dir [] loaded = loaded
invalid dir (e ∷ errors) loaded = inl (sprint_error "manifest: validate %s: %w" (dir ∷ []) e)

-- LoadFromDir, after reading and decoding; of several errors the first stands for all.
unfoldable pub load_from_dir : String → Message ⊎ Manifest → Message ⊎ Manifest
unfolding validate
load_from_dir dir (inl e) = inl e
load_from_dir dir (inr m) = invalid dir (validate m) (inr m)

-- platformSupported
unfoldable pub platform_supported : String → List String → Bool
platform_supported goos platforms = contains platforms goos

abbrev first_part : List String → String
first_part [] = ""
first_part (p ∷ ps) = p

-- entrypointResolvable; a path is absolute where it starts with a slash.
unfoldable pub entrypoint_resolvable : Disk → List String → String → Bool
entrypoint_resolvable d parts dir =
    let prog = first_part parts in
    if starts_with prog "/" then d.exists prog else d.exists (join dir prog) || d.on_path prog

-- The state and the reason of a module that is found for the first time.
unfoldable pub gate : Disk → Manifest → String → State × Message
unfolding platform_supported entrypoint_resolvable
gate d m dir =
    if not (platform_supported d.goos m.platform)
    then (
      State.unavailable,
      sprintf "not supported on this platform (%s); module supports: %s" (d.goos ∷ m.platform),
    )
    else if not (entrypoint_resolvable d m.entrypoint dir)
    then (
      State.unavailable,
      sprintf "entrypoint %q not built or installed (not in module dir, not on PATH)"
          (first_part m.entrypoint ∷ []),
    )
    else (State.ready, no_reason)

-- The record of a module that is found for the first time.
unfoldable pub fresh : Disk → String → Manifest → Record
unfolding gate
fresh d dir m =
    let (state, reason) = gate d m dir in
    record {
      manifest = some m;
      dir = dir;
      handlers = [];
      state = state;
      reason = reason;
      supervisor = none;
      monitor = none;
      mux = none;
    }

-- ConflictError.Error
abbrev pub conflict : String → String → String → Message
conflict short a b =
    sprintf "module conflict: %q found in two paths — remove one:\n  %s\n  %s" (short ∷ a ∷ b ∷ [])

abbrev pub surface_warning : String → Option Message → List Message
surface_warning dir none = []
surface_warning dir (some e) = sprint_error "skip surface for %s: %v" (dir ∷ []) e ∷ []

-- What a short name has after a directory with a valid manifest is visited.
unfoldable pub settle : Disk → String → String → Manifest → Option Record → Record
unfolding fresh
settle d short dir m none = fresh d dir m
settle d short dir m (some r) = set_status State.unavailable (conflict short r.dir dir) r

abbrev pub settle_warnings : String → String → Option Message → Option Record → List Message
settle_warnings short dir e none = surface_warning dir e
settle_warnings short dir e (some r) = conflict short r.dir dir ∷ []

-- A directory whose manifest was loaded, or not.
unfoldable pub visit :
    Disk → String → DirEntry → Message ⊎ Manifest → Store × List Message → Store × List Message
unfolding short_name_from_dir
visit d dir e (inl err) (s, warnings) =
    (s, warnings ++ sprint_error "skip %s: %v" (dir ∷ []) err ∷ [])
visit d dir e (inr m) (s, warnings) =
    let short = short_name_from_dir e.name in
    (
      insert short (settle d short dir m (lookup short s)) s,
      warnings ++ settle_warnings short dir e.surface_error (lookup short s),
    )

-- One entry of a root.
unfoldable pub scan_entry : Disk → String → DirEntry → Store × List Message → Store × List Message
unfolding load_from_dir visit
scan_entry d root e acc =
    let dir = join root e.name in
    if e.is_dir then visit d dir e (load_from_dir dir e.parsed) acc else acc

-- The loop over the entries of one root.
unfoldable pub scan_entries :
    Disk → String → List DirEntry → Store × List Message → Store × List Message
unfolding scan_entry
scan_entries d root [] acc = acc
scan_entries d root (e ∷ es) acc = scan_entries d root es (scan_entry d root e acc)

abbrev pub missing_root : Disk → String → List Message
missing_root d root =
    if root == d.system_path
    then sprintf
        "CRITICAL: system module path %q is missing; suctl core functions may be unavailable"
        (root ∷ [])
      ∷ []
    else []

unfoldable pub scan_root : Disk → String → Store × List Message → Store × List Message
unfolding scan_entries
scan_root d root (s, warnings) = elim (d.read_dir root) [
  | none ↦ (s, warnings ++ missing_root d root)
  | some es ↦ scan_entries d root es (s, warnings)
]

-- scanPaths: the loop over the roots.
unfoldable pub scan_roots : Disk → List String → Store × List Message → Store × List Message
unfolding scan_root
scan_roots d [] acc = acc
scan_roots d (root ∷ roots) acc = scan_roots d roots (scan_root d root acc)

unfoldable pub scan_paths : Disk → List String → Store × List Message
unfolding scan_roots
scan_paths d roots = scan_roots d roots ([], [])

-- The loop of buildScanOrder over what was seen.
unfoldable pub order_from : List String → List String → List String
order_from seen [] = []
order_from seen (p ∷ ps) =
    let path = trim_space p in
    let skipped = path == "" || contains seen path in
    let rest = order_from (if skipped then seen else path ∷ seen) ps in
    if skipped then rest else path ∷ rest

-- buildScanOrder
unfoldable pub build_scan_order : Disk → List String → List String
unfolding order_from
build_scan_order d extra = order_from [] (d.system_path ∷ d.third_party_path ∷ extra)

-- Scan
unfoldable pub scan : Disk → List String → Store × List Message
unfolding scan_paths build_scan_order
scan d extra = scan_paths d (build_scan_order d extra)

-- The record of a module that was activated and is gone.
abbrev pub gone : Record
gone = record {
  manifest = none;
  dir = "";
  handlers = [];
  state = State.missing;
  reason = sprintf "module directory or manifest.json no longer present on disk" [];
  supervisor = none;
  monitor = none;
  mux = none;
}

-- MarkMissing
unfoldable pub mark_missing : Store → List String → Store × List Message
mark_missing s [] = (s, [])
mark_missing s (name ∷ names) =
    let present = is_some (lookup name s) in
    let (after, warns) = mark_missing (if present then s else insert name gone s) names in
    (
      after,
      if present
          then warns
          else sprintf "module %q was activated but is now missing from disk" (name ∷ []) ∷ warns,
    )
