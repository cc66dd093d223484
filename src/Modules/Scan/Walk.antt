-- ===== src/Modules/Scan/Walk.antt =====
-- internal/module/scan.go: the scan visits each directory that has a valid manifest, in order, and a
-- short name is settled by those that have it.
use suctl.Prelude.{
  String, List, [], ◌∷◌, ◌++◌, Option, none, some, lookup, insert, if◌then◌else◌, ◌==◌, ◌≡◌, refl,
  ◌⊎◌, inl, inr, arith, eq_iff, lookup-insert, Bool-cases, Option-cases, subst, ap, sym, ◌∙◌,
}
use suctl.Protocol.{Message}
use suctl.Manifest.{Manifest}
use suctl.Modules.{Record, Store}
use suctl.Modules.Scan.{
  DirEntry, Disk, join, short_name_from_dir, load_from_dir, settle, visit, scan_entry, scan_entries,
  scan_root, scan_roots,
}

-- A directory with a valid manifest.
pub record Candidate : Type 0 where
  pub short : String
  pub dir : String
  pub manifest : Manifest

abbrev candidate_of : String → DirEntry → Message ⊎ Manifest → List Candidate
candidate_of dir e (inl err) = []
candidate_of dir e (inr m) =
    record { short = short_name_from_dir e.name; dir = dir; manifest = m } ∷ []

entry_candidates : String → DirEntry → List Candidate
entry_candidates root e =
    let dir = join root e.name in
    if e.is_dir then candidate_of dir e (load_from_dir dir e.parsed) else []

-- The candidates under a root, and under all roots, in the order of the scan.
pub candidates : String → List DirEntry → List Candidate
candidates root [] = []
candidates root (e ∷ es) = entry_candidates root e ++ candidates root es

abbrev readable : Option (List DirEntry) → List DirEntry
readable none = []
readable (some es) = es

pub all_candidates : Disk → List String → List Candidate
all_candidates d [] = []
all_candidates d (root ∷ roots) =
    candidates root (readable (d.read_dir root)) ++ all_candidates d roots

-- What becomes of one short name as its directories are visited.
unfoldable pub settle_all : Disk → String → List Candidate → Option Record → Option Record
settle_all d short [] r = r
settle_all d short (c ∷ cs) r =
    settle_all d short cs (if c.short == short then some (settle d short c.dir c.manifest r) else r)

settle_all-append :
    (d : Disk) (short : String) (cs ds : List Candidate) (r : Option Record)
    → settle_all d short (cs ++ ds) r ≡ settle_all d short ds (settle_all d short cs r)
unfolding settle_all
settle_all-append d short [] ds r = refl
settle_all-append d short (c ∷ cs) ds r = settle_all-append d short cs ds _

settled_lookup :
    (d : Disk) (key short dir : String) (m : Manifest) (s : Store)
    → lookup short (insert key (settle d key dir m (lookup key s)) s)
      ≡ (if key == short then some (settle d short dir m (lookup short s)) else lookup short s)
settled_lookup d key short dir m s = elim (Bool-cases (key == short)) [
  | inl same ↦
      subst
        (λ k.
          lookup short (insert k (settle d k dir m (lookup k s)) s)
          ≡ (if key == short then some (settle d short dir m (lookup short s)) else lookup short s))
        (sym ((eq_iff key short).0 same))
        (ground (
          arith,
          lookup-insert short short (settle d short dir m (lookup short s)) s,
          eq_iff short short,
          same,
        ))
  | inr other ↦ ground (arith, lookup-insert key short (settle d key dir m (lookup key s)) s, other)
]

visit-settle_all :
    (d : Disk) (dir short : String) (e : DirEntry) (loaded : Message ⊎ Manifest) (s : Store)
    (w : List Message)
    → lookup short (visit d dir e loaded (s, w)).0
      ≡ settle_all d short (candidate_of dir e loaded) (lookup short s)
unfolding visit settle_all
visit-settle_all d dir short e (inl err) s w = refl
visit-settle_all d dir short e (inr m) s w =
    settled_lookup d (short_name_from_dir e.name) short dir m s

scan_entry-settle_all :
    (d : Disk) (root short : String) (e : DirEntry) (s : Store) (w : List Message)
    → lookup short (scan_entry d root e (s, w)).0
      ≡ settle_all d short (entry_candidates root e) (lookup short s)
unfolding scan_entry entry_candidates settle_all
scan_entry-settle_all d root short e s w = ground (
  arith,
  visit-settle_all d (join root e.name) short e (load_from_dir (join root e.name) e.parsed) s w,
)

scan_entries-settle_all :
    (d : Disk) (root short : String) (es : List DirEntry) (acc : Store × List Message)
    → lookup short (scan_entries d root es acc).0
      ≡ settle_all d short (candidates root es) (lookup short acc.0)
unfolding scan_entries candidates
scan_entries-settle_all d root short [] acc = unfold settle_all in refl
scan_entries-settle_all d root short (e ∷ es) (s, w) =
    scan_entries-settle_all d root short es (scan_entry d root e (s, w))
    ∙ ap (settle_all d short (candidates root es)) (scan_entry-settle_all d root short e s w)
    ∙ sym
        (settle_all-append d short (entry_candidates root e) (candidates root es) (lookup short s))

scan_root-settle_all :
    (d : Disk) (root short : String) (acc : Store × List Message)
    → lookup short (scan_root d root acc).0
      ≡ settle_all d short (candidates root (readable (d.read_dir root))) (lookup short acc.0)
unfolding scan_root
scan_root-settle_all d root short (s, w) = elim (Option-cases (d.read_dir root)) [
  | inl lost ↦ rw (lost, scan_root) (unfold candidates settle_all in refl)
  | inr (es, found) ↦ rw (found, scan_root) (scan_entries-settle_all d root short es (s, w))
]

pub scan_roots-settle_all :
    (d : Disk) (roots : List String) (short : String) (acc : Store × List Message)
    → lookup short (scan_roots d roots acc).0
      ≡ settle_all d short (all_candidates d roots) (lookup short acc.0)
unfolding scan_roots all_candidates
scan_roots-settle_all d [] short acc = unfold settle_all in refl
scan_roots-settle_all d (root ∷ roots) short acc =
    scan_roots-settle_all d roots short (scan_root d root acc)
    ∙ ap (settle_all d short (all_candidates d roots)) (scan_root-settle_all d root short acc)
    ∙ sym (
        settle_all-append d short (candidates root (readable (d.read_dir root)))
          (all_candidates d roots) (lookup short acc.0))
