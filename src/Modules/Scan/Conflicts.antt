-- ===== src/Modules/Scan/Conflicts.antt =====
-- internal/module/scan.go: what the store says of a short name, by the directories that have it.
use suctl.Prelude.{
  String, List, [], ◌∷◌, Option, none, some, lookup, ◌==◌, ◌≡◌, refl, inl, inr, Bool-cases, subst,
  sym, keep_if,
}
use suctl.Modules.{Record, State, set_status}
use suctl.Modules.Scan.{Disk, fresh, conflict, settle, scan_paths}
use suctl.Modules.Scan.Walk.{Candidate, all_candidates, settle_all, scan_roots-settle_all}

-- The candidates that have the short name.
abbrev pub found : String → List Candidate → List Candidate
found short = keep_if (λ c. c.short == short)

-- A record that is in the way of every directory of its name.
abbrev pub Blocked : String → Option Record → Type 0
Blocked dir out = (r : Record) × (out ≡ some r) × (r.state ≡ State.unavailable) × (r.dir ≡ dir)

-- By the directories of a short name: none, and it has no record; one, and its record is that of the
-- directory; more, and it is unavailable, with the first.
abbrev pub Verdict : Disk → List Candidate → Option Record → Type 0
Verdict d [] out = out ≡ none
Verdict d (c ∷ []) out = out ≡ some (fresh d c.dir c.manifest)
Verdict d (c ∷ x ∷ xs) out = Blocked c.dir out

settle_all-Blocked :
    (d : Disk) (short : String) (cs : List Candidate) (r : Record)
    → r.state ≡ State.unavailable
    → Blocked r.dir (settle_all d short cs (some r))
unfolding settle_all settle
settle_all-Blocked d short [] r down = (r, refl, down, refl)
settle_all-Blocked d short (c ∷ cs) r down = elim (Bool-cases (c.short == short)) [
  | inl own ↦
      rw (own, settle)
        (settle_all-Blocked d short cs (set_status State.unavailable (conflict short r.dir c.dir) r)
          refl)
  | inr other ↦ rw other (settle_all-Blocked d short cs r down)
]

-- The same, for a name that has a record already.
abbrev Second : Record → List Candidate → Option Record → Type 0
Second r [] out = out ≡ some r
Second r (c ∷ cs) out = Blocked r.dir out

settle_all-Second :
    (d : Disk) (short : String) (cs : List Candidate) (r : Record)
    → Second r (found short cs) (settle_all d short cs (some r))
unfolding settle_all settle
settle_all-Second d short [] r = refl
settle_all-Second d short (c ∷ cs) r = elim (Bool-cases (c.short == short)) [
  | inl own ↦
      rw (own, settle)
        (settle_all-Blocked d short cs (set_status State.unavailable (conflict short r.dir c.dir) r)
          refl)
  | inr other ↦ rw other (settle_all-Second d short cs r)
]

Second-Verdict :
    (d : Disk) (c : Candidate) (cs : List Candidate) (out : Option Record)
    → Second (fresh d c.dir c.manifest) cs out
    → Verdict d (c ∷ cs) out
unfolding fresh
Second-Verdict d c [] out h = h
Second-Verdict d c (x ∷ xs) out h = h

settle_all-Verdict :
    (d : Disk) (short : String) (cs : List Candidate)
    → Verdict d (found short cs) (settle_all d short cs none)
unfolding settle_all settle fresh
settle_all-Verdict d short [] = refl
settle_all-Verdict d short (c ∷ cs) = elim (Bool-cases (c.short == short)) [
  | inl own ↦
      rw (own, settle)
        (Second-Verdict d c (found short cs) _
          (settle_all-Second d short cs (fresh d c.dir c.manifest)))
  | inr other ↦ rw other (settle_all-Verdict d short cs)
]

-- After a scan a short name has no record exactly if no directory with a valid manifest has it; if
-- one has it, the record is that of this directory, as the gates of platform and entrypoint
-- decide; if more have it, in one root or in several, the record is unavailable and holds the
-- first directory.
pub scan_paths-Verdict :
    (d : Disk) (roots : List String) (short : String)
    → Verdict d (found short (all_candidates d roots)) (lookup short (scan_paths d roots).0)
unfolding scan_paths lookup
scan_paths-Verdict d roots short =
    subst (Verdict d (found short (all_candidates d roots)))
      (sym (scan_roots-settle_all d roots short ([], [])))
      (settle_all-Verdict d short (all_candidates d roots))
