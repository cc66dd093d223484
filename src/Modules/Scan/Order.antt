-- ===== src/Modules/Scan/Order.antt =====
-- internal/module/scan.go: which roots are scanned, and which activated modules are marked missing.
use suctl.Prelude.{
  insert, String, Bool, not, ◌&&◌, List, [], ◌∷◌, map, Option, none, some, lookup, contains,
  Distinct, if◌then◌else◌, ◌==◌, ◌≡◌, arith, eq_iff, lookup-insert,
}
use suctl.Activation.Names.{trim_space}
use suctl.Modules.{Record, Store}
use suctl.Modules.Scan.{Disk, order_from, build_scan_order, gone, mark_missing}

-- What the order holds: the paths that are not blank and were not seen.
order_from-contains :
    (seen ps : List String) (x : String)
    → contains (order_from seen ps) x
      ≡ (not (x == "") && (not (contains seen x) && contains (map trim_space ps) x))
unfolding order_from
order_from-contains seen [] x = ground arith
order_from-contains seen (p ∷ ps) x = ground (
  arith,
  order_from-contains seen ps x,
  order_from-contains (trim_space p ∷ seen) ps x,
  eq_iff (trim_space p) x,
  eq_iff x "",
  eq_iff (trim_space p) "",
)

order_from-Distinct : (seen ps : List String) → Distinct (order_from seen ps)
unfolding order_from
order_from-Distinct seen [] = tt
order_from-Distinct seen (p ∷ ps) = ground (
  arith,
  order_from-Distinct seen ps,
  order_from-Distinct (trim_space p ∷ seen) ps,
  order_from-contains (trim_space p ∷ seen) ps (trim_space p),
  eq_iff (trim_space p) (trim_space p),
)

-- The paths to scan are distinct, and are those that are given, trimmed and not empty.
pub build_scan_order-Distinct :
    (d : Disk) (extra : List String)
    → Distinct (build_scan_order d extra)
      × ((x : String)
          → contains (build_scan_order d extra) x ≡ (
              not (x == "")
              && contains (map trim_space (d.system_path ∷ d.third_party_path ∷ extra)) x))
unfolding build_scan_order
build_scan_order-Distinct d extra = (
  order_from-Distinct [] (d.system_path ∷ d.third_party_path ∷ extra),
  λ x. order_from-contains [] (d.system_path ∷ d.third_party_path ∷ extra) x,
)

abbrev or_gone : Bool → Option Record → Option Record
or_gone listed none = if listed then some gone else none
or_gone listed (some r) = some r

-- MarkMissing adds a missing record for a listed name without one, and changes no record.
pub mark_missing-lookup :
    (s : Store) (names : List String) (x : String)
    → lookup x (mark_missing s names).0 ≡ or_gone (contains names x) (lookup x s)
unfolding mark_missing
mark_missing-lookup s [] x = ground arith
mark_missing-lookup s (name ∷ names) x = ground (
  arith,
  mark_missing-lookup s names x,
  mark_missing-lookup (insert name gone s) names x,
  lookup-insert name x gone s,
  eq_iff name x,
)
