-- ===== src/Messages/Trim.antt =====
-- internal/messages/store.go, Store.trimLocked: what a sweep keeps and evicts.
use suctl.Prelude.{
  ℕ, zero, suc, ◌-◌, ◌≤◌, String, ◌≡◌, refl, true, false, not, ◌&&◌, List, [], ◌∷◌, ◌++◌, some, ◌⊎◌,
  inl, inr, arith, eq_iff, Dict, lookup, delete, lookup-delete, contains, contains-append, Distinct,
  keep_if, ltb, is_some, Bool-cases, if◌then◌else◌,
}
use suctl.Messages.{Record, done, evictable, sweep}

-- An exchange that waits for its response is never evicted.
pub sweep-lookup_open :
    (j : String) (e : ℕ) (ids : List String) (m : Dict Record) {r : Record}
    → lookup j m ≡ some r
    → done r ≡ false
    → lookup j (sweep e ids m).1 ≡ some r
unfolding sweep
sweep-lookup_open j e [] m h o = h
sweep-lookup_open j e (id ∷ ids) m h o = elim (Bool-cases (evictable id m && ltb 0 e)) [
  | inl out ↦ rw out (
      sweep-lookup_open j (e - 1) ids (delete id m)
        (ground (arith, lookup-delete id j m, eq_iff id j)) o)
  | inr in_ ↦ rw in_ (sweep-lookup_open j e ids m h o)
]

-- Trimming touches only the ids that it is given.
pub sweep-lookup_other :
    (j : String) (e : ℕ) (ids : List String) (m : Dict Record)
    → contains ids j ≡ false
    → lookup j (sweep e ids m).1 ≡ lookup j m
unfolding sweep
sweep-lookup_other j e [] m h = refl
sweep-lookup_other j e (id ∷ ids) m h = ground (
  arith,
  lookup-delete id j m,
  sweep-lookup_other j e ids m,
  sweep-lookup_other j (e - 1) ids (delete id m),
)

-- A record that is kept is kept as it was.
pub sweep-lookup_same :
    (j : String) (e : ℕ) (ids : List String) (m : Dict Record) {r : Record}
    → lookup j (sweep e ids m).1 ≡ some r
    → lookup j m ≡ some r
unfolding sweep
sweep-lookup_same j e [] m h = h
sweep-lookup_same j e (id ∷ ids) m {r} h = ground (
  arith,
  lookup-delete id j m,
  sweep-lookup_same j e ids m {r = r},
  sweep-lookup_same j (e - 1) ids (delete id m) {r = r},
)

-- No id is made up.
pub sweep-contains :
    (j : String) (e : ℕ) (ids : List String) (m : Dict Record)
    → contains ids j ≡ false
    → contains (sweep e ids m).0 j ≡ false
unfolding sweep
sweep-contains j e [] m h = refl
sweep-contains j e (id ∷ ids) m h =
    ground (arith, sweep-contains j e ids m, sweep-contains j (e - 1) ids (delete id m))

pub sweep-Distinct :
    (e : ℕ) (ids : List String) (m : Dict Record) → Distinct ids → Distinct (sweep e ids m).0
unfolding sweep
sweep-Distinct e [] m d = tt
sweep-Distinct e (id ∷ ids) m d = ground (
  arith,
  sweep-Distinct e ids m d.1,
  sweep-Distinct (e - 1) ids (delete id m) d.1,
  sweep-contains id e ids m,
)

-- Every id of the list has a record.
abbrev pub Recorded : List String → Dict Record → Type 0
Recorded ids m = (k : String) → contains ids k ≡ true → is_some (lookup k m) ≡ true

Recorded-delete :
    (id : String) (ids : List String) (m : Dict Record)
    → contains ids id ≡ false
    → Recorded (id ∷ ids) m
    → Recorded ids (delete id m)
Recorded-delete id ids m fresh h k c = ground (arith, lookup-delete id k m, eq_iff id k, h k)

Recorded-tail :
    (id : String) (ids : List String) (m : Dict Record) → Recorded (id ∷ ids) m → Recorded ids m
Recorded-tail id ids m h k c = ground (arith, h k)

-- After the sweep the kept ids are exactly those that still have a record.
pub sweep-listed :
    (e : ℕ) (ids : List String) (m : Dict Record)
    → Distinct ids
    → Recorded ids m
    → (j : String)
    → contains (sweep e ids m).0 j ≡ (contains ids j && is_some (lookup j (sweep e ids m).1))
unfolding sweep
sweep-listed e [] m d h j = refl
sweep-listed e (id ∷ ids) m d h j = ground (
  arith,
  eq_iff id j,
  h id,
  eq_iff id id,
  lookup-delete id j m,
  sweep-lookup_other id e ids m,
  sweep-lookup_other id (e - 1) ids (delete id m),
  sweep-listed e ids m d.1 (Recorded-tail id ids m h) j,
  sweep-listed (e - 1) ids (delete id m) d.1 (Recorded-delete id ids m d.0 h) j,
)

sweep-zero : (ids : List String) (m : Dict Record) → (sweep 0 ids m).0 ≡ ids
unfolding sweep
sweep-zero [] m = refl
sweep-zero (id ∷ ids) m = ground (arith, sweep-zero ids m)

-- How many of the ids trimming may evict, and the others in order.
abbrev pub count_done : Dict Record → List String → ℕ
count_done m [] = 0
count_done m (id ∷ ids) = let rest = count_done m ids in if evictable id m then suc rest else rest

abbrev pub open_ids : Dict Record → List String → List String
open_ids m = keep_if (λ id. not (evictable id m))

open_ids-delete :
    (id : String) (ids : List String) (m : Dict Record)
    → contains ids id ≡ false
    → open_ids (delete id m) ids ≡ open_ids m ids
open_ids-delete id [] m h = refl
open_ids-delete id (k ∷ ids) m h =
    ground (arith, lookup-delete id k m, eq_iff id k, eq_iff k id, open_ids-delete id ids m)

count_done-delete :
    (id : String) (ids : List String) (m : Dict Record)
    → contains ids id ≡ false
    → count_done (delete id m) ids ≡ count_done m ids
count_done-delete id [] m h = refl
count_done-delete id (k ∷ ids) m h =
    ground (arith, lookup-delete id k m, eq_iff id k, eq_iff k id, count_done-delete id ids m)

-- The order after a sweep that may evict `e` exchanges: a prefix without its completed exchanges,
-- and the rest untouched. The sweep stops short of the end only where `e` were evicted.
pub record Swept (e : ℕ) (ids : List String) (m : Dict Record) (kept : List String) : Type 0 where
  pub front : List String
  pub back : List String
  pub parts : ids ≡ front ++ back
  pub kept_parts : kept ≡ open_ids m front ++ back
  pub evicted_le : count_done m front ≤ e
  pub full : (back ≡ []) ⊎ (count_done m front ≡ e)

sweep-Swept-out :
    (e : ℕ) (id : String) (ids : List String) (m : Dict Record) {kept : List String}
    → evictable id m ≡ true
    → contains ids id ≡ false
    → Swept e ids (delete id m) kept
    → Swept (suc e) (id ∷ ids) m kept
sweep-Swept-out e id ids m ev fresh w = record {
  front = id ∷ front;
  back = back;
  parts = ground (arith, w.parts);
  kept_parts = ground (arith, w.kept_parts, open_ids-delete id front m unseen);
  evicted_le = ground (arith, w.evicted_le, count_done-delete id front m unseen);
  full = ground (arith, w.full, count_done-delete id front m unseen);
}
  where
    open w use {front, back}

    unseen : contains front id ≡ false
    unseen = ground (arith, w.parts, contains-append id front back)

sweep-Swept-held :
    (e : ℕ) (id : String) (ids : List String) (m : Dict Record) {kept : List String}
    → evictable id m ≡ false
    → Swept e ids m kept
    → Swept e (id ∷ ids) m (id ∷ kept)
sweep-Swept-held e id ids m held w = record {
  front = id ∷ w.front;
  back = w.back;
  parts = ground (arith, w.parts);
  kept_parts = ground (arith, w.kept_parts);
  evicted_le = ground (arith, w.evicted_le);
  full = ground (arith, w.full);
}

sweep_out :
    (e : ℕ) (id : String) (ids : List String) (m : Dict Record)
    → evictable id m ≡ true
    → (sweep (suc e) (id ∷ ids) m).0 ≡ (sweep e ids (delete id m)).0
unfolding sweep
sweep_out e id ids m ev =
    let fewer : suc e - 1 ≡ e = omega arith in
    let go : ltb 0 (suc e) ≡ true = ground arith in rw (ev, go, fewer)

sweep_held :
    (e : ℕ) (id : String) (ids : List String) (m : Dict Record)
    → evictable id m ≡ false
    → (sweep e (id ∷ ids) m).0 ≡ id ∷ (sweep e ids m).0
unfolding sweep
sweep_held e id ids m held = rw held

-- A sweep that may evict e exchanges splits the order of distinct ids: from a prefix every
-- exchange that may be evicted is gone and the others stay in order, the rest is untouched, at
-- most e are evicted, and the prefix is the whole order unless exactly e were.
pub sweep-Swept :
    (e : ℕ) (ids : List String) (m : Dict Record) → Distinct ids → Swept e ids m (sweep e ids m).0
sweep-Swept e [] m d = record {
  front = [];
  back = [];
  parts = refl;
  kept_parts = unfold sweep in refl;
  evicted_le = omega arith;
  full = inl refl;
}
sweep-Swept zero (id ∷ ids) m d = record {
  front = [];
  back = id ∷ ids;
  parts = refl;
  kept_parts = sweep-zero (id ∷ ids) m;
  evicted_le = omega arith;
  full = inr refl;
}
sweep-Swept (suc e) (id ∷ ids) m d = elim (Bool-cases (evictable id m)) [
  | inl ev ↦
      rw (sweep_out e id ids m ev)
        (sweep-Swept-out e id ids m ev d.0 (sweep-Swept e ids (delete id m) d.1))
  | inr held ↦
      rw (sweep_held (suc e) id ids m held)
        (sweep-Swept-held (suc e) id ids m held (sweep-Swept (suc e) ids m d.1))
]
