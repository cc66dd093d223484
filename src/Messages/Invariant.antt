-- ===== src/Messages/Invariant.antt =====
-- internal/messages/store.go: the invariant of the store, and what an operation does to one exchange.
use suctl.Prelude.{
  ℕ, ◌-◌, ◌*◌, ◌≤◌, String, ◌≡◌, ◌≢◌, refl, true, false, ◌==◌, List, [], ◌∷◌, ◌++◌, Option, some,
  none, ap, sym, ◌∙◌, ◌⊎◌, inl, inr, arith, eq_iff, Dict, lookup, lookup-insert, contains,
  contains-append, Distinct, append-Distinct, length, length-append, ltb, is_some, Bool-cases,
  Option-cases, ◌+◌, if◌then◌else◌,
}
use suctl.Protocol.{Request, Response}
use suctl.Messages.{
  Record, Store, done, opened, trim_at, start, open_record, open_exchange, complete, max_records,
  empty, sweep,
}
use suctl.Messages.Trim.{
  sweep-lookup_open, sweep-lookup_other, sweep-lookup_same, sweep-listed, sweep-Distinct,
  sweep-Swept, Swept, open_ids, count_done,
}

-- The order lists every recorded exchange once, and nothing else.
pub record Inv (s : Store) : Type 0 where
  pub distinct : Distinct s.order
  pub listed : (id : String) → contains s.order id ≡ is_some (lookup id s.records)

pub empty-Inv : Inv empty
empty-Inv = record { distinct = tt; listed = λ id. unfold lookup in refl }

trim_at-Inv : (cap : ℕ) (s : Store) → Inv s → Inv (trim_at cap s)
unfolding trim_at
trim_at-Inv cap s v = elim (Bool-cases (ltb (length s.order) (cap * 2))) [
  | inl small ↦ rw small v
  | inr large ↦ rw large (record {
    distinct = sweep-Distinct e s.order s.records v.distinct;
    listed = λ id. ground (
      arith,
      v.listed id,
      sweep-listed e s.order s.records v.distinct (λ k c. ground (arith, v.listed k)) id,
      sweep-lookup_other id e s.order s.records,
    );
  })
]
  where
    e : ℕ
    e = length s.order - cap

open_record-Inv :
    (req : Request) (m c w : String) (now : ℕ) (s : Store)
    → Inv s
    → Inv (open_record req m c w now s)
unfolding open_record
open_record-Inv req m c w now s v = elim (Bool-cases (is_some (lookup req.id s.records))) [
  | inl old ↦ record {
    distinct = rw old v.distinct;
    listed = λ id. ground (
      arith,
      v.listed id,
      lookup-insert req.id id (opened req m c w now) s.records,
      eq_iff req.id id,
    );
  }
  | inr new ↦ record {
    distinct = rw new (append-Distinct req.id s.order v.distinct (ground (arith, v.listed req.id)));
    listed = λ id. ground (
      arith,
      v.listed id,
      lookup-insert req.id id (opened req m c w now) s.records,
      eq_iff req.id id,
      contains-append id s.order (req.id ∷ []),
    );
  }
]

-- Every operation of the store keeps the invariant.
pub open_exchange-Inv :
    (req : Request) (m c w : String) (now : ℕ) (s : Store)
    → Inv s
    → Inv (open_exchange req m c w now s)
unfolding open_exchange
open_exchange-Inv req m c w now s v = trim_at-Inv max_records _ (open_record-Inv req m c w now s v)

abbrev pub completed : Response → ℕ → Option Record → Option Record
completed resp now none = none
completed resp now (some r) = some (record r { response = resp; resp_received = now })

-- Completing an exchange fills the response side of that exchange and touches no other.
pub lookup-complete :
    (id j : String) (resp : Response) (now : ℕ) (s : Store)
    → lookup j (complete id resp now s).0.records
      ≡ (if id == j then completed resp now (lookup j s.records) else lookup j s.records)
unfolding complete
lookup-complete id j resp now s = elim (Option-cases (lookup id s.records)) [
  | inl e ↦ rw (e, complete) (ground (arith, e, eq_iff id j))
  | inr (r, e) ↦ rw (e, complete) (rw lookup-insert (ground (arith, e, eq_iff id j)))
]

pub order-complete :
    (id : String) (resp : Response) (now : ℕ) (s : Store)
    → (complete id resp now s).0.order ≡ s.order
unfolding complete
order-complete id resp now s = ground arith

pub started-complete :
    (id : String) (resp : Response) (now : ℕ) (s : Store)
    → (complete id resp now s).0.started ≡ s.started
unfolding complete
started-complete id resp now s = ground arith

pub complete-Inv :
    (id : String) (resp : Response) (now : ℕ) (s : Store) → Inv s → Inv (complete id resp now s).0
complete-Inv id resp now s v = record {
  distinct = rw order-complete v.distinct;
  listed = λ j. rw (order-complete, lookup-complete) (ground (arith, v.listed j));
}

pub start-Inv : (token : String) (now : ℕ) (s : Store) → Inv s → Inv (start token now s)
unfolding start
start-Inv token now s v = record {
  distinct = ground (arith, v.distinct);
  listed = λ j. ground (arith, v.listed j);
}

trim_at-open :
    (cap : ℕ) (s : Store) (j : String) {r : Record}
    → lookup j s.records ≡ some r
    → done r ≡ false
    → lookup j (trim_at cap s).records ≡ some r
unfolding trim_at
trim_at-open cap s j h o = elim (Bool-cases (ltb (length s.order) (cap * 2))) [
  | inl small ↦ rw small h
  | inr large ↦ rw large (sweep-lookup_open j _ s.order s.records h o)
]

-- The exchange that is opened is recorded, whatever is trimmed.
pub open_exchange-own :
    (req : Request) (m c w : String) (now : ℕ) (s : Store)
    → lookup req.id (open_exchange req m c w now s).records ≡ some (opened req m c w now)
unfolding open_exchange open_record
open_exchange-own req m c w now s =
    trim_at-open max_records _ req.id (rw lookup-insert (ground (arith, eq_iff req.id req.id))) refl

-- Opening an exchange records it as open, and another exchange that still waits for its response
-- stays as it is, whatever is trimmed.
pub open_exchange_keeps :
    (req : Request) (m c w : String) (now : ℕ) (s : Store) (j : String) (r : Record)
    → j ≢ req.id
    → lookup j s.records ≡ some r
    → done r ≡ false
    → (lookup req.id (open_exchange req m c w now s).records ≡ some (opened req m c w now))
      × (lookup j (open_exchange req m c w now s).records ≡ some r)
unfolding open_exchange open_record
open_exchange_keeps req m c w now s j r ne h o = (
  open_exchange-own req m c w now s,
  trim_at-open max_records _ j (rw lookup-insert (ground (arith, ne, h, eq_iff req.id j))) o,
)

length-open_ids :
    (m : Dict Record) (ids : List String) → length (open_ids m ids) + count_done m ids ≡ length ids
length-open_ids m [] = omega arith
length-open_ids m (id ∷ ids) = ground (arith, length-open_ids m ids)

-- What trimming leaves of an order: from a prefix every completed exchange is gone and the open ones
-- stay, and the rest is untouched. Exactly the cap is left, unless the prefix is the whole order and
-- the open exchanges are more.
pub record Trimmed (cap : ℕ) (s after : Store) : Type 0 where
  pub front : List String
  pub back : List String
  pub parts : s.order ≡ front ++ back
  pub kept_parts : after.order ≡ open_ids s.records front ++ back
  pub kept_records :
      (id : String) → contains after.order id ≡ true → lookup id after.records ≡ lookup id s.records
  pub size : (length after.order ≡ cap) ⊎ ((back ≡ []) × (cap ≤ length after.order))

Swept-length :
    (cap : ℕ) (ids : List String) (m : Dict Record) (kept : List String)
    → cap ≤ length ids
    → (w : Swept (length ids - cap) ids m kept)
    → (length kept ≡ cap) ⊎ ((w.back ≡ []) × (cap ≤ length kept))
Swept-length cap ids m kept le w = elim w.full [
  | inl none_left ↦
      inr (none_left, omega (arith, w.evicted_le, sizes.0, sizes.1, sizes.2, sizes.3, sizes.4, le))
  | inr e ↦ inl (omega (arith, e, le, sizes.0, sizes.1, sizes.2, sizes.3, sizes.4))
]
  where
    sizes :
        (length (open_ids m w.front) + count_done m w.front ≡ length w.front)
        × (length (open_ids m w.front ++ w.back) ≡ length (open_ids m w.front) + length w.back)
        × (length (w.front ++ w.back) ≡ length w.front + length w.back)
        × (length ids ≡ length (w.front ++ w.back))
        × (length kept ≡ length (open_ids m w.front ++ w.back))
    sizes = (
      length-open_ids m w.front,
      length-append (open_ids m w.front) w.back,
      length-append w.front w.back,
      ap length w.parts,
      ap length w.kept_parts,
    )

-- Trimming a well-formed store of at least twice the cap takes every completed exchange, and no
-- open one, out of a prefix of the order, and leaves the rest of the order and the records of what
-- is left alone; exactly the cap is left, unless the prefix is the whole order, so that only open
-- exchanges are left, and these are at least the cap.
pub trim_size :
    (cap : ℕ) (s : Store) → Inv s → cap * 2 ≤ length s.order → Trimmed cap s (trim_at cap s)
unfolding trim_at
trim_size cap s v le =
    let large : ltb (length s.order) (cap * 2) ≡ false = ground arith in
    let w = sweep-Swept (length s.order - cap) s.order s.records v.distinct in
    rw large (record {
      front = w.front;
      back = w.back;
      parts = w.parts;
      kept_parts = w.kept_parts;
      kept_records = λ id here. same_record id here;
      size =
          Swept-length cap s.order s.records (sweep (length s.order - cap) s.order s.records).0
            (omega arith) w;
    })
  where
    e : ℕ
    e = length s.order - cap

    same_record :
        (id : String)
        → contains (sweep e s.order s.records).0 id ≡ true
        → lookup id (sweep e s.order s.records).1 ≡ lookup id s.records
    same_record id here = elim (Option-cases (lookup id (sweep e s.order s.records).1)) [
      | inl gone ↦ absurd (
          ground (
            arith,
            here,
            gone,
            sweep-listed e s.order s.records v.distinct (λ k c. ground (arith, v.listed k)) id,
          ))
      | inr (r, found) ↦ found ∙ sym (sweep-lookup_same id e s.order s.records found)
    ]
