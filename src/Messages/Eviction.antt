-- ===== src/Messages/Eviction.antt =====
-- internal/messages/store.go, Store.trimLocked: what becomes of a job whose exchanges are completed.
use suctl.Prelude.{
  ℕ, ◌-◌, ◌*◌, ◌≤◌, String, ◌≡◌, refl, true, false, ◌==◌, List, [], ◌∷◌, some, none, arith, eq_iff,
  Dict, lookup, delete, lookup-delete, contains, ◌⊎◌, ltb, length, Bool-cases, Option-cases, inl,
  inr,
}
use suctl.Messages.{Record, Store, evictable, sweep, trim_at, with_token}
use suctl.Messages.Jobs.{job, job_of}
use suctl.Messages.Trim.{sweep-contains, sweep-lookup_same}

-- No listed record has the token.
with_token-empty :
    (token : String) (m : Dict Record) (ids : List String) (j : String) (r : Record)
    → with_token token m ids ≡ []
    → contains ids j ≡ true
    → lookup j m ≡ some r
    → (r.request.job_token == token) ≡ false
unfolding with_token
with_token-empty token m [] j r h c e = cc
with_token-empty token m (id ∷ ids) j r h c e = elim (Bool-cases (id == j)) [
  | inl hit ↦
      let here : lookup id m ≡ some r = rw ((eq_iff id j).0 hit) e in
      elim (Bool-cases (r.request.job_token == token)) [
        | inl met ↦ cc (rw (here, with_token, met) at h)
        | inr unmet ↦ unmet
      ]
  | inr miss ↦
      with_token-empty token m ids j r (rest (Option-cases (lookup id m))) (ground (arith, c, miss))
        e
]
  where
    rest :
        (lookup id m ≡ none) ⊎ ((q : Record) × (lookup id m ≡ some q)) → with_token token m ids ≡ []
    rest (inl f) = rw (f, with_token) at h
    rest (inr (q, f)) = elim (Bool-cases (q.request.job_token == token)) [
      | inl met ↦ cc (rw (f, with_token, met) at h)
      | inr unmet ↦ rw (f, with_token, unmet) at h
    ]

with_token-none :
    (token : String) (m : Dict Record) (ids : List String)
    → ((j : String) (r : Record)
        → contains ids j ≡ true
        → lookup j m ≡ some r
        → (r.request.job_token == token) ≡ false)
    → with_token token m ids ≡ []
unfolding with_token
with_token-none token m [] h = refl
with_token-none token m (id ∷ ids) h = elim (Option-cases (lookup id m)) [
  | inl e ↦ rw (e, with_token) (with_token-none token m ids (λ j r c. h j r (ground (arith, c))))
  | inr (r, e) ↦
      rw (e, with_token)
        (rw (h id r (ground (arith, eq_iff id id)) e)
          (with_token-none token m ids (λ j q c. h j q (ground (arith, c)))))
]

-- The oldest exchange, once completed, is the first that a sweep evicts.
sweep-first :
    (e : ℕ) (id : String) (ids : List String) (m : Dict Record)
    → evictable id m ≡ true
    → ltb 0 e ≡ true
    → sweep e (id ∷ ids) m ≡ sweep (e - 1) ids (delete id m)
unfolding sweep
sweep-first e id ids m out more = rw (out, more) refl

trim_at-large :
    (cap : ℕ) (s : Store) (id : String) (ids : List String)
    → s.order ≡ id ∷ ids
    → evictable id s.records ≡ true
    → cap * 2 ≤ length s.order
    → ((trim_at cap s).order ≡ (sweep (length s.order - cap - 1) ids (delete id s.records)).0)
      × ((trim_at cap s).records ≡ (sweep (length s.order - cap - 1) ids (delete id s.records)).1)
unfolding trim_at
trim_at-large cap s id ids first out le =
    let large : ltb (length s.order) (cap * 2) ≡ false = ground arith in
    let more : ltb 0 (length s.order - cap) ≡ true = ground (arith, first) in
    let step : sweep (length s.order - cap) s.order s.records
        ≡ sweep (length s.order - cap - 1) ids (delete id s.records) =
      rw first (sweep-first (length (id ∷ ids) - cap) id ids s.records out (rw first at more)) in
    rw (large, step) (refl, refl)

-- When the trimming of a store of at least twice the cap finds the oldest exchange completed and
-- no other listed exchange of its token, the store knows no job of that token afterwards, whatever
-- the state of the job was.
pub trim_forgets :
    (cap : ℕ) (s : Store) (id : String) (ids : List String) (token : String)
    → s.order ≡ id ∷ ids
    → evictable id s.records ≡ true
    → with_token token s.records ids ≡ []
    → cap * 2 ≤ length s.order
    → job token (trim_at cap s) ≡ none
unfolding job job_of
trim_forgets cap s id ids token first out alone le =
    rw (with_token-none token (trim_at cap s).records (trim_at cap s).order gone) refl
  where
    gone :
        (j : String) (r : Record)
        → contains (trim_at cap s).order j ≡ true
        → lookup j (trim_at cap s).records ≡ some r
        → (r.request.job_token == token) ≡ false
    gone j r c e =
        let (order_of, records_of) = trim_at-large cap s id ids first out le in
        let kept : lookup j (delete id s.records) ≡ some r =
          sweep-lookup_same j (length s.order - cap - 1) ids (delete id s.records) {r = r}
            (rw records_of at e) in
        with_token-empty token s.records ids j r alone
          (ground (
            arith,
            rw order_of at c,
            sweep-contains j (length s.order - cap - 1) ids (delete id s.records),
          ))
          (ground (arith, kept, lookup-delete id j s.records))
