-- ===== src/Messages/Tokens.antt =====
-- internal/messages/jobs.go, jobTokens: which tokens and jobs are listed.
use mathlib.Core.List.{reverse}
use suctl.Prelude.{
  in-reverse, length-reverse, ℕ, zero, suc, ◌≤◌, String, ◌≡◌, refl, sym, ap, ◌∙◌, Bool, true, false,
  ◌||◌, ◌==◌, List, [], ◌∷◌, Option, some, inl, inr, arith, eq_iff, Dict, lookup, contains,
  Distinct, In, length, Bool-cases, Option-cases,
}
use suctl.Messages.{Record, Store, with_token, by_token, gather, list}
use suctl.Messages.Jobs.{Job, job_of, job, job_tokens, distinct_tokens, select_jobs}

pub in-select_jobs :
    (p : Job → Bool) (s : Store) (ts : List String) (j : Job)
    → In j (select_jobs p s ts)
    → (t : String) × In t ts × (job t s ≡ some j) × (p j ≡ true)
unfolding select_jobs
in-select_jobs p s [] j h = absurd h
in-select_jobs p s (t ∷ ts) j h = elim (Option-cases (job t s)) [
  | inl e ↦
      let (u, l, i, q) = in-select_jobs p s ts j (rw (e, select_jobs) at h) in (u, inr l, i, q)
  | inr (k, e) ↦ elim (Bool-cases (p k)) [
    | inl keep ↦
        in-select_cons t ts k e keep j (in-select_jobs p s ts j) (rw (e, select_jobs, keep) at h)
    | inr skip ↦
        let (u, l, i, q) = in-select_jobs p s ts j (rw (e, select_jobs, skip) at h) in
        (u, inr l, i, q)
  ]
]
  where
    in-select_cons :
        (t : String) (ts : List String) (k : Job)
        → job t s ≡ some k
        → p k ≡ true
        → (j : Job)
        → (In j (select_jobs p s ts) → (t : String) × In t ts × (job t s ≡ some j) × (p j ≡ true))
        → In j (k ∷ select_jobs p s ts)
        → (u : String) × In u (t ∷ ts) × (job u s ≡ some j) × (p j ≡ true)
    in-select_cons t ts k e keep j ih (inl same) = (t, inl refl, rw same e, rw same keep)
    in-select_cons t ts k e keep j ih (inr r) = let (u, l, i, q) = ih r in (u, inr l, i, q)

pub select_jobs-in :
    (p : Job → Bool) (s : Store) (ts : List String) (t : String) (j : Job)
    → In t ts
    → job t s ≡ some j
    → p j ≡ true
    → In j (select_jobs p s ts)
unfolding select_jobs
select_jobs-in p s [] t j h e q = absurd h
select_jobs-in p s (u ∷ ts) t j (inl same) e q = rw (← same) (rw (e, select_jobs) (rw q (inl refl)))
select_jobs-in p s (u ∷ ts) t j (inr h) e q = elim (Option-cases (job u s)) [
  | inl no_job ↦ rw (no_job, select_jobs) (select_jobs-in p s ts t j h e q)
  | inr (k, f) ↦ elim (Bool-cases (p k)) [
    | inl keep ↦ rw (f, select_jobs) (rw keep (inr (select_jobs-in p s ts t j h e q)))
    | inr skip ↦ rw (f, select_jobs) (rw skip (select_jobs-in p s ts t j h e q))
  ]
]

pub in-with_token :
    (t : String) (m : Dict Record) (ids : List String) (r : Record)
    → In r (with_token t m ids)
    → (id : String) × In id ids × (lookup id m ≡ some r) × (r.request.job_token ≡ t)
unfolding with_token
in-with_token t m [] r h = absurd h
in-with_token t m (id ∷ ids) r h = elim (Option-cases (lookup id m)) [
  | inl e ↦ let (k, l, i, q) = in-with_token t m ids r (rw (e, with_token) at h) in (k, inr l, i, q)
  | inr (x, e) ↦ elim (Bool-cases (x.request.job_token == t)) [
    | inl hit ↦
        cons x e ((eq_iff _ t).0 hit) (in-with_token t m ids r) (rw (e, with_token, hit) at h)
    | inr miss ↦
        let (k, l, i, q) = in-with_token t m ids r (rw (e, with_token, miss) at h) in
        (k, inr l, i, q)
  ]
]
  where
    cons :
        (x : Record)
        → lookup id m ≡ some x
        → x.request.job_token ≡ t
        → (In r (with_token t m ids)
            → (k : String) × In k ids × (lookup k m ≡ some r) × (r.request.job_token ≡ t))
        → In r (x ∷ with_token t m ids)
        → (k : String) × In k (id ∷ ids) × (lookup k m ≡ some r) × (r.request.job_token ≡ t)
    cons x e hit ih (inl same) = (id, inl refl, rw same e, rw same hit)
    cons x e hit ih (inr l) = let (k, l', i, q) = ih l in (k, inr l', i, q)

in-gather :
    (n : ℕ) (m : Dict Record) (ids : List String) (id : String) (r : Record)
    → length ids ≤ n
    → In id ids
    → lookup id m ≡ some r
    → In r (gather n m ids)
unfolding gather
in-gather n m [] id r le h e = absurd h
in-gather zero m (x ∷ ids) id r le h e = absurd (omega arith)
in-gather (suc n) m (x ∷ ids) id r le (inl same) e = rw (← same) (rw (e, gather) (inl refl))
in-gather (suc n) m (x ∷ ids) id r le (inr h) e = elim (Option-cases (lookup x m)) [
  | inl f ↦ rw (f, gather) (in-gather (suc n) m ids id r (omega arith) h e)
  | inr (y, f) ↦ rw (f, gather) (inr (in-gather n m ids id r (omega arith) h e))
]

-- Each listed record is the one that the store has under its id.
pub gather-in :
    (n : ℕ) (m : Dict Record) (ids : List String) (r : Record)
    → In r (gather n m ids)
    → (id : String) × (lookup id m ≡ some r)
unfolding gather
gather-in n m [] r h = absurd h
gather-in zero m (x ∷ ids) r h = absurd h
gather-in (suc n) m (x ∷ ids) r h = elim (Option-cases (lookup x m)) [
  | inl nothing ↦ gather-in (suc n) m ids r (rw (nothing, gather) at h)
  | inr (y, found) ↦ elim (rw (found, gather) at h) [
    | inl same ↦ (x, found ∙ ap some (sym same))
    | inr later ↦ gather-in n m ids r later
  ]
]

in-distinct_tokens :
    (seen : List String) (rs : List Record) (r : Record) (t : String)
    → In r rs
    → r.request.job_token ≡ t
    → (t == "") ≡ false
    → contains seen t ≡ false
    → In t (distinct_tokens seen rs)
unfolding distinct_tokens
in-distinct_tokens seen [] r t h e ne fresh = absurd h
in-distinct_tokens seen (x ∷ rs) r t (inl same) e ne fresh =
    let e' : x.request.job_token ≡ t = cc in rw (e', ne, fresh) (inl refl)
in-distinct_tokens seen (x ∷ rs) r t (inr h) e ne fresh =
    elim (Bool-cases (x.request.job_token == "" || contains seen x.request.job_token)) [
      | inl skip ↦ rw skip (in-distinct_tokens seen rs r t h e ne fresh)
      | inr keep ↦ rw keep (elim (Bool-cases (x.request.job_token == t)) [
        | inl hit ↦ inl (sym ((eq_iff _ t).0 hit))
        | inr miss ↦
            inr (in-distinct_tokens (x.request.job_token ∷ seen) rs r t h e ne (rw (miss, fresh)))
      ])
    ]

distinct_tokens-fresh :
    (seen : List String) (rs : List Record) (t : String)
    → contains seen t ≡ true
    → contains (distinct_tokens seen rs) t ≡ false
unfolding distinct_tokens
distinct_tokens-fresh seen [] t h = refl
distinct_tokens-fresh seen (x ∷ rs) t h = ground (
  arith,
  eq_iff x.request.job_token t,
  distinct_tokens-fresh seen rs t,
  distinct_tokens-fresh (x.request.job_token ∷ seen) rs t,
)

distinct_tokens-Distinct :
    (seen : List String) (rs : List Record) → Distinct (distinct_tokens seen rs)
unfolding distinct_tokens
distinct_tokens-Distinct seen [] = tt
distinct_tokens-Distinct seen (x ∷ rs) = ground (
  arith,
  distinct_tokens-Distinct seen rs,
  distinct_tokens-Distinct (x.request.job_token ∷ seen) rs,
  distinct_tokens-fresh (x.request.job_token ∷ seen) rs x.request.job_token,
  eq_iff x.request.job_token x.request.job_token,
)

pub job_tokens-Distinct : (s : Store) → Distinct (job_tokens s)
unfolding job_tokens
job_tokens-Distinct s = distinct_tokens-Distinct [] (list 0 s)

distinct_tokens-named :
    (seen : List String) (rs : List Record) (t : String)
    → In t (distinct_tokens seen rs)
    → (t == "") ≡ false
unfolding distinct_tokens
distinct_tokens-named seen [] t h = absurd h
distinct_tokens-named seen (x ∷ rs) t h =
    elim (Bool-cases (x.request.job_token == "" || contains seen x.request.job_token)) [
      | inl skip ↦ distinct_tokens-named seen rs t (rw skip at h)
      | inr keep ↦
          cons (ground arith) (distinct_tokens-named (x.request.job_token ∷ seen) rs t)
            (rw keep at h)
    ]
  where
    cons :
        (x.request.job_token == "") ≡ false
        → (In t (distinct_tokens (x.request.job_token ∷ seen) rs) → (t == "") ≡ false)
        → In t (x.request.job_token ∷ distinct_tokens (x.request.job_token ∷ seen) rs)
        → (t == "") ≡ false
    cons named ih (inl e) = rw e named
    cons named ih (inr l) = ih l

pub job_tokens-named : (t : String) (s : Store) → In t (job_tokens s) → (t == "") ≡ false
unfolding job_tokens
job_tokens-named t s = distinct_tokens-named [] (list 0 s) t

first_record :
    (t : String) (rs : List Record) (stamp : Option ℕ) (j : Job)
    → job_of t rs stamp ≡ some j
    → (r : Record) × In r rs
unfolding job_of
first_record t [] stamp j e = cc
first_record t (r ∷ rs) stamp j e = (r, inl refl)

-- Every job but that of the empty token is listed.
pub in-job_tokens :
    (t : String) (s : Store) (j : Job) → (t == "") ≡ false → job t s ≡ some j → In t (job_tokens s)
unfolding job_tokens job list
in-job_tokens t s j ne e =
    let (r, l) = first_record t (by_token t s) _ j e in
    let (id, at, is, tok) = in-with_token t s.records s.order r l in
    in-distinct_tokens [] _ r t
      (in-gather (length s.order) s.records (reverse s.order) id r
        (omega (arith, length-reverse s.order)) (in-reverse id s.order at) is)
      tok ne refl
