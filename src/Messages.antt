-- ===== src/Messages.antt =====
-- internal/messages/store.go: the in-memory messages store. A Go pointer map is a dictionary of
-- records, since only the store holds the pointers. The clock is an argument `now`; the zero time
-- is 0, and a stamp that the code takes is never 0.
pub mod Jobs
pub mod Trim
pub mod Invariant
pub mod History
pub mod Eviction
pub mod Lifecycle
pub mod Promotion
pub mod Filled
pub mod Calm
pub mod Opened
pub mod Reports
pub mod Tokens
pub mod Derived
use mathlib.Core.List.{reverse}
use suctl.Prelude.{
  ℕ, zero, suc, ◌-◌, ◌*◌, String, Bool, true, false, not, ◌&&◌, ◌==◌, List, [], ◌∷◌, ◌++◌, Option,
  none, some, Dict, lookup, insert, delete, contains, length, ltb, nat_eq, is_some, if◌then◌else◌,
}
use suctl.Protocol.{Request, Response}

abbrev pub max_records : ℕ
max_records = 4096

pub record Record : Type 0 where
  pub request : Request
  pub response : Response
  pub req_received : ℕ
  pub resp_received : ℕ
  pub module_name : String
  pub capability : String
  pub caller : String

-- Record.Done
abbrev pub done : Record → Bool
done r = not (nat_eq r.resp_received 0)

pub record Store : Type 0 where
  pub records : Dict Record
  pub order : List String
  pub started : Dict ℕ

abbrev pub empty : Store
empty = record { records = []; order = []; started = [] }

abbrev pub no_response : Response
no_response = record {
  v = "";
  id = "";
  ts_sent = "";
  status = "";
  job_token = "";
  result = none;
  error = none;
}

-- Whether trimming may evict the exchange `id`.
abbrev pub evictable : String → Dict Record → Bool
evictable id records = elim (lookup id records) [ none ↦ false | some r ↦ done r ]

-- The loop over the order in trimLocked: the ids that are kept, and the records that are left.
pub sweep : ℕ → List String → Dict Record → List String × Dict Record
sweep excess [] records = ([], records)
sweep excess (id ∷ ids) records =
    let out = evictable id records && ltb 0 excess in
    let (keep, left) =
      sweep (if out then excess - 1 else excess) ids (if out then delete id records else records) in
    (if out then keep else id ∷ keep, left)

-- The tokens of the records, without the empty one.
pub live_tokens : Dict Record → List String
live_tokens [] = []
live_tokens ((id, r) ∷ m) =
    let rest = live_tokens m in
    if r.request.job_token == "" then rest else r.request.job_token ∷ rest

-- The loop that drops the Started stamps of tokens that no record carries.
pub drop_stamps : List String → Dict ℕ → Dict ℕ
drop_stamps live [] = []
drop_stamps live ((token, t) ∷ m) =
    let rest = drop_stamps live m in if contains live token then (token, t) ∷ rest else rest

-- trimLocked, for any cap.
unfoldable pub trim_at : ℕ → Store → Store
trim_at cap s =
    let (keep, left) = sweep (length s.order - cap) s.order s.records in
    if ltb (length s.order) (cap * 2)
    then s
    else record { records = left; order = keep; started = drop_stamps (live_tokens left) s.started }

-- Store.Start
unfoldable pub start : String → ℕ → Store → Store
start token now s = elim (lookup token s.started) [
  | none ↦ record s { started = insert token now s.started }
  | some t ↦ s
]

-- Store.StartedAt
abbrev pub started_at : String → Store → Option ℕ
started_at token s = lookup token s.started

abbrev pub opened : Request → String → String → String → ℕ → Record
opened req module_name capability caller now = record {
  request = req;
  response = no_response;
  req_received = now;
  resp_received = 0;
  module_name = module_name;
  capability = capability;
  caller = caller;
}

-- Store.Open up to its trimming.
unfoldable pub open_record : Request → String → String → String → ℕ → Store → Store
open_record req module_name capability caller now s = record s {
  records = insert req.id (opened req module_name capability caller now) s.records;
  order = if is_some (lookup req.id s.records) then s.order else s.order ++ req.id ∷ [];
}

-- Store.Open
unfoldable pub open_exchange : Request → String → String → String → ℕ → Store → Store
open_exchange req module_name capability caller now s =
    trim_at max_records (open_record req module_name capability caller now s)

-- Store.Complete: the store, and whether a record matched.
unfoldable pub complete : String → Response → ℕ → Store → Store × Bool
complete id resp now s = elim (lookup id s.records) [
  | none ↦ (s, false)
  | some r ↦ (
    record s { records = insert id (record r { response = resp; resp_received = now }) s.records },
    true,
  )
]

-- Store.Lookup
abbrev pub find_record : String → Store → Option Record
find_record id s = lookup id s.records

-- The loop of List, over the ids from the newest.
unfoldable pub gather : ℕ → Dict Record → List String → List Record
gather n records [] = []
gather zero records (id ∷ ids) = []
gather (suc n) records (id ∷ ids) = elim (lookup id records) [
  | none ↦ gather (suc n) records ids
  | some r ↦ r ∷ gather n records ids
]

-- Store.List: `limit` 0 is no limit.
unfoldable pub list : ℕ → Store → List Record
unfolding gather
list limit s =
    let n = length s.order in
    gather (if ltb 0 limit && ltb limit n then limit else n) s.records (reverse s.order)

-- The loop of ByToken, over the ids from the oldest.
unfoldable pub with_token : String → Dict Record → List String → List Record
with_token token records [] = []
with_token token records (id ∷ ids) =
    let rest = with_token token records ids in
    elim (lookup id records) [
      | none ↦ rest
      | some r ↦ if r.request.job_token == token then r ∷ rest else rest
    ]

-- Store.ByToken
abbrev pub by_token : String → Store → List Record
by_token token s = with_token token s.records s.order
