-- ===== src/Wire.antt =====
-- internal/wire/wire.go and call.go: the mux over one module's wire, as steps under its mutex. A
-- waiting call is a number, and what its channel receives is an entry of `received`: a response, or
-- the nil sentinel. The Go channel has room for one value.
pub mod Calls
use suctl.Prelude.{
  ℕ, String, Bool, true, false, List, [], ◌∷◌, ◌++◌, map, Option, none, some, Dict, lookup, insert,
  delete, ◌==◌, if◌then◌else◌,
}
use suctl.Protocol.Code
use suctl.Protocol.{sprintf, Request, Response, version}

pub record Mux : Type 0 where
  pub pending : Dict ℕ
  pub err : Option String
  pub received : List (ℕ × Option Response)

abbrev pub new_mux : Mux
new_mux = record { pending = []; err = none; received = [] }

-- RoundTrip up to its write: the request that is written, or the sticky error.
pub data Begun : Type 0 where
  written : Request → Begun
  refused : String → Begun

-- `fresh` is the id that NewID would mint, `stamp` the time of sending.
abbrev pub prepared : String → String → Request → Request
prepared fresh stamp req = record req {
  id = if req.id == "" then fresh else req.id;
  ts_sent = stamp;
}

unfoldable pub begin_round_trip : ℕ → String → String → Request → Mux → Mux × Begun
begin_round_trip call fresh stamp req m =
    let sent = prepared fresh stamp req in
    elim m.err [
      | some e ↦ (m, refused e)
      | none ↦ (record m { pending = insert sent.id call m.pending }, written sent)
    ]

-- RoundTrip after a failed write, and after its timeout: the waiter is taken out.
unfoldable pub forget : String → Mux → Mux
forget id m = record m { pending = delete id m.pending }

-- deliver
unfoldable pub deliver : Response → Mux → Mux
deliver resp m = elim (lookup resp.id m.pending) [
  | none ↦ m
  | some call ↦ record m {
    pending = delete resp.id m.pending;
    received = m.received ++ (call, some resp) ∷ [];
  }
]

abbrev pub released : Dict ℕ → List (ℕ × Option Response)
released [] = []
released ((id, call) ∷ p) = (call, none) ∷ released p

abbrev sticky : Option String → String → Option String
sticky none e = some e
sticky (some old) e = some old

-- fail
unfoldable pub fail : String → Mux → Mux
fail e m = record m {
  err = sticky m.err e;
  pending = [];
  received = m.received ++ released m.pending;
}

-- result: the error of a call that received the sentinel.
pub data Outcome : Type 0 where
  response : Response → Outcome
  error : String → Outcome

unfoldable pub result : Option Response → Mux → Outcome
result (some resp) m = response resp
result none m = elim m.err [ none ↦ error "wire: closed" | some e ↦ error e ]

-- serveInbound: the response that goes back.
unfoldable pub serve_inbound : Option (Request → Response) → String → Request → Response
serve_inbound (some handler) stamp req = handler req
serve_inbound none stamp req = record {
  v = version;
  id = req.id;
  ts_sent = stamp;
  status = "error";
  job_token = req.job_token;
  result = none;
  error = some (record {
    code = Code.unknown_command;
    message = sprintf "wire: no request handler installed" [];
    detail = none;
  });
}
