-- ===== src/Tests/Data.antt =====
-- Three modules, the invokes that the face sends them, and the stores that these leave.
use suctl.Prelude.{
  ℕ, String, Bool, true, false, List, [], ◌∷◌, Option, none, some, ◌≡◌, ◌≢◌, ◌==◌, eq_iff,
}
use suctl.Protocol.{Request, Response, version}
use suctl.Protocol.Values.{Json, Fields}
use suctl.Manifest.{Capability, Manifest}
use suctl.Messages
use suctl.Messages.{empty, open_exchange, start}
use suctl.Modules
use suctl.Modules.{State, no_reason}
use suctl.Broker.Core.{Core, Clock}

abbrev pub request : String → String → String → Json → Request
request id cmd token params = record {
  v = version;
  id = id;
  ts_sent = "";
  cmd = cmd;
  job_token = token;
  params = params;
}

-- {"name": cap}
abbrev pub naming : String → Json
naming cap = Json.obj (Fields.field "name" (Json.str cap) Fields.end)

-- {"state": state}
abbrev pub saying : String → Json
saying state = Json.obj (Fields.field "state" (Json.str state) Fields.end)

abbrev pub invoke_of : String → String → String → Request
invoke_of id token cap = request id "invoke" token (naming cap)

abbrev pub report_of : String → String → String → Request
report_of id token state = request id "job_update" token (saying state)

abbrev pub ok_of : String → Option Json → Response
ok_of id result = record {
  v = version;
  id = id;
  ts_sent = "2026-01-01T00:00:00Z";
  status = "ok";
  job_token = "";
  result = result;
  error = none;
}

-- {"accepted": true}
abbrev pub acceptance : Json
acceptance = Json.obj (Fields.field "accepted" (Json.bool true) Fields.end)

abbrev pub capability_of : Bool → String → Capability
capability_of async name = record { name = name; description = ""; async = async; params = [] }

abbrev pub manifest_of : List String → List String → List Capability → Manifest
manifest_of binaries capabilities offers = record {
  version = "1.0.0";
  protocol = "1";
  platform = "linux" ∷ [];
  author = "suctl";
  license = "MIT";
  description = "a module";
  entrypoint = "./run" ∷ [];
  requires = record {
    binaries = binaries;
    paths = [];
    sockets = [];
    permissions = [];
    capabilities = capabilities;
    config = [];
  };
  capabilities = offers;
  hooks = [];
}

abbrev pub module_of : State → ℕ → Manifest → Modules.Record
module_of state wire m = record {
  manifest = some m;
  dir = "/opt/suctl/modules";
  handlers = [];
  state = state;
  reason = no_reason;
  supervisor = some wire;
  monitor = some wire;
  mux = some wire;
}

abbrev pub nginx : Manifest
nginx =
    manifest_of ("nginx" ∷ []) ("certbot.cert.provision" ∷ [])
      (capability_of true "nginx.site.add" ∷ [])

abbrev pub certbot : Manifest
certbot =
    manifest_of ("certbot" ∷ []) ("nginx.site.add" ∷ [])
      (capability_of false "certbot.cert.provision" ∷ [])

abbrev pub os : Manifest
os = manifest_of [] [] (capability_of false "os.svc.list" ∷ [])

-- nginx and certbot need each other; os stands alone.
abbrev pub installed : State → Modules.Store
installed state =
    ("nginx", module_of state 1 nginx)
    ∷ ("certbot", module_of state 2 certbot)
    ∷ ("os", module_of state 3 os)
    ∷ []

-- Three invokes of the face wait in the queue.
abbrev pub queue_of_three : Messages.Store
queue_of_three = open_exchange (invoke_of "r3" "t3" "os.svc.list") "os" "os.svc.list" "" 30 (
    open_exchange (invoke_of "r2" "t2" "certbot.cert.provision") "certbot" "certbot.cert.provision"
      "" 20
      (open_exchange (invoke_of "r1" "t1" "nginx.site.add") "nginx" "nginx.site.add" "" 10 empty))

-- The first of them runs.
abbrev pub first_runs : Messages.Store
first_runs = start "t1" 40 queue_of_three

abbrev pub noon : Clock
noon = record { now = 50; text = "2026-01-01T12:00:00Z" }

abbrev pub core_of : Messages.Store → Core
core_of s = record {
  modules = installed State.active;
  messages = s;
  admit_timeout = 100;
  sink = true;
  delivered = [];
}

-- Two texts that the test tells apart.
pub differs : (a b : String) → (a == b) ≡ false → a ≢ b
differs a b unlike e = let alike : (a == b) ≡ true = (eq_iff a b).1 e in cc
