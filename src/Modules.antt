-- ===== src/Modules.antt =====
-- internal/module: the modules store (module.go, store.go). A `*Record` is reached only through its
-- store, so mutating a record is writing its entry; a handle of the supervisor, the health monitor,
-- a wire or an in-process handler is a number that names the Go value.
pub mod Route
pub mod Requirements
pub mod Footprint
pub mod Scan
use Prim.Native.String.{compare}
use text.Mathlib.Text.{is_lt}
use suctl.Prelude.{
  keys, sort, ℕ, String, Bool, true, false, List, [], ◌∷◌, Option, none, some, Dict, lookup, insert,
  ◌||◌, if◌then◌else◌,
}
use suctl.Protocol.{Message, sprintf}
use suctl.Manifest.{Manifest}

pub data State : Type 0 where
  ready active unavailable missing failed : State

abbrev pub is_active : State → Bool
is_active State.active = true
is_active _ = false

abbrev pub is_ready : State → Bool
is_ready State.ready = true
is_ready _ = false

abbrev pub is_unavailable : State → Bool
is_unavailable State.unavailable = true
is_unavailable _ = false

abbrev pub is_missing : State → Bool
is_missing State.missing = true
is_missing _ = false

-- The text of a state.
abbrev pub state_name : State → String
state_name State.ready = "ready"
state_name State.active = "active"
state_name State.unavailable = "unavailable"
state_name State.missing = "missing"
state_name State.failed = "failed"

abbrev pub no_reason : Message
no_reason = sprintf "" []

pub record Record : Type 0 where
  pub manifest : Option Manifest
  pub dir : String
  pub handlers : Dict ℕ
  pub state : State
  pub reason : Message
  pub supervisor : Option ℕ
  pub monitor : Option ℕ
  pub mux : Option ℕ

-- The records by short name.
abbrev pub Store : Type 0
Store = Dict Record

-- Record.SetStatus
abbrev pub set_status : State → Message → Record → Record
set_status st reason r = record r { state = st; reason = reason }

-- Record.TakeSupervisor and Record.TakeMonitor: the handle, and the record without it.
abbrev pub take_supervisor : Record → Option ℕ × Record
take_supervisor r = (r.supervisor, record r { supervisor = none })

abbrev pub take_monitor : Record → Option ℕ × Record
take_monitor r = (r.monitor, record r { monitor = none })

-- Record.IsInert
abbrev pub is_inert : Record → Bool
is_inert r = is_unavailable r.state || is_missing r.state

-- The record that RegisterHandler creates for a virtual module, with its handler in place.
abbrev virtual : Manifest → String → ℕ → Record
virtual m cap h = record {
  manifest = some m;
  dir = "";
  handlers = insert cap h [];
  state = State.active;
  reason = no_reason;
  supervisor = none;
  monitor = none;
  mux = none;
}

-- Store.RegisterHandler
unfoldable pub register_handler : String → Manifest → String → ℕ → Store → Store
register_handler module_name m cap h s = elim (lookup module_name s) [
  | none ↦ insert module_name (virtual m cap h) s
  | some r ↦ insert module_name (record r { handlers = insert cap h r.handlers }) s
]

abbrev text_before : String → String → Bool
text_before s t = is_lt (compare s t)

-- SortedKeys and Store.Names
abbrev pub sorted_keys : Store → List String
sorted_keys s = sort text_before (keys s)
