-- ===== src/Protocol.antt =====
-- sdk/protocol/types.go: the envelopes of the module protocol, and the payloads that core decodes.
pub mod Values
pub mod Code
use suctl.Prelude.{ℕ, ℤ, pos, String, Bool, true, false, ◌&&◌, List, [], Option, none, some}
use Values.{Json, get}

-- A text rendered by fmt.Sprintf: the format and its arguments. Nothing in core reads a rendered
-- text again. The text of an error of encoding/json is left out of the arguments.
pub data Message : Type 0 where
  sprintf : String → List String → Message
  sprint_number : String → ℕ → Message
  sprint_numbers : String → String → List ℕ → Message
  sprint_error : String → List String → Message → Message

pub record ErrorDetail : Type 0 where
  pub code : String
  pub message : Message
  pub detail : Option Json

pub record Request : Type 0 where
  pub v : String
  pub id : String
  pub ts_sent : String
  pub cmd : String
  pub job_token : String
  pub params : Json

-- `status` is empty in the zero envelope of an exchange that is still open.
pub record Response : Type 0 where
  pub v : String
  pub id : String
  pub ts_sent : String
  pub status : String
  pub job_token : String
  pub result : Option Json
  pub error : Option ErrorDetail

abbrev pub version : String
version = "1"

pub record InvokeResponse : Type 0 where
  pub name : String
  pub output : Option Json
  pub accepted : Bool

pub record JobUpdateParams : Type 0 where
  pub state : String
  pub message : String
  pub progress : ℤ
  pub output : Option Json
  pub error : Option ErrorDetail

abbrev no_update : JobUpdateParams
no_update = record { state = ""; message = ""; progress = pos 0; output = none; error = none }

abbrev no_invoke : InvokeResponse
no_invoke = record { name = ""; output = none; accepted = false }

-- What decoding leaves in a field of the given type: the value, and whether the field was of that
-- type. An absent key and `null` leave the zero value.
decode_string : Option Json → String × Bool
decode_string none = ("", true)
decode_string (some Json.null) = ("", true)
decode_string (some (Json.str s)) = (s, true)
decode_string (some _) = ("", false)

decode_bool : Option Json → Bool × Bool
decode_bool none = (false, true)
decode_bool (some Json.null) = (false, true)
decode_bool (some (Json.bool b)) = (b, true)
decode_bool (some _) = (false, false)

decode_int : Option Json → ℤ × Bool
decode_int none = (pos 0, true)
decode_int (some Json.null) = (pos 0, true)
decode_int (some (Json.int z)) = (z, true)
decode_int (some _) = (pos 0, false)

-- *ErrorDetail: `null` leaves the nil pointer.
decode_error : Option Json → Option ErrorDetail × Bool
unfolding get decode_string
decode_error none = (none, true)
decode_error (some Json.null) = (none, true)
decode_error (some (Json.obj m)) =
    let (code, code_ok) = decode_string (get "code" m) in
    let (message, message_ok) = decode_string (get "message" m) in
    let detail = get "detail" m in
    (
      some (record { code = code; message = sprintf message []; detail = detail }),
      code_ok && message_ok,
    )
decode_error (some _) = (none, false)

-- json.Unmarshal into a JobUpdateParams: the value that is left, and whether no error came back.
-- A field of a wrong type is skipped, and the rest is still decoded.
unfoldable pub decode_update : Json → JobUpdateParams × Bool
unfolding get decode_string decode_int decode_error
decode_update (Json.obj m) =
    let (state, state_ok) = decode_string (get "state" m) in
    let (message, message_ok) = decode_string (get "message" m) in
    let (progress, progress_ok) = decode_int (get "progress" m) in
    let (error, error_ok) = decode_error (get "error" m) in
    (
      record {
        state = state;
        message = message;
        progress = progress;
        output = get "output" m;
        error = error;
      },
      state_ok && message_ok && progress_ok && error_ok,
    )
decode_update Json.null = (no_update, true)
decode_update _ = (no_update, false)

-- json.Unmarshal of a response's result into an InvokeResponse. No bytes at all are an error.
unfoldable pub decode_invoke : Option Json → InvokeResponse × Bool
unfolding get decode_string decode_bool
decode_invoke (some (Json.obj m)) =
    let (name, name_ok) = decode_string (get "name" m) in
    let (accepted, accepted_ok) = decode_bool (get "accepted" m) in
    (record { name = name; output = get "output" m; accepted = accepted }, name_ok && accepted_ok)
decode_invoke (some Json.null) = (no_invoke, true)
decode_invoke _ = (no_invoke, false)
