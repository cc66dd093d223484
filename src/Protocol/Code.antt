-- ===== src/Protocol/Code.antt =====
-- sdk/protocol/types.go, const (...): the error codes that core returns.
use suctl.Prelude.{String}

abbrev pub unknown_command : String
unknown_command = "UNKNOWN_COMMAND"

abbrev pub invalid_params : String
invalid_params = "INVALID_PARAMS"

abbrev pub callable_failed : String
callable_failed = "CALLABLE_FAILED"

abbrev pub job_not_found : String
job_not_found = "JOB_NOT_FOUND"

abbrev pub capability_not_active : String
capability_not_active = "CAPABILITY_NOT_ACTIVE"

abbrev pub capability_not_declared : String
capability_not_declared = "CAPABILITY_NOT_DECLARED"

abbrev pub internal_error : String
internal_error = "INTERNAL_ERROR"
