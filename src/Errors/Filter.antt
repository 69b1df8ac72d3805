-- ===== src/Errors/Filter.antt =====
-- apps/api/src/http-exception.filter.ts: what the API answers to a handler that throws. The classes of
-- what is thrown that the filter tells apart are constructors; a request id is `none` outside a
-- request.
use wa_ops.Base.{ℕ, String, Option, none, some, List, [], ◌∷◌, ◌==◌, leb, map, if◌then◌else◌}
use wa_ops.Errors.{
  ErrorCode, validation_error, authentication_required, permission_denied, entitlement_required,
  quota_exceeded, not_found, conflict, rate_limited, dependency_unavailable, internal_error, Detail,
  ApiError,
}

-- An issue of a ZodError.
pub record Issue : Type 0 where
  pub path : List String
  pub message : String
  pub expected : String

pub data Exception : Type 0 where
  api_error : ApiError → Exception
  zod_error : (issues : List Issue) → Exception
  http_exception : (status : ℕ) (message : String) → Exception
  -- any other Error, or what is no Error at all
  other : (message : String) → Exception

pub data Details : Type 0 where
  fields : List (String × Detail) → Details
  issues : List (List String × String) → Details

-- The body `{ error: { code, message, request_id, details } }` with its status.
pub record ErrorAnswer : Type 0 where
  pub status : ℕ
  pub code : ErrorCode
  pub message : String
  pub request_id : String
  pub details : Option Details

pub data Log : Type 0 where
  error_line : (err : Exception) (request_id : String) → Log
  warn_line : (code : ErrorCode) (request_id message : String) → Log

abbrev or_unknown : Option String → String
or_unknown none = "unknown"
or_unknown (some id) = id

-- An ApiError without `details` has them undefined.
abbrev details_of : List (String × Detail) → Option Details
details_of [] = none
details_of (d ∷ ds) = some (fields (d ∷ ds))

abbrev reduced : Issue → List String × String
reduced i = (i.path, i.message)

-- The branches of `catch`.
unfoldable pub answer_of : Exception → String → ErrorAnswer
answer_of (api_error e) request_id = record {
  status = e.status;
  code = e.code;
  message = e.message;
  request_id = request_id;
  details = details_of e.details;
}
answer_of (zod_error is) request_id = record {
  status = 400;
  code = validation_error;
  message = "Validation failed";
  request_id = request_id;
  details = some (issues (map reduced is));
}
answer_of (http_exception status message) request_id = record {
  status = status;
  code = if status == 401 then authentication_required else internal_error;
  message = message;
  request_id = request_id;
  details = none;
}
answer_of (other message) request_id = record {
  status = 500;
  code = internal_error;
  message = "Internal server error";
  request_id = request_id;
  details = none;
}

unfoldable pub log_of : Exception → ErrorAnswer → Log
log_of exception a =
    if leb 500 a.status
    then error_line exception a.request_id
    else warn_line a.code a.request_id a.message

unfoldable pub catch_exception : Exception → Option String → Log × ErrorAnswer
unfolding answer_of log_of
catch_exception exception correlation =
    let a = answer_of exception (or_unknown correlation) in (log_of exception a, a)

abbrev pub name_of_code : ErrorCode → String
name_of_code validation_error = "validation_error"
name_of_code authentication_required = "authentication_required"
name_of_code permission_denied = "permission_denied"
name_of_code entitlement_required = "entitlement_required"
name_of_code quota_exceeded = "quota_exceeded"
name_of_code not_found = "not_found"
name_of_code conflict = "conflict"
name_of_code rate_limited = "rate_limited"
name_of_code dependency_unavailable = "dependency_unavailable"
name_of_code internal_error = "internal_error"
