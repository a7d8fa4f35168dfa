-- ===== src/Errors.antt =====
-- The errors that reach a client, and their envelope: src/common/errors.ts.
use msrouter.Prelude.{ℕ, Option, none, some, [], ◌++◌, Text, text}
use msrouter.Json.{Json, number, string, object, Fields, end, field}

pub data ErrorCode : Type 0 where
  validation_error unauthorized forbidden not_found conflict rate_limited bad_request_error
        upstream_error no_provider_available internal_error :
      ErrorCode

pub record DomainError : Type 0 where
  pub message : Text
  pub code : ErrorCode
  pub status_code : ℕ
  pub details : Option Fields

abbrev domain_error : ErrorCode → ℕ → Text → DomainError
domain_error code status message = record {
  message = message;
  code = code;
  status_code = status;
  details = none;
}

abbrev pub invalid : Text → Option Fields → DomainError
invalid message details = record {
  message = message;
  code = validation_error;
  status_code = 400;
  details = details;
}

abbrev pub unauthorized_error : Text → DomainError
unauthorized_error = domain_error unauthorized 401

abbrev pub forbidden_error : Text → DomainError
forbidden_error = domain_error forbidden 403

abbrev pub not_found_error : Text → DomainError
not_found_error what = domain_error not_found 404 (what ++ text " not found")

abbrev pub conflict_error : Text → DomainError
conflict_error = domain_error conflict 409

-- with `retryAfterSeconds` as it is by default
abbrev pub rate_limited_error : Text → DomainError
rate_limited_error message = record {
  message = message;
  code = rate_limited;
  status_code = 429;
  details = some (field (text "retryAfterSeconds") (number (text "60")) end);
}

abbrev pub no_provider_error : Text → DomainError
no_provider_error = domain_error no_provider_available 502

-- what a handler throws: an error of the domain, or any other
pub data Thrown : Type 0 where
  domain : DomainError → Thrown
  other : Text → Thrown

abbrev code_text : ErrorCode → Text
code_text validation_error = text "VALIDATION_ERROR"
code_text unauthorized = text "UNAUTHORIZED"
code_text forbidden = text "FORBIDDEN"
code_text not_found = text "NOT_FOUND"
code_text conflict = text "CONFLICT"
code_text rate_limited = text "RATE_LIMITED"
code_text bad_request_error = text "BAD_REQUEST"
code_text upstream_error = text "UPSTREAM_ERROR"
code_text no_provider_available = text "NO_PROVIDER_AVAILABLE"
code_text internal_error = text "INTERNAL_ERROR"

abbrev with_details : Option Fields → Fields → Fields
with_details none rest = rest
with_details (some fs) rest = field (text "details") (object fs) rest

-- an absent id is the empty text
abbrev with_id : Text → Fields
with_id [] = end
with_id id = field (text "correlationId") (string id) end

abbrev envelope : Text → Text → Fields → Json
envelope code message rest = object (
    field (text "error")
      (object (field (text "code") (string code) (field (text "message") (string message) rest)))
      end)

unfoldable pub to_error_body : Thrown → Text → ℕ × Json
to_error_body (domain e) id =
    (e.status_code, envelope (code_text e.code) e.message (with_details e.details (with_id id)))
to_error_body (other m) id =
    (500, envelope (code_text internal_error) (text "Internal server error") (with_id id))
