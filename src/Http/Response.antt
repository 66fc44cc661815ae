-- ===== src/Http/Response.antt =====
-- internal/http/handlers/v1/handler.base_response.go: from an error to a status and a message.
pub mod Sanitised
use go_rest_boilerplate.Base.{ℕ, String, Option, none, some, List, leb, if◌then◌else◌}
use go_rest_boilerplate.Apperror.{
  Error, ErrorType, internal, not_found, unauthorized, forbidden, conflict, bad_request,
  DomainError, FieldError, as_domain_error, as_validation_errors, error_text,
}

-- A failed answer: the status code, and the envelope's message and per-field details.
pub record ErrorResponse : Type 0 where
  pub status : ℕ
  pub message : String
  pub details : Option (List FieldError)

abbrev pub status_of_kind : ErrorType → ℕ
status_of_kind not_found = 404
status_of_kind unauthorized = 401
status_of_kind forbidden = 403
status_of_kind conflict = 409
status_of_kind bad_request = 400
status_of_kind internal = 500

abbrev status_of_domain : Option DomainError → ℕ
status_of_domain none = 500
status_of_domain (some d) = status_of_kind d.kind

unfoldable pub map_domain_error_to_http : Error → ℕ
map_domain_error_to_http e = status_of_domain (as_domain_error e)

abbrev respond_unless_validation : Error → Option (List FieldError) → ErrorResponse
respond_unless_validation e (some es) = record {
  status = 422;
  message = "validation failed";
  details = some es;
}
respond_unless_validation e none =
    let status = map_domain_error_to_http e in
    record {
      status = status;
      message = if leb 500 status then "internal server error" else error_text e;
      details = none;
    }

unfoldable pub respond_with_error : Error → ErrorResponse
respond_with_error e = respond_unless_validation e (as_validation_errors e)
