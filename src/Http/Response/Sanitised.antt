-- ===== src/Http/Response/Sanitised.antt =====
-- What a client is told of an error.
use go_rest_boilerplate.Base.{◌≤◌, ◌<◌, ◌≢◌, String, none, ◌≡◌, ◌⊎◌, arith}
use go_rest_boilerplate.Apperror.{
  Error, wrapped, ErrorType, as_validation_errors, as_domain_error, error_text, new,
}
use go_rest_boilerplate.Http.Response.{respond_with_error, map_domain_error_to_http, status_of_kind}

-- A server fault (a status of 500 or more) tells the client nothing of its cause: the message is
-- the fixed one and there are no details. Any other answer is a 422 with the fields at fault, or
-- carries the error's own text.
pub respond_with_error-sanitised :
    (e : Error)
    → let r = respond_with_error e in
      (500 ≤ r.status → (r.message ≡ "internal server error") × (r.details ≡ none))
      × (r.status < 500
          → ((r.status ≡ 422) × (as_validation_errors e ≡ r.details) × (r.details ≢ none))
            ⊎ ((r.message ≡ error_text e) × (r.details ≡ none)))
unfolding respond_with_error map_domain_error_to_http
respond_with_error-sanitised e = ground arith

-- A domain error with no cause gets its kind's status and its own message; wrapping it by
-- `fmt.Errorf` keeps the status.
pub respond-domain :
    (k : ErrorType) (m t : String)
    → ((respond_with_error (new k m)).status ≡ status_of_kind k)
      × ((respond_with_error (wrapped t (new k m))).status ≡ status_of_kind k)
unfolding respond_with_error map_domain_error_to_http as_validation_errors as_domain_error
respond-domain k m t = ground arith
