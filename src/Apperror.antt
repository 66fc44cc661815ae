-- ===== src/Apperror.antt =====
-- internal/apperror/error.go, and the errors of the other packages that travel through it: the
-- package sentinels, `fmt.Errorf` with %w, the payload validator's error, and what third-party
-- code returns. `errors.Is` and `errors.As` walk the `Unwrap` chain.
use go_rest_boilerplate.Base.{String, ◌<>◌, Bool, true, false, Option, none, some, List, [], ◌∷◌}

pub data ErrorType : Type 0 where
  internal not_found unauthorized forbidden conflict bad_request : ErrorType

-- The sentinel errors of the program and of the libraries that it compares by identity.
pub data Sentinel : Type 0 where
  err_empty_username err_empty_email err_invalid_email err_empty_password : Sentinel
  err_invalid_token err_wrong_token_kind : Sentinel
  err_queue_full : Sentinel
  redis_nil sql_no_rows : Sentinel

-- pkg/validators: one failed field.
pub record FieldError : Type 0 where
  pub field : String
  pub tag : String
  pub message : String

-- `wrapped m e` is what `fmt.Errorf` makes of `e`, with the whole text `m`. `unique_violation` is
-- a `*pq.Error` with the code 23505, `external` any other error of third-party code.
mutual
  pub data Error : Type 0 where
    domain_error : ErrorType → String → Cause → Error
    validation_errors : List FieldError → Error
    sentinel : Sentinel → Error
    wrapped : String → Error → Error
    unique_violation : String → Error
    external : String → Error

  pub data Cause : Type 0 where
    no_cause : Cause
    caused_by : Error → Cause

-- The texts given to `errors.New`.
abbrev pub sentinel_text : Sentinel → String
sentinel_text err_empty_username = "username cannot be empty"
sentinel_text err_empty_email = "email cannot be empty"
sentinel_text err_invalid_email = "email format is invalid"
sentinel_text err_empty_password = "password cannot be empty"
sentinel_text err_invalid_token = "token is not valid"
sentinel_text err_wrong_token_kind = "token kind mismatch"
sentinel_text err_queue_full = "otp mailer queue is full"
sentinel_text redis_nil = "redis: nil"
sentinel_text sql_no_rows = "sql: no rows in result set"

abbrev field_texts : List FieldError → String
field_texts [] = "validation failed"
field_texts (e ∷ []) = e.field <> (": " <> e.message)
field_texts (e ∷ es) = e.field <> (": " <> (e.message <> ("; " <> field_texts es)))

-- `err.Error()`
unfoldable pub error_text : Error → String
error_text (domain_error t m c) = m
error_text (validation_errors es) = field_texts es
error_text (sentinel s) = sentinel_text s
error_text (wrapped m e) = m
error_text (unique_violation m) = m
error_text (external m) = m

-- `fmt.Errorf("op: %w", err)`
unfoldable pub errorf : String → Error → Error
errorf op e = wrapped (op <> (": " <> error_text e)) e

-- `New`
abbrev pub new : ErrorType → String → Error
new t m = domain_error t m no_cause

-- `Wrap`, on a value that is a `*DomainError`; any other error is no argument of it.
pub wrap : Error → Error → Error
wrap (domain_error t m c) cause = domain_error t m (caused_by cause)
wrap e cause = e

abbrev pub not_found_error : String → Error
not_found_error = new not_found

abbrev pub unauthorized_error : String → Error
unauthorized_error = new unauthorized

abbrev pub forbidden_error : String → Error
forbidden_error = new forbidden

abbrev pub conflict_error : String → Error
conflict_error = new conflict

abbrev pub bad_request_error : String → Error
bad_request_error = new bad_request

abbrev pub internal_error : String → Error
internal_error = new internal

-- `InternalCause`
abbrev pub internal_cause : Error → Error
internal_cause cause = domain_error internal "internal server error" (caused_by cause)

pub record DomainError : Type 0 where
  pub kind : ErrorType
  pub message : String
  pub cause : Cause

-- `errors.As(err, &domErr)` for a `*DomainError`.
unfoldable pub as_domain_error : Error → Option DomainError
as_domain_error (domain_error t m c) = some (record { kind = t; message = m; cause = c })
as_domain_error (wrapped m e) = as_domain_error e
as_domain_error _ = none

-- `errors.As(err, &ve)` for a `*validators.ValidationErrors`.
unfoldable mutual
  pub as_validation_errors : Error → Option (List FieldError)
  as_validation_errors (domain_error t m c) = cause_validation_errors c
  as_validation_errors (validation_errors es) = some es
  as_validation_errors (wrapped m e) = as_validation_errors e
  as_validation_errors (sentinel s) = none
  as_validation_errors (unique_violation m) = none
  as_validation_errors (external m) = none

  pub cause_validation_errors : Cause → Option (List FieldError)
  cause_validation_errors no_cause = none
  cause_validation_errors (caused_by e) = as_validation_errors e

-- `errors.As(err, &pqErr) && pqErr.Code == "23505"`
unfoldable pub is_unique_violation : Error → Bool
is_unique_violation (unique_violation m) = true
is_unique_violation (wrapped m e) = is_unique_violation e
is_unique_violation _ = false

abbrev is_same : Sentinel → Sentinel → Bool
is_same err_empty_username err_empty_username = true
is_same err_empty_email err_empty_email = true
is_same err_invalid_email err_invalid_email = true
is_same err_empty_password err_empty_password = true
is_same err_invalid_token err_invalid_token = true
is_same err_wrong_token_kind err_wrong_token_kind = true
is_same err_queue_full err_queue_full = true
is_same redis_nil redis_nil = true
is_same sql_no_rows sql_no_rows = true
is_same _ _ = false

-- `errors.Is(err, sentinel)`
unfoldable mutual
  pub is_error : Sentinel → Error → Bool
  is_error t (domain_error k m c) = is_cause t c
  is_error t (wrapped m e) = is_error t e
  is_error t (sentinel s) = is_same t s
  is_error t (validation_errors es) = false
  is_error t (unique_violation m) = false
  is_error t (external m) = false

  pub is_cause : Sentinel → Cause → Bool
  is_cause t no_cause = false
  is_cause t (caused_by e) = is_error t e
