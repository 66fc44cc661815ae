-- ===== src/Validators.antt =====
-- pkg/validators: the answer to a payload that breaks its rules, and the rule for passwords. The
-- validator library, which runs a payload's tags, and the Unicode tables are a parameter.
pub mod Strength
use Prim.Native.Char.{Char}
use go_rest_boilerplate.Base.{
  String, ◌<>◌, Bool, true, false, ◌&&◌, ◌||◌, not, Option, none, some, List, [], ◌∷◌, map, str_eq,
  if◌then◌else◌,
}
use go_rest_boilerplate.Apperror.{Error, FieldError, validation_errors}

-- A field of a payload with its `validate` tag, one rule a name and its parameter.
pub record Field : Type 0 where
  pub name : String
  pub value : String
  pub tags : List (String × String)

-- `validator.FieldError`, of the library
pub record Failure : Type 0 where
  pub field : String
  pub tag : String
  pub param : String
  pub value : String

pub record Library : Type 0 where
  -- `Struct`: the failures of a payload, with `strongpassword` registered as the test given.
  pub struct : (String → Bool) → List Field → List Failure
  pub is_upper : Char → Bool
  pub is_lower : Char → Bool
  pub is_digit : Char → Bool
  pub is_punct : Char → Bool
  pub is_symbol : Char → Bool
  pub to_lower : String → String

-- The four flags of `StrongPassword`.
pub record Seen : Type 0 where
  pub upper : Bool
  pub lower : Bool
  pub digit : Bool
  pub special : Bool

-- `mapHelper`
unfoldable pub map_helper : String → Option String
map_helper tag =
    if str_eq tag "required"
    then some "is a required field"
    else if str_eq tag "email"
    then some "is not a valid email address"
    else if str_eq tag "lowercase"
    then some "must contain at least one lowercase letter"
    else if str_eq tag "uppercase"
    then some "must contain at least one uppercase letter"
    else if str_eq tag "numeric"
    then some "must contain at least one digit"
    else if str_eq tag "strongpassword"
    then some "must contain uppercase, lowercase, digit, and special character"
    else none

abbrev need_param : String → Bool
need_param tag = str_eq tag "min" || str_eq tag "max" || str_eq tag "containsany"

unfoldable pub param_message : String → String → String
param_message tag param =
    if str_eq tag "min"
    then "must be at least " <> (param <> " characters long")
    else if str_eq tag "max"
    then "must be less than " <> (param <> " characters")
    else if str_eq tag "containsany"
    then "must contain at least one symbol of '" <> (param <> "'")
    else "failed " <> (tag <> " validation")

abbrev with_value : String → String → Option String → String
with_value value tag (some msg) = if str_eq value "" then msg else "'" <> (value <> ("' " <> msg))
with_value value tag none = "failed validation on \"" <> (tag <> "\"")

unfoldable pub message_for : Failure → String
message_for e =
    if need_param e.tag
    then param_message e.tag e.param
    else with_value e.value e.tag (map_helper e.tag)

module _ (lib : Library) where
  abbrev pub see : Char → Seen → Seen
  see r s =
      if lib.is_upper r
      then record s { upper = true }
      else if lib.is_lower r
      then record s { lower = true }
      else if lib.is_digit r
      then record s { digit = true }
      else if lib.is_punct r || lib.is_symbol r
      then record s { special = true }
      else s

  unfoldable pub scan : Seen → String → Seen
  scan s String.[] = s
  scan s (String.◌∷◌ r t) = scan (see r s) t

  abbrev all_seen : Seen → Bool
  all_seen s = s.upper && s.lower && s.digit && s.special

  unfoldable pub strong_password : String → Bool
  strong_password password =
      all_seen
        (scan (record { upper = false; lower = false; digit = false; special = false }) password)

  abbrev pub field_error : Failure → FieldError
  field_error e = record { field = lib.to_lower e.field; tag = e.tag; message = message_for e }

  abbrev pub failed : List Failure → Option Error
  failed [] = none
  failed (e ∷ es) = some (validation_errors (map field_error (e ∷ es)))

  unfoldable pub validate_payloads : List Field → Option Error
  validate_payloads payload = failed (lib.struct strong_password payload)
