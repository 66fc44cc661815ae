-- ===== src/Tests/Handlers.antt =====
-- The endpoints and the rule for passwords: the examples.
use Prim.Native.Char.{Char, code}
use go_rest_boilerplate.Base.{
  String, Bool, true, false, ◌&&◌, not, none, some, List, [], ◌∷◌, ◌≡◌, refl, arith, leb,
  Bool-cases, inl, inr, str_eq, if◌then◌else◌,
}
use go_rest_boilerplate.Validators.{
  Library, Failure, Field, message_for, map_helper, scan, strong_password, validate_payloads,
}
use go_rest_boilerplate.Validators.Strength.{
  has, lower_only, digit_only, special_only, strong_password-has,
}
use go_rest_boilerplate.Http.AuthMiddleware.{AuthMiddleware}
use go_rest_boilerplate.Http.DataTransfers.{RegisterRequest, register_fields}
use go_rest_boilerplate.Http.Handlers.Serving.{register, route}
use go_rest_boilerplate.Http.Handlers.Serving.Asked.{Served, route-Served}
use go_rest_boilerplate.Http.Handlers.Serving.Strong.{
  has_tag, AllPass, RunsRegistered, Guarded, route-Guarded,
}
use go_rest_boilerplate.Tests.Fixture.{app, start}

abbrev within : Char → Char → Char → Bool
within a b c = leb (code a) (code c) && leb (code c) (code b)

abbrev failure : Field → Failure
failure f = record { field = f.name; tag = "strongpassword"; param = ""; value = f.value }

-- A validator that runs the registered test only.
abbrev failures : (String → Bool) → List Field → List Failure
failures test [] = []
failures test (f ∷ fs) =
    let rest = failures test fs in
    if has_tag "strongpassword" f.tags && not (test f.value) then failure f ∷ rest else rest

abbrev pub lib : Library
lib = record {
  struct = failures;
  is_upper = within "A" "Z";
  is_lower = within "a" "z";
  is_digit = within "0" "9";
  is_punct = within "!" "/";
  is_symbol = λ c. false;
  to_lower = λ s. s;
}

runs_registered : RunsRegistered lib
unfolding AllPass
runs_registered test [] h = tt
runs_registered test (f ∷ fs) h =
    elim (Bool-cases (has_tag "strongpassword" f.tags && not (test f.value))) [
      | inl e ↦ absurd (ground (arith, h, e))
      | inr e ↦ ((λ t. ground (arith, e, t)), runs_registered test fs (rw e at h))
    ]

strong_password-has_example : strong_password lib "Secret-123456" ≡ (
    has lib.is_upper "Secret-123456"
    && has (lower_only lib) "Secret-123456"
    && has (digit_only lib) "Secret-123456"
    && has (special_only lib) "Secret-123456")
strong_password-has_example = strong_password-has lib "Secret-123456"

abbrev gate : AuthMiddleware
gate = record { has_redis = true; is_admin = false }

abbrev weak : RegisterRequest
weak = record { username = "ada"; email = "ada@x.io"; password = "secretsecret" }

abbrev strong : RegisterRequest
strong = record { username = "ada"; email = "ada@x.io"; password = "Secret-123456" }

route-Served_example :
    Served app lib gate
      (register (some weak))
      (start true 0)
      (route app lib gate (register (some weak)) (start true 0))
route-Served_example = route-Served app lib gate (register (some weak)) (start true 0)

strong_valid : validate_payloads lib (register_fields strong) ≡ none
unfolding validate_payloads register_fields strong_password scan has_tag str_eq
strong_valid = refl

route-Guarded_example :
    Guarded app lib gate
      (register (some strong))
      (start true 0)
      (route app lib gate (register (some strong)) (start true 0))
route-Guarded_example =
    route-Guarded app lib gate (register (some strong)) (start true 0) runs_registered

-- A refused password stands in the answer.
echoed :
    message_for
      (record { field = "Password"; tag = "strongpassword"; param = ""; value = "secretsecret" })
    ≡ "'secretsecret' must contain uppercase, lowercase, digit, and special character"
unfolding message_for map_helper str_eq
echoed = refl
