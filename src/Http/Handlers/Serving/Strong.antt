-- ===== src/Http/Handlers/Serving/Strong.antt =====
-- What passwords and which role get past the handlers of internal/http to the use case.
use go_rest_boilerplate.Base.{
  String, Bool, true, false, ◌||◌, none, List, [], ◌∷◌, ◌≡◌, ◌⊎◌, inl, inr, refl, sym, ◌∙◌, arith,
  str_eq,
}
use go_rest_boilerplate.Config.{App}
use go_rest_boilerplate.State.{State}
use go_rest_boilerplate.Domain.User.{role_user}
use go_rest_boilerplate.Auth.Requests
use go_rest_boilerplate.Auth.Requests.{Request, serve}
use go_rest_boilerplate.Validators.{
  Library, Failure, Field, strong_password, validate_payloads, failed,
}
use go_rest_boilerplate.Validators.Strength.{
  has, lower_only, digit_only, special_only, strong_password-has,
}
use go_rest_boilerplate.Http.AuthMiddleware.{AuthMiddleware}
use go_rest_boilerplate.Http.Handlers.{Reply}
use go_rest_boilerplate.Http.DataTransfers.{
  register_fields, change_password_fields, reset_password_fields,
}
use go_rest_boilerplate.Http.Handlers.Serving.{Incoming, route}
use go_rest_boilerplate.Http.Handlers.Serving.Asked.{
  Refused, Served, entered, route-Served, AsksFor, asks_register, asks_login, asks_send_otp,
  asks_verify_otp, asks_refresh, asks_logout, asks_change_password, asks_forgot_password,
  asks_reset_password,
}

unfoldable pub has_tag : String → List (String × String) → Bool
has_tag tag [] = false
has_tag tag ((name, param) ∷ tags) = str_eq name tag || has_tag tag tags

-- The test passes on every field with the tag `strongpassword`.
unfoldable pub AllPass : (String → Bool) → List Field → Type 0
AllPass test [] = Unit
AllPass test (f ∷ fs) =
    (has_tag "strongpassword" f.tags ≡ true → test f.value ≡ true) × AllPass test fs

-- A payload without a failure passes the tests that its tags name.
abbrev pub RunsRegistered : Library → Type 0
RunsRegistered lib =
    (test : String → Bool) (fs : List Field) → lib.struct test fs ≡ [] → AllPass test fs

module _ (app : App) (lib : Library) (m : AuthMiddleware) where
  failed_none : (es : List Failure) → failed lib es ≡ none → es ≡ []
  failed_none [] h = refl
  failed_none (e ∷ es) h = ground (arith, h)

  valid_passes :
      (fs : List Field)
      → RunsRegistered lib
      → validate_payloads lib fs ≡ none
      → AllPass (strong_password lib) fs
  unfolding validate_payloads
  valid_passes fs r h = r (strong_password lib) fs (failed_none _ h)

  -- A character of each of the four classes is in the text.
  pub record IsStrong (p : String) : Type 0 where
    pub upper : has lib.is_upper p ≡ true
    pub lower : has (lower_only lib) p ≡ true
    pub digit : has (digit_only lib) p ≡ true
    pub special : has (special_only lib) p ≡ true

  is_strong : (p : String) → strong_password lib p ≡ true → IsStrong p
  is_strong p h =
      let all = sym (strong_password-has lib p) ∙ h in
      record {
        upper = ground (arith, all);
        lower = ground (arith, all);
        digit = ground (arith, all);
        special = ground (arith, all);
      }

  -- A new password is strong, and who registers is a regular user.
  abbrev pub SetsStrong : Request → Type 0
  SetsStrong (Requests.register u) = IsStrong u.password × (u.role_id ≡ role_user)
  SetsStrong (Requests.change_password i c p) = IsStrong p
  SetsStrong (Requests.reset_password t p) = IsStrong p
  SetsStrong _ = Unit

  AsksFor-SetsStrong :
      (s : State app) (q : Incoming) (a : Request)
      → RunsRegistered lib
      → AsksFor app lib m s q a
      → SetsStrong a
  unfolding AllPass has_tag str_eq register_fields change_password_fields reset_password_fields
  AsksFor-SetsStrong s _ _ r (asks_register b v) =
      (is_strong b.password ((valid_passes (register_fields b) r v).1.1.0 refl), refl)
  AsksFor-SetsStrong s _ _ r (asks_change_password header b c h v) =
      is_strong b.new_password ((valid_passes (change_password_fields b) r v).1.0 refl)
  AsksFor-SetsStrong s _ _ r (asks_reset_password b v) =
      is_strong b.new_password ((valid_passes (reset_password_fields b) r v).1.0 refl)
  AsksFor-SetsStrong s _ _ r (asks_login b v) = tt
  AsksFor-SetsStrong s _ _ r (asks_send_otp b v) = tt
  AsksFor-SetsStrong s _ _ r (asks_verify_otp b v) = tt
  AsksFor-SetsStrong s _ _ r (asks_refresh b v) = tt
  AsksFor-SetsStrong s _ _ r (asks_logout b v) = tt
  AsksFor-SetsStrong s _ _ r (asks_forgot_password b v) = tt

  -- The request is refused with nothing done but what the auth middleware does, or its state is that
  -- of a request to the use case that it asks for and that sets no weak password.
  abbrev pub Guarded : Incoming → State app → Reply × State app → Type 0
  Guarded q s (r, t) =
      (Refused app lib m r × (t ≡ entered app lib m q s))
      ⊎ ((a : Request) × AsksFor app lib m s q a
          × SetsStrong a
          × (t ≡ serve app a (entered app lib m q s)))

  guarded :
      (q : Incoming) (s : State app) (p : Reply × State app)
      → RunsRegistered lib
      → Served app lib m q s p
      → Guarded q s p
  guarded q s p r (inl refused) = inl refused
  guarded q s p r (inr (a, asks, same)) = inr (a, asks, AsksFor-SetsStrong s q a r asks, same)

  -- Every endpoint's route either refuses a request, with nothing done but what the auth middleware
  -- does, or leaves the state of the one call of the use case that the request asks for; and in
  -- that call a new password has an upper-case character, a lower-case one, a digit and a special
  -- one, and a user who registers is a regular user. The validator library runs the tests that a
  -- payload names.
  pub route-Guarded :
      (q : Incoming) (s : State app) → RunsRegistered lib → Guarded q s (route app lib m q s)
  route-Guarded q s r = guarded q s (route app lib m q s) r (route-Served app lib m q s)
