-- ===== src/Tests/Fixture.antt =====
-- The server of the examples: one account, its tokens and codes, and a table of one row.
use go_rest_boilerplate.Base.{
  ℕ, ◌*◌, pos, String, Bool, true, false, Option, none, some, List, [], ◌∷◌, ◌≡◌, ◌≢◌, arith,
  str_eq, str_eq_refl,
}
use go_rest_boilerplate.Config.{App}
use go_rest_boilerplate.State.{State}
use go_rest_boilerplate.Records
use go_rest_boilerplate.Records.{to_domain}
use go_rest_boilerplate.Time.{at, second}
use go_rest_boilerplate.Auth.Requests
use go_rest_boilerplate.Auth.Requests.{Request, serve_all}
use go_rest_boilerplate.Tests.Environment.{env}

abbrev pub app : App
app = record {
  env = env;
  auth = record {
    otp_max_attempts = pos 2;
    otp_ttl = 600 * second;
    password_reset_ttl = 900 * second;
    bcrypt_cost = pos 10;
    login_max_attempts = pos 2;
    login_lockout_ttl = 900 * second;
    forgot_max_attempts = pos 2;
    forgot_lockout_ttl = 900 * second;
  };
  jwt = record { secret_key = "secret"; issuer = "app"; expired = 1; refresh_expired = 7 };
  redis_expires = 5;
  users_bcrypt_cost = pos 10;
  otp_rounds = 6;
}

abbrev pub row : Bool → Records.Users
row active = record {
  id = "1";
  username = "ada";
  email = "ada@x.io";
  password = "hash:secret";
  active = active;
  role_id = pos 2;
  created_at = at 0;
  updated_at = none;
  deleted_at = none;
  password_changed_at = none;
}

abbrev entries : String → Option String
entries k = elim (str_eq k "refresh:jti") [
  | true ↦ some "jti"
  | false ↦ elim (str_eq k "pwd_reset:token") [
    | true ↦ some "1"
    | false ↦ elim (str_eq k "user_otp:ada@x.io") [ true ↦ some "123456" | false ↦ none ]
  ]
]

-- The account is active or not, and each counter stands at `n`.
abbrev pub start : Bool → ℕ → State app
start active n = record {
  world = 5;
  redis = record { values = entries; counts = λ k. n };
  ristretto = λ k. none;
  users = row active ∷ [];
  mailer = record { queue = []; queue_size = 1 };
}

abbrev pub later : List Request
later = Requests.login "ada@x.io" "secret" ∷ Requests.refresh "refresh" ∷ []

pub differ : (a b : String) → str_eq a b ≡ false → a ≢ b
differ a b h e = ground (arith, h, str_eq_refl a)
