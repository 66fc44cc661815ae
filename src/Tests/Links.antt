-- ===== src/Tests/Links.antt =====
-- Two reset links for one account: the example, with random bytes that differ from draw to draw.
use go_rest_boilerplate.Base.{
  ℕ, suc, String, true, false, List, [], ◌∷◌, ◌≡◌, refl, str_eq, ltb, if◌then◌else◌,
}
use go_rest_boilerplate.Apperror.{unauthorized_error}
use go_rest_boilerplate.Exec.{ok, err}
use go_rest_boilerplate.Env.{Env}
use go_rest_boilerplate.Env.Laws.{SteadyRedis, TextLaws}
use go_rest_boilerplate.Config.{App}
use go_rest_boilerplate.State.{State}
use go_rest_boilerplate.Records.{to_domain}
use go_rest_boilerplate.Redis
use go_rest_boilerplate.Ristretto
use go_rest_boilerplate.Users
use go_rest_boilerplate.Repository
use go_rest_boilerplate.Repository.Table
use go_rest_boilerplate.Mailer.{enqueue}
use go_rest_boilerplate.Auth.Keys.{user_reset_index_key, password_reset_key, forgot_attempts_key}
use go_rest_boilerplate.Auth.Attempts.{limit_attempts_if_positive, limit_attempts, track_attempt}
use go_rest_boilerplate.Auth.Passwords
use go_rest_boilerplate.Auth.Superseded.{drawn, account, forgot_password-forgot_password}
use go_rest_boilerplate.Tests.Environment.{env, steady_redis, text_laws}
use go_rest_boilerplate.Tests.Fixture
use go_rest_boilerplate.Tests.Fixture.{row, differ}

abbrev named : List ℕ → String
named [] = ""
named (n ∷ ns) = if ltb n 6 then "first" else "second"

abbrev drawing : Env
drawing = record env { read_random = λ n w. (ok (w ∷ []), suc w); base64_url = named }

abbrev steady : SteadyRedis drawing
steady = record {
  live = steady_redis.live;
  count = steady_redis.count;
  get_some = steady_redis.get_some;
  get_none = steady_redis.get_none;
  set_ok = steady_redis.set_ok;
  live-set = steady_redis.live-set;
  live-get = steady_redis.live-get;
  live-expire = steady_redis.live-expire;
  live-del = steady_redis.live-del;
  live-incr = steady_redis.live-incr;
  incr_ok = steady_redis.incr_ok;
  count-incr = steady_redis.count-incr;
  count-get = steady_redis.count-get;
  count-set = steady_redis.count-set;
  count-expire = steady_redis.count-expire;
  count-del = steady_redis.count-del;
}

abbrev texts : TextLaws drawing
texts = record {
  unmarshal-marshal = text_laws.unmarshal-marshal;
  parse-format = text_laws.parse-format;
  format-nonempty = text_laws.format-nonempty;
}

abbrev app : App
app = record Fixture.app { env = drawing }

abbrev start : State app
start = record {
  world = 5;
  redis = (Fixture.start true 0).redis;
  ristretto = (Fixture.start true 0).ristretto;
  users = (Fixture.start true 0).users;
  mailer = record { queue = []; queue_size = 2 };
}

abbrev first : State app
first = (Passwords.forgot_password app "ada@x.io" start).1

abbrev second : State app
second = (Passwords.forgot_password app "ada@x.io" first).1

first_done : Passwords.forgot_password app "ada@x.io" start ≡ (ok tt, first)
unfolding Passwords.forgot_password Passwords.generate_reset_token Passwords.invalidate_prior
    Passwords.publish_token limit_attempts_if_positive limit_attempts track_attempt
    Users.get_by_email Users.load_by_email Ristretto.get Ristretto.set Repository.get_by_email
    Repository.Table.find_live Repository.run_statement str_eq enqueue Redis.get Redis.set Redis.del
    Redis.incr Redis.expire user_reset_index_key password_reset_key forgot_attempts_key
first_done = refl

second_done : Passwords.forgot_password app "ada@x.io" first ≡ (ok tt, second)
unfolding Passwords.forgot_password Passwords.generate_reset_token Passwords.invalidate_prior
    Passwords.publish_token limit_attempts_if_positive limit_attempts track_attempt
    Users.get_by_email Users.load_by_email Ristretto.get Ristretto.set Repository.get_by_email
    Repository.Table.find_live Repository.run_statement str_eq enqueue Redis.get Redis.set Redis.del
    Redis.incr Redis.expire user_reset_index_key password_reset_key forgot_attempts_key
second_done = refl

first_drawn : (drawn app "ada@x.io" start).0 ≡ ok "first"
unfolding Passwords.forgot_password Passwords.generate_reset_token Passwords.invalidate_prior
    Passwords.publish_token limit_attempts_if_positive limit_attempts track_attempt
    Users.get_by_email Users.load_by_email Ristretto.get Ristretto.set Repository.get_by_email
    Repository.Table.find_live Repository.run_statement str_eq enqueue Redis.get Redis.set Redis.del
    Redis.incr Redis.expire user_reset_index_key password_reset_key forgot_attempts_key
first_drawn = refl

second_drawn : (drawn app "ada@x.io" first).0 ≡ ok "second"
unfolding Passwords.forgot_password Passwords.generate_reset_token Passwords.invalidate_prior
    Passwords.publish_token limit_attempts_if_positive limit_attempts track_attempt
    Users.get_by_email Users.load_by_email Ristretto.get Ristretto.set Repository.get_by_email
    Repository.Table.find_live Repository.run_statement str_eq enqueue Redis.get Redis.set Redis.del
    Redis.incr Redis.expire user_reset_index_key password_reset_key forgot_attempts_key
second_drawn = refl

first_found : (account app "ada@x.io" start).0 ≡ ok (to_domain (row true))
unfolding Passwords.forgot_password Passwords.generate_reset_token Passwords.invalidate_prior
    Passwords.publish_token limit_attempts_if_positive limit_attempts track_attempt
    Users.get_by_email Users.load_by_email Ristretto.get Ristretto.set Repository.get_by_email
    Repository.Table.find_live Repository.run_statement str_eq enqueue Redis.get Redis.set Redis.del
    Redis.incr Redis.expire user_reset_index_key password_reset_key forgot_attempts_key
first_found = refl

second_found : (account app "ada@x.io" first).0 ≡ ok (to_domain (row true))
unfolding Passwords.forgot_password Passwords.generate_reset_token Passwords.invalidate_prior
    Passwords.publish_token limit_attempts_if_positive limit_attempts track_attempt
    Users.get_by_email Users.load_by_email Ristretto.get Ristretto.set Repository.get_by_email
    Repository.Table.find_live Repository.run_statement str_eq enqueue Redis.get Redis.set Redis.del
    Redis.incr Redis.expire user_reset_index_key password_reset_key forgot_attempts_key
second_found = refl

texts_differ : str_eq "second" "first" ≡ false
unfolding str_eq
texts_differ = refl

first_filled : str_eq "first" "" ≡ false
unfolding str_eq
first_filled = refl

new_filled : str_eq "new" "" ≡ false
unfolding str_eq
new_filled = refl

forgot_password-forgot_password_example :
    (Passwords.reset_password app "first" "new" second).0
    ≡ err (unauthorized_error "reset token is invalid or expired")
forgot_password-forgot_password_example =
    forgot_password-forgot_password app steady texts "ada@x.io" "ada@x.io" "first" "second" "new"
      (to_domain (row true)) (to_domain (row true)) start first second first_done second_done
      first_drawn second_drawn (differ "second" "first" texts_differ) first_found second_found refl
      first_filled new_filled
