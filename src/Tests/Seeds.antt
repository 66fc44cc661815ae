-- ===== src/Tests/Seeds.antt =====
-- The seeder: the examples.
use go_rest_boilerplate.Base.{true, ◌≡◌, refl, ◌==◌, List, str_eq, if◌then◌else◌}
use go_rest_boilerplate.Exec.{ok}
use go_rest_boilerplate.Config.{App}
use go_rest_boilerplate.State.{State}
use go_rest_boilerplate.Records.{Users}
use go_rest_boilerplate.Repository.{run_statement}
use go_rest_boilerplate.Repository.Table.{clashes_any, insert}
use go_rest_boilerplate.Seed.{
  user_seeder, user_data, load_user_data, generate_hash, insert_user, insert_all,
}
use go_rest_boilerplate.Seed.Whole.{Whole, user_seeder-Whole}
use go_rest_boilerplate.Tests.Environment.{env}
use go_rest_boilerplate.Tests.Fixture.{app, start}

loads : load_user_data app (start true 0) ≡ (ok (user_data "hash:12345"), start true 0)
unfolding load_user_data generate_hash str_eq
loads = refl

-- The server gives the second row the id of the first: the seeder fails and leaves the table alone.
clash : (user_seeder app (user_data "hash:12345") (start true 0)).1.users ≡ (start true 0).users
unfolding user_seeder run_statement insert_all insert_user insert clashes_any str_eq
clash = refl

-- A server that gives other ids.
abbrev seeding : App
seeding = record app { env = record env { sql_uuid = λ w. (if w == 6 then "7" else "8", w) } }

abbrev fresh : State seeding
fresh = record {
  world = 5;
  redis = (start true 0).redis;
  ristretto = (start true 0).ristretto;
  users = (start true 0).users;
  mailer = (start true 0).mailer;
}

abbrev patrick_and_john : List Users
patrick_and_john = user_data "hash:12345"

seeds : (user_seeder seeding patrick_and_john fresh).0 ≡ ok tt
unfolding user_seeder run_statement insert_all insert_user insert clashes_any str_eq
seeds = refl

user_seeder-Whole_example :
    Whole seeding patrick_and_john fresh.users (user_seeder seeding patrick_and_john fresh)
user_seeder-Whole_example = user_seeder-Whole seeding patrick_and_john fresh (tt, tt)
