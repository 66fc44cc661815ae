-- ===== src/Tests/Migrations.antt =====
-- The migration runner on the files of cmd/migration/migrations: the examples.
use go_rest_boilerplate.Base.{
  String, true, false, List, [], ◌∷◌, ◌++◌, ◌≡◌, refl, str_eq, if◌then◌else◌,
}
use go_rest_boilerplate.Apperror.{external}
use go_rest_boilerplate.Exec.{Result, ok}
use go_rest_boilerplate.Env.{Fate, runs, loses}
use go_rest_boilerplate.Migration.Names.{
  sort_by, insert_sorted, base_from, cut_suffix, derive_up_name,
}
use go_rest_boilerplate.Migration.{
  Host, Database, contains, command, commit, note, forget, load_applied, apply_file, run_file,
  apply_all, revert_all, with_advisory_lock, list_files, up, down,
}
use go_rest_boilerplate.Migration.Progress.{pending}
use go_rest_boilerplate.Migration.Outcomes.{Outcome, up_progress, down_progress}
use go_rest_boilerplate.Migration.Rerun.{up-up}

abbrev create : String
create = "m/1_create_tables_users.up.sql"

abbrev create_uuid : String
create_uuid = "m/2_create_extensions_uuid.up.sql"

abbrev drop : String
drop = "m/1_drop_tables_users.down.sql"

abbrev drop_uuid : String
drop_uuid = "m/2_drop_extensions_uuid.down.sql"

abbrev globbed : String → Result (List String)
globbed p =
    if str_eq p "*.up.sql" then ok (create_uuid ∷ create ∷ []) else ok (drop ∷ drop_uuid ∷ [])

abbrev next_fate : List Fate → Fate × List Fate
next_fate [] = (runs, [])
next_fate (f ∷ fs) = (f, fs)

-- A script's text is its file's name; the schema is the scripts that ran.
abbrev host : Host
host = record {
  glob = globbed;
  read_file = λ f. ok f;
  Schema = List String;
  run_script = λ text x. ok (x ++ text ∷ []);
  World = List Fate;
  fate = next_fate;
}

abbrev fresh : List Fate → Database host
fresh w = record { world = w; stored = record { schema = []; ledger = [] } }

abbrev ran_both : Database host
ran_both = record {
  world = [];
  stored = record {
    schema = create ∷ create_uuid ∷ [];
    ledger = "1_create_tables_users.up.sql" ∷ "2_create_extensions_uuid.up.sql" ∷ [];
  };
}

ups : list_files host "up" ≡ ok (create ∷ create_uuid ∷ [])
unfolding list_files sort_by insert_sorted str_eq
ups = refl

downs : list_files host "down" ≡ ok (drop ∷ drop_uuid ∷ [])
unfolding list_files sort_by insert_sorted str_eq
downs = refl

-- The twelfth command is the second file's commit.
abbrev lossy : List Fate
lossy =
    runs
    ∷ runs
    ∷ runs
    ∷ runs
    ∷ runs
    ∷ runs
    ∷ runs
    ∷ runs
    ∷ runs
    ∷ runs
    ∷ runs
    ∷ loses (external "")
    ∷ []

-- The reply to a commit is lost.
up_progress_example :
    Outcome host true
      (pending [] (create ∷ create_uuid ∷ []))
      (fresh []).stored
      (up host (fresh lossy))
up_progress_example = up_progress host (fresh lossy) ups

down_progress_example :
    Outcome host false (drop_uuid ∷ drop ∷ []) ran_both.stored (down host ran_both)
unfolding sort_by insert_sorted
down_progress_example = down_progress host ran_both downs

up-fresh : up host (fresh []) ≡ (ok tt, ran_both)
unfolding up down with_advisory_lock list_files str_eq load_applied apply_all revert_all sort_by
    insert_sorted contains apply_file run_file command commit note forget base_from derive_up_name
    cut_suffix
up-fresh = refl

up-up_example : (up host ran_both).1.stored ≡ ran_both.stored
up-up_example = up-up host (fresh []) ups up-fresh

abbrev reverted : Database host
reverted = (down host ran_both).1

reverts : down host ran_both ≡ (ok tt, reverted)
unfolding down command with_advisory_lock list_files str_eq revert_all sort_by insert_sorted
    apply_file run_file commit
reverts = refl

-- The down files drop the tables, and their names stay in the ledger.
