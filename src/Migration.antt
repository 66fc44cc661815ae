-- ===== src/Migration.antt =====
-- internal/datasources/migration/migration.go: the runner that applies and reverts SQL files and
-- keeps the ledger `schema_migrations`. Log lines are left out.
pub mod Names
pub mod Keys
pub mod Runs
pub mod Progress
pub mod Outcomes
pub mod Ledger
pub mod Rerun
use go_rest_boilerplate.Base.{
  String, ◌<>◌, Bool, true, false, ◌||◌, List, [], ◌∷◌, ◌++◌, str_eq, if◌then◌else◌,
}
use go_rest_boilerplate.Apperror.{errorf, external}
use go_rest_boilerplate.Exec.{
  Exec, Result, ok, err, pure, throw, when, map_err, ignore, ◌>>=◌, ◌>>◌,
}
use go_rest_boilerplate.Env.{Fate, runs, refuses, loses}
use go_rest_boilerplate.Migration.Names.{str_lt, str_gt, sort_by, base, derive_up_name}

-- The files and the Postgres server: a script's effect on the schema, and what the server does with
-- each command. The files do not change while the runner works.
pub record Host : Type 1 where
  pub glob : String → Result (List String)
  pub read_file : String → Result String
  pub Schema : Type 0
  pub run_script : String → Schema → Result Schema
  pub World : Type 0
  pub fate : World → Fate × World

-- What a transaction works on: the schema, and the names in `schema_migrations`.
pub record Draft (host : Host) : Type 0 where
  pub schema : host.Schema
  pub ledger : List String

pub record Database (host : Host) : Type 0 where
  pub world : host.World
  pub stored : Draft host

unfoldable pub contains : List String → String → Bool
contains [] n = false
contains (m ∷ l) n = str_eq m n || contains l n

-- `INSERT … ON CONFLICT DO NOTHING`
unfoldable pub note : String → List String → List String
note n l = if contains l n then l else l ++ n ∷ []

-- `DELETE … WHERE name = $1`
unfoldable pub forget : String → List String → List String
forget n [] = []
forget n (m ∷ l) = if str_eq m n then forget n l else m ∷ forget n l

-- `defer n`: it runs whether `m` returns or fails.
abbrev pub finally : {S A : Type 0} → Exec S A → Exec S (Unit {0}) → Exec S A
finally m n s = let (r, t) = m s in (r, (n t).1)

module _ (host : Host) where
  abbrev command_end : Database host → Fate × host.World → Result (Unit {0}) × Database host
  command_end s (runs, w) = (ok tt, record s { world = w })
  command_end s (refuses e, w) = (err e, record s { world = w })
  command_end s (loses e, w) = (err e, record s { world = w })

  -- A command that leaves the schema and the ledger alone.
  unfoldable pub command : Exec (Database host) (Unit {0})
  command s = command_end s (host.fate s.world)

  -- A statement of an open transaction works on the draft; an error leads to a rollback.
  abbrev pub in_tx :
      (Draft host → Result (Draft host)) → Draft host → Exec (Database host) (Draft host)
  in_tx f d = command >> λ s. (f d, s)

  abbrev pub commit_end :
      Draft host → Database host → Fate × host.World → Result (Unit {0}) × Database host
  commit_end d s (runs, w) = (ok tt, record { world = w; stored = d })
  commit_end d s (refuses e, w) = (err e, record s { world = w })
  commit_end d s (loses e, w) = (err e, record { world = w; stored = d })

  unfoldable pub commit : Draft host → Exec (Database host) (Unit {0})
  commit d s = commit_end d s (host.fate s.world)

  abbrev with_schema : Draft host → Result host.Schema → Result (Draft host)
  with_schema d (ok x) = ok (record d { schema = x })
  with_schema d (err e) = err e

  abbrev pub execute : String → Draft host → Result (Draft host)
  execute text d = with_schema d (host.run_script text d.schema)

  abbrev pub book : Bool → String → Draft host → Result (Draft host)
  book true n d = ok (record d { ledger = note n d.ledger })
  book false n d = ok (record d { ledger = forget n d.ledger })

  abbrev pub booking : Bool → String → String
  booking true n = "record migration " <> n
  booking false n = "forget migration " <> n

  -- The transaction of one file.
  unfoldable pub run_file : String → String → Bool → String → Exec (Database host) (Unit {0})
  run_file file up_name is_up text = do
    map_err (errorf "begin tx") command
    draft ← (λ s. (ok s.stored, s))
    executed ← map_err (errorf ("exec " <> base file)) (in_tx (execute text) draft)
    booked ← map_err (errorf (booking is_up up_name)) (in_tx (book is_up up_name) executed)
    map_err (errorf ("commit " <> base file)) (commit booked)

  abbrev pub read_then :
      String
      → Result String
      → (String → Exec (Database host) (Unit {0}))
      → Exec (Database host) (Unit {0})
  read_then file (ok text) f = f text
  read_then file (err e) f = throw (errorf ("read " <> file) e)

  unfoldable pub apply_file : String → String → Bool → Exec (Database host) (Unit {0})
  apply_file file up_name is_up = read_then file (host.read_file file) (run_file file up_name is_up)

  abbrev sorted_files : Result (List String) → Result (List String)
  sorted_files (ok fs) = ok (sort_by str_lt fs)
  sorted_files (err e) = err (external "glob migration files")

  -- `listFiles`, at the pattern for one of the two actions
  unfoldable pub list_files : String → Result (List String)
  list_files action = sorted_files (host.glob ("*." <> (action <> ".sql")))

  -- The ledger as it stands: the query, then the rows, whose reading may fail.
  unfoldable pub load_applied : Exec (Database host) (List String)
  load_applied = do
    map_err (errorf "load applied migrations") command
    command
    λ s. (ok s.stored.ledger, s)

  -- The loop of `Up`; the names that are skipped were loaded before it.
  unfoldable pub apply_all : List String → List String → Exec (Database host) (Unit {0})
  apply_all applied [] = pure tt
  apply_all applied (file ∷ files) =
      let rest = apply_all applied files in
      if contains applied (base file) then rest else apply_file file (base file) true >> rest

  unfoldable pub revert_all : List String → Exec (Database host) (Unit {0})
  revert_all [] = pure tt
  revert_all (file ∷ files) = apply_file file (derive_up_name (base file)) false >> revert_all files

  unfoldable pub with_advisory_lock :
      Exec (Database host) (Unit {0}) → Exec (Database host) (Unit {0})
  with_advisory_lock f = do
    map_err (errorf "acquire advisory lock") command
    finally f (ignore command)

  abbrev pub apply_listed : Result (List String) → Exec (Database host) (Unit {0})
  apply_listed (err e) = throw e
  apply_listed (ok files) = do applied ← load_applied; apply_all applied files

  unfoldable pub up : Exec (Database host) (Unit {0})
  up = do
    map_err (errorf "create schema_migrations") command
    with_advisory_lock (apply_listed (list_files "up"))

  abbrev pub revert_listed : Result (List String) → Exec (Database host) (Unit {0})
  revert_listed (err e) = throw e
  revert_listed (ok files) = revert_all (sort_by str_gt files)

  unfoldable pub down : Exec (Database host) (Unit {0})
  down = do
    map_err (errorf "create schema_migrations") command
    with_advisory_lock (revert_listed (list_files "down"))

  -- cmd/migration/main.go with its two flags; a failure ends the process.
  pub main : Bool → Bool → Exec (Database host) (Unit {0})
  main is_up is_down = when is_up up >> when is_down down
