-- ===== src/Migration/Rerun.antt =====
-- What the ledger and the schema are after `Up` and `Down` of
-- internal/datasources/migration/migration.go report success, and what a second run does.
use go_rest_boilerplate.Base.{String, true, false, not, ◌&&◌, ◌||◌, List, ◌≡◌, ap, ◌∙◌, arith}
use go_rest_boilerplate.Exec.{ok}
use go_rest_boilerplate.Migration.Names.{str_gt, sort_by}
use go_rest_boilerplate.Migration.{Host, Database, contains, list_files, up, down}
use go_rest_boilerplate.Migration.Progress.{pending}
use go_rest_boilerplate.Migration.Outcomes.{
  up_progress, down_progress, Outcome, Outcome-AllRan, Outcome-none,
}
use go_rest_boilerplate.Migration.Ledger.{
  books, AllRan-books, AllRan-unbooks, books-pending, pending_none, books-sort_by,
}

module _ (host : Host) where
  -- When `Up` reports success, `schema_migrations` holds the names it held before and the name of
  -- every listed file, and no other.
  pub up-books :
      (s : Database host) {files : List String} {t : Database host}
      → list_files host "up" ≡ ok files
      → up host s ≡ (ok tt, t)
      → (m : String) → contains t.stored.ledger m ≡ contains s.stored.ledger m || books true files m
  up-books s {files} {t} h r m =
      let o : Outcome host true (pending s.stored.ledger files) s.stored (ok tt, t) =
        rw r at (up_progress host s h) in
      let a = Outcome-AllRan host true (pending s.stored.ledger files) s.stored t o in
      AllRan-books host (pending s.stored.ledger files) s.stored t.stored a m
      ∙ books-pending s.stored.ledger files m

  -- Where the files can be listed, then after an `Up` that reported success another `Up` leaves the
  -- schema and `schema_migrations` as they are, whatever its outcome.
  pub up-up :
      (s : Database host) {files : List String} {t : Database host}
      → list_files host "up" ≡ ok files
      → up host s ≡ (ok tt, t)
      → (up host t).1.stored ≡ t.stored
  up-up s {files} {t} h r =
      let none_left =
        pending_none t.stored.ledger files (λ m q. ground (arith, up-books s h r m, q)) in
      Outcome-none host true t.stored (up host t) (rw none_left at (up_progress host t h))

  -- Where the files can be listed and `Down` reports success, `schema_migrations` holds the names it held before, less those
  -- that the listed files derive, and no other.
  pub down-unbooks :
      (s : Database host) {files : List String} {t : Database host}
      → list_files host "down" ≡ ok files
      → down host s ≡ (ok tt, t)
      → (m : String)
      → contains t.stored.ledger m ≡ contains s.stored.ledger m && not (books false files m)
  down-unbooks s {files} {t} h r m =
      let o : Outcome host false (sort_by str_gt files) s.stored (ok tt, t) =
        rw r at (down_progress host s h) in
      AllRan-unbooks host (sort_by str_gt files) s.stored t.stored
        (Outcome-AllRan host false (sort_by str_gt files) s.stored t o) m
      ∙ ap (λ b. contains s.stored.ledger m && not b) (books-sort_by str_gt false files m)
