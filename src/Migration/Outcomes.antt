-- ===== src/Migration/Outcomes.antt =====
-- What `Up` and `Down` of internal/datasources/migration/migration.go come to, on every outcome.
use go_rest_boilerplate.Base.{
  String, Bool, true, false, List, [], ◌∷◌, ◌++◌, ◌≡◌, inl, inr, refl, sym, ap, ◌∙◌, arith,
}
use go_rest_boilerplate.Apperror.{Error, errorf}
use go_rest_boilerplate.Exec.{Exec, Result, ok, err, map_err, ignore, continue}
use go_rest_boilerplate.Migration.Names.{str_gt, sort_by}
use go_rest_boilerplate.Migration.{
  Host, Draft, Database, command, finally, load_applied, list_files, apply_all, with_advisory_lock,
  up, down,
}
use go_rest_boilerplate.Migration.Runs.{command_stored}
use go_rest_boilerplate.Migration.Progress.{
  pending, Progress, AllRan, run_all, apply_all-run_all, revert_all-run_all, run_all-Progress,
}

append_nil : (l : List String) → l ++ [] ≡ l
append_nil [] = refl
append_nil (x ∷ l) = ap (λ z. x ∷ z) (append_nil l)

whole : (l r files : List String) → l ++ r ≡ files → r ≡ [] → l ≡ files
whole l r files h e = sym (append_nil l) ∙ ap (λ z. l ++ z) (sym e) ∙ h

none_done : (l r : List String) → l ++ r ≡ [] → l ≡ []
none_done [] r h = refl
none_done (x ∷ l) r h = ground (arith, h)

module _ (host : Host) where
  -- A run came to `p`, from the draft `d`.
  abbrev pub Outcome : Bool → List String → Draft host → Result (Unit {0}) × Database host → Type 0
  Outcome is_up files d (r, t) = Progress host is_up files d t.stored r

  command_err_stored :
      (g : Error → Error) (s : Database host) → (map_err g (command host) s).1.stored ≡ s.stored
  command_err_stored g s = ground (arith, command_stored host s)

  load_applied_stored : (s : Database host) → (load_applied host s).1.stored ≡ s.stored
  unfolding load_applied
  load_applied_stored s =
      ground (arith, command_stored host s, command_stored host (command host s).1)

  load_applied_ok :
      (s : Database host) {l : List String} {t : Database host}
      → load_applied host s ≡ (ok l, t)
      → l ≡ t.stored.ledger
  unfolding load_applied
  load_applied_ok s h =
      ground (arith, command_stored host s, command_stored host (command host s).1)

  module _ (is_up : Bool) (files : List String) (d : Draft host) where
    -- An action that leaves the stored state alone, and what follows it.
    after :
        {A : Type 0} (p : Result A × Database host) (f : A → Exec (Database host) (Unit {0}))
        → p.1.stored ≡ d
        → ((a : A) (t : Database host)
            → p ≡ (ok a, t)
            → t.stored ≡ d
            → Outcome is_up files d (f a t))
        → Outcome is_up files d (continue p f)
    unfolding AllRan
    after (ok a, t) f e k = k a t refl e
    after (err x, t) f e k = record {
      finished = [];
      left = files;
      all = refl;
      ran = e;
      complete = inl λ h. ground arith;
    }

    finally-Outcome :
        (m : Exec (Database host) (Unit {0})) (s : Database host)
        → Outcome is_up files d (m s)
        → Outcome is_up files d (finally m (ignore (command host)) s)
    finally-Outcome m s o = rw (command_stored host (m s).1) o

    with_advisory_lock-Outcome :
        (m : Exec (Database host) (Unit {0})) (s : Database host)
        → s.stored ≡ d
        → ((t : Database host) → t.stored ≡ d → Outcome is_up files d (m t))
        → Outcome is_up files d (with_advisory_lock host m s)
    unfolding with_advisory_lock
    with_advisory_lock-Outcome m s e k =
        after (map_err (errorf "acquire advisory lock") (command host) s) _
          (command_err_stored (errorf "acquire advisory lock") s ∙ e)
          λ _ t _ f. finally-Outcome m t (k t f)

  from_draft :
      (is_up : Bool) (files : List String) (d e : Draft host)
      (p : Result (Unit {0}) × Database host)
      → d ≡ e
      → Outcome is_up files d p
      → Outcome is_up files e p
  from_draft is_up files d e p h o = rw (← h) o

  run_all-Outcome :
      (is_up : Bool) (files : List String) (d : Draft host) (v : Database host)
      → v.stored ≡ d
      → Outcome is_up files d (run_all host is_up files v)
  run_all-Outcome is_up files d v e =
      from_draft is_up files v.stored d (run_all host is_up files v) e
        (run_all-Progress host is_up files v)

  apply_all-Outcome :
      (l files : List String) (d : Draft host) (v : Database host)
      → v.stored ≡ d
      → l ≡ d.ledger
      → Outcome true (pending d.ledger files) d (apply_all host l files v)
  apply_all-Outcome l files d v e p =
      rw (apply_all-run_all host l files v, p) (run_all-Outcome true (pending d.ledger files) d v e)

  -- Where the files can be listed, `Up` applies a first part of those whose names the ledger does
  -- not hold, in the order of the listing, one after another and each whole, whatever the server
  -- does with each command; when it reports no error, all of them.
  pub up_progress :
      (s : Database host) {files : List String}
      → list_files host "up" ≡ ok files
      → Outcome true (pending s.stored.ledger files) s.stored (up host s)
  unfolding up
  up_progress s {files} h =
      after true (pending s.stored.ledger files) s.stored
        (map_err (errorf "create schema_migrations") (command host) s) _
        (command_err_stored (errorf "create schema_migrations") s)
        λ _ t _ e.
          with_advisory_lock-Outcome true (pending s.stored.ledger files) s.stored _ t e λ u f.
            rw h (
              after true (pending s.stored.ledger files) s.stored (load_applied host u) _
                (load_applied_stored u ∙ f)
                λ l v lv g.
                  apply_all-Outcome l files s.stored v g
                    (load_applied_ok u lv ∙ ap (λ z. z.ledger) g))

  -- Where the files can be listed, `Down` reverts a first part of them, in the reverse order, one
  -- after another and each whole, whatever the server does with each command; when it reports no
  -- error, all of them.
  pub down_progress :
      (s : Database host) {files : List String}
      → list_files host "down" ≡ ok files
      → Outcome false (sort_by str_gt files) s.stored (down host s)
  unfolding down
  down_progress s {files} h =
      let order = sort_by str_gt files in
      after false order s.stored (map_err (errorf "create schema_migrations") (command host) s) _
        (command_err_stored (errorf "create schema_migrations") s)
        λ _ t _ e.
          with_advisory_lock-Outcome false order s.stored _ t e λ u f.
            rw (h, revert_all-run_all host order u) (run_all-Outcome false order s.stored u f)

  -- Without an error, every file of the run was carried out.
  pub Outcome-AllRan :
      (is_up : Bool) (files : List String) (d : Draft host) (t : Database host)
      → Outcome is_up files d (ok tt, t)
      → AllRan host is_up files d t.stored
  Outcome-AllRan is_up files d t o =
      let left : o.left ≡ [] = elim o.complete [ inl n ↦ absurd (n refl) | inr e ↦ e ] in
      let l = whole o.finished o.left files o.all left in rw (← l) o.ran

  -- On no file, nothing happens.
  pub Outcome-none :
      (is_up : Bool) (d : Draft host) (p : Result (Unit {0}) × Database host)
      → Outcome is_up [] d p
      → p.1.stored ≡ d
  unfolding AllRan
  Outcome-none is_up d p o =
      let r : AllRan host is_up [] d p.1.stored = rw (none_done o.finished o.left o.all) at o.ran in
      r
