-- ===== src/Migration/Runs.antt =====
-- What a run of the migration runner comes to: whole files, one after another.
use go_rest_boilerplate.Base.{
  String, ◌<>◌, Bool, true, false, List, ◌≡◌, ◌≢◌, ◌⊎◌, inl, inr, refl, sym, ap, ◌∙◌, arith,
}
use go_rest_boilerplate.Apperror.{Error, errorf}
use go_rest_boilerplate.Exec.{Exec, Result, ok, err, map_err, continue}
use go_rest_boilerplate.Env.{Fate, runs, refuses, loses}
use go_rest_boilerplate.Migration.Names.{base}
use go_rest_boilerplate.Migration.{
  booking, commit_end, Host, Draft, Database, note, forget, command, commit, in_tx, execute, book,
  run_file, read_then, apply_file,
}

-- What one of the two actions does to the ledger.
abbrev pub booked : Bool → String → List String → List String
booked true n l = note n l
booked false n l = forget n l

module _ (host : Host) where
  -- The whole of a file: its script ran, and the ledger says so.
  pub record Ran (is_up : Bool) (file n : String) (d e : Draft host) : Type 0 where
    pub text : String
    pub readable : host.read_file file ≡ ok text
    pub runs : host.run_script text d.schema ≡ ok e.schema
    pub noted : e.ledger ≡ booked is_up n d.ledger

  -- A file's transaction leaves nothing behind, and fails, or all of it.
  abbrev pub Whole :
      Bool → String → String → Draft host → Result (Unit {0}) × Database host → Type 0
  Whole is_up file n d (r, t) = ((t.stored ≡ d) × (r ≢ ok tt)) ⊎ Ran is_up file n d t.stored

  pub command_stored : (s : Database host) → (command host s).1.stored ≡ s.stored
  unfolding command
  command_stored s = ground arith

  in_tx_stored :
      (f : Draft host → Result (Draft host)) (d : Draft host) (s : Database host)
      → (in_tx host f d s).1.stored ≡ s.stored
  in_tx_stored f d s = ground (arith, command_stored s)

  in_tx_ok :
      (g : Error → Error) (f : Draft host → Result (Draft host)) (d : Draft host)
      (s : Database host) {e : Draft host} {t : Database host}
      → map_err g (in_tx host f d) s ≡ (ok e, t)
      → f d ≡ ok e
  in_tx_ok g f d s h = ground arith

  execute-schema :
      (text : String) (d e : Draft host)
      → execute host text d ≡ ok e
      → (host.run_script text d.schema ≡ ok e.schema) × (e.ledger ≡ d.ledger)
  execute-schema text d e h = ground arith

  book-booked :
      (is_up : Bool) (n : String) (d e : Draft host)
      → book host is_up n d ≡ ok e
      → (e.schema ≡ d.schema) × (e.ledger ≡ booked is_up n d.ledger)
  book-booked true n d e h = ground arith
  book-booked false n d e h = ground arith

  module _ (is_up : Bool) (file n : String) (d : Draft host) where
    -- An action that leaves the stored state alone, and what follows it.
    after :
        {A : Type 0} (p : Result A × Database host) (f : A → Exec (Database host) (Unit {0}))
        → p.1.stored ≡ d
        → ((a : A) (t : Database host)
            → p ≡ (ok a, t)
            → t.stored ≡ d
            → Whole is_up file n d (f a t))
        → Whole is_up file n d (continue p f)
    after (ok a, t) f e k = k a t refl e
    after (err x, t) f e k = inl (e, λ h. ground arith)

    commit-Whole :
        (g : Error → Error) (b : Draft host) (s : Database host)
        → s.stored ≡ d
        → Ran is_up file n d b
        → Whole is_up file n d (map_err g (commit host b) s)
    unfolding commit
    commit-Whole g b s e r = go (host.fate s.world)
      where
        go :
            (x : Fate × host.World)
            → Whole is_up file n d (map_err g (λ s. commit_end host b s x) s)
        go (runs, w) = inr r
        go (refuses x, w) = inl (e, λ h. ground arith)
        go (loses x, w) = inr r

  executed-Ran :
      (is_up : Bool) (file n text : String) (d d1 x b : Draft host)
      → d1 ≡ d
      → host.read_file file ≡ ok text
      → execute host text d1 ≡ ok x
      → book host is_up n x ≡ ok b
      → Ran is_up file n d b
  executed-Ran is_up file n text d d1 x b e h ex bx =
      let x_ran = execute-schema text d1 x ex in
      let b_noted = book-booked is_up n x b bx in
      record {
        text = text;
        readable = h;
        runs = ap (λ z. host.run_script text z.schema) (sym e) ∙ x_ran.0 ∙ ap ok (sym b_noted.0);
        noted = b_noted.1 ∙ ap (booked is_up n) (x_ran.1 ∙ ap (λ z. z.ledger) e);
      }

  run_file-Whole :
      (is_up : Bool) (file n text : String) (s : Database host)
      → host.read_file file ≡ ok text
      → Whole is_up file n s.stored (run_file host file n is_up text s)
  unfolding run_file
  run_file-Whole is_up file n text s h =
      after is_up file n s.stored (map_err (errorf "begin tx") (command host) s) _
        (command_stored s)
        λ _ s1 _ e1.
          after is_up file n s.stored
            (map_err (errorf ("exec " <> base file)) (in_tx host (execute host text) s1.stored) s1)
            _ (in_tx_stored (execute host text) s1.stored s1 ∙ e1)
            λ x s2 ex e2.
              after is_up file n s.stored
                (map_err (errorf (booking host is_up n)) (in_tx host (book host is_up n) x) s2) _
                (in_tx_stored (book host is_up n) x s2 ∙ e2)
                λ b s3 bx e3. commit-Whole is_up file n s.stored _ b s3 e3 (
                  executed-Ran is_up file n text s.stored s1.stored x b e1 h
                    (in_tx_ok (errorf ("exec " <> base file)) (execute host text) s1.stored s1 ex)
                    (in_tx_ok (errorf (booking host is_up n)) (book host is_up n) x s2 bx))

  pub apply_file-Whole :
      (is_up : Bool) (file n : String) (s : Database host)
      → Whole is_up file n s.stored (apply_file host file n is_up s)
  unfolding apply_file
  apply_file-Whole is_up file n s = go (host.read_file file) refl
    where
      go :
          (r : Result String)
          → host.read_file file ≡ r
          → Whole is_up file n s.stored (read_then host file r (run_file host file n is_up) s)
      go (ok text) h = run_file-Whole is_up file n text s h
      go (err e) h = inl (refl, λ h. ground arith)
