-- ===== src/Logger/Callers.antt =====
-- The caller that an entry of pkg/logger names.
use go_rest_boilerplate.Base.{
  ℕ, String, true, false, Option, some, List, [], ◌∷◌, ◌≡◌, refl, arith, leb, if_ind, not, ◌&&◌,
  str_eq, Bool-cases, inl, inr,
}
use go_rest_boilerplate.Exec.{Result, ok, err}
use go_rest_boilerplate.Logger.{
  Level, rank, Library, Config, Context, Stack, frame, Fields, Entry, ZapLogger, Logger, to_cores,
  built, with_file, new_zap_logger, log, logf, log_with_context, logf_with_context, with_fields,
  with_context, write,
}
use go_rest_boilerplate.Logger.Default.{
  default_log, default_logf, default_log_with_context, default_logf_with_context,
}

module _ (lib : Library) where
  -- Each entry names this caller.
  abbrev pub Names : Option String → List (Entry lib) → Type 0
  Names caller [] = Unit
  Names caller (e ∷ es) = (e.caller ≡ caller) × Names caller es

  -- A call on a logger: `WithFields` or `WithContext`.
  pub data Link : Type 0 where
    fields : Fields lib → Link
    context : Option Context → Link

  abbrev linked : Logger lib → Link → Logger lib
  linked l (fields fs) = with_fields lib l fs
  linked l (context ctx) = with_context lib l ctx

  -- A chain of such calls, at least one.
  abbrev pub chain : Logger lib → Link → List Link → Logger lib
  chain l first [] = linked l first
  chain l first (next ∷ links) = chain (linked l first) next links

  to_cores-Names :
      (level : Level) (e : Entry lib) (cores : List Level)
      → Names e.caller (to_cores lib level e cores)
  to_cores-Names level e [] = tt
  to_cores-Names level e (c ∷ cs) =
      let rest = to_cores-Names level e cs in
      if_ind (Names e.caller) (leb (rank c) (rank level)) (e ∷ to_cores lib level e cs)
        (to_cores lib level e cs) (λ _. (refl, rest)) λ _. rest

  -- The frames that the three zap loggers skip.
  record Skips (l : Logger lib) : Type 0 where
    base : l.base.skip ≡ 2
    context : l.context_logger.skip ≡ 2
    chained : l.chained_logger.skip ≡ 1

  built-Skips :
      (config : Config) (cores : List Level) (l : Logger lib)
      → built lib config cores ≡ ok l
      → (Skips l) × (l.is_chained ≡ false)
  built-Skips config [] l h = absurd (ground (arith, h))
  built-Skips config (c ∷ cores) l h = (
    record { base = ground (arith, h); context = ground (arith, h); chained = ground (arith, h) },
    ground (arith, h),
  )

  with_file-Skips :
      (config : Config) (opened : Result (Unit {0})) (l : Logger lib)
      → with_file lib config opened ≡ ok l
      → (Skips l) × (l.is_chained ≡ false)
  with_file-Skips config (err e) l h = absurd (ground (arith, h))
  with_file-Skips config (ok u) l h = built-Skips config _ l h

  new_zap_logger-Skips :
      (config : Config) (opened : Result (Unit {0})) (l : Logger lib)
      → new_zap_logger lib config opened ≡ ok l
      → (Skips l) × (l.is_chained ≡ false)
  unfolding new_zap_logger
  new_zap_logger-Skips config opened l h =
      elim (Bool-cases (config.enable_file && not (str_eq config.file_location ""))) [
        | inl e ↦ with_file-Skips config opened l (rw e at h)
        | inr e ↦ built-Skips config _ l (rw e at h)
      ]

  chain-Skips :
      (l : Logger lib) (first : Link) (links : List Link)
      → Skips l
      → Skips (chain l first links) × ((chain l first links).is_chained ≡ true)
  unfolding with_fields with_context
  chain-Skips l (fields fs) [] h =
      (record { base = h.base; context = h.context; chained = h.chained }, refl)
  chain-Skips l (context ctx) [] h =
      (record { base = h.base; context = h.context; chained = h.chained }, refl)
  chain-Skips l (fields fs) (next ∷ links) h =
      chain-Skips (linked l (fields fs)) next links
        (record { base = h.base; context = h.context; chained = h.chained })
  chain-Skips l (context ctx) (next ∷ links) h =
      chain-Skips (linked l (context ctx)) next links
        (record { base = h.base; context = h.context; chained = h.chained })

  write-Names :
      (z : ZapLogger lib) (n : ℕ) (level : Level) (msg : String) (fs : Fields lib) (stack : Stack)
      → z.skip ≡ n
      → Names (frame n stack) (write lib z level msg fs stack).entries
  write-Names z n level msg fs stack e = rw (← e) (to_cores-Names level _ z.cores)

  -- In a logger that the package builds, the caller named by each entry is: of a function of the
  -- package on the default logger, the place that calls it; of a method with no context on a logger
  -- from a chain of WithFields and WithContext, the place that calls it; but of a method with a
  -- context on such a logger, the caller of that place, if there is one.
  pub log-Names :
      (config : Config) (opened : Result (Unit {0})) (l : Logger lib)
      → new_zap_logger lib config opened ≡ ok l
      → (first : Link) (links : List Link) (level : Level) (ctx : Option Context) (msg : String)
        (more : List (Fields lib)) (args : List lib.Value) (site : String) (up : Stack)
      → let c = chain l first links in
        let here = Names (some site) in
        let stack = site ∷ up in
        here (default_log lib (some l) level msg more stack).entries
        × here (default_logf lib (some l) level msg args stack).entries
        × here (default_log_with_context lib (some l) level ctx msg more stack).entries
        × here (default_logf_with_context lib (some l) level ctx msg args stack).entries
        × here (log lib c level msg more stack).entries
        × here (logf lib c level msg args stack).entries
        × Names (frame 0 up) (log_with_context lib c level ctx msg more stack).entries
        × Names (frame 0 up) (logf_with_context lib c level ctx msg args stack).entries
  unfolding default_log default_logf default_log_with_context default_logf_with_context log logf
      log_with_context logf_with_context
  log-Names config opened l h first links level ctx msg more args site up =
      let stack = site ∷ up in
      let (s, plain) = new_zap_logger-Skips config opened l h in
      let (t, chained) = chain-Skips l first links s in
      (
        rw plain (write-Names l.base 2 level msg _ ("zapLogger.log" ∷ "logger.log" ∷ stack) s.base),
        rw plain (write-Names l.base 2 level _ _ ("zapLogger.logf" ∷ "logger.logf" ∷ stack) s.base),
        write-Names l.context_logger 2 level msg _
            ("zapLogger.logWithContext" ∷ "logger.logWithContext" ∷ stack) s.context,
        write-Names l.context_logger 2 level _ _
            ("zapLogger.logfWithContext" ∷ "logger.logfWithContext" ∷ stack) s.context,
        rw chained (
            write-Names (chain l first links).chained_logger 1 level msg _ ("zapLogger.log" ∷ stack)
              t.chained),
        rw chained (
            write-Names (chain l first links).chained_logger 1 level _ _ ("zapLogger.logf" ∷ stack)
              t.chained),
        write-Names (chain l first links).context_logger 2 level msg _
            ("zapLogger.logWithContext" ∷ stack) t.context,
        write-Names (chain l first links).context_logger 2 level _ _
            ("zapLogger.logfWithContext" ∷ stack) t.context,
      )
