-- ===== src/Logger/Default.antt =====
-- pkg/logger/logger.go and init.go: the default logger, which may be missing, and the functions of the
-- package that use it; and the settings that cmd/api/main.go gives it.
use go_rest_boilerplate.Base.{
  ℕ, String, true, false, Option, none, some, List, [], ◌∷◌, ◌==◌, str_eq, if◌then◌else◌,
}
use go_rest_boilerplate.Apperror.{external}
use go_rest_boilerplate.Exec.{Result, ok, err}
use go_rest_boilerplate.Startup
use go_rest_boilerplate.Logger.{
  Level, Library, Config, Context, Stack, returns, Fields, Written, Logger, new_zap_logger, log,
  logf, log_with_context, logf_with_context, with_fields, with_context,
}

-- `init`
abbrev pub bootstrap : Config
bootstrap = record {
  level = "info";
  enable_console = true;
  enable_file = false;
  file_location = "";
  app_name = "";
}

-- `loggerConfig` of cmd/api/main.go, less the form of the output
abbrev pub logger_config : Startup.Config → Config
logger_config c = record {
  level = if str_eq c.environment "production" then "info" else if c.debug then "debug" else "info";
  enable_console = true;
  enable_file = false;
  file_location = "";
  app_name = "go-rest-boilerplate";
}

module _ (lib : Library) where
  abbrev pub new_logger : Config → ℕ → Result (Unit {0}) → Result (Logger lib)
  new_logger config instance_type opened =
      if instance_type == 0
      then new_zap_logger lib config opened
      else err (external "invalid logger instance")

  abbrev replaced :
      Result (Logger lib) → Option (Logger lib) → Result (Unit {0}) × Option (Logger lib)
  replaced (ok l) old = (ok tt, some l)
  replaced (err e) old = (err e, old)

  -- `InitDefault`: the old logger stays where the new one cannot be made.
  unfoldable pub init_default :
      Config → ℕ → Result (Unit {0}) → Option (Logger lib) → Result (Unit {0}) × Option (Logger lib)
  init_default config instance_type opened old =
      replaced (new_logger config instance_type opened) old

  -- Without a logger nothing happens, also on `Fatal` and `Panic`.
  abbrev pub or_nothing : Option (Logger lib) → (Logger lib → Written lib) → Written lib
  or_nothing none f = record { entries = []; outcome = returns }
  or_nothing (some l) f = f l

  -- `Debug` to `Panic`: one function for each level.
  unfoldable pub default_log :
      Option (Logger lib) → Level → String → List (Fields lib) → Stack → Written lib
  default_log default level msg fields stack =
      or_nothing default λ l. log lib l level msg fields ("logger.log" ∷ stack)

  -- `Debugf` to `Panicf`
  unfoldable pub default_logf :
      Option (Logger lib) → Level → String → List lib.Value → Stack → Written lib
  default_logf default level format args stack =
      or_nothing default λ l. logf lib l level format args ("logger.logf" ∷ stack)

  -- `DebugWithContext` to `PanicWithContext`
  unfoldable pub default_log_with_context :
      Option (Logger lib)
      → Level
      → Option Context
      → String
      → List (Fields lib)
      → Stack
      → Written lib
  default_log_with_context default level ctx msg fields stack =
      or_nothing default
        λ l. log_with_context lib l level ctx msg fields ("logger.logWithContext" ∷ stack)

  -- `DebugfWithContext` to `PanicfContext`
  unfoldable pub default_logf_with_context :
      Option (Logger lib) → Level → Option Context → String → List lib.Value → Stack → Written lib
  default_logf_with_context default level ctx format args stack =
      or_nothing default
        λ l. logf_with_context lib l level ctx format args ("logger.logfWithContext" ∷ stack)

  -- `WithFields` and `WithContext`, which give nil without a logger.
  abbrev pub default_with_fields : Option (Logger lib) → Fields lib → Option (Logger lib)
  default_with_fields none fields = none
  default_with_fields (some l) fields = some (with_fields lib l fields)

  abbrev pub default_with_context : Option (Logger lib) → Option Context → Option (Logger lib)
  default_with_context none ctx = none
  default_with_context (some l) ctx = some (with_context lib l ctx)
