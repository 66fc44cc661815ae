-- ===== src/Tests/Logs.antt =====
-- The logger: the examples.
use go_rest_boilerplate.Base.{String, true, false, none, some, [], ◌∷◌, ◌≡◌, refl, str_eq}
use go_rest_boilerplate.Exec.{ok}
use go_rest_boilerplate.Logger.{
  info_level, error_level, Library, Config, Context, Stack, frame, Field, Logger, new_zap_logger,
  parse_zap_level, log, logf, log_with_context, logf_with_context,
}
use go_rest_boilerplate.Tests.Fixture.{app, start}
use go_rest_boilerplate.Http.Middlewares.{
  Correlated, get, set, security_headers, setup_router, request_id_middleware,
}
use go_rest_boilerplate.Http.Middlewares.Traced.{id_of, setup_router-Carry}
use go_rest_boilerplate.Logger.Default.{
  default_log, default_logf, default_log_with_context, default_logf_with_context,
}
use go_rest_boilerplate.Logger.Callers.{Names, fields, context, chain, log-Names}
use go_rest_boilerplate.Logger.Correlation.{Carry}

abbrev lib : Library
lib = record { Value = String; string = λ s. s; sprintf = λ format args. format }

abbrev config : Config
config = record {
  level = "info";
  enable_console = true;
  enable_file = false;
  file_location = "";
  app_name = "";
}

abbrev logger : Logger lib
logger = record {
  base = record { cores = info_level ∷ []; skip = 2; attached = [] };
  context_logger = record { cores = info_level ∷ []; skip = 2; attached = [] };
  chained_logger = record { cores = info_level ∷ []; skip = 1; attached = [] };
  fields = [];
  is_chained = false;
}

made : new_zap_logger lib config (ok tt) ≡ ok logger
unfolding new_zap_logger parse_zap_level str_eq
made = refl

abbrev ctx : Context
ctx = record { trace_id = none; request_id = some "r-1" }

abbrev handler : Stack
handler = "Handler.Login" ∷ "gin.Next" ∷ []

log-Names_example :
    let c = chain lib logger (fields (("category", "server") ∷ [])) (context (some ctx) ∷ []) in
    let here = Names lib (some "Handler.Login") in
    here (default_log lib (some logger) error_level "failed" [] handler).entries
    × here (default_logf lib (some logger) error_level "failed" [] handler).entries
    × here
        (default_log_with_context lib
          (some logger)
          error_level
          (some ctx)
          "failed"
          []
          handler).entries
    × here
        (default_logf_with_context lib
          (some logger)
          error_level
          (some ctx)
          "failed"
          []
          handler).entries
    × here (log lib c error_level "failed" [] handler).entries
    × here (logf lib c error_level "failed" [] handler).entries
    × Names lib
        (frame 0 ("gin.Next" ∷ []))
        (log_with_context lib c error_level (some ctx) "failed" [] handler).entries
    × Names lib
        (frame 0 ("gin.Next" ∷ []))
        (logf_with_context lib c error_level (some ctx) "failed" [] handler).entries
log-Names_example =
    log-Names lib config (ok tt) logger made (fields (("category", "server") ∷ []))
      (context (some ctx) ∷ []) error_level (some ctx) "failed" [] [] "Handler.Login"
      ("gin.Next" ∷ [])

abbrev correlated : Correlated app
correlated = record {
  headers = security_headers true (set "X-Request-ID" "uuid" []);
  context = record { trace_id = none; request_id = some "uuid" };
}

correlates : (setup_router app true "" none (start true 0)).0 ≡ ok correlated
unfolding setup_router request_id_middleware str_eq
correlates = refl

new_id : id_of app "" (start true 0) ≡ "uuid"
unfolding str_eq
new_id = refl

uuid_filled : str_eq "uuid" "" ≡ false
unfolding str_eq
uuid_filled = refl

setup_router-Carry_example :
    let x : Field lib = ("request_id", id_of app "" (start true 0)) in
    (get "X-Request-ID" correlated.headers ≡ some (id_of app "" (start true 0)))
    × Carry lib x
        (log_with_context lib logger error_level
          (some correlated.context)
          "failed"
          []
          handler).entries
    × Carry lib x
        (logf_with_context lib logger error_level
          (some correlated.context)
          "failed"
          []
          handler).entries
setup_router-Carry_example =
    setup_router-Carry app true "" none (start true 0) (rw new_id uuid_filled) correlates lib logger
      error_level "failed" [] [] handler
