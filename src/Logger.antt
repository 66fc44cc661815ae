-- ===== src/Logger.antt =====
-- pkg/logger: the logger over go.uber.org/zap (zap.go), the default one (logger.go, init.go) and the
-- ids that it takes from a context (helper.go). zap is the part that is not in the repository: a
-- value of its kind of field, its formatting, and for a call the entry that it writes, with the
-- caller that stands `skip` frames above the call. A map of fields is the list in which the call
-- ranges over it. Encodings of an entry are left out.
pub mod Default
pub mod Callers
pub mod Correlation
use go_rest_boilerplate.Base.{
  ℕ, zero, suc, String, Bool, true, false, not, ◌&&◌, Option, none, some, List, [], ◌∷◌, ◌++◌, leb,
  str_eq, if◌then◌else◌,
}
use go_rest_boilerplate.Apperror.{Error, external, errorf}
use go_rest_boilerplate.Exec.{Result, ok, err}

pub data Level : Type 0 where
  debug_level info_level warn_level error_level panic_level fatal_level : Level

-- The order of zapcore's levels.
abbrev pub rank : Level → ℕ
rank debug_level = 0
rank info_level = 1
rank warn_level = 2
rank error_level = 3
rank panic_level = 4
rank fatal_level = 5

pub record Library : Type 1 where
  pub Value : Type 0
  -- The value of `zap.String`, and `fmt.Sprintf`.
  pub string : String → Value
  pub sprintf : String → List Value → String

pub record Config : Type 0 where
  pub level : String
  pub enable_console : Bool
  pub enable_file : Bool
  pub file_location : String
  pub app_name : String

-- The ids in a context.
pub record Context : Type 0 where
  pub trace_id : Option String
  pub request_id : Option String

-- What becomes of the caller.
pub data Outcome : Type 0 where
  returns exits panics : Outcome

abbrev pub outcome_of : Level → Outcome
outcome_of panic_level = panics
outcome_of fatal_level = exits
outcome_of _ = returns

-- The functions that are being called, the innermost first.
abbrev pub Stack : Type 0
Stack = List String

abbrev pub frame : ℕ → Stack → Option String
frame n [] = none
frame zero (f ∷ fs) = some f
frame (suc n) (f ∷ fs) = frame n fs

unfoldable pub parse_zap_level : String → Level
parse_zap_level level =
    if str_eq level "debug"
    then debug_level
    else if str_eq level "info"
    then info_level
    else if str_eq level "warn"
    then warn_level
    else if str_eq level "error"
    then error_level
    else if str_eq level "fatal"
    then fatal_level
    else if str_eq level "panic"
    then panic_level
    else info_level

abbrev pub present : Option String → String
present none = ""
present (some id) = id

abbrev get_trace_id_from_context : Option Context → String
get_trace_id_from_context none = ""
get_trace_id_from_context (some ctx) = present ctx.trace_id

abbrev get_request_id_from_context : Option Context → String
get_request_id_from_context none = ""
get_request_id_from_context (some ctx) = present ctx.request_id

module _ (lib : Library) where
  abbrev pub Field : Type 0
  Field = String × lib.Value

  abbrev pub Fields : Type 0
  Fields = List Field

  pub record Entry : Type 0 where
    pub level : Level
    pub message : String
    pub fields : Fields
    pub caller : Option String

  -- `*zap.Logger`: the outputs by their level, the frames to skip, and the fields of `With`.
  pub record ZapLogger : Type 0 where
    pub cores : List Level
    pub skip : ℕ
    pub attached : Fields

  -- What a call writes, one entry for each output, and what becomes of the caller.
  pub record Written : Type 0 where
    pub entries : List Entry
    pub outcome : Outcome

  abbrev pub to_cores : Level → Entry → List Level → List Entry
  to_cores level e [] = []
  to_cores level e (c ∷ cs) =
      let rest = to_cores level e cs in if leb (rank c) (rank level) then e ∷ rest else rest

  -- zap's method of a level, called from the innermost function of the stack.
  abbrev pub write : ZapLogger → Level → String → Fields → Stack → Written
  write z level message fields stack = record {
    entries =
        to_cores level
          (record {
            level = level;
            message = message;
            fields = z.attached ++ fields;
            caller = frame z.skip stack;
          })
          z.cores;
    outcome = outcome_of level;
  }

  -- `zapLogger`
  pub record Logger : Type 0 where
    pub base : ZapLogger
    pub context_logger : ZapLogger
    pub chained_logger : ZapLogger
    pub fields : Fields
    pub is_chained : Bool

  abbrev service : String → Fields
  service name = if str_eq name "" then [] else ("service", lib.string name) ∷ []

  abbrev with_skip : Config → List Level → ℕ → ZapLogger
  with_skip config cores skip = record {
    cores = cores;
    skip = skip;
    attached = service config.app_name;
  }

  abbrev pub built : Config → List Level → Result Logger
  built config [] = err (external "no output configured (console or file must be enabled)")
  built config cores = ok (record {
    base = with_skip config cores 2;
    context_logger = with_skip config cores 2;
    chained_logger = with_skip config cores 1;
    fields = [];
    is_chained = false;
  })

  abbrev console_cores : Config → List Level
  console_cores config = if config.enable_console then parse_zap_level config.level ∷ [] else []

  abbrev pub with_file : Config → Result (Unit {0}) → Result Logger
  with_file config (err e) = err (errorf "failed to open log file" e)
  with_file config (ok _) = built config (console_cores config ++ parse_zap_level config.level ∷ [])

  -- The file is opened only where the settings ask for one.
  unfoldable pub new_zap_logger : Config → Result (Unit {0}) → Result Logger
  new_zap_logger config opened =
      if config.enable_file && not (str_eq config.file_location "")
      then with_file config opened
      else built config (console_cores config)

  abbrev pub flatten : List Fields → Fields
  flatten [] = []
  flatten (m ∷ ms) = m ++ flatten ms

  abbrev pub merge_fields : Logger → List Fields → Fields
  merge_fields l additional = l.fields ++ flatten additional

  abbrev pub trace_field : String → Fields
  trace_field id =
      if not (str_eq id "") && not (str_eq id "unknown")
      then ("traceId", lib.string id) ∷ []
      else []

  abbrev pub request_field : String → Fields
  request_field id = if str_eq id "" then [] else ("request_id", lib.string id) ∷ []

  unfoldable pub append_correlation : Option Context → Fields → Fields
  append_correlation ctx fields =
      (fields ++ trace_field (get_trace_id_from_context ctx))
      ++ request_field (get_request_id_from_context ctx)

  abbrev pub direct : Logger → ZapLogger
  direct l = if l.is_chained then l.chained_logger else l.base

  -- `Debug` to `Panic`: one method for each level.
  unfoldable pub log : Logger → Level → String → List Fields → Stack → Written
  log l level msg fields stack =
      write (direct l) level msg (merge_fields l fields) ("zapLogger.log" ∷ stack)

  -- `Debugf` to `Panicf`
  unfoldable pub logf : Logger → Level → String → List lib.Value → Stack → Written
  logf l level format args stack =
      write (direct l) level (lib.sprintf format args) l.fields ("zapLogger.logf" ∷ stack)

  -- `DebugWithContext` to `PanicWithContext`
  unfoldable pub log_with_context :
      Logger → Level → Option Context → String → List Fields → Stack → Written
  log_with_context l level ctx msg fields stack =
      write l.context_logger level msg (append_correlation ctx (merge_fields l fields))
        ("zapLogger.logWithContext" ∷ stack)

  -- `DebugfWithContext` to `PanicfContext`
  unfoldable pub logf_with_context :
      Logger → Level → Option Context → String → List lib.Value → Stack → Written
  logf_with_context l level ctx format args stack =
      write l.context_logger level (lib.sprintf format args) (append_correlation ctx l.fields)
        ("zapLogger.logfWithContext" ∷ stack)

  unfoldable pub with_fields : Logger → Fields → Logger
  with_fields l fields = record l { fields = l.fields ++ fields; is_chained = true }

  unfoldable pub with_context : Logger → Option Context → Logger
  with_context l ctx = record l { fields = append_correlation ctx l.fields; is_chained = true }
