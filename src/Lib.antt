-- ===== src/Lib.antt =====
-- Verification of the login server: accounts, sessions, one-time codes, password changes and
-- resets over Postgres, Redis and an in-process cache, its HTTP endpoints, its mail workers, its
-- settings, its migrations and its seeds.
--
-- Parts, and the files that model them (paths from the repository's root):
--   Apperror            internal/apperror/error.go, and the errors of other packages
--   Domain.User, Domain.Account
--                       internal/business/domain/domain.users.go
--   Jwt                 pkg/jwt/jwt.go
--   Redis, Ristretto    internal/datasources/caches
--   Records, Repository internal/datasources/records, and each statement of
--                       internal/datasources/repositories/postgres/users on a list of rows, with
--                       the unique indexes of cmd/migration/migrations
--   Users               internal/business/usecases/users
--   OtpCode             pkg/helpers/helper.otp_code_generator.go
--   Mailer              pkg/mailer/mailer.async.go: the queue, Backoff (the defaults and the pause
--                       after a failed attempt) and Pool (the workers and Shutdown)
--   Auth                internal/business/usecases/auth: Keys, Attempts, Sessions (Register, Login,
--                       Refresh, Logout), Otp (SendOTP, VerifyOTP), Passwords (ForgotPassword,
--                       ResetPassword, ChangePassword), Requests (any of them in sequence)
--   Validators          pkg/validators
--   Http                of internal/http: middlewares/middleware.auth.go and
--                       middleware.ratelimit.go, datatransfers and auth/context.go (DataTransfers),
--                       handlers/v1 (Response, Handlers) and routes/route.auth.go
--                       (Handlers.Serving), these endpoints behind the limiter
--                       (Server), and what setupRouter puts in front of them (Middlewares)
--   Process             the shutdown in cmd/api/server/server.go, with the requests and the workers
--   Startup             internal/config/config.go, and what cmd/api/server/server.go makes of it
--   Logger              pkg/logger and loggerConfig of cmd/api/main.go
--   Migration           internal/datasources/migration/migration.go and cmd/migration/main.go
--   Seed                cmd/seed/seeders and pkg/helpers/helper.bcrypt.go
--
-- A Go function that mutates state and may fail is an action (Exec): from a state to a value or an
-- error and the next state, so what was written before an early return stays written. State holds
-- what the operations share: Redis, the cache, the table, the mail queue, and the runtime's world
-- of clock, random bytes and UUIDs. The use cases call the repository, the caches, the token service
-- and the queue as the source does; Login, VerifyOTP and ForgotPassword share one counter in
-- Auth.Attempts, and the middleware meets the use case only through Redis keys. Requests run one
-- after another, in any sequence. An endpoint takes a body as gin binds it, or none, and gives an
-- answer and an audit event.
--
-- The mail workers are a pool of goroutines over one channel: a step is one receive, one reply of
-- the sender, the end of one pause, one request or the shutdown, and the steps of the workers
-- interleave in any order. The process adds the requests in flight and the steps of Run to these; it
-- rests on what net/http documents, that Shutdown returns without an error only when no request is
-- left. The migration runner works on a draft of schema and ledger in each transaction, and the
-- seeder on a draft of the table; every command may be refused, or run with its reply lost.
--
-- Code that is not in the repository is a parameter of the definitions that use it: the fields of
-- Env (the runtime, bcrypt, Unicode, encoding/json, strconv, Redis, ristretto, golang-jwt and what
-- the Postgres server does with a statement: run it, refuse it, or lose its reply), of
-- Validators.Library (the validator library, the Unicode tables), of Startup.Library (viper,
-- net/url), of Http.RateLimiter.Buckets (golang.org/x/time/rate), of Logger.Library
-- (go.uber.org/zap) and of Migration.Host (the files, the scripts' effect, the server). What the
-- code relies on there is in Env/Laws or beside the theorem, as hypotheses of the theorems that need
-- it; Tests instantiates them.
--
-- Numbers are natural numbers, or integers where Go's may be negative; times are nanoseconds since
-- 1970 and durations are not negative. Only the pause of the mail workers keeps its 64-bit
-- wrap-around, since no setting bounds its exponent; Startup.Ranges bounds the lifetimes of tokens.
-- The counters of attempts are not bounded by 2^63. The one loop without a bound, that of one-time
-- codes, follows as many rounds as otp_rounds says; OtpCode says when that is enough.
--
-- Not modelled: which lines the operations log, metrics and tracing; SMTP and its templates; gin,
-- JSON, the caps on bodies and the headers of the limiter; the building of the process and of the
-- connection to Postgres; concurrent requests and concurrent migration runners; the text of a
-- migration's SQL; the comparison with a dummy hash, which only takes time; the sampling ratio of
-- traces.
pub mod Base
pub mod Apperror
pub mod Exec
pub mod Time
pub mod Domain
pub mod Jwt
pub mod Env
pub mod Config
pub mod Mailer
pub mod Records
pub mod State
pub mod Redis
pub mod Ristretto
pub mod Repository
pub mod Users
pub mod OtpCode
pub mod Frames
pub mod Auth
pub mod Http
pub mod Migration
pub mod Validators
pub mod Startup
pub mod Seed
pub mod Process
pub mod Logger
pub mod Tests
