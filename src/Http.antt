-- ===== src/Http.antt =====
-- internal/http.
pub mod Response
pub mod AuthMiddleware
pub mod DataTransfers
pub mod Handlers
pub mod RateLimiter
pub mod Server
pub mod Middlewares
