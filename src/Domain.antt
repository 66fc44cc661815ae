-- ===== src/Domain.antt =====
-- internal/business/domain.
pub mod User
pub mod Account
