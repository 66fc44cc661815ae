-- ===== src/Auth.antt =====
-- internal/business/usecases/auth.
pub mod Keys
pub mod Attempts
pub mod Sessions
pub mod Otp
pub mod Passwords
pub mod Requests
pub mod Absence
pub mod Revocation
pub mod OneShot
pub mod Lockout
pub mod Soundness
pub mod Rotation
pub mod Activated
pub mod Replaced
pub mod Activation
pub mod ResetLink
pub mod Superseded
