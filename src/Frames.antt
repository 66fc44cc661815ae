-- ===== src/Frames.antt =====
-- Which parts of the state an operation leaves alone, whether it returns or fails.
pub mod Redis
pub mod Users
