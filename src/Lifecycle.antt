-- ===== src/Lifecycle.antt =====
-- internal/lifecycle: one round of the background jobs.
pub mod Reaper
pub mod Janitor
pub mod Scanner
