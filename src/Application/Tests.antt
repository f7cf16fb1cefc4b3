-- ===== src/Application/Tests.antt =====
-- Runs of the service over one table in memory, which holds applications and sessions.
pub mod Fixtures
mod Submitting
mod Accessing
