-- ===== src/Platform.antt =====
-- The parts of the server's platform packages that hold state or encode values
-- (server/internal/platform).
pub mod Idempotency
pub mod Ids
pub mod Migrations
pub mod Problems
