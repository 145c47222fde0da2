-- ===== src/Realtime.antt =====
-- The realtime module of the server (server/internal/modules/realtime), a child for each file.
pub mod Clock
pub mod Drift
pub mod Timeline
pub mod EventLog
pub mod Dedupe
pub mod Resync
pub mod Hub
