-- ===== src/Identity.antt =====
-- Accounts, sessions and tokens (server/internal/modules/identity).
pub mod Refresh
pub mod Registration
pub mod Normal
pub mod Store
pub mod Service
pub mod Credentials
pub mod Accounts
pub mod Handler
pub mod Ticket
