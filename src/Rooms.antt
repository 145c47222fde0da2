-- ===== src/Rooms.antt =====
-- The rooms module of the server (server/internal/modules/rooms), a child for each part.
pub mod Lifecycle
pub mod Succession
pub mod JoinCode
pub mod Log
pub mod Directory
pub mod Operation
pub mod Creation
pub mod Service
pub mod Answers
pub mod Handler
pub mod Listing
