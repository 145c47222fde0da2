-- ===== src/Tests.antt =====
-- The theorems at concrete inputs: a trivia answer, a room that is opened, joined and left, a device with a wrong
-- clock, a sign-up, a retried request and a stolen refresh token.
mod Games
mod Clocks
mod Events
mod Logs
mod Drifts
mod Rooms
mod Services
mod Hubs
mod Ids
mod SignUps
mod Migrations
mod Requests
mod Accounts
mod Handlers
