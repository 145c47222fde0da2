-- ===== src/Lib.antt =====
-- VYBE: watch parties with a shared clock. This library models the core of the Go server
-- (server/internal) and proves what its rules promise to clients.
--
-- The parts and how they interact. A room (modules/rooms) is a state machine with a host, a cap and a
-- join code; its events are numbered and sent to connections (modules/realtime), which estimate the
-- offset of each device's clock, place a film on a shared timeline, drop duplicates and bring a client
-- that was away up to date. A trivia game (modules/games) judges answers against server time. Accounts
-- (modules/identity) are reached by access tokens that short-lived sessions renew with rotating refresh
-- tokens. Mutations pass a middleware (platform/httpx) that answers a repeated request from a record.
--
-- Which file models which part:
--   Base             shared names: integers, 64-bit words, texts, runes, byte strings, lists, and
--                    Base/Json (objects of texts as encoding/json writes them), Base/Maps (Go maps
--                    with text keys), Base/Decimal (strconv.Atoi and the decimal digits of a number).
--   Games            modules/games/scoring.go: `validate`, `elapsed`, `score`, `max_score`; theorems in
--                    Games/Score and Games/Judging.
--   Realtime/Clock   modules/realtime/clock.go: `Sample`, the estimator's window, `best`, `stats`.
--   Realtime/Timeline, Realtime/Drift  modules/realtime/timeline.go: positions and beats, and
--                    `evaluate_drift_consensus`.
--   Realtime/EventLog, Realtime/Dedupe  modules/realtime/eventlog.go: envelopes, contiguity,
--                    `decide_resync`, and the duplicate memory with its map and its ring.
--   Realtime/Resync  modules/realtime/handler.go and protocol.go: `handle_frame`, `handle_resync`; the
--                    rooms module is the record RoomReader, as in the code; a `Read` of events may fail
--                    or panic.
--   Realtime/Hub     modules/realtime/hub.go over the buffers of modules/realtime/wsconn.go: `join`,
--                    `leave`, `publish_to`, presence, closing.
--   Rooms/Lifecycle, Rooms/Succession  modules/rooms/state.go: `next`, `can_join`, `successor_for`.
--   Rooms/JoinCode   modules/rooms/joincode.go.
--   Rooms/Log        modules/rooms/roomstest/memstore.go: members and event logs, `append_locked`, and
--                    the store as the RoomReader of a connection, with the panic of EventsSince on a
--                    range that goes backwards; a Go map is a function of the id. Rooms/Log/Effects
--                    describes each write field by field.
--   Rooms/Directory  the same repository's `create_room`, its lookups by code and by user.
--   Rooms/Operation, Rooms/Creation, Rooms/Service  modules/rooms/service.go over that repository: its
--                    types and events; `create`; `join_by_code`, `leave`, `end`, `transition`, `get`.
--                    Rooms/Service/Requests is a call as one step, `serve`.
--   Rooms/Answers, Rooms/Handler  modules/rooms/handler.go: the answers and problems, and `handle`, a call
--                    of a route over the service and the hub, `list` included, whose answer holds the
--                    page of rooms as shown (`handle_list`, related to the rows in Rooms/Handler/Pages).
--   Rooms/Listing    the page of rooms before it is shown: NewPage and ParsePageParams of
--                    platform/httpx/cursor.go and the query of `list` of modules/rooms/handler.go.
--   Identity/Refresh modules/identity/refresh.go: `evaluate_refresh`, `rotate`.
--   Identity/Registration  modules/identity/registration.go: age bands, defaults, the password policy.
--   Identity/Store   modules/identity/identitytest/memstore.go: sessions, families and tokens, each Go
--                    map an association list, with no failure injected.
--   Identity/Service modules/identity/service.go: Refresh (`refresh`, and `refresh_loaded` from its
--                    read on, for interleavings), Logout and Authenticate.
--   Identity/Normal  the normal forms of emails, handles and platforms, of modules/identity/service.go.
--   Identity/Credentials  the tables of users, credentials and handles of identitytest/memstore.go.
--   Identity/Accounts  Register, Login and startSession of modules/identity/service.go.
--   Identity/Handler modules/identity/handler.go: the handlers over the service, their problems.
--   Identity/Ticket  modules/identity/ticket.go and the ticket store of identitytest/memstore.go.
--   Platform/Idempotency  platform/httpx/idempotency.go: the recorder and MemoryIdemStore;
--                    Platform/Idempotency/Middleware is the middleware over any IdemStore.
--   Platform/Ids     platform/ids/uuidv7.go: the generator, the layout of an id, its text.
--   Platform/Problems  platform/httpx/problem.go: the problems that handlers build.
--   Platform/Migrations  platform/db/migrate.go: loading, checksums, `migrate_up`, `migrate_down` over a
--                    schema and the table of applied migrations.
--   Tests            the theorems at concrete inputs.
--
-- How the code is rendered. Times and durations are integers of nanoseconds: `time.Time.Sub`
-- saturates at 64 bits and duration arithmetic wraps, as in Go; time.Time itself is unbounded. Texts
-- that are only compared are strings, texts that are read by byte or rune are lists of numbers. A
-- method that changes its receiver returns the new record. A value that is random, read from a clock
-- or returned by a library (SHA-256, token minting, upper case beyond ASCII, the rooms module seen
-- from a connection) is an argument. A Go map is an association list without a key twice, or a
-- function of the key where it is not searched by value. Locks are left out: each operation is one
-- step, and the race of two refreshes is stated over the read and the write apart. A loop of the
-- code is a recursion on a list; the retries of a join code are counted down from the code's own
-- bound of five. Two functions have fuel: `walk` in Rooms/Listing/Walk, a client that follows cursors,
-- where one page more than the user has rooms is enough, as the theorem there says; and `decimal` in
-- Base/Decimal, the digits of a number, with one more than the number, which a lemma there shows to read
-- back as that number.
--
-- Not modelled: SQL and Redis stores, HTTP decoding and routing, sockets, configuration, connections,
-- Status of the migrations and the commands, which are I/O; password hashing, signing and SHA-256,
-- which are library calls and stand as arguments; RequireAuth and the errors of access tokens; the text
-- form of cursors, times and answers; the writing of log lines.
pub mod Base
pub mod Games
pub mod Identity
pub mod Platform
pub mod Realtime
pub mod Rooms
pub mod Tests
