-- ===== src/Lib.antt =====
-- The admin console of the game server: web/admin, a React application, with the handlers of the
-- Go server that it calls; and the core of the game server, its unit of work.
--
-- Parts. `web/admin/src/api/client.ts` sends the requests; `components/DataTable.tsx` is the
-- table that the pages share; `pages/VersionPage.tsx`, `pages/ClockPage.tsx` and
-- `pages/MigrationsPage.tsx` are the pages, each with its own state, which call the client and give
-- properties to the table. The server side is `router/admin.go`, `sql/migrations/create.go` and
-- `internal/clock/clock.go`. A game request goes from `internal/handler/dispatch.go` to a service of
-- `internal/service`, which reads and writes through `internal/uow`; the writes are committed at the
-- end, first to the databases and then to the cache. The servers hold the designs and the maintenances in
-- memory, `internal/design` and `internal/resource`; a reload at one of them reaches the others by a
-- message.
--
-- Files.
--   Base             names of the libraries passed on; numbers, texts, `String.trim`, `parseInt`,
--                    `Number` and `String` of numbers, regular expressions, sessions, and
--                    Awaits, the interface of what waits for answers
--   App              App.tsx and main.tsx: the routes and the header; Settles (the three pages
--                    together), Links (with the server), Dev (vite.config.ts)
--   Api              client.ts: Types, Fetch (`request`), Query (`URLSearchParams`), Endpoints
--   DataTable        DataTable.tsx; Markup (header, rows, checkbox), Laws
--   VersionPage      VersionPage.tsx: state and handlers; Session (events), View, Form and Columns
--                    (what is rendered), and the proofs Busy, Settle, Targets, Requests, Outcomes,
--                    Errors, Agreement and Deployed, the last two with the server
--   ClockPage        ClockPage.tsx: state and handlers; Session, View, and the proofs Target,
--                    LocalText, Busy, Settle and Deployed, the last with the server
--   MigrationForm    MigrationsPage.tsx, `CreateMigrationModal`; Patterns
--   MigrationsPage   MigrationsPage.tsx, `MigrationsPage`; Session, View, and the proofs LocalOnly,
--                    Tabs, Coherence, Viewer, Creation, Modals, Errors, Settle
--   Server           Clock (`registerClockAdmin`, clock.go), Files (create.go and the handlers of
--                    `/migrations`), Status (`/migrations/status`), Query and FileRequest (`ec.QueryParam`
--                    and the reading of a file), Versions
--                    (`registerVersionAdmin`, internal/repository/version_repository.go; Columns),
--                    Ui (`registerAdminUI`), Containment (the path of a file), and Agreement of form
--                    and server
--   Game             Commit (`Commit` of internal/uow/uow.go and `Transaction` of
--                    internal/database/database.go), Items (`LoadList`, `Create`, `Update` and
--                    internal/service/item_service.go), Dispatch (`CommitOrRollback`, `dispatch`), and
--                    Ledger, what the service promises; Lock (internal/cache/user_lock.go),
--                    Front (`dispatch` up to the unit of work, internal/cache/user_session.go)
--   Reload           `Trigger` and `subscribe` of internal/design/syncer.go and of
--                    internal/resource/syncer.go; Design (`LoadActive`, the store), Maintenance (internal/resource and
--                    internal/middleware/maintenance.go), and the proofs Converges, Everywhere
--                    and Deploy, the last with the table of the versions
--
-- State and steps. The state of a page is the record `Page`: a field for each `useState`, the list
-- `pending` of the places where a handler awaits, and the list `sent` of requests. A handler is cut
-- at each `await`: the part before it is a function on `Page` that adds to `pending`, the part after
-- it is `..._settled`. `Session` has the events: what the operator does, where a disabled button does
-- nothing, and `answer i a`, the answer `a` to the i-th pending place, so that answers come in any
-- order. `step` is one event and `run` a session. An answer of a kind that does not fit its place
-- changes nothing. React renders between two events, and an effect runs after the event that changed
-- what it depends on.
--
-- Requests. A request of the game is a list of calls to the service for items, run one after the other
-- on a `Context`, the unit of work and the cache. Objects in memory are places in the slice of the
-- store, and a queued write reads its object when it runs, as the closure in uow.go does. What may
-- fail is an argument: `LoadFaults` of a load, `TxFaults` of the transactions, `CommitFaults` of the end of
-- a request. The requests of a user come one at a time, as the user's lock has them: `Lock` is the
-- lock by itself, with the commands of Redis that it uses as the parameter `Redis`.
--
-- Servers. The state of `Reload` is the list of the servers, each with its store and the messages that its
-- subscription has to read, and the source that all load from. An event is a change of the source, a
-- reload at a server, or the reading of one message; they come in any order. Redis is taken to give a
-- message that it has taken to every server, its sender too, in order.
--
-- Bounds. Numbers that the console counts with are ℕ or ℤ; beyond 2^53 JavaScript rounds, which is
-- not modelled. The offset of the server is an int64 and wraps; `Duration.Seconds` is taken as exact.
-- A text is a list of code points. No function uses fuel but the printing of a number, whose fuel is
-- the number and one.
--
-- Not modelled. TanStack Table, flatpickr, React Router and React itself; the second mount of effects
-- by StrictMode during development; the parsing of dates and the time zone of the browser, which are
-- the parameter `Env`; constant markup and style; the file system, which is the parameter `Disk`. A
-- selection has the keys that `getRowId` gives. `filepath.Join` is taken to join its parts with a
-- separator, which it does for parts without dots. The
-- database of the versions has the columns and the unique index of sql/migrations/game; its collation
-- and its failures are the parameter `Database`. Of the game
-- server the library has the unit of work for the items of one user, with the shard of the user known:
-- the table has the rows of the user, a value that goes through the cache or the database comes back
-- the same, where a time is what a TIMESTAMP keeps of it, and an amount is a uint64. Accounts, cards, assets and clubs, the issue of a session, the
-- bytes of a request, the sync data of a response, the download and the tables of the design data,
-- generated code and tools are no part of the library.
pub mod App
pub mod Game
pub mod Base
pub mod Api
pub mod DataTable
pub mod VersionPage
pub mod MigrationForm
pub mod MigrationsPage
pub mod ClockPage
pub mod Reload
pub mod Server
