-- ===== src/Lib.antt =====
-- The verification library of apekeeper, a service that keeps the roster of a World of Warcraft
-- guild: it signs users in by Battle.net, syncs the characters of a guild from the Blizzard API into
-- a PostgreSQL database, and serves the results over HTTP to members, officers and admins. The
-- library models the Go code below backend/internal.
--
-- The parts and how they interact
--   The program reads its configuration (Config) and starts a daily scheduler for each guild
--   (Scheduler). A request enters by the limits and the CSRF check (Access.Limits), is given a user by
--   the signed session cookie (Sessions) and a guild and role by the middleware (Access), and is let
--   through by the route's guard (Access.Routes). Handlers then change the memberships
--   (Access.Members), the officers' notes (Officers) or start and stop a sync (Sync.Handlers), or
--   read lists (Roster, Dashboard, Storage.Series). A guild's sync service (Sync.Service) runs one
--   roster sync at a time (Sync.Engine), which reads the Blizzard API (Upstream) and writes the
--   stores (Storage). Domain holds the rules that the parts share.
--
-- Files
--   Common: Boolean tests, lists over the native numbers, their sort and counts, signed numbers, byte
--     lengths, results of fallible calls.
--   Domain: domain/sync.go, character.go, snapshot.go, guild.go, user.go; Domain.Text:
--     domain/normalize.go and the slugs of blizzard/client.go.
--   Access: requireAuth, requireGuild, requireRole, roleAllowed and membershipChangeAllowed of
--     httpapi/api.go; Access.Selection: guilds and selectGuild; Access.Routes: httpapi/routes.go;
--     Access.Members: inviteMember, updateMember, removeMember and store/memberships.go;
--     Access.Limits: httpapi/security.go; Access.History: parseHistoryQuery.
--   Sessions: auth/auth.go and the tables of store/users.go; Sessions.SignIn: Callback, Login,
--     UpsertBattleNetUser and SessionUser.
--   Officers: the checks of store/officer.go; Officers.Changes: BulkTags, Complete and Update;
--     Officers.Handlers: officerBulkTags, officerComplete and officerCharacter of httpapi/api.go.
--   Sync.Ledger: store/syncruns.go; Sync.Service: sync/service.go and sync/metrics.go, with
--     Sync.Service.Slot, what it promises; Sync.Handlers: triggerSync, dryRun, retrySync and
--     cancelSync of httpapi/api.go over the services that cmd/apekeeper/main.go makes.
--   Sync.Engine: sync/engine.go and sync/snapshots.go; its children are resolveTierAnchor (Anchor),
--     the mythic+ part of syncCharacter (Mythic), syncCharacter (Member) and
--     RunGuildSyncWithOptions (Run).
--   Storage: the writes of store/progression.go and store/characters.go over the tables of
--     migrations/0001_init.up.sql (Storage.Tables), as the engine's interface Stores;
--     Storage.Series: History and DeleteSnapshotsBefore; Storage.Comparison:
--     characterHistory of httpapi/api.go.
--   Roster: listByGuild of store/characters.go with store/query_plans.go; Roster.Params:
--     parseRosterQuery; Roster.Pages: roster of httpapi/api.go and httpapi/csv.go.
--   Dashboard: DashboardByGuild of store/characters.go and dashboard of httpapi/api.go.
--   Notify: notify/notify.go and runFailureReasons of sync/service.go.
--   Upstream: the interface of blizzard/client.go and the shapes of blizzard/dto/dto.go;
--     Upstream.Retry: request and appToken; Upstream.Limiter: blizzard/ratelimit.go.
--   Config: config/config.go. Scheduler: sched/scheduler.go. Logger: redactJSON of logger/logger.go.
--   Scenarios: concrete data on which the theorems are applied.
--
-- How the code is modelled
--   State is a record that an operation takes and returns. Concurrency is a sequence of events: the
--   critical sections of the service's mutex, the sends and ends of the worker pool, the wakes of
--   the scheduler and the steps of the limiter, which are a relation; begin and the flag that
--   startAsync sets after it are one event. A statement that the database refuses is a Boolean or
--   a function of the caller. A transaction that is not committed leaves the database as it was.
--   Tables are lists of rows; the rounding of a numeric column and the text of a jsonb value are
--   parameters. The engine reaches its stores through the interface Stores and the API through the
--   interface Client, and its theorems hold for every one of them.
--   What the services of all guilds share, the metrics and the serial of sync_runs, stands beside them,
--   and other users of the serial are events of their own. How Shutdown ends is a relation.
--   SQL that the code builds is a list of texts and numbered placeholders; what PostgreSQL answers to
--   it is a parameter.
--   The number of left attempts of a request is its recursion, from five. The digits of stringInt
--   have fuel 20, since an int64 has 19 digits at most. The exchange sort of the dashboard has the
--   length of its list as fuel. Counters that wrap keep the wrap at 2 ^ 64.
--   Instants are natural numbers. A float64 that is only compared is its place in the order. The
--   Unicode tables, hashes, signatures, base64, random tokens and the parsers of numbers, times and
--   URLs are parameters. sort.Slice is an insertion sort: the order of elements that tie is not
--   specified. The error of the context is read once at the end of the pool.
--
-- Not modelled
--   The front end, migrations, the log of requests and the redaction of plain texts, and the payload
--   for Discord; the SQL of the character details, the searches, the queue of the officers and the
--   trends, which PostgreSQL executes; the class and raid tables and the averages of the dashboard;
--   the health checks; URLs, JSON and HTTP transport. The limiter enters a request as an error or none.
pub mod Common
pub mod Access
pub mod Config
pub mod Dashboard
pub mod Domain
pub mod Logger
pub mod Notify
pub mod Officers
pub mod Roster
pub mod Scenarios
pub mod Scheduler
pub mod Sessions
pub mod Storage
pub mod Sync
pub mod Upstream
