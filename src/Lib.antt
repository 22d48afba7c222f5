-- ===== src/Lib.antt =====
-- phantom-skills: a registry of agent skills in Postgres behind an HTTP daemon, and agents that sync
-- promoted skills to disk and queue their writes while the daemon is away.
--
-- Files and the code they model:
--   Wqueue, Wqueue/*: internal/client/wqueue/wqueue.go. The SQLite table is the list of its rows;
--     Enqueue, NextEligible, MarkAttempt, Delete, List, Purge and BackoffFor are enqueue,
--     next_eligible, mark_attempt, delete, list, purge and backoff_for.
--   Client, Client/*: internal/client/drainer.go, internal/client/connectivity.go and the write
--     helper of internal/mcp/wqueue_helper.go with its notice. The daemon's answers are a function
--     given. Client/Http is doRaw of internal/client/client.go.
--   Text, Text/*: what the program uses of Go's strings and unicode.
--   Skillfile, Skillfile/*: internal/skillfile/skillfile.go. Slugify, Render, Parse, MarkerOf and
--     CanonicalSHA are slugify, render, parse, marker_of and canonical_sha (in Store/Register).
--   Syncer, Syncer/*: internal/syncer/syncer.go. Sync, materialize, remove, writeAtomic, loadCursor
--     and saveCursor have their names in Syncer/Steps and Syncer/Run; Syncer/Disk is the file system
--     that they work on. A Result is a Report.
--   Store, Store/*: internal/pgstore/pgstore.go and internal/pgstore/proposals.go. Tables are
--     lists of rows, SQL statements functions on them, and a transaction is a chain of statements
--     whose error leaves the tables as they were.
--   Ratchet, Ratchet/*: internal/pgstore/ratchets.go, internal/server/improver.go and the dispatch of
--     internal/server/workers.go. The ledger is a list of rows; RecordRatchet, autoFireRatchet,
--     composeRatchetTask and dispatchRatchet are record_ratchet, auto_fire_ratchet,
--     compose_ratchet_task and dispatch_ratchet.
--   Pipeline, Pipeline/*: the loop of internal/server/workers.go with the stages of
--     internal/server/pipeline.go. startWorkers, runPipelineOnce and proposeCandidate are run_ticks,
--     run_pipeline_once and propose_candidate; detector, author and verifier are functions given.
--   Usage, Usage/*: internal/pgstore/usage.go and internal/server/handlers_usage.go. IngestUsage and
--     handleUsage are ingest_usage and handle_usage.
--   Nodesync, Nodesync/*: internal/nodesync/nodesync.go, on the tables of Store/Tables.
--     ImportSkillVersions is import_versions and ExportSkillVersions export_versions.
--   Scopes, Scopes/*: internal/server/registry.go, internal/server/auth.go and the scope files of
--     internal/server/config.go. Load, LookupByToken, AuthMiddleware and LoadScopeFiles are load,
--     lookup_by_token, authenticate and load_scope_files.
--   Server, Server/*: the daemon's HTTP side, internal/server/server.go, handlers_skills.go,
--     handlers_proposals.go, handlers_sync.go and errors.go. A Request is a route with what chi and
--     encoding/json give its handler; buildRouter with AuthMiddleware and requireStore is serve, and
--     each handler is the function of its name in Server/Handlers. handleSync, encodeCursor and
--     decodeCursor are handle_sync, encode_cursor and decode_cursor in Server/Feed and
--     Server/Cursor. An error reply is its status and code, without the message.
--   Server/Config: applyServerDefaults of internal/server/config.go, and the lookups of
--     internal/server/registry.go.
--   Text/Decimal: strconv.FormatInt, ParseInt and Atoi for 64 bits.
--   Tests, Tests/*: runs, and the theorems at concrete inputs.
--
-- Bounds and parameters. Times are natural numbers of nanoseconds, in Usage of microseconds, 0
-- for the zero time. The clock, the daemon's answers, brainbox, JSON, YAML, SHA-256, the tables
-- of package unicode and the identity that a trigger draws for a row are parameters. Recursion is
-- on lists, but for the loop of Sync, which asks the daemon for pages: it runs on fuel, and
-- against the daemon of Server/Feed two more than the number of skills is enough. A call on the
-- file system that fails leaves it as it was, and it fails for a path during the whole run of Sync
-- or not at all. A rolled back transaction restores the counters of identity columns too, and an
-- insert that conflicts draws no identity, where Postgres leaves a gap. Failures of the database
-- or of the queue's file are not modelled, nor is the concurrency of transactions beyond the order
-- in which they commit. The time of a feed cursor is compared to the nanosecond, where Postgres
-- keeps microseconds: a cursor that the daemon wrote has no more. The length of a reply's body is
-- counted in code points, where the client counts bytes. The search for the exponent of a float64
-- in Client/Notice takes at most 100 steps, and a quotient of a Duration needs fewer.
pub mod Client
pub mod Nodesync
pub mod Pipeline
pub mod Prelude
pub mod Ratchet
pub mod Scopes
pub mod Server
pub mod Skillfile
pub mod Store
pub mod Syncer
pub mod Tests
pub mod Text
pub mod Usage
pub mod Wqueue
