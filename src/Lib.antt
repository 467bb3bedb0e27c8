-- ===== src/Lib.antt =====
-- Open Data Fusion: a verification library.
--
-- The program keeps industrial data of several projects. Its API server stores Canvas workspaces that
-- several people edit; an edge agent at each site queues batches of source data and sends them; a
-- worker publishes the events that the server writes to an outbox; a platform core in packages/ decides
-- on pipelines, merges and write-backs. This library models the parts that carry the program's state
-- and decisions.
--
-- Prelude: shared names, lists, maps, texts, results and JSON. The numbers are native natural numbers,
-- a thrown error is a value, a `Set` or a `Map` is a list in the order of insertion (or, where only
-- membership is read, with the last element first).
--
-- Workspace: the Canvas of apps/api/src/database.ts.
--   Snapshot is `applyCanvasOperations` and `validateWorkspaceSnapshot`: `apply_operation` is the body
--   of the loop, `collect_nodes` and `check_edges` are the two loops of the validation.
--   Store is the class `FusionDatabase`, as far as it keeps workspaces: Store.Tables has the tables,
--   the errors, `insertAudit` and the handlers that read; Store.Members has `createWorkspace`,
--   `upsertWorkspaceMember` and `removeWorkspaceMember`; Store.Edits has `updateWorkspace`,
--   `applyWorkspaceOperations` and `rollbackWorkspace`. A handler returns the tables that it leaves or
--   an error, and `commit` is its transaction. The ids and times that the code draws are arguments.
--   Store.History runs any sequence of calls.
--   Merge is packages/platform-core/src/merge.ts, on the same snapshots and operations; its children
--   compare what it takes for a conflict with what the operations do.
--
-- Pipeline: `planPipeline` of packages/platform-core/src/workflow.ts. The `while` loop runs on fuel, one
-- round more than there are steps: each round but the last places a step, and the proofs show that
-- nothing is left ready when the fuel would end.
--
-- Writeback: `evaluateWritebackSafety` of packages/platform-core/src/writeback.ts.
--
-- Edge: the edge agent. Queue is the class `EdgeQueue` of apps/edge-agent/src/queue.ts, with the time as
-- an argument; Queue.Keyed runs any sequence of calls. Runner is one poll and one delivery of the class
-- `EdgeAgentRunner` of apps/edge-agent/src/runner.ts over that queue, with the connectors, the archive,
-- the hash, the service and the random factor as parameters.
--
-- Outbox: apps/outbox-worker/src. Table is `PostgresOutboxRepository` of postgres.ts, one statement at a
-- time; Table.Order runs any sequence of calls by any workers. Pump is `OutboxPump.runOnce` of
-- outbox.ts, with the publisher and the clock as parameters.
--
-- Industry: the industrial half of the class `FusionDatabase`. Tables has its tables, Bundle what
--   apps/api/src/schemas.ts lets through, Write the statements of the transaction of `ingest` and Ingest
--   the runs around it; Hierarchy is `assertNoAssetCycles`, whose recursive query runs on fuel, one step
--   more than there are assets, which the proofs show to be enough. Review is `reviewRelation`, and
--   Review.History runs any sequence of ingestions and reviews. An ingestion has a connection with
--   BEGIN, COMMIT and ROLLBACK, and an error comes with the tables as it found them. The hashes, the
--   fresh ids and the times are parameters.
--
-- Csv: apps/web/src/lib/csvIngest.ts. Parse is the loop of `parseDelimitedText`, on lists of UTF-16 code
--   units, Patterns the regular expressions, and Mapping and Bundle are `buildCsvIngestBundle`. The
--   numbers and dates of the platform are parameters.
--
-- Models: packages/platform-core/src/modeling.ts. Names has its small tests, View `normalizeModelViews`,
--   Value the values of properties, Filter `normalizeFilter`, whose recursion is on the levels of depth
--   that are left, and Instance `normalizeModelInstance`. Safe integers and the dates of the platform
--   are parameters.
--
-- Not modelled: SQLite, PostgreSQL and Redis themselves, of which a table is a list of rows and a
-- statement is atomic; rows that a concurrent statement has locked; HTTP, authentication, telemetry
-- and process set-up; the user interface of the web application; the industrial platform of the API;
-- the repositories of packages/postgres-runtime; the connectors and the loops of the edge agent; the
-- pipeline worker; quality rules and matching; the queries and the aggregates of information models.
-- Where the outbox and the edge queue cut the text of an error they count characters, not UTF-16
-- units.
pub mod Prelude
pub mod Workspace
pub mod Writeback
pub mod Csv
pub mod Industry
pub mod Models
pub mod Edge
pub mod Outbox
pub mod Pipeline
pub mod Tests
