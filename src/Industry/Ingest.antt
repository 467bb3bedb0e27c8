-- ===== src/Industry/Ingest.antt =====
-- `ingest` of apps/api/src/database.ts: a bundle is written in one transaction, and a run that
-- fails is recorded behind the rollback. A statement that throws leaves what the statements before
-- it have written in the connection, and a call answers with the tables that last when it ends. The
-- hashes, the fresh ids and the times are parameters.
pub mod Runs
pub mod Answers
use open_data_fusion.Prelude.{
  String, ◌==◌, ℕ, zero, suc, ◌+◌, Bool, true, false, not, ◌&&◌, ◌||◌, Option, none, some, List, [],
  ◌∷◌, ◌++◌, if◌then◌else◌, any, find, update_first, length,
}
use open_data_fusion.Prelude.Int.{ℤ, int_eq}
use open_data_fusion.Prelude.Json.{Number, Object}
use open_data_fusion.Prelude.Result.{Result, ok, err, ◌>>=◌, ◌>>◌, guard}
use open_data_fusion.Industry.Tables.{
  EntityType, asset, time_series, document, Quality, Status, proposed, accepted, rejected,
  superseded, AssetRow, SeriesRow, PointRow, DocumentRow, RelationRow, Counts, Error, constraint,
  run_reused, RunStatus, processing, completed, failed, RunRow, ProvenanceRow, AuditRow, ingested,
  not_ingested, Database, has_asset, has_entity, assert_entity_exists, upsert, for_each,
  insert_audit, Connection, lasting, begin, commit, rollback,
}
use open_data_fusion.Industry.Bundle.{Source, Bundle, Call, or_else}
use open_data_fusion.Industry.Write.{write_bundle}

pub data Outcome : Type 0 where
  already_processed : (run_id : String) → Counts → Outcome
  done : (run_id : String) → Counts → (completed_at : String) → Outcome

abbrev pub counts_of : Bundle → Counts
counts_of bundle = record {
  assets = length bundle.assets;
  time_series = length bundle.time_series;
  data_points = length bundle.data_points;
  documents = length bundle.documents;
  relations = length bundle.relations;
}

abbrev pub is_run : String → RunRow → Bool
is_run run_id row = row.run_id == run_id

abbrev pub run_id_of : Call → Bundle → String
run_id_of call bundle = or_else call.new_run_id bundle.run_id

abbrev pub is_completed : RunStatus → Bool
is_completed completed = true
is_completed _ = false

module _ (payload_hash : Bundle → String) (raw_hash : Source → String) where
  -- The row with which a run starts, also one that failed before.
  abbrev pub run_row : (run_id started_at : String) → Bundle → RunRow
  run_row run_id started_at bundle = record {
    run_id = run_id;
    source_system = bundle.system;
    status = processing;
    payload_hash = payload_hash bundle;
    counts = counts_of bundle;
    error_message = none;
    started_at = started_at;
    completed_at = none;
  }

  abbrev pub start_run : (run_id started_at : String) → Bundle → Database → Database
  start_run run_id started_at bundle db = record db {
    runs =
        upsert (is_run run_id) (λ row. run_row run_id started_at bundle)
          (run_row run_id started_at bundle) db.runs;
  }

  -- The end of the transaction: the run is completed, and the audit has a row for it.
  abbrev pub complete_run : (run_id : String) → Call → Bundle → Database → Database
  complete_run run_id call bundle db =
      insert_audit
        (record {
          timestamp = call.completed_at;
          actor = bundle.actor;
          action = "ingestion.completed";
          entity_type = "ingestionRun";
          entity_id = run_id;
          details = ingested bundle.system (counts_of bundle) (payload_hash bundle);
          correlation_id = call.correlation_id;
        })
        (record db {
          runs =
              update_first (is_run run_id)
                (λ row. record row { status = completed; completed_at = some call.completed_at })
                db.runs;
        })

  -- What is written after the rollback.
  abbrev pub fail_run : (run_id : String) → Error → Call → Bundle → Database → Database
  fail_run run_id error call bundle db =
      insert_audit
        (record {
          timestamp = call.completed_at;
          actor = bundle.actor;
          action = "ingestion.failed";
          entity_type = "ingestionRun";
          entity_id = run_id;
          details = not_ingested bundle.system error;
          correlation_id = call.correlation_id;
        })
        (record db {
          runs =
              upsert (is_run run_id)
                (λ row. record row {
                  status = failed;
                  error_message = some error;
                  completed_at = some call.completed_at;
                })
                (record (run_row run_id call.started_at bundle) {
                  status = failed;
                  error_message = some error;
                  completed_at = some call.completed_at;
                })
                db.runs;
        })

  -- The two ends of the `try`: the error path writes, too, behind the rollback.
  abbrev pub settle :
      (run_id : String)
      → Call
      → Bundle
      → Connection
      → Result (Error × Database) Database
      → Result Error Outcome × Connection
  settle run_id call bundle connection (ok written) = (
    ok (done run_id (counts_of bundle) call.completed_at),
    commit (record connection { tables = complete_run run_id call bundle written }),
  )
  settle run_id call bundle connection (err (error, reached)) =
      let back = rollback (record connection { tables = reached }) in
      (err error, record back { tables = fail_run run_id error call bundle back.tables })

  abbrev pub ended : Result Error Outcome × Connection → Result Error Outcome × Database
  ended (answer, connection) = (answer, lasting connection.before connection.tables)

  abbrev pub run_bundle : Call → Bundle → Database → Result Error Outcome × Database
  run_bundle call bundle db = ended (
      settle (run_id_of call bundle) call bundle (begin db) (
        write_bundle raw_hash bundle.system (run_id_of call bundle) call.started_at call.new_id
          bundle (start_run (run_id_of call bundle) call.started_at bundle (begin db).tables)))

  -- By the row of the run that there is.
  abbrev pub ingest_after :
      Option RunRow → Call → Bundle → Database → Result Error Outcome × Database
  ingest_after none call bundle db = run_bundle call bundle db
  ingest_after (some prior) call bundle db =
      if is_completed prior.status
      then (if prior.payload_hash == payload_hash bundle
          then (ok (already_processed (run_id_of call bundle) prior.counts), db)
          else (err (run_reused (run_id_of call bundle)), db))
      else run_bundle call bundle db

  unfoldable pub ingest : Call → Bundle → Database → Result Error Outcome × Database
  unfolding write_bundle
  ingest call bundle db =
      ingest_after (find (is_run (run_id_of call bundle)) db.runs) call bundle db
