-- ===== src/Industry/Ingest/Answers.antt =====
-- The answers of an ingestion, and what it leaves in the tables.
use open_data_fusion.Prelude.{
  String, ◌==◌, ==_refl, ◌≡◌, refl, subst, Bool, true, false, Option, none, some, [], ◌∷◌, ◌++◌,
  ◌⊎◌, find, if◌then◌else◌, inl, inr,
}
use open_data_fusion.Prelude.Result.{Result, ok, err}
use open_data_fusion.Industry.Tables.{
  RunRow, completed, failed, not_ingested, Counts, Error, run_reused, Database, begin,
}
use open_data_fusion.Industry.Ingest.Runs.{
  find-upsert, find-upserted, find-upsert_other, find-update_first, other_run,
}
use open_data_fusion.Industry.Hierarchy.Acyclic.{IsAcyclic}
use open_data_fusion.Industry.Bundle.{Source, Bundle, Call}
use open_data_fusion.Industry.Write.{write_bundle}
use open_data_fusion.Industry.Write.References.{IsLinked}
use open_data_fusion.Industry.Write.Linked.{write_bundle-IsLinked}
use open_data_fusion.Industry.Write.Decided.{Decision, has_decision, write_bundle-Frame}
use open_data_fusion.Industry.Ingest.{
  Outcome, already_processed, done, counts_of, run_id_of, run_row, is_run, is_completed, start_run,
  complete_run, fail_run, settle, ended, run_bundle, ingest_after, ingest,
}

-- The references hold and no asset is its own ancestor.
abbrev pub IsSound : Database → Type 0
IsSound db = IsLinked db × IsAcyclic db.assets

abbrev Answer : Type 0
Answer = Result Error Outcome × Database

-- Only the runs and the audit log may be others.
abbrev pub SameRecords : Database → Database → Type 0
SameRecords db next = record next { runs = db.runs; audit = db.audit } ≡ db

module _ (payload_hash : Bundle → String) (raw_hash : Source → String) (call : Call)
    (bundle : Bundle) where
  abbrev Writes : Database → Result (Error × Database) Database → Type 0
  Writes db r =
      write_bundle raw_hash bundle.system (run_id_of call bundle) call.started_at call.new_id bundle
        (start_run payload_hash raw_hash (run_id_of call bundle) call.started_at bundle db)
      ≡ r

  -- What holds of the answer to a bundle that is written, of one that is not, and of one that is
  -- not looked at, holds of every answer.
  module _ (P : Answer → Type 0) (db : Database)
      (writes : (written : Database)
        → Writes db (ok written)
        → P (
          ok (done (run_id_of call bundle) (counts_of bundle) call.completed_at),
          complete_run payload_hash raw_hash (run_id_of call bundle) call bundle written,
        ))
      (fails : (e : Error)
        → P (err e, fail_run payload_hash raw_hash (run_id_of call bundle) e call bundle db))
      (repeats : (c : Counts) → P (ok (already_processed (run_id_of call bundle) c), db))
      (refuses : P (err (run_reused (run_id_of call bundle)), db)) where
    settle-cases :
        (r : Result (Error × Database) Database)
        → Writes db r
        → P (
            ended payload_hash raw_hash
              (settle payload_hash raw_hash (run_id_of call bundle) call bundle (begin db) r))
    settle-cases (ok written) h = writes written h
    settle-cases (err (e, reached)) h = fails e

    ingest_after-cases :
        (prior : Option RunRow) → P (ingest_after payload_hash raw_hash prior call bundle db)
    ingest_after-cases none = settle-cases _ refl
    ingest_after-cases (some prior) =
        either (is_completed prior.status) (prior.payload_hash == payload_hash bundle)
      where
        either :
            (b c : Bool)
            → P (
                if b
                then (if c
                    then (ok (already_processed (run_id_of call bundle) prior.counts), db)
                    else (err (run_reused (run_id_of call bundle)), db))
                else run_bundle payload_hash raw_hash call bundle db)
        either true true = repeats prior.counts
        either true false = refuses
        either false c = settle-cases _ refl

    ingest-cases : P (ingest payload_hash raw_hash call bundle db)
    unfolding ingest
    ingest-cases = ingest_after-cases (find (is_run (run_id_of call bundle)) db.runs)

  -- If the references of the tables hold and no asset is its own ancestor, this is so after an
  -- ingestion, whether it succeeds or throws.
  pub ingest-IsSound :
      (db : Database) → IsSound db → IsSound (ingest payload_hash raw_hash call bundle db).1
  ingest-IsSound db sound =
      ingest-cases (λ a. IsSound (a.1)) db
        (λ written h.
          write_bundle-IsLinked raw_hash bundle.system (run_id_of call bundle) call.started_at
            call.new_id bundle
            (start_run payload_hash raw_hash (run_id_of call bundle) call.started_at bundle db)
            written h sound.0)
        (λ e. sound) (λ c. sound) sound

  abbrev pub IsFailedRow : Error → RunRow → Type 0
  IsFailedRow e row =
      (row.status ≡ failed)
      × (row.error_message ≡ some e)
      × (row.completed_at ≡ some call.completed_at)

  -- The run is failed with this error and the audit log has a row that says so; every other run and
  -- table is as it was.
  abbrev pub IsFailed : Error → Database → Database → Type 0
  IsFailed e db next =
      SameRecords db next
      × ((row : RunRow) × (find (is_run (run_id_of call bundle)) next.runs ≡ some row)
          × IsFailedRow e row)
      × ((other : String)
          → (run_id_of call bundle == other) ≡ false
          → find (is_run other) next.runs ≡ find (is_run other) db.runs)
      × (next.audit
          ≡ db.audit
            ++ record {
              timestamp = call.completed_at;
              actor = bundle.actor;
              action = "ingestion.failed";
              entity_type = "ingestionRun";
              entity_id = run_id_of call bundle;
              details = not_ingested bundle.system e;
              correlation_id = call.correlation_id;
            }
              ∷ [])

  abbrev starting : RunRow
  starting = run_row payload_hash raw_hash (run_id_of call bundle) call.started_at bundle

  abbrev failing : Error → RunRow → RunRow
  failing e row = record row {
    status = failed;
    error_message = some e;
    completed_at = some call.completed_at;
  }

  fail_run-IsFailed :
      (e : Error) (db : Database)
      → IsFailed e db (fail_run payload_hash raw_hash (run_id_of call bundle) e call bundle db)
  fail_run-IsFailed e db = (
    refl,
    find-upserted (is_run (run_id_of call bundle)) (failing e) (failing e starting) (IsFailedRow e)
        db.runs (==_refl (run_id_of call bundle)) (refl, refl, refl)
        (λ row h. (h, (refl, refl, refl))),
    λ other apart.
        find-upsert_other (is_run (run_id_of call bundle)) (failing e) (failing e starting)
          (is_run other) db.runs apart
          (λ row h. other_run row.run_id (run_id_of call bundle) other h apart) (λ row. refl),
    refl,
  )

  abbrev ErrorKeeps : Database → Answer → Type 0
  ErrorKeeps db (err e, next) =
      ((e ≡ run_reused (run_id_of call bundle)) × (next ≡ db)) ⊎ IsFailed e db next
  ErrorKeeps db (ok a, next) = Unit

  ingest-ErrorKeeps : (db : Database) → ErrorKeeps db (ingest payload_hash raw_hash call bundle db)
  ingest-ErrorKeeps db =
      ingest-cases (ErrorKeeps db) db (λ written h. tt) (λ e. inr (fail_run-IsFailed e db))
        (λ c. tt) (inl (refl, refl))

  -- If an ingestion throws, either its run id was used by another bundle and nothing changes, or
  -- the run is there as failed with the error and the audit log has one more row, which says so,
  -- and nothing else lasts of what was written before the error: every other run and every other
  -- table is as it was.
  pub ingest-error :
      (db : Database) {e : Error} {next : Database}
      → ingest payload_hash raw_hash call bundle db ≡ (err e, next)
      → ((e ≡ run_reused (run_id_of call bundle)) × (next ≡ db)) ⊎ IsFailed e db next
  ingest-error db h = subst (ErrorKeeps db) h (ingest-ErrorKeeps db)

  -- A relation that has been accepted or rejected is so after any ingestion.
  pub ingest-decision :
      (db : Database) (id : String) (decision : Decision)
      → has_decision id decision db.relations ≡ true
      → has_decision id decision (ingest payload_hash raw_hash call bundle db).1.relations ≡ true
  ingest-decision db id decision h =
      ingest-cases (λ a. has_decision id decision (a.1).relations ≡ true) db
        (λ written w.
          (write_bundle-Frame raw_hash bundle.system (run_id_of call bundle) call.started_at
              call.new_id bundle
              (start_run payload_hash raw_hash (run_id_of call bundle) call.started_at bundle db)
              written w).2
            id decision h)
        (λ e. h) (λ c. h) h

  -- The run that an answer tells of is there, completed.
  abbrev Recorded : Answer → Type 0
  Recorded (ok (done run_id counts completed_at), next) =
      (row : RunRow) × (find (is_run run_id) next.runs ≡ some row)
      × (row.status ≡ completed)
      × (row.payload_hash ≡ payload_hash bundle)
      × (row.counts ≡ counts)
  Recorded _ = Unit

  ingest-Recorded : (db : Database) → Recorded (ingest payload_hash raw_hash call bundle db)
  ingest-Recorded db =
      ingest-cases Recorded db
        (λ written w.
          let (runs, _, _) =
            write_bundle-Frame raw_hash bundle.system (run_id_of call bundle) call.started_at
              call.new_id bundle
              (start_run payload_hash raw_hash (run_id_of call bundle) call.started_at bundle db)
              written w in
          let new = run_row payload_hash raw_hash (run_id_of call bundle) call.started_at bundle in
          (
            record new { status = completed; completed_at = some call.completed_at },
            find-update_first (is_run (run_id_of call bundle))
                (λ (row : RunRow). record row {
                  status = completed;
                  completed_at = some call.completed_at;
                })
                new written.runs (==_refl (run_id_of call bundle))
                (rw runs (
                  find-upsert (is_run (run_id_of call bundle)) new db.runs
                    (==_refl (run_id_of call bundle)))),
            refl,
            refl,
            refl,
          ))
        (λ e. tt) (λ c. tt) tt

  -- After an ingestion that is done, another call with the same run id changes nothing: it is
  -- answered with the counts of the first if the hash of its bundle is the same, and is refused
  -- otherwise.
  pub ingest_again :
      (call' : Call) (bundle' : Bundle) (db : Database) {counts : Counts} {completed_at : String}
      {next : Database}
      → ingest payload_hash raw_hash call bundle db
        ≡ (ok (done (run_id_of call' bundle') counts completed_at), next)
      → ingest payload_hash raw_hash call' bundle' next ≡ (
          if payload_hash bundle == payload_hash bundle'
          then (ok (already_processed (run_id_of call' bundle') counts), next)
          else (err (run_reused (run_id_of call' bundle')), next))
  unfolding ingest
  ingest_again call' bundle' db h =
      let (row, found, status, hash, counts) = subst Recorded h (ingest-Recorded db) in
      rw (found, status, hash, counts) refl
