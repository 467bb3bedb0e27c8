-- ===== src/Tests/Ingestions.antt =====
-- A bundle of a plant, its ingestion into empty tables, one that fails, and a review.
use open_data_fusion.Prelude.{
  String, String_discrete, ◌==◌, ◌≡◌, ◌≢◌, refl, true, false, none, some, [], ◌∷◌, ◌⊎◌,
  if◌then◌else◌,
}
use open_data_fusion.Prelude.Int.{negsuc}
use open_data_fusion.Prelude.Json.{decimal}
use open_data_fusion.Prelude.Result.{ok, err}
use open_data_fusion.Industry.Tables.{
  asset, document, good, proposed, AssetRow, RelationRow, Database, entity_missing, run_reused,
}
use open_data_fusion.Industry.Hierarchy.{walk, walk_from, check_roots, assert_no_asset_cycles}
use open_data_fusion.Industry.Hierarchy.Acyclic.{IsAcyclic, assert_no_asset_cycles-IsAcyclic}
use open_data_fusion.Industry.Hierarchy.Fuel.{walk_from-ends}
use open_data_fusion.Industry.Bundle.{Source, Bundle, Call}
use open_data_fusion.Industry.Write.{write_bundle, upsert_relations}
use open_data_fusion.Industry.Write.Decided.{accept, has_decision}
use open_data_fusion.Industry.Ingest.{already_processed, done, counts_of, ingest}
use open_data_fusion.Industry.Ingest.Answers.{IsSound, IsFailed, ingest-error, ingest_again}
use open_data_fusion.Industry.Review.{Review, review_relation}
use open_data_fusion.Industry.Review.History.{
  ingested, reviewed, none_yet, behind, Steps-decision, Steps-IsSound,
}

abbrev empty : Database
empty = record {
  assets = [];
  time_series = [];
  data_points = [];
  documents = [];
  relations = [];
  runs = [];
  provenance = [];
  audit = [];
}

abbrev plant : Bundle
plant = record {
  system = "scada";
  run_id = some "run-1";
  actor = "ann";
  assets =
      record {
        external_id = "pump";
        name = "Pump";
        description = none;
        type = "pump";
        parent_external_id = some (some "site");
        metadata = [];
      }
      ∷ record {
        external_id = "site";
        name = "Site";
        description = none;
        type = "site";
        parent_external_id = some none;
        metadata = [];
      }
      ∷ [];
  time_series =
      record {
        external_id = "flow";
        asset_external_id = "pump";
        name = "Flow";
        unit = some "l/s";
        description = none;
        metadata = [];
      }
      ∷ [];
  data_points =
      record {
        time_series_external_id = "flow";
        timestamp = negsuc 4;
        value = decimal false 7 0;
        quality = good;
      }
      ∷ [];
  documents =
      record {
        external_id = "manual";
        asset_external_id = some "pump";
        title = "Manual";
        mime_type = none;
        uri = none;
        metadata = [];
      }
      ∷ [];
  relations =
      record {
        id = none;
        source_type = document;
        source_external_id = "manual";
        target_type = asset;
        target_external_id = "pump";
        relation_type = "describes";
        status = proposed;
        confidence = none;
        evidence = [];
        rule_version = none;
      }
      ∷ [];
}

abbrev hash_of : Bundle → String
hash_of bundle = bundle.system

abbrev raw_hash_of : Source → String
raw_hash_of source = "raw"

abbrev call : Call
call = record {
  new_run_id = "run-9";
  started_at = "10:00";
  completed_at = "10:01";
  correlation_id = "c";
  new_id = λ n. "relation";
}

stored : Database
stored = (ingest hash_of raw_hash_of call plant empty).1

stores :
    ingest hash_of raw_hash_of call plant empty
    ≡ (ok (done "run-1" (counts_of plant) "10:01"), stored)
unfolding stored ingest write_bundle upsert_relations assert_no_asset_cycles check_roots walk
    String_discrete
stores = refl

ingest_again_example : ingest hash_of raw_hash_of call plant stored ≡ (
    if "scada" == "scada"
    then (ok (already_processed "run-1" (counts_of plant)), stored)
    else (err (run_reused "run-1"), stored))
ingest_again_example = ingest_again hash_of raw_hash_of call plant call plant empty stores

abbrev orphan : Bundle
orphan = record plant { assets = [] }

-- Its series is of an asset that there is not, which shows when the assets are written.
abbrev haunted : Bundle
haunted = record plant {
  time_series =
      record {
        external_id = "flow";
        asset_external_id = "ghost";
        name = "Flow";
        unit = none;
        description = none;
        metadata = [];
      }
      ∷ [];
}

refused : Database
refused = (ingest hash_of raw_hash_of call haunted empty).1

refuses :
    ingest hash_of raw_hash_of call haunted empty ≡ (err (entity_missing asset "ghost"), refused)
unfolding refused ingest write_bundle upsert_relations assert_no_asset_cycles check_roots walk
    String_discrete
refuses = refl

ingest-error_example :
    ((entity_missing asset "ghost" ≡ run_reused "run-1") × (refused ≡ empty))
    ⊎ IsFailed hash_of raw_hash_of call haunted (entity_missing asset "ghost") empty refused
ingest-error_example = ingest-error hash_of raw_hash_of call haunted empty refuses

abbrev accepting : Review
accepting = record { decision = accept; reviewer = "bob"; comment = none }

reviewed_store : Database
reviewed_store = elim (review_relation accepting "11:00" "d" "relation" stored) [
  | ok (db, answer) ↦ db
  | err e ↦ stored
]

reviews :
    (answer : RelationRow) × (review_relation accepting "11:00" "d" "relation" stored
      ≡ ok (reviewed_store, answer))
unfolding reviewed_store stored review_relation ingest write_bundle upsert_relations
    assert_no_asset_cycles check_roots walk String_discrete
reviews = (_, refl)

Steps-IsSound_example : IsSound reviewed_store
unfolding stored ingest
Steps-IsSound_example =
    Steps-IsSound hash_of raw_hash_of empty reviewed_store
      (behind (behind none_yet (ingested call plant empty))
        (reviewed accepting "11:00" "d" "relation" stored reviewed_store (reviews.0) (reviews.1)))
      ((tt, tt, tt, tt, tt), tt)

accepts : has_decision "relation" accept reviewed_store.relations ≡ true
unfolding reviewed_store stored review_relation ingest write_bundle upsert_relations
    assert_no_asset_cycles check_roots walk String_discrete
accepts = refl

Steps-decision_example :
    has_decision "relation" accept
      (ingest hash_of raw_hash_of call orphan reviewed_store).1.relations
    ≡ true
Steps-decision_example =
    Steps-decision hash_of raw_hash_of reviewed_store
      (ingest hash_of raw_hash_of call orphan reviewed_store).1
      (behind none_yet (ingested call orphan reviewed_store)) "relation" accept accepts

abbrev site : AssetRow
site = record {
  external_id = "site";
  name = "Site";
  description = none;
  type = "site";
  parent_external_id = none;
  metadata = [];
  source_system = "scada";
  created_at = "day 1";
  updated_at = "day 1";
}

abbrev pump : AssetRow
pump = record site { external_id = "pump"; parent_external_id = some "site" }

passes : assert_no_asset_cycles (site ∷ pump ∷ []) ≡ ok tt
unfolding assert_no_asset_cycles check_roots walk String_discrete
passes = refl

assert_no_asset_cycles-IsAcyclic_example : IsAcyclic (site ∷ pump ∷ [])
assert_no_asset_cycles-IsAcyclic_example =
    assert_no_asset_cycles-IsAcyclic (site ∷ pump ∷ []) passes

walk_from-ends_example : walk_from (site ∷ pump ∷ []) pump ≢ none
walk_from-ends_example = walk_from-ends (site ∷ pump ∷ []) pump
