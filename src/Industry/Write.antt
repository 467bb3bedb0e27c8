-- ===== src/Industry/Write.antt =====
-- The statements of `ingest` in apps/api/src/database.ts that write the records of a bundle, in
-- their order. The hash of a record and the fresh ids are parameters.
pub mod References
pub mod Linked
pub mod Decided
use open_data_fusion.Prelude.{
  String, ◌==◌, ℕ, zero, suc, ◌+◌, Bool, true, false, not, ◌&&◌, ◌||◌, Option, none, some, List, [],
  ◌∷◌, ◌++◌, if◌then◌else◌, any, find, update_first, length,
}
use open_data_fusion.Prelude.Int.{ℤ, int_eq}
use open_data_fusion.Prelude.Json.{Number, Object}
use open_data_fusion.Prelude.Result.{Result, ok, err, ◌>>=◌, ◌>>◌, guard}
use open_data_fusion.Industry.Tables.{
  EntityType, asset, time_series, document, Quality, Status, proposed, accepted, rejected,
  superseded, AssetRow, SeriesRow, PointRow, DocumentRow, RelationRow, Counts, Error, constraint,
  run_reused, RunStatus, processing, completed, failed, RunRow, ProvenanceRow, AuditRow, ingested,
  not_ingested, Database, has_asset, has_entity, assert_entity_exists, upsert, for_each, thrown_at,
  insert_audit,
}
use open_data_fusion.Industry.Hierarchy.{assert_no_asset_cycles}
use open_data_fusion.Industry.Bundle.{
  Source, of_asset, of_series, of_document, of_relation, Asset, Series, Point, Document, Relation,
  Bundle, or_else,
}

-- The primary key of the data points.
abbrev pub is_point : Point → PointRow → Bool
is_point p row =
    row.time_series_external_id == p.time_series_external_id && int_eq row.timestamp p.timestamp

abbrev pub type_eq : EntityType → EntityType → Bool
type_eq asset asset = true
type_eq time_series time_series = true
type_eq document document = true
type_eq _ _ = false

-- The UNIQUE key of the relations.
abbrev pub is_relation : Relation → RelationRow → Bool
is_relation r row =
    type_eq row.source_type r.source_type
    && row.source_external_id == r.source_external_id
    && type_eq row.target_type r.target_type
    && row.target_external_id == r.target_external_id
    && row.relation_type == r.relation_type

-- A status that a reviewer has decided is kept.
abbrev pub merge_status : Status → Status → Status
merge_status accepted new = accepted
merge_status rejected new = rejected
merge_status _ new = new

-- A new row must have a new id.
abbrev pub id_is_free : Relation → String → List RelationRow → Bool
id_is_free r id rows =
    any (is_relation r) rows || not (any (λ (row : RelationRow). row.id == id) rows)

-- `if (document.assetExternalId)` passes over an empty id, which the foreign key then refuses.
abbrev pub check_document_asset : Option String → Database → Result Error (Unit {0})
check_document_asset none db = ok tt
check_document_asset (some id) db =
    if id == "" then guard (has_asset db.assets id) constraint else assert_entity_exists asset id db

-- One run: the source system, the id of the run and the time at which it started.
module _ (raw_hash : Source → String) (system run_id started_at : String) where
  abbrev pub insert_provenance : (entity_type entity_id : String) → Source → Database → Database
  insert_provenance entity_type entity_id source db = record db {
    provenance =
        db.provenance
        ++ record {
          entity_type = entity_type;
          entity_id = entity_id;
          source_system = system;
          ingestion_run_id = run_id;
          raw_hash = raw_hash source;
          transaction_time = started_at;
        }
          ∷ [];
  }

  abbrev pub asset_row : Asset → AssetRow
  asset_row a = record {
    external_id = a.external_id;
    name = a.name;
    description = a.description;
    type = a.type;
    parent_external_id = none;
    metadata = a.metadata;
    source_system = system;
    created_at = started_at;
    updated_at = started_at;
  }

  abbrev pub update_asset : Asset → AssetRow → AssetRow
  update_asset a row = record row {
    name = a.name;
    description = a.description;
    type = a.type;
    metadata = a.metadata;
    source_system = system;
    updated_at = started_at;
  }

  abbrev pub upsert_asset : Asset → Database → Result Error Database
  upsert_asset a db = ok (
      insert_provenance "asset" a.external_id (of_asset a) (record db {
        assets =
            upsert (λ (row : AssetRow). row.external_id == a.external_id) (update_asset a)
              (asset_row a) db.assets;
      }))

  -- UPDATE assets SET parent_external_id, with the CHECK that it is another id.
  abbrev pub write_parent : String → Option String → Database → Database
  write_parent id parent db = record db {
    assets =
        update_first (λ (row : AssetRow). row.external_id == id)
          (λ row. record row { parent_external_id = parent; updated_at = started_at }) db.assets;
  }

  abbrev pub set_parent : Asset → Option (Option String) → Database → Result Error Database
  set_parent a none db = ok db
  set_parent a (some none) db = ok (write_parent a.external_id none db)
  set_parent a (some (some parent)) db = do
    assert_entity_exists asset parent db
    guard (not (parent == a.external_id)) constraint
    ok (write_parent a.external_id (some parent) db)

  abbrev pub series_row : Series → SeriesRow
  series_row s = record {
    external_id = s.external_id;
    asset_external_id = s.asset_external_id;
    name = s.name;
    unit = s.unit;
    description = s.description;
    metadata = s.metadata;
    source_system = system;
    created_at = started_at;
    updated_at = started_at;
  }

  abbrev pub upsert_series : Series → Database → Result Error Database
  upsert_series s db = do
    assert_entity_exists asset s.asset_external_id db
    ok (
        insert_provenance "timeSeries" s.external_id (of_series s) (record db {
          time_series =
              upsert (λ (row : SeriesRow). row.external_id == s.external_id)
                (λ row. record (series_row s) { created_at = row.created_at }) (series_row s)
                db.time_series;
        }))

  abbrev pub point_row : Point → PointRow
  point_row p = record {
    time_series_external_id = p.time_series_external_id;
    timestamp = p.timestamp;
    value = p.value;
    quality = p.quality;
    source_system = system;
    ingestion_run_id = run_id;
  }

  -- The update sets all the columns that are not of the key.
  abbrev pub upsert_point : Point → Database → Result Error Database
  upsert_point p db = do
    assert_entity_exists time_series p.time_series_external_id db
    ok (record db {
      data_points = upsert (is_point p) (λ row. point_row p) (point_row p) db.data_points;
    })

  abbrev pub document_row : Document → DocumentRow
  document_row d = record {
    external_id = d.external_id;
    asset_external_id = d.asset_external_id;
    title = d.title;
    mime_type = d.mime_type;
    uri = d.uri;
    metadata = d.metadata;
    source_system = system;
    created_at = started_at;
    updated_at = started_at;
  }

  abbrev pub upsert_document : Document → Database → Result Error Database
  upsert_document d db = do
    check_document_asset d.asset_external_id db
    ok (
        insert_provenance "document" d.external_id (of_document d) (record db {
          documents =
              upsert (λ (row : DocumentRow). row.external_id == d.external_id)
                (λ row. record (document_row d) { created_at = row.created_at }) (document_row d)
                db.documents;
        }))

  abbrev pub relation_row : String → Relation → RelationRow
  relation_row id r = record {
    id = id;
    source_type = r.source_type;
    source_external_id = r.source_external_id;
    target_type = r.target_type;
    target_external_id = r.target_external_id;
    relation_type = r.relation_type;
    status = r.status;
    confidence = r.confidence;
    evidence = r.evidence;
    rule_version = r.rule_version;
    reviewer = none;
    review_comment = none;
    reviewed_at = none;
    source_system = system;
    created_at = started_at;
    updated_at = started_at;
  }

  abbrev pub update_relation : Relation → RelationRow → RelationRow
  update_relation r row = record row {
    confidence = r.confidence;
    evidence = r.evidence;
    rule_version = r.rule_version;
    source_system = system;
    updated_at = started_at;
    status = merge_status row.status r.status;
  }

  abbrev pub upsert_relation : String → Relation → Database → Result Error Database
  upsert_relation id r db = do
    assert_entity_exists r.source_type r.source_external_id db
    assert_entity_exists r.target_type r.target_external_id db
    guard (id_is_free r id db.relations) constraint
    ok (
        insert_provenance "relation" id (of_relation r) (record db {
          relations = upsert (is_relation r) (update_relation r) (relation_row id r) db.relations;
        }))

  -- The loop over the relations: the n-th one draws the n-th fresh id.
  unfoldable pub upsert_relations :
      (new_id : ℕ → String) → ℕ → List Relation → Database → Result (Error × Database) Database
  upsert_relations new_id n [] db = ok db
  upsert_relations new_id n (r ∷ relations) db = do
    next ← thrown_at db (upsert_relation (or_else (new_id n) r.id) r db)
    upsert_relations new_id (suc n) relations next

  -- What stands between the row of the run and its completion. An error comes with the tables that
  -- the statements before it have written.
  unfoldable pub write_bundle :
      (new_id : ℕ → String) → Bundle → Database → Result (Error × Database) Database
  unfolding upsert_relations assert_no_asset_cycles
  write_bundle new_id bundle db = do
    upserted ← for_each upsert_asset bundle.assets db
    nested ← for_each (λ a. set_parent a a.parent_external_id) bundle.assets upserted
    thrown_at nested (assert_no_asset_cycles nested.assets)
    measured ← for_each upsert_series bundle.time_series nested
    pointed ← for_each upsert_point bundle.data_points measured
    documented ← for_each upsert_document bundle.documents pointed
    upsert_relations new_id 0 bundle.relations documented
