-- ===== src/Industry/Tables.antt =====
-- The tables of apps/api/src/database.ts that an ingestion writes, with their keys and references,
-- and the bundle. A text column that holds JSON is the value; a message is the error it is of. The
-- CHECK of a confidence is left to the schema of the request, which has the same bounds.
use open_data_fusion.Prelude.{
  String, ◌==◌, ℕ, Bool, Option, none, some, List, [], ◌∷◌, ◌++◌, if◌then◌else◌, any,
}
use open_data_fusion.Prelude.Int.{ℤ}
use open_data_fusion.Prelude.Json.{Number, Object}
use open_data_fusion.Prelude.Result.{Result, ok, err, ◌>>=◌, guard}

pub data EntityType : Type 0 where
  asset time_series document : EntityType

pub data Quality : Type 0 where
  good uncertain bad : Quality

pub data Status : Type 0 where
  proposed accepted rejected superseded : Status

pub record AssetRow : Type 0 where
  pub external_id : String
  pub name : String
  pub description : Option String
  pub type : String
  pub parent_external_id : Option String
  pub metadata : Object
  pub source_system : String
  pub created_at : String
  pub updated_at : String

pub record SeriesRow : Type 0 where
  pub external_id : String
  pub asset_external_id : String
  pub name : String
  pub unit : Option String
  pub description : Option String
  pub metadata : Object
  pub source_system : String
  pub created_at : String
  pub updated_at : String

pub record PointRow : Type 0 where
  pub time_series_external_id : String
  pub timestamp : ℤ
  pub value : Number
  pub quality : Quality
  pub source_system : String
  pub ingestion_run_id : String

pub record DocumentRow : Type 0 where
  pub external_id : String
  pub asset_external_id : Option String
  pub title : String
  pub mime_type : Option String
  pub uri : Option String
  pub metadata : Object
  pub source_system : String
  pub created_at : String
  pub updated_at : String

pub record RelationRow : Type 0 where
  pub id : String
  pub source_type : EntityType
  pub source_external_id : String
  pub target_type : EntityType
  pub target_external_id : String
  pub relation_type : String
  pub status : Status
  pub confidence : Option Number
  pub evidence : Object
  pub rule_version : Option String
  pub reviewer : Option String
  pub review_comment : Option String
  pub reviewed_at : Option String
  pub source_system : String
  pub created_at : String
  pub updated_at : String

pub record Counts : Type 0 where
  pub assets : ℕ
  pub time_series : ℕ
  pub data_points : ℕ
  pub documents : ℕ
  pub relations : ℕ

-- The errors, by their class and message; `constraint` is thrown by the database.
pub data Error : Type 0 where
  -- DataIntegrityError
  entity_missing : EntityType → String → Error
  hierarchy_cycle : Error
  -- ConflictError
  run_reused : (run_id : String) → Error
  already_reviewed : (id : String) → Status → Error
  -- NotFoundError
  relation_missing : (id : String) → Error
  constraint : Error

pub data RunStatus : Type 0 where
  processing completed failed : RunStatus

pub record RunRow : Type 0 where
  pub run_id : String
  pub source_system : String
  pub status : RunStatus
  pub payload_hash : String
  pub counts : Counts
  pub error_message : Option Error
  pub started_at : String
  pub completed_at : Option String

pub record ProvenanceRow : Type 0 where
  pub entity_type : String
  pub entity_id : String
  pub source_system : String
  pub ingestion_run_id : String
  pub raw_hash : String
  pub transaction_time : String

pub data Details : Type 0 where
  ingested : (source_system : String) → Counts → (payload_hash : String) → Details
  not_ingested : (source_system : String) → Error → Details
  reviewed : (decision : Status) → (comment : Option String) → Details

pub record AuditRow : Type 0 where
  pub timestamp : String
  pub actor : String
  pub action : String
  pub entity_type : String
  pub entity_id : String
  pub details : Details
  pub correlation_id : String

pub record Database : Type 0 where
  pub assets : List AssetRow
  pub time_series : List SeriesRow
  pub data_points : List PointRow
  pub documents : List DocumentRow
  pub relations : List RelationRow
  pub runs : List RunRow
  pub provenance : List ProvenanceRow
  pub audit : List AuditRow

abbrev pub has_asset : List AssetRow → String → Bool
has_asset assets id = any (λ (a : AssetRow). a.external_id == id) assets

abbrev pub has_series : List SeriesRow → String → Bool
has_series series id = any (λ (s : SeriesRow). s.external_id == id) series

abbrev pub has_document : List DocumentRow → String → Bool
has_document documents id = any (λ (d : DocumentRow). d.external_id == id) documents

abbrev pub has_row : EntityType → String → List AssetRow → List SeriesRow → List DocumentRow → Bool
has_row asset id assets series documents = has_asset assets id
has_row time_series id assets series documents = has_series series id
has_row document id assets series documents = has_document documents id

abbrev pub has_entity : EntityType → String → Database → Bool
has_entity type id db = has_row type id db.assets db.time_series db.documents

-- `assertEntityExists`
abbrev pub assert_entity_exists : EntityType → String → Database → Result Error (Unit {0})
assert_entity_exists type id db = guard (has_entity type id db) (entity_missing type id)

-- INSERT ... ON CONFLICT DO UPDATE: the row of the key is updated, or the new row is added.
abbrev pub upsert : {A : Type 0} → (A → Bool) → (A → A) → A → List A → List A
upsert same update new [] = new ∷ []
upsert same update new (row ∷ rows) =
    if same row then update row ∷ rows else row ∷ upsert same update new rows

-- An error that is thrown leaves the tables as the statements before it made them.
abbrev pub thrown_at {ℓ} : {A : Type ℓ} → Database → Result Error A → Result (Error × Database) A
thrown_at reached (err error) = err (error, reached)
thrown_at reached (ok value) = ok value

-- A statement for each element of a list.
abbrev pub for_each :
    {A : Type 0}
    → (A → Database → Result Error Database)
    → List A
    → Database
    → Result (Error × Database) Database
for_each body [] db = ok db
for_each body (x ∷ xs) db = do next ← thrown_at db (body x db); for_each body xs next

-- The connection: the tables as its statements see them, and as they were when the transaction
-- that is open began.
pub record Connection : Type 0 where
  pub tables : Database
  pub before : Option Database

-- The tables that last if the connection ends here: those of an open transaction do not.
abbrev pub lasting : Option Database → Database → Database
lasting none tables = tables
lasting (some before) tables = before

-- BEGIN IMMEDIATE
abbrev pub begin : Database → Connection
begin db = record { tables = db; before = some db }

-- COMMIT
abbrev pub commit : Connection → Connection
commit connection = record connection { before = none }

-- ROLLBACK
abbrev pub rollback : Connection → Connection
rollback connection = record { tables = lasting connection.before connection.tables; before = none }

abbrev pub insert_audit : AuditRow → Database → Database
insert_audit row db = record db { audit = db.audit ++ row ∷ [] }
