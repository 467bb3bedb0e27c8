-- ===== src/Industry/Bundle.antt =====
-- A bundle of records for an ingestion, as the schema of the request in apps/api/src/schemas.ts
-- gives it to `ingest`, and the values that one call draws.
use open_data_fusion.Prelude.{String, ℕ, Option, none, some, List}
use open_data_fusion.Prelude.Int.{ℤ}
use open_data_fusion.Prelude.Json.{Number, Object}
use open_data_fusion.Industry.Tables.{EntityType, Quality, Status}

-- `parent_external_id` is `none` where it is undefined and `some none` where it is null.
pub record Asset : Type 0 where
  pub external_id : String
  pub name : String
  pub description : Option String
  pub type : String
  pub parent_external_id : Option (Option String)
  pub metadata : Object

pub record Series : Type 0 where
  pub external_id : String
  pub asset_external_id : String
  pub name : String
  pub unit : Option String
  pub description : Option String
  pub metadata : Object

pub record Point : Type 0 where
  pub time_series_external_id : String
  pub timestamp : ℤ
  pub value : Number
  pub quality : Quality

pub record Document : Type 0 where
  pub external_id : String
  pub asset_external_id : Option String
  pub title : String
  pub mime_type : Option String
  pub uri : Option String
  pub metadata : Object

pub record Relation : Type 0 where
  pub id : Option String
  pub source_type : EntityType
  pub source_external_id : String
  pub target_type : EntityType
  pub target_external_id : String
  pub relation_type : String
  pub status : Status
  pub confidence : Option Number
  pub evidence : Object
  pub rule_version : Option String

pub record Bundle : Type 0 where
  pub system : String
  pub run_id : Option String
  pub actor : String
  pub assets : List Asset
  pub time_series : List Series
  pub data_points : List Point
  pub documents : List Document
  pub relations : List Relation

-- A record of the bundle, of which the provenance keeps a hash.
pub data Source : Type 0 where
  of_asset : Asset → Source
  of_series : Series → Source
  of_document : Document → Source
  of_relation : Relation → Source

-- The values that one call draws: the id of a run that has none, the times of its start and of its
-- end, which is one time where the source asks for it more than once, and the n-th fresh id of a
-- relation that has none.
pub record Call : Type 0 where
  pub new_run_id : String
  pub started_at : String
  pub completed_at : String
  pub correlation_id : String
  pub new_id : ℕ → String

abbrev pub or_else : {A : Type 0} → A → Option A → A
or_else default none = default
or_else default (some a) = a
