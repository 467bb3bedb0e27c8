-- ===== src/Csv/Bundle.antt =====
-- The bundle that the web application makes of a table and a mapping: `buildCsvIngestBundle` of
-- apps/web/src/lib/csvIngest.ts. Numbers and dates of the platform, its lower case and the length
-- of the bundle as JSON are parameters.
pub mod Observations
pub mod Checked
use open_data_fusion.Prelude.{
  ℕ, ◌+◌, Bool, true, false, not, ◌&&◌, ◌||◌, Option, none, some, List, [], ◌∷◌, ◌++◌, map,
  if◌then◌else◌, leb, ltb, length,
}
use open_data_fusion.Prelude.Result.{Result, ok, err, ◌>>=◌, ◌>>◌, guard}
use open_data_fusion.Csv.Text.{Text, codes, text_eq, has, is_empty, trim}
use open_data_fusion.Csv.Parse.{Table, Row}
use open_data_fusion.Csv.Mapping.{
  Quality, AssetMapping, SeriesMapping, Mapping, BundleError, Seen, source_system, run_id,
  timestamp_column, no_assets, no_series, no_points, many_assets, many_series, many_points,
  too_large, reuses_quality, duplicate_observation, require_non_blank, require_external_id,
  require_column, is_blank_text, normalize_timestamp, normalize_value, normalize_quality,
  check_assets, check_all_series, check_columns, text_or_empty,
}

pub record Point (Number : Type 0) : Type 0 where
  pub time_series_external_id : Text
  pub timestamp : Text
  pub value : Number
  pub quality : Quality

-- A series of the bundle, without its columns.
pub record Series : Type 0 where
  pub external_id : Text
  pub asset_external_id : Text
  pub name : Text
  pub unit : Option Text

pub record Bundle (Number : Type 0) : Type 0 where
  pub system : Text
  pub run_id : Option Text
  pub assets : List AssetMapping
  pub time_series : List Series
  pub data_points : List (Point Number)

-- `row[column]`
abbrev pub cell_of : Text → List (Text × Text) → Option Text
cell_of column [] = none
cell_of column ((header, value) ∷ values) =
    if text_eq header column then some value else cell_of column values

abbrev pub cell_if : Option Text → List (Text × Text) → Option Text
cell_if none values = none
cell_if (some column) values = cell_of column values

abbrev column_or : Option Text → Text → Text
column_or none column = column
column_or (some column) other = column

-- The key of an observation: the series, a zero and the time.
abbrev pub point_key : Text → Text → Text
point_key series timestamp = series ++ 0 ∷ timestamp

abbrev pub value_at :
    {Number : Type 0} → (Text → Option Number) → Row → SeriesMapping → Result BundleError Number
value_at number_of row series =
    normalize_value number_of (text_or_empty (cell_of series.value_column row.values))
      series.value_column row.source_row

abbrev pub quality_at : (Text → Text) → Row → SeriesMapping → Result BundleError Quality
quality_at lower row series =
    normalize_quality lower (cell_if series.quality_column row.values)
      (column_or series.quality_column series.value_column) row.source_row

abbrev pub time_at :
    (time_of_epoch time_of_iso : Text → Option Text)
    → (column : Text) → Row
    → Result BundleError Text
time_at time_of_epoch time_of_iso column row =
    normalize_timestamp time_of_epoch time_of_iso (text_or_empty (cell_of column row.values)) column
      row.source_row

-- The points so far and the set of their keys.
pub record Points (Number : Type 0) : Type 0 where
  pub keys : List Text
  pub points : List (Point Number)

abbrev pub strip : SeriesMapping → Series
strip series = record {
  external_id = series.external_id;
  asset_external_id = series.asset_external_id;
  name = series.name;
  unit = series.unit;
}

abbrev some_id : Text → Option Text
some_id run = if is_empty run then none else some run

module _ (Number : Type 0) (time_of_epoch time_of_iso : Text → Option Text)
    (number_of : Text → Option Number) (lower : Text → Text) (byte_length : Bundle Number → ℕ) where
  -- One series at one row.
  abbrev pub add_point :
      Row → (timestamp : Text) → Points Number → SeriesMapping → Result BundleError (Points Number)
  add_point row timestamp state series = do
    guard (ltb (length state.points) 100000) many_points
    guard (not (has state.keys (point_key series.external_id timestamp)))
        (duplicate_observation series.external_id timestamp)
    value ← value_at number_of row series
    quality ← quality_at lower row series
    ok (record {
      keys = state.keys ++ point_key series.external_id timestamp ∷ [];
      points =
          state.points
          ++ record {
            time_series_external_id = series.external_id;
            timestamp = timestamp;
            value = value;
            quality = quality;
          }
            ∷ [];
    })

  unfoldable pub add_points :
      Row
      → (timestamp : Text) → List SeriesMapping
      → Points Number
      → Result BundleError (Points Number)
  add_points row timestamp [] state = ok state
  add_points row timestamp (series ∷ rest) state = do
    next ← add_point row timestamp state series
    add_points row timestamp rest next

  unfoldable pub add_rows :
      (column : Text)
      → List SeriesMapping
      → List Row
      → Points Number
      → Result BundleError (Points Number)
  add_rows column series [] state = ok state
  add_rows column series (row ∷ rows) state = do
    timestamp ← time_at time_of_epoch time_of_iso column row
    next ← add_points row timestamp series state
    add_rows column series rows next

  abbrev pub check_run_id : Text → Result BundleError Text
  check_run_id text = if is_blank_text text then ok [] else require_external_id text run_id

  -- The five tests on lengths.
  abbrev pub check_counts : Table → Mapping → Result BundleError (Unit {0})
  check_counts table mapping = do
    guard (ltb 0 (length mapping.assets)) no_assets
    guard (ltb 0 (length mapping.time_series)) no_series
    guard (leb (length mapping.assets) 10000) many_assets
    guard (leb (length mapping.time_series) 10000) many_series
    guard (ltb 0 (length table.rows)) no_points

  -- What is made of the checked parts.
  abbrev pub finish :
      (system run : Text) → List AssetMapping → List SeriesMapping → Points Number → Bundle Number
  finish system run assets series points = record {
    system = system;
    run_id = some_id run;
    assets = assets;
    time_series = map strip series;
    data_points = points.points;
  }

  unfoldable pub build_csv_ingest_bundle : Table → Mapping → Result BundleError (Bundle Number)
  unfolding check_assets check_all_series check_columns add_rows
  build_csv_ingest_bundle table mapping = do
    system ← require_non_blank mapping.source_system source_system (some 100)
    run ← check_run_id mapping.run_id
    column ← require_column table.headers mapping.timestamp_column timestamp_column
    check_counts table mapping
    (assets, asset_ids) ← check_assets 0 [] mapping.assets
    (series, seen) ←
        check_all_series table.headers asset_ids column 0
          (record { series_ids = []; value_columns = []; quality_columns = [] }) mapping.time_series
    check_columns seen.value_columns seen.quality_columns
    points ← add_rows column series table.rows (record { keys = []; points = [] })
    guard (ltb (byte_length (finish system run assets series points)) 10485760) too_large
    ok (finish system run assets series points)
