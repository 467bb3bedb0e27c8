-- ===== src/Csv/Mapping.antt =====
-- The mapping of a table to assets and time series, and its checks: the first part of
-- `buildCsvIngestBundle` of apps/web/src/lib/csvIngest.ts and the functions it uses. Numbers and
-- dates of the platform and its lower case are parameters; the sets are lists in the order of
-- insertion.
pub mod Ids
use open_data_fusion.Prelude.{
  ℕ, ◌+◌, Bool, true, false, not, ◌&&◌, ◌||◌, Option, none, some, List, [], ◌∷◌, ◌++◌, map,
  if◌then◌else◌, leb, ltb, length,
}
use open_data_fusion.Prelude.Result.{Result, ok, err, ◌>>=◌, ◌>>◌, guard}
use open_data_fusion.Csv.Text.{Text, codes, text_eq, has, is_empty, trim}
use open_data_fusion.Csv.Patterns.{is_external_id, is_integer_epoch, is_iso_timestamp}

-- The field of the mapping that a message names.
pub data Field : Type 0 where
  source_system run_id timestamp_column : Field
  asset_external_id asset_name asset_type : (index : ℕ) → Field
  series_external_id series_asset series_name series_unit value_column quality_column :
      (index : ℕ) → Field

-- What a message says is used twice.
pub data Unique : Type 0 where
  asset_id series_id value_column_of : Unique

-- `CsvIngestError`, by its message.
pub data BundleError : Type 0 where
  required : Field → BundleError
  too_long : Field → (max_length : ℕ) → BundleError
  not_external_id not_column : Field → Text → BundleError
  bad_timestamp value_blank value_not_finite : (row : ℕ) → (column : Text) → BundleError
  bad_quality : (row : ℕ) → (column quality : Text) → BundleError
  duplicated : Unique → Text → BundleError
  no_assets no_series no_points many_assets many_series many_points too_large : BundleError
  used_by_both : Text → BundleError
  unknown_asset : (series asset : Text) → BundleError
  reuses_timestamp reuses_quality : (column : Text) → BundleError
  duplicate_observation : (series timestamp : Text) → BundleError

pub data Quality : Type 0 where
  good uncertain bad : Quality

pub record AssetMapping : Type 0 where
  pub external_id : Text
  pub name : Text
  pub type : Text

pub record SeriesMapping : Type 0 where
  pub external_id : Text
  pub asset_external_id : Text
  pub name : Text
  pub unit : Option Text
  pub value_column : Text
  pub quality_column : Option Text

pub record Mapping : Type 0 where
  pub source_system : Text
  pub run_id : Text
  pub timestamp_column : Text
  pub assets : List AssetMapping
  pub time_series : List SeriesMapping

abbrev within : Text → Option ℕ → Bool
within text none = true
within text (some max_length) = leb (length text) max_length

abbrev length_of : Option ℕ → ℕ
length_of none = 0
length_of (some max_length) = max_length

abbrev pub require_non_blank : Text → Field → Option ℕ → Result BundleError Text
require_non_blank value field max_length = do
  guard (not (is_empty (trim value))) (required field)
  guard (within (trim value) max_length) (too_long field (length_of max_length))
  ok (trim value)

abbrev pub require_external_id : Text → Field → Result BundleError Text
require_external_id value field = do
  trimmed ← require_non_blank value field (some 255)
  guard (is_external_id trimmed) (not_external_id field trimmed)
  ok trimmed

abbrev pub require_column : List Text → Text → Field → Result BundleError Text
require_column headers column field = do
  trimmed ← require_non_blank column field none
  guard (has headers trimmed) (not_column field trimmed)
  ok trimmed

-- The set with the text, if it was not in it.
abbrev pub assert_unique : Text → List Text → Unique → Result BundleError (List Text)
assert_unique value values description = do
  guard (not (has values value)) (duplicated description value)
  ok (values ++ value ∷ [])

abbrev pub is_blank_text : Text → Bool
is_blank_text text = is_empty (trim text)

abbrev some_or_throw : {A : Type 0} → BundleError → Option A → Result BundleError A
some_or_throw error none = err error
some_or_throw error (some a) = ok a

module _ (time_of_epoch time_of_iso : Text → Option Text) where
  -- The text of the time. A date that is not finite is `none` of the parameters.
  abbrev pub normalize_timestamp : Text → (column : Text) → (row : ℕ) → Result BundleError Text
  normalize_timestamp value column row =
      if is_integer_epoch (trim value)
      then some_or_throw (bad_timestamp row column) (time_of_epoch (trim value))
      else do
        guard (is_iso_timestamp (trim value)) (bad_timestamp row column)
        some_or_throw (bad_timestamp row column) (time_of_iso (trim value))

-- `Number(trimmed)`, which is `none` where it is not finite.
abbrev pub normalize_value :
    {Number : Type 0}
    → (Text → Option Number)
    → Text
    → (column : Text) → (row : ℕ) → Result BundleError Number
normalize_value number_of value column row = do
  guard (not (is_blank_text value)) (value_blank row column)
  some_or_throw (value_not_finite row column) (number_of (trim value))

abbrev quality_of : Text → Option Quality
quality_of text =
    if text_eq text (codes "good")
    then some good
    else (if text_eq text (codes "uncertain")
        then some uncertain
        else (if text_eq text (codes "bad") then some bad else none))

abbrev pub normalize_quality :
    (Text → Text) → Option Text → (column : Text) → (row : ℕ) → Result BundleError Quality
normalize_quality lower none column row = ok good
normalize_quality lower (some value) column row =
    if is_blank_text value
    then ok good
    else some_or_throw (bad_quality row column value) (quality_of (lower (trim value)))

-- The assets and the set of their ids.
abbrev pub check_asset :
    ℕ → List Text → AssetMapping → Result BundleError (AssetMapping × List Text)
check_asset index ids asset = do
  external_id ← require_external_id asset.external_id (asset_external_id index)
  next ← assert_unique external_id ids asset_id
  name ← require_non_blank asset.name (asset_name index) (some 255)
  type ← require_non_blank asset.type (asset_type index) (some 100)
  ok (record { external_id = external_id; name = name; type = type }, next)

unfoldable pub check_assets :
    ℕ → List Text → List AssetMapping → Result BundleError (List AssetMapping × List Text)
check_assets index ids [] = ok ([], ids)
check_assets index ids (asset ∷ assets) = do
  (checked, next) ← check_asset index ids asset
  (rest, all) ← check_assets (index + 1) next assets
  ok (checked ∷ rest, all)

-- The sets of the loop over the series.
pub record Seen : Type 0 where
  pub series_ids : List Text
  pub value_columns : List Text
  pub quality_columns : List Text

abbrev blank_option : Option Text → Bool
blank_option none = true
blank_option (some text) = is_blank_text text

abbrev pub text_or_empty : Option Text → Text
text_or_empty none = []
text_or_empty (some text) = text

module _ (headers asset_ids : List Text) (timestamp : Text) where
  abbrev pub check_quality_column : ℕ → Option Text → Result BundleError (Option Text)
  check_quality_column index column = if blank_option column then ok none else do
    trimmed ← require_column headers (text_or_empty column) (quality_column index)
    ok (some trimmed)

  abbrev add_option : Option Text → List Text → List Text
  add_option none columns = columns
  add_option (some column) columns = if has columns column then columns else columns ++ column ∷ []

  -- `unit` is trimmed, and left out where nothing is left of it.
  abbrev pub check_unit : ℕ → Option Text → Result BundleError (Option Text)
  check_unit index none = ok none
  check_unit index (some unit) = do
    guard (leb (length (trim unit)) 50) (too_long (series_unit index) 50)
    ok (if is_blank_text unit then none else some (trim unit))

  abbrev pub check_series : ℕ → Seen → SeriesMapping → Result BundleError (SeriesMapping × Seen)
  check_series index seen series = do
    external_id ← require_external_id series.external_id (series_external_id index)
    ids ← assert_unique external_id seen.series_ids series_id
    guard (not (has asset_ids external_id)) (used_by_both external_id)
    asset ← require_external_id series.asset_external_id (series_asset index)
    guard (has asset_ids asset) (unknown_asset external_id asset)
    column ← require_column headers series.value_column (value_column index)
    columns ← assert_unique column seen.value_columns value_column_of
    guard (not (text_eq column timestamp)) (reuses_timestamp column)
    quality ← check_quality_column index series.quality_column
    unit ← check_unit index series.unit
    name ← require_non_blank series.name (series_name index) (some 255)
    ok (
      record {
        external_id = external_id;
        asset_external_id = asset;
        name = name;
        unit = unit;
        value_column = column;
        quality_column = quality;
      },
      record {
        series_ids = ids;
        value_columns = columns;
        quality_columns = add_option quality seen.quality_columns;
      },
    )

  unfoldable pub check_all_series :
      ℕ → Seen → List SeriesMapping → Result BundleError (List SeriesMapping × Seen)
  check_all_series index seen [] = ok ([], seen)
  check_all_series index seen (series ∷ rest) = do
    (checked, next) ← check_series index seen series
    (others, all) ← check_all_series (index + 1) next rest
    ok (checked ∷ others, all)

-- No value column is a quality column.
unfoldable pub check_columns :
    (value_columns quality_columns : List Text) → Result BundleError (Unit {0})
check_columns [] quality_columns = ok tt
check_columns (column ∷ columns) quality_columns = do
  guard (not (has quality_columns column)) (reuses_quality column)
  check_columns columns quality_columns
