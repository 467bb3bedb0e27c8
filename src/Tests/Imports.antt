-- ===== src/Tests/Imports.antt =====
-- A table with quotes, delimiters and a line end in its cells, and the bundle of two rows.
use open_data_fusion.Prelude.{ℕ, ◌≡◌, refl, none, some, List, [], ◌∷◌, map, length, inl}
use open_data_fusion.Prelude.Result.{ok}
use open_data_fusion.Csv.Text.{Text, codes, trim, trim_start, trim_end}
use open_data_fusion.Csv.Parse.{Row, Table, parse_delimited_text, zip}
use open_data_fusion.Csv.Parse.RoundTrip.{print, parse_delimited_text-print}
use open_data_fusion.Csv.Patterns.{is_external_id, is_integer_epoch, is_iso_timestamp}
use open_data_fusion.Csv.Mapping.{
  Quality, good, bad, Mapping, check_assets, check_all_series, check_columns,
}
use open_data_fusion.Csv.Bundle.{Bundle, Point, add_points, add_rows, build_csv_ingest_bundle}
use open_data_fusion.Csv.Bundle.Checked.{
  IsConsistent, IsBounded, build_csv_ingest_bundle-IsConsistent, build_csv_ingest_bundle-IsBounded,
}

abbrev awkward : List (Text × List Text)
awkward = (codes "5\" pipe", codes "a,b" ∷ []) ∷ (codes "x\ny", [] ∷ []) ∷ []

parse_delimited_text-print_example :
    (t : Table) × (parse_delimited_text (print 44 ((codes "name", codes "tags" ∷ []) ∷ awkward)) 44
      ≡ ok t)
    × (t.headers ≡ codes "name" ∷ codes "tags" ∷ [])
    × (map (λ (r : Row). r.values) t.rows
        ≡ map (λ (t, ts). zip (codes "name" ∷ codes "tags" ∷ []) (t ∷ ts)) awkward)
parse_delimited_text-print_example =
    parse_delimited_text-print 44 (codes "name") (codes "tags" ∷ []) awkward (inl refl)
      (refl, (refl, tt)) (refl, (refl, tt)) (refl, (refl, tt))

abbrev readings : Table
readings = record {
  headers = codes "time" ∷ codes "flow" ∷ codes "q" ∷ [];
  rows =
      record {
        source_row = 2;
        values = (codes "time", codes "1000") ∷ (codes "flow", codes " 7") ∷ (codes "q", []) ∷ [];
      }
      ∷ record {
        source_row = 3;
        values =
            (codes "time", codes "2024-05-01T10:00:00.5+02:00")
            ∷ (codes "flow", codes "8")
            ∷ (codes "q", codes "bad")
            ∷ [];
      }
      ∷ [];
}

abbrev plant : Mapping
plant = record {
  source_system = codes "plant";
  run_id = [];
  timestamp_column = codes "time";
  assets = record { external_id = codes "pump-1"; name = codes "Pump"; type = codes "pump" } ∷ [];
  time_series =
      record {
        external_id = codes "pump-1/flow";
        asset_external_id = codes " pump-1";
        name = codes "Flow";
        unit = some (codes " l/s ");
        value_column = codes "flow";
        quality_column = some (codes "q");
      }
      ∷ [];
}

abbrev point : Text → Text → Quality → Point Text
point time value quality = record {
  time_series_external_id = codes "pump-1/flow";
  timestamp = time;
  value = value;
  quality = quality;
}

abbrev made : Bundle Text
made = record {
  system = codes "plant";
  run_id = none;
  assets = record { external_id = codes "pump-1"; name = codes "Pump"; type = codes "pump" } ∷ [];
  time_series =
      record {
        external_id = codes "pump-1/flow";
        asset_external_id = codes "pump-1";
        name = codes "Flow";
        unit = some (codes "l/s");
      }
      ∷ [];
  data_points =
      point (codes "1000") (codes "7") good
      ∷ point (codes "2024-05-01T10:00:00.5+02:00") (codes "8") bad
      ∷ [];
}

abbrev size : Bundle Text → ℕ
size b = length b.data_points

builds :
    build_csv_ingest_bundle Text
      (λ t. some t)
      (λ t. some t)
      (λ t. some t)
      (λ t. t)
      size
      readings
      plant
    ≡ ok made
unfolding build_csv_ingest_bundle check_assets check_all_series check_columns add_points add_rows
    is_external_id is_integer_epoch is_iso_timestamp trim trim_start trim_end
builds = refl

build_csv_ingest_bundle-IsConsistent_example : IsConsistent made
build_csv_ingest_bundle-IsConsistent_example =
    build_csv_ingest_bundle-IsConsistent Text (λ t. some t) (λ t. some t) (λ t. some t) (λ t. t)
      size readings plant builds

build_csv_ingest_bundle-IsBounded_example : IsBounded size readings plant made
build_csv_ingest_bundle-IsBounded_example =
    build_csv_ingest_bundle-IsBounded Text (λ t. some t) (λ t. some t) (λ t. some t) (λ t. t) size
      readings plant builds
