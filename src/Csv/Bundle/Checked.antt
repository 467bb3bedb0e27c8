-- ===== src/Csv/Bundle/Checked.antt =====
-- What holds of a bundle that is made.
use open_data_fusion.Prelude.{
  ℕ, zero, suc, ◌+◌, ◌*◌, ◌≤◌, ◌<◌, ◌≡◌, refl, sym, ap, ◌∙◌, subst, true, false, Option, some, List,
  [], ◌∷◌, map, arith, ltb, leb, length, All, All-map,
}
use open_data_fusion.Prelude.Result.{ok, ok-injective, >>=-eq-ok, guard->>-eq-ok, guard-eq-ok}
use open_data_fusion.Csv.Text.{Text, has, text_eq_refl, TextsDistinct}
use open_data_fusion.Csv.Parse.{Table}
use open_data_fusion.Csv.Mapping.{
  Mapping, AssetMapping, SeriesMapping, Seen, source_system, timestamp_column, no_assets, no_series,
  many_assets, many_series, no_points, too_large, require_non_blank, require_column, check_assets,
  check_all_series, check_columns,
}
use open_data_fusion.Csv.Mapping.Ids.{
  AssetsChecked, SeriesChecked, AllChecked, check_assets-ids, check_all_series-ids,
}
use open_data_fusion.Csv.Bundle.{
  Bundle, Point, Points, Series, strip, check_run_id, check_counts, add_rows, finish,
  build_csv_ingest_bundle,
}
use open_data_fusion.Csv.Bundle.Observations.{key_of, PointsValid, add_rows-PointsValid}

abbrev pub asset_ids : {Number : Type 0} → Bundle Number → List Text
asset_ids b = map (λ (a : AssetMapping). a.external_id) b.assets

abbrev pub series_ids : {Number : Type 0} → Bundle Number → List Text
series_ids b = map (λ (s : Series). s.external_id) b.time_series

-- The ids are distinct, the series are of assets of the bundle, the points are of its series and
-- have distinct keys.
abbrev pub IsConsistent : {Number : Type 0} → Bundle Number → Type 0
IsConsistent b =
    TextsDistinct (asset_ids b)
    × TextsDistinct (series_ids b)
    × All
        (λ (s : Series).
          (has (asset_ids b) s.external_id ≡ false)
          × (has (asset_ids b) s.asset_external_id ≡ true))
        b.time_series
    × All (λ (p : Point _). has (series_ids b) p.time_series_external_id ≡ true) b.data_points
    × TextsDistinct (map key_of b.data_points)

-- A point for each row and series, and the limits.
abbrev pub IsBounded :
    {Number : Type 0} → (Bundle Number → ℕ) → Table → Mapping → Bundle Number → Type 0
IsBounded byte_length table mapping b =
    (length b.assets ≡ length mapping.assets)
    × (length b.time_series ≡ length mapping.time_series)
    × (length b.data_points ≡ length table.rows * length mapping.time_series)
    × (length b.assets ≤ 10000)
    × (length b.time_series ≤ 10000)
    × (length b.data_points ≤ 100000)
    × (1 ≤ length b.data_points)
    × (byte_length b < 10485760)

map-strip :
    (series : List SeriesMapping)
    → map (λ (s : Series). s.external_id) (map strip series)
      ≡ map (λ (s : SeriesMapping). s.external_id) series
map-strip [] = refl
map-strip (s ∷ series) = ap (λ ids. s.external_id ∷ ids) (map-strip series)

All-strip :
    (headers ids : List Text) (timestamp : Text) (series : List SeriesMapping)
    → All (SeriesChecked headers ids timestamp) series
    → All
        (λ (s : Series). (has ids s.external_id ≡ false) × (has ids s.asset_external_id ≡ true))
        (map strip series)
All-strip headers ids timestamp [] h = tt
All-strip headers ids timestamp (s ∷ series) ((apart, known, _, _), h) =
    ((apart, known), All-strip headers ids timestamp series h)

has-ids :
    (series : List SeriesMapping)
    → All
        (λ (s : SeriesMapping).
          has (map (λ (s : SeriesMapping). s.external_id) series) s.external_id ≡ true)
        series
has-ids [] = tt
has-ids (s ∷ series) = (
  rw (text_eq_refl s.external_id) refl,
  All-map
      (λ (x : SeriesMapping).
        has (map (λ (s : SeriesMapping). s.external_id) series) x.external_id ≡ true)
      _ (λ x h. ground (arith, h)) series (has-ids series),
)

length-map : {A : Type 0} {B : Type 0} (f : A → B) (xs : List A) → length (map f xs) ≡ length xs
length-map f [] = refl
length-map f (x ∷ xs) = ap ℕ.suc (length-map f xs)

from_zero : (n m k : ℕ) → n ≡ 0 + m * k → n ≡ m * k
from_zero n m k h = ground arith

one≤product : (m n : ℕ) → 1 ≤ m → 1 ≤ n → 1 ≤ m * n
one≤product zero n h k = ground arith
one≤product (suc m) n h k = grind arith

module _ (Number : Type 0) (time_of_epoch time_of_iso : Text → Option Text)
    (number_of : Text → Option Number) (lower : Text → Text) (byte_length : Bundle Number → ℕ) where
  -- What the checks behind the lengths leave, of parts that passed them.
  finish-IsConsistent :
      (system run : Text) (headers : List Text) (column : Text) (assets : List AssetMapping)
      (ids : List Text) (series : List SeriesMapping) (seen : Seen) (points : Points Number)
      → AssetsChecked [] (assets, ids)
      → AllChecked headers ids column
          (record { series_ids = []; value_columns = []; quality_columns = [] })
          (series, seen)
      → PointsValid (map (λ (s : SeriesMapping). s.external_id) series) points
      → IsConsistent (
          finish Number time_of_epoch time_of_iso number_of lower byte_length system run assets
            series points)
  finish-IsConsistent system run headers column assets ids series seen points (e, d)
        (e', d', checks) (keys, distinct, known, few) =
      (
        subst TextsDistinct e d,
        rw (map-strip series, sym e') d',
        subst
            (λ ids.
              All
                (λ (s : Series).
                  (has ids s.external_id ≡ false) × (has ids s.asset_external_id ≡ true))
                (map strip series))
            e (All-strip headers ids column series checks),
        rw (map-strip series) known,
        subst TextsDistinct (sym keys) distinct,
      )

  counts_of :
      (table : Table) (mapping : Mapping) {u : Unit {0}}
      → check_counts Number time_of_epoch time_of_iso number_of lower byte_length table mapping
        ≡ ok u
      → (length mapping.assets ≤ 10000)
        × (length mapping.time_series ≤ 10000)
        × (1 ≤ length mapping.time_series)
        × (1 ≤ length table.rows)
  counts_of table mapping h =
      let (_, h₁) = guard->>-eq-ok (ltb 0 (length mapping.assets)) no_assets _ h in
      let (some_series, h₂) = guard->>-eq-ok (ltb 0 (length mapping.time_series)) no_series _ h₁ in
      let (few, h₃) = guard->>-eq-ok (leb (length mapping.assets) 10000) many_assets _ h₂ in
      let (few', h₄) = guard->>-eq-ok (leb (length mapping.time_series) 10000) many_series _ h₃ in
      let filled = guard-eq-ok (ltb 0 (length table.rows)) no_points h₄ in
      (ground arith, ground arith, ground arith, ground arith)

  build_of :
      (table : Table) (mapping : Mapping) {b : Bundle Number}
      → build_csv_ingest_bundle Number time_of_epoch time_of_iso number_of lower byte_length table
          mapping
        ≡ ok b
      → IsConsistent b × IsBounded byte_length table mapping b
  unfolding build_csv_ingest_bundle
  build_of table mapping h =
      let (system, _, h₁) =
        >>=-eq-ok (require_non_blank mapping.source_system source_system (some 100)) _ h in
      let (run, _, h₂) =
        >>=-eq-ok
          (check_run_id Number time_of_epoch time_of_iso number_of lower byte_length mapping.run_id)
          _ h₁ in
      let (column, _, h₃) =
        >>=-eq-ok (require_column table.headers mapping.timestamp_column timestamp_column) _ h₂ in
      let (_, counted, h₄) =
        >>=-eq-ok
          (check_counts Number time_of_epoch time_of_iso number_of lower byte_length table mapping)
          _ h₃ in
      let ((assets, ids), of_assets, h₅) = >>=-eq-ok (check_assets 0 [] mapping.assets) _ h₄ in
      let ((series, seen), of_series, h₆) =
        >>=-eq-ok
          (check_all_series table.headers ids column 0
            (record { series_ids = []; value_columns = []; quality_columns = [] })
            mapping.time_series)
          _ h₅ in
      let (_, _, h₇) = >>=-eq-ok (check_columns seen.value_columns seen.quality_columns) _ h₆ in
      let (points, rows, h₈) =
        >>=-eq-ok
          (add_rows Number time_of_epoch time_of_iso number_of lower byte_length column series
            table.rows (record { keys = []; points = [] }))
          _ h₇ in
      let (small, h₉) =
        guard->>-eq-ok
          (ltb
            (byte_length (
              finish Number time_of_epoch time_of_iso number_of lower byte_length system run assets
                series points))
            10485760)
          too_large _ h₈ in
      let (checked, same) = check_assets-ids 0 [] mapping.assets of_assets tt in
      let (all, same') =
        check_all_series-ids table.headers ids column 0 _ mapping.time_series of_series tt in
      let (valid, product) =
        add_rows-PointsValid Number time_of_epoch time_of_iso number_of lower byte_length
          (map (λ (s : SeriesMapping). s.external_id) series) column series table.rows _ rows
          (has-ids series) (refl, tt, tt, ground arith) in
      let (few, few', some_series, some_rows) = counts_of table mapping counted in
      subst (λ b. IsConsistent b × IsBounded byte_length table mapping b) (ok-injective h₉)
        (
          finish-IsConsistent system run table.headers column assets ids series seen points checked
              all valid,
          (
            same,
            length-map strip series ∙ same',
            from_zero _ _ _ product ∙ ap (λ n. length table.rows * n) same',
            rw same few,
            rw (length-map strip series, same') few',
            valid.3,
            rw (from_zero _ _ _ product, same') (one≤product _ _ some_rows some_series),
            ground arith,
          ),
        )

  -- A bundle that is made: the ids of its assets are distinct, and so are those of its series, none
  -- of which is the id of an asset; each series is of an asset of the bundle, each data point of a
  -- series of the bundle, and no two data points have the same series and time.
  pub build_csv_ingest_bundle-IsConsistent :
      (table : Table) (mapping : Mapping) {b : Bundle Number}
      → build_csv_ingest_bundle Number time_of_epoch time_of_iso number_of lower byte_length table
          mapping
        ≡ ok b
      → IsConsistent b
  build_csv_ingest_bundle-IsConsistent table mapping h = (build_of table mapping h).0

  -- A bundle that is made has all the assets and series of the mapping, at most 10,000 of each, and
  -- a data point for each row and series, at least one and at most 100,000, and it is shorter than
  -- 10 MiB as JSON.
  pub build_csv_ingest_bundle-IsBounded :
      (table : Table) (mapping : Mapping) {b : Bundle Number}
      → build_csv_ingest_bundle Number time_of_epoch time_of_iso number_of lower byte_length table
          mapping
        ≡ ok b
      → IsBounded byte_length table mapping b
  build_csv_ingest_bundle-IsBounded table mapping h = (build_of table mapping h).1
