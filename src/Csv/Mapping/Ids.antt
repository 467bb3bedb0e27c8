-- ===== src/Csv/Mapping/Ids.antt =====
-- The ids of the assets and of the series that the checks of a mapping let through.
use mathlib.Core.List.{append_assoc, append-nil}
use open_data_fusion.Prelude.{
  ℕ, ◌+◌, ◌≡◌, refl, sym, ap, ◌∙◌, subst, Bool, true, false, not, none, some, List, [], ◌∷◌, ◌++◌,
  map, arith, length, All,
}
use open_data_fusion.Prelude.Result.{ok, ok-injective, >>=-eq-ok, guard->>-eq-ok}
use open_data_fusion.Csv.Text.{Text, has, TextsDistinct, TextsDistinct-snoc, text_eq}
use open_data_fusion.Csv.Mapping.{
  AssetMapping, SeriesMapping, Seen, Unique, asset_external_id, asset_name, asset_type, asset_id,
  series_external_id, series_id, series_asset, series_name, value_column, value_column_of,
  used_by_both, unknown_asset, not_column, reuses_timestamp, duplicated, require_non_blank,
  require_external_id, require_column, assert_unique, check_asset, check_assets, check_series,
  check_all_series, check_quality_column, check_unit,
}

pub false_of_not : (b : Bool) → not b ≡ true → b ≡ false
false_of_not b h = ground arith

assert_unique-TextsDistinct :
    (value : Text) (values : List Text) (description : Unique) {next : List Text}
    → assert_unique value values description ≡ ok next
    → TextsDistinct values
    → TextsDistinct next × (next ≡ values ++ value ∷ [])
assert_unique-TextsDistinct value values description h d =
    let (new, h₁) = guard->>-eq-ok (not (has values value)) (duplicated description value) _ h in
    let e = sym (ok-injective h₁) in
    (subst TextsDistinct (sym e) (TextsDistinct-snoc values value d (false_of_not _ new)), e)

-- The ids of what is passed on are added to the set, which keeps each once.
abbrev pub AssetsChecked : List Text → List AssetMapping × List Text → Type 0
AssetsChecked ids (assets, all) =
    (all ≡ ids ++ map (λ (a : AssetMapping). a.external_id) assets) × TextsDistinct all

check_asset-ids :
    (index : ℕ) (ids : List Text) (asset : AssetMapping) {checked : AssetMapping} {next : List Text}
    → check_asset index ids asset ≡ ok (checked, next)
    → TextsDistinct ids
    → TextsDistinct next × (next ≡ ids ++ checked.external_id ∷ [])
check_asset-ids index ids asset h d =
    let (id, _, h₁) =
      >>=-eq-ok (require_external_id asset.external_id (asset_external_id index)) _ h in
    let (next, unique, h₂) = >>=-eq-ok (assert_unique id ids asset_id) _ h₁ in
    let (name, _, h₃) =
      >>=-eq-ok (require_non_blank asset.name (asset_name index) (some 255)) _ h₂ in
    let (type, _, h₄) =
      >>=-eq-ok (require_non_blank asset.type (asset_type index) (some 100)) _ h₃ in
    subst
      (λ (r : AssetMapping × List Text). TextsDistinct r.1 × (r.1 ≡ ids ++ r.0.external_id ∷ []))
      (ok-injective h₄) (assert_unique-TextsDistinct id ids asset_id unique d)

pub check_assets-ids :
    (index : ℕ) (ids : List Text) (assets : List AssetMapping) {out : List AssetMapping}
    {all : List Text}
    → check_assets index ids assets ≡ ok (out, all)
    → TextsDistinct ids
    → AssetsChecked ids (out, all) × (length out ≡ length assets)
unfolding check_assets
check_assets-ids index ids [] h d =
    subst (λ r. AssetsChecked ids r × (length (r.0) ≡ 0)) (ok-injective h)
      ((sym (append-nil ids), d), refl)
check_assets-ids index ids (asset ∷ assets) h d =
    let ((checked, next), first, h₁) = >>=-eq-ok (check_asset index ids asset) _ h in
    let ((rest, all), others, h₂) = >>=-eq-ok (check_assets (index + 1) next assets) _ h₁ in
    let (d₁, snoc) = check_asset-ids index ids asset first d in
    let ((e, d₂), same) = check_assets-ids (index + 1) next assets others d₁ in
    subst (λ r. AssetsChecked ids r × (length (r.0) ≡ length (asset ∷ assets))) (ok-injective h₂)
      (
        (
          e
              ∙ ap (λ xs. xs ++ map (λ (a : AssetMapping). a.external_id) rest) snoc
              ∙ append_assoc ids (checked.external_id ∷ [])
                  (map (λ (a : AssetMapping). a.external_id) rest),
          d₂,
        ),
        ap ℕ.suc same,
      )

abbrev pub SeriesChecked :
    (headers asset_ids : List Text) → (timestamp : Text) → SeriesMapping → Type 0
SeriesChecked headers asset_ids timestamp series =
    (has asset_ids series.external_id ≡ false)
    × (has asset_ids series.asset_external_id ≡ true)
    × (has headers series.value_column ≡ true)
    × (text_eq series.value_column timestamp ≡ false)

abbrev SeenBehind : Seen → SeriesMapping → Seen → Type 0
SeenBehind seen series next =
    TextsDistinct next.series_ids × (next.series_ids ≡ seen.series_ids ++ series.external_id ∷ [])

require_column-has :
    (headers : List Text) (column : Text) (index : ℕ) {trimmed : Text}
    → require_column headers column (value_column index) ≡ ok trimmed
    → has headers trimmed ≡ true
require_column-has headers column index h =
    let (name, _, h₁) = >>=-eq-ok (require_non_blank column (value_column index) none) _ h in
    let (known, h₂) =
      guard->>-eq-ok (has headers name) (not_column (value_column index) name) _ h₁ in
    subst (λ t. has headers t ≡ true) (ok-injective h₂) known

module _ (headers asset_ids : List Text) (timestamp : Text) where
  check_series-ids :
      (index : ℕ) (seen : Seen) (series : SeriesMapping) {checked : SeriesMapping} {next : Seen}
      → check_series headers asset_ids timestamp index seen series ≡ ok (checked, next)
      → TextsDistinct seen.series_ids
      → SeenBehind seen checked next × SeriesChecked headers asset_ids timestamp checked
  check_series-ids index seen series h d =
      let (id, _, h₁) =
        >>=-eq-ok (require_external_id series.external_id (series_external_id index)) _ h in
      let (ids, unique, h₂) = >>=-eq-ok (assert_unique id seen.series_ids series_id) _ h₁ in
      let (apart, h₃) = guard->>-eq-ok (not (has asset_ids id)) (used_by_both id) _ h₂ in
      let (asset, _, h₄) =
        >>=-eq-ok (require_external_id series.asset_external_id (series_asset index)) _ h₃ in
      let (known, h₅) = guard->>-eq-ok (has asset_ids asset) (unknown_asset id asset) _ h₄ in
      let (column, found, h₆) =
        >>=-eq-ok (require_column headers series.value_column (value_column index)) _ h₅ in
      let (columns, _, h₇) =
        >>=-eq-ok (assert_unique column seen.value_columns value_column_of) _ h₆ in
      let (other, h₈) =
        guard->>-eq-ok (not (text_eq column timestamp)) (reuses_timestamp column) _ h₇ in
      let (quality, _, h₉) =
        >>=-eq-ok (check_quality_column headers asset_ids timestamp index series.quality_column) _
          h₈ in
      let (unit, _, last) =
        >>=-eq-ok (check_unit headers asset_ids timestamp index series.unit) _ h₉ in
      let (name, _, result) =
        >>=-eq-ok (require_non_blank series.name (series_name index) (some 255)) _ last in
      subst
        (λ (r : SeriesMapping × Seen).
          SeenBehind seen r.0 r.1 × SeriesChecked headers asset_ids timestamp r.0)
        (ok-injective result)
        (
          assert_unique-TextsDistinct id seen.series_ids series_id unique d,
          (
            false_of_not _ apart,
            known,
            require_column-has headers series.value_column index found,
            false_of_not _ other,
          ),
        )

  -- The ids of all the series, and what was checked of each.
  abbrev pub AllChecked : Seen → List SeriesMapping × Seen → Type 0
  AllChecked seen (series, all) =
      (all.series_ids ≡ seen.series_ids ++ map (λ (s : SeriesMapping). s.external_id) series)
      × TextsDistinct all.series_ids
      × All (SeriesChecked headers asset_ids timestamp) series

  pub check_all_series-ids :
      (index : ℕ) (seen : Seen) (series : List SeriesMapping) {out : List SeriesMapping}
      {all : Seen}
      → check_all_series headers asset_ids timestamp index seen series ≡ ok (out, all)
      → TextsDistinct seen.series_ids
      → AllChecked seen (out, all) × (length out ≡ length series)
  unfolding check_all_series
  check_all_series-ids index seen [] h d =
      subst (λ r. AllChecked seen r × (length (r.0) ≡ 0)) (ok-injective h)
        ((sym (append-nil seen.series_ids), d, tt), refl)
  check_all_series-ids index seen (s ∷ series) h d =
      let ((checked, next), first, h₁) =
        >>=-eq-ok (check_series headers asset_ids timestamp index seen s) _ h in
      let ((rest, all), others, h₂) =
        >>=-eq-ok (check_all_series headers asset_ids timestamp (index + 1) next series) _ h₁ in
      let ((d₁, snoc), one) = check_series-ids index seen s first d in
      let ((e, d₂, checks), same) = check_all_series-ids (index + 1) next series others d₁ in
      subst (λ r. AllChecked seen r × (length (r.0) ≡ length (s ∷ series))) (ok-injective h₂)
        (
          (
            e
                ∙ ap (λ xs. xs ++ map (λ (s : SeriesMapping). s.external_id) rest) snoc
                ∙ append_assoc seen.series_ids (checked.external_id ∷ [])
                    (map (λ (s : SeriesMapping). s.external_id) rest),
            d₂,
            (one, checks),
          ),
          ap ℕ.suc same,
        )
