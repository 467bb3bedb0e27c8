-- ===== src/Csv/Bundle/Observations.antt =====
-- The loop over the rows and the series, which makes the data points.
use open_data_fusion.Prelude.{
  ℕ, ◌+◌, ◌*◌, ◌≤◌, ◌<◌, ◌≡◌, refl, ap, ◌∙◌, subst, Bool, true, false, not, Option, List, [], ◌∷◌,
  ◌++◌, map, arith, ltb, length, All, All-append,
}
use open_data_fusion.Prelude.Result.{ok, ok-injective, >>=-eq-ok, guard->>-eq-ok}
use open_data_fusion.Csv.Text.{Text, has, TextsDistinct, TextsDistinct-snoc}
use open_data_fusion.Csv.Parse.{Row}
use open_data_fusion.Csv.Mapping.{SeriesMapping, many_points, duplicate_observation}
use open_data_fusion.Csv.Bundle.{
  Bundle, Point, Points, add_point, add_points, add_rows, point_key, value_at, quality_at, time_at,
}

not-true : (b : Bool) → not b ≡ true → b ≡ false
not-true b h = ground arith

length-snoc : {A : Type 0} (xs : List A) (x : A) → length (xs ++ x ∷ []) ≡ length xs + 1
length-snoc [] x = refl
length-snoc (y ∷ xs) x = ground (arith, length-snoc xs x)

map-snoc :
    {A : Type 0} {B : Type 0} (f : A → B) (xs : List A) (x : A)
    → map f (xs ++ x ∷ []) ≡ map f xs ++ f x ∷ []
map-snoc f [] x = refl
map-snoc f (y ∷ xs) x = ap (λ ys. f y ∷ ys) (map-snoc f xs x)

module _ {Number : Type 0} where
  abbrev pub key_of : Point Number → Text
  key_of p = point_key p.time_series_external_id p.timestamp

  -- The points of a state: their keys are its set, none twice, the points are of known series and
  -- not too many.
  abbrev pub PointsValid : List Text → Points Number → Type 0
  PointsValid series state =
      (map key_of state.points ≡ state.keys)
      × TextsDistinct state.keys
      × All (λ p. has series p.time_series_external_id ≡ true) state.points
      × (length state.points ≤ 100000)

module _ (Number : Type 0) (time_of_epoch time_of_iso : Text → Option Text)
    (number_of : Text → Option Number) (lower : Text → Text) (byte_length : Bundle Number → ℕ) where
  -- A new point behind the others.
  snoc-PointsValid :
      (ids : List Text) (state : Points Number) (p : Point Number)
      → length state.points < 100000
      → has state.keys (key_of p) ≡ false
      → has ids p.time_series_external_id ≡ true
      → PointsValid ids state
      → PointsValid ids
          (record { keys = state.keys ++ key_of p ∷ []; points = state.points ++ p ∷ [] })
  snoc-PointsValid ids state p few new known (keys, distinct, all, most) = (
    map-snoc key_of state.points p ∙ ap (λ ks. ks ++ key_of p ∷ []) keys,
    TextsDistinct-snoc state.keys (key_of p) distinct new,
    All-append _ state.points (p ∷ []) all (known, tt),
    rw (length-snoc state.points p) (ground arith),
  )

  add_point-PointsValid :
      (ids : List Text) (row : Row) (timestamp : Text) (state : Points Number)
      (series : SeriesMapping) {next : Points Number}
      → add_point Number time_of_epoch time_of_iso number_of lower byte_length row timestamp state
          series
        ≡ ok next
      → has ids series.external_id ≡ true
      → PointsValid ids state
      → PointsValid ids next × (length next.points ≡ length state.points + 1)
  add_point-PointsValid ids row timestamp state series {next} h known v =
      let (few, h₁) = guard->>-eq-ok (ltb (length state.points) 100000) many_points _ h in
      let (new, h₂) =
        guard->>-eq-ok (not (has state.keys (point_key series.external_id timestamp)))
          (duplicate_observation series.external_id timestamp) _ h₁ in
      let (value, _, h₃) = >>=-eq-ok (value_at number_of row series) _ h₂ in
      let (quality, _, h₄) = >>=-eq-ok (quality_at lower row series) _ h₃ in
      subst (λ (n : Points Number). PointsValid ids n × (length n.points ≡ length state.points + 1))
        (ok-injective h₄)
        (
          snoc-PointsValid ids state _ (ground arith) (not-true _ new) known v,
          length-snoc state.points _,
        )

  add_points-PointsValid :
      (ids : List Text) (row : Row) (timestamp : Text) (series : List SeriesMapping)
      (state : Points Number) {next : Points Number}
      → add_points Number time_of_epoch time_of_iso number_of lower byte_length row timestamp series
          state
        ≡ ok next
      → All (λ (s : SeriesMapping). has ids s.external_id ≡ true) series
      → PointsValid ids state
      → PointsValid ids next × (length next.points ≡ length state.points + length series)
  unfolding add_points
  add_points-PointsValid ids row timestamp [] state h known v =
      subst (λ (n : Points Number). PointsValid ids n × (length n.points ≡ length state.points + 0))
        (ok-injective h) (v, ground arith)
  add_points-PointsValid ids row timestamp (s ∷ series) state h (known, all) v =
      let (middle, first, h₁) =
        >>=-eq-ok
          (add_point Number time_of_epoch time_of_iso number_of lower byte_length row timestamp
            state s)
          _ h in
      let (v₁, one) = add_point-PointsValid ids row timestamp state s first known v in
      let (v₂, rest) = add_points-PointsValid ids row timestamp series middle h₁ all v₁ in
      (v₂, ground arith)

  pub add_rows-PointsValid :
      (ids : List Text) (column : Text) (series : List SeriesMapping) (rows : List Row)
      (state : Points Number) {next : Points Number}
      → add_rows Number time_of_epoch time_of_iso number_of lower byte_length column series rows
          state
        ≡ ok next
      → All (λ (s : SeriesMapping). has ids s.external_id ≡ true) series
      → PointsValid ids state
      → PointsValid ids next
        × (length next.points ≡ length state.points + length rows * length series)
  unfolding add_rows
  add_rows-PointsValid ids column series [] state h known v =
      subst
        (λ (n : Points Number).
          PointsValid ids n × (length n.points ≡ length state.points + 0 * length series))
        (ok-injective h) (v, ground arith)
  add_rows-PointsValid ids column series (row ∷ rows) state h known v =
      let (timestamp, _, h₁) = >>=-eq-ok (time_at time_of_epoch time_of_iso column row) _ h in
      let (middle, first, h₂) =
        >>=-eq-ok
          (add_points Number time_of_epoch time_of_iso number_of lower byte_length row timestamp
            series state)
          _ h₁ in
      let (v₁, one) = add_points-PointsValid ids row timestamp series state first known v in
      let (v₂, rest) = add_rows-PointsValid ids column series rows middle h₂ known v₁ in
      (v₂, grind arith)
