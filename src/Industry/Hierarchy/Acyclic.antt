-- ===== src/Industry/Hierarchy/Acyclic.antt =====
-- What the test of the hierarchy shows where it passes.
use open_data_fusion.Prelude.{
  ℕ, zero, suc, ◌≡◌, ◌≢◌, refl, ap, subst, Bool, true, false, not, Option, none, some, List, [],
  ◌∷◌, ◌++◌, arith, length, All, if◌then◌else◌,
}
use open_data_fusion.Prelude.Result.{ok, guard->>-eq-ok}
use open_data_fusion.Industry.Tables.{AssetRow, hierarchy_cycle}
use open_data_fusion.Industry.Hierarchy.{
  segment, is_prefix, is_inside, parent_row, walk, walk_from, is_cyclic, check_roots,
  assert_no_asset_cycles,
}

-- The rows over an asset: that of its parent, and the rows over that.
pub data Ancestor (assets : List AssetRow) (row : AssetRow) : AssetRow → Type 0 where
  parent : {above : AssetRow} → parent_row assets row ≡ some above → Ancestor assets row above
  further :
      {middle above : AssetRow}
      → Ancestor assets row middle
      → parent_row assets middle ≡ some above
      → Ancestor assets row above

pub is_prefix-append : (s t u : List ℕ) → is_prefix s t ≡ true → is_prefix s (t ++ u) ≡ true
is_prefix-append [] t u h = refl
is_prefix-append (a ∷ s) [] u h = cc
is_prefix-append (a ∷ s) (b ∷ t) u h = ground (arith, is_prefix-append s t u)

pub is_inside-append : (s t u : List ℕ) → is_inside s t ≡ true → is_inside s (t ++ u) ≡ true
is_inside-append [] [] [] h = refl
is_inside-append [] [] (b ∷ u) h = refl
is_inside-append (a ∷ s) [] u h = cc
is_inside-append s (b ∷ t) u h =
    ground (arith, is_prefix-append s (b ∷ t) u, is_inside-append s t u)

pub is_prefix_refl : (s : List ℕ) → is_prefix s s ≡ true
is_prefix_refl [] = refl
is_prefix_refl (a ∷ s) = ground (arith, is_prefix_refl s)

false_of_else :
    (b : Bool) (r : Option Bool)
    → (if b then some true else r) ≡ some false
    → (b ≡ false) × (r ≡ some false)
false_of_else true r h = cc
false_of_else false r h = (refl, h)

some-false : (r : Option Bool) → is_cyclic r ≡ false → r ≡ some false
some-false none h = cc
some-false (some b) h = ap some h

pub walk-some :
    (assets : List AssetRow) (fuel : ℕ) (row : AssetRow) (path : List ℕ)
    → walk assets fuel (some row) path ≡ some false
    → (is_inside (44 ∷ segment row.external_id) path ≡ false)
      × ((n : ℕ) × (walk assets n (parent_row assets row) (path ++ segment row.external_id)
            ≡ some false))
unfolding walk
walk-some assets zero row path h = cc
walk-some assets (suc fuel) row path h =
    let (new, rest) =
      false_of_else (is_inside (44 ∷ segment row.external_id) path)
        (walk assets fuel (parent_row assets row) (path ++ segment row.external_id)) h in
    (new, (fuel, rest))

-- Where the walk from `row` is at `above`, and that its path still has `row`.
abbrev WalksAt : List AssetRow → AssetRow → AssetRow → Type 0
WalksAt assets row above =
    (fuel : ℕ) × (path : List ℕ) × (walk assets fuel (parent_row assets above) path ≡ some false)
    × (is_inside (44 ∷ segment row.external_id) path ≡ true)

WalksAt-step :
    (assets : List AssetRow) (row middle above : AssetRow)
    → WalksAt assets row middle
    → parent_row assets middle ≡ some above
    → WalksAt assets row above
WalksAt-step assets row middle above (fuel, path, walks, inside) e =
    let (_, (n, rest)) =
      walk-some assets fuel above path
        (subst (λ next. walk assets fuel next path ≡ some false) e walks) in
    (
      n,
      path ++ segment above.external_id,
      rest,
      is_inside-append (44 ∷ segment row.external_id) path (segment above.external_id) inside,
    )

is_inside_refl : (a : ℕ) (s : List ℕ) → is_inside (a ∷ s) (a ∷ s) ≡ true
is_inside_refl a s = rw (is_prefix_refl (a ∷ s)) refl

walks_at :
    (assets : List AssetRow) (row above : AssetRow)
    → is_cyclic (walk_from assets row) ≡ false
    → Ancestor assets row above
    → WalksAt assets row above
walks_at assets row above h (parent e) =
    WalksAt-step assets row row above
      (
        suc (length assets),
        44 ∷ segment row.external_id,
        some-false _ h,
        is_inside_refl 44 (segment row.external_id),
      )
      e
walks_at assets row above h (further {middle} below e) =
    WalksAt-step assets row middle above (walks_at assets row middle h below) e

not_again :
    (assets : List AssetRow) (row middle : AssetRow)
    → WalksAt assets row middle
    → parent_row assets middle ≢ some row
not_again assets row middle (fuel, path, walks, inside) e =
    let (new, _) =
      walk-some assets fuel row path
        (subst (λ next. walk assets fuel next path ≡ some false) e walks) in
    cc

no_cycle :
    (assets : List AssetRow) (row : AssetRow)
    → is_cyclic (walk_from assets row) ≡ false
    → ¬ Ancestor assets row row
no_cycle assets row h (parent e) =
    not_again assets row row
      (
        suc (length assets),
        44 ∷ segment row.external_id,
        some-false _ h,
        is_inside_refl 44 (segment row.external_id),
      )
      e
no_cycle assets row h (further {middle} below e) =
    not_again assets row middle (walks_at assets row middle h below) e

check_roots-All :
    (assets roots : List AssetRow) {u : Unit {0}}
    → check_roots assets roots ≡ ok u
    → All (λ row. ¬ Ancestor assets row row) roots
unfolding check_roots
check_roots-All assets [] h = tt
check_roots-All assets (root ∷ roots) h =
    let (passed, rest) =
      guard->>-eq-ok (not (is_cyclic (walk_from assets root))) hierarchy_cycle _ h in
    (no_cycle assets root (ground arith), check_roots-All assets roots rest)

-- No asset is over itself.
abbrev pub IsAcyclic : List AssetRow → Type 0
IsAcyclic assets = All (λ row. ¬ Ancestor assets row row) assets

-- If the test of the hierarchy passes, no asset is an ancestor of itself by the parents' rows.
pub assert_no_asset_cycles-IsAcyclic :
    (assets : List AssetRow) {u : Unit {0}}
    → assert_no_asset_cycles assets ≡ ok u
    → IsAcyclic assets
unfolding assert_no_asset_cycles
assert_no_asset_cycles-IsAcyclic assets h = check_roots-All assets assets h
