-- ===== src/Industry/Hierarchy.antt =====
-- `assertNoAssetCycles` of apps/api/src/database.ts: the recursive query walks from each asset to
-- its parents and keeps the path as one text, in which it looks for the next id between commas.
-- The depth of the walk is bounded by fuel, one more than there are assets.
pub mod Acyclic
pub mod Fuel
use Prim.Native.Char.{code}
use Prim.Native.String
use open_data_fusion.Prelude.{
  String, ◌==◌, ℕ, zero, suc, ◌+◌, Bool, true, false, not, ◌&&◌, ◌||◌, Option, none, some, List, [],
  ◌∷◌, ◌++◌, if◌then◌else◌, nat_eq, find, length,
}
use open_data_fusion.Prelude.Result.{Result, ok, err, ◌>>=◌, ◌>>◌, guard}
use open_data_fusion.Industry.Tables.{AssetRow, Error, hierarchy_cycle}

-- The characters of an id with a comma behind it.
abbrev pub segment : String → List ℕ
segment String.[] = 44 ∷ []
segment (String.◌∷◌ c s) = code c ∷ segment s

abbrev pub is_prefix : List ℕ → List ℕ → Bool
is_prefix [] t = true
is_prefix (a ∷ s) [] = false
is_prefix (a ∷ s) (b ∷ t) = nat_eq a b && is_prefix s t

-- `instr(t, s) > 0`
abbrev pub is_inside : List ℕ → List ℕ → Bool
is_inside s [] = is_prefix s []
is_inside s (b ∷ t) = is_prefix s (b ∷ t) || is_inside s t

abbrev pub find_asset : List AssetRow → String → Option AssetRow
find_asset assets id = find (λ (a : AssetRow). a.external_id == id) assets

-- `asset` is the row the walk joins at, if there is a parent and a row of it.
abbrev pub parent_row : List AssetRow → AssetRow → Option AssetRow
parent_row assets row = elim row.parent_external_id [ none ↦ none | some id ↦ find_asset assets id ]

-- Whether the walk meets a cycle; `none` where the fuel is used up.
unfoldable pub walk : List AssetRow → ℕ → Option AssetRow → List ℕ → Option Bool
walk assets fuel none path = some false
walk assets zero (some parent) path = none
walk assets (suc fuel) (some parent) path =
    let rest = walk assets fuel (parent_row assets parent) (path ++ segment parent.external_id) in
    if is_inside (44 ∷ segment parent.external_id) path then some true else rest

-- The walk from one asset.
abbrev pub walk_from : List AssetRow → AssetRow → Option Bool
walk_from assets root =
    walk assets (suc (length assets)) (parent_row assets root) (44 ∷ segment root.external_id)

abbrev pub is_cyclic : Option Bool → Bool
is_cyclic (some cycle) = cycle
is_cyclic none = true

-- The walks from the assets of a list.
unfoldable pub check_roots : List AssetRow → List AssetRow → Result Error (Unit {0})
unfolding walk
check_roots assets [] = ok tt
check_roots assets (root ∷ roots) = do
  guard (not (is_cyclic (walk_from assets root))) hierarchy_cycle
  check_roots assets roots

unfoldable pub assert_no_asset_cycles : List AssetRow → Result Error (Unit {0})
unfolding check_roots
assert_no_asset_cycles assets = check_roots assets assets
