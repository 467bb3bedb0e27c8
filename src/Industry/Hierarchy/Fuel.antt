-- ===== src/Industry/Hierarchy/Fuel.antt =====
-- The walk to the parents ends: the ids on its path are distinct ids of assets, so there are no
-- more of them than assets.
use open_data_fusion.Prelude.{
  String, String_discrete, ◌==◌, ==_refl, ℕ, zero, suc, ◌+◌, ◌≤◌, ◌≡◌, ◌≢◌, refl, sym, ap, ◌∙◌,
  Bool, true, false, Option, none, some, List, [], ◌∷◌, ◌++◌, map, arith, length, All, All-map,
  Bool-cases, inl, inr, if◌then◌else◌, contains, Distinct, remove_first, Option-cases,
}
use mathlib.Core.List.{append_assoc}
use Prim.Native.Char.{code}
use open_data_fusion.Prelude.Sets.{All_of_contains}
use open_data_fusion.Industry.Tables.{AssetRow}
use open_data_fusion.Industry.Hierarchy.{
  segment, is_inside, find_asset, parent_row, walk, walk_from,
}
use open_data_fusion.Industry.Hierarchy.Acyclic.{is_prefix_refl, is_inside-append}

contains-remove_first :
    (ids : List String) (a b : String)
    → contains ids b ≡ true
    → (b == a) ≡ false
    → contains (remove_first (λ x. a == x) ids) b ≡ true
contains-remove_first [] a b h other = cc
contains-remove_first (x ∷ ids) a b h other = elim (String_discrete a x) [
  | yes same ↦ ground (arith, ap (λ y. b == y) same)
  | no differs ↦ ground (arith, contains-remove_first ids a b)
]

length-remove_first :
    (ids : List String) (a : String)
    → contains ids a ≡ true
    → length ids ≡ suc (length (remove_first (λ x. a == x) ids))
length-remove_first [] a h = cc
length-remove_first (x ∷ ids) a h = ground (arith, length-remove_first ids a)

All-remove_first :
    (ids : List String) (a : String) (ws : List String)
    → contains ws a ≡ false
    → All (λ w. contains ids w ≡ true) ws
    → All (λ w. contains (remove_first (λ x. a == x) ids) w ≡ true) ws
All-remove_first ids a [] new h = tt
All-remove_first ids a (w ∷ ws) new (known, h) =
    (contains-remove_first ids a w known (ground arith), All-remove_first ids a ws (ground arith) h)

-- Distinct elements of a list are no more than it has.
Distinct-length :
    (visited ids : List String)
    → Distinct visited
    → All (λ v. contains ids v ≡ true) visited
    → length visited ≤ length ids
Distinct-length [] ids d h = ground arith
Distinct-length (v ∷ visited) ids (new, d) (here, h) =
    let rest =
      Distinct-length visited (remove_first (λ x. v == x) ids) d
        (All-remove_first ids v visited new h) in
    rw (length-remove_first ids v here) (ground arith)

abbrev ids_of : List AssetRow → List String
ids_of assets = map (λ (a : AssetRow). a.external_id) assets

length-ids_of : (assets : List AssetRow) → length (ids_of assets) ≡ length assets
length-ids_of [] = refl
length-ids_of (a ∷ assets) = ap suc (length-ids_of assets)

abbrev Known : List AssetRow → Option AssetRow → Type 0
Known assets none = Unit
Known assets (some row) = contains (ids_of assets) row.external_id ≡ true

find_asset-Known :
    (assets rest : List AssetRow) (id : String)
    → ((a : String) → contains (ids_of rest) a ≡ true → contains (ids_of assets) a ≡ true)
    → Known assets (find_asset rest id)
find_asset-Known assets [] id h = tt
find_asset-Known assets (a ∷ rest) id h =
    elim (String_discrete a.external_id id)
      as (λ d.
        Known assets
          (if elim d [ yes _ ↦ true | no _ ↦ false ] then some a else find_asset rest id)) [
            | yes same ↦ h a.external_id (rw (==_refl a.external_id) refl)
            | no other ↦ find_asset-Known assets rest id (λ b known. h b (ground arith))
          ]

parent_row-Known : (assets : List AssetRow) (row : AssetRow) → Known assets (parent_row assets row)
parent_row-Known assets row = elim (Option-cases row.parent_external_id) [
  | inl e ↦ rw e tt
  | inr (id, e) ↦ rw e (find_asset-Known assets assets id (λ a known. known))
]

-- The ids that a path has visited: distinct ids of assets, each of which is found in the path.
abbrev Visited : List AssetRow → List String → List ℕ → Type 0
Visited assets visited path =
    Distinct visited
    × All (λ v. contains (ids_of assets) v ≡ true) visited
    × All (λ v. is_inside (44 ∷ segment v) path ≡ true) visited

abbrev EndsWithComma : List ℕ → Type 0
EndsWithComma path = (start : List ℕ) × (path ≡ start ++ 44 ∷ [])

segment-EndsWithComma : (id : String) → EndsWithComma (segment id)
segment-EndsWithComma String.[] = ([], refl)
segment-EndsWithComma (String.◌∷◌ c id) =
    let (start, e) = segment-EndsWithComma id in (code c ∷ start, ap (λ s. code c ∷ s) e)

EndsWithComma-append : (path : List ℕ) (id : String) → EndsWithComma (path ++ segment id)
EndsWithComma-append path id =
    let (start, e) = segment-EndsWithComma id in
    (path ++ start, ap (λ s. path ++ s) e ∙ sym (append_assoc path start (44 ∷ [])))

is_inside-prepend : (t s : List ℕ) → is_inside s s ≡ true → is_inside s (t ++ s) ≡ true
is_inside-prepend [] s h = h
is_inside-prepend (a ∷ t) s h = ground (arith, is_inside-prepend t s)

is_inside-segment :
    (path : List ℕ) (id : String)
    → EndsWithComma path
    → is_inside (44 ∷ segment id) (path ++ segment id) ≡ true
is_inside-segment path id (start, e) =
    rw (e, append_assoc start (44 ∷ []) (segment id))
      (is_inside-prepend start (44 ∷ segment id) (rw (is_prefix_refl (segment id)) refl))

not_none :
    (b : Bool) (r : Option Bool) → (b ≡ false → r ≢ none) → (if b then some true else r) ≢ none
not_none true r h e = cc
not_none false r h e = h refl e

new_of :
    (assets : List AssetRow) (visited : List String) (path : List ℕ) (id : String)
    → Visited assets visited path
    → is_inside (44 ∷ segment id) path ≡ false
    → contains visited id ≡ false
new_of assets visited path id (_, _, inside) new = elim (Bool-cases (contains visited id)) [
  | inl known ↦
      absurd
        (cc (All_of_contains (λ v. is_inside (44 ∷ segment v) path ≡ true) visited id inside known))
  | inr fresh ↦ fresh
]

walk-ends :
    (assets : List AssetRow) (fuel : ℕ) (next : Option AssetRow) (path : List ℕ)
    (visited : List String)
    → Known assets next
    → Visited assets visited path
    → EndsWithComma path
    → length assets + 1 ≤ fuel + length visited
    → walk assets fuel next path ≢ none
unfolding walk
walk-ends assets zero none path visited k v c enough e = cc
walk-ends assets (suc fuel) none path visited k v c enough e = cc
walk-ends assets zero (some row) path visited k (d, known, inside) c enough e =
    let few = Distinct-length visited (ids_of assets) d known in
    let same = length-ids_of assets in ground arith
walk-ends assets (suc fuel) (some row) path visited k (d, known, inside) c enough e =
    not_none (is_inside (44 ∷ segment row.external_id) path) _
      (λ new.
        walk-ends assets fuel (parent_row assets row) (path ++ segment row.external_id)
          (row.external_id ∷ visited) (parent_row-Known assets row)
          (
            (new_of assets visited path row.external_id (d, known, inside) new, d),
            (k, known),
            (
              is_inside-segment path row.external_id c,
              All-map _ _ (λ v. is_inside-append (44 ∷ segment v) path (segment row.external_id))
                  visited inside,
            ),
          )
          (EndsWithComma-append path row.external_id) (ground arith))
      e

-- The walk from any asset ends within one step more than there are assets, whatever the parents are.
pub walk_from-ends : (assets : List AssetRow) (root : AssetRow) → walk_from assets root ≢ none
walk_from-ends assets root =
    walk-ends assets (suc (length assets)) (parent_row assets root) (44 ∷ segment root.external_id)
      [] (parent_row-Known assets root) (tt, tt, tt)
      (EndsWithComma-append (44 ∷ []) root.external_id) (ground arith)
