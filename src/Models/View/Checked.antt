-- ===== src/Models/View/Checked.antt =====
-- What holds of views that are let through.
use open_data_fusion.Prelude.{
  String, ℕ, ◌+◌, ◌≤◌, ◌≡◌, refl, sym, ap, subst, true, not, Option, none, some, List, [], ◌∷◌,
  arith, map, leb, length, contains, All, Distinct,
}
use open_data_fusion.Prelude.Sets.{Fresh, Fresh→Distinct}
use open_data_fusion.Prelude.Json.{Json, Fields, end, field, null, bool, num, str, obj, arr}
use open_data_fusion.Prelude.Result.{ok, >>=-eq-ok, guard->>-eq-ok, ok-injective}
use open_data_fusion.Models.Names.{
  Place, key, get, count_fields, require_record, strict_keys, identifier, is_identifier, name_of,
  trimmed,
}
use open_data_fusion.Models.View.{
  View, Property, used_for_of, normalize_definition, normalize_definitions, normalize_model_view,
  normalize_all, check_distinct, require_items, normalize_model_views,
}

identifier-is_identifier :
    (value : Option Json) (path : Place) {name : String}
    → identifier value path ≡ ok name
    → is_identifier name ≡ true
identifier-is_identifier none path h = cc
identifier-is_identifier (some null) path h = cc
identifier-is_identifier (some (bool b)) path h = cc
identifier-is_identifier (some (num n)) path h = cc
identifier-is_identifier (some (arr values)) path h = cc
identifier-is_identifier (some (obj fields)) path h = cc
identifier-is_identifier (some (str s)) path h =
    let (test, h₁) = guard->>-eq-ok (is_identifier (trimmed s)) _ _ h in
    subst (λ n. is_identifier n ≡ true) (ok-injective h₁) test

length-normalize_definitions :
    (fields : Fields) {properties : List (String × Property)}
    → normalize_definitions fields ≡ ok properties
    → length properties ≡ count_fields fields
unfolding normalize_definitions
length-normalize_definitions end h = ap length (sym (ok-injective h))
length-normalize_definitions (field name value fields) h =
    let (property, _, h₁) = >>=-eq-ok (normalize_definition name value) _ h in
    let (rest, e, h₂) = >>=-eq-ok (normalize_definitions fields) _ h₁ in
    let same = length-normalize_definitions fields e in
    subst (λ (ps : List (String × Property)). length ps ≡ count_fields fields + 1) (ok-injective h₂)
      (ground arith)

-- The id is an identifier, and there are not too many properties.
abbrev pub IsChecked : View → Type 0
IsChecked view = (is_identifier view.external_id ≡ true) × (length view.properties ≤ 200)

normalize_model_view-IsChecked :
    (input : Json) {view : View} → normalize_model_view input ≡ ok view → IsChecked view
unfolding normalize_model_view
normalize_model_view-IsChecked input h =
    let (fields, _, h₁) =
      >>=-eq-ok (require_record (key "view" ∷ []) "Expected an object" (some input)) _ h in
    let (_, _, h₂) =
      >>=-eq-ok
        (strict_keys fields ("externalId" ∷ "name" ∷ "usedFor" ∷ "properties" ∷ [])
          (key "view" ∷ []))
        _ h₁ in
    let (used_for, _, h₃) =
      >>=-eq-ok
        (used_for_of (get "usedFor" fields) (key "usedFor" ∷ []) "Expected 'node' or 'edge'") _
        h₂ in
    let (definitions, _, h₄) =
      >>=-eq-ok
        (require_record (key "properties" ∷ []) "Expected an object" (get "properties" fields)) _
        h₃ in
    let (few, h₅) = guard->>-eq-ok (leb (count_fields definitions) 200) _ _ h₄ in
    let (properties, e, h₆) = >>=-eq-ok (normalize_definitions definitions) _ h₅ in
    let (id, e', h₇) =
      >>=-eq-ok (identifier (get "externalId" fields) (key "externalId" ∷ [])) _ h₆ in
    let (name, _, h₈) = >>=-eq-ok (name_of (get "name" fields) (key "name" ∷ [])) _ h₇ in
    let same = length-normalize_definitions definitions e in
    subst IsChecked (ok-injective h₈)
      (identifier-is_identifier (get "externalId" fields) (key "externalId" ∷ []) e', ground arith)

normalize_all-All :
    (inputs : List Json) {views : List View}
    → normalize_all inputs ≡ ok views
    → All IsChecked views × (length views ≡ length inputs)
unfolding normalize_all
normalize_all-All [] h =
    subst (λ (vs : List View). All IsChecked vs × (length vs ≡ 0)) (ok-injective h) (tt, refl)
normalize_all-All (input ∷ inputs) h =
    let (view, one, h₁) = >>=-eq-ok (normalize_model_view input) _ h in
    let (views, others, h₂) = >>=-eq-ok (normalize_all inputs) _ h₁ in
    let (all, same) = normalize_all-All inputs others in
    subst (λ (vs : List View). All IsChecked vs × (length vs ≡ length (input ∷ inputs)))
      (ok-injective h₂) ((normalize_model_view-IsChecked input one, all), ap ℕ.suc same)

abbrev pub ids_of : List View → List String
ids_of views = map (λ (v : View). v.external_id) views

check_distinct-Fresh :
    (seen : List String) (views : List View) {u : Unit {0}}
    → check_distinct seen views ≡ ok u
    → Fresh seen (ids_of views)
unfolding check_distinct
check_distinct-Fresh seen [] h = tt
check_distinct-Fresh seen (view ∷ views) h =
    let (new, h₁) = guard->>-eq-ok (not (contains seen view.external_id)) _ _ h in
    (ground arith, check_distinct-Fresh (view.external_id ∷ seen) views h₁)

-- Views that are let through are at most 100, their ids are distinct, each id has 1 to 255 units and
-- the pattern of identifiers, and each view has at most 200 properties.
pub normalize_model_views-IsChecked :
    (input : Json) {views : List View}
    → normalize_model_views input ≡ ok views
    → (length views ≤ 100) × Distinct (ids_of views) × All IsChecked views
unfolding normalize_model_views
normalize_model_views-IsChecked input h =
    let (inputs, _, h₁) =
      >>=-eq-ok (require_items (key "views" ∷ []) "Expected an array" (some input)) _ h in
    let (few, h₂) = guard->>-eq-ok (leb (length inputs) 100) _ _ h₁ in
    let (views, e, h₃) = >>=-eq-ok (normalize_all inputs) _ h₂ in
    let (_, apart, h₄) = >>=-eq-ok (check_distinct [] views) _ h₃ in
    let (all, same) = normalize_all-All inputs e in
    subst (λ (vs : List View). (length vs ≤ 100) × Distinct (ids_of vs) × All IsChecked vs)
      (ok-injective h₄)
      (ground arith, Fresh→Distinct (ids_of views) (check_distinct-Fresh [] views apart), all)
