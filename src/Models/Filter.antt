-- ===== src/Models/Filter.antt =====
-- `normalizeFilter` of packages/platform-core/src/modeling.ts. The levels are those that are left,
-- 6 less the depth of the source, and the leaves are those of the budget.
pub mod Known
pub mod Bounds
use open_data_fusion.Prelude.{
  String, ℕ, zero, suc, ◌+◌, ◌==◌, Bool, true, false, not, ◌&&◌, ◌||◌, Option, none, some, List, [],
  ◌∷◌, if◌then◌else◌, leb, length,
}
use Prim.Native.String.{◌++◌ as ◌concat◌}
use open_data_fusion.Prelude.Json.{
  Json, Number, null, bool, num, str, obj, arr, Fields, end, field, Items,
}
use open_data_fusion.Prelude.Result.{Result, ok, err, ◌>>=◌, ◌>>◌, guard}
use open_data_fusion.Models.Names.{
  Place, key, index, Issue, require, fail, get, items, require_record, identifier,
}
use open_data_fusion.Models.View.{
  PropertyType, text, int64, float64, boolean, timestamp, date, json, direct, View,
}
use open_data_fusion.Models.Value.{Definition, normalized_definition, normalize_property}

-- A leaf, with the property that it reads.
pub data Leaf : Type 0 where
  equals : (property : String) → Option Json → Leaf
  in_values : (property : String) → List (Option Json) → Leaf
  exists : (property : String) → Leaf
  range : (property : String) → (gt gte lt lte : Option Json) → Leaf

mutual
  pub data Filter : Type 0 where
    all_of any_of : Filters → Filter
    negated : Filter → Filter
    leaf : Leaf → Filter

  pub data Filters : Type 0 where
    no_more : Filters
    also : Filter → Filters → Filters

abbrev pub single : Fields → Result Issue (String × Json)
single (field operator value end) = ok (operator, value)
single _ = fail (key "filter" ∷ []) "Use exactly one filter operator"

abbrev pub place_of : String → Place
place_of operator = key operator ∷ key "filter" ∷ []

abbrev pub is_comparable : Option PropertyType → Bool
is_comparable (some text) = true
is_comparable (some int64) = true
is_comparable (some float64) = true
is_comparable (some timestamp) = true
is_comparable (some date) = true
is_comparable _ = false

abbrev pub is_present : Option Json → Bool
is_present none = false
is_present (some _) = true

-- The loop over the elements of a group, which share the budget.
unfoldable pub normalize_children :
    (Json → ℕ → Result Issue (Filter × ℕ)) → List Json → ℕ → Result Issue (Filters × ℕ)
normalize_children inner [] leaves = ok (no_more, leaves)
normalize_children inner (child ∷ children) leaves = do
  (first, used) ← inner child leaves
  (rest, all) ← normalize_children inner children used
  ok (also first rest, all)

abbrev pub normalize_group :
    (Filters → Filter)
    → (Json → ℕ → Result Issue (Filter × ℕ))
    → (operator : String) → Json
    → ℕ
    → Result Issue (Filter × ℕ)
normalize_group group inner operator (arr children) leaves = do
  require (leb 1 (length (items children))) (place_of operator) "Expected a non-empty array"
  (filters, used) ← normalize_children inner (items children) leaves
  ok (group filters, used)
normalize_group group inner operator _ leaves =
    fail (place_of operator) "Expected a non-empty array"

abbrev pub normalize_not :
    (Json → ℕ → Result Issue (Filter × ℕ)) → Json → ℕ → Result Issue (Filter × ℕ)
normalize_not inner value leaves = do (filter, used) ← inner value leaves; ok (negated filter, used)

module _ (is_safe_integer : Number → Bool) (iso_of : String → Option String) (view : View) where
  -- The property that a clause names, and its definition.
  abbrev pub clause_property : (operator : String) → Fields → Result Issue (String × Definition)
  clause_property operator clause = do
    property ← identifier (get "property" clause) (key "property" ∷ place_of operator)
    definition ← normalized_definition view property (key "property" ∷ place_of operator)
    ok (property, definition)

  unfoldable pub normalize_values : Definition → ℕ → List Json → Result Issue (List (Option Json))
  normalize_values definition n [] = ok []
  normalize_values definition n (value ∷ values) = do
    normalized ←
        normalize_property is_safe_integer iso_of definition (some value)
          (index n ∷ key "values" ∷ place_of "in")
    rest ← normalize_values definition (suc n) values
    ok (normalized ∷ rest)

  abbrev in_list : Option Json → Result Issue (List Json)
  in_list (some (arr values)) = do
    require (leb 1 (length (items values)) && leb (length (items values)) 100)
        (key "values" ∷ place_of "in") "Use 1-100 values"
    ok (items values)
  in_list _ = fail (key "values" ∷ place_of "in") "Use 1-100 values"

  -- A bound that is undefined is left out.
  abbrev normalize_bound : Definition → (bound : String) → Option Json → Result Issue (Option Json)
  normalize_bound definition bound none = ok none
  normalize_bound definition bound (some value) =
      normalize_property is_safe_integer iso_of definition (some value)
        (key bound ∷ place_of "range")

  abbrev normalize_equals : Fields → Result Issue Leaf
  normalize_equals clause = do
    (property, definition) ← clause_property "equals" clause
    value ←
        normalize_property is_safe_integer iso_of definition (get "value" clause)
          (key "value" ∷ place_of "equals")
    ok (equals property value)

  abbrev normalize_in : Fields → Result Issue Leaf
  normalize_in clause = do
    (property, definition) ← clause_property "in" clause
    values ← in_list (get "values" clause)
    normalized ← normalize_values definition 0 values
    ok (in_values property normalized)

  abbrev normalize_exists : Fields → Result Issue Leaf
  normalize_exists clause = do
    (property, definition) ← clause_property "exists" clause
    ok (exists property)

  abbrev normalize_range : Fields → Result Issue Leaf
  normalize_range clause = do
    (property, definition) ← clause_property "range" clause
    require (not definition.list && is_comparable definition.type)
        (key "property" ∷ place_of "range") "Range requires a comparable scalar property"
    gt ← normalize_bound definition "gt" (get "gt" clause)
    gte ← normalize_bound definition "gte" (get "gte" clause)
    lt ← normalize_bound definition "lt" (get "lt" clause)
    lte ← normalize_bound definition "lte" (get "lte" clause)
    require
        (is_present (get "gt" clause)
          || is_present (get "gte" clause)
          || is_present (get "lt" clause)
          || is_present (get "lte" clause))
        (place_of "range") "Provide at least one range bound"
    ok (range property gt gte lt lte)

  abbrev clause_of : (operator : String) → Json → Result Issue Fields
  clause_of operator value = require_record (place_of operator) "Expected an object" (some value)

  unfoldable pub normalize_leaf : (operator : String) → Json → Result Issue Leaf
  unfolding normalize_values
  normalize_leaf operator value =
      if operator == "equals"
      then (clause_of "equals" value >>= normalize_equals)
      else (if operator == "in"
          then (clause_of "in" value >>= normalize_in)
          else (if operator == "exists"
              then (clause_of "exists" value >>= normalize_exists)
              else (if operator == "range"
                  then (clause_of "range" value >>= normalize_range)
                  else fail (key "filter" ∷ [])
                      ("Unknown filter operator '" concat operator concat "'"))))

  abbrev pub count_leaf : (operator : String) → Json → ℕ → Result Issue (Filter × ℕ)
  count_leaf operator value leaves = do
    require (leb (leaves + 1) 20) (key "filter" ∷ []) "Filter exceeds 20 leaves"
    clause ← normalize_leaf operator value
    ok (leaf clause, leaves + 1)

  abbrev pub normalize_operator :
      (Json → ℕ → Result Issue (Filter × ℕ))
      → (operator : String) → Json
      → ℕ
      → Result Issue (Filter × ℕ)
  normalize_operator inner operator value leaves =
      if operator == "and"
      then normalize_group all_of inner operator value leaves
      else (if operator == "or"
          then normalize_group any_of inner operator value leaves
          else (if operator == "not"
              then normalize_not inner value leaves
              else count_leaf operator value leaves))

  unfoldable pub normalize_filter : (levels : ℕ) → Json → ℕ → Result Issue (Filter × ℕ)
  unfolding normalize_children normalize_leaf
  normalize_filter zero input leaves = fail (key "filter" ∷ []) "Filter depth exceeds 5"
  normalize_filter (suc levels) input leaves = do
    fields ← require_record (key "filter" ∷ []) "Expected a filter object" (some input)
    (operator, value) ← single fields
    normalize_operator (normalize_filter levels) operator value leaves
