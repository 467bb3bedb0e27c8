-- ===== src/Tests/Models.antt =====
-- A list of one view, and a filter on it.
use open_data_fusion.Prelude.{
  String, String_discrete, ℕ, ◌≤◌, ◌≡◌, refl, true, false, Bool, Option, none, some, [], ◌∷◌,
  length, All, Distinct,
}
use open_data_fusion.Prelude.Json.{
  Json, Number, decimal, bool, num, str, obj, arr, Fields, end, field, nil, item,
}
use open_data_fusion.Prelude.Result.{ok}
use open_data_fusion.Csv.Patterns.{is_external_id}
use open_data_fusion.Models.Names.{trimmed, without_start, without_end}
use open_data_fusion.Models.View.{
  View, float64, node, normalize_model_view, normalize_model_views, normalize_definitions,
  normalize_all, check_distinct,
}
use open_data_fusion.Models.View.Checked.{IsChecked, ids_of, normalize_model_views-IsChecked}
use open_data_fusion.Models.Value.{
  normalized_definition, normalize_property, normalize_elements, normalize_scalar,
}
use open_data_fusion.Models.Filter.{
  Filter, all_of, negated, leaf, also, no_more, exists, range, normalize_filter, normalize_children,
  normalize_leaf, normalize_values,
}
use open_data_fusion.Models.Filter.Known.{IsKnown}
use open_data_fusion.Models.Instance.{
  Values, Instance, normalize_model_instance, complete_instance, check_known, take_properties,
}
use open_data_fusion.Models.Instance.Present.{IsComplete, normalize_model_instance-IsComplete}
use open_data_fusion.Models.Filter.Bounds.{depth, leaves, normalize_filter-bounds}

abbrev flow : Json
flow = obj (field "type" (str "float64") (field "required" (bool true) end))

abbrev pump_json : Json
pump_json = obj (
    field "externalId" (str " pump ") (
      field "name" (str "Pump")
        (field "usedFor" (str "node") (field "properties" (obj (field "flow" flow end)) end))))

abbrev pump : View
pump = record {
  external_id = "pump";
  name = "Pump";
  used_for = node;
  properties =
      ("flow", record { type = float64; required = true; nullable = false; list = false }) ∷ [];
}

passes : normalize_model_views (arr (item pump_json nil)) ≡ ok (pump ∷ [])
unfolding normalize_model_views normalize_all normalize_model_view normalize_definitions
    check_distinct trimmed without_start without_end is_external_id String_discrete
passes = refl

normalize_model_views-IsChecked_example :
    (length (pump ∷ []) ≤ 100) × Distinct (ids_of (pump ∷ [])) × All IsChecked (pump ∷ [])
normalize_model_views-IsChecked_example =
    normalize_model_views-IsChecked (arr (item pump_json nil)) passes

abbrev is_safe : Number → Bool
is_safe n = true

abbrev iso : String → Option String
iso s = some s

abbrev clause : Fields
clause = field "property" (str "flow") (field "gt" (num (decimal false 5 0)) end)

-- `constructor` is no property of the view, but the filter passes.
abbrev wanted : Json
wanted = obj (
    field "and"
      (arr (
        item (obj (field "range" (obj clause) end)) (
          item
            (obj (
              field "not"
                (obj (field "exists" (obj (field "property" (str "constructor") end)) end)) end))
            nil)))
      end)

abbrev wanted_filter : Filter
wanted_filter = all_of (
    also (leaf (range "flow" (some (num (decimal false 5 0))) none none none))
      (also (negated (leaf (exists "constructor"))) no_more))

lets_through : normalize_filter is_safe iso pump 5 wanted 0 ≡ ok (wanted_filter, 2)
unfolding normalize_filter normalize_children normalize_leaf normalize_values normalized_definition
    normalize_property normalize_elements normalize_scalar trimmed without_start without_end
    is_external_id String_discrete
lets_through = refl

normalize_filter-bounds_example :
    (depth wanted_filter ≤ 5)
    × (2 ≡ length (leaves wanted_filter))
    × (length (leaves wanted_filter) ≤ 20)
    × All (IsKnown pump) (leaves wanted_filter)
normalize_filter-bounds_example = normalize_filter-bounds is_safe iso pump wanted lets_through

abbrev size : Values → ℕ
size values = length values

abbrev p1 : Json
p1 = obj (
    field "space" (str "plant") (
      field "externalId" (str "p1") (
        field "kind" (str "node") (
          field "viewExternalId" (str "pump")
            (field "properties" (obj (field "flow" (num (decimal false 5 0)) end)) end)))))

abbrev p1_instance : Instance
p1_instance = record {
  space = "plant";
  external_id = "p1";
  kind = node;
  view_external_id = "pump";
  ends = none;
  properties = ("flow", some (num (decimal false 5 0))) ∷ [];
}

lets_in : normalize_model_instance is_safe iso size pump_json p1 ≡ ok (pump, p1_instance)
unfolding normalize_model_instance complete_instance check_known take_properties
    normalize_model_view normalize_definitions normalize_property normalize_elements
    normalize_scalar trimmed without_start without_end is_external_id String_discrete
lets_in = refl

normalize_model_instance-IsComplete_example :
    IsComplete pump.properties p1_instance.properties × (size p1_instance.properties ≤ 262144)
normalize_model_instance-IsComplete_example =
    normalize_model_instance-IsComplete is_safe iso size pump_json p1 lets_in
