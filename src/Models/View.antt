-- ===== src/Models/View.antt =====
-- `normalizeModelView` and `normalizeModelViews` of packages/platform-core/src/modeling.ts.
pub mod Checked
use open_data_fusion.Prelude.{
  String, ℕ, ◌+◌, ◌==◌, Bool, true, false, not, ◌&&◌, ◌||◌, Option, none, some, List, [], ◌∷◌, ◌++◌,
  if◌then◌else◌, leb, any, length, contains,
}
use Prim.Native.String.{◌++◌ as ◌concat◌}
use open_data_fusion.Prelude.Json.{Json, bool, str, obj, arr, Fields, end, field}
use open_data_fusion.Prelude.Result.{Result, ok, err, ◌>>=◌, ◌>>◌, guard}
use open_data_fusion.Models.Names.{
  Place, key, index, Issue, require, fail, get, count_fields, items, require_record, strict_keys,
  identifier, name_of, bool_of,
}

pub data PropertyType : Type 0 where
  text int64 float64 boolean timestamp date json direct : PropertyType

pub record Property : Type 0 where
  pub type : PropertyType
  pub required : Bool
  pub nullable : Bool
  pub list : Bool

pub data UsedFor : Type 0 where
  node edge : UsedFor

pub record View : Type 0 where
  pub external_id : String
  pub name : String
  pub used_for : UsedFor
  pub properties : List (String × Property)

abbrev pub type_of_text : String → Option PropertyType
type_of_text s =
    if s == "text"
    then some text
    else (if s == "int64"
        then some int64
        else (if s == "float64"
            then some float64
            else (if s == "boolean"
                then some boolean
                else (if s == "timestamp"
                    then some timestamp
                    else (if s == "date"
                        then some date
                        else (if s == "json"
                            then some json
                            else (if s == "direct" then some direct else none)))))))

abbrev some_or_fail : {A : Type 0} → Place → (message : String) → Option A → Result Issue A
some_or_fail path message none = fail path message
some_or_fail path message (some a) = ok a

abbrev pub property_type : Option Json → Place → Result Issue PropertyType
property_type (some (str s)) path =
    some_or_fail path "Expected an approved property type" (type_of_text s)
property_type _ path = fail path "Expected an approved property type"

abbrev used_for_of_text : String → Option UsedFor
used_for_of_text s = if s == "node" then some node else (if s == "edge" then some edge else none)

abbrev pub used_for_of : Option Json → Place → (message : String) → Result Issue UsedFor
used_for_of (some (str s)) path message = some_or_fail path message (used_for_of_text s)
used_for_of _ path message = fail path message

abbrev pub normalize_definition : String → Json → Result Issue Property
normalize_definition name value = do
  checked ← identifier (some (str name)) (key name ∷ key "properties" ∷ [])
  definition ← require_record (key name ∷ key "properties" ∷ []) "Expected an object" (some value)
  strict_keys definition ("type" ∷ "required" ∷ "nullable" ∷ "list" ∷ [])
      (key name ∷ key "properties" ∷ [])
  type ← property_type (get "type" definition) (key "type" ∷ key name ∷ key "properties" ∷ [])
  required ←
      bool_of (get "required" definition) (key "required" ∷ key name ∷ key "properties" ∷ []) false
  nullable ←
      bool_of (get "nullable" definition) (key "nullable" ∷ key name ∷ key "properties" ∷ []) false
  list ← bool_of (get "list" definition) (key "list" ∷ key name ∷ key "properties" ∷ []) false
  ok (record { type = type; required = required; nullable = nullable; list = list })

unfoldable pub normalize_definitions : Fields → Result Issue (List (String × Property))
normalize_definitions end = ok []
normalize_definitions (field name value fields) = do
  property ← normalize_definition name value
  rest ← normalize_definitions fields
  ok ((name, property) ∷ rest)

unfoldable pub normalize_model_view : Json → Result Issue View
unfolding normalize_definitions
normalize_model_view input = do
  view ← require_record (key "view" ∷ []) "Expected an object" (some input)
  strict_keys view ("externalId" ∷ "name" ∷ "usedFor" ∷ "properties" ∷ []) (key "view" ∷ [])
  used_for ← used_for_of (get "usedFor" view) (key "usedFor" ∷ []) "Expected 'node' or 'edge'"
  definitions ← require_record (key "properties" ∷ []) "Expected an object" (get "properties" view)
  require (leb (count_fields definitions) 200) (key "properties" ∷ []) "Use at most 200 properties"
  properties ← normalize_definitions definitions
  external_id ← identifier (get "externalId" view) (key "externalId" ∷ [])
  name ← name_of (get "name" view) (key "name" ∷ [])
  ok (record {
    external_id = external_id;
    name = name;
    used_for = used_for;
    properties = properties;
  })

unfoldable pub normalize_all : List Json → Result Issue (List View)
unfolding normalize_model_view
normalize_all [] = ok []
normalize_all (input ∷ inputs) = do
  view ← normalize_model_view input
  views ← normalize_all inputs
  ok (view ∷ views)

unfoldable pub check_distinct : (seen : List String) → List View → Result Issue (Unit {0})
check_distinct seen [] = ok tt
check_distinct seen (view ∷ views) = do
  require (not (contains seen view.external_id)) (key "views" ∷ [])
      ("Duplicate view '" concat view.external_id concat "'")
  check_distinct (view.external_id ∷ seen) views

abbrev pub require_items : Place → (message : String) → Option Json → Result Issue (List Json)
require_items path message (some (arr values)) = ok (items values)
require_items path message _ = fail path message

unfoldable pub normalize_model_views : Json → Result Issue (List View)
unfolding normalize_all check_distinct
normalize_model_views input = do
  inputs ← require_items (key "views" ∷ []) "Expected an array" (some input)
  require (leb (length inputs) 100) (key "views" ∷ []) "Use at most 100 views"
  views ← normalize_all inputs
  check_distinct [] views
  ok views
