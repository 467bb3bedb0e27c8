-- ===== src/Models/Instance.antt =====
-- `normalizeModelInstance` of packages/platform-core/src/modeling.ts. The length of the properties as
-- JSON is a parameter, too.
pub mod Present
use open_data_fusion.Prelude.{
  String, ℕ, ◌==◌, Bool, true, false, not, ◌&&◌, ◌||◌, Option, none, some, List, [], ◌∷◌,
  if◌then◌else◌, leb, any,
}
use Prim.Native.String.{◌++◌ as ◌concat◌}
use open_data_fusion.Prelude.Json.{Json, Number, str, obj, Fields, end, field}
use open_data_fusion.Prelude.Result.{Result, ok, err, ◌>>=◌, ◌>>◌, guard}
use open_data_fusion.Models.Names.{
  Place, key, Issue, require, fail, get, require_record, identifier,
}
use open_data_fusion.Models.View.{
  Property, View, UsedFor, node, edge, used_for_of, normalize_model_view,
}
use open_data_fusion.Models.Value.{
  InstanceKey, normalize_key, Definition, is_inherited, find_property, of_property,
  normalize_property,
}

-- The properties of an instance, each with its value.
abbrev pub Values : Type 0
Values = List (String × Option Json)

pub record Instance : Type 0 where
  pub space : String
  pub external_id : String
  pub kind : UsedFor
  pub view_external_id : String
  -- the source and the target of an edge
  pub ends : Option (InstanceKey × InstanceKey)
  pub properties : Values

abbrev pub has_property : String → List (String × Property) → Bool
has_property name properties = any (λ (k, property). k == name) properties

-- `property in view.properties`, which asks for the inherited members, too.
abbrev is_member : String → List (String × Property) → Bool
is_member name properties =
    has_property name properties
    || is_inherited name
    || any (λ member. member == name)
        ("__proto__" ∷ "__defineGetter__" ∷ "__defineSetter__" ∷ "__lookupGetter__"
          ∷ "__lookupSetter__" ∷ [])

unfoldable pub check_known : View → Fields → Result Issue (Unit {0})
check_known view end = ok tt
check_known view (field name value fields) = do
  require (is_member name view.properties) (key name ∷ key "properties" ∷ [])
      "Property is not defined by the view"
  check_known view fields

abbrev pub same_kind : UsedFor → UsedFor → Bool
same_kind node node = true
same_kind edge edge = true
same_kind _ _ = false

abbrev pub kind_text : UsedFor → String
kind_text node = "node"
kind_text edge = "edge"

abbrev pub is_text : String → Option Json → Bool
is_text text (some (str s)) = s == text
is_text text _ = false

module _ (is_safe_integer : Number → Bool) (iso_of : String → Option String)
    (byte_length : Values → ℕ) where
  -- One property of the view: its value where the instance has one.
  abbrev pub take_property : String → Property → Option Json → Result Issue (Option (Option Json))
  take_property name property none = do
    require (not property.required) (key name ∷ key "properties" ∷ [])
        "Required property is missing"
    ok none
  take_property name property (some value) = do
    normalized ←
        normalize_property is_safe_integer iso_of (of_property property) (some value)
          (key name ∷ key "properties" ∷ [])
    ok (some normalized)

  abbrev pub put : String → Option (Option Json) → Values → Values
  put name none values = values
  put name (some value) values = (name, value) ∷ values

  -- The loop over the properties of the view.
  unfoldable pub take_properties : List (String × Property) → Fields → Result Issue Values
  take_properties [] input = ok []
  take_properties ((name, property) ∷ properties) input = do
    taken ← take_property name property (get name input)
    rest ← take_properties properties input
    ok (put name taken rest)

  abbrev is_absent : Option Json → Bool
  is_absent none = true
  is_absent (some value) = false

  abbrev pub normalize_ends :
      UsedFor → (source target : Option Json) → Result Issue (Option (InstanceKey × InstanceKey))
  normalize_ends node source target = do
    require (is_absent source && is_absent target) (key "instance" ∷ [])
        "Node instances cannot define endpoints"
    ok none
  normalize_ends edge source target = do
    require (not (is_absent source || is_absent target)) (key "instance" ∷ [])
        "Edge instances require source and target"
    from ← normalize_key source (key "source" ∷ [])
    to ← normalize_key target (key "target" ∷ [])
    ok (some (from, to))

  -- What follows the tests of the fields: the properties and the ends.
  unfoldable pub complete_instance :
      View
      → (space external_id : String) → UsedFor
      → (source target : Option Json) → Fields
      → Result Issue (View × Instance)
  unfolding check_known take_properties
  complete_instance view space external_id kind source target given = do
    check_known view given
    properties ← take_properties view.properties given
    require (leb (byte_length properties) 262144) (key "properties" ∷ [])
        "Serialized properties exceed 256 KiB"
    ends ← normalize_ends kind source target
    ok (
      view,
      record {
        space = space;
        external_id = external_id;
        kind = kind;
        view_external_id = view.external_id;
        ends = ends;
        properties = properties;
      },
    )

  unfoldable pub normalize_model_instance : (view input : Json) → Result Issue (View × Instance)
  unfolding complete_instance
  normalize_model_instance view_input input = do
    view ← normalize_model_view view_input
    fields ← require_record (key "instance" ∷ []) "Expected an object" (some input)
    space ← identifier (get "space" fields) (key "space" ∷ key "instance" ∷ [])
    external_id ← identifier (get "externalId" fields) (key "externalId" ∷ key "instance" ∷ [])
    kind ← used_for_of (get "kind" fields) (key "kind" ∷ []) "Expected 'node' or 'edge'"
    require (same_kind kind view.used_for) (key "kind" ∷ []) (
        "Expected '"
        concat kind_text view.used_for
        concat "' for view '"
        concat view.external_id
        concat "'")
    require (is_text view.external_id (get "viewExternalId" fields)) (key "viewExternalId" ∷ [])
        ("Expected '" concat view.external_id concat "'")
    given ← require_record (key "properties" ∷ []) "Expected an object" (get "properties" fields)
    complete_instance view space external_id kind (get "source" fields) (get "target" fields) given
