-- ===== src/Models/Value.antt =====
-- The values of properties: `normalizeKey`, `normalizeDate`, `normalizeScalar`,
-- `normalizedDefinition` and `normalizeProperty` of packages/platform-core/src/modeling.ts. A value
-- is JSON, which `normalizeJsonValue` gives back as it is. Safe integers and the dates of the
-- platform are parameters; `none` is undefined.
use open_data_fusion.Prelude.{
  String, ℕ, suc, ◌+◌, ◌*◌, ◌%◌, ◌==◌, Bool, true, false, not, ◌&&◌, ◌||◌, Option, none, some, List,
  [], ◌∷◌, if◌then◌else◌, leb, any, all, length, nat_eq,
}
use Prim.Native.String.{◌++◌ as ◌concat◌}
use open_data_fusion.Prelude.Json.{
  Json, Number, null, bool, num, str, obj, arr, end, field, Items, nil, item,
}
use open_data_fusion.Prelude.Result.{Result, ok, ◌>>=◌, ◌>>◌}
use open_data_fusion.Csv.Text.{codes}
use open_data_fusion.Csv.Patterns.{is_digit}
use open_data_fusion.Models.Names.{
  Place, key, index, Issue, require, fail, get, items, require_record, strict_keys, identifier,
}
use open_data_fusion.Models.View.{
  PropertyType, text, int64, float64, boolean, timestamp, date, json, direct, Property, View,
}

-- An instance key, as it is put in the result.
abbrev pub key_value : (space external_id : String) → Json
key_value space external_id =
    obj (field "space" (str space) (field "externalId" (str external_id) end))

pub record InstanceKey : Type 0 where
  pub space : String
  pub external_id : String

abbrev pub normalize_key : Option Json → Place → Result Issue InstanceKey
normalize_key value path = do
  fields ← require_record path "Expected an instance key" value
  strict_keys fields ("space" ∷ "externalId" ∷ []) path
  space ← identifier (get "space" fields) (key "space" ∷ path)
  external_id ← identifier (get "externalId" fields) (key "externalId" ∷ path)
  ok (record { space = space; external_id = external_id })

abbrev digit : ℕ → ℕ
digit c = c % 48

abbrev pub is_leap : ℕ → Bool
is_leap year = nat_eq (year % 4) 0 && not (nat_eq (year % 100) 0) || nat_eq (year % 400) 0

abbrev pub days_in : (year month : ℕ) → ℕ
days_in year month =
    if nat_eq month 2
    then (if is_leap year then 29 else 28)
    else (if any (nat_eq month) (4 ∷ 6 ∷ 9 ∷ 11 ∷ []) then 30 else 31)

-- Whether `Date.UTC` keeps the year, the month and the day: it takes a year below 100 as one of the
-- twentieth century, and carries what is out of range.
abbrev pub is_calendar_date : (year month day : ℕ) → Bool
is_calendar_date year month day =
    leb 100 year && leb 1 month && leb month 12 && leb 1 day && leb day (days_in year month)

-- `/^\d{4}-\d{2}-\d{2}$/`
abbrev pub is_date_text : List ℕ → Bool
is_date_text (y₁ ∷ y₂ ∷ y₃ ∷ y₄ ∷ s ∷ m₁ ∷ m₂ ∷ t ∷ d₁ ∷ d₂ ∷ []) =
    all is_digit (y₁ ∷ y₂ ∷ y₃ ∷ y₄ ∷ m₁ ∷ m₂ ∷ d₁ ∷ d₂ ∷ []) && nat_eq s 45 && nat_eq t 45
is_date_text _ = false

abbrev is_real_date : List ℕ → Bool
is_real_date (y₁ ∷ y₂ ∷ y₃ ∷ y₄ ∷ s ∷ m₁ ∷ m₂ ∷ t ∷ d₁ ∷ d₂ ∷ []) =
    is_calendar_date (digit y₁ * 1000 + digit y₂ * 100 + digit y₃ * 10 + digit y₄)
      (digit m₁ * 10 + digit m₂) (digit d₁ * 10 + digit d₂)
is_real_date _ = false

abbrev pub normalize_date : Option Json → Place → Result Issue Json
normalize_date (some (str value)) path = do
  require (is_date_text (codes value)) path "Expected a YYYY-MM-DD date"
  require (is_real_date (codes value)) path "Expected a real calendar date"
  ok (str value)
normalize_date _ path = fail path "Expected a YYYY-MM-DD date"

-- `/^\d{4}-\d{2}-\d{2}T/`
abbrev starts_as_time : List ℕ → Bool
starts_as_time (y₁ ∷ y₂ ∷ y₃ ∷ y₄ ∷ s ∷ m₁ ∷ m₂ ∷ t ∷ d₁ ∷ d₂ ∷ u ∷ rest) =
    is_date_text (y₁ ∷ y₂ ∷ y₃ ∷ y₄ ∷ s ∷ m₁ ∷ m₂ ∷ t ∷ d₁ ∷ d₂ ∷ []) && nat_eq u 84
starts_as_time _ = false

-- The definition that a name has in a view. The object of the properties inherits members like
-- `constructor`, which are functions: they have no type, and no other field.
pub record Definition : Type 0 where
  pub type : Option PropertyType
  pub required : Bool
  pub nullable : Bool
  pub list : Bool

abbrev pub inherited : List String
inherited =
    "constructor" ∷ "hasOwnProperty" ∷ "isPrototypeOf" ∷ "propertyIsEnumerable" ∷ "toLocaleString"
    ∷ "toString" ∷ "valueOf" ∷ []

abbrev pub is_inherited : String → Bool
is_inherited name = any (λ member. member == name) inherited

abbrev pub find_property : String → List (String × Property) → Option Property
find_property name [] = none
find_property name ((k, property) ∷ properties) =
    if k == name then some property else find_property name properties

abbrev pub of_property : Property → Definition
of_property p = record {
  type = some p.type;
  required = p.required;
  nullable = p.nullable;
  list = p.list;
}

abbrev pub definition_or_fail : String → Place → Option Property → Result Issue Definition
definition_or_fail name path (some property) = ok (of_property property)
definition_or_fail name path none =
    if is_inherited name
    then ok (record { type = none; required = false; nullable = false; list = false })
    else fail path ("Unknown property '" concat name concat "'")

unfoldable pub normalized_definition : View → String → Place → Result Issue Definition
normalized_definition view name path =
    definition_or_fail name path (find_property name view.properties)

abbrev some_or_fail : {A : Type 0} → Place → (message : String) → Option A → Result Issue A
some_or_fail path message none = fail path message
some_or_fail path message (some a) = ok a

-- A value that is undefined is refused by every type, but not by the lack of one.
abbrev refuse_absent : Option PropertyType → Place → Result Issue (Option Json)
refuse_absent none path = ok none
refuse_absent (some text) path = fail path "Expected text"
refuse_absent (some int64) path = fail path "Expected a safe integer"
refuse_absent (some float64) path = fail path "Expected a finite number"
refuse_absent (some boolean) path = fail path "Expected a boolean"
refuse_absent (some timestamp) path = fail path "Expected an ISO timestamp"
refuse_absent (some date) path = fail path "Expected a YYYY-MM-DD date"
refuse_absent (some json) path = fail path "Expected a JSON value"
refuse_absent (some direct) path = fail path "Expected an instance key"

abbrev normalize_absent : Definition → Place → Result Issue (Option Json)
normalize_absent definition path =
    if definition.list then fail path "Expected a list" else refuse_absent definition.type path

module _ (is_safe_integer : Number → Bool) (iso_of : String → Option String) where
  abbrev time_of : String → Place → Result Issue Json
  time_of value path = do
    iso ← some_or_fail path "Expected an ISO timestamp" (iso_of value)
    require (starts_as_time (codes value)) path "Expected an ISO timestamp"
    ok (str iso)

  abbrev normalize_direct : Option Json → Place → Result Issue Json
  normalize_direct value path = do
    instance_key ← normalize_key value path
    ok (key_value instance_key.space instance_key.external_id)

  -- A value of an inherited member has no type, and becomes undefined.
  unfoldable pub normalize_scalar : Option PropertyType → Json → Place → Result Issue (Option Json)
  normalize_scalar none value path = ok none
  normalize_scalar (some text) (str value) path = ok (some (str value))
  normalize_scalar (some text) _ path = fail path "Expected text"
  normalize_scalar (some int64) (num value) path = do
    require (is_safe_integer value) path "Expected a safe integer"
    ok (some (num value))
  normalize_scalar (some int64) _ path = fail path "Expected a safe integer"
  normalize_scalar (some float64) (num value) path = ok (some (num value))
  normalize_scalar (some float64) _ path = fail path "Expected a finite number"
  normalize_scalar (some boolean) (bool value) path = ok (some (bool value))
  normalize_scalar (some boolean) _ path = fail path "Expected a boolean"
  normalize_scalar (some timestamp) (str value) path = do iso ← time_of value path; ok (some iso)
  normalize_scalar (some timestamp) _ path = fail path "Expected an ISO timestamp"
  normalize_scalar (some date) value path = do day ← normalize_date (some value) path; ok (some day)
  normalize_scalar (some json) value path = ok (some value)
  normalize_scalar (some direct) value path = do
    reference ← normalize_direct (some value) path
    ok (some reference)

  -- The elements of a list; of an element that is undefined the JSON is null.
  unfoldable pub normalize_elements :
      Option PropertyType → ℕ → List Json → Place → Result Issue Items
  unfolding normalize_scalar
  normalize_elements type n [] path = ok nil
  normalize_elements type n (value ∷ values) path = do
    normalized ← normalize_scalar type value (index n ∷ path)
    rest ← normalize_elements type (suc n) values path
    ok (item (elim normalized [ none ↦ null | some v ↦ v ]) rest)

  abbrev normalize_list : Option PropertyType → Json → Place → Result Issue (Option Json)
  normalize_list type (arr values) path = do
    require (leb (length (items values)) 1000) path "Use at most 1,000 list items"
    elements ← normalize_elements type 0 (items values) path
    ok (some (arr elements))
  normalize_list type _ path = fail path "Expected a list"

  abbrev is_list : Json → Bool
  is_list (arr _) = true
  is_list _ = false

  abbrev normalize_present : Definition → Json → Place → Result Issue (Option Json)
  normalize_present definition value path =
      if definition.list then normalize_list definition.type value path else do
        require (not (is_list value)) path "Expected a scalar value"
        normalize_scalar definition.type value path

  unfoldable pub normalize_property : Definition → Option Json → Place → Result Issue (Option Json)
  unfolding normalize_elements
  normalize_property definition (some null) path = do
    require definition.nullable path "Property is not nullable"
    ok (some null)
  normalize_property definition (some value) path = normalize_present definition value path
  normalize_property definition none path = normalize_absent definition path
