-- ===== src/Models/Names.antt =====
-- The small tests of packages/platform-core/src/modeling.ts. A path is the list of its parts, the
-- last one first.
use Prim.Native.Char.{code}
use Prim.Native.String.{String, ◌++◌ as ◌concat◌}
use Prim.Native.String as Text
use open_data_fusion.Prelude.{
  ℕ, ◌+◌, ◌==◌, Bool, true, false, ◌&&◌, Option, none, some, List, [], ◌∷◌, if◌then◌else◌, leb, any,
}
use open_data_fusion.Prelude.Json.{Json, bool, str, obj, Fields, end, field, Items, nil, item}
use open_data_fusion.Prelude.Result.{Result, ok, err, ◌>>◌, guard}
use open_data_fusion.Csv.Text.{codes, is_blank}
use open_data_fusion.Csv.Patterns.{is_external_id}

pub data Part : Type 0 where
  key : String → Part
  index : ℕ → Part

abbrev pub Place : Type 0
Place = List Part

-- `ModelValidationIssue`, the one that `fail` throws.
pub record Issue : Type 0 where
  pub path : Place
  pub message : String

-- `if (!test) fail(path, message)`
abbrev pub require : Bool → Place → String → Result Issue (Unit {0})
require test path message = guard test (record { path = path; message = message })

abbrev pub fail : {A : Type 0} → Place → String → Result Issue A
fail path message = err (record { path = path; message = message })

-- `value[key]` of an object without it is undefined.
abbrev pub get : String → Fields → Option Json
get k end = none
get k (field name value fields) = if name == k then some value else get k fields

abbrev pub keys : Fields → List String
keys end = []
keys (field name value fields) = name ∷ keys fields

abbrev pub count_fields : Fields → ℕ
count_fields end = 0
count_fields (field name value fields) = count_fields fields + 1

abbrev pub items : Items → List Json
items nil = []
items (item value rest) = value ∷ items rest

-- `isRecord`, and the record.
abbrev pub require_record : Place → (message : String) → Option Json → Result Issue Fields
require_record path message (some (obj fields)) = ok fields
require_record path message _ = fail path message

abbrev pub is_in : List String → String → Bool
is_in allowed name = any (λ a. a == name) allowed

abbrev pub strict_keys : Fields → (allowed : List String) → Place → Result Issue (Unit {0})
strict_keys end allowed path = ok tt
strict_keys (field name value fields) allowed path = do
  require (is_in allowed name) path ("Unknown field '" concat name concat "'")
  strict_keys fields allowed path

-- `.length`: a character beyond the basic plane has two units.
abbrev pub unit_length : String → ℕ
unit_length Text.[] = 0
unit_length (Text.◌∷◌ c s) = unit_length s + (if leb 65536 (code c) then 2 else 1)

unfoldable pub without_start : String → String
without_start Text.[] = ""
without_start (Text.◌∷◌ c s) =
    let rest = without_start s in if is_blank (code c) then rest else Text.◌∷◌ c s

abbrev is_nothing : String → Bool
is_nothing Text.[] = true
is_nothing (Text.◌∷◌ c s) = false

unfoldable pub without_end : String → String
without_end Text.[] = ""
without_end (Text.◌∷◌ c s) =
    let rest = without_end s in if is_blank (code c) && is_nothing rest then "" else Text.◌∷◌ c rest

-- `.trim()`
unfoldable pub trimmed : String → String
unfolding without_start without_end
trimmed s = without_end (without_start s)

abbrev pub is_identifier : String → Bool
is_identifier s = leb 1 (unit_length s) && leb (unit_length s) 255 && is_external_id (codes s)

abbrev pub identifier : Option Json → Place → Result Issue String
identifier (some (str value)) path = do
  require (is_identifier (trimmed value)) path
      "Use 1-255 letters, numbers, dots, colons, slashes, underscores, or dashes"
  ok (trimmed value)
identifier _ path = fail path "Expected a string identifier"

abbrev pub name_of : Option Json → Place → Result Issue String
name_of (some (str value)) path = do
  require (leb 1 (unit_length (trimmed value)) && leb (unit_length (trimmed value)) 255) path
      "Use 1-255 characters"
  ok (trimmed value)
name_of _ path = fail path "Expected a string"

abbrev pub bool_of : Option Json → Place → (default : Bool) → Result Issue Bool
bool_of none path default = ok default
bool_of (some (bool value)) path default = ok value
bool_of _ path default = fail path "Expected a boolean"
