-- ===== src/Prelude/Json.antt =====
-- JSON values. A number is its decimal literal, since JSON holds no NaN and no infinity.
use Prim.Native.String.{String}
use Prim.Native.Nat.{ℕ}
use mathlib.Core.Bool.{Bool}
use mathlib.Core.List.{List, [], ◌∷◌}
use open_data_fusion.Prelude.Tests.{if◌then◌else◌}
use open_data_fusion.Prelude.Text.{◌==◌}

pub data Number : Type 0 where
  decimal : (negative : Bool) (mantissa scale : ℕ) → Number

mutual
  pub data Json : Type 0 where
    null : Json
    bool : Bool → Json
    num : Number → Json
    str : String → Json
    arr : Items → Json
    obj : Fields → Json

  pub data Items : Type 0 where
    nil : Items
    item : Json → Items → Items

  pub data Fields : Type 0 where
    end : Fields
    field : String → Json → Fields → Fields

-- An object as its own entries, in order.
abbrev pub Object : Type 0
Object = List (String × Json)

-- `{ ...target, key: value }`
abbrev pub assign : String → Json → Object → Object
assign key value [] = (key, value) ∷ []
assign key value ((k, v) ∷ fields) =
    if k == key then (k, value) ∷ fields else (k, v) ∷ assign key value fields

-- `{ ...target, ...source }`
abbrev pub spread : Object → Object → Object
spread target [] = target
spread target ((k, v) ∷ source) = spread (assign k v target) source
