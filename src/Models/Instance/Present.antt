-- ===== src/Models/Instance/Present.antt =====
-- The properties of an instance that is let through.
use open_data_fusion.Prelude.{
  String, ◌==◌, ==_refl, ℕ, ◌≤◌, ◌≡◌, refl, subst, Bool, true, not, ◌||◌, Option, none, some, List,
  [], ◌∷◌, arith, any, leb, All, All-map,
}
use open_data_fusion.Prelude.Json.{Json, Number, Fields}
use open_data_fusion.Prelude.Result.{ok, >>=-eq-ok, guard->>-eq-ok, ok-injective}
use open_data_fusion.Models.Names.{key, get, require_record, identifier}
use open_data_fusion.Models.View.{Property, View, UsedFor, used_for_of, normalize_model_view}
use open_data_fusion.Models.Value.{of_property, normalize_property}
use open_data_fusion.Models.Instance.{
  Values, Instance, has_property, check_known, same_kind, is_text, take_property, put,
  take_properties, normalize_ends, complete_instance, normalize_model_instance,
}

abbrev pub has_value : String → Values → Bool
has_value name values = any (λ (k, value). k == name) values

-- Each required property has a value, and each value is of a property of the view.
abbrev pub IsComplete : List (String × Property) → Values → Type 0
IsComplete properties values =
    All (λ (name, property). (not (Property.required property) || has_value name values) ≡ true)
      properties
    × All (λ (name, value). has_property name properties ≡ true) values

module _ (is_safe_integer : Number → Bool) (iso_of : String → Option String)
    (byte_length : Values → ℕ) where
  take_property-required :
      (name : String) (property : Property) (given : Option Json) (rest : Values)
      {taken : Option (Option Json)}
      → take_property is_safe_integer iso_of byte_length name property given ≡ ok taken
      → (not property.required
          || has_value name (put is_safe_integer iso_of byte_length name taken rest))
        ≡ true
  take_property-required name property none rest h =
      let (optional, h₁) = guard->>-eq-ok (not property.required) _ _ h in
      subst
        (λ taken.
          (not property.required
            || has_value name (put is_safe_integer iso_of byte_length name taken rest))
          ≡ true)
        (ok-injective h₁) (rw optional refl)
  take_property-required name property (some value) rest h =
      let (normalized, _, h₁) =
        >>=-eq-ok
          (normalize_property is_safe_integer iso_of (of_property property) (some value)
            (key name ∷ key "properties" ∷ []))
          _ h in
      subst
        (λ taken.
          (not property.required
            || has_value name (put is_safe_integer iso_of byte_length name taken rest))
          ≡ true)
        (ok-injective h₁) (rw (==_refl name) (ground arith))

  put-IsComplete :
      (name : String) (property : Property) (properties : List (String × Property))
      (taken : Option (Option Json)) (rest : Values)
      → (not property.required
          || has_value name (put is_safe_integer iso_of byte_length name taken rest))
        ≡ true
      → IsComplete properties rest
      → IsComplete
          ((name, property) ∷ properties)
          (put is_safe_integer iso_of byte_length name taken rest)
  put-IsComplete name property properties none rest h (required, known) =
      ((h, required), All-map _ _ (λ (k, v) e. ground (arith, e)) rest known)
  put-IsComplete name property properties (some value) rest h (required, known) = (
    (h, All-map _ _ (λ (k, p) e. ground (arith, e)) properties required),
    (rw (==_refl name) refl, All-map _ _ (λ (k, v) e. ground (arith, e)) rest known),
  )

  take_properties-IsComplete :
      (properties : List (String × Property)) (input : Fields) {values : Values}
      → take_properties is_safe_integer iso_of byte_length properties input ≡ ok values
      → IsComplete properties values
  unfolding take_properties
  take_properties-IsComplete [] input h = subst (IsComplete []) (ok-injective h) (tt, tt)
  take_properties-IsComplete ((name, property) ∷ properties) input h =
      let (taken, one, h₁) =
        >>=-eq-ok (take_property is_safe_integer iso_of byte_length name property (get name input))
          _ h in
      let (rest, others, h₂) =
        >>=-eq-ok (take_properties is_safe_integer iso_of byte_length properties input) _ h₁ in
      subst (IsComplete ((name, property) ∷ properties)) (ok-injective h₂) (
        put-IsComplete name property properties taken rest
          (take_property-required name property (get name input) rest one)
          (take_properties-IsComplete properties input others))

  abbrev Complete : View × Instance → Type 0
  Complete (view, instance_out) =
      IsComplete view.properties instance_out.properties
      × (byte_length instance_out.properties ≤ 262144)

  complete_instance-IsComplete :
      (view : View) (space id : String) (kind : UsedFor) (source target : Option Json)
      (given : Fields) {r : View × Instance}
      → complete_instance is_safe_integer iso_of byte_length view space id kind source target given
        ≡ ok r
      → Complete r
  unfolding complete_instance
  complete_instance-IsComplete view space id kind source target given h =
      let (_, _, h₁) = >>=-eq-ok (check_known view given) _ h in
      let (properties, e, h₂) =
        >>=-eq-ok (take_properties is_safe_integer iso_of byte_length view.properties given) _ h₁ in
      let (small, h₃) = guard->>-eq-ok (leb (byte_length properties) 262144) _ _ h₂ in
      let (ends, _, last) =
        >>=-eq-ok (normalize_ends is_safe_integer iso_of byte_length kind source target) _ h₃ in
      subst Complete (ok-injective last)
        (take_properties-IsComplete view.properties given e, ground arith)

  -- An instance that is let through has a value for each required property of its view and no value
  -- of a property that the view does not define, and its properties have at most 256 KiB as JSON.
  pub normalize_model_instance-IsComplete :
      (view_input input : Json) {view : View} {instance_out : Instance}
      → normalize_model_instance is_safe_integer iso_of byte_length view_input input
        ≡ ok (view, instance_out)
      → IsComplete view.properties instance_out.properties
        × (byte_length instance_out.properties ≤ 262144)
  unfolding normalize_model_instance
  normalize_model_instance-IsComplete view_input input h =
      let (view, _, h₁) = >>=-eq-ok (normalize_model_view view_input) _ h in
      let (fields, _, h₂) =
        >>=-eq-ok (require_record (key "instance" ∷ []) "Expected an object" (some input)) _ h₁ in
      let (space, _, h₃) =
        >>=-eq-ok (identifier (get "space" fields) (key "space" ∷ key "instance" ∷ [])) _ h₂ in
      let (id, _, h₄) =
        >>=-eq-ok (identifier (get "externalId" fields) (key "externalId" ∷ key "instance" ∷ [])) _
          h₃ in
      let (kind, _, h₅) =
        >>=-eq-ok (used_for_of (get "kind" fields) (key "kind" ∷ []) "Expected 'node' or 'edge'") _
          h₄ in
      let (_, h₆) = guard->>-eq-ok (same_kind kind view.used_for) _ _ h₅ in
      let (_, h₇) =
        guard->>-eq-ok (is_text view.external_id (get "viewExternalId" fields)) _ _ h₆ in
      let (given, _, h₈) =
        >>=-eq-ok
          (require_record (key "properties" ∷ []) "Expected an object" (get "properties" fields)) _
          h₇ in
      complete_instance-IsComplete view space id kind (get "source" fields) (get "target" fields)
        given h₈
