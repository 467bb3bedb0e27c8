-- ===== src/Models/Filter/Known.antt =====
-- The property of a leaf that is let through.
use open_data_fusion.Prelude.{
  String, ◌==◌, ◌≡◌, refl, subst, Bool, true, false, ◌||◌, Option, none, some, ◌∷◌, if◌then◌else◌,
  ◌⊎◌, inl, inr,
}
use open_data_fusion.Prelude.Json.{Json, Number, Fields}
use open_data_fusion.Prelude.Result.{err, Result, ok, >>=-eq-ok, guard->>-eq-ok, ok-injective}
use open_data_fusion.Models.Names.{Place, Issue, key, get, identifier}
use open_data_fusion.Models.View.{View, Property}
use open_data_fusion.Models.Value.{
  Definition, is_inherited, find_property, definition_or_fail, normalized_definition,
  normalize_property,
}
use open_data_fusion.Models.Filter.{
  Leaf, equals, in_values, exists, range, place_of, clause_property, normalize_values, in_list,
  normalize_bound, normalize_equals, normalize_in, normalize_exists, normalize_range, clause_of,
  normalize_leaf,
}

abbrev pub property_of : Leaf → String
property_of (equals property value) = property
property_of (in_values property values) = property
property_of (exists property) = property
property_of (range property gt gte lt lte) = property

abbrev pub is_defined : Option Property → Bool
is_defined none = false
is_defined (some property) = true

-- The view defines the property of the leaf, or it is a member that every object inherits.
abbrev pub IsKnown : View → Leaf → Type 0
IsKnown view clause =
    (is_defined (find_property (property_of clause) view.properties)
      || is_inherited (property_of clause))
    ≡ true

true_of_then :
    {A : Type 0} (b : Bool) (x : Result Issue A) (i : Issue) {a : A}
    → (if b then x else err i) ≡ ok a
    → b ≡ true
true_of_then true x i h = refl
true_of_then false x i h = cc

pub either_branch :
    {A : Type 0} (b : Bool) (x y : Result Issue A) {a : A}
    → (if b then x else y) ≡ ok a
    → (x ≡ ok a) ⊎ (y ≡ ok a)
either_branch true x y h = inl h
either_branch false x y h = inr h

definition_or_fail-known :
    (name : String) (path : Place) (found : Option Property) {definition : Definition}
    → definition_or_fail name path found ≡ ok definition
    → (is_defined found || is_inherited name) ≡ true
definition_or_fail-known name path (some property) h = refl
definition_or_fail-known name path none h = true_of_then (is_inherited name) _ _ h

module _ (is_safe_integer : Number → Bool) (iso_of : String → Option String) (view : View) where
  abbrev NameKnown : String → Type 0
  NameKnown name = (is_defined (find_property name view.properties) || is_inherited name) ≡ true

  clause_property-known :
      (operator : String) (clause : Fields) {property : String} {definition : Definition}
      → clause_property is_safe_integer iso_of view operator clause ≡ ok (property, definition)
      → NameKnown property
  unfolding normalized_definition
  clause_property-known operator clause h =
      let (name, _, h₁) =
        >>=-eq-ok (identifier (get "property" clause) (key "property" ∷ place_of operator)) _ h in
      let (found, e, h₂) =
        >>=-eq-ok (normalized_definition view name (key "property" ∷ place_of operator)) _ h₁ in
      subst (λ (r : String × Definition). NameKnown r.0) (ok-injective h₂)
        (definition_or_fail-known name (key "property" ∷ place_of operator)
          (find_property name view.properties) e)

  normalize_equals-IsKnown :
      (clause : Fields) {l : Leaf}
      → normalize_equals is_safe_integer iso_of view clause ≡ ok l
      → IsKnown view l
  normalize_equals-IsKnown clause h =
      let ((name, definition), e, h₁) =
        >>=-eq-ok (clause_property is_safe_integer iso_of view "equals" clause) _ h in
      let (value, _, h₂) =
        >>=-eq-ok
          (normalize_property is_safe_integer iso_of definition (get "value" clause)
            (key "value" ∷ place_of "equals"))
          _ h₁ in
      subst (IsKnown view) (ok-injective h₂) (clause_property-known "equals" clause e)

  normalize_in-IsKnown :
      (clause : Fields) {l : Leaf}
      → normalize_in is_safe_integer iso_of view clause ≡ ok l
      → IsKnown view l
  normalize_in-IsKnown clause h =
      let ((name, definition), e, h₁) =
        >>=-eq-ok (clause_property is_safe_integer iso_of view "in" clause) _ h in
      let (values, _, h₂) =
        >>=-eq-ok (in_list is_safe_integer iso_of view (get "values" clause)) _ h₁ in
      let (normalized, _, h₃) =
        >>=-eq-ok (normalize_values is_safe_integer iso_of view definition 0 values) _ h₂ in
      subst (IsKnown view) (ok-injective h₃) (clause_property-known "in" clause e)

  normalize_exists-IsKnown :
      (clause : Fields) {l : Leaf}
      → normalize_exists is_safe_integer iso_of view clause ≡ ok l
      → IsKnown view l
  normalize_exists-IsKnown clause h =
      let ((name, definition), e, h₁) =
        >>=-eq-ok (clause_property is_safe_integer iso_of view "exists" clause) _ h in
      subst (IsKnown view) (ok-injective h₁) (clause_property-known "exists" clause e)

  normalize_range-IsKnown :
      (clause : Fields) {l : Leaf}
      → normalize_range is_safe_integer iso_of view clause ≡ ok l
      → IsKnown view l
  normalize_range-IsKnown clause h =
      let ((name, definition), e, h₁) =
        >>=-eq-ok (clause_property is_safe_integer iso_of view "range" clause) _ h in
      let (_, h₂) = guard->>-eq-ok _ _ _ h₁ in
      let (gt, _, h₃) =
        >>=-eq-ok (normalize_bound is_safe_integer iso_of view definition "gt" (get "gt" clause)) _
          h₂ in
      let (gte, _, h₄) =
        >>=-eq-ok (normalize_bound is_safe_integer iso_of view definition "gte" (get "gte" clause))
          _ h₃ in
      let (lt, _, h₅) =
        >>=-eq-ok (normalize_bound is_safe_integer iso_of view definition "lt" (get "lt" clause)) _
          h₄ in
      let (lte, _, h₆) =
        >>=-eq-ok (normalize_bound is_safe_integer iso_of view definition "lte" (get "lte" clause))
          _ h₅ in
      let (_, h₇) = guard->>-eq-ok _ _ _ h₆ in
      subst (IsKnown view) (ok-injective h₇) (clause_property-known "range" clause e)

  pub normalize_leaf-IsKnown :
      (operator : String) (value : Json) {l : Leaf}
      → normalize_leaf is_safe_integer iso_of view operator value ≡ ok l
      → IsKnown view l
  unfolding normalize_leaf
  normalize_leaf-IsKnown operator value h = elim (either_branch (operator == "equals") _ _ h) [
    | inl e ↦
        let (clause, _, e₁) =
          >>=-eq-ok (clause_of is_safe_integer iso_of view "equals" value) _ e in
        normalize_equals-IsKnown clause e₁
    | inr h₁ ↦ elim (either_branch (operator == "in") _ _ h₁) [
      | inl e ↦
          let (clause, _, e₁) = >>=-eq-ok (clause_of is_safe_integer iso_of view "in" value) _ e in
          normalize_in-IsKnown clause e₁
      | inr h₂ ↦ elim (either_branch (operator == "exists") _ _ h₂) [
        | inl e ↦
            let (clause, _, e₁) =
              >>=-eq-ok (clause_of is_safe_integer iso_of view "exists" value) _ e in
            normalize_exists-IsKnown clause e₁
        | inr h₃ ↦ elim (either_branch (operator == "range") _ _ h₃) [
          | inl e ↦
              let (clause, _, e₁) =
                >>=-eq-ok (clause_of is_safe_integer iso_of view "range" value) _ e in
              normalize_range-IsKnown clause e₁
          | inr e ↦ absurd (cc e)
        ]
      ]
    ]
  ]
