-- ===== src/Models/Filter/Bounds.antt =====
-- The depth and the leaves of a filter that is let through.
use open_data_fusion.Prelude.{
  String, ◌==◌, ℕ, zero, suc, ◌+◌, ◌≤◌, max, ◌≡◌, refl, subst, Bool, Option, some, List, [], ◌∷◌,
  ◌++◌, arith, All, All-append, inl, inr, leb, length, length-append,
}
use open_data_fusion.Prelude.Json.{Json, Number, null, bool, num, str, obj, arr}
use open_data_fusion.Prelude.Result.{Result, ok, >>=-eq-ok, guard->>-eq-ok, ok-injective}
use open_data_fusion.Models.Names.{Issue, key, items, require_record}
use open_data_fusion.Models.View.{View}
use open_data_fusion.Models.Filter.{
  Leaf, Filter, Filters, all_of, any_of, negated, leaf, no_more, also, single, normalize_children,
  normalize_group, normalize_leaf, count_leaf, normalize_operator, normalize_filter,
}
use open_data_fusion.Models.Filter.Known.{IsKnown, either_branch, normalize_leaf-IsKnown}

abbrev mutual
  pub depth : Filter → ℕ
  depth (all_of filters) = suc (depth_all filters)
  depth (any_of filters) = suc (depth_all filters)
  depth (negated filter) = suc (depth filter)
  depth (leaf clause) = 1

  pub depth_all : Filters → ℕ
  depth_all no_more = 0
  depth_all (also filter filters) = max (depth filter) (depth_all filters)

abbrev mutual
  pub leaves : Filter → List Leaf
  leaves (all_of filters) = leaves_all filters
  leaves (any_of filters) = leaves_all filters
  leaves (negated filter) = leaves filter
  leaves (leaf clause) = clause ∷ []

  pub leaves_all : Filters → List Leaf
  leaves_all no_more = []
  leaves_all (also filter filters) = leaves filter ++ leaves_all filters

module _ (is_safe_integer : Number → Bool) (iso_of : String → Option String) (view : View) where
  -- Within the levels; the leaves are counted on, up to 20, and each is of a known property.
  abbrev pub IsWithin : (levels used : ℕ) → Filter × ℕ → Type 0
  IsWithin levels used (filter, now) =
      (depth filter ≤ levels)
      × (now ≡ used + length (leaves filter))
      × (used ≤ 20 → now ≤ 20)
      × All (IsKnown view) (leaves filter)

  abbrev AllWithin : (levels used : ℕ) → Filters × ℕ → Type 0
  AllWithin levels used (filters, now) =
      (depth_all filters ≤ levels)
      × (now ≡ used + length (leaves_all filters))
      × (used ≤ 20 → now ≤ 20)
      × All (IsKnown view) (leaves_all filters)

  normalize_children-AllWithin :
      (levels : ℕ) (inner : Json → ℕ → Result Issue (Filter × ℕ))
      → ((value : Json) (used : ℕ) (r : Filter × ℕ)
          → inner value used ≡ ok r
          → IsWithin levels used r)
      → (children : List Json) (used : ℕ) {r : Filters × ℕ}
      → normalize_children inner children used ≡ ok r
      → AllWithin levels used r
  unfolding normalize_children
  normalize_children-AllWithin levels inner each [] used h =
      subst (AllWithin levels used) (ok-injective h) (ground arith, ground arith, λ few. few, tt)
  normalize_children-AllWithin levels inner each (child ∷ children) used h =
      let ((first, now), one, h₁) = >>=-eq-ok (inner child used) _ h in
      let ((rest, all), others, h₂) = >>=-eq-ok (normalize_children inner children now) _ h₁ in
      let (deep, counted, few, known) = each child used (first, now) one in
      let (deep', counted', few', known') =
        normalize_children-AllWithin levels inner each children now others in
      subst (AllWithin levels used) (ok-injective h₂) (
        ground arith,
        rw (length-append (leaves first) (leaves_all rest)) (ground arith),
        λ b. few' (few b),
        All-append (IsKnown view) (leaves first) (leaves_all rest) known known',
      )

  normalize_group-IsWithin :
      (group : Filters → Filter) (levels : ℕ) (inner : Json → ℕ → Result Issue (Filter × ℕ))
      → ((value : Json) (used : ℕ) (r : Filter × ℕ)
          → inner value used ≡ ok r
          → IsWithin levels used r)
      → ((filters : Filters)
          → (depth (group filters) ≡ suc (depth_all filters))
            × (leaves (group filters) ≡ leaves_all filters))
      → (operator : String) (value : Json) (used : ℕ) {r : Filter × ℕ}
      → normalize_group group inner operator value used ≡ ok r
      → IsWithin (suc levels) used r
  normalize_group-IsWithin group levels inner each shape operator (arr children) used h =
      let (_, h₁) = guard->>-eq-ok (leb 1 (length (items children))) _ _ h in
      let ((filters, now), e, h₂) =
        >>=-eq-ok (normalize_children inner (items children) used) _ h₁ in
      let (deep, counted, few, known) =
        normalize_children-AllWithin levels inner each (items children) used e in
      let (taller, same) = shape filters in
      subst (IsWithin (suc levels) used) (ok-injective h₂)
        (rw taller (ground arith), rw same counted, few, rw same known)
  normalize_group-IsWithin group levels inner each shape operator null used h = cc
  normalize_group-IsWithin group levels inner each shape operator (bool b) used h = cc
  normalize_group-IsWithin group levels inner each shape operator (num n) used h = cc
  normalize_group-IsWithin group levels inner each shape operator (str t) used h = cc
  normalize_group-IsWithin group levels inner each shape operator (obj fields) used h = cc

  count_leaf-IsWithin :
      (levels : ℕ) (operator : String) (value : Json) (used : ℕ) {r : Filter × ℕ}
      → count_leaf is_safe_integer iso_of view operator value used ≡ ok r
      → IsWithin (suc levels) used r
  count_leaf-IsWithin levels operator value used h =
      let (few, h₁) = guard->>-eq-ok (leb (used + 1) 20) _ _ h in
      let (clause, e, h₂) =
        >>=-eq-ok (normalize_leaf is_safe_integer iso_of view operator value) _ h₁ in
      subst (IsWithin (suc levels) used) (ok-injective h₂) (
        ground arith,
        refl,
        λ b. ground arith,
        (normalize_leaf-IsKnown is_safe_integer iso_of view operator value e, tt),
      )

  normalize_operator-IsWithin :
      (levels : ℕ) (inner : Json → ℕ → Result Issue (Filter × ℕ))
      → ((value : Json) (used : ℕ) (r : Filter × ℕ)
          → inner value used ≡ ok r
          → IsWithin levels used r)
      → (operator : String) (value : Json) (used : ℕ) {r : Filter × ℕ}
      → normalize_operator is_safe_integer iso_of view inner operator value used ≡ ok r
      → IsWithin (suc levels) used r
  normalize_operator-IsWithin levels inner each operator value used h =
      elim (either_branch (operator == "and") _ _ h) [
        | inl e ↦
            normalize_group-IsWithin all_of levels inner each (λ filters. (refl, refl)) operator
              value used e
        | inr h₁ ↦ elim (either_branch (operator == "or") _ _ h₁) [
          | inl e ↦
              normalize_group-IsWithin any_of levels inner each (λ filters. (refl, refl)) operator
                value used e
          | inr h₂ ↦ elim (either_branch (operator == "not") _ _ h₂) [
            | inl e ↦
                let ((filter, now), one, e₁) = >>=-eq-ok (inner value used) _ e in
                let (deep, counted, few, known) = each value used (filter, now) one in
                subst (IsWithin (suc levels) used) (ok-injective e₁)
                  (ground arith, counted, few, known)
            | inr e ↦ count_leaf-IsWithin levels operator value used e
          ]
        ]
      ]

  normalize_filter-IsWithin :
      (levels : ℕ) (input : Json) (used : ℕ) (r : Filter × ℕ)
      → normalize_filter is_safe_integer iso_of view levels input used ≡ ok r
      → IsWithin levels used r
  unfolding normalize_filter
  normalize_filter-IsWithin zero input used r h = cc
  normalize_filter-IsWithin (suc levels) input used r h =
      let (fields, _, h₁) =
        >>=-eq-ok (require_record (key "filter" ∷ []) "Expected a filter object" (some input)) _
          h in
      let ((operator, value), _, h₂) = >>=-eq-ok (single fields) _ h₁ in
      normalize_operator-IsWithin levels (normalize_filter is_safe_integer iso_of view levels)
        (normalize_filter-IsWithin levels) operator value used h₂

  -- A filter that is let through at depth 1 with a fresh budget has a depth of at most 5 and at most
  -- 20 leaves, which the budget counts, and each leaf is of a property that the view defines or that
  -- is called like a member which every object inherits.
  pub normalize_filter-bounds :
      (input : Json) {filter : Filter} {used : ℕ}
      → normalize_filter is_safe_integer iso_of view 5 input 0 ≡ ok (filter, used)
      → (depth filter ≤ 5)
        × (used ≡ length (leaves filter))
        × (length (leaves filter) ≤ 20)
        × All (IsKnown view) (leaves filter)
  normalize_filter-bounds input h =
      let (deep, counted, few, known) = normalize_filter-IsWithin 5 input 0 _ h in
      let most = few (ground arith) in (deep, ground arith, ground arith, known)
