-- ===== src/Pipeline/Plan/Order.antt =====
-- What a plan is, and when there is one.
use open_data_fusion.Prelude.{
  String, String_discrete, ◌==◌, All, ℕ, zero, suc, ◌<◌, ◌≡◌, ◌≢◌, refl, true, false, not, inl, inr,
  List, [], ◌∷◌, ◌++◌, arith, length, filter, contains, Distinct, Bool-cases, nat_eq,
}
use mathlib.Core.List.{flatten}
use open_data_fusion.Prelude.Int.{pos, is_zero}
use open_data_fusion.Prelude.Maps.{insert, get_or}
use open_data_fusion.Prelude.Sets.{Fresh, Distinct→Fresh, All_of_contains}
use open_data_fusion.Prelude.Result.{ok, guard, >>=-eq-ok, guard-eq-ok}
use open_data_fusion.Pipeline.Plan.{
  Step, ids, Plan, Dependents, Counts, index_steps, link_steps, rounds, finish, is_nil, unique,
  link_dependencies, plan_pipeline,
}
use open_data_fusion.Pipeline.Plan.Links.{deps_of, IsLinked, link_steps-IsLinked}
use open_data_fusion.Pipeline.Plan.Rounds.{missing, missing_of_all, contains_of_missing}
use open_data_fusion.Pipeline.Plan.Loop.{IsStaged, Inv, rounds-Inv, start-Inv}

-- The stages hold each step once, behind all that it depends on, and the order is that of the stages.
pub record IsPlanOf (steps : List Step) (plan : Plan) : Type 0 where
  pub staged : IsStaged steps [] plan.stages
  pub flat : plan.ordered ≡ flatten plan.stages
  pub once : Distinct plan.ordered
  pub all_placed : (t : String) → contains plan.ordered t ≡ contains (ids steps) t

-- The loop, as `plan_pipeline` starts it.
abbrev final : List Step → Dependents → Counts → Plan
final steps dependents counts =
    rounds steps dependents (suc (length steps))
      (ids (filter (λ s. is_zero (get_or s.id counts (pos 1))) steps)) counts
      (record { ordered = []; stages = [] })

length-ids : (steps : List Step) → length (ids steps) ≡ length steps
length-ids [] = refl
length-ids (s ∷ steps) = omega (arith, length-ids steps)

module _ (steps : List Step) (dependents : Dependents) (counts : Counts)
    (linked : IsLinked steps dependents counts) where
  final-Inv :
      (counts' : Counts) × Inv steps dependents counts linked
        (final steps dependents counts)
        []
        counts'
  final-Inv =
      let start = start-Inv steps dependents counts linked in
      rounds-Inv steps dependents counts linked (suc (length steps)) _ _ counts start
        (omega (arith, start.total, length-ids steps))

  complete-IsPlanOf :
      length (final steps dependents counts).ordered ≡ length steps
      → IsPlanOf steps (final steps dependents counts)
  complete-IsPlanOf full =
      let v = final-Inv.1 in
      record {
        staged = v.staged;
        flat = v.flat;
        once = v.distinct;
        all_placed = λ t. ground (
          arith,
          v.closed t,
          contains_of_missing (final steps dependents counts).ordered (ids steps) t
              (omega (arith, v.total, length-ids steps)),
        );
      }

  -- With ranks that fall along the dependencies nothing is left out.
  all_ranked :
      (rank : String → ℕ)
      → ((t d : String)
          → contains (ids steps) t ≡ true
          → contains (deps_of steps t) d ≡ true
          → rank d < rank t)
      → (n : ℕ) (t : String) → rank t < n
      → contains (ids steps) t ≡ true
      → contains (final steps dependents counts).ordered t ≡ true
  all_ranked rank falls zero t below k = elim below [ ]
  all_ranked rank falls (suc n) t below k =
      let v = final-Inv.1 in
      let done = (final steps dependents counts).ordered in
      elim (Bool-cases (contains done t)) [
        | inl placed ↦ placed
        | inr absent ↦ absurd (
            omega (
              arith,
              missing_of_all done (deps_of steps t) (λ d m.
                  all_ranked rank falls n d (omega (arith, falls t d k m))
                    (linked.deps_known t d m)),
              not_ready v t k absent,
            ))
      ]
    where
      not_ready :
          (v : Inv steps dependents counts linked (final steps dependents counts) [] final-Inv.0)
          (t : String)
          → contains (ids steps) t ≡ true
          → contains (final steps dependents counts).ordered t ≡ false
          → missing (final steps dependents counts).ordered (deps_of steps t) ≢ 0
      not_ready v t k absent e = ground (arith, v.ready_iff t)

  all_placed-length :
      ((t : String)
        → contains (ids steps) t ≡ true
        → contains (final steps dependents counts).ordered t ≡ true)
      → length (final steps dependents counts).ordered ≡ length steps
  all_placed-length h = omega (
    arith,
    final-Inv.1.total,
    missing_of_all (final steps dependents counts).ordered (ids steps) h,
    length-ids steps,
  )

-- The part of `plan_pipeline` behind the two loops.
finish-IsPlanOf :
    (steps : List Step) (dependents : Dependents) (counts : Counts) {plan : Plan}
    → IsLinked steps dependents counts
    → finish steps (final steps dependents counts) ≡ ok plan
    → IsPlanOf steps plan
unfolding finish
finish-IsPlanOf steps dependents counts {plan} linked h =
    let made = final steps dependents counts in
    let (_, full, same) = >>=-eq-ok (guard (nat_eq (length made.ordered) (length steps)) _) _ h in
    let same' : made ≡ plan = cc in
    rw (← same') (
      complete-IsPlanOf steps dependents counts linked
        (nat_eq→eq _ _ (guard-eq-ok (nat_eq (length made.ordered) (length steps)) _ full)))
  where
    nat_eq→eq : (a b : ℕ) → nat_eq a b ≡ true → a ≡ b
    nat_eq→eq a b e = ground arith

-- A plan that is returned places every step of the definition once, in stages of which each
-- stands behind all that its steps depend on, and its order is that of the stages.
pub plan_pipeline-IsPlanOf :
    (steps : List Step) {plan : Plan} → plan_pipeline steps ≡ ok plan → IsPlanOf steps plan
unfolding plan_pipeline
plan_pipeline-IsPlanOf steps {plan} h =
    let (_, _, h₁) = >>=-eq-ok (guard (not (is_nil (ids steps))) _) _ h in
    let (_, indexed, h₂) = >>=-eq-ok (index_steps [] steps) _ h₁ in
    let (maps, linked, h₃) = >>=-eq-ok (link_steps (ids steps) steps [] []) _ h₂ in
    finish-IsPlanOf steps maps.0 maps.1 (link_steps-IsLinked steps maps.0 maps.1 indexed linked) h₃

-- What the definition of a step has to be: it depends on steps of the definition with lower ranks,
-- on each once.
abbrev pub IsRanked : (rank : String → ℕ) → List String → Step → Type 0
IsRanked rank known s =
    Distinct s.depends_on × All (λ d. (contains known d ≡ true) × (rank d < rank s.id)) s.depends_on

Fresh-index_steps :
    (seen : List String) (steps : List Step)
    → Fresh seen (ids steps)
    → index_steps seen steps ≡ ok tt
unfolding index_steps
Fresh-index_steps seen [] f = refl
Fresh-index_steps seen (s ∷ steps) (new, f) = rw new (Fresh-index_steps (s.id ∷ seen) steps f)

Fresh-unique : (seen xs : List String) → Fresh seen xs → unique seen xs ≡ true
unfolding unique
Fresh-unique seen [] f = refl
Fresh-unique seen (x ∷ xs) (new, f) = rw new (Fresh-unique (x ∷ seen) xs f)

module _ (rank : String → ℕ) (known : List String) where
  link_dependencies_ok :
      (step : String) (ds : List String) (dependents : Dependents)
      → All (λ d. (contains known d ≡ true) × (rank d < rank step)) ds
      → (dependents' : Dependents) × (link_dependencies known step ds dependents ≡ ok dependents')
  unfolding link_dependencies
  link_dependencies_ok step [] dependents h = (dependents, refl)
  link_dependencies_ok step (d ∷ ds) dependents ((k, below), h) =
      let (dependents', e) =
        link_dependencies_ok step ds (insert d (get_or d dependents [] ++ step ∷ []) dependents)
          h in
      (dependents', rw (other d step below, k) e)
    where
      other : (d step : String) → rank d < rank step → (d == step) ≡ false
      other d step below = ground arith

  link_steps_ok :
      (steps : List Step) (dependents : Dependents) (counts : Counts)
      → All (IsRanked rank known) steps
      → (maps : Dependents × Counts) × (link_steps known steps dependents counts ≡ ok maps)
  unfolding link_steps
  link_steps_ok [] dependents counts h = ((dependents, counts), refl)
  link_steps_ok (s ∷ steps) dependents counts ((u, r), h) =
      let (dependents', e) = link_dependencies_ok s.id s.depends_on dependents r in
      let (maps, e') =
        link_steps_ok steps dependents' (insert s.id (pos (length s.depends_on)) counts) h in
      (maps, rw (Fresh-unique [] s.depends_on (Distinct→Fresh _ u), e) e')

  falls-deps_of :
      (steps : List Step) (t d : String)
      → All (IsRanked rank known) steps
      → contains (deps_of steps t) d ≡ true
      → rank d < rank t
  falls-deps_of [] t d h m = cc
  falls-deps_of (s ∷ steps) t d ((u, r), h) m = elim (String_discrete s.id t) [
    | yes same ↦
        rw (← same)
          (All_of_contains (λ d. (contains known d ≡ true) × (rank d < rank s.id)) s.depends_on d r
            (ground arith)).1
    | no other ↦ falls-deps_of steps t d h (ground arith)
  ]

-- A definition that has a step, whose ids are distinct, and whose dependencies are known, distinct
-- and without a cycle (they fall in some rank), has a plan.
pub plan_pipeline_total :
    (rank : String → ℕ) (steps : List Step)
    → steps ≢ []
    → Distinct (ids steps)
    → All (IsRanked rank (ids steps)) steps
    → (plan : Plan) × (plan_pipeline steps ≡ ok plan)
unfolding plan_pipeline finish
plan_pipeline_total rank steps some_step u ranked =
    let indexed = Fresh-index_steps [] steps (Distinct→Fresh (ids steps) u) in
    let (maps, linked) = link_steps_ok rank (ids steps) steps [] [] ranked in
    let l = link_steps-IsLinked steps maps.0 maps.1 indexed linked in
    let full = all_placed-length steps maps.0 maps.1 l (λ t k.
      all_ranked steps maps.0 maps.1 l rank
        (λ t d _ m. falls-deps_of rank (ids steps) steps t d ranked m) (suc (rank t)) t
        (omega arith) k) in
    (
      final steps maps.0 maps.1,
      rw (not_empty steps some_step, indexed, linked, full) (ground arith),
    )
  where
    not_empty : (steps : List Step) → steps ≢ [] → is_nil (ids steps) ≡ false
    not_empty [] h = absurd (h refl)
    not_empty (s ∷ steps) h = refl
