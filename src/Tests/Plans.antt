-- ===== src/Tests/Plans.antt =====
-- The plan of a pipeline of three steps.
use open_data_fusion.Prelude.{
  String, String_discrete, ◌==◌, ℕ, ◌≡◌, refl, List, [], ◌∷◌, if◌then◌else◌, arith,
}
use open_data_fusion.Prelude.Result.{ok}
use open_data_fusion.Pipeline.Plan.{Step, Plan, plan_pipeline}
use open_data_fusion.Pipeline.Plan.Order.{IsPlanOf, plan_pipeline-IsPlanOf, plan_pipeline_total}

abbrev step : String → List String → Step
step id depends_on = record {
  id = id;
  name = id;
  kind = "transform";
  depends_on = depends_on;
  configuration = [];
  timeout_seconds = 60;
  max_attempts = 3;
}

abbrev steps : List Step
steps = step "load" ("clean" ∷ "read" ∷ []) ∷ step "clean" ("read" ∷ []) ∷ step "read" [] ∷ []

abbrev plan : Plan
plan = record {
  ordered = "read" ∷ "clean" ∷ "load" ∷ [];
  stages = ("read" ∷ []) ∷ ("clean" ∷ []) ∷ ("load" ∷ []) ∷ [];
}

abbrev rank : String → ℕ
rank id = if id == "read" then 0 else (if id == "clean" then 1 else 2)

planned : plan_pipeline steps ≡ ok plan
unfolding plan_pipeline String_discrete
planned = refl

plan_pipeline-IsPlanOf_example : IsPlanOf steps plan
plan_pipeline-IsPlanOf_example = plan_pipeline-IsPlanOf steps planned

plan_pipeline_total_example : (p : Plan) × (plan_pipeline steps ≡ ok p)
unfolding String_discrete
plan_pipeline_total_example =
    plan_pipeline_total rank steps (λ e. cc) (refl, (refl, (refl, tt)))
      (
        ((refl, (refl, tt)), ((refl, omega arith), ((refl, omega arith), tt))),
        (((refl, tt), ((refl, omega arith), tt)), ((tt, tt), tt)),
      )
