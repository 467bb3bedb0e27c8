-- ===== src/Pipeline/Plan.antt =====
-- The execution plan of a pipeline: `planPipeline` of packages/platform-core/src/workflow.ts.
-- A `Set` of texts is a list with the last element first, a `Map` is a list of entries.
pub mod Links
pub mod Rounds
pub mod Loop
pub mod Order
use open_data_fusion.Prelude.{
  String, ◌==◌, ℕ, zero, suc, ◌+◌, Bool, true, false, not, ◌&&◌, Option, none, some, List, [], ◌∷◌,
  ◌++◌, map, if◌then◌else◌, length, filter, contains, nat_eq,
}
use open_data_fusion.Prelude.Int.{ℤ, pos, pred, is_zero}
use open_data_fusion.Prelude.Json.{Object}
use open_data_fusion.Prelude.Maps.{insert, get_or}
use open_data_fusion.Prelude.Result.{Result, ok, err, ◌>>=◌, ◌>>◌, guard}

pub record Step : Type 0 where
  pub id : String
  pub name : String
  pub kind : String
  pub depends_on : List String
  pub configuration : Object
  pub timeout_seconds : ℕ
  pub max_attempts : ℕ

-- `WorkflowDefinitionError`, by its message.
pub data PlanError : Type 0 where
  no_steps : PlanError
  duplicated_step duplicate_dependencies self_dependency : String → PlanError
  unknown_step : (step dependency : String) → PlanError
  cycle : (blocked : List String) → PlanError

pub record Plan : Type 0 where
  pub ordered : List String
  pub stages : List (List String)

abbrev pub Checked : Type 0 → Type 0
Checked = Result PlanError

abbrev pub ids : List Step → List String
ids steps = map (λ s. s.id) steps

-- The first loop: the keys of `byId`.
unfoldable pub index_steps : List String → List Step → Checked (Unit {0})
index_steps seen [] = ok tt
index_steps seen (s ∷ steps) = do
  guard (not (contains seen s.id)) (duplicated_step s.id)
  index_steps (s.id ∷ seen) steps

-- `new Set(xs).size === xs.length`
unfoldable pub unique : List String → List String → Bool
unique seen [] = true
unique seen (x ∷ xs) = not (contains seen x) && unique (x ∷ seen) xs

abbrev pub Dependents : Type 0
Dependents = List (String × List String)

abbrev pub Counts : Type 0
Counts = List (String × ℤ)

-- The loop over the dependencies of one step.
unfoldable pub link_dependencies :
    (known : List String) → String → List String → Dependents → Checked Dependents
link_dependencies known step [] dependents = ok dependents
link_dependencies known step (d ∷ ds) dependents = do
  guard (not (d == step)) (self_dependency step)
  guard (contains known d) (unknown_step step d)
  link_dependencies known step ds (insert d (get_or d dependents [] ++ step ∷ []) dependents)

-- The second loop: `dependents` and `remainingDependencies`.
unfoldable pub link_steps :
    (known : List String) → List Step → Dependents → Counts → Checked (Dependents × Counts)
unfolding unique link_dependencies
link_steps known [] dependents counts = ok (dependents, counts)
link_steps known (s ∷ steps) dependents counts = do
  guard (unique [] s.depends_on) (duplicate_dependencies s.id)
  dependents' ← link_dependencies known s.id s.depends_on dependents
  link_steps known steps dependents' (insert s.id (pos (length s.depends_on)) counts)

-- The inner loop of a round: one completed step releases its dependents.
unfoldable pub release : List String → Counts → List String → Counts × List String
release [] counts next_ready = (counts, next_ready)
release (t ∷ ts) counts next_ready =
    let next_count = pred (get_or t counts (pos 0)) in
    release ts (insert t next_count counts)
      (if is_zero next_count then t ∷ next_ready else next_ready)

-- The outer loop of a round, over the stage.
unfoldable pub complete : Dependents → List String → Counts → List String → Counts × List String
unfolding release
complete dependents [] counts next_ready = (counts, next_ready)
complete dependents (c ∷ stage) counts next_ready =
    let (counts', next_ready') = release (get_or c dependents []) counts next_ready in
    complete dependents stage counts' next_ready'

-- The steps in `nextReady`, in the order of the definition.
abbrev pub select : List Step → List String → List String
select steps next_ready = ids (filter (λ s. contains next_ready s.id) steps)

abbrev pub is_nil : List String → Bool
is_nil [] = true
is_nil (_ ∷ _) = false

-- The `while` loop, with fuel. Without fuel left it stops as if nothing were ready.
unfoldable pub rounds : List Step → Dependents → ℕ → (ready : List String) → Counts → Plan → Plan
unfolding complete
rounds steps dependents zero ready counts plan = plan
rounds steps dependents (suc fuel) ready counts plan =
    let (counts', next_ready) = complete dependents ready counts [] in
    let rest =
      rounds steps dependents fuel (select steps next_ready) counts'
        (record { ordered = plan.ordered ++ ready; stages = plan.stages ++ ready ∷ [] }) in
    if is_nil ready then plan else rest

-- The check behind the loop.
unfoldable pub finish : List Step → Plan → Checked Plan
finish steps plan = do
  guard (nat_eq (length plan.ordered) (length steps))
      (cycle (ids (filter (λ s. not (contains plan.ordered s.id)) steps)))
  ok plan

-- One round more than there are steps: each round before the last places a step.
unfoldable pub plan_pipeline : List Step → Checked Plan
unfolding index_steps link_steps rounds finish
plan_pipeline steps = do
  guard (not (is_nil (ids steps))) no_steps
  index_steps [] steps
  (dependents, counts) ← link_steps (ids steps) steps [] []
  let ready = ids (filter (λ s. is_zero (get_or s.id counts (pos 1))) steps)
  finish steps (
      rounds steps dependents (suc (length steps)) ready counts
        (record { ordered = []; stages = [] }))
