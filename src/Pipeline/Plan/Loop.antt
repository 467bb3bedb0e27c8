-- ===== src/Pipeline/Plan/Loop.antt =====
-- The `while` loop of the plan: its invariant, and that it ends with nothing left ready.
use mathlib.Core.List.{append_assoc, append-nil, flatten}
use open_data_fusion.Prelude.{
  String, ℕ, zero, suc, ◌+◌, ◌<◌, ◌≡◌, refl, sym, ◌∙◌, ap, Bool, true, not, ◌&&◌, List, [], ◌∷◌,
  ◌++◌, arith, length, length-append, filter, contains, contains-append, Distinct, nat_eq,
}
use open_data_fusion.Prelude.Int.{pos, is_zero}
use open_data_fusion.Prelude.Maps.{get_or}
use open_data_fusion.Pipeline.Plan.{Step, ids, Plan, Dependents, Counts, complete, select, rounds}
use open_data_fusion.Pipeline.Plan.Links.{deps_of, IsLinked}
use open_data_fusion.Pipeline.Plan.Rounds.{
  missing, missing-nil, contains_of_missing, waits, Mid, Mid-complete,
}

contains-filter :
    (p : String → Bool) (steps : List Step) (t : String)
    → contains (ids (filter (λ s. p s.id) steps)) t ≡ (contains (ids steps) t && p t)
contains-filter p [] t = refl
contains-filter p (s ∷ steps) t = ground (arith, contains-filter p steps t)

Distinct-filter :
    (p : String → Bool) (steps : List Step)
    → Distinct (ids steps)
    → Distinct (ids (filter (λ s. p s.id) steps))
Distinct-filter p [] u = tt
Distinct-filter p (s ∷ steps) (new, u) =
    ground (arith, contains-filter p steps s.id, Distinct-filter p steps u)

-- Every step of a stage depends on steps of the stages before it alone.
abbrev pub IsStaged : List Step → List String → List (List String) → Type 0
IsStaged steps before [] = Unit
IsStaged steps before (stage ∷ stages) =
    ((t d : String)
      → contains stage t ≡ true
      → contains (deps_of steps t) d ≡ true
      → contains before d ≡ true)
    × IsStaged steps (before ++ stage) stages

IsStaged-snoc :
    (steps : List Step) (before : List String) (stages : List (List String)) (stage : List String)
    → IsStaged steps before stages
    → ((t d : String)
        → contains stage t ≡ true
        → contains (deps_of steps t) d ≡ true
        → contains (before ++ flatten stages) d ≡ true)
    → IsStaged steps before (stages ++ stage ∷ [])
unfolding flatten
IsStaged-snoc steps before [] stage s h = ((λ t d m k. rw append-nil at (h t d m k)), tt)
IsStaged-snoc steps before (first ∷ stages) stage s h = (
  s.0,
  IsStaged-snoc steps (before ++ first) stages stage s.1 (λ t d m k. rw append_assoc (h t d m k)),
)

flatten-snoc :
    (stages : List (List String)) (stage : List String)
    → flatten (stages ++ stage ∷ []) ≡ flatten stages ++ stage
unfolding flatten
flatten-snoc [] stage = append-nil stage
flatten-snoc (first ∷ stages) stage =
    ap (λ l. first ++ l) (flatten-snoc stages stage)
    ∙ sym (append_assoc first (flatten stages) stage)

module _ (steps : List Step) (dependents : Dependents) (counts₀ : Counts)
    (linked : IsLinked steps dependents counts₀) where
  -- Between two rounds: the counters are right, what is placed has its dependencies placed, and what
  -- is ready is all that can be placed next.
  pub record Inv (plan : Plan) (ready : List String) (counts : Counts) : Type 0 where
    pub counted :
        (t : String)
        → contains (ids steps) t ≡ true
        → get_or t counts (pos 0) ≡ pos (waits steps dependents counts₀ linked plan.ordered t)
    pub ready_iff :
        (t : String)
        → contains ready t ≡ (
            contains (ids steps) t
            && not (contains plan.ordered t)
            && nat_eq (waits steps dependents counts₀ linked plan.ordered t) 0)
    pub ready_distinct : Distinct ready
    pub closed :
        (t : String)
        → contains plan.ordered t ≡ true
        → (contains (ids steps) t ≡ true)
          × (waits steps dependents counts₀ linked plan.ordered t ≡ 0)
    pub distinct : Distinct plan.ordered
    pub total : length plan.ordered + missing plan.ordered (ids steps) ≡ length (ids steps)
    pub staged : IsStaged steps [] plan.stages
    pub flat : plan.ordered ≡ flatten plan.stages

  abbrev placed : Plan → List String → Plan
  placed plan ready = record { ordered = plan.ordered ++ ready; stages = plan.stages ++ ready ∷ [] }

  Inv-complete :
      (plan : Plan) (ready : List String) (counts : Counts)
      → Inv plan ready counts
      → let r = complete dependents ready counts [] in
        Inv (placed plan ready) (select steps r.1) r.0
  Inv-complete plan ready counts v =
      let r = complete dependents ready counts [] in
      let m : Mid steps dependents counts₀ linked plan.ordered (plan.ordered ++ ready) r.0 r.1 =
        Mid-complete steps dependents counts₀ linked plan.ordered plan.ordered ready counts []
          v.ready_distinct (λ t k. ground (arith, v.ready_iff t))
          (record {
            counted = v.counted;
            fewer = λ t. omega arith;
            released = λ t k. ground arith;
            distinct = v.distinct;
            total = v.total;
          }) in
      record {
        counted = m.counted;
        ready_iff = λ t. ground (
          arith,
          contains-filter (λ s. contains r.1 s) steps t,
          m.released t,
          m.fewer t,
          v.ready_iff t,
          v.closed t,
          contains-append plan.ordered ready t,
        );
        ready_distinct = Distinct-filter (λ s. contains r.1 s) steps linked.distinct;
        closed = λ t k.
            ground
              (arith, m.fewer t, v.ready_iff t, v.closed t, contains-append plan.ordered ready t);
        distinct = m.distinct;
        total = m.total;
        staged = IsStaged-snoc steps [] plan.stages ready v.staged (λ t d k j. rw (← v.flat) (
            contains_of_missing plan.ordered (deps_of steps t) d (ground (arith, v.ready_iff t))
              j));
        flat = rw flatten-snoc (ap (λ l. l ++ ready) v.flat);
      }

  -- With a round for each step that is not placed, the loop ends with nothing ready.
  pub rounds-Inv :
      (fuel : ℕ) (plan : Plan) (ready : List String) (counts : Counts)
      → Inv plan ready counts
      → missing plan.ordered (ids steps) < fuel
      → (counts' : Counts) × Inv (rounds steps dependents fuel ready counts plan) [] counts'
  unfolding rounds
  rounds-Inv zero plan ready counts v enough = elim enough [ ]
  rounds-Inv (suc fuel) plan [] counts v enough = (counts, v)
  rounds-Inv (suc fuel) plan (t ∷ ready) counts v enough =
      let r = complete dependents (t ∷ ready) counts [] in
      let next = Inv-complete plan (t ∷ ready) counts v in
      rounds-Inv fuel (placed plan (t ∷ ready)) (select steps r.1) r.0 next
        (omega (arith, next.total, v.total, length-append plan.ordered (t ∷ ready)))

  pub start-Inv :
      Inv
        (record { ordered = []; stages = [] })
        (ids (filter (λ s. is_zero (get_or s.id counts₀ (pos 1))) steps))
        counts₀
  unfolding flatten
  start-Inv = record {
    counted = λ t k. linked.counted t (pos 0) k ∙ ap pos (sym (missing-nil (deps_of steps t)));
    ready_iff = λ t. ground (
      arith,
      contains-filter (λ s. is_zero (get_or s counts₀ (pos 1))) steps t,
      linked.counted t (pos 1),
      missing-nil (deps_of steps t),
    );
    ready_distinct =
        Distinct-filter (λ s. is_zero (get_or s counts₀ (pos 1))) steps linked.distinct;
    closed = λ t k. cc;
    distinct = tt;
    total = omega (arith, missing-nil (ids steps));
    staged = tt;
    flat = refl;
  }
