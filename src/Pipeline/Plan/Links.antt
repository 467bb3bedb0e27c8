-- ===== src/Pipeline/Plan/Links.antt =====
-- What the two loops over the definition establish.
use open_data_fusion.Prelude.{
  String, ◌==◌, ◌≡◌, refl, Bool, true, false, ◌&&◌, ◌||◌, inl, inr, List, [], ◌∷◌, ◌++◌, arith,
  if◌then◌else◌, length, contains, contains-append, ==_refl, Distinct, Bool-cases,
}
use open_data_fusion.Prelude.Int.{ℤ, pos}
use open_data_fusion.Prelude.Maps.{insert, get_or, get_or-insert}
use open_data_fusion.Prelude.Sets.{Fresh, Fresh→Distinct, Distinct-snoc}
use open_data_fusion.Prelude.Result.{ok, guard, >>=-eq-ok, guard-eq-ok}
use open_data_fusion.Pipeline.Plan.{
  Step, ids, index_steps, unique, Dependents, Counts, link_dependencies, link_steps,
}

-- The dependencies of the step with the given id.
abbrev pub deps_of : List Step → String → List String
deps_of [] t = []
deps_of (s ∷ steps) t = if s.id == t then s.depends_on else deps_of steps t

index_steps-Fresh :
    (seen : List String) (steps : List Step)
    → index_steps seen steps ≡ ok tt
    → Fresh seen (ids steps)
unfolding index_steps
index_steps-Fresh seen [] h = tt
index_steps-Fresh seen (s ∷ steps) h =
    (ground arith, index_steps-Fresh (s.id ∷ seen) steps (ground arith))

pub index_steps-Distinct : (steps : List Step) → index_steps [] steps ≡ ok tt → Distinct (ids steps)
index_steps-Distinct steps h = Fresh→Distinct (ids steps) (index_steps-Fresh [] steps h)

unique-Fresh : (seen xs : List String) → unique seen xs ≡ true → Fresh seen xs
unfolding unique
unique-Fresh seen [] h = tt
unique-Fresh seen (x ∷ xs) h = (ground arith, unique-Fresh (x ∷ seen) xs (ground arith))

unique-Distinct : (xs : List String) → unique [] xs ≡ true → Distinct xs
unique-Distinct xs h = Fresh→Distinct xs (unique-Fresh [] xs h)

module _ (known : List String) (step : String) where
  link_dependencies-get_or :
      (ds : List String) (before after : Dependents) (c : String)
      → Distinct ds
      → link_dependencies known step ds before ≡ ok after
      → get_or c after []
        ≡ (if contains ds c then get_or c before [] ++ step ∷ [] else get_or c before [])
  unfolding link_dependencies
  link_dependencies-get_or [] before after c u h = ground arith
  link_dependencies-get_or (d ∷ ds) before after c (new, u) h =
      let middle = insert d (get_or d before [] ++ step ∷ []) before in
      ground (
        arith,
        link_dependencies-get_or ds middle after c u,
        get_or-insert d c (get_or d before [] ++ step ∷ []) [] before,
      )

  link_dependencies-known :
      (ds : List String) (before after : Dependents) (d : String)
      → link_dependencies known step ds before ≡ ok after
      → contains ds d ≡ true
      → (contains known d ≡ true) × ((d == step) ≡ false)
  unfolding link_dependencies
  link_dependencies-known [] before after d h m = cc
  link_dependencies-known (e ∷ ds) before after d h m =
      let middle = insert e (get_or e before [] ++ step ∷ []) before in
      ground (arith, link_dependencies-known ds middle after d)

-- One step of `link_steps`, taken apart.
link_steps-cons :
    (known : List String) (s : Step) (steps : List Step) (before after : Dependents)
    (counts counts' : Counts)
    → link_steps known (s ∷ steps) before counts ≡ ok (after, counts')
    → (middle : Dependents) × Distinct s.depends_on
      × (link_dependencies known s.id s.depends_on before ≡ ok middle)
      × (link_steps known steps middle (insert s.id (pos (length s.depends_on)) counts)
          ≡ ok (after, counts'))
unfolding link_steps
link_steps-cons known s steps before after counts counts' h =
    let (_, passed, rest) = >>=-eq-ok (guard (unique [] s.depends_on) _) _ h in
    let (middle, linked, more) =
      >>=-eq-ok (link_dependencies known s.id s.depends_on before) _ rest in
    (
      middle,
      unique-Distinct s.depends_on (guard-eq-ok (unique [] s.depends_on) _ passed),
      linked,
      more,
    )

Distinct-if :
    (b : Bool) (xs ys : List String) → Distinct xs → Distinct ys → Distinct (if b then xs else ys)
Distinct-if true xs ys h k = h
Distinct-if false xs ys h k = k

module _ (known : List String) where
  -- The dependents of `c`: those from before, and the steps that depend on it.
  contains-link_steps :
      (steps : List Step) (before after : Dependents) (counts counts' : Counts) (c t : String)
      → Distinct (ids steps)
      → link_steps known steps before counts ≡ ok (after, counts')
      → contains (get_or c after []) t ≡ (
          contains (get_or c before []) t || contains (ids steps) t && contains (deps_of steps t) c)
  unfolding link_steps
  contains-link_steps [] before after counts counts' c t u h = ground arith
  contains-link_steps (s ∷ steps) before after counts counts' c t (new, u) h =
      let (middle, distinct, linked, more) =
        link_steps-cons known s steps before after counts counts' h in
      let next = insert s.id (pos (length s.depends_on)) counts in
      ground (
        arith,
        contains-link_steps steps middle after next counts' c t u more,
        link_dependencies-get_or known s.id s.depends_on before middle c distinct linked,
        contains-append (get_or c before []) (s.id ∷ []) t,
      )

  Distinct-link_steps :
      (steps : List Step) (before after : Dependents) (counts counts' : Counts) (c : String)
      → Distinct (ids steps)
      → Distinct (get_or c before [])
      → ((t : String) → contains (ids steps) t ≡ true → contains (get_or c before []) t ≡ false)
      → link_steps known steps before counts ≡ ok (after, counts')
      → Distinct (get_or c after [])
  unfolding link_steps
  Distinct-link_steps [] before after counts counts' c u d f h =
      let same : before ≡ after = cc in rw (← same) d
  Distinct-link_steps (s ∷ steps) before after counts counts' c (new, u) d f h =
      let (middle, distinct, linked, more) =
        link_steps-cons known s steps before after counts counts' h in
      let e = link_dependencies-get_or known s.id s.depends_on before middle c distinct linked in
      elim (Bool-cases (contains s.depends_on c)) [
        | inl yes_c ↦
            let e' : get_or c middle [] ≡ get_or c before [] ++ s.id ∷ [] = rw yes_c at e in
            Distinct-link_steps steps middle after _ counts' c u
              (rw e' (Distinct-snoc _ s.id d (f s.id (ground (arith, ==_refl s.id)))))
              (λ t m. rw (e', contains-append) (ground (arith, f t (ground (arith, ==_refl s.id)))))
              more
        | inr no_c ↦
            let e' : get_or c middle [] ≡ get_or c before [] = rw no_c at e in
            Distinct-link_steps steps middle after _ counts' c u (rw e' d)
              (λ t m. rw e' (f t (ground arith))) more
      ]

  get_or-link_steps_other :
      (steps : List Step) (before after : Dependents) (counts counts' : Counts) (t : String) (d : ℤ)
      → contains (ids steps) t ≡ false
      → link_steps known steps before counts ≡ ok (after, counts')
      → get_or t counts' d ≡ get_or t counts d
  unfolding link_steps
  get_or-link_steps_other [] before after counts counts' t d m h = ground arith
  get_or-link_steps_other (s ∷ steps) before after counts counts' t d m h =
      let (middle, distinct, linked, more) =
        link_steps-cons known s steps before after counts counts' h in
      ground (
        arith,
        get_or-link_steps_other steps middle after (insert s.id (pos (length s.depends_on)) counts)
            counts' t d (ground arith) more,
        get_or-insert s.id t (pos (length s.depends_on)) d counts,
      )

  -- The count of a step is the number of its dependencies.
  get_or-link_steps :
      (steps : List Step) (before after : Dependents) (counts counts' : Counts) (t : String) (d : ℤ)
      → Distinct (ids steps)
      → contains (ids steps) t ≡ true
      → link_steps known steps before counts ≡ ok (after, counts')
      → get_or t counts' d ≡ pos (length (deps_of steps t))
  get_or-link_steps [] before after counts counts' t d u m h = cc
  get_or-link_steps (s ∷ steps) before after counts counts' t d (new, u) m h =
      let (middle, distinct, linked, more) =
        link_steps-cons known s steps before after counts counts' h in
      let next = insert s.id (pos (length s.depends_on)) counts in
      ground (
        arith,
        get_or-link_steps steps middle after next counts' t d u,
        get_or-link_steps_other steps middle after next counts' t d,
        get_or-insert s.id t (pos (length s.depends_on)) d counts,
      )

  Distinct-deps_of :
      (steps : List Step) (before after : Dependents) (counts counts' : Counts) (t : String)
      → link_steps known steps before counts ≡ ok (after, counts')
      → Distinct (deps_of steps t)
  Distinct-deps_of [] before after counts counts' t h = tt
  Distinct-deps_of (s ∷ steps) before after counts counts' t h =
      let (middle, distinct, linked, more) =
        link_steps-cons known s steps before after counts counts' h in
      Distinct-if (s.id == t) _ _ distinct (
        Distinct-deps_of steps middle after (insert s.id (pos (length s.depends_on)) counts) counts'
          t more)

  known-deps_of :
      (steps : List Step) (before after : Dependents) (counts counts' : Counts) (t d : String)
      → link_steps known steps before counts ≡ ok (after, counts')
      → contains (deps_of steps t) d ≡ true
      → contains known d ≡ true
  known-deps_of [] before after counts counts' t d h m = cc
  known-deps_of (s ∷ steps) before after counts counts' t d h m =
      let (middle, distinct, linked, more) =
        link_steps-cons known s steps before after counts counts' h in
      ground (
        arith,
        known-deps_of steps middle after (insert s.id (pos (length s.depends_on)) counts) counts' t
            d,
        link_dependencies-known known s.id s.depends_on before middle d linked,
      )

-- What the rounds rely on: the definition has no duplicates and names known steps, `dependents` is
-- the inverse of the dependencies, and each count is the number of dependencies.
pub record IsLinked (steps : List Step) (dependents : Dependents) (counts : Counts) : Type 0 where
  pub distinct : Distinct (ids steps)
  pub deps_distinct : (t : String) → Distinct (deps_of steps t)
  pub deps_known :
      (t d : String) → contains (deps_of steps t) d ≡ true → contains (ids steps) d ≡ true
  pub inverse :
      (c t : String)
      → contains (get_or c dependents []) t
        ≡ (contains (ids steps) t && contains (deps_of steps t) c)
  pub dependents_distinct : (c : String) → Distinct (get_or c dependents [])
  pub counted :
      (t : String) (d : ℤ)
      → contains (ids steps) t ≡ true
      → get_or t counts d ≡ pos (length (deps_of steps t))

pub link_steps-IsLinked :
    (steps : List Step) (dependents : Dependents) (counts : Counts)
    → index_steps [] steps ≡ ok tt
    → link_steps (ids steps) steps [] [] ≡ ok (dependents, counts)
    → IsLinked steps dependents counts
link_steps-IsLinked steps dependents counts indexed linked =
    let u = index_steps-Distinct steps indexed in
    record {
      distinct = u;
      deps_distinct = λ t. Distinct-deps_of (ids steps) steps [] dependents [] counts t linked;
      deps_known = λ t d. known-deps_of (ids steps) steps [] dependents [] counts t d linked;
      inverse = λ c t. contains-link_steps (ids steps) steps [] dependents [] counts c t u linked;
      dependents_distinct = λ c.
          Distinct-link_steps (ids steps) steps [] dependents [] counts c u tt (λ t m. refl) linked;
      counted = λ t d m. get_or-link_steps (ids steps) steps [] dependents [] counts t d u m linked;
    }
