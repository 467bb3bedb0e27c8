-- ===== src/Pipeline/Plan/Rounds.antt =====
-- The rounds of the plan: the counters stand for the dependencies that are not yet placed.
use mathlib.Core.List.{append_assoc, append-nil}
use open_data_fusion.Prelude.{
  String, ℕ, suc, ◌+◌, ◌≤◌, ◌≡◌, refl, sym, ap, true, false, not, ◌&&◌, ◌||◌, List, [], ◌∷◌, ◌++◌,
  arith, if◌then◌else◌, length, length-append, count, contains, contains-append, Distinct, ltb,
  nat_eq, ==_refl,
}
use open_data_fusion.Prelude.Int.{pos, pred, is_zero}
use open_data_fusion.Prelude.Maps.{insert, get_or, get_or-insert}
use open_data_fusion.Prelude.Sets.{Distinct-snoc}
use open_data_fusion.Prelude.Search.{mark}
use open_data_fusion.Pipeline.Plan.{Step, ids, Dependents, Counts, release, complete}
use open_data_fusion.Pipeline.Plan.Links.{deps_of, IsLinked}

-- How many of the texts are not among those that are done.
abbrev pub missing : List String → List String → ℕ
missing done ds = count (λ d. not (contains done d)) ds

missing-of_not_contains :
    (done ds : List String) (c : String)
    → contains ds c ≡ false
    → missing (done ++ c ∷ []) ds ≡ missing done ds
missing-of_not_contains done [] c h = refl
missing-of_not_contains done (d ∷ ds) c h =
    ground (arith, missing-of_not_contains done ds c, contains-append done (c ∷ []) d)

missing-snoc :
    (done ds : List String) (c : String)
    → contains done c ≡ false
    → Distinct ds
    → missing (done ++ c ∷ []) ds + mark (contains ds c) ≡ missing done ds
missing-snoc done [] c h u = refl
missing-snoc done (d ∷ ds) c h (new, u) = ground (
  arith,
  missing-snoc done ds c h u,
  missing-of_not_contains done ds c,
  contains-append done (c ∷ []) d,
)

pub contains_of_missing :
    (done ds : List String) (d : String)
    → missing done ds ≡ 0
    → contains ds d ≡ true
    → contains done d ≡ true
contains_of_missing done [] d h m = cc
contains_of_missing done (e ∷ ds) d h m = ground (arith, contains_of_missing done ds d)

pub missing_of_all :
    (done ds : List String)
    → ((d : String) → contains ds d ≡ true → contains done d ≡ true)
    → missing done ds ≡ 0
missing_of_all done [] h = refl
missing_of_all done (e ∷ ds) h =
    ground
      (arith, h e (ground (arith, ==_refl e)), missing_of_all done ds (λ d m. h d (ground arith)))

pub missing-nil : (ds : List String) → missing [] ds ≡ length ds
missing-nil [] = refl
missing-nil (d ∷ ds) = ap suc (missing-nil ds)

get_or-release :
    (ts : List String) (counts : Counts) (next : List String) (t : String)
    → Distinct ts
    → get_or t (release ts counts next).0 (pos 0)
      ≡ (if contains ts t then pred (get_or t counts (pos 0)) else get_or t counts (pos 0))
unfolding release
get_or-release [] counts next t u = refl
get_or-release (x ∷ ts) counts next t (new, u) =
    let n = pred (get_or x counts (pos 0)) in
    ground (
      arith,
      get_or-release ts (insert x n counts) (if is_zero n then x ∷ next else next) t u,
      get_or-insert x t n (pos 0) counts,
    )

contains-release :
    (ts : List String) (counts : Counts) (next : List String) (t : String)
    → Distinct ts
    → contains (release ts counts next).1 t
      ≡ (contains next t || contains ts t && is_zero (pred (get_or t counts (pos 0))))
unfolding release
contains-release [] counts next t u = ground arith
contains-release (x ∷ ts) counts next t (new, u) =
    let n = pred (get_or x counts (pos 0)) in
    ground (
      arith,
      contains-release ts (insert x n counts) (if is_zero n then x ∷ next else next) t u,
      get_or-insert x t n (pos 0) counts,
    )

module _ (steps : List Step) (dependents : Dependents) (counts₀ : Counts)
    (linked : IsLinked steps dependents counts₀) where
  abbrev pub waits : List String → String → ℕ
  waits done t = missing done (deps_of steps t)

  -- Inside a round that began with `start` done.
  pub record Mid (start done : List String) (counts : Counts) (next : List String) : Type 0 where
    pub counted :
        (t : String) → contains (ids steps) t ≡ true → get_or t counts (pos 0) ≡ pos (waits done t)
    pub fewer : (t : String) → waits done t ≤ waits start t
    pub released :
        (t : String)
        → contains (ids steps) t ≡ true
        → contains next t ≡ (ltb 0 (waits start t) && nat_eq (waits done t) 0)
    pub distinct : Distinct done
    pub total : length done + missing done (ids steps) ≡ length (ids steps)

  Mid-release :
      (start done : List String) (counts : Counts) (next : List String) (c : String)
      → contains (ids steps) c ≡ true
      → contains done c ≡ false
      → Mid start done counts next
      → let r = release (get_or c dependents []) counts next in Mid start (done ++ c ∷ []) r.0 r.1
  Mid-release start done counts next c known new m = record {
    counted = λ t k. ground (
      arith,
      get_or-release (get_or c dependents []) counts next t (linked.dependents_distinct c),
      linked.inverse c t,
      m.counted t k,
      missing-snoc done (deps_of steps t) c new (linked.deps_distinct t),
    );
    fewer = λ t.
        omega
          (arith, m.fewer t, missing-snoc done (deps_of steps t) c new (linked.deps_distinct t));
    released = λ t k. ground (
      arith,
      contains-release (get_or c dependents []) counts next t (linked.dependents_distinct c),
      linked.inverse c t,
      m.counted t k,
      m.fewer t,
      m.released t k,
      missing-snoc done (deps_of steps t) c new (linked.deps_distinct t),
    );
    distinct = Distinct-snoc done c m.distinct new;
    total = ground (
      arith,
      length-append done (c ∷ []),
      missing-snoc done (ids steps) c new linked.distinct,
      m.total,
    );
  }

  pub Mid-complete :
      (start done stage : List String) (counts : Counts) (next : List String)
      → Distinct stage
      → ((t : String)
          → contains stage t ≡ true
          → (contains (ids steps) t ≡ true) × (contains done t ≡ false))
      → Mid start done counts next
      → let r = complete dependents stage counts next in Mid start (done ++ stage) r.0 r.1
  unfolding complete
  Mid-complete start done [] counts next u f m = rw append-nil m
  Mid-complete start done (c ∷ stage) counts next (new, u) f m =
      let (known, absent) = f c (ground (arith, ==_refl c)) in
      let (counts', next') = release (get_or c dependents []) counts next in
      rw (sym (append_assoc done (c ∷ []) stage)) (
        Mid-complete start (done ++ c ∷ []) stage counts' next' u
          (λ t k. ground (arith, f t, contains-append done (c ∷ []) t))
          (Mid-release start done counts next c known absent m))
