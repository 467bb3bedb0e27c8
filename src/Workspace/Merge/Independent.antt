-- ===== src/Workspace/Merge/Independent.antt =====
-- When two batches of Canvas operations merge.
use Prim.Native.String.{◌++◌ as ◌concat◌}
use open_data_fusion.Prelude.{
  String, ℕ, ◌≡◌, refl, sym, ap, subst, true, false, some, List, [], ◌∷◌, ◌++◌, arith,
  if◌then◌else◌, contains, nat_eq, Bool-cases, inl, inr, ◌↔◌, All,
}
use open_data_fusion.Workspace.Snapshot.{Snapshot, Operation}
use open_data_fusion.Workspace.Merge.{
  Request, Conflict, touched_resources, shared, against, find_conflicts, joined, refused, decide,
  merge_operation_batches,
}

-- Nothing that the right operation touches is touched by the left one.
abbrev pub IsIndependent : Snapshot → Operation → Operation → Type 0
IsIndependent s left right =
    All (λ r. contains (touched_resources left s) r ≡ false) (touched_resources right s)

append_nil : {A : Type 0} (xs ys : List A) → xs ++ ys ≡ [] → (xs ≡ []) × (ys ≡ [])
append_nil [] ys h = (refl, h)
append_nil (x ∷ xs) ys h = cc

nil_append : {A : Type 0} (xs ys : List A) → xs ≡ [] → ys ≡ [] → xs ++ ys ≡ []
nil_append xs ys e e' = rw (e, e') refl

disjoint_of_shared :
    (mine : List String) (left right : Operation) (rs : List String)
    → shared mine left right rs ≡ []
    → All (λ r. contains mine r ≡ false) rs
unfolding shared
disjoint_of_shared mine left right [] h = tt
disjoint_of_shared mine left right (r ∷ rs) h = elim (Bool-cases (contains mine r)) [
  | inl e ↦ ground arith
  | inr e ↦ (e, disjoint_of_shared mine left right rs (ground arith))
]

shared_of_disjoint :
    (mine : List String) (left right : Operation) (rs : List String)
    → All (λ r. contains mine r ≡ false) rs
    → shared mine left right rs ≡ []
unfolding shared
shared_of_disjoint mine left right [] h = refl
shared_of_disjoint mine left right (r ∷ rs) (n, h) = rw n (shared_of_disjoint mine left right rs h)

IsIndependent-against :
    (s : Snapshot) (left : Operation) (rights : List Operation)
    → against s (touched_resources left s) left rights ≡ []
    → All (IsIndependent s left) rights
unfolding against
IsIndependent-against s left [] h = tt
IsIndependent-against s left (right ∷ rights) h =
    let (here, there) = append_nil _ _ h in
    (
      disjoint_of_shared (touched_resources left s) left right (touched_resources right s) here,
      IsIndependent-against s left rights there,
    )

against-IsIndependent :
    (s : Snapshot) (left : Operation) (rights : List Operation)
    → All (IsIndependent s left) rights
    → against s (touched_resources left s) left rights ≡ []
unfolding against
against-IsIndependent s left [] h = refl
against-IsIndependent s left (right ∷ rights) (here, there) =
    nil_append _ _
      (shared_of_disjoint (touched_resources left s) left right (touched_resources right s) here)
      (against-IsIndependent s left rights there)

IsIndependent-find_conflicts :
    (s : Snapshot) (lefts rights : List Operation)
    → find_conflicts s lefts rights ≡ []
    → All (λ left. All (IsIndependent s left) rights) lefts
unfolding find_conflicts
IsIndependent-find_conflicts s [] rights h = tt
IsIndependent-find_conflicts s (left ∷ lefts) rights h =
    let (here, there) = append_nil _ _ h in
    (IsIndependent-against s left rights here, IsIndependent-find_conflicts s lefts rights there)

find_conflicts-IsIndependent :
    (s : Snapshot) (lefts rights : List Operation)
    → All (λ left. All (IsIndependent s left) rights) lefts
    → find_conflicts s lefts rights ≡ []
unfolding find_conflicts
find_conflicts-IsIndependent s [] rights h = refl
find_conflicts-IsIndependent s (left ∷ lefts) rights (here, there) =
    nil_append _ _ (against-IsIndependent s left rights here)
      (find_conflicts-IsIndependent s lefts rights there)

decide-merged :
    (left right : Request) (cs : List Conflict) {m : Request}
    → (decide left right cs).merged ≡ some m
    → (cs ≡ []) × (joined left right ≡ m)
decide-merged left right [] h = (refl, cc)
decide-merged left right (c ∷ cs) h = cc

-- A batch by its fields.
request_by_fields :
    (left right m : Request)
    → m.base_version ≡ left.base_version
    → m.change_summary ≡ left.change_summary concat ("; " concat right.change_summary)
    → m.operations ≡ left.operations ++ right.operations
    → joined left right ≡ m
request_by_fields left right m version summary operations =
    rw (← version, ← summary, ← operations) refl

-- The merge of two batches is `m` exactly if both start from the same version, no operation of the
-- one touches what an operation of the other touches, and `m` has their version, the summary of the
-- left and of the right with a semicolon between them, and the operations of the left and then those
-- of the right.
pub merge_iff :
    (s : Snapshot) (left right m : Request)
    → ((merge_operation_batches s left right).merged ≡ some m) ↔ (
        (left.base_version ≡ right.base_version)
        × All (λ l. All (IsIndependent s l) right.operations) left.operations
        × (m.base_version ≡ left.base_version)
        × (m.change_summary ≡ left.change_summary concat ("; " concat right.change_summary))
        × (m.operations ≡ left.operations ++ right.operations))
unfolding merge_operation_batches
merge_iff s left right m = (
  λ h. elim (Bool-cases (nat_eq left.base_version right.base_version)) [
    | inl e ↦
        let (none_found, same) =
          decide-merged left right (find_conflicts s left.operations right.operations) (
            subst
              (λ b.
                (if b
                  then decide left right (find_conflicts s left.operations right.operations)
                  else refused left right).merged
                ≡ some m)
              e h) in
        (
          ground arith,
          IsIndependent-find_conflicts s left.operations right.operations none_found,
          ap (λ (r : Request). r.base_version) (sym same),
          ap (λ (r : Request). r.change_summary) (sym same),
          ap (λ (r : Request). r.operations) (sym same),
        )
    | inr e ↦ ground arith
  ],
  λ (same, free, version, summary, operations).
      rw
        (
          equal _ _ same,
          find_conflicts-IsIndependent s left.operations right.operations free,
          request_by_fields left right m version summary operations,
        )
        refl,
)
  where
    equal : (a b : ℕ) → a ≡ b → nat_eq a b ≡ true
    equal a b e = ground arith
