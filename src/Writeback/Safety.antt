-- ===== src/Writeback/Safety.antt =====
-- When a write-back is allowed.
use open_data_fusion.Prelude.{
  String, ◌==◌, ==_refl, suc, ◌≤◌, ◌≡◌, ◌≢◌, refl, ◌∙◌, true, false, not, ◌&&◌, List, [], ◌∷◌, ◌++◌,
  arith, if◌then◌else◌, any, filter, map, length, remove_first, contains, contains-append,
  Bool-cases, inl, inr, ◌↔◌, All, All-map, Distinct, ltb,
}
use open_data_fusion.Prelude.Sets.{Distinct-snoc}
use open_data_fusion.Writeback.{
  Request, Policy, Approval, Risk, critical, risk_level, is_rejection, is_valid, is_safe,
  is_awaited, distinct, valid_approvers, required_approvals, reasons_against,
  evaluate_writeback_safety, is_nil, is_critical,
}

-- Someone other than who asked has approved.
abbrev pub HasApproved : Request → String → Type 0
HasApproved r a =
    (a ≢ r.requested_by) × (any (λ p. not (is_rejection p) && p.actor == a) r.approvals ≡ true)

-- The conditions of the policy.
pub record IsSafe (r : Request) (policy : Policy) : Type 0 where
  pub enabled : policy.enabled ≡ true
  pub awaited : is_awaited r.state ≡ true
  pub listed : contains policy.allowed_operations r.operation ≡ true
  pub tolerated : risk_level r.risk ≤ risk_level policy.maximum_risk
  pub not_critical : r.risk ≢ critical
  pub dry_run : policy.require_dry_run ≡ true → is_safe r.dry_run_result ≡ true
  pub not_rejected : any is_rejection r.approvals ≡ false
  pub approvers :
      (actors : List String) × Distinct actors
      × All (HasApproved r) actors
      × (required_approvals r policy ≤ length actors)

contains-remove_first :
    (x y : String) (ys : List String)
    → (x == y) ≡ false
    → contains ys y ≡ true
    → contains (remove_first (λ z. z == x) ys) y ≡ true
contains-remove_first x y [] n h = cc
contains-remove_first x y (z ∷ ys) n h = ground (arith, contains-remove_first x y ys)

length-remove_first :
    (x : String) (ys : List String)
    → contains ys x ≡ true
    → suc (length (remove_first (λ z. z == x) ys)) ≡ length ys
length-remove_first x [] h = cc
length-remove_first x (y ∷ ys) h = ground (arith, length-remove_first x ys)

-- Distinct elements of a list are not more than the list has.
length_of_Distinct :
    (xs ys : List String) → Distinct xs → All (λ x. contains ys x ≡ true) xs → length xs ≤ length ys
length_of_Distinct [] ys d h = omega arith
length_of_Distinct (x ∷ xs) ys (new, d) (here, there) = omega (
  arith,
  length-remove_first x ys here,
  length_of_Distinct xs (remove_first (λ z. z == x) ys) d (keeps xs new there),
)
  where
    keeps :
        (zs : List String)
        → contains zs x ≡ false
        → All (λ z. contains ys z ≡ true) zs
        → All (λ z. contains (remove_first (λ w. w == x) ys) z ≡ true) zs
    keeps [] n h = tt
    keeps (z ∷ zs) n (h, hs) =
        (contains-remove_first x z ys (ground arith) h, keeps zs (ground arith) hs)

distinct-Distinct : (seen xs : List String) → Distinct seen → Distinct (distinct seen xs)
distinct-Distinct seen [] d = d
distinct-Distinct seen (x ∷ xs) d = elim (Bool-cases (contains seen x)) [
  | inl e ↦ rw e (distinct-Distinct seen xs d)
  | inr e ↦ rw e (distinct-Distinct (seen ++ x ∷ []) xs (Distinct-snoc seen x d e))
]

contains-distinct :
    (seen xs : List String) (a : String)
    → contains (distinct seen xs) a ≡ (if contains seen a then true else contains xs a)
contains-distinct seen [] a = ground arith
contains-distinct seen (x ∷ xs) a = elim (Bool-cases (contains seen x)) [
  | inl e ↦ ground (arith, contains-distinct seen xs a)
  | inr e ↦ ground (arith, contains-distinct (seen ++ x ∷ []) xs a, contains-append seen (x ∷ []) a)
]

contains-approvers :
    (who : String) (given : List Approval) (a : String)
    → contains (map (λ p. p.actor) (filter (is_valid who) given)) a
      ≡ (not (a == who) && any (λ p. not (is_rejection p) && p.actor == a) given)
contains-approvers who [] a = ground arith
contains-approvers who (p ∷ given) a = ground (arith, contains-approvers who given a)

-- The valid approvers are those who have approved, each once.
valid_approvers_iff :
    (r : Request) (a : String) → (contains (valid_approvers r) a ≡ true) ↔ HasApproved r a
valid_approvers_iff r a = (
  λ h. (λ same. ground (arith, ==_refl r.requested_by, members), ground (arith, members)),
  λ (other, given). ground (arith, members, eq_of r.requested_by),
)
  where
    members :
        contains (valid_approvers r) a
        ≡ (not (a == r.requested_by) && any (λ p. not (is_rejection p) && p.actor == a) r.approvals)
    members =
        contains-distinct [] (map (λ p. p.actor) (filter (is_valid r.requested_by) r.approvals)) a
        ∙ contains-approvers r.requested_by r.approvals a

    eq_of : (b : String) → (a == b) ≡ true → a ≡ b
    eq_of b e = ground arith

All-HasApproved :
    (r : Request) (xs : List String)
    → ((a : String) → contains xs a ≡ true → HasApproved r a)
    → All (HasApproved r) xs
All-HasApproved r [] h = tt
All-HasApproved r (x ∷ xs) h =
    (h x (ground (arith, ==_refl x)), All-HasApproved r xs (λ a k. h a (ground arith)))

-- A write-back is allowed exactly if the policy's conditions hold.
pub evaluate_writeback_safety_iff :
    (r : Request) (policy : Policy)
    → ((evaluate_writeback_safety r policy).allowed ≡ true) ↔ IsSafe r policy
unfolding evaluate_writeback_safety
evaluate_writeback_safety_iff r policy = (
  λ h. record {
    enabled = ground arith;
    awaited = ground arith;
    listed = ground arith;
    tolerated = ground arith;
    not_critical = λ e. ground arith;
    dry_run = λ e. ground arith;
    not_rejected = ground arith;
    approvers = (
      valid_approvers r,
      distinct-Distinct [] (map (λ a. a.actor) (filter (is_valid r.requested_by) r.approvals)) tt,
      All-HasApproved r (valid_approvers r) (λ a k. (valid_approvers_iff r a).0 k),
      enough h,
    );
  },
  λ safe.
      let (actors, d, all_approved, many) = safe.approvers in
      let counted =
        length_of_Distinct actors (valid_approvers r) d
          (All-map _ _ (λ a k. (valid_approvers_iff r a).1 k) actors all_approved) in
      let tested : (ltb (length (valid_approvers r)) (required_approvals r policy)) ≡ false =
        ground arith in
      let risk : is_critical r.risk ≡ false = not_critical r.risk safe.not_critical in
      elim (Bool-cases policy.require_dry_run) [
        | inl e ↦ let run = safe.dry_run e in ground arith
        | inr e ↦ ground arith
      ],
)
  where
    enough :
        is_nil (reasons_against r policy) ≡ true
        → required_approvals r policy ≤ length (valid_approvers r)
    enough h = ground arith

    not_critical : (risk : Risk) → risk ≢ critical → is_critical risk ≡ false
    not_critical Risk.low n = refl
    not_critical Risk.medium n = refl
    not_critical Risk.high n = refl
    not_critical critical n = absurd (n refl)
