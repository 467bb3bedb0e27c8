-- ===== src/Writeback.antt =====
-- The safety decision on an industrial write-back: packages/platform-core/src/writeback.ts, with the
-- request of packages/contracts/src/platform.ts. A number of approvals is a natural number; a `Set`
-- of texts is a list in the order of insertion.
pub mod Safety
use Prim.Native.String.{◌++◌ as ◌concat◌}
use open_data_fusion.Prelude.{
  String, ◌==◌, ℕ, Bool, true, false, not, ◌&&◌, ◌||◌, Option, none, some, List, [], ◌∷◌, ◌++◌, map,
  if◌then◌else◌, any, filter, length, contains, ltb,
}
use open_data_fusion.Prelude.Decimal.{decimal_text}
use open_data_fusion.Prelude.Json.{Json, bool, Object}
use open_data_fusion.Prelude.Maps.{lookup}

pub data Risk : Type 0 where
  low medium high critical : Risk

pub data State : Type 0 where
  draft pending_approval approved executing succeeded failed cancelled : State

pub data Decision : Type 0 where
  approve reject : Decision

pub record Approval : Type 0 where
  pub actor : String
  pub decision : Decision
  pub occurred_at : String
  pub comment : Option String

pub record Request : Type 0 where
  pub id : String
  pub tenant_id : String
  pub project_id : String
  pub source_id : String
  pub target_external_id : String
  pub operation : String
  pub payload : Object
  pub risk : Risk
  pub state : State
  pub requested_by : String
  pub requested_at : String
  pub approvals : List Approval
  pub dry_run_result : Option Object
  pub executed_at : Option String

-- A policy without `approvalRequirements` requires none of its own.
pub record Policy : Type 0 where
  pub enabled : Bool
  pub allowed_operations : List String
  pub maximum_risk : Risk
  pub require_dry_run : Bool
  pub approval_requirements : Risk → Option ℕ

pub record SafetyDecision : Type 0 where
  pub allowed : Bool
  pub required_approvals : ℕ
  pub valid_approvals : ℕ
  pub reasons : List String

abbrev pub risk_level : Risk → ℕ
risk_level low = 0
risk_level medium = 1
risk_level high = 2
risk_level critical = 3

abbrev risk_name : Risk → String
risk_name low = "low"
risk_name medium = "medium"
risk_name high = "high"
risk_name critical = "critical"

abbrev pub default_required : Risk → ℕ
default_required low = 1
default_required medium = 1
default_required high = 2
default_required critical = 2

abbrev pub is_awaited : State → Bool
is_awaited pending_approval = true
is_awaited approved = true
is_awaited _ = false

abbrev pub is_critical : Risk → Bool
is_critical critical = true
is_critical _ = false

-- `request.dryRunResult?.safe === true`
abbrev pub is_true : Option Json → Bool
is_true (some (bool b)) = b
is_true _ = false

abbrev pub is_safe : Option Object → Bool
is_safe none = false
is_safe (some result) = is_true (lookup "safe" result)

abbrev pub is_rejection : Approval → Bool
is_rejection a = elim a.decision [ reject ↦ true | approve ↦ false ]

-- An approval that counts: of someone other than who asked.
abbrev pub is_valid : String → Approval → Bool
is_valid requested_by a = not (is_rejection a) && not (a.actor == requested_by)

-- `new Set(…)`
abbrev pub distinct : (seen : List String) → List String → List String
distinct seen [] = seen
distinct seen (x ∷ xs) = distinct (if contains seen x then seen else seen ++ x ∷ []) xs

abbrev or_default : Option ℕ → ℕ → ℕ
or_default none n = n
or_default (some m) n = m

abbrev pub required_approvals : Request → Policy → ℕ
required_approvals r policy =
    or_default (policy.approval_requirements r.risk) (default_required r.risk)

abbrev pub valid_approvers : Request → List String
valid_approvers r = distinct [] (map (λ a. a.actor) (filter (is_valid r.requested_by) r.approvals))

-- `if (test) reasons.push(reason)`, in front of the later ones.
abbrev pub reason_if : Bool → String → List String → List String
reason_if true reason later = reason ∷ later
reason_if false reason later = later

abbrev pub is_nil : List String → Bool
is_nil [] = true
is_nil (_ ∷ _) = false

unfoldable pub reasons_against : Request → Policy → List String
reasons_against r policy = reason_if (not policy.enabled) "Industrial write-back is disabled" (
    reason_if (not (is_awaited r.state)) "Request is not awaiting or holding approval" (
      reason_if (not (contains policy.allowed_operations r.operation))
        ("Operation '" concat (r.operation concat "' is not allowlisted"))
        (reason_if (ltb (risk_level policy.maximum_risk) (risk_level r.risk))
          ("Risk '"
            concat (risk_name r.risk
                concat ("' exceeds policy maximum '"
                    concat (risk_name policy.maximum_risk concat "'"))))
          (reason_if (is_critical r.risk)
            "Critical write-back requires an external safety case and cannot be approved automatically"
            (reason_if (policy.require_dry_run && not (is_safe r.dry_run_result))
              "A successful safe dry-run is required"
              (reason_if (any is_rejection r.approvals) "At least one reviewer rejected the request"
                (reason_if (ltb (length (valid_approvers r)) (required_approvals r policy))
                  (decimal_text (required_approvals r policy)
                    concat " distinct non-requester approval(s) required")
                  [])))))))

unfoldable pub evaluate_writeback_safety : Request → Policy → SafetyDecision
unfolding reasons_against
evaluate_writeback_safety r policy =
    let reasons = reasons_against r policy in
    record {
      allowed = is_nil reasons;
      required_approvals = required_approvals r policy;
      valid_approvals = length (valid_approvers r);
      reasons = reasons;
    }
