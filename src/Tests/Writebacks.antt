-- ===== src/Tests/Writebacks.antt =====
-- A write-back with an approval of its own requester and one of a colleague.
use open_data_fusion.Prelude.{String, String_discrete, ◌≡◌, refl, true, none, some, [], ◌∷◌, ◌↔◌}
use open_data_fusion.Prelude.Json.{bool}
use open_data_fusion.Writeback.{
  Request, Policy, Approval, approve, medium, high, pending_approval, evaluate_writeback_safety,
}
use open_data_fusion.Writeback.Safety.{IsSafe, evaluate_writeback_safety_iff}

abbrev approval_of : String → Approval
approval_of actor = record {
  actor = actor;
  decision = approve;
  occurred_at = "day 1";
  comment = none;
}

abbrev request : Request
request = record {
  id = "1";
  tenant_id = "t";
  project_id = "p";
  source_id = "s";
  target_external_id = "valve";
  operation = "setpoint";
  payload = [];
  risk = medium;
  state = pending_approval;
  requested_by = "ann";
  requested_at = "day 0";
  approvals = approval_of "ann" ∷ approval_of "bob" ∷ [];
  dry_run_result = some (("safe", bool true) ∷ []);
  executed_at = none;
}

abbrev policy : Policy
policy = record {
  enabled = true;
  allowed_operations = "setpoint" ∷ [];
  maximum_risk = high;
  require_dry_run = true;
  approval_requirements = λ risk. none;
}

evaluate_writeback_safety_iff_example :
    ((evaluate_writeback_safety request policy).allowed ≡ true) ↔ IsSafe request policy
evaluate_writeback_safety_iff_example = evaluate_writeback_safety_iff request policy

-- The request is allowed.
allows : (evaluate_writeback_safety request policy).allowed ≡ true
unfolding evaluate_writeback_safety String_discrete
allows = refl
