-- ===== src/Workspace/Store/Edits.antt =====
-- New versions of a snapshot: `updateWorkspace`, `applyWorkspaceOperations` and
-- `rollbackWorkspace`.
use Prim.Native.String
use open_data_fusion.Prelude.Decimal.{decimal_text}
use open_data_fusion.Prelude.{
  String, ◌==◌, ℕ, ◌+◌, Bool, true, false, ◌&&◌, Option, none, some, List, update_first, nat_eq,
  if◌then◌else◌,
}
use open_data_fusion.Prelude.Result.{Result, ok, err, ◌>>=◌, ◌>>◌, guard}
use open_data_fusion.Workspace.Snapshot.{Snapshot, Operation, Checked, apply_canvas_operations}
use open_data_fusion.Workspace.Store.Tables.{
  Role, owner, editor, WorkspaceRow, RevisionRow, Details, saved, rolled_back, operations_applied,
  AuditRow, Database, Context, Error, workspace_missing, revision_missing, stale_version, read_only,
  integrity, constraint, Outcome, find_workspace, find_revision, require, get_workspace_member,
  insert_audit,
}
use open_data_fusion.Workspace.Store.Members.{insert_revision}

-- What a new version is: its snapshot and how it is logged.
pub record Change : Type 0 where
  pub snapshot : Snapshot
  pub summary : String
  pub actor : String
  pub action : String
  pub details : Details
  pub correlation_id : String
  pub now : String

-- UPDATE workspaces … WHERE id = ? AND version = ?
abbrev pub update_row : WorkspaceRow → Change → List WorkspaceRow → List WorkspaceRow
update_row current change =
    update_first (λ w. w.id == current.id && nat_eq w.version current.version)
      (λ w. record w {
        snapshot = change.snapshot;
        version = current.version + 1;
        updated_by = change.actor;
        updated_at = change.now;
      })

abbrev pub new_revision : WorkspaceRow → Change → RevisionRow
new_revision current change = record {
  workspace_id = current.id;
  version = current.version + 1;
  snapshot = change.snapshot;
  change_summary = change.summary;
  actor = change.actor;
  created_at = change.now;
  correlation_id = change.correlation_id;
}

abbrev pub change_entry : WorkspaceRow → Change → AuditRow
change_entry current change = record {
  timestamp = change.now;
  actor = change.actor;
  action = change.action;
  entity_type = "workspace";
  entity_id = current.id;
  details = change.details;
  correlation_id = change.correlation_id;
}

-- The statements that the three handlers end with: the UPDATE, the INSERT of the revision, the
-- audit entry and the SELECT.
unfoldable pub store_version : WorkspaceRow → Change → Database → Outcome WorkspaceRow
unfolding insert_revision
store_version current change db = do
  next ←
      insert_revision (new_revision current change)
        (record db { workspaces = update_row current change db.workspaces })
  let logged = insert_audit (change_entry current change) next
  updated ← require (find_workspace current.id logged) constraint
  ok (logged, updated)

-- The SELECT and the version check that the three handlers begin with.
unfoldable pub checkout : String → ℕ → Database → Result Error WorkspaceRow
checkout id expected db = do
  current ← require (find_workspace id db) (workspace_missing id)
  guard (nat_eq current.version expected) (stale_version id current.version expected)
  ok current

unfoldable pub update_workspace :
    (id : String) (expected_version : ℕ)
    → Snapshot
    → (change_summary actor correlation_id now : String) → Database
    → Outcome WorkspaceRow
update_workspace id expected snapshot summary actor correlation_id now db = do
  current ← checkout id expected db
  let change : Change = record {
    snapshot = snapshot;
    summary = summary;
    actor = actor;
    action = "workspace.saved";
    details = saved current.version (current.version + 1) summary;
    correlation_id = correlation_id;
    now = now;
  }
  store_version current change db

abbrev pub may_edit : Role → Bool
may_edit owner = true
may_edit editor = true
may_edit _ = false

-- A `DataIntegrityError` among the errors of the handlers.
abbrev pub lift : Checked Snapshot → Result Error Snapshot
lift (ok s) = ok s
lift (err e) = err (integrity e)

unfoldable pub apply_workspace_operations :
    (id actor : String) (base_version : ℕ)
    → (change_summary : String) → List Operation
    → (correlation_id now : String) → Option Context
    → Database
    → Outcome WorkspaceRow
apply_workspace_operations id actor base summary operations correlation_id now context db = do
  member ← get_workspace_member id actor context db
  guard (may_edit member.role) (read_only actor id)
  current ← checkout id base db
  next ← lift (apply_canvas_operations current.snapshot operations)
  let change : Change = record {
    snapshot = next;
    summary = summary;
    actor = actor;
    action = "workspace.operations_applied";
    details = operations_applied current.version (current.version + 1) summary operations;
    correlation_id = correlation_id;
    now = now;
  }
  store_version current change db

-- `rollback.changeSummary || …`
abbrev pub rollback_summary : Option String → ℕ → String
rollback_summary none version = String.◌++◌ "Rolled back to revision " (decimal_text version)
rollback_summary (some text) version =
    if text == "" then String.◌++◌ "Rolled back to revision " (decimal_text version) else text

unfoldable pub rollback_workspace :
    (id : String) (expected_version target_version : ℕ)
    → (change_summary : Option String) → (actor correlation_id now : String) → Database
    → Outcome WorkspaceRow
rollback_workspace id expected target_version given actor correlation_id now db = do
  current ← checkout id expected db
  target ← require (find_revision id target_version db) (revision_missing id target_version)
  let summary = rollback_summary given target_version
  let change : Change = record {
    snapshot = target.snapshot;
    summary = summary;
    actor = actor;
    action = "workspace.rolled_back";
    details = rolled_back current.version (current.version + 1) target_version summary;
    correlation_id = correlation_id;
    now = now;
  }
  store_version current change db
