-- ===== src/Workspace/Store/Tables.antt =====
-- Rows, errors, transactions, the audit log, and the handlers that read.
use open_data_fusion.Prelude.{
  String, ◌==◌, ℕ, ◌+◌, Bool, true, false, ◌&&◌, Option, none, some, List, [], ◌∷◌, ◌++◌,
  if◌then◌else◌, find, count, nat_eq, ltb,
}
use open_data_fusion.Prelude.Result.{Result, ok, err, ◌>>=◌, ◌>>◌, guard}
use open_data_fusion.Workspace.Snapshot.{Snapshot, Operation, DataIntegrityError}

pub data Role : Type 0 where
  owner editor reviewer viewer : Role

abbrev pub is_owner : Role → Bool
is_owner owner = true
is_owner _ = false

pub record WorkspaceRow : Type 0 where
  pub id : String
  pub name : String
  pub version : ℕ
  pub snapshot : Snapshot
  pub created_by : String
  pub created_at : String
  pub updated_by : String
  pub updated_at : String

pub record ScopeRow : Type 0 where
  pub workspace_id : String
  pub tenant_id : String
  pub project_id : String
  pub assigned_by : String
  pub assigned_at : String

pub record RevisionRow : Type 0 where
  pub workspace_id : String
  pub version : ℕ
  pub snapshot : Snapshot
  pub change_summary : String
  pub actor : String
  pub created_at : String
  pub correlation_id : String

pub record MemberRow : Type 0 where
  pub workspace_id : String
  pub user_id : String
  pub display_name : String
  pub role : Role
  pub created_at : String

-- The details that the handlers below log.
pub data Details : Type 0 where
  created : (tenant_id project_id workspace_id name : String) (version : ℕ) → Details
  saved : (previous_version version : ℕ) (change_summary : String) → Details
  rolled_back : (previous_version version restored_from : ℕ) (change_summary : String) → Details
  operations_applied :
      (previous_version version : ℕ) (change_summary : String) → List Operation → Details
  member_upserted :
      (workspace_id target_user_id display_name : String)
      → Role
      → (previous : Option MemberRow) → Details
  member_removed : (workspace_id target_user_id display_name : String) → Role → Details

pub record AuditRow : Type 0 where
  pub timestamp : String
  pub actor : String
  pub action : String
  pub entity_type : String
  pub entity_id : String
  pub details : Details
  pub correlation_id : String

-- A row of `industrial_audit`: the audit row, in the ledger of a project.
pub record LedgerRow : Type 0 where
  pub tenant_id : String
  pub project_id : String
  pub id : ℕ
  pub entry : AuditRow

pub record Database : Type 0 where
  pub workspaces : List WorkspaceRow
  pub scopes : List ScopeRow
  pub revisions : List RevisionRow
  pub members : List MemberRow
  pub audit : List AuditRow
  -- `none` where the table does not exist
  pub ledger : Option (List LedgerRow)

pub record Context : Type 0 where
  pub tenant_id : String
  pub project_id : String

-- The errors, by their class and message.
pub data Error : Type 0 where
  -- NotFoundError
  workspace_missing outside_project : String → Error
  revision_missing : String → ℕ → Error
  member_missing : (user_id id : String) → Error
  -- ConflictError
  stale_version : String → (current expected : ℕ) → Error
  last_owner workspace_exists : String → Error
  -- ForbiddenError
  not_a_member read_only : (user_id id : String) → Error
  owners_only : String → Error
  -- DataIntegrityError
  integrity : DataIntegrityError → Error
  -- a failed constraint of SQLite
  constraint : Error

abbrev pub Outcome : Type 0 → Type 0
Outcome A = Result Error (Database × A)

-- The end of a transaction: COMMIT, or ROLLBACK to the tables of its BEGIN.
abbrev pub commit : Database → Result Error Database → Database
commit db (ok next) = next
commit db (err e) = db

-- The tables that a handler leaves, without its result.
abbrev pub tables : {A : Type 0} → Outcome A → Result Error Database
tables (ok (next, a)) = ok next
tables (err e) = err e

abbrev pub find_workspace : String → Database → Option WorkspaceRow
find_workspace id db = find (λ w. w.id == id) db.workspaces

abbrev pub is_revision : String → ℕ → RevisionRow → Bool
is_revision id version r = r.workspace_id == id && nat_eq r.version version

abbrev pub find_revision : String → ℕ → Database → Option RevisionRow
find_revision id version db = find (is_revision id version) db.revisions

abbrev pub is_member : String → String → MemberRow → Bool
is_member id user_id m = m.workspace_id == id && m.user_id == user_id

abbrev pub find_member : String → String → Database → Option MemberRow
find_member id user_id db = find (is_member id user_id) db.members

abbrev pub is_owner_of : String → MemberRow → Bool
is_owner_of id m = m.workspace_id == id && is_owner m.role

-- `workspaceOwnerCount`
abbrev pub owner_count : String → Database → ℕ
owner_count id db = count (is_owner_of id) db.members

abbrev pub require : {A : Type 0} → Option A → Error → Result Error A
require none e = err e
require (some a) e = ok a

unfoldable pub get_workspace : String → Database → Result Error WorkspaceRow
get_workspace id db = require (find_workspace id db) (workspace_missing id)

abbrev pub get_workspace_scope : String → Database → Option ScopeRow
get_workspace_scope id db = find (λ s. s.workspace_id == id) db.scopes

abbrev in_scope : Option ScopeRow → Option Context → Bool
in_scope none context = true
in_scope (some s) none = false
in_scope (some s) (some c) = c.tenant_id == s.tenant_id && c.project_id == s.project_id

unfoldable pub get_workspace_member :
    String → String → Option Context → Database → Result Error MemberRow
unfolding get_workspace
get_workspace_member id user_id context db = do
  _ ← get_workspace id db
  guard (in_scope (get_workspace_scope id db) context) (outside_project id)
  require (find_member id user_id db) (not_a_member user_id id)

unfoldable pub require_workspace_owner :
    String → String → Option Context → Database → Result Error MemberRow
unfolding get_workspace_member
require_workspace_owner id actor context db = do
  member ← get_workspace_member id actor context db
  guard (is_owner member.role) (owners_only id)
  ok member

-- The workspace that an audit entry belongs to: the entity, or the id in the details.
abbrev details_workspace : Details → Option String
details_workspace (created _ _ id _ _) = some id
details_workspace (member_upserted id _ _ _ _) = some id
details_workspace (member_removed id _ _ _) = some id
details_workspace _ = none

abbrev pub audit_workspace : AuditRow → Option String
audit_workspace row =
    if row.entity_type == "workspace" then some row.entity_id else details_workspace row.details

-- `COALESCE(MAX(id), 0) + 1` over the ledger of one project.
abbrev pub next_id : String → String → List LedgerRow → ℕ
next_id tenant_id project_id [] = 1
next_id tenant_id project_id (row ∷ rows) =
    let rest = next_id tenant_id project_id rows in
    if row.tenant_id == tenant_id && row.project_id == project_id && ltb rest (row.id + 1)
    then row.id + 1
    else rest

-- The scope row of the workspace, where there is one.
scope_of : Option String → Database → Option ScopeRow
scope_of none db = none
scope_of (some id) db = if id == "" then none else get_workspace_scope id db

mirrored : AuditRow → Option ScopeRow → Option (List LedgerRow) → Option (List LedgerRow)
mirrored row (some s) (some rows) = some (
    rows
    ++ record {
      tenant_id = s.tenant_id;
      project_id = s.project_id;
      id = next_id s.tenant_id s.project_id rows;
      entry = row;
    }
      ∷ [])
mirrored row _ ledger = ledger

-- `insertAudit`
unfoldable pub insert_audit : AuditRow → Database → Database
unfolding mirrored scope_of
insert_audit row db = record db {
  audit = db.audit ++ row ∷ [];
  ledger = mirrored row (scope_of (audit_workspace row) db) db.ledger;
}
