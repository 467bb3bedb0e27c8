-- ===== src/Workspace/Store/Members.antt =====
-- Membership: `createWorkspace`, `upsertWorkspaceMember` and `removeWorkspaceMember`.
use open_data_fusion.Prelude.{
  String, ℕ, Bool, false, not, ◌&&◌, Option, none, some, List, [], ◌∷◌, ◌++◌, if◌then◌else◌, any,
  leb, update_first, remove_first, is_some,
}
use open_data_fusion.Prelude.Json.{decimal}
use open_data_fusion.Prelude.Result.{Result, ok, ◌>>=◌, ◌>>◌, guard}
use open_data_fusion.Prelude.{◌==◌}
use open_data_fusion.Workspace.Snapshot.{Snapshot}
use open_data_fusion.Workspace.Store.Tables.{
  Role, owner, is_owner, WorkspaceRow, ScopeRow, RevisionRow, MemberRow, created, member_upserted,
  member_removed, AuditRow, Database, Context, Error, workspace_exists, member_missing, last_owner,
  constraint, Outcome, find_workspace, find_member, is_member, is_revision, owner_count, require,
  require_workspace_owner, insert_audit,
}

abbrev pub empty_snapshot : Snapshot
empty_snapshot = record {
  center = record { x = decimal false 0 0; y = decimal false 0 0 };
  zoom = decimal false 1 0;
  nodes = [];
  edges = [];
}

-- The three INSERTs beside the one of the workspace. Each has its primary key.
insert_scope : ScopeRow → Database → Result Error Database
insert_scope row db = do
  guard (not (any (λ s. s.workspace_id == row.workspace_id) db.scopes)) constraint
  ok (record db { scopes = db.scopes ++ row ∷ [] })

insert_member : MemberRow → Database → Result Error Database
insert_member row db = do
  guard (not (any (is_member row.workspace_id row.user_id) db.members)) constraint
  ok (record db { members = db.members ++ row ∷ [] })

unfoldable pub insert_revision : RevisionRow → Database → Result Error Database
insert_revision row db = do
  guard (not (any (is_revision row.workspace_id row.version) db.revisions)) constraint
  ok (record db { revisions = db.revisions ++ row ∷ [] })

abbrev pub new_workspace : (id name actor now : String) → WorkspaceRow
new_workspace id name actor now = record {
  id = id;
  name = name;
  version = 1;
  snapshot = empty_snapshot;
  created_by = actor;
  created_at = now;
  updated_by = actor;
  updated_at = now;
}

abbrev pub first_owner : (id actor display_name now : String) → MemberRow
first_owner id actor display_name now = record {
  workspace_id = id;
  user_id = actor;
  display_name = display_name;
  role = owner;
  created_at = now;
}

abbrev pub first_revision : (id actor correlation_id now : String) → RevisionRow
first_revision id actor correlation_id now = record {
  workspace_id = id;
  version = 1;
  snapshot = empty_snapshot;
  change_summary = "Initial workspace";
  actor = actor;
  created_at = now;
  correlation_id = correlation_id;
}

unfoldable pub create_workspace :
    Context
    → (id name actor display_name correlation_id now : String) → Database
    → Outcome WorkspaceRow
unfolding insert_scope insert_member insert_revision
create_workspace context id name actor display_name correlation_id now db = do
  guard (not (is_some (find_workspace id db))) (workspace_exists id)
  let row = new_workspace id name actor now
  let db₁ = record db { workspaces = db.workspaces ++ row ∷ [] }
  db₂ ←
      insert_scope
        (record {
          workspace_id = id;
          tenant_id = context.tenant_id;
          project_id = context.project_id;
          assigned_by = actor;
          assigned_at = now;
        })
        db₁
  db₃ ← insert_member (first_owner id actor display_name now) db₂
  db₄ ← insert_revision (first_revision id actor correlation_id now) db₃
  let entry : AuditRow = record {
    timestamp = now;
    actor = actor;
    action = "workspace.created";
    entity_type = "workspace";
    entity_id = id;
    details = created context.tenant_id context.project_id id name 1;
    correlation_id = correlation_id;
  }
  ok (insert_audit entry db₄, row)

-- What the upsert sets in a row that is there.
abbrev pub renamed : MemberRow → MemberRow → MemberRow
renamed row m = record m { display_name = row.display_name; role = row.role }

abbrev pub new_member : (id user_id display_name : String) → Role → (now : String) → MemberRow
new_member id user_id display_name role now = record {
  workspace_id = id;
  user_id = user_id;
  display_name = display_name;
  role = role;
  created_at = now;
}

-- INSERT … ON CONFLICT DO UPDATE of one member.
abbrev pub upsert_row : MemberRow → List MemberRow → List MemberRow
upsert_row row members =
    if any (is_member row.workspace_id row.user_id) members
    then update_first (is_member row.workspace_id row.user_id) (renamed row) members
    else members ++ row ∷ []

abbrev pub demotes_last : Option MemberRow → Role → ℕ → Bool
demotes_last none role owners = false
demotes_last (some m) role owners = is_owner m.role && not (is_owner role) && leb owners 1

abbrev upsert_action : Option MemberRow → String
upsert_action none = "workspace.member_added"
upsert_action (some _) = "workspace.member_updated"

-- The result is the member's row and whether it is new.
unfoldable pub upsert_workspace_member :
    (id actor target_user_id display_name : String)
    → Role
    → (correlation_id now : String) → Option Context
    → Database
    → Outcome (MemberRow × Bool)
upsert_workspace_member id actor target display_name role correlation_id now context db = do
  _ ← require_workspace_owner id actor context db
  let existing = find_member id target db
  guard (not (demotes_last existing role (owner_count id db))) (last_owner id)
  let row = new_member id target display_name role now
  let entry : AuditRow = record {
    timestamp = now;
    actor = actor;
    action = upsert_action existing;
    entity_type = "workspaceMember";
    entity_id = target;
    details = member_upserted id target display_name role existing;
    correlation_id = correlation_id;
  }
  let next = insert_audit entry (record db { members = upsert_row row db.members })
  stored ← require (find_member id target next) constraint
  ok (next, (stored, not (is_some existing)))

unfoldable pub remove_workspace_member :
    (id actor target_user_id correlation_id now : String)
    → Option Context
    → Database
    → Outcome MemberRow
remove_workspace_member id actor target correlation_id now context db = do
  _ ← require_workspace_owner id actor context db
  existing ← require (find_member id target db) (member_missing target id)
  guard (not (is_owner existing.role && leb (owner_count id db) 1)) (last_owner id)
  let entry : AuditRow = record {
    timestamp = now;
    actor = actor;
    action = "workspace.member_removed";
    entity_type = "workspaceMember";
    entity_id = target;
    details = member_removed id target existing.display_name existing.role;
    correlation_id = correlation_id;
  }
  ok (
    insert_audit entry (record db { members = remove_first (is_member id target) db.members }),
    existing,
  )
