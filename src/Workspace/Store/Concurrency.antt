-- ===== src/Workspace/Store/Concurrency.antt =====
-- What a writer sees: saves, conflicts, edits and rollbacks.
use open_data_fusion.Prelude.{String, ℕ, ◌+◌, ◌≡◌, refl, subst, Option, some, List, arith, ◌⊎◌}
use open_data_fusion.Prelude.Result.{ok, err, >>=-eq-ok, guard, guard-eq-ok}
use open_data_fusion.Workspace.Snapshot.{Snapshot, Operation, Checked, apply_canvas_operations}
use open_data_fusion.Workspace.Snapshot.Valid.{IsWellFormed, apply_canvas_operations-IsWellFormed}
use open_data_fusion.Workspace.Store.Tables.{
  WorkspaceRow, RevisionRow, MemberRow, Database, Context, stale_version, find_workspace,
  find_revision, find_member, get_workspace_member, rolled_back, saved, operations_applied, owner,
  editor,
}
use open_data_fusion.Workspace.Store.Edits.{
  Change, checkout, may_edit, lift, update_workspace, rollback_summary, apply_workspace_operations,
  rollback_workspace,
}
use open_data_fusion.Workspace.Store.Consistent.{
  IsCurrent, IsConsistent, new_row, store_version-Stored,
}
use open_data_fusion.Workspace.Store.Effects.{
  found_by_id, IsOneVersionOn, Stored-IsOneVersionOn, may_edit-role,
}
use open_data_fusion.Workspace.Store.Versions.{
  checkout_lem, checkout_ok, checkout_stale, store_version_ok, save_change, Advanced,
  Advanced-find_workspace, Advanced-find_revision, Advanced-IsConsistent, update_workspace-Advanced,
  get_workspace_member-find,
}

-- On consistent tables, a save of an existing workspace that expects the version that is there is
-- stored: it answers the row of the next version, which replaces that of the workspace, and adds a
-- revision with the snapshot and an audit entry, and no other workspace, revision, entry, member or
-- scope changes. A save that expects another version is refused with the two versions.
pub update_workspace_total :
    (id : String) (expected : ℕ) (snapshot : Snapshot) (summary actor correlation_id now : String)
    (db : Database) (current : WorkspaceRow)
    → IsConsistent db
    → find_workspace id db ≡ some current
    → (current.version ≡ expected
        → (next : Database) × (w : WorkspaceRow) × (update_workspace id expected snapshot summary
              actor correlation_id now db
            ≡ ok (next, w))
          × (w ≡ record current {
            snapshot = snapshot;
            version = current.version + 1;
            updated_by = actor;
            updated_at = now;
          })
          × IsOneVersionOn db next w
              (record {
                workspace_id = current.id;
                version = current.version + 1;
                snapshot = snapshot;
                change_summary = summary;
                actor = actor;
                created_at = now;
                correlation_id = correlation_id;
              })
              (record {
                timestamp = now;
                actor = actor;
                action = "workspace.saved";
                entity_type = "workspace";
                entity_id = current.id;
                details = saved current.version (current.version + 1) summary;
                correlation_id = correlation_id;
              }))
      × ((current.version ≡ expected → ⊥)
          → update_workspace id expected snapshot summary actor correlation_id now db
            ≡ err (stale_version id current.version expected))
unfolding update_workspace
update_workspace_total id expected snapshot summary actor correlation now db current c found = (
  λ e.
      let change = save_change current snapshot summary actor correlation now in
      let (next, kept) = store_version_ok id db current change c found in
      let (stored, _) =
        store_version-Stored current change db next (found_by_id id db found) kept in
      (
        next,
        new_row current change,
        rw (checkout_ok id expected db found e) kept,
        refl,
        Stored-IsOneVersionOn current change db next _ stored refl,
      ),
  λ ne. rw (checkout_stale id expected db found ne) refl,
)

-- No lost update: after a stored save, a second save from the same version is refused.
pub second_save_refused :
    (id : String) (expected : ℕ) (first second : Snapshot)
    (summary₁ actor₁ correlation₁ now₁ summary₂ actor₂ correlation₂ now₂ : String)
    (db next : Database) {w : WorkspaceRow}
    → update_workspace id expected first summary₁ actor₁ correlation₁ now₁ db ≡ ok (next, w)
    → update_workspace id expected second summary₂ actor₂ correlation₂ now₂ next
      ≡ err (stale_version id (expected + 1) expected)
unfolding update_workspace
second_save_refused id expected first second s₁ a₁ c₁ n₁ s₂ a₂ c₂ n₂ db next h =
    let a = update_workspace-Advanced id expected first s₁ a₁ c₁ n₁ db next h in
    let (found, version) = Advanced-find_workspace id expected db next a in
    rw (checkout_stale id expected next found (λ e. omega (arith, version)), version) refl

lift-ok : (r : Checked Snapshot) {s : Snapshot} → lift r ≡ ok s → r ≡ ok s
lift-ok r h = ground arith

-- The revision of the version from before, on consistent tables.
Advanced-before :
    (id : String) (expected : ℕ) (db next : Database) {w : WorkspaceRow} (before : WorkspaceRow)
    → IsConsistent db
    → find_workspace id db ≡ some before
    → Advanced id expected db next w
    → (r : RevisionRow) × (find_revision id expected db ≡ some r) × (r.snapshot ≡ before.snapshot)
Advanced-before id expected db next before con found a =
    let here : IsCurrent db id before = rw found at (con id) in
    let same : before.version ≡ expected = cc (a.found, a.expected_version) in
    subst
      (λ v. (r : RevisionRow) × (find_revision id v db ≡ some r) × (r.snapshot ≡ before.snapshot))
      same here.kept

-- An edit that is accepted was made by a member who is an owner or an editor, at the version that is
-- there; its answer is the row of the next version, with the well-formed snapshot that the operations
-- make of the present one, which replaces the row of the workspace; a revision with that snapshot and
-- an audit entry are added, and no other workspace, revision, entry, member or scope changes.
pub apply_workspace_operations_ok :
    (id actor : String) (base : ℕ) (summary : String) (operations : List Operation)
    (correlation_id now : String) (context : Option Context) (db next : Database) {w : WorkspaceRow}
    → apply_workspace_operations id actor base summary operations correlation_id now context db
      ≡ ok (next, w)
    → (member : MemberRow) × (current : WorkspaceRow) × (snapshot : Snapshot) × (find_member id
          actor db
        ≡ some member)
      × ((member.role ≡ owner) ⊎ (member.role ≡ editor))
      × (find_workspace id db ≡ some current)
      × (current.version ≡ base)
      × (apply_canvas_operations current.snapshot operations ≡ ok snapshot)
      × IsWellFormed snapshot
      × (w ≡ record current {
        snapshot = snapshot;
        version = current.version + 1;
        updated_by = actor;
        updated_at = now;
      })
      × IsOneVersionOn db next w
          (record {
            workspace_id = current.id;
            version = current.version + 1;
            snapshot = snapshot;
            change_summary = summary;
            actor = actor;
            created_at = now;
            correlation_id = correlation_id;
          })
          (record {
            timestamp = now;
            actor = actor;
            action = "workspace.operations_applied";
            entity_type = "workspace";
            entity_id = current.id;
            details = operations_applied current.version (current.version + 1) summary operations;
            correlation_id = correlation_id;
          })
unfolding apply_workspace_operations
apply_workspace_operations_ok id actor base summary ops correlation now context db next h =
    let (member, is_member, h₁) = >>=-eq-ok (get_workspace_member id actor context db) _ h in
    let (_, allowed, h₂) = >>=-eq-ok (guard (may_edit member.role) _) _ h₁ in
    let (current, checked, h₃) = >>=-eq-ok (checkout id base db) _ h₂ in
    let (snapshot, lifted, kept) =
      >>=-eq-ok (lift (apply_canvas_operations current.snapshot ops)) _ h₃ in
    let (found, version) = checkout_lem id base db checked in
    let (stored, answer) = store_version-Stored current _ db next (found_by_id id db found) kept in
    let made : apply_canvas_operations current.snapshot ops ≡ ok snapshot =
      lift-ok (apply_canvas_operations current.snapshot ops) lifted in
    (
      member,
      current,
      snapshot,
      get_workspace_member-find id actor context db is_member,
      may_edit-role member.role (guard-eq-ok (may_edit member.role) _ allowed),
      found,
      version,
      made,
      apply_canvas_operations-IsWellFormed current.snapshot ops made,
      answer,
      Stored-IsOneVersionOn current _ db next _ stored answer,
    )

-- On consistent tables, a stored save can be taken back: a rollback to the version before is
-- stored, as a new version with the snapshot from before the save.
pub rollback-update_workspace :
    (id : String) (expected : ℕ) (snapshot : Snapshot) (summary actor correlation_id now : String)
    (given : Option String) (actor' correlation_id' now' : String) (db next : Database)
    (before : WorkspaceRow) {w : WorkspaceRow}
    → IsConsistent db
    → find_workspace id db ≡ some before
    → update_workspace id expected snapshot summary actor correlation_id now db ≡ ok (next, w)
    → (last : Database) × (w' : WorkspaceRow) × (rollback_workspace id
          (expected + 1)
          expected
          given
          actor'
          correlation_id'
          now'
          next
        ≡ ok (last, w'))
      × (w'.snapshot ≡ before.snapshot)
      × (w'.version ≡ expected + 2)
unfolding rollback_workspace
rollback-update_workspace id expected snapshot s a c n given a' c' n' db next before {w} con found
      h =
    let a = update_workspace-Advanced id expected snapshot s a c n db next h in
    let (found', version) = Advanced-find_workspace id expected db next a in
    let (row, kept, same) = Advanced-before id expected db next before con found a in
    let target = Advanced-find_revision id expected db next id expected a kept in
    let change : Change = record {
      snapshot = row.snapshot;
      summary = rollback_summary given expected;
      actor = a';
      action = "workspace.rolled_back";
      details = rolled_back w.version (w.version + 1) expected (rollback_summary given expected);
      correlation_id = c';
      now = n';
    } in
    let (last, stored) =
      store_version_ok id next w change (Advanced-IsConsistent id expected db next a con) found' in
    (
      last,
      new_row w change,
      rw (checkout_ok id (expected + 1) next found' version, target) stored,
      same,
      rw version (omega arith),
    )
