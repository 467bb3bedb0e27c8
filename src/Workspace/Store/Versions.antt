-- ===== src/Workspace/Store/Versions.antt =====
-- Optimistic concurrency and rollback, handler by handler.
use open_data_fusion.Prelude.{
  String, ◌==◌, ℕ, ◌+◌, ◌≡◌, refl, subst, sym, ◌≢◌, false, Option, some, List, arith, any,
}
use open_data_fusion.Prelude.Search.{find_passes, find-append}
use open_data_fusion.Prelude.Result.{ok, err, >>=-eq-ok, guard}
use open_data_fusion.Workspace.Snapshot.{Snapshot, Operation, apply_canvas_operations}
use open_data_fusion.Workspace.Store.Tables.{
  WorkspaceRow, RevisionRow, MemberRow, Database, Context, stale_version, find_workspace,
  find_revision, find_member, require, get_workspace_member, saved,
}
use open_data_fusion.Workspace.Store.Edits.{
  Change, checkout, may_edit, lift, store_version, update_workspace, apply_workspace_operations,
  rollback_workspace,
}
use open_data_fusion.Workspace.Store.Consistent.{
  is_later, IsCurrent, IsConsistent, Stored-IsConsistent, new_row, Stored, store_version-Stored,
  store_version_total,
}

pub find_workspace-id :
    (id : String) (db : Database) {w : WorkspaceRow} → find_workspace id db ≡ some w → w.id ≡ id
find_workspace-id id db h = ground (arith, find_passes (λ w. w.id == id) db.workspaces h)

pub checkout_lem :
    (id : String) (expected : ℕ) (db : Database) {w : WorkspaceRow}
    → checkout id expected db ≡ ok w
    → (find_workspace id db ≡ some w) × (w.version ≡ expected)
unfolding checkout
checkout_lem id expected db h = ground arith

pub checkout_ok :
    (id : String) (expected : ℕ) (db : Database) {w : WorkspaceRow}
    → find_workspace id db ≡ some w
    → w.version ≡ expected
    → checkout id expected db ≡ ok w
unfolding checkout
checkout_ok id expected db found e = ground arith

pub checkout_stale :
    (id : String) (expected : ℕ) (db : Database) {w : WorkspaceRow}
    → find_workspace id db ≡ some w
    → w.version ≢ expected
    → checkout id expected db ≡ err (stale_version id w.version expected)
unfolding checkout
checkout_stale id expected db found ne = ground arith

-- The lookup that `getWorkspaceMember` ends with.
pub get_workspace_member-find :
    (id user_id : String) (context : Option Context) (db : Database) {m : MemberRow}
    → get_workspace_member id user_id context db ≡ ok m
    → find_member id user_id db ≡ some m
unfolding get_workspace_member
get_workspace_member-find id user_id context db h = ground arith

-- On consistent tables nothing keeps a version from being stored.
pub store_version_ok :
    (id : String) (db : Database) (current : WorkspaceRow) (change : Change)
    → IsConsistent db
    → find_workspace id db ≡ some current
    → (next : Database) × (store_version current change db ≡ ok (next, new_row current change))
store_version_ok id db current change c found =
    let same = find_workspace-id id db found in
    let here : IsCurrent db id current = rw found at (c id) in
    store_version_total current change db
      (subst (λ j. find_workspace j db ≡ some current) (sym same) found)
      (subst (λ j. any (is_later j current.version) db.revisions ≡ false) (sym same) here.newest)

-- The change that a save makes.
abbrev pub save_change :
    WorkspaceRow → Snapshot → (summary actor correlation_id now : String) → Change
save_change current snapshot summary actor correlation_id now = record {
  snapshot = snapshot;
  summary = summary;
  actor = actor;
  action = "workspace.saved";
  details = saved current.version (current.version + 1) summary;
  correlation_id = correlation_id;
  now = now;
}

-- What a handler that stores a version has done, whichever it is: it started from the expected
-- version, and stored the next one.
pub record Advanced (id : String) (expected : ℕ) (db next : Database) (w : WorkspaceRow)
    : Type 0 where
  pub current : WorkspaceRow
  pub change : Change
  pub found : find_workspace id db ≡ some current
  pub same_id : current.id ≡ id
  pub expected_version : current.version ≡ expected
  pub stored : Stored current change db next
  pub result : w ≡ new_row current change

Advanced-store_version :
    (id : String) (expected : ℕ) (db next : Database) (w current : WorkspaceRow) (change : Change)
    → checkout id expected db ≡ ok current
    → store_version current change db ≡ ok (next, w)
    → Advanced id expected db next w
Advanced-store_version id expected db next w current change checked stored =
    let (found, version) = checkout_lem id expected db checked in
    let same = find_workspace-id id db found in
    let (s, result) =
      store_version-Stored current change db next
        (subst (λ j. find_workspace j db ≡ some current) (sym same) found) stored in
    record {
      current = current;
      change = change;
      found = found;
      same_id = same;
      expected_version = version;
      stored = s;
      result = result;
    }

pub update_workspace-Advanced :
    (id : String) (expected : ℕ) (snapshot : Snapshot) (summary actor correlation_id now : String)
    (db next : Database) {w : WorkspaceRow}
    → update_workspace id expected snapshot summary actor correlation_id now db ≡ ok (next, w)
    → Advanced id expected db next w
unfolding update_workspace
update_workspace-Advanced id expected snapshot summary actor correlation now db next {w} h =
    let (current, checked, stored) = >>=-eq-ok (checkout id expected db) _ h in
    Advanced-store_version id expected db next w current _ checked stored

pub apply_workspace_operations-Advanced :
    (id actor : String) (base : ℕ) (summary : String) (operations : List Operation)
    (correlation_id now : String) (context : Option Context) (db next : Database) {w : WorkspaceRow}
    → apply_workspace_operations id actor base summary operations correlation_id now context db
      ≡ ok (next, w)
    → Advanced id base db next w
unfolding apply_workspace_operations
apply_workspace_operations-Advanced id actor base summary ops correlation now context db next {w}
      h =
    let (member, _, h₁) = >>=-eq-ok (get_workspace_member id actor context db) _ h in
    let (_, _, h₂) = >>=-eq-ok (guard (may_edit member.role) _) _ h₁ in
    let (current, checked, h₃) = >>=-eq-ok (checkout id base db) _ h₂ in
    let (_, _, stored) = >>=-eq-ok (lift (apply_canvas_operations current.snapshot ops)) _ h₃ in
    Advanced-store_version id base db next w current _ checked stored

pub rollback_workspace-Advanced :
    (id : String) (expected target : ℕ) (given : Option String) (actor correlation_id now : String)
    (db next : Database) {w : WorkspaceRow}
    → rollback_workspace id expected target given actor correlation_id now db ≡ ok (next, w)
    → Advanced id expected db next w
unfolding rollback_workspace
rollback_workspace-Advanced id expected target given actor correlation now db next {w} h =
    let (current, checked, h₁) = >>=-eq-ok (checkout id expected db) _ h in
    let (_, _, stored) = >>=-eq-ok (require (find_revision id target db) _) _ h₁ in
    Advanced-store_version id expected db next w current _ checked stored

-- A version that was stored can be looked up; the revisions from before can too, as they were.
pub Advanced-find_workspace :
    (id : String) (expected : ℕ) (db next : Database) {w : WorkspaceRow}
    → Advanced id expected db next w
    → (find_workspace id next ≡ some w) × (w.version ≡ expected + 1)
Advanced-find_workspace id expected db next a = (
  rw a.result (
      subst (λ j. find_workspace j next ≡ some (new_row a.current a.change)) a.same_id
        a.stored.here),
  rw (a.result, a.expected_version) refl,
)

pub Advanced-find_revision :
    (id : String) (expected : ℕ) (db next : Database) {w : WorkspaceRow} (j : String) (v : ℕ)
    {r : RevisionRow}
    → Advanced id expected db next w
    → find_revision j v db ≡ some r
    → find_revision j v next ≡ some r
Advanced-find_revision id expected db next j v a found =
    rw (a.stored.appended, find-append, found) refl

pub Advanced-IsConsistent :
    (id : String) (expected : ℕ) (db next : Database) {w : WorkspaceRow}
    → Advanced id expected db next w
    → IsConsistent db
    → IsConsistent next
Advanced-IsConsistent id expected db next a =
    Stored-IsConsistent a.current a.change db next
      (subst (λ j. find_workspace j db ≡ some a.current) (sym a.same_id) a.found) a.stored
