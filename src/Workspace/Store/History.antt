-- ===== src/Workspace/Store/History.antt =====
-- Every sequence of handler calls, each in its transaction.
use open_data_fusion.Prelude.{String, ℕ, ◌≡◌, refl, Option, some, List, [], ◌∷◌}
use open_data_fusion.Prelude.Result.{Result, ok, err}
use open_data_fusion.Workspace.Snapshot.{Snapshot, Operation}
use open_data_fusion.Workspace.Store.Tables.{
  Role, RevisionRow, Database, Context, Error, Outcome, commit, tables, find_revision, LedgerRow,
}
use open_data_fusion.Workspace.Store.Members.{
  create_workspace, upsert_workspace_member, remove_workspace_member,
}
use open_data_fusion.Workspace.Store.Edits.{
  update_workspace, apply_workspace_operations, rollback_workspace,
}
use open_data_fusion.Workspace.Store.Consistent.{IsConsistent}
use open_data_fusion.Workspace.Store.Owners.{
  create_workspace-IsConsistent, upsert_workspace_member-IsConsistent,
  remove_workspace_member-IsConsistent, create_workspace-find_revision,
  upsert_workspace_member-find_revision, remove_workspace_member-find_revision,
}
use open_data_fusion.Workspace.Store.Versions.{
  Advanced-IsConsistent, Advanced-find_revision, update_workspace-Advanced,
  apply_workspace_operations-Advanced, rollback_workspace-Advanced,
}

-- A call of a handler, with its arguments.
pub data Call : Type 0 where
  create : Context → (id name actor display_name correlation_id now : String) → Call
  upsert :
      (id actor target display_name : String)
      → Role
      → (correlation_id now : String) → Option Context
      → Call
  remove : (id actor target correlation_id now : String) → Option Context → Call
  save : (id : String) → ℕ → Snapshot → (summary actor correlation_id now : String) → Call
  edit :
      (id actor : String)
      → ℕ
      → (summary : String) → List Operation
      → (correlation_id now : String) → Option Context
      → Call
  rollback :
      (id : String)
      → (expected target : ℕ) → Option String
      → (actor correlation_id now : String) → Call

invoke : Call → Database → Result Error Database
invoke (create context id name actor display correlation now) db =
    tables (create_workspace context id name actor display correlation now db)
invoke (upsert id actor target display role correlation now context) db =
    tables (upsert_workspace_member id actor target display role correlation now context db)
invoke (remove id actor target correlation now context) db =
    tables (remove_workspace_member id actor target correlation now context db)
invoke (save id expected snapshot summary actor correlation now) db =
    tables (update_workspace id expected snapshot summary actor correlation now db)
invoke (edit id actor base summary operations correlation now context) db =
    tables (apply_workspace_operations id actor base summary operations correlation now context db)
invoke (rollback id expected target given actor correlation now) db =
    tables (rollback_workspace id expected target given actor correlation now db)

-- A call in its transaction.
unfoldable pub run : Call → Database → Database
unfolding invoke
run call db = commit db (invoke call db)

unfoldable pub run_all : List Call → Database → Database
unfolding run
run_all [] db = db
run_all (call ∷ calls) db = run_all calls (run call db)

abbrev pub empty_database : Option (List LedgerRow) → Database
empty_database ledger = record {
  workspaces = [];
  scopes = [];
  revisions = [];
  members = [];
  audit = [];
  ledger = ledger;
}

tables-ok :
    {A : Type 0} (m : Outcome A) {next : Database}
    → tables m ≡ ok next
    → (a : A) × (m ≡ ok (next, a))
tables-ok (ok (next, a)) h = (a, cc)
tables-ok (err e) h = cc

-- What holds before, and of the tables that a call leaves, holds after its transaction.
commit_ind :
    (P : Database → Type 0) (db : Database) (r : Result Error Database)
    → P db
    → ((next : Database) → r ≡ ok next → P next)
    → P (commit db r)
commit_ind P db (ok next) before after = after next refl
commit_ind P db (err e) before after = before

invoke-IsConsistent :
    (call : Call) (db next : Database)
    → invoke call db ≡ ok next
    → IsConsistent db
    → IsConsistent next
unfolding invoke
invoke-IsConsistent (create x id name actor display correlation now) db next e c =
    let (_, h) = tables-ok (create_workspace x id name actor display correlation now db) e in
    create_workspace-IsConsistent x id name actor display correlation now db next h c
invoke-IsConsistent (upsert id actor target display role correlation now x) db next e c =
    let (_, h) =
      tables-ok (upsert_workspace_member id actor target display role correlation now x db) e in
    upsert_workspace_member-IsConsistent id actor target display role correlation now x db next h c
invoke-IsConsistent (remove id actor target correlation now x) db next e c =
    let (_, h) = tables-ok (remove_workspace_member id actor target correlation now x db) e in
    remove_workspace_member-IsConsistent id actor target correlation now x db next h c
invoke-IsConsistent (save id expected snapshot summary actor correlation now) db next e c =
    let (_, h) =
      tables-ok (update_workspace id expected snapshot summary actor correlation now db) e in
    Advanced-IsConsistent id expected db next
      (update_workspace-Advanced id expected snapshot summary actor correlation now db next h) c
invoke-IsConsistent (edit id actor base summary ops correlation now x) db next e c =
    let (_, h) =
      tables-ok (apply_workspace_operations id actor base summary ops correlation now x db) e in
    Advanced-IsConsistent id base db next
      (apply_workspace_operations-Advanced id actor base summary ops correlation now x db next h) c
invoke-IsConsistent (rollback id expected target given actor correlation now) db next e c =
    let (_, h) =
      tables-ok (rollback_workspace id expected target given actor correlation now db) e in
    Advanced-IsConsistent id expected db next
      (rollback_workspace-Advanced id expected target given actor correlation now db next h) c

run-IsConsistent : (call : Call) (db : Database) → IsConsistent db → IsConsistent (run call db)
unfolding run
run-IsConsistent call db c =
    commit_ind IsConsistent db (invoke call db) c (λ next e. invoke-IsConsistent call db next e c)

run_all_keeps :
    (calls : List Call) (db : Database) → IsConsistent db → IsConsistent (run_all calls db)
unfolding run_all
run_all_keeps [] db c = c
run_all_keeps (call ∷ calls) db c = run_all_keeps calls (run call db) (run-IsConsistent call db c)

-- Whatever the calls on an empty store: each workspace has an owner, its snapshot is the one of the
-- revision with its version, no revision is newer, and no revision is without its workspace.
pub run_all-IsConsistent :
    (calls : List Call) (ledger : Option (List LedgerRow))
    → IsConsistent (run_all calls (empty_database ledger))
run_all-IsConsistent calls ledger = run_all_keeps calls (empty_database ledger) (λ id. refl)

module _ (j : String) (v : ℕ) {r : RevisionRow} where
  invoke-find_revision :
      (call : Call) (db next : Database)
      → invoke call db ≡ ok next
      → find_revision j v db ≡ some r
      → find_revision j v next ≡ some r
  unfolding invoke
  invoke-find_revision (create x id name actor display correlation now) db next e =
      let (_, h) = tables-ok (create_workspace x id name actor display correlation now db) e in
      create_workspace-find_revision x id name actor display correlation now db next j v h
  invoke-find_revision (upsert id actor target display role correlation now x) db next e =
      let (_, h) =
        tables-ok (upsert_workspace_member id actor target display role correlation now x db) e in
      upsert_workspace_member-find_revision id actor target display role correlation now x db next j
        v h
  invoke-find_revision (remove id actor target correlation now x) db next e =
      let (_, h) = tables-ok (remove_workspace_member id actor target correlation now x db) e in
      remove_workspace_member-find_revision id actor target correlation now x db next j v h
  invoke-find_revision (save id expected snapshot summary actor correlation now) db next e =
      let (_, h) =
        tables-ok (update_workspace id expected snapshot summary actor correlation now db) e in
      Advanced-find_revision id expected db next j v
        (update_workspace-Advanced id expected snapshot summary actor correlation now db next h)
  invoke-find_revision (edit id actor base summary ops correlation now x) db next e =
      let (_, h) =
        tables-ok (apply_workspace_operations id actor base summary ops correlation now x db) e in
      Advanced-find_revision id base db next j v
        (apply_workspace_operations-Advanced id actor base summary ops correlation now x db next h)
  invoke-find_revision (rollback id expected target given actor correlation now) db next e =
      let (_, h) =
        tables-ok (rollback_workspace id expected target given actor correlation now db) e in
      Advanced-find_revision id expected db next j v
        (rollback_workspace-Advanced id expected target given actor correlation now db next h)

  run-find_revision :
      (call : Call) (db : Database)
      → find_revision j v db ≡ some r
      → find_revision j v (run call db) ≡ some r
  unfolding run
  run-find_revision call db e =
      commit_ind (λ d. find_revision j v d ≡ some r) db (invoke call db) e
        (λ next h. invoke-find_revision call db next h e)

  -- A revision that was stored is never changed and never lost, whatever the calls after it.
  pub run_all-find_revision :
      (calls : List Call) (db : Database)
      → find_revision j v db ≡ some r
      → find_revision j v (run_all calls db) ≡ some r
  unfolding run_all
  run_all-find_revision [] db e = e
  run_all-find_revision (call ∷ calls) db e =
      run_all-find_revision calls (run call db) (run-find_revision call db e)
