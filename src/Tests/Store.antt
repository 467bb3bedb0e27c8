-- ===== src/Tests/Store.antt =====
-- A workspace that is created, saved, edited and rolled back.
use open_data_fusion.Workspace.Store.Effects.{IsOneVersionOn}
use open_data_fusion.Prelude.{
  String, String_discrete, ◌≡◌, refl, ◌⊎◌, ◌+◌, none, some, List, [], ◌∷◌,
}
use open_data_fusion.Prelude.Result.{ok, err}
use open_data_fusion.Workspace.Snapshot.{Snapshot, add_node, apply_canvas_operations}
use open_data_fusion.Workspace.Snapshot.Valid.{IsWellFormed}
use open_data_fusion.Workspace.Store.Tables.{
  owner, editor, saved, operations_applied, Details, AuditRow, RevisionRow, WorkspaceRow, MemberRow,
  Database, Context, stale_version, find_workspace, find_revision, find_member, insert_audit,
  get_workspace_member,
}
use open_data_fusion.Workspace.Store.Members.{
  empty_snapshot, new_workspace, first_revision, create_workspace,
}
use open_data_fusion.Workspace.Store.Edits.{
  checkout, store_version, update_workspace, apply_workspace_operations, rollback_workspace,
}
use open_data_fusion.Workspace.Store.Consistent.{IsConsistent, new_row}
use open_data_fusion.Workspace.Store.Versions.{save_change}
use open_data_fusion.Workspace.Store.History.{
  Call, create, upsert, remove, save, edit, rollback, run, run_all, empty_database,
  run_all-IsConsistent, run_all-find_revision,
}
use open_data_fusion.Workspace.Store.Concurrency.{
  update_workspace_total, second_save_refused, apply_workspace_operations_ok,
  rollback-update_workspace,
}
use open_data_fusion.Tests.Canvas.{plant, node}

abbrev context : Context
context = record { tenant_id = "t"; project_id = "p" }

abbrev creation : List Call
creation = create context "w" "Plant" "ann" "Ann" "c0" "day 0" ∷ []

abbrev fresh : Database
fresh = run_all creation (empty_database (some []))

abbrev later : List Call
later =
    upsert "w" "ann" "bob" "Bob" editor "c1" "day 1" (some context)
    ∷ save "w" 1 plant "Draw" "ann" "c2" "day 2"
    ∷ edit "w" "bob" 2 "Valve" (add_node (node "valve") ∷ []) "c3" "day 3" (some context)
    ∷ rollback "w" 3 2 none "ann" "c4" "day 4"
    ∷ remove "w" "ann" "ann" "c5" "day 5" (some context)
    ∷ []

abbrev start : WorkspaceRow
start = new_workspace "w" "Plant" "ann" "day 0"

run_all-IsConsistent_example : IsConsistent (run_all later fresh)
unfolding run_all
run_all-IsConsistent_example =
    run_all-IsConsistent (create context "w" "Plant" "ann" "Ann" "c0" "day 0" ∷ later) (some [])

fresh-IsConsistent : IsConsistent fresh
fresh-IsConsistent = run_all-IsConsistent creation (some [])

fresh-revision : find_revision "w" 1 fresh ≡ some (first_revision "w" "ann" "c0" "day 0")
unfolding run_all String_discrete create_workspace insert_audit
fresh-revision = refl

fresh-workspace : find_workspace "w" fresh ≡ some start
unfolding run_all String_discrete create_workspace insert_audit
fresh-workspace = refl

run_all-find_revision_example :
    find_revision "w" 1 (run_all later fresh) ≡ some (first_revision "w" "ann" "c0" "day 0")
run_all-find_revision_example = run_all-find_revision "w" 1 later fresh fresh-revision

abbrev after_save : Database
after_save = run (save "w" 1 plant "Draw" "ann" "c2" "day 2") fresh

abbrev saved_row : WorkspaceRow
saved_row = new_row start (save_change start plant "Draw" "ann" "c2" "day 2")

saves : update_workspace "w" 1 plant "Draw" "ann" "c2" "day 2" fresh ≡ ok (after_save, saved_row)
unfolding update_workspace run_all run String_discrete create_workspace insert_audit checkout
    store_version
saves = refl

abbrev revision : Snapshot → (summary correlation_id now : String) → RevisionRow
revision snapshot summary correlation_id now = record {
  workspace_id = "w";
  version = 2;
  snapshot = snapshot;
  change_summary = summary;
  actor = "ann";
  created_at = now;
  correlation_id = correlation_id;
}

abbrev entry : (action : String) → Details → (correlation_id now : String) → AuditRow
entry action details correlation_id now = record {
  timestamp = now;
  actor = "ann";
  action = action;
  entity_type = "workspace";
  entity_id = "w";
  details = details;
  correlation_id = correlation_id;
}

update_workspace_total_example :
    (start.version ≡ 1
      → (next : Database) × (w : WorkspaceRow) × (update_workspace "w" 1 plant "Draw" "ann" "c2"
            "day 2" fresh
          ≡ ok (next, w))
        × (w ≡ saved_row)
        × IsOneVersionOn fresh next w
            (revision plant "Draw" "c2" "day 2")
            (entry "workspace.saved" (saved 1 2 "Draw") "c2" "day 2"))
    × ((start.version ≡ 1 → ⊥)
        → update_workspace "w" 1 plant "Draw" "ann" "c2" "day 2" fresh
          ≡ err (stale_version "w" start.version 1))
update_workspace_total_example =
    update_workspace_total "w" 1 plant "Draw" "ann" "c2" "day 2" fresh start fresh-IsConsistent
      fresh-workspace

second_save_refused_example :
    update_workspace "w" 1 empty_snapshot "Clear" "bob" "c6" "day 2" after_save
    ≡ err (stale_version "w" (1 + 1) 1)
second_save_refused_example =
    second_save_refused "w" 1 plant empty_snapshot "Draw" "ann" "c2" "day 2" "Clear" "bob" "c6"
      "day 2" fresh after_save saves

abbrev after_edit : Database
after_edit =
    run (edit "w" "ann" 1 "Valve" (add_node (node "valve") ∷ []) "c3" "day 3" (some context)) fresh

abbrev with_valve : Snapshot
with_valve = record empty_snapshot { nodes = node "valve" ∷ [] }

abbrev edited_row : WorkspaceRow
edited_row = record start {
  version = 2;
  snapshot = with_valve;
  updated_by = "ann";
  updated_at = "day 3";
}

edits :
    apply_workspace_operations "w" "ann" 1 "Valve"
      (add_node (node "valve") ∷ [])
      "c3"
      "day 3"
      (some context)
      fresh
    ≡ ok (after_edit, edited_row)
unfolding apply_workspace_operations run_all run String_discrete create_workspace insert_audit
    checkout store_version get_workspace_member apply_canvas_operations
edits = refl

apply_workspace_operations_ok_example :
    (member : MemberRow) × (current : WorkspaceRow) × (snapshot : Snapshot) × (find_member "w" "ann"
        fresh
      ≡ some member)
    × ((member.role ≡ owner) ⊎ (member.role ≡ editor))
    × (find_workspace "w" fresh ≡ some current)
    × (current.version ≡ 1)
    × (apply_canvas_operations current.snapshot (add_node (node "valve") ∷ []) ≡ ok snapshot)
    × IsWellFormed snapshot
    × (edited_row ≡ record current {
      snapshot = snapshot;
      version = current.version + 1;
      updated_by = "ann";
      updated_at = "day 3";
    })
    × IsOneVersionOn fresh after_edit edited_row
        (record {
          workspace_id = current.id;
          version = current.version + 1;
          snapshot = snapshot;
          change_summary = "Valve";
          actor = "ann";
          created_at = "day 3";
          correlation_id = "c3";
        })
        (record {
          timestamp = "day 3";
          actor = "ann";
          action = "workspace.operations_applied";
          entity_type = "workspace";
          entity_id = current.id;
          details =
              operations_applied current.version
                (current.version + 1)
                "Valve"
                (add_node (node "valve") ∷ []);
          correlation_id = "c3";
        })
apply_workspace_operations_ok_example =
    apply_workspace_operations_ok "w" "ann" 1 "Valve" (add_node (node "valve") ∷ []) "c3" "day 3"
      (some context) fresh after_edit edits

rollback-update_workspace_example :
    (last : Database) × (w' : WorkspaceRow) × (rollback_workspace "w"
        (1 + 1)
        1
        none
        "bob"
        "c7"
        "day 4"
        after_save
      ≡ ok (last, w'))
    × (w'.snapshot ≡ start.snapshot)
    × (w'.version ≡ 1 + 2)
rollback-update_workspace_example =
    rollback-update_workspace "w" 1 plant "Draw" "ann" "c2" "day 2" none "bob" "c7" "day 4" fresh
      after_save start fresh-IsConsistent fresh-workspace saves
