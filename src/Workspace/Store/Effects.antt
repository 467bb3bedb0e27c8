-- ===== src/Workspace/Store/Effects.antt =====
-- What a stored version does to the tables of apps/api/src/database.ts.
use open_data_fusion.Prelude.{
  String, String_discrete, ◌==◌, ◌≡◌, refl, sym, subst, true, false, some, [], ◌∷◌, ◌++◌,
  if◌then◌else◌, ◌⊎◌, inl, inr,
}
use open_data_fusion.Workspace.Store.Tables.{
  WorkspaceRow, RevisionRow, AuditRow, Role, owner, editor, reviewer, viewer, Database,
  find_workspace,
}
use open_data_fusion.Workspace.Store.Edits.{Change, may_edit, new_revision, change_entry}
use open_data_fusion.Workspace.Store.Consistent.{new_row, Stored}
use open_data_fusion.Workspace.Store.Versions.{find_workspace-id}

-- A row that is found is found by its own id.
pub found_by_id :
    (id : String) (db : Database) {c : WorkspaceRow}
    → find_workspace id db ≡ some c
    → find_workspace c.id db ≡ some c
found_by_id id db {c} found =
    subst (λ j. find_workspace j db ≡ some c) (sym (find_workspace-id id db found)) found

-- The tables that differ by one row of a workspace, one new revision and one new audit entry.
abbrev pub IsOneVersionOn : (db next : Database) → WorkspaceRow → RevisionRow → AuditRow → Type 0
IsOneVersionOn db next w r entry =
    ((j : String) → find_workspace j next ≡ (if w.id == j then some w else find_workspace j db))
    × (next.revisions ≡ db.revisions ++ r ∷ [])
    × (next.audit ≡ db.audit ++ entry ∷ [])
    × (next.members ≡ db.members)
    × (next.scopes ≡ db.scopes)

pub Stored-IsOneVersionOn :
    (current : WorkspaceRow) (change : Change) (db next : Database) (w : WorkspaceRow)
    → Stored current change db next
    → w ≡ new_row current change
    → IsOneVersionOn db next w (new_revision current change) (change_entry current change)
Stored-IsOneVersionOn current change db next w s answer =
    subst
      (λ (v : WorkspaceRow).
        IsOneVersionOn db next v (new_revision current change) (change_entry current change))
      (sym answer) (rows, s.appended, s.logged, s.members, s.scopes)
  where
    rows :
        (j : String)
        → find_workspace j next
          ≡ (if current.id == j then some (new_row current change) else find_workspace j db)
    rows j =
        elim (String_discrete current.id j)
          as (λ d. find_workspace j next ≡ (
            if elim d [ yes _ ↦ true | no _ ↦ false ]
            then some (new_row current change)
            else find_workspace j db)) [
              | yes same ↦
                  subst (λ k. find_workspace k next ≡ some (new_row current change)) same s.here
              | no other ↦ s.elsewhere j other
            ]

-- Who may edit.
pub may_edit-role : (role : Role) → may_edit role ≡ true → (role ≡ owner) ⊎ (role ≡ editor)
may_edit-role owner h = inl refl
may_edit-role editor h = inr refl
may_edit-role reviewer h = cc
may_edit-role viewer h = cc
