-- ===== src/Workspace/Store/Consistent.antt =====
-- What the tables of a workspace have in common, and the handlers that store a version.
use open_data_fusion.Prelude.{
  String, String_discrete, ◌==◌, ℕ, inl, inr, ◌+◌, ◌≤◌, ◌≡◌, refl, ◌≢◌, Bool, false, ◌&&◌, Option,
  none, some, List, [], ◌∷◌, ◌++◌, arith, if◌then◌else◌, any, find, ltb, Option-cases, ==_refl,
}
use open_data_fusion.Prelude.Search.{any-append, find-append, find_of_not_any, any_mono}
use open_data_fusion.Prelude.Result.{ok}
use open_data_fusion.Workspace.Store.Tables.{
  WorkspaceRow, RevisionRow, Database, find_workspace, find_revision, is_revision, owner_count,
  insert_audit,
}
use open_data_fusion.Workspace.Store.Edits.{
  Change, update_row, new_revision, change_entry, store_version,
}

abbrev pub is_later : String → ℕ → RevisionRow → Bool
is_later id version r = r.workspace_id == id && ltb version r.version

-- No revision is newer than the workspace, the one of its version holds its snapshot, and it has an
-- owner.
pub record IsCurrent (db : Database) (id : String) (w : WorkspaceRow) : Type 0 where
  pub newest : any (is_later id w.version) db.revisions ≡ false
  pub kept :
      (r : RevisionRow) × (find_revision id w.version db ≡ some r) × (r.snapshot ≡ w.snapshot)
  pub owned : 1 ≤ owner_count id db

-- An id with no workspace has no revisions.
abbrev pub Consistent : Option WorkspaceRow → String → Database → Type 0
Consistent none id db = any (λ r. r.workspace_id == id) db.revisions ≡ false
Consistent (some w) id db = IsCurrent db id w

abbrev pub IsConsistent : Database → Type 0
IsConsistent db = (id : String) → Consistent (find_workspace id db) id db

-- A handler that leaves the workspace in its row and keeps its owners.
pub Consistent-same :
    (db next : Database) (id : String)
    → find_workspace id next ≡ find_workspace id db
    → next.revisions ≡ db.revisions
    → (1 ≤ owner_count id db → 1 ≤ owner_count id next)
    → Consistent (find_workspace id db) id db
    → Consistent (find_workspace id next) id next
Consistent-same db next id same revs owners c =
    rw same (elim (Option-cases (find_workspace id db)) [
      | inl gone ↦ rw gone (rw revs (rw gone at c))
      | inr (w, found) ↦
          let c' : IsCurrent db id w = rw found at c in
          rw found (record {
            newest = rw revs c'.newest;
            kept = (c'.kept.0, rw revs c'.kept.1, c'.kept.2);
            owned = owners c'.owned;
          })
    ])

-- A handler that adds a revision of another workspace.
pub Consistent-append :
    (db next : Database) (r : RevisionRow) (id : String)
    → r.workspace_id ≢ id
    → find_workspace id next ≡ find_workspace id db
    → next.revisions ≡ db.revisions ++ r ∷ []
    → (1 ≤ owner_count id db → 1 ≤ owner_count id next)
    → Consistent (find_workspace id db) id db
    → Consistent (find_workspace id next) id next
Consistent-append db next r id other same revs owners c =
    rw same (elim (Option-cases (find_workspace id db)) [
      | inl gone ↦
          let c' : any (λ r. r.workspace_id == id) db.revisions ≡ false = rw gone at c in
          rw gone (rw (revs, any-append) (ground arith))
      | inr (w, found) ↦
          let c' : IsCurrent db id w = rw found at c in
          rw found (record {
            newest = rw (revs, any-append) (ground (arith, c'.newest));
            kept = (c'.kept.0, rw (revs, find-append, c'.kept.1) refl, c'.kept.2);
            owned = owners c'.owned;
          })
    ])

find-update_row :
    (current : WorkspaceRow) (change : Change) (j : String) (xs : List WorkspaceRow)
    → find (λ w. w.id == current.id) xs ≡ some current
    → find (λ w. w.id == j) (update_row current change xs) ≡ (
        if current.id == j
        then some (record current {
          snapshot = change.snapshot;
          version = current.version + 1;
          updated_by = change.actor;
          updated_at = change.now;
        })
        else find (λ w. w.id == j) xs)
find-update_row current change j [] h = cc
find-update_row current change j (x ∷ xs) h = ground (arith, find-update_row current change j xs)

abbrev pub new_row : WorkspaceRow → Change → WorkspaceRow
new_row current change = record current {
  snapshot = change.snapshot;
  version = current.version + 1;
  updated_by = change.actor;
  updated_at = change.now;
}

-- What a stored version changes, but for the mirror of the audit log.
pub record Stored (current : WorkspaceRow) (change : Change) (db next : Database) : Type 0 where
  pub here : find_workspace current.id next ≡ some (new_row current change)
  pub elsewhere : (j : String) → current.id ≢ j → find_workspace j next ≡ find_workspace j db
  pub appended : next.revisions ≡ db.revisions ++ new_revision current change ∷ []
  pub members : next.members ≡ db.members
  pub scopes : next.scopes ≡ db.scopes
  pub logged : next.audit ≡ db.audit ++ change_entry current change ∷ []
  pub fresh : any (is_revision current.id (current.version + 1)) db.revisions ≡ false

pub store_version-Stored :
    (current : WorkspaceRow) (change : Change) (db next : Database) {w : WorkspaceRow}
    → find_workspace current.id db ≡ some current
    → store_version current change db ≡ ok (next, w)
    → Stored current change db next × (w ≡ new_row current change)
unfolding store_version insert_audit
store_version-Stored current change db next {w} found h = (
  record {
    here = ground (arith, find-update_row current change current.id db.workspaces);
    elsewhere = λ j ne. ground (arith, find-update_row current change j db.workspaces);
    appended = ground (arith, find-update_row current change current.id db.workspaces);
    members = ground (arith, find-update_row current change current.id db.workspaces);
    scopes = ground (arith, find-update_row current change current.id db.workspaces);
    logged = ground (arith, find-update_row current change current.id db.workspaces);
    fresh = ground (arith, find-update_row current change current.id db.workspaces);
  },
  ground (arith, find-update_row current change current.id db.workspaces),
)

-- Where no revision is newer than the workspace, the version is stored.
pub store_version_total :
    (current : WorkspaceRow) (change : Change) (db : Database)
    → find_workspace current.id db ≡ some current
    → any (is_later current.id current.version) db.revisions ≡ false
    → (next : Database) × (store_version current change db ≡ ok (next, new_row current change))
unfolding store_version insert_audit
store_version_total current change db found newest =
    let fresh =
      any_mono (is_revision current.id (current.version + 1)) (is_later current.id current.version)
        (λ r p. ground arith) db.revisions newest in
    let after = find-update_row current change current.id db.workspaces found in
    (
      insert_audit (change_entry current change) (record db {
        workspaces = update_row current change db.workspaces;
        revisions = db.revisions ++ new_revision current change ∷ [];
      }),
      ground arith,
    )

-- A stored version keeps the tables consistent.
pub Stored-IsConsistent :
    (current : WorkspaceRow) (change : Change) (db next : Database)
    → find_workspace current.id db ≡ some current
    → Stored current change db next
    → IsConsistent db
    → IsConsistent next
Stored-IsConsistent current change db next found s c j = elim (String_discrete current.id j) [
  | yes same ↦
      let before : IsCurrent db current.id current = rw found at (c current.id) in
      rw (← same) (
        rw s.here (record {
          newest = later_gone before.newest;
          kept = (new_revision current change, revision_there, refl);
          owned = rw s.members before.owned;
        }))
  | no other ↦
      Consistent-append db next (new_revision current change) j other (s.elsewhere j other)
        s.appended (λ h. rw s.members h) (c j)
]
  where
    later_gone :
        any (is_later current.id current.version) db.revisions ≡ false
        → any (is_later current.id (current.version + 1)) next.revisions ≡ false
    later_gone h =
        rw (s.appended, any-append)
          (ground (
            arith,
            any_mono (is_later current.id (current.version + 1))
                (is_later current.id current.version) (λ r p. ground arith) db.revisions h,
          ))

    revision_there :
        find_revision current.id (current.version + 1) next ≡ some (new_revision current change)
    revision_there =
        rw (s.appended, find-append, find_of_not_any _ db.revisions s.fresh)
          (ground (arith, ==_refl current.id))
