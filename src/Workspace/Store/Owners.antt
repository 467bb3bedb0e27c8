-- ===== src/Workspace/Store/Owners.antt =====
-- The membership handlers keep the tables consistent: a workspace never loses its last owner.
use open_data_fusion.Prelude.{
  String, String_discrete, ◌==◌, ℕ, ◌≤◌, ◌≡◌, refl, ◌≢◌, Bool, true, false, ◌&&◌, Option, none,
  some, inl, inr, List, [], ◌∷◌, ◌++◌, arith, any, find, count, leb, Option-cases, remove_first,
  ==_refl,
}
use open_data_fusion.Prelude.Search.{
  any_mono, any-append, any-find, find-append, find_of_not_any, find_passes, count-append,
  count-remove_first, count-update_first,
}
use open_data_fusion.Prelude.Result.{ok}
use open_data_fusion.Workspace.Store.Tables.{
  Role, is_owner, WorkspaceRow, RevisionRow, MemberRow, Context, Database, find_workspace,
  find_revision, is_revision, owner_count, is_owner_of, find_member, is_member, insert_audit,
}
use open_data_fusion.Workspace.Store.Members.{
  create_workspace, renamed, new_workspace, first_owner, first_revision, demotes_last, new_member,
  upsert_row, upsert_workspace_member, remove_workspace_member,
}
use open_data_fusion.Workspace.Store.Consistent.{
  is_later, IsConsistent, Consistent-same, Consistent-append,
}

-- `createWorkspace` adds a first row of each kind for an id that no workspace has.
record Created (row : WorkspaceRow) (first : RevisionRow) (member : MemberRow) (db next : Database)
    : Type 0 where
  absent : find_workspace row.id db ≡ none
  workspaces : next.workspaces ≡ db.workspaces ++ row ∷ []
  revisions : next.revisions ≡ db.revisions ++ first ∷ []
  members : next.members ≡ db.members ++ member ∷ []

create_workspace-Created :
    (context : Context) (id name actor display_name correlation_id now : String)
    (db next : Database) {w : WorkspaceRow}
    → create_workspace context id name actor display_name correlation_id now db ≡ ok (next, w)
    → Created
        (new_workspace id name actor now)
        (first_revision id actor correlation_id now)
        (first_owner id actor display_name now)
        db
        next
unfolding create_workspace insert_audit
create_workspace-Created context id name actor display_name correlation_id now db next h =
    ground arith

module _ {row : WorkspaceRow} {first : RevisionRow} {member : MemberRow} {db next : Database}
    (k : Created row first member db next) where
  owner_count_grows : (j : String) → owner_count j db ≤ owner_count j next
  owner_count_grows j =
      let more = count-append (is_owner_of j) db.members member in
      rw k.members (omega (arith, more))

  Created-IsConsistent :
      first.workspace_id ≡ row.id
      → first.version ≡ row.version
      → first.snapshot ≡ row.snapshot
      → is_owner_of row.id member ≡ true
      → IsConsistent db
      → IsConsistent next
  Created-IsConsistent of version snapshot owns c j = elim (String_discrete row.id j) [
    | yes same ↦
        let none_before : any (λ r. r.workspace_id == row.id) db.revisions ≡ false =
          rw k.absent at (c row.id) in
        rw (← same) (
          rw here (record {
            newest = newest none_before;
            kept = (first, kept none_before, snapshot);
            owned = owned;
          }))
    | no other ↦
        Consistent-append db next first j (rw of other) (elsewhere j other) k.revisions
          (λ h. omega (arith, owner_count_grows j)) (c j)
  ]
    where
      here : find_workspace row.id next ≡ some row
      here = rw (k.workspaces, find-append, k.absent) (ground (arith, ==_refl row.id))

      elsewhere : (j : String) → row.id ≢ j → find_workspace j next ≡ find_workspace j db
      elsewhere j other = rw (k.workspaces, find-append) (ground arith)

      newest :
          any (λ r. r.workspace_id == row.id) db.revisions ≡ false
          → any (is_later row.id row.version) next.revisions ≡ false
      newest h =
          rw (k.revisions, any-append)
            (ground (
              arith,
              any_mono (is_later row.id row.version) (λ r. r.workspace_id == row.id)
                  (λ r p. ground arith) db.revisions h,
            ))

      kept :
          any (λ r. r.workspace_id == row.id) db.revisions ≡ false
          → find_revision row.id row.version next ≡ some first
      kept h =
          let gone =
            any_mono (is_revision row.id row.version) (λ r. r.workspace_id == row.id)
              (λ r p. ground arith) db.revisions h in
          rw (k.revisions, find-append, find_of_not_any _ db.revisions gone)
            (ground (arith, ==_refl row.id))

      owned : 1 ≤ owner_count row.id next
      owned = rw (k.members, count-append, owns) (omega arith)

-- A handler that changes the members alone, and leaves an owner to the workspace that had one.
Consistent_of_members :
    (db next : Database)
    → next.workspaces ≡ db.workspaces
    → next.revisions ≡ db.revisions
    → ((j : String) → 1 ≤ owner_count j db → 1 ≤ owner_count j next)
    → IsConsistent db
    → IsConsistent next
Consistent_of_members db next ws revs owners c j =
    Consistent-same db next j (rw ws) revs (owners j) (c j)

upsert_row-owners :
    (row : MemberRow) (j : String) (members : List MemberRow)
    → demotes_last
        (find (is_member row.workspace_id row.user_id) members)
        row.role
        (count (is_owner_of row.workspace_id) members)
      ≡ false
    → 1 ≤ count (is_owner_of j) members
    → 1 ≤ count (is_owner_of j) (upsert_row row members)
upsert_row-owners row j members safe h =
    elim (Option-cases (find (is_member row.workspace_id row.user_id) members)) [
      | inl gone ↦ rw (any-find, gone, count-append) (omega arith)
      | inr (m, found) ↦
          rw (any-find, found)
            (ground (
              arith,
              count-update_first (is_owner_of j) (is_member row.workspace_id row.user_id)
                  (renamed row) members found,
              find_passes (is_member row.workspace_id row.user_id) members found,
            ))
    ]

remove_first-owners :
    (id user_id j : String) (members : List MemberRow) {m : MemberRow}
    → find (is_member id user_id) members ≡ some m
    → (is_owner m.role && leb (count (is_owner_of id) members) 1) ≡ false
    → 1 ≤ count (is_owner_of j) members
    → 1 ≤ count (is_owner_of j) (remove_first (is_member id user_id) members)
remove_first-owners id user_id j members {m} found safe h = ground (
  arith,
  count-remove_first (is_owner_of j) (is_member id user_id) members found,
  find_passes (is_member id user_id) members found,
)

upsert_workspace_member-rows :
    (id actor target display_name : String) (role : Role) (correlation_id now : String)
    (context : Option Context) (db next : Database) {r : MemberRow × Bool}
    → upsert_workspace_member id actor target display_name role correlation_id now context db
      ≡ ok (next, r)
    → let row : MemberRow = new_member id target display_name role now in
      (next.workspaces ≡ db.workspaces)
      × (next.revisions ≡ db.revisions)
      × (next.members ≡ upsert_row row db.members)
      × (demotes_last (find_member id target db) role (owner_count id db) ≡ false)
unfolding upsert_workspace_member insert_audit
upsert_workspace_member-rows id actor target display_name role correlation_id now context db next
      h =
    ground arith

pub upsert_workspace_member-IsConsistent :
    (id actor target display_name : String) (role : Role) (correlation_id now : String)
    (context : Option Context) (db next : Database) {r : MemberRow × Bool}
    → upsert_workspace_member id actor target display_name role correlation_id now context db
      ≡ ok (next, r)
    → IsConsistent db
    → IsConsistent next
upsert_workspace_member-IsConsistent id actor target name role correlation now context db next h c =
    let (ws, revs, mems, safe) =
      upsert_workspace_member-rows id actor target name role correlation now context db next h in
    Consistent_of_members db next ws revs
      (λ j k. rw mems (upsert_row-owners (new_member id target name role now) j db.members safe k))
      c

remove_workspace_member-rows :
    (id actor target correlation_id now : String) (context : Option Context) (db next : Database)
    {m : MemberRow}
    → remove_workspace_member id actor target correlation_id now context db ≡ ok (next, m)
    → (next.workspaces ≡ db.workspaces)
      × (next.revisions ≡ db.revisions)
      × (next.members ≡ remove_first (is_member id target) db.members)
      × (find_member id target db ≡ some m)
      × ((is_owner m.role && leb (owner_count id db) 1) ≡ false)
unfolding remove_workspace_member insert_audit
remove_workspace_member-rows id actor target correlation_id now context db next h = ground arith

pub remove_workspace_member-IsConsistent :
    (id actor target correlation_id now : String) (context : Option Context) (db next : Database)
    {m : MemberRow}
    → remove_workspace_member id actor target correlation_id now context db ≡ ok (next, m)
    → IsConsistent db
    → IsConsistent next
remove_workspace_member-IsConsistent id actor target correlation now context db next h c =
    let (ws, revs, mems, found, safe) =
      remove_workspace_member-rows id actor target correlation now context db next h in
    Consistent_of_members db next ws revs
      (λ j k. rw mems (remove_first-owners id target j db.members found safe k)) c

pub create_workspace-IsConsistent :
    (context : Context) (id name actor display_name correlation_id now : String)
    (db next : Database) {w : WorkspaceRow}
    → create_workspace context id name actor display_name correlation_id now db ≡ ok (next, w)
    → IsConsistent db
    → IsConsistent next
create_workspace-IsConsistent context id name actor display_name correlation now db next h c =
    Created-IsConsistent
      (create_workspace-Created context id name actor display_name correlation now db next h) refl
      refl refl (ground (arith, ==_refl id)) c

-- Rows are only added to the revisions.
pub create_workspace-find_revision :
    (context : Context) (id name actor display_name correlation_id now : String)
    (db next : Database) {w : WorkspaceRow} (j : String) (v : ℕ) {r : RevisionRow}
    → create_workspace context id name actor display_name correlation_id now db ≡ ok (next, w)
    → find_revision j v db ≡ some r
    → find_revision j v next ≡ some r
create_workspace-find_revision context id name actor display_name correlation now db next j v h e =
    let k = create_workspace-Created context id name actor display_name correlation now db next h in
    rw (k.revisions, find-append, e) refl

pub upsert_workspace_member-find_revision :
    (id actor target display_name : String) (role : Role) (correlation_id now : String)
    (context : Option Context) (db next : Database) {m : MemberRow × Bool} (j : String) (v : ℕ)
    {r : RevisionRow}
    → upsert_workspace_member id actor target display_name role correlation_id now context db
      ≡ ok (next, m)
    → find_revision j v db ≡ some r
    → find_revision j v next ≡ some r
upsert_workspace_member-find_revision id actor target name role correlation now context db next j v
      h e =
    let (_, revs, _, _) =
      upsert_workspace_member-rows id actor target name role correlation now context db next h in
    rw revs e

pub remove_workspace_member-find_revision :
    (id actor target correlation_id now : String) (context : Option Context) (db next : Database)
    {m : MemberRow} (j : String) (v : ℕ) {r : RevisionRow}
    → remove_workspace_member id actor target correlation_id now context db ≡ ok (next, m)
    → find_revision j v db ≡ some r
    → find_revision j v next ≡ some r
remove_workspace_member-find_revision id actor target correlation now context db next j v h e =
    let (_, revs, _, _, _) =
      remove_workspace_member-rows id actor target correlation now context db next h in
    rw revs e
