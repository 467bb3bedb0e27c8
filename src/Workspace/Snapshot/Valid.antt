-- ===== src/Workspace/Snapshot/Valid.antt =====
-- What `validateWorkspaceSnapshot` accepts.
use open_data_fusion.Prelude.{
  String, ◌≡◌, refl, sym, ◌∙◌, true, ◌||◌, ◌↔◌, List, [], ◌∷◌, map, arith, contains, All, All-map,
  Distinct,
}
use open_data_fusion.Prelude.Sets.{Fresh, Fresh→Distinct, Distinct→Fresh}
use open_data_fusion.Prelude.Result.{ok, >>=-eq-ok}
use open_data_fusion.Workspace.Snapshot.{
  Node, Edge, Snapshot, Operation, collect_nodes, check_edges, validate_snapshot, apply_each,
  apply_canvas_operations,
}

abbrev pub node_ids : Snapshot → List String
node_ids s = map (λ n. n.id) s.nodes

abbrev pub edge_ids : Snapshot → List String
edge_ids s = map (λ e. e.id) s.edges

-- Both ends of the edge are among the ids.
abbrev pub IsAttached : List String → Edge → Type 0
IsAttached ids e = (contains ids e.source ≡ true) × (contains ids e.target ≡ true)

-- No node id and no edge id occurs twice, and every edge joins nodes of the snapshot.
pub record IsWellFormed (s : Snapshot) : Type 0 where
  pub nodes_distinct : Distinct (node_ids s)
  pub edges_distinct : Distinct (edge_ids s)
  pub attached : All (IsAttached (node_ids s)) s.edges

collect_nodes-Fresh :
    (seen : List String) (nodes : List Node) {ids : List String}
    → collect_nodes seen nodes ≡ ok ids
    → Fresh seen (map (λ n. n.id) nodes)
unfolding collect_nodes
collect_nodes-Fresh seen [] h = tt
collect_nodes-Fresh seen (n ∷ nodes) {ids} h =
    (ground arith, collect_nodes-Fresh (n.id ∷ seen) nodes {ids = ids} (ground arith))

Fresh-collect_nodes :
    (seen : List String) (nodes : List Node)
    → Fresh seen (map (λ n. n.id) nodes)
    → (ids : List String) × (collect_nodes seen nodes ≡ ok ids)
unfolding collect_nodes
Fresh-collect_nodes seen [] h = (seen, refl)
Fresh-collect_nodes seen (n ∷ nodes) (new, h) =
    let (ids, e) = Fresh-collect_nodes (n.id ∷ seen) nodes h in (ids, rw new e)

contains-collect_nodes :
    (seen : List String) (nodes : List Node) (a : String) {ids : List String}
    → collect_nodes seen nodes ≡ ok ids
    → contains ids a ≡ (contains seen a || contains (map (λ n. n.id) nodes) a)
unfolding collect_nodes
contains-collect_nodes seen [] a h = ground arith
contains-collect_nodes seen (n ∷ nodes) a {ids} h =
    ground (arith, contains-collect_nodes (n.id ∷ seen) nodes a {ids = ids})

check_edges-Fresh :
    (ids seen : List String) (edges : List Edge)
    → check_edges ids seen edges ≡ ok tt
    → Fresh seen (map (λ e. e.id) edges) × All (IsAttached ids) edges
unfolding check_edges
check_edges-Fresh ids seen [] h = (tt, tt)
check_edges-Fresh ids seen (e ∷ edges) h =
    let (fresh, attached) = check_edges-Fresh ids (e.id ∷ seen) edges (ground arith) in
    ((ground arith, fresh), (ground arith, attached))

Fresh-check_edges :
    (ids seen : List String) (edges : List Edge)
    → Fresh seen (map (λ e. e.id) edges)
    → All (IsAttached ids) edges
    → check_edges ids seen edges ≡ ok tt
unfolding check_edges
Fresh-check_edges ids seen [] f a = refl
Fresh-check_edges ids seen (e ∷ edges) (new, f) ((from, to), a) =
    rw (new, from, to) (Fresh-check_edges ids (e.id ∷ seen) edges f a)

-- The check passes exactly on the well-formed snapshots.
pub validate_snapshot_iff : (s : Snapshot) → (validate_snapshot s ≡ ok tt) ↔ IsWellFormed s
unfolding validate_snapshot
validate_snapshot_iff s = (sound, complete)
  where
    sound : validate_snapshot s ≡ ok tt → IsWellFormed s
    sound h =
        let (ids, collected, checked) = >>=-eq-ok (collect_nodes [] s.nodes) _ h in
        let (fresh, attached) = check_edges-Fresh ids [] s.edges checked in
        record {
          nodes_distinct = Fresh→Distinct _ (collect_nodes-Fresh [] s.nodes collected);
          edges_distinct = Fresh→Distinct _ fresh;
          attached =
              All-map _ _
                (λ e (from, to). (
                  sym (contains-collect_nodes [] s.nodes e.source collected) ∙ from,
                  sym (contains-collect_nodes [] s.nodes e.target collected) ∙ to,
                ))
                s.edges attached;
        }

    complete : IsWellFormed s → validate_snapshot s ≡ ok tt
    complete w =
        let (ids, collected) =
          Fresh-collect_nodes [] s.nodes (Distinct→Fresh (node_ids s) w.nodes_distinct) in
        rw collected (
          Fresh-check_edges ids [] s.edges (Distinct→Fresh (edge_ids s) w.edges_distinct) (
            All-map _ _
              (λ e (from, to). (
                contains-collect_nodes [] s.nodes e.source collected ∙ from,
                contains-collect_nodes [] s.nodes e.target collected ∙ to,
              ))
              s.edges w.attached))

-- Whatever the operations, a result is well formed, also where the snapshot before was not.
pub apply_canvas_operations-IsWellFormed :
    (s : Snapshot) (operations : List Operation) {t : Snapshot}
    → apply_canvas_operations s operations ≡ ok t
    → IsWellFormed t
unfolding apply_canvas_operations
apply_canvas_operations-IsWellFormed s operations h =
    let (next, applied, rest) = >>=-eq-ok (apply_each s operations) _ h in
    let (_, valid, same) = >>=-eq-ok (validate_snapshot next) _ rest in
    (validate_snapshot_iff _).0 (cc)
