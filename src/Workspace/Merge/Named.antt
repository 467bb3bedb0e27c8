-- ===== src/Workspace/Merge/Named.antt =====
-- What an operation names, which is among what it touches: independent operations name nothing in
-- common.
use open_data_fusion.Prelude.{
  String, ◌==◌, ==_refl, ◌≡◌, refl, sym, ap, ◌∙◌, Bool, true, false, Option, none, some, List, [],
  ◌∷◌, ◌++◌, arith, if◌then◌else◌, contains, contains-append, Bool-cases, inl, inr,
}
use open_data_fusion.Prelude.Sets.{All_of_contains}
use open_data_fusion.Workspace.Snapshot.{
  Node, Edge, Snapshot, Operation, move_node, add_node, remove_node, update_node, add_edge,
  remove_edge, update_edge,
}
use open_data_fusion.Workspace.Snapshot.Lookup.{find_edge, node_after, edge_after, touches}
use open_data_fusion.Workspace.Merge.{
  touched_resources, node_resource, edge_resource, add, add_edges_of, add_ends,
}
use open_data_fusion.Workspace.Merge.Independent.{IsIndependent}

-- The ids that an operation names.
abbrev pub names_node : Operation → String → Bool
names_node (move_node id _) j = id == j
names_node (add_node node) j = node.id == j
names_node (remove_node id) j = id == j
names_node (update_node id _) j = id == j
names_node _ j = false

abbrev pub names_edge : Operation → String → Bool
names_edge (add_edge edge) j = edge.id == j
names_edge (remove_edge id) j = id == j
names_edge (update_edge id _) j = id == j
names_edge _ j = false

pub node_after-other :
    (op : Operation) (j : String) (n : Option Node)
    → names_node op j ≡ false
    → node_after op j n ≡ n
node_after-other (move_node id position) j n h = ground arith
node_after-other (add_node node) j n h = ground arith
node_after-other (remove_node id) j n h = ground arith
node_after-other (update_node id patch) j n h = ground arith
node_after-other (add_edge edge) j n h = refl
node_after-other (remove_edge id) j n h = refl
node_after-other (update_edge id patch) j n h = refl

pub edge_after-other :
    (op : Operation) (j : String) (e : Option Edge)
    → names_edge op j ≡ false
    → edge_after op j e ≡ e
edge_after-other (move_node id position) j e h = refl
edge_after-other (add_node node) j e h = refl
edge_after-other (remove_node id) j e h = refl
edge_after-other (update_node id patch) j e h = refl
edge_after-other (add_edge edge) j e h = ground arith
edge_after-other (remove_edge id) j e h = ground arith
edge_after-other (update_edge id patch) j e h = ground arith

contains-add :
    (rs : List String) (r k : String) → contains rs k ≡ true → contains (add rs r) k ≡ true
contains-add rs r k h =
    elim (contains rs r) as (λ b. contains (if b then rs else rs ++ r ∷ []) k ≡ true) [
      | true ↦ h
      | false ↦ ground (arith, contains-append rs (r ∷ []) k)
    ]

contains-add_edges_of :
    (id : String) (edges : List Edge) (rs : List String) (k : String)
    → contains rs k ≡ true
    → contains (add_edges_of id edges rs) k ≡ true
contains-add_edges_of id [] rs k h = h
contains-add_edges_of id (e ∷ edges) rs k h =
    contains-add_edges_of id edges _ k
      (elim (touches id e)
        as (λ b. contains (if b then add rs (edge_resource e.id) else rs) k ≡ true) [
          | true ↦ contains-add rs (edge_resource e.id) k h
          | false ↦ h
        ])

contains-add_ends :
    (found : Option Edge) (rs : List String) (k : String)
    → contains rs k ≡ true
    → contains (add_ends found rs) k ≡ true
contains-add_ends none rs k h = h
contains-add_ends (some e) rs k h =
    contains-add (add rs (node_resource e.source)) (node_resource e.target) k
      (contains-add rs (node_resource e.source) k h)

only :
    (id j : String) (resource : String → String)
    → (id == j) ≡ true
    → contains (resource id ∷ []) (resource j) ≡ true
only id j resource h =
    let same : id ≡ j = ground arith in rw same (ground (arith, ==_refl (resource j)))

names_node-touched :
    (op : Operation) (s : Snapshot) (j : String)
    → names_node op j ≡ true
    → contains (touched_resources op s) (node_resource j) ≡ true
unfolding touched_resources
names_node-touched (move_node id position) s j h = only id j node_resource h
names_node-touched (add_node node) s j h = only node.id j node_resource h
names_node-touched (remove_node id) s j h =
    contains-add_edges_of id s.edges _ _ (only id j node_resource h)
names_node-touched (update_node id patch) s j h = only id j node_resource h
names_node-touched (add_edge edge) s j h = cc
names_node-touched (remove_edge id) s j h = cc
names_node-touched (update_edge id patch) s j h = cc

names_edge-touched :
    (op : Operation) (s : Snapshot) (j : String)
    → names_edge op j ≡ true
    → contains (touched_resources op s) (edge_resource j) ≡ true
unfolding touched_resources
names_edge-touched (add_edge edge) s j h =
    contains-add (add (edge_resource edge.id ∷ []) (node_resource edge.source))
      (node_resource edge.target) (edge_resource j)
      (contains-add (edge_resource edge.id ∷ []) (node_resource edge.source) (edge_resource j)
        (only edge.id j edge_resource h))
names_edge-touched (remove_edge id) s j h =
    contains-add_ends (find_edge id s) _ _ (only id j edge_resource h)
names_edge-touched (update_edge id patch) s j h = only id j edge_resource h
names_edge-touched (move_node id position) s j h = cc
names_edge-touched (add_node node) s j h = cc
names_edge-touched (remove_node id) s j h = cc
names_edge-touched (update_node id patch) s j h = cc

-- Nothing is named by two independent operations.
pub names_node-disjoint :
    (s : Snapshot) (a b : Operation) (j : String)
    → IsIndependent s a b
    → names_node b j ≡ true
    → names_node a j ≡ false
names_node-disjoint s a b j free h = elim (Bool-cases (names_node a j)) [
  | inr e ↦ e
  | inl e ↦
      let other =
        All_of_contains (λ r. contains (touched_resources a s) r ≡ false) (touched_resources b s)
          (node_resource j) free (names_node-touched b s j h) in
      let mine = names_node-touched a s j e in ground arith
]

pub names_edge-disjoint :
    (s : Snapshot) (a b : Operation) (j : String)
    → IsIndependent s a b
    → names_edge b j ≡ true
    → names_edge a j ≡ false
names_edge-disjoint s a b j free h = elim (Bool-cases (names_edge a j)) [
  | inr e ↦ e
  | inl e ↦
      let other =
        All_of_contains (λ r. contains (touched_resources a s) r ≡ false) (touched_resources b s)
          (edge_resource j) free (names_edge-touched b s j h) in
      let mine = names_edge-touched a s j e in ground arith
]

pub node_after-commute :
    (s : Snapshot) (a b : Operation) (j : String) (n : Option Node)
    → IsIndependent s a b
    → node_after b j (node_after a j n) ≡ node_after a j (node_after b j n)
node_after-commute s a b j n free = elim (Bool-cases (names_node b j)) [
  | inl e ↦
      let other = names_node-disjoint s a b j free e in
      ap (node_after b j) (node_after-other a j n other)
      ∙ sym (node_after-other a j (node_after b j n) other)
  | inr e ↦
      node_after-other b j (node_after a j n) e
      ∙ ap (node_after a j) (sym (node_after-other b j n e))
]

pub edge_after-commute :
    (s : Snapshot) (a b : Operation) (j : String) (n : Option Edge)
    → IsIndependent s a b
    → edge_after b j (edge_after a j n) ≡ edge_after a j (edge_after b j n)
edge_after-commute s a b j n free = elim (Bool-cases (names_edge b j)) [
  | inl e ↦
      let other = names_edge-disjoint s a b j free e in
      ap (edge_after b j) (edge_after-other a j n other)
      ∙ sym (edge_after-other a j (edge_after b j n) other)
  | inr e ↦
      edge_after-other b j (edge_after a j n) e
      ∙ ap (edge_after a j) (sym (edge_after-other b j n e))
]
