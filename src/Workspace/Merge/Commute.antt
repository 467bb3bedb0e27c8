-- ===== src/Workspace/Merge/Commute.antt =====
-- Independent operations commute.
use open_data_fusion.Prelude.{
  String, ◌==◌, ==_refl, ◌≡◌, refl, sym, ap, ◌∙◌, Bool, true, false, not, arith, if◌then◌else◌,
  is_some,
}
use open_data_fusion.Prelude.Search.{any-find}
use open_data_fusion.Prelude.Result.{ok, err}
use open_data_fusion.Workspace.Snapshot.{
  Node, Edge, Snapshot, Operation, move_node, add_node, remove_node, update_node, add_edge,
  remove_edge, update_edge, has_node, has_edge, apply_operation,
}
use open_data_fusion.Workspace.Snapshot.Lookup.{find_node, find_edge, node_after, edge_after}
use open_data_fusion.Workspace.Merge.Independent.{IsIndependent}
use open_data_fusion.Workspace.Snapshot.Keyed.{IsKeyed, apply_operation-IsKeyed, if_ok, if_err}
use open_data_fusion.Workspace.Snapshot.Lookup.{apply_operation-find}
use open_data_fusion.Workspace.Merge.Named.{
  names_node, names_edge, node_after-other, edge_after-other, names_node-disjoint,
  names_edge-disjoint, node_after-commute, edge_after-commute,
}

-- What an operation asks of the snapshot.
abbrev allowed : Operation → Snapshot → Bool
allowed (move_node id _) s = has_node id s.nodes
allowed (add_node node) s = not (has_node node.id s.nodes)
allowed (remove_node id) s = has_node id s.nodes
allowed (update_node id _) s = has_node id s.nodes
allowed (add_edge edge) s = not (has_edge edge.id s.edges)
allowed (remove_edge id) s = has_edge id s.edges
allowed (update_edge id _) s = has_edge id s.edges

allowed_of_ok :
    (op : Operation) (s t : Snapshot) → apply_operation s op ≡ ok t → allowed op s ≡ true
unfolding apply_operation
allowed_of_ok (move_node id position) s t h = (if_ok (has_node id s.nodes) _ _ h).0
allowed_of_ok (add_node node) s t h = ap not (if_err (has_node node.id s.nodes) _ _ h).0
allowed_of_ok (remove_node id) s t h = (if_ok (has_node id s.nodes) _ _ h).0
allowed_of_ok (update_node id patch) s t h = (if_ok (has_node id s.nodes) _ _ h).0
allowed_of_ok (add_edge edge) s t h = ap not (if_err (has_edge edge.id s.edges) _ _ h).0
allowed_of_ok (remove_edge id) s t h = (if_ok (has_edge id s.edges) _ _ h).0
allowed_of_ok (update_edge id patch) s t h = (if_ok (has_edge id s.edges) _ _ h).0

ok_if :
    {E A : Type 0} (b : Bool) (x : A) (e : E)
    → b ≡ true
    → (t : A) × ((if b then ok x else err e) ≡ ok t)
ok_if true x e h = (x, refl)
ok_if false x e h = cc

ok_unless :
    {E A : Type 0} (b : Bool) (x : A) (e : E)
    → not b ≡ true
    → (t : A) × ((if b then err e else ok x) ≡ ok t)
ok_unless true x e h = cc
ok_unless false x e h = (x, refl)

ok_of_allowed :
    (op : Operation) (s : Snapshot)
    → allowed op s ≡ true
    → (t : Snapshot) × (apply_operation s op ≡ ok t)
unfolding apply_operation
ok_of_allowed (move_node id position) s h = ok_if (has_node id s.nodes) _ _ h
ok_of_allowed (add_node node) s h = ok_unless (has_node node.id s.nodes) _ _ h
ok_of_allowed (remove_node id) s h = ok_if (has_node id s.nodes) _ _ h
ok_of_allowed (update_node id patch) s h = ok_if (has_node id s.nodes) _ _ h
ok_of_allowed (add_edge edge) s h = ok_unless (has_edge edge.id s.edges) _ _ h
ok_of_allowed (remove_edge id) s h = ok_if (has_edge id s.edges) _ _ h
ok_of_allowed (update_edge id patch) s h = ok_if (has_edge id s.edges) _ _ h

has_node-same :
    (id : String) (s t : Snapshot)
    → find_node id s ≡ find_node id t
    → has_node id s.nodes ≡ has_node id t.nodes
has_node-same id s t e =
    any-find (λ (n : Node). n.id == id) s.nodes
    ∙ ap is_some e
    ∙ sym (any-find (λ (n : Node). n.id == id) t.nodes)

has_edge-same :
    (id : String) (s t : Snapshot)
    → find_edge id s ≡ find_edge id t
    → has_edge id s.edges ≡ has_edge id t.edges
has_edge-same id s t e =
    any-find (λ (n : Edge). n.id == id) s.edges
    ∙ ap is_some e
    ∙ sym (any-find (λ (n : Edge). n.id == id) t.edges)

-- An operation asks only for what it names.
allowed-same :
    (op : Operation) (s t : Snapshot)
    → ((j : String) → names_node op j ≡ true → find_node j s ≡ find_node j t)
    → ((j : String) → names_edge op j ≡ true → find_edge j s ≡ find_edge j t)
    → allowed op s ≡ allowed op t
allowed-same (move_node id _) s t n e = has_node-same id s t (n id (==_refl id))
allowed-same (add_node node) s t n e =
    ap not (has_node-same node.id s t (n node.id (==_refl node.id)))
allowed-same (remove_node id) s t n e = has_node-same id s t (n id (==_refl id))
allowed-same (update_node id _) s t n e = has_node-same id s t (n id (==_refl id))
allowed-same (add_edge edge) s t n e =
    ap not (has_edge-same edge.id s t (e edge.id (==_refl edge.id)))
allowed-same (remove_edge id) s t n e = has_edge-same id s t (e id (==_refl id))
allowed-same (update_edge id _) s t n e = has_edge-same id s t (e id (==_refl id))

-- Two operations that touch nothing in common can be applied in either order: if the one order is
-- accepted, so is the other, and each id has the same node and the same edge after both. The ids of
-- the snapshot are distinct.
pub apply_operation-commute :
    (s t u : Snapshot) (a b : Operation)
    → IsKeyed s
    → IsIndependent s a b
    → apply_operation s a ≡ ok t
    → apply_operation t b ≡ ok u
    → (t' : Snapshot) × (u' : Snapshot) × (apply_operation s b ≡ ok t')
      × (apply_operation t' a ≡ ok u')
      × ((j : String) → (find_node j u ≡ find_node j u') × (find_edge j u ≡ find_edge j u'))
apply_operation-commute s t u a b k free ha hb =
    let kt = apply_operation-IsKeyed s a k ha in
    let may_b = allowed-same b s t (λ j n. sym (first_node j n)) (λ j n. sym (first_edge j n)) in
    let (t', hb') = ok_of_allowed b s (may_b ∙ allowed_of_ok b t u hb) in
    let kt' = apply_operation-IsKeyed s b k hb' in
    let may_a =
      allowed-same a s t' (λ j n. sym (then_node t' hb' j n)) (λ j n. sym (then_edge t' hb' j n)) in
    let (u', ha') = ok_of_allowed a t' (sym may_a ∙ allowed_of_ok a s t ha) in
    (
      t',
      u',
      hb',
      ha',
      λ j.
          let (n₁, e₁) = find_after s a j k ha in
          let (n₂, e₂) = find_after t b j kt hb in
          let (n₃, e₃) = find_after s b j k hb' in
          let (n₄, e₄) = find_after t' a j kt' ha' in
          (
            n₂
                ∙ ap (node_after b j) n₁
                ∙ node_after-commute s a b j (find_node j s) free
                ∙ ap (node_after a j) (sym n₃)
                ∙ sym n₄,
            e₂
                ∙ ap (edge_after b j) e₁
                ∙ edge_after-commute s a b j (find_edge j s) free
                ∙ ap (edge_after a j) (sym e₃)
                ∙ sym e₄,
          ),
    )
  where
    find_after :
        (s : Snapshot) (op : Operation) (j : String) {t : Snapshot}
        → IsKeyed s
        → apply_operation s op ≡ ok t
        → (find_node j t ≡ node_after op j (find_node j s))
          × (find_edge j t ≡ edge_after op j (find_edge j s))
    find_after s op j k h = apply_operation-find s op j k.nodes_distinct k.edges_distinct h

    first_node : (j : String) → names_node b j ≡ true → find_node j t ≡ find_node j s
    first_node j n =
        (find_after s a j k ha).0
        ∙ node_after-other a j (find_node j s) (names_node-disjoint s a b j free n)

    first_edge : (j : String) → names_edge b j ≡ true → find_edge j t ≡ find_edge j s
    first_edge j n =
        (find_after s a j k ha).1
        ∙ edge_after-other a j (find_edge j s) (names_edge-disjoint s a b j free n)

    then_node :
        (t' : Snapshot)
        → apply_operation s b ≡ ok t'
        → (j : String) → names_node a j ≡ true
        → find_node j t' ≡ find_node j s
    then_node t' h j n =
        (find_after s b j k h).0
        ∙ node_after-other b j (find_node j s) (ground (arith, names_node-disjoint s a b j free))

    then_edge :
        (t' : Snapshot)
        → apply_operation s b ≡ ok t'
        → (j : String) → names_edge a j ≡ true
        → find_edge j t' ≡ find_edge j s
    then_edge t' h j n =
        (find_after s b j k h).1
        ∙ edge_after-other b j (find_edge j s) (ground (arith, names_edge-disjoint s a b j free))
