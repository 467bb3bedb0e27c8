-- ===== src/Workspace/Snapshot/Lookup.antt =====
-- A snapshot as two finite maps from ids, and the operations as updates of the maps.
use mathlib.Core.Option
use open_data_fusion.Prelude.{
  String, ◌==◌, ◌≡◌, refl, ◌≢◌, Bool, true, false, ◌||◌, Option, none, some, List, [], ◌∷◌, ◌++◌,
  map, arith, if◌then◌else◌, any, find, update_first, remove_first, contains, All, Distinct,
}
use open_data_fusion.Prelude.Result.{ok, >>=-eq-ok}
use open_data_fusion.Workspace.Snapshot.{
  Node, Edge, Snapshot, Operation, move_node, add_node, remove_node, update_node, add_edge,
  remove_edge, update_edge, patch_node, patch_edge, move_to, apply_operation, apply_each,
  apply_canvas_operations, validate_snapshot,
}
use open_data_fusion.Workspace.Snapshot.Valid.{
  node_ids, edge_ids, IsAttached, IsWellFormed, apply_canvas_operations-IsWellFormed,
}

abbrev pub find_node : String → Snapshot → Option Node
find_node id s = find (λ n. n.id == id) s.nodes

abbrev pub find_edge : String → Snapshot → Option Edge
find_edge id s = find (λ e. e.id == id) s.edges

-- What an operation makes of the node with the id `j`.
abbrev pub node_after : Operation → String → Option Node → Option Node
node_after (move_node id position) j n = if id == j then Option.map (move_to position) n else n
node_after (add_node node) j n = if node.id == j then some node else n
node_after (remove_node id) j n = if id == j then none else n
node_after (update_node id patch) j n = if id == j then Option.map (patch_node patch) n else n
node_after _ j n = n

-- And of the edge with the id `j`.
abbrev pub edge_after : Operation → String → Option Edge → Option Edge
edge_after (add_edge edge) j e = if edge.id == j then some edge else e
edge_after (remove_edge id) j e = if id == j then none else e
edge_after (update_edge id patch) j e = if id == j then Option.map (patch_edge patch) e else e
edge_after _ j e = e

-- The list lemmas, for rows of any type with a text as key.
module _ {A : Type 0} (key : A → String) where
  find-update_first :
      (f : A → A)
      → ((a : A) → key (f a) ≡ key a)
      → (id j : String) (xs : List A)
      → find (λ a. key a == j) (update_first (λ a. key a == id) f xs)
        ≡ (if id == j then Option.map f (find (λ a. key a == j) xs) else find (λ a. key a == j) xs)
  find-update_first f keeps id j [] = ground arith
  find-update_first f keeps id j (x ∷ xs) =
      ground (arith, keeps x, find-update_first f keeps id j xs)

  find-append :
      (a : A) (j : String) (xs : List A)
      → any (λ b. key b == key a) xs ≡ false
      → find (λ b. key b == j) (xs ++ a ∷ [])
        ≡ (if key a == j then some a else find (λ b. key b == j) xs)
  find-append a j [] h = refl
  find-append a j (x ∷ xs) h = ground (arith, find-append a j xs)

  find_of_not_contains :
      (j : String) (xs : List A)
      → contains (map key xs) j ≡ false
      → find (λ b. key b == j) xs ≡ none
  find_of_not_contains j [] h = refl
  find_of_not_contains j (x ∷ xs) h = ground (arith, find_of_not_contains j xs)

  find-remove_first :
      (id j : String) (xs : List A)
      → Distinct (map key xs)
      → find (λ a. key a == j) (remove_first (λ a. key a == id) xs)
        ≡ (if id == j then none else find (λ a. key a == j) xs)
  find-remove_first id j [] d = ground arith
  find-remove_first id j (x ∷ xs) (new, d) =
      ground (arith, find-remove_first id j xs d, find_of_not_contains id xs)

  contains-remove_first :
      (id : String) (xs : List A)
      → Distinct (map key xs)
      → contains (map key (remove_first (λ a. key a == id) xs)) id ≡ false
  contains-remove_first id [] d = refl
  contains-remove_first id (x ∷ xs) (new, d) = ground (arith, contains-remove_first id xs d)

-- On distinct ids, an operation that succeeds updates the two maps as `node_after` and
-- `edge_after` say.
pub apply_operation-find :
    (s : Snapshot) (op : Operation) (j : String) {t : Snapshot}
    → Distinct (node_ids s)
    → Distinct (edge_ids s)
    → apply_operation s op ≡ ok t
    → (find_node j t ≡ node_after op j (find_node j s))
      × (find_edge j t ≡ edge_after op j (find_edge j s))
unfolding apply_operation
apply_operation-find s (move_node id position) j d d' h =
    ground
      (arith, find-update_first (λ (n : Node). n.id) (move_to position) (λ _. refl) id j s.nodes)
apply_operation-find s (add_node node) j d d' h =
    ground (arith, find-append (λ (n : Node). n.id) node j s.nodes)
apply_operation-find s (remove_node id) j d d' h =
    ground (arith, find-remove_first (λ (n : Node). n.id) id j s.nodes d)
apply_operation-find s (update_node id patch) j d d' h =
    ground
      (arith, find-update_first (λ (n : Node). n.id) (patch_node patch) (λ _. refl) id j s.nodes)
apply_operation-find s (add_edge edge) j d d' h =
    ground (arith, find-append (λ (e : Edge). e.id) edge j s.edges)
apply_operation-find s (remove_edge id) j d d' h =
    ground (arith, find-remove_first (λ (e : Edge). e.id) id j s.edges d')
apply_operation-find s (update_edge id patch) j d d' h =
    ground
      (arith, find-update_first (λ (e : Edge). e.id) (patch_edge patch) (λ _. refl) id j s.edges)

abbrev pub touches : String → Edge → Bool
touches id e = e.source == id || e.target == id

not_attached :
    (ids : List String) (id : String) (edges : List Edge)
    → contains ids id ≡ false
    → any (touches id) edges ≡ true
    → All (IsAttached ids) edges
    → ⊥
not_attached ids id [] h t a = cc
not_attached ids id (e ∷ edges) h t a = ground (arith, not_attached ids id edges h)

-- In a well-formed snapshot, a batch that only takes out a node that an edge touches is
-- refused.
pub remove_node-refused :
    (s t : Snapshot) (id : String)
    → IsWellFormed s
    → any (touches id) s.edges ≡ true
    → apply_canvas_operations s (remove_node id ∷ []) ≢ ok t
unfolding apply_canvas_operations
remove_node-refused s t id w touched h =
    let (next, applied, rest) = >>=-eq-ok (apply_each s (remove_node id ∷ [])) _ h in
    let (_, valid, same) = >>=-eq-ok (validate_snapshot next) _ rest in
    not_attached (node_ids t) id t.edges (gone next applied (cc)) (still next applied (cc))
      (apply_canvas_operations-IsWellFormed s (remove_node id ∷ []) h).attached
  where
    gone :
        (next : Snapshot)
        → apply_each s (remove_node id ∷ []) ≡ ok next
        → next ≡ t
        → contains (node_ids t) id ≡ false
    gone next a e =
        ground (arith, contains-remove_first (λ (n : Node). n.id) id s.nodes w.nodes_distinct)

    still :
        (next : Snapshot)
        → apply_each s (remove_node id ∷ []) ≡ ok next
        → next ≡ t
        → any (touches id) t.edges ≡ true
    still next a e = ground arith
